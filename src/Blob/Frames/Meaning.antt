-- ===== src/Blob/Frames/Meaning.antt =====
-- What a delta makes of its base, and how a range of that is made from the ranges of its pieces.
use fornacast.Prelude.{
  ℕ, zero, suc, ◌+◌, ◌-◌, ◌≤◌, ◌≡◌, sym, ap, ◌∙◌, min, max, [], ◌∷◌, ◌++◌, append-nil, length, take,
  drop, length-drop, ok, arith, dec_le,
}
use fornacast.Prelude.Bytes.{Bytes}
use fornacast.Prelude.Slices.{drop_past, drop-append, take-append, take_past, take_all}
use fornacast.Blob.Failure.{corrupt}
use fornacast.Blob.Delta.{
  DeltaInstruction, insert, copy, read_list, decode_delta_varint, decode_delta_instruction,
}

-- What an instruction adds to the result, given the bytes behind it, and what is then left of them.
abbrev pub Piece : Bytes → DeltaInstruction → Bytes → Bytes → Bytes → Type 0
Piece base (insert size) rest piece left =
    (size ≤ length rest) × (piece ≡ take size rest) × (left ≡ drop size rest)
Piece base (copy offset size) rest piece left =
    (offset + size ≤ length base) × (piece ≡ take size (drop offset base)) × (left ≡ rest)

-- With `n` instructions the delta makes the result from the base, and it ends behind them.
abbrev pub Produces : ℕ → Bytes → Bytes → Bytes → Type 0
Produces zero base delta result = (delta ≡ []) × (result ≡ [])
Produces (suc n) base delta result =
    (opcode : ℕ) × (behind rest left piece later : Bytes) × (instruction : DeltaInstruction)
    × (delta ≡ opcode ∷ behind)
    × (decode_delta_instruction corrupt opcode read_list behind ≡ ok (instruction, rest))
    × Piece base instruction rest piece left
    × (result ≡ piece ++ later)
    × Produces n base left later

-- A whole delta: the two sizes and the instructions.
abbrev pub Patches : Bytes → Bytes → Bytes → Type 0
Patches base delta result =
    (behind body : Bytes) × (n : ℕ) × (decode_delta_varint corrupt read_list delta
      ≡ ok (length base, behind))
    × (decode_delta_varint corrupt read_list behind ≡ ok (length result, body))
    × Produces n base body result

-- The part of the range from `low` to `high` that stands in `bytes`, which begin at `position`.
abbrev pub within_range : ℕ → ℕ → ℕ → Bytes → Bytes
within_range low high position bytes = take (high - max position low) (drop (low - position) bytes)

-- The part of a piece, and of what stands behind it.
pub within_range-append :
    (low high position : ℕ) (piece later : Bytes)
    → let end = position + length piece in
      within_range low high position (piece ++ later)
      ≡ take (min end high - max position low) (drop (low - position) piece)
        ++ within_range low high end later
within_range-append low high position piece later =
    let end = position + length piece in
    let part = drop (low - position) piece in
    let n = high - max position low in
    elim (dec_le end low) [
      | yes before ↦
          let gap : low - position ≡ length piece + (low - end) = omega arith in
          let none_wanted : min end high - max position low ≡ 0 = omega arith in
          let same : high - max position low ≡ high - max end low = omega arith in
          rw none_wanted (
            ap (λ k. take n (drop k (piece ++ later))) gap
            ∙ ap (take n) (drop_past (low - end) piece later)
            ∙ ap (λ k. take k (drop (low - end) later)) same)
      | no inside ↦
          let from_part : drop (low - position) (piece ++ later) ≡ part ++ later =
            drop-append (low - position) piece later (omega arith) in
          let size = length-drop (low - position) piece in
          let at_start : low - end ≡ 0 = omega arith in
          elim (dec_le high end) [
            | yes ends ↦
                let all : min end high - max position low ≡ n = omega arith in
                let none_left : high - max end low ≡ 0 = omega arith in
                rw (all, none_left)
                  (ap (take n) from_part
                    ∙ take-append n part later (omega (arith, size))
                    ∙ sym (append-nil (take n part)))
            | no goes_on ↦
                let whole : length part ≤ min end high - max position low = omega (arith, size) in
                let rest : n - length part ≡ high - max end low = omega (arith, size) in
                ap (take n) from_part
                ∙ take_past n part later (omega (arith, size))
                ∙ ap (λ k. part ++ take k later) rest
                ∙ ap (λ x. x ++ take (high - max end low) later)
                    (sym (take_all (min end high - max position low) part whole))
                ∙ ap
                    (λ k.
                      take (min end high - max position low) part
                      ++ take (high - max end low) (drop k later))
                    (sym at_start)
          ]
    ]
