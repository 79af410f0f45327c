-- ===== src/Blob/Decode/Stored.antt =====
-- An inflater for the tests: its input stands for itself up to the byte 255, which ends the stream.
pub mod Works
use fornacast.Prelude.{
  ℕ, zero, suc, ◌+◌, ◌-◌, ◌≤◌, ◌≡◌, refl, sym, ap, ◌∙◌, subst, Bool, true, false, Bool-cases, inl,
  inr, some, [], ◌∷◌, ◌++◌, length, drop, ◌==◌, if◌then◌else◌, arith,
}
use fornacast.Prelude.Bytes.{Bytes}
use fornacast.Blob.Zlib.{Status, more_to_come, stream_end, Inflater}
use fornacast.Blob.Stream.{is_end}
use fornacast.Blob.Stream.Inflating.{Inflates}

abbrev pub plain : Bytes → Bytes
plain [] = []
plain (b ∷ bs) = let rest = plain bs in if b == 255 then [] else b ∷ rest

-- What is read, what is written and whether the end is reached.
pub record Scan : Type 0 where
  pub consumed : ℕ
  pub written : Bytes
  pub ended : Bool

abbrev pub more : ℕ → Scan → Scan
more b s = record { consumed = s.consumed + 1; written = b ∷ s.written; ended = s.ended }

abbrev pub scan : Bytes → ℕ → Scan
scan [] room = record { consumed = 0; written = []; ended = false }
scan (b ∷ bs) zero = record { consumed = if b == 255 then 1 else 0; written = []; ended = b == 255 }
scan (b ∷ bs) (suc room) =
    let rest = scan bs room in
    if b == 255 then record { consumed = 1; written = []; ended = true } else more b rest

pub record Stored : Type 0 where
  pub total_in : ℕ
  pub total_out : ℕ
  pub over : Bool

abbrev pub status_of : Bool → Status
status_of true = stream_end
status_of false = more_to_come

abbrev pub stored : Inflater Stored
stored = record {
  fresh = record { total_in = 0; total_out = 0; over = false };
  decompress = λ d input room finish.
      if d.over
      then some (stream_end, [], d)
      else (let s = scan input room in
          some (
            status_of s.ended,
            s.written,
            record {
              total_in = d.total_in + s.consumed;
              total_out = d.total_out + length s.written;
              over = s.ended;
            },
          ));
  total_in = λ d. d.total_in;
  total_out = λ d. d.total_out;
}

abbrev pub Left : Stored → Bytes → Bytes → Type 0
Left d input left = left ≡ (if d.over then [] else plain input)

abbrev Scanned : Bytes → Bytes → Scan → Type 0
Scanned chunk rest s =
    (s.consumed ≤ length chunk)
    × (plain (chunk ++ rest)
        ≡ s.written ++ (if s.ended then [] else plain (drop s.consumed chunk ++ rest)))

scan-Scanned : (chunk rest : Bytes) (room : ℕ) → Scanned chunk rest (scan chunk room)
scan-Scanned [] rest room = (omega arith, refl)
scan-Scanned (b ∷ bs) rest zero = elim (Bool-cases (b == 255)) [
  | inl ends ↦ rw ends (omega arith, refl)
  | inr goes_on ↦ rw goes_on (omega arith, rw goes_on refl)
]
scan-Scanned (b ∷ bs) rest (suc room) = elim (Bool-cases (b == 255)) [
  | inl ends ↦ rw ends (omega arith, refl)
  | inr goes_on ↦
      let (fits, split) = scan-Scanned bs rest room in
      let s = scan bs room in
      let at : s.consumed + 1 ≡ suc s.consumed = omega arith in
      rw goes_on (
        omega (arith, fits),
        ap (λ x. b ∷ x) split
            ∙ ap (λ k. b ∷ s.written ++ (if s.ended then [] else plain (drop k (b ∷ bs) ++ rest)))
                (sym at),
      )
]

abbrev Lawful : Stored → Bytes → Bytes → Bytes → Status × Bytes × Stored → Type 0
Lawful d chunk rest left r =
    (r.2.total_in - d.total_in ≤ length chunk)
    × (later : Bytes) × (left ≡ r.1 ++ later)
    × (is_end r.0 ≡ true → later ≡ [])
    × Left r.2 (drop (r.2.total_in - d.total_in) chunk ++ rest) later

ended_later :
    (e : Bool) (later : Bytes) → is_end (status_of e) ≡ true → (if e then [] else later) ≡ []
ended_later true later h = refl
ended_later false later h = cc

pub stored-Inflates : Inflates stored Left
stored-Inflates d chunk rest left room finish status written d' pending call =
    elim (Bool-cases d.over) [
      | inl over ↦
          let same : ◌≡◌ {A = Status × Bytes × Stored} (stream_end, [], d) (status, written, d') =
            cc (rw over at call) in
          let none_left : left ≡ [] = rw over at pending in
          subst (Lawful d chunk rest left) same
            (omega arith, [], none_left, λ h. refl, rw over refl)
      | inr running ↦
          let s = scan chunk room in
          let (fits, split) = scan-Scanned chunk rest room in
          let next : Stored = record {
            total_in = d.total_in + s.consumed;
            total_out = d.total_out + length s.written;
            over = s.ended;
          } in
          let same : ◌≡◌ {A = Status × Bytes × Stored} (status_of s.ended, s.written, next)
              (status, written, d') =
            cc (rw running at call) in
          let all : left ≡ plain (chunk ++ rest) = rw running at pending in
          let used : d.total_in + s.consumed - d.total_in ≡ s.consumed = omega arith in
          subst (Lawful d chunk rest left) same (
            omega (arith, fits),
            (if s.ended then [] else plain (drop s.consumed chunk ++ rest)),
            all ∙ split,
            ended_later s.ended (plain (drop s.consumed chunk ++ rest)),
            ap (λ k. if s.ended then [] else plain (drop k chunk ++ rest)) (sym used),
          )
    ]
