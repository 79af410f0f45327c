-- ===== src/Blob/Delta/Varint.antt =====
-- What the variable-length numbers of a delta header stand for.
use fornacast.Prelude.{
  ℕ, zero, suc, ◌+◌, ◌*◌, ◌/◌, ◌%◌, ◌^◌, ◌≤◌, ◌<◌, ◌≡◌, ◌↔◌, refl, sym, ap, ◌∙◌, subst, ok, err, [],
  ◌∷◌, ◌++◌, length, ltb, if◌then◌else◌, dec_lt, lt→ltb, arith, All, false,
}
use Prim.Native.Nat.{bit_or}
use native.Mathlib.Nat.{mod-eq_of_lt}
use native.Mathlib.Numerals.{towards_suc}
use fornacast.Prelude.Bits.{bit_or_disjoint, bit_and_low, bit_and_top}
use fornacast.Prelude.Bytes.{Bytes, IsByte}
use fornacast.Blob.Failure.{DecodeResult, corrupt}
use fornacast.Prelude.Word.{u64_mod, u64_max}
use fornacast.Blob.Delta.{read_list, varint_rounds, decode_delta_varint}

-- Groups of seven bits, the lowest first; every byte but the last has its top bit set.
pub data IsVarint : Bytes → ℕ → Type 0 where
  last : (b : ℕ) → b < 128 → IsVarint (b ∷ []) b
  more :
      {bs : Bytes} {n : ℕ} (b : ℕ)
      → 128 ≤ b
      → b < 256
      → IsVarint bs n
      → IsVarint (b ∷ bs) (b % 128 + 128 * n)

shift_seven : (i : ℕ) → 2 ^ ((i + 1) * 7) ≡ 2 ^ (i * 7) * 128
shift_seven i =
    let e : (i + 1) * 7 ≡ i * 7 + 7 = omega arith in rw e (simp towards_suc (omega arith))

-- Within ten groups the shift divides 2^64.
cofactor : (i : ℕ) → i < 10 → (q : ℕ) × (q * 2 ^ (i * 7) ≡ u64_mod)
cofactor zero h = (u64_mod, refl)
cofactor (suc zero) h = (2 ^ 57, refl)
cofactor (suc (suc zero)) h = (2 ^ 50, refl)
cofactor (suc (suc (suc zero))) h = (2 ^ 43, refl)
cofactor (suc (suc (suc (suc zero)))) h = (2 ^ 36, refl)
cofactor (suc (suc (suc (suc (suc zero))))) h = (2 ^ 29, refl)
cofactor (suc (suc (suc (suc (suc (suc zero)))))) h = (2 ^ 22, refl)
cofactor (suc (suc (suc (suc (suc (suc (suc zero))))))) h = (2 ^ 15, refl)
cofactor (suc (suc (suc (suc (suc (suc (suc (suc zero)))))))) h = (2 ^ 8, refl)
cofactor (suc (suc (suc (suc (suc (suc (suc (suc (suc zero))))))))) h = (2, refl)
cofactor (suc (suc (suc (suc (suc (suc (suc (suc (suc (suc i)))))))))) h = absurd (omega arith)

-- A group that passes the overflow test is added without a carry beyond bit 63.
room : (p q value c : ℕ) → q * p ≡ u64_mod → value < p → c ≤ u64_max / p → value + c * p < u64_mod
room p q value c e h k = grind arith

fits : (p c n value : ℕ) → 0 < p → value + (c + 128 * n) * p < u64_mod → c ≤ u64_max / p
fits p c n value h k = grind arith

-- One round on a byte with room for its group.
round :
    (rounds i value b : ℕ) (bs : Bytes)
    → i < 10
    → b < 256
    → value < 2 ^ (i * 7)
    → b % 128 ≤ u64_max / 2 ^ (i * 7)
    → varint_rounds corrupt read_list (suc rounds) i value (b ∷ bs) ≡ (
        if ltb b 128
        then ok (value + b % 128 * 2 ^ (i * 7), bs)
        else varint_rounds corrupt read_list rounds (i + 1) (value + b % 128 * 2 ^ (i * 7)) bs)
unfolding varint_rounds read_list
round rounds i value b bs hi hb hv hc =
    let (q, e) = cofactor i hi in
    let small = room (2 ^ (i * 7)) q value (b % 128) e hv hc in
    let joined : bit_or value (b % 128 * 2 ^ (i * 7) % u64_mod) ≡ value + b % 128 * 2 ^ (i * 7) =
      rw (mod-eq_of_lt {n = b % 128 * 2 ^ (i * 7)} {m = u64_mod} (omega (arith, small)))
        (bit_or_disjoint (i * 7) value (b % 128) hv) in
    rw (bit_and_low b hb, bit_and_top b hb, joined) (ground arith)

round_overflow :
    (rounds i value b : ℕ) (bs : Bytes)
    → b < 256
    → u64_max / 2 ^ (i * 7) < b % 128
    → varint_rounds corrupt read_list (suc rounds) i value (b ∷ bs)
      ≡ err (corrupt "delta varint overflow")
unfolding varint_rounds read_list
round_overflow rounds i value b bs hb hc = rw (bit_and_low b hb) (rw (lt→ltb _ _ hc))

-- The sum grows by a group, and its bound by seven bits.
next_bound :
    (i value c : ℕ) → c < 128 → value < 2 ^ (i * 7) → value + c * 2 ^ (i * 7) < 2 ^ ((i + 1) * 7)
next_bound i value c h k = rw shift_seven (grind arith)

next_sum :
    (i value c n : ℕ)
    → value + c * 2 ^ (i * 7) + n * 2 ^ ((i + 1) * 7) ≡ value + (c + 128 * n) * 2 ^ (i * 7)
next_sum i value c n = rw shift_seven (omega arith)

ltb-false : (b : ℕ) → 128 ≤ b → ltb b 128 ≡ false
ltb-false b h = ground arith

rounds_complete :
    (rounds i value : ℕ) (rest : Bytes) {used : Bytes} {n : ℕ}
    → IsVarint used n
    → rounds + i ≡ 10
    → length used ≤ rounds
    → value < 2 ^ (i * 7)
    → value + n * 2 ^ (i * 7) < u64_mod
    → varint_rounds corrupt read_list rounds i value (used ++ rest)
      ≡ ok (value + n * 2 ^ (i * 7), rest)
rounds_complete zero i value rest (last b h) e k hv fit = absurd (omega arith)
rounds_complete zero i value rest (more b l h t) e k hv fit = absurd (omega arith)
rounds_complete (suc rounds) i value rest (last b h) e k hv fit =
    round rounds i value b rest (omega arith) (omega arith) hv (
      fits (2 ^ (i * 7)) (b % 128) 0 value (omega arith)
        (let same : b % 128 ≡ b = omega arith in rw same (omega (arith, fit))))
    ∙ ground arith
rounds_complete (suc rounds) i value rest (more {bs} {n} b l h t) e k hv fit =
    round rounds i value b (bs ++ rest) (omega arith) h hv
      (fits (2 ^ (i * 7)) (b % 128) n value (omega arith) fit)
    ∙ rw (ltb-false b l) (
        rounds_complete rounds (i + 1) (value + b % 128 * 2 ^ (i * 7)) rest t (omega arith)
          (omega arith) (next_bound i value (b % 128) (omega arith) hv)
          (rw (next_sum i value (b % 128) n) fit)
        ∙ ap (λ (v : ℕ). ok (v, rest)) (next_sum i value (b % 128) n))

-- What a successful run has read.
record Decoded (rounds p value : ℕ) (bs : Bytes) (v : ℕ) (rest : Bytes) : Type 0 where
  used : Bytes
  number : ℕ
  is_varint : IsVarint used number
  splits : bs ≡ used ++ rest
  sums : v ≡ value + number * p
  small : v < u64_mod
  short : length used ≤ rounds

Decoded-last :
    {rounds p value v : ℕ} {bs rest : Bytes} (b : ℕ)
    → b < 128
    → value + b % 128 * p < u64_mod
    → ◌≡◌ {A = DecodeResult (ℕ × Bytes)} (ok (value + b % 128 * p, bs)) (ok (v, rest))
    → Decoded (suc rounds) p value (b ∷ bs) v rest
Decoded-last b low fit done = record {
  used = b ∷ [];
  number = b;
  is_varint = last b low;
  splits = ground arith;
  sums = ground arith;
  small = ground arith;
  short = omega arith;
}

rounds_sound :
    (rounds i value : ℕ) (bs : Bytes) {v : ℕ} {rest : Bytes}
    → All IsByte bs
    → rounds + i ≡ 10
    → value < 2 ^ (i * 7)
    → varint_rounds corrupt read_list rounds i value bs ≡ ok (v, rest)
    → Decoded rounds (2 ^ (i * 7)) value bs v rest
rounds_sound zero i value bs h e hv r = unfold varint_rounds in cc
rounds_sound (suc rounds) i value [] h e hv r = unfold varint_rounds read_list in cc
rounds_sound (suc rounds) i value (b ∷ bs) {v} {rest} (hb, h) e hv r =
    let P = 2 ^ (i * 7) in
    elim (dec_lt (u64_max / P) (b % 128)) [
      | yes over ↦ absurd (cc (round_overflow rounds i value b bs hb over))
      | no inside ↦
          let hc : b % 128 ≤ u64_max / P = omega arith in
          let step = round rounds i value b bs (omega arith) hb hv hc in
          elim (dec_lt b 128) [
            | yes low ↦
                let done : ◌≡◌ {A = DecodeResult (ℕ × Bytes)} (ok (value + b % 128 * P, bs))
                    (ok (v, rest)) =
                  sym (step ∙ (rw (lt→ltb b 128 low))) ∙ r in
                Decoded-last b low
                  (room P (cofactor i (omega arith)).0 value (b % 128) (cofactor i (omega arith)).1
                    hv hc)
                  done
            | no high ↦
                let d =
                  rounds_sound rounds (i + 1) (value + b % 128 * P) bs h (omega arith)
                    (next_bound i value (b % 128) (omega arith) hv)
                    (sym (step ∙ (rw (ltb-false b (omega arith)))) ∙ r) in
                record {
                  used = b ∷ d.used;
                  number = b % 128 + 128 * d.number;
                  is_varint = more b (omega arith) hb d.is_varint;
                  splits = ap (◌∷◌ b) d.splits;
                  sums = d.sums ∙ next_sum i value (b % 128) d.number;
                  small = d.small;
                  short = omega (arith, d.short);
                }
          ]
    ]

-- On any bytes the decoder returns a number exactly when the input starts with that number's
-- groups, at most ten of them, and it fits 64 bits; the rest of the input is left.
pub decode_delta_varint_exact :
    (bs rest : Bytes) (v : ℕ)
    → All IsByte bs
    → (decode_delta_varint corrupt read_list bs ≡ ok (v, rest)) ↔ (
        (used : Bytes) × IsVarint used v × (bs ≡ used ++ rest) × (length used ≤ 10) × (v < u64_mod))
unfolding decode_delta_varint
decode_delta_varint_exact bs rest v h = (
  λ r.
      let d = rounds_sound 10 0 0 bs h refl (omega arith) r in
      let same : d.number ≡ v = omega (arith, d.sums) in
      (d.used, subst (IsVarint d.used) same d.is_varint, d.splits, d.short, d.small),
  λ (used, is, splits, short, small). rw splits (
      rounds_complete 10 0 0 rest is refl short (omega arith) (omega arith)
      ∙ ap (λ (n : ℕ). ok (n, rest)) (omega arith)),
)
