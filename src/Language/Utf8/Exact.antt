-- ===== src/Language/Utf8/Exact.antt =====
-- About `Utf8Validator`: the encodings of sequences of Unicode scalar values.
use fornacast.Prelude.{
  ℕ, zero, suc, ◌+◌, ◌-◌, ◌*◌, ◌≤◌, ◌<◌, ◌≡◌, ◌↔◌, ◌⊎◌, inl, inr, refl, sym, ap, ◌∙◌, subst, true,
  List, [], ◌∷◌, ◌++◌, All, length, length-append, arith,
}
use fornacast.Prelude.Bytes.{Bytes}
use fornacast.Language.Utf8.{new, push, complete}
use fornacast.Language.Utf8.Scalars.{
  IsScalar, encode, encode_all, encode_one, encode_two, encode_three, encode_four,
  encode_all-Finishes,
}
use fornacast.Language.Utf8.Steps.{
  Finishes, Finishes-Tail, push-cons, lead_one, lead_two, lead_three, lead_four, lead_invalid,
  low_three, high_three, low_four, high_four, not-Finishes_invalid,
}

-- An accepted text starts with the encoding of a scalar value, and the rest is accepted.
record First (bs : Bytes) : Type 0 where
  scalar : ℕ
  rest : Bytes
  is_scalar : IsScalar scalar
  splits : bs ≡ encode scalar ++ rest
  finishes : Finishes new rest

First-one : (b : ℕ) (bs : Bytes) → b < 0x80 → Finishes new (b ∷ bs) → First (b ∷ bs)
First-one b bs h f = record {
  scalar = b;
  rest = bs;
  is_scalar = inl (omega arith);
  splits = rw (encode_one b h);
  finishes = rw (push-cons, lead_one b h) at f;
}

First-two : (b : ℕ) (bs : Bytes) → 0xc2 ≤ b → b < 0xe0 → Finishes new (b ∷ bs) → First (b ∷ bs)
First-two b bs h k f =
    let t = Finishes-Tail 0 0x80 0xbf bs (rw (push-cons, lead_two b h k) at f) in
    let c = (b - 0xc0) * 64 + (t.byte - 0x80) in
    record {
      scalar = c;
      rest = t.rest;
      is_scalar = inl (omega (arith, t.above, t.below));
      splits =
          rw (t.splits, encode_two c (omega (arith, t.above)) (omega (arith, t.below)))
            (ground (arith, t.above, t.below));
      finishes = t.finishes;
    }

First-three : (b : ℕ) (bs : Bytes) → 0xe0 ≤ b → b < 0xf0 → Finishes new (b ∷ bs) → First (b ∷ bs)
First-three b bs h k f =
    let t =
      Finishes-Tail 1 (low_three b) (high_three b) bs (rw (push-cons, lead_three b h k) at f) in
    let u = Finishes-Tail 0 0x80 0xbf t.rest t.finishes in
    let c = (b - 0xe0) * 4096 + (t.byte - 0x80) * 64 + (u.byte - 0x80) in
    record {
      scalar = c;
      rest = u.rest;
      is_scalar = ground (arith, t.above, t.below, u.above, u.below);
      splits =
          rw
            (
              t.splits,
              u.splits,
              encode_three c (ground (arith, t.above, t.below, u.above, u.below))
                  (ground (arith, t.above, t.below, u.above, u.below)),
            )
            (ground (arith, t.above, t.below, u.above, u.below));
      finishes = u.finishes;
    }

First-four : (b : ℕ) (bs : Bytes) → 0xf0 ≤ b → b < 0xf5 → Finishes new (b ∷ bs) → First (b ∷ bs)
First-four b bs h k f =
    let t = Finishes-Tail 2 (low_four b) (high_four b) bs (rw (push-cons, lead_four b h k) at f) in
    let u = Finishes-Tail 1 0x80 0xbf t.rest t.finishes in
    let v = Finishes-Tail 0 0x80 0xbf u.rest u.finishes in
    let c = (b - 0xf0) * 262144 + (t.byte - 0x80) * 4096 + (u.byte - 0x80) * 64 + (v.byte - 0x80) in
    let low : 0x10000 ≤ c = ground (arith, t.above, t.below) in
    record {
      scalar = c;
      rest = v.rest;
      is_scalar = inr (
        omega (arith, low),
        ground (arith, t.above, t.below, u.above, u.below, v.above, v.below),
      );
      splits =
          rw (t.splits, u.splits, v.splits, encode_four c low)
            (ground (arith, t.above, t.below, u.above, u.below, v.above, v.below));
      finishes = v.finishes;
    }

lead_cases :
    (b : ℕ)
    → (b < 0x80)
      ⊎ (((0xc2 ≤ b) × (b < 0xe0))
          ⊎ (((0xe0 ≤ b) × (b < 0xf0))
              ⊎ (((0xf0 ≤ b) × (b < 0xf5)) ⊎ (((0x80 ≤ b) × (b < 0xc2)) ⊎ (0xf5 ≤ b)))))
lead_cases b = grind arith

First-scalar : (b : ℕ) (bs : Bytes) → Finishes new (b ∷ bs) → First (b ∷ bs)
First-scalar b bs f = elim (lead_cases b) [
  | inl h ↦ First-one b bs h f
  | inr (inl (h, k)) ↦ First-two b bs h k f
  | inr (inr (inl (h, k))) ↦ First-three b bs h k f
  | inr (inr (inr (inl (h, k)))) ↦ First-four b bs h k f
  | inr (inr (inr (inr h))) ↦
      absurd (not-Finishes_invalid _ bs (lead_invalid b h) (rw push-cons at f))
]

encode_ne_nil : (c : ℕ) → 1 ≤ length (encode c)
unfolding encode
encode_ne_nil c = ground arith

-- The scalar values that an accepted text encodes.
abbrev pub Encodes : Bytes → Type 0
Encodes bs = (cs : List ℕ) × All IsScalar cs × (encode_all cs ≡ bs)

Finishes-Encodes : (n : ℕ) (bs : Bytes) → length bs ≤ n → Finishes new bs → Encodes bs
unfolding encode_all
Finishes-Encodes n [] h f = ([], tt, refl)
Finishes-Encodes zero (b ∷ bs) h f = absurd (omega arith)
Finishes-Encodes (suc n) (b ∷ bs) h f =
    let s = First-scalar b bs f in
    let shorter : length s.rest ≤ n =
      omega (
        arith,
        ap length s.splits,
        length-append (encode s.scalar) s.rest,
        encode_ne_nil s.scalar,
      ) in
    let (cs, all, e) = Finishes-Encodes n s.rest shorter s.finishes in
    (s.scalar ∷ cs, (s.is_scalar, all), ap (λ r. encode s.scalar ++ r) e ∙ sym s.splits)

-- A byte string passes the validator exactly when it is the UTF-8 encoding of some sequence of
-- Unicode scalar values.
pub complete-push_exact : (bs : Bytes) → (complete (push new bs) ≡ true) ↔ Encodes bs
complete-push_exact bs = (
  Finishes-Encodes (length bs) bs (omega arith),
  λ (cs, all, e). subst (Finishes new) e (encode_all-Finishes cs all),
)
