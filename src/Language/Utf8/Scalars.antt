-- ===== src/Language/Utf8/Scalars.antt =====
-- UTF-8 encoding of Unicode scalar values, and the run of the validator over it.
use fornacast.Prelude.{
  ℕ, ◌+◌, ◌/◌, ◌%◌, ◌≤◌, ◌<◌, ◌≡◌, ◌⊎◌, inl, inr, refl, List, [], ◌∷◌, ◌++◌, All, ltb,
  if◌then◌else◌, arith,
}
use fornacast.Prelude.Bytes.{Bytes}
use fornacast.Language.Utf8.{new, push, complete}
use fornacast.Language.Utf8.Steps.{
  Finishes, push-cons, push_byte_in, lead_one, lead_two, lead_three, lead_four, low_three,
  high_three, low_four, high_four,
}

-- A code point that is no surrogate.
abbrev pub IsScalar : ℕ → Type 0
IsScalar c = (c < 0xd800) ⊎ ((0xe000 ≤ c) × (c < 0x110000))

abbrev pub tail_byte : ℕ → ℕ
tail_byte c = 0x80 + c % 64

-- The UTF-8 encoding of one scalar value, by the ranges of the standard.
unfoldable pub encode : ℕ → Bytes
encode c =
    if ltb c 0x80
    then c ∷ []
    else if ltb c 0x800
    then (0xc0 + c / 64) ∷ tail_byte c ∷ []
    else if ltb c 0x10000
    then (0xe0 + c / 4096) ∷ tail_byte (c / 64) ∷ tail_byte c ∷ []
    else (0xf0 + c / 262144) ∷ tail_byte (c / 4096) ∷ tail_byte (c / 64) ∷ tail_byte c ∷ []

unfoldable pub encode_all : List ℕ → Bytes
encode_all [] = []
encode_all (c ∷ cs) = encode c ++ encode_all cs

pub encode_one : (c : ℕ) → c < 0x80 → encode c ≡ c ∷ []
unfolding encode
encode_one c h = ground arith

pub encode_two : (c : ℕ) → 0x80 ≤ c → c < 0x800 → encode c ≡ (0xc0 + c / 64) ∷ tail_byte c ∷ []
unfolding encode
encode_two c h k = ground arith

pub encode_three :
    (c : ℕ)
    → 0x800 ≤ c
    → c < 0x10000
    → encode c ≡ (0xe0 + c / 4096) ∷ tail_byte (c / 64) ∷ tail_byte c ∷ []
unfolding encode
encode_three c h k = ground arith

pub encode_four :
    (c : ℕ)
    → 0x10000 ≤ c
    → encode c ≡ (0xf0 + c / 262144) ∷ tail_byte (c / 4096) ∷ tail_byte (c / 64) ∷ tail_byte c ∷ []
unfolding encode
encode_four c h = ground arith

-- A character's bytes, run from the state between characters.
run_two :
    (b x : ℕ) (rest : Bytes)
    → 0xc2 ≤ b
    → b < 0xe0
    → 0x80 ≤ x
    → x ≤ 0xbf
    → push new (b ∷ x ∷ rest) ≡ push new rest
run_two b x rest h k l u =
    rw (push-cons, lead_two b h k) (rw push-cons (rw (push_byte_in 0 0x80 0xbf x l u)))

run_three :
    (b x y : ℕ) (rest : Bytes)
    → 0xe0 ≤ b
    → b < 0xf0
    → low_three b ≤ x
    → x ≤ high_three b
    → 0x80 ≤ y
    → y ≤ 0xbf
    → push new (b ∷ x ∷ y ∷ rest) ≡ push new rest
run_three b x y rest h k l u l' u' =
    rw (push-cons, lead_three b h k)
      (rw push-cons (
        rw (push_byte_in 1 (low_three b) (high_three b) x l u)
          (rw push-cons (rw (push_byte_in 0 0x80 0xbf y l' u')))))

run_four :
    (b x y z : ℕ) (rest : Bytes)
    → 0xf0 ≤ b
    → b < 0xf5
    → low_four b ≤ x
    → x ≤ high_four b
    → 0x80 ≤ y
    → y ≤ 0xbf
    → 0x80 ≤ z
    → z ≤ 0xbf
    → push new (b ∷ x ∷ y ∷ z ∷ rest) ≡ push new rest
run_four b x y z rest h k l u l' u' m w =
    rw (push-cons, lead_four b h k)
      (rw push-cons (
        rw (push_byte_in 2 (low_four b) (high_four b) x l u) (
          rw push-cons (
            rw (push_byte_in 1 0x80 0xbf y l' u')
              (rw push-cons (rw (push_byte_in 0 0x80 0xbf z m w)))))))

width_cases :
    (c : ℕ)
    → (c < 0x80) ⊎ (((0x80 ≤ c) × (c < 0x800)) ⊎ (((0x800 ≤ c) × (c < 0x10000)) ⊎ (0x10000 ≤ c)))
width_cases c = grind arith

push-encode : (c : ℕ) (rest : Bytes) → IsScalar c → push new (encode c ++ rest) ≡ push new rest
push-encode c rest s = elim (width_cases c) [
  | inl h ↦ rw (encode_one c h) (rw push-cons (rw (lead_one c h)))
  | inr (inl (h, k)) ↦
      rw (encode_two c h k)
        (run_two _ _ rest (omega arith) (omega arith) (omega arith) (omega arith))
  | inr (inr (inl (h, k))) ↦ rw (encode_three c h k) (
      run_three _ _ _ rest (omega arith) (omega arith) (ground arith) (ground arith) (omega arith)
        (omega arith))
  | inr (inr (inr h)) ↦ rw (encode_four c h) (
      run_four _ _ _ _ rest (omega arith) (omega arith) (ground arith) (ground arith) (omega arith)
        (omega arith) (omega arith) (omega arith))
]

pub encode_all-Finishes : (cs : List ℕ) → All IsScalar cs → Finishes new (encode_all cs)
unfolding encode_all
encode_all-Finishes [] h = unfold push complete in refl
encode_all-Finishes (c ∷ cs) h = rw (push-encode c (encode_all cs) h.0) (encode_all-Finishes cs h.1)
