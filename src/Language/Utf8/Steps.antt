-- ===== src/Language/Utf8/Steps.antt =====
-- The states of the validator between characters and inside one, and the moves between them.
use fornacast.Prelude.{
  ℕ, suc, ◌≤◌, ◌<◌, ◌≡◌, ◌⊎◌, inl, inr, refl, true, false, [], ◌∷◌, ltb, ◌==◌, arith, if◌then◌else◌,
}
use fornacast.Prelude.Bytes.{Bytes}
use fornacast.Language.Utf8.{Utf8Validator, new, push_byte, push, complete}

-- `n` continuation bytes are still to come, the next one in the given range.
abbrev pub expect : ℕ → ℕ → ℕ → Utf8Validator
expect n lo hi = record { remaining = n; next_min = lo; next_max = hi; valid = true }

abbrev pub Finishes : Utf8Validator → Bytes → Type 0
Finishes v bs = complete (push v bs) ≡ true

pub push-invalid : (v : Utf8Validator) (bs : Bytes) → v.valid ≡ false → push v bs ≡ v
unfolding push
push-invalid v [] h = refl
push-invalid v (b ∷ bs) h = rw h

pub push_valid :
    (v : Utf8Validator) (b : ℕ) (bs : Bytes)
    → v.valid ≡ true
    → push v (b ∷ bs) ≡ push (push_byte v b) bs
unfolding push
push_valid v b bs h = simp h

pub push-cons :
    (n lo hi b : ℕ) (bs : Bytes)
    → push (expect n lo hi) (b ∷ bs) ≡ push (push_byte (expect n lo hi) b) bs
unfolding push
push-cons n lo hi b bs = refl

pub not-Finishes_invalid : (v : Utf8Validator) (bs : Bytes) → v.valid ≡ false → ¬ Finishes v bs
unfolding complete
not-Finishes_invalid v bs h f = ground (arith, push-invalid v bs h)

pub push_byte_in :
    (n lo hi b : ℕ) → lo ≤ b → b ≤ hi → push_byte (expect (suc n) lo hi) b ≡ expect n 0x80 0xbf
unfolding push_byte
push_byte_in n lo hi b h k = ground arith

push_byte_out :
    (n lo hi b : ℕ) → (b < lo) ⊎ (hi < b) → (push_byte (expect (suc n) lo hi) b).valid ≡ false
unfolding push_byte
push_byte_out n lo hi b h = ground arith

-- What stands next when a text is accepted from inside a character.
pub record Tail (n lo hi : ℕ) (bs : Bytes) : Type 0 where
  pub byte : ℕ
  pub rest : Bytes
  pub splits : bs ≡ byte ∷ rest
  pub above : lo ≤ byte
  pub below : byte ≤ hi
  pub finishes : Finishes (expect n 0x80 0xbf) rest

range_cases : (lo hi b : ℕ) → ((lo ≤ b) × (b ≤ hi)) ⊎ ((b < lo) ⊎ (hi < b))
range_cases lo hi b = grind arith

pub Finishes-Tail :
    (n lo hi : ℕ) (bs : Bytes) → Finishes (expect (suc n) lo hi) bs → Tail n lo hi bs
Finishes-Tail n lo hi [] f = absurd (unfold push complete in ground arith)
Finishes-Tail n lo hi (b ∷ bs) f = elim (range_cases lo hi b) [
  | inl (above, below) ↦ record {
    byte = b;
    rest = bs;
    splits = refl;
    above = above;
    below = below;
    finishes = rw (push-cons, push_byte_in n lo hi b above below) at f;
  }
  | inr out ↦ absurd (not-Finishes_invalid _ bs (push_byte_out n lo hi b out) (rw push-cons at f))
]

-- The states that a byte which starts a character leads to.
pub lead_one : (b : ℕ) → b < 0x80 → push_byte new b ≡ new
unfolding push_byte
lead_one b h = ground arith

pub lead_two : (b : ℕ) → 0xc2 ≤ b → b < 0xe0 → push_byte new b ≡ expect 1 0x80 0xbf
unfolding push_byte
lead_two b h k = ground arith

abbrev pub low_three : ℕ → ℕ
low_three b = if ltb b 0xe1 then 0xa0 else 0x80

abbrev pub high_three : ℕ → ℕ
high_three b = if b == 0xed then 0x9f else 0xbf

abbrev pub low_four : ℕ → ℕ
low_four b = if ltb b 0xf1 then 0x90 else 0x80

abbrev pub high_four : ℕ → ℕ
high_four b = if ltb 0xf3 b then 0x8f else 0xbf

pub lead_three :
    (b : ℕ) → 0xe0 ≤ b → b < 0xf0 → push_byte new b ≡ expect 2 (low_three b) (high_three b)
unfolding push_byte
lead_three b h k = ground arith

pub lead_four :
    (b : ℕ) → 0xf0 ≤ b → b < 0xf5 → push_byte new b ≡ expect 3 (low_four b) (high_four b)
unfolding push_byte
lead_four b h k = ground arith

pub lead_invalid :
    (b : ℕ) → ((0x80 ≤ b) × (b < 0xc2)) ⊎ (0xf5 ≤ b) → (push_byte new b).valid ≡ false
unfolding push_byte
lead_invalid b h = ground arith
