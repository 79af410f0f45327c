-- ===== src/Language/Utf8.antt =====
-- The incremental UTF-8 validator, `Utf8Validator` of lib.rs. A byte is a number; the code's `u8`
-- counters stay below 4.
pub mod Steps
pub mod Scalars
pub mod Exact
pub mod Chunks
use fornacast.Prelude.{
  ℕ, ◌-◌, Bool, true, false, ◌&&◌, ◌||◌, [], ◌∷◌, ltb, ◌==◌, within, if◌then◌else◌, not,
}
use fornacast.Prelude.Bytes.{Bytes}

pub record Utf8Validator : Type 0 where
  pub remaining : ℕ
  pub next_min : ℕ
  pub next_max : ℕ
  pub valid : Bool

abbrev pub new : Utf8Validator
new = record { remaining = 0; next_min = 0x80; next_max = 0xbf; valid = true }

-- The arm of `match *byte` for a byte that starts a character.
pub lead_byte : Utf8Validator → ℕ → Utf8Validator
lead_byte v b =
    if within 0x00 0x7f b
    then v
    else if within 0xc2 0xdf b
    then record v { remaining = 1 }
    else if b == 0xe0
    then record v { remaining = 2; next_min = 0xa0 }
    else if within 0xe1 0xec b || within 0xee 0xef b
    then record v { remaining = 2 }
    else if b == 0xed
    then record v { remaining = 2; next_max = 0x9f }
    else if b == 0xf0
    then record v { remaining = 3; next_min = 0x90 }
    else if within 0xf1 0xf3 b
    then record v { remaining = 3 }
    else if b == 0xf4
    then record v { remaining = 3; next_max = 0x8f }
    else record v { valid = false }

-- One round of the loop, for a validator that is still valid.
unfoldable pub push_byte : Utf8Validator → ℕ → Utf8Validator
unfolding lead_byte
push_byte v b =
    if not (v.remaining == 0)
    then if ltb b v.next_min || ltb v.next_max b
      then record v { valid = false }
      else record v { remaining = v.remaining - 1; next_min = 0x80; next_max = 0xbf }
    else lead_byte v b

unfoldable pub push : Utf8Validator → Bytes → Utf8Validator
unfolding push_byte
push v [] = v
push v (b ∷ bs) = if not v.valid then v else push (push_byte v b) bs

unfoldable pub complete : Utf8Validator → Bool
complete v = v.valid && v.remaining == 0
