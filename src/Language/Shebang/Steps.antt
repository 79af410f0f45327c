-- ===== src/Language/Shebang/Steps.antt =====
-- One round of the classifier, and its runs once the answer is decided or the token too long.
use fornacast.Prelude.{
  ℕ, ◌≤◌, ◌<◌, ◌≡◌, refl, ap, ◌∙◌, Bool, true, false, ◌||◌, lt→ltb, none, [], ◌∷◌, ◌++◌, length,
  length-append, ◌==◌, Bool-cases, inl, inr, ◌⊎◌, arith,
}
use fornacast.Prelude.Bytes.{Bytes, is_ascii_whitespace}
use fornacast.Language.Shebang.{
  ShebangMode, interpreter, env_command, ShebangClassifier, token_limit, finish_token, push_byte,
  advance, push, finish,
}
use fornacast.Language.Shebang.Line.{words, interpret, flush}

-- The states of the classifier inside the line: the run that has begun fits the buffer, or not.
abbrev pub reading : ℕ → ShebangMode → Bool → Bytes → ShebangClassifier
reading position mode skip token = record {
  position = position;
  active = true;
  mode = mode;
  skip_env_argument = skip;
  token = token;
  token_overflow = false;
  language = none;
}

abbrev pub overflowed : ℕ → ShebangMode → Bool → Bytes → ShebangClassifier
overflowed position mode skip token = record (reading position mode skip token) {
  token_overflow = true;
}

pub push-inactive : (c : ShebangClassifier) (bs : Bytes) → c.active ≡ false → push c bs ≡ c
unfolding push
push-inactive c [] h = refl
push-inactive c (b ∷ bs) h = simp h

pub push_active :
    (c : ShebangClassifier) (b : ℕ) (bs : Bytes)
    → c.active ≡ true
    → push c (b ∷ bs) ≡ push (advance (push_byte c b)) bs
unfolding push
push_active c b bs h = simp h

pub finish_lem : (c : ShebangClassifier) → c.active ≡ false → finish c ≡ c.language
unfolding finish
finish_lem c h = ground arith

pub finish-inactive :
    (c : ShebangClassifier) (bs : Bytes) → c.active ≡ false → finish (push c bs) ≡ c.language
finish-inactive c bs h = ap finish (push-inactive c bs h) ∙ finish_lem c h

pub words_long :
    (bs cur : Bytes) (mode : ShebangMode) (skip : Bool)
    → token_limit < length cur
    → interpret (words cur bs) mode skip ≡ none
unfolding words interpret
words_long [] [] mode skip h = absurd (omega arith)
words_long [] (x ∷ cur) mode skip h = rw (lt→ltb _ _ h)
words_long (b ∷ bs) [] mode skip h = absurd (omega arith)
words_long (b ∷ bs) (x ∷ cur) mode skip h = elim (Bool-cases (is_ascii_whitespace b)) [
  | inl space ↦ rw space (rw (lt→ltb _ _ h))
  | inr other ↦
      rw other
        (words_long bs (x ∷ cur ++ b ∷ []) mode skip (omega (arith, length-append cur (b ∷ []))))
]

abbrev pub ends_line : ℕ → Bool
ends_line b = b == b'\n' || b == b'\r'

pub byte_cases :
    (b : ℕ)
    → (ends_line b ≡ true)
      ⊎ (((ends_line b ≡ false) × (is_ascii_whitespace b ≡ true))
          ⊎ ((ends_line b ≡ false) × (is_ascii_whitespace b ≡ false)))
byte_cases b = ground arith

pub push_byte_end :
    (c : ShebangClassifier) (b : ℕ)
    → 2 ≤ c.position
    → ends_line b ≡ true
    → push_byte c b ≡ record (finish_token c) { active = false }
unfolding push_byte
push_byte_end c b h e = ground arith

pub push_byte_space :
    (c : ShebangClassifier) (b : ℕ)
    → 2 ≤ c.position
    → ends_line b ≡ false
    → is_ascii_whitespace b ≡ true
    → push_byte c b ≡ finish_token c
unfolding push_byte
push_byte_space c b h e w = ground arith

pub push_byte_room :
    (c : ShebangClassifier) (b : ℕ)
    → 2 ≤ c.position
    → ends_line b ≡ false
    → is_ascii_whitespace b ≡ false
    → length c.token < token_limit
    → push_byte c b ≡ record c { token = c.token ++ b ∷ [] }
unfolding push_byte
push_byte_room c b h e w k = ground arith

pub push_byte_full :
    (c : ShebangClassifier) (b : ℕ)
    → 2 ≤ c.position
    → ends_line b ≡ false
    → is_ascii_whitespace b ≡ false
    → token_limit ≤ length c.token
    → push_byte c b ≡ record c { token_overflow = true }
unfolding push_byte
push_byte_full c b h e w k = ground arith

pub finish_token_overflow :
    (c : ShebangClassifier)
    → c.token_overflow ≡ true
    → ((finish_token c).active ≡ false) × ((finish_token c).language ≡ c.language)
unfolding finish_token
finish_token_overflow c h = ground arith

pub run_overflowed :
    (bs token : Bytes) (position : ℕ) (mode : ShebangMode) (skip : Bool)
    → 2 ≤ position
    → token_limit ≤ length token
    → finish (push (overflowed position mode skip token) bs) ≡ none
run_overflowed [] token position mode skip h k =
    unfold push finish in (finish_token_overflow (overflowed position mode skip token) refl).1
run_overflowed (b ∷ bs) token position mode skip h k =
    let c = overflowed position mode skip token in
    ap finish (push_active c b bs refl) ∙ elim (byte_cases b) [
      | inl e ↦
          rw (push_byte_end c b h e) (finish-inactive _ bs refl ∙ (finish_token_overflow c refl).1)
      | inr (inl (e, w)) ↦
          rw (push_byte_space c b h e w) (
            finish-inactive _ bs (finish_token_overflow c refl).0
            ∙ (finish_token_overflow c refl).1)
      | inr (inr (e, w)) ↦
          rw (push_byte_full c b h e w k) (run_overflowed bs token _ mode skip (omega arith) k)
    ]

pub end_line :
    (token : Bytes) (position : ℕ) (mode : ShebangMode) (skip : Bool)
    → length token ≤ token_limit
    → (finish_token (reading position mode skip token)).language
      ≡ interpret (flush token []) mode skip
unfolding finish_token interpret
end_line [] position mode skip k = refl
end_line (x ∷ token) position interpreter skip k = ground arith
end_line (x ∷ token) position env_command skip k = ground arith
