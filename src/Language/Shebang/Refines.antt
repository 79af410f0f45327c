-- ===== src/Language/Shebang/Refines.antt =====
-- About `ShebangClassifier`: the incremental classifier and the reading of the whole line.
use fornacast.Prelude.{
  ℕ, ◌≤◌, ◌≡◌, refl, sym, ap, ◌∙◌, Bool, true, false, Option, List, [], ◌∷◌, ◌++◌, String, length,
  length-append, ◌==◌, Bool-cases, Option-cases, dec_lt, inl, inr, arith,
}
use fornacast.Prelude.Bytes.{Bytes, codes, bytes_eq, is_ascii_whitespace}
use fornacast.Language.Shebang.{
  ShebangMode, interpreter, env_command, ShebangClassifier, new, token_limit, shebang_basename,
  shebang_env_assignment, shebang_env_option, finish_token, push_byte, advance, push, finish,
}
use fornacast.Language.Shebang.Line.{first_line, words, interpret, flush, shebang_line}
use fornacast.Language.Shebang.Steps.{
  reading, ends_line, push-inactive, push_active, finish-inactive, words_long, byte_cases,
  push_byte_end, push_byte_space, push_byte_room, push_byte_full, run_overflowed, end_line,
}

-- The end of a run: the reading goes on behind it, or it is decided.
data Outcome (d : ShebangClassifier) (position : ℕ) (meaning : List Bytes → Option String)
    : Type 0 where
  goes_on :
      (mode : ShebangMode) (skip : Bool)
      → d ≡ reading position mode skip []
      → ((ws : List Bytes) → meaning ws ≡ interpret ws mode skip)
      → Outcome d position meaning
  decided :
      d.active ≡ false → ((ws : List Bytes) → meaning ws ≡ d.language) → Outcome d position meaning

finish_token-Outcome :
    (x : ℕ) (token : Bytes) (position : ℕ) (mode : ShebangMode) (skip : Bool)
    → length (x ∷ token) ≤ token_limit
    → Outcome
        (finish_token (reading position mode skip (x ∷ token)))
        position
        (λ ws. interpret ((x ∷ token) ∷ ws) mode skip)
unfolding finish_token interpret
finish_token-Outcome x token position interpreter skip k =
    elim (Bool-cases (bytes_eq (shebang_basename (x ∷ token)) (codes "env"))) [
      | inl e ↦ goes_on env_command skip (ground arith) (λ ws. ground arith)
      | inr e ↦ decided (ground arith) (λ ws. ground arith)
    ]
finish_token-Outcome x token position env_command true k =
    goes_on env_command false (ground arith) (λ ws. ground arith)
finish_token-Outcome x token position env_command false k =
    elim (Bool-cases (shebang_env_assignment (x ∷ token))) [
      | inl e ↦ goes_on env_command false (ground arith) (λ ws. ground arith)
      | inr e ↦ elim (Option-cases (shebang_env_option (x ∷ token))) [
        | inl n ↦ decided (ground arith) (λ ws. ground arith)
        | inr (s, n) ↦ goes_on env_command s (ground arith) (λ ws. ground arith)
      ]
    ]

-- What the classifier answers on `bs` from between two words.
abbrev Agrees : Bytes → Type 0
Agrees bs =
    (position : ℕ) (mode : ShebangMode) (skip : Bool)
    → 2 ≤ position
    → finish (push (reading position mode skip []) bs)
      ≡ interpret (words [] (first_line bs)) mode skip

after_word :
    (bs token : Bytes) (position : ℕ) (mode : ShebangMode) (skip : Bool)
    → 2 ≤ position
    → length token ≤ token_limit
    → Agrees bs
    → finish (push (advance (finish_token (reading position mode skip token))) bs)
      ≡ interpret (flush token (words [] (first_line bs))) mode skip
after_word bs [] position mode skip h k ih = unfold finish_token in ih _ mode skip (omega arith)
after_word bs (x ∷ token) position mode skip h k ih =
    elim (finish_token-Outcome x token position mode skip k) [
      | goes_on mode' skip' same means ↦ rw same (ih _ mode' skip' (omega arith) ∙ sym (means _))
      | decided stopped means ↦ finish-inactive _ bs stopped ∙ sym (means _)
    ]

first_line_end : (b : ℕ) (bs : Bytes) → ends_line b ≡ true → first_line (b ∷ bs) ≡ []
unfolding first_line
first_line_end b bs e = rw e

first_line_more :
    (b : ℕ) (bs : Bytes) → ends_line b ≡ false → first_line (b ∷ bs) ≡ b ∷ first_line bs
unfolding first_line
first_line_more b bs e = rw e

words_space :
    (cur : Bytes) (b : ℕ) (bs : Bytes)
    → is_ascii_whitespace b ≡ true
    → words cur (b ∷ bs) ≡ flush cur (words [] bs)
unfolding words
words_space cur b bs e = rw e

words_other :
    (cur : Bytes) (b : ℕ) (bs : Bytes)
    → is_ascii_whitespace b ≡ false
    → words cur (b ∷ bs) ≡ words (cur ++ b ∷ []) bs
unfolding words
words_other cur b bs e = rw e

words_end : (cur : Bytes) → words cur [] ≡ flush cur []
unfolding words
words_end cur = refl

finish_lem_active : (c : ShebangClassifier) → c.active ≡ true → finish c ≡ (finish_token c).language
unfolding finish
finish_lem_active c h = ground arith

pub push_nil : (c : ShebangClassifier) → push c [] ≡ c
unfolding push
push_nil c = refl

run_reading :
    (bs token : Bytes) (position : ℕ) (mode : ShebangMode) (skip : Bool)
    → 2 ≤ position
    → length token ≤ token_limit
    → finish (push (reading position mode skip token) bs)
      ≡ interpret (words token (first_line bs)) mode skip
run_reading [] token position mode skip h k = rw push_nil (
    finish_lem_active _ refl
    ∙ end_line token position mode skip k
    ∙ unfold first_line in rw words_end)
run_reading (b ∷ bs) token position mode skip h k =
    let c = reading position mode skip token in
    ap finish (push_active c b bs refl) ∙ elim (byte_cases b) [
      | inl e ↦
          rw (push_byte_end c b h e, first_line_end b bs e, words_end)
            (finish-inactive _ bs refl ∙ end_line token position mode skip k)
      | inr (inl (e, w)) ↦
          rw (push_byte_space c b h e w, first_line_more b bs e, words_space token b _ w)
            (after_word bs token position mode skip h k
              (λ position mode skip h. run_reading bs [] position mode skip h (omega arith)))
      | inr (inr (e, w)) ↦
          rw (first_line_more b bs e, words_other token b _ w)
            (elim (dec_lt (length token) token_limit) [
              | yes room ↦ rw (push_byte_room c b h e w room) (
                  run_reading bs (token ++ b ∷ []) _ mode skip (omega arith)
                    (omega (arith, length-append token (b ∷ []))))
              | no full ↦ rw (push_byte_full c b h e w (omega arith)) (
                  run_overflowed bs token _ mode skip (omega arith) (omega arith)
                  ∙ sym (
                      words_long (first_line bs) (token ++ b ∷ []) mode skip
                        (omega (arith, length-append token (b ∷ [])))))
            ])
    ]

push_byte_first :
    (c : ShebangClassifier) (b : ℕ)
    → c.position ≡ 0
    → push_byte c b ≡ record c { active = b == b'#' }
unfolding push_byte
push_byte_first c b h = ground arith

push_byte_second :
    (c : ShebangClassifier) (b : ℕ)
    → c.position ≡ 1
    → push_byte c b ≡ record c { active = b == b'!' }
unfolding push_byte
push_byte_second c b h = ground arith

two_bytes : (x y : ℕ) (bs : Bytes) → finish (push new (x ∷ y ∷ bs)) ≡ shebang_line (x ∷ y ∷ bs)
unfolding shebang_line
two_bytes x y bs = elim (Bool-cases (x == b'#')) [
  | inr e ↦
      ap finish (push_active new x (y ∷ bs) refl)
      ∙ rw (push_byte_first new x refl, e) (finish-inactive _ (y ∷ bs) refl)
  | inl e ↦
      ap finish (push_active new x (y ∷ bs) refl)
      ∙ rw (push_byte_first new x refl, e)
          (ap finish (push_active _ y bs refl)
            ∙ rw (push_byte_second (record new { position = 1 }) y refl)
                (elim (Bool-cases (y == b'!')) [
                  | inr f ↦ rw f (finish-inactive _ bs refl)
                  | inl f ↦ rw f (run_reading bs [] 2 interpreter false (omega arith) (omega arith))
                ]))
]

-- Whatever the file holds, the classifier answers what a reading of the words of its first line
-- answers: none without `#!`; behind `env` its options, the arguments that they take and variable
-- assignments are passed over; a word of more than 128 bytes gives none.
pub finish-push : (bs : Bytes) → finish (push new bs) ≡ shebang_line bs
finish-push [] = unfold push finish finish_token shebang_line in refl
finish-push (x ∷ []) =
    unfold shebang_line in
    elim (Bool-cases (x == b'#')) [
      | inr e ↦
          ap finish (push_active new x [] refl)
          ∙ rw (push_byte_first new x refl, e) (finish-inactive _ [] refl)
      | inl e ↦
          ap finish (push_active new x [] refl)
          ∙ rw (push_byte_first new x refl, e) (rw push_nil (unfold finish finish_token in refl))
    ]
finish-push (x ∷ y ∷ bs) = two_bytes x y bs

-- Where the chunks end makes no difference.
pub push-append : (c : ShebangClassifier) (a b : Bytes) → push (push c a) b ≡ push c (a ++ b)
push-append c [] b = ap (λ d. push d b) (push_nil c)
push-append c (x ∷ a) b = elim (Bool-cases c.active) [
  | inl active ↦
      ap (λ d. push d b) (push_active c x a active)
      ∙ push-append (advance (push_byte c x)) a b
      ∙ sym (push_active c x (a ++ b) active)
  | inr inactive ↦
      ap (λ d. push d b) (push-inactive c (x ∷ a) inactive)
      ∙ push-inactive c b inactive
      ∙ sym (push-inactive c (x ∷ a ++ b) inactive)
]
