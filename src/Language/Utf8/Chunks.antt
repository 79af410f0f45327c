-- ===== src/Language/Utf8/Chunks.antt =====
-- About `Utf8Validator`: input in chunks.
use fornacast.Prelude.{◌≡◌, refl, sym, ap, ◌∙◌, ◌++◌, [], ◌∷◌, Bool-cases, inl, inr}
use fornacast.Prelude.Bytes.{Bytes}
use fornacast.Language.Utf8.{Utf8Validator, push_byte, push}
use fornacast.Language.Utf8.Steps.{push-invalid, push_valid}

-- Pushing two chunks leaves the validator in the state that pushing them joined leaves it in.
pub push-append : (v : Utf8Validator) (a b : Bytes) → push (push v a) b ≡ push v (a ++ b)
push-append v [] b = unfold push in refl
push-append v (x ∷ a) b = elim (Bool-cases v.valid) [
  | inl valid ↦
      ap (λ w. push w b) (push_valid v x a valid)
      ∙ push-append (push_byte v x) a b
      ∙ sym (push_valid v x (a ++ b) valid)
  | inr invalid ↦
      ap (λ w. push w b) (push-invalid v (x ∷ a) invalid)
      ∙ push-invalid v b invalid
      ∙ sym (push-invalid v (x ∷ a ++ b) invalid)
]
