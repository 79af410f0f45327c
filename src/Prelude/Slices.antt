-- ===== src/Prelude/Slices.antt =====
-- Lemmas on `take` and `drop`.
use Prim.Native.Nat.{ℕ, zero, suc, ◌+◌, ◌-◌, ◌≤◌}
use mathlib.Core.List.{List, [], ◌∷◌, ◌++◌}
use mathlib.Core.Path.{◌≡◌, refl, sym, ap, ◌∙◌}
use native.Mathlib.Omega.{arith}
use fornacast.Prelude.Lists.{length, take, drop, take-append-drop}

module _ {ℓ} {A : Type ℓ} where
  pub drop_nil : (n : ℕ) → drop {A = A} n [] ≡ []
  drop_nil zero = refl
  drop_nil (suc n) = refl

  pub take_nil : (n : ℕ) → take {A = A} n [] ≡ []
  take_nil zero = refl
  take_nil (suc n) = refl

  pub drop_plus : (n m : ℕ) (xs : List A) → drop m (drop n xs) ≡ drop (n + m) xs
  drop_plus zero m xs = let e : m ≡ 0 + m = omega arith in ap (λ k. drop k xs) e
  drop_plus (suc n) m [] = drop_nil m ∙ sym (drop_nil (suc n + m))
  drop_plus (suc n) m (x ∷ xs) =
      let e : suc (n + m) ≡ suc n + m = omega arith in
      drop_plus n m xs ∙ ap (λ k. drop k (x ∷ xs)) e

  pub drop-take :
      (n m : ℕ) (xs : List A) → n ≤ length (take m xs) → drop n (take m xs) ++ drop m xs ≡ drop n xs
  drop-take zero m xs h = take-append-drop m xs
  drop-take (suc n) zero xs h = absurd (omega arith)
  drop-take (suc n) (suc m) [] h = refl
  drop-take (suc n) (suc m) (x ∷ xs) h = drop-take n m xs (omega arith)

  pub drop-append : (n : ℕ) (xs ys : List A) → n ≤ length xs → drop n (xs ++ ys) ≡ drop n xs ++ ys
  drop-append zero xs ys h = refl
  drop-append (suc n) [] ys h = absurd (omega arith)
  drop-append (suc n) (x ∷ xs) ys h = drop-append n xs ys (omega arith)

  pub take-append : (n : ℕ) (xs ys : List A) → n ≤ length xs → take n (xs ++ ys) ≡ take n xs
  take-append zero xs ys h = refl
  take-append (suc n) [] ys h = absurd (omega arith)
  take-append (suc n) (x ∷ xs) ys h = rw (take-append n xs ys (omega arith))

  pub take_plus : (n m : ℕ) (xs : List A) → take n xs ++ take m (drop n xs) ≡ take (n + m) xs
  take_plus zero m xs = let e : m ≡ 0 + m = omega arith in ap (λ k. take k xs) e
  take_plus (suc n) m [] = take_nil m ∙ sym (take_nil (suc n + m))
  take_plus (suc n) m (x ∷ xs) =
      let e : suc (n + m) ≡ suc n + m = omega arith in
      ap (λ r. x ∷ r) (take_plus n m xs) ∙ ap (λ k. take k (x ∷ xs)) e

  pub drop_all : (n : ℕ) (xs : List A) → length xs ≤ n → drop n xs ≡ []
  drop_all n [] h = drop_nil n
  drop_all zero (x ∷ xs) h = absurd (omega arith)
  drop_all (suc n) (x ∷ xs) h = drop_all n xs (omega arith)

  pub take-drop-take :
      (n d m : ℕ) (xs : List A) → d + n ≤ m → take n (drop d (take m xs)) ≡ take n (drop d xs)
  take-drop-take zero d m xs h = refl
  take-drop-take (suc n) zero zero xs h = absurd (omega arith)
  take-drop-take (suc n) zero (suc m) [] h = refl
  take-drop-take (suc n) zero (suc m) (x ∷ xs) h =
      ap (λ r. x ∷ r) (take-drop-take n zero m xs (omega arith))
  take-drop-take (suc n) (suc d) zero xs h = absurd (omega arith)
  take-drop-take (suc n) (suc d) (suc m) [] h = refl
  take-drop-take (suc n) (suc d) (suc m) (x ∷ xs) h = take-drop-take (suc n) d m xs (omega arith)

  pub drop_past : (n : ℕ) (xs ys : List A) → drop (length xs + n) (xs ++ ys) ≡ drop n ys
  drop_past n [] ys = let e : 0 + n ≡ n = omega arith in ap (λ k. drop k ys) e
  drop_past n (x ∷ xs) ys =
      let e : length (x ∷ xs) + n ≡ suc (length xs + n) = omega arith in
      ap (λ k. drop k (x ∷ xs ++ ys)) e ∙ drop_past n xs ys

  pub take_past :
      (n : ℕ) (xs ys : List A) → length xs ≤ n → take n (xs ++ ys) ≡ xs ++ take (n - length xs) ys
  take_past n [] ys h = let e : n ≡ n - length {A = A} [] = omega arith in ap (λ k. take k ys) e
  take_past zero (x ∷ xs) ys h = absurd (omega arith)
  take_past (suc n) (x ∷ xs) ys h =
      let e : n - length xs ≡ suc n - length (x ∷ xs) = omega arith in
      ap (λ r. x ∷ r) (take_past n xs ys (omega arith) ∙ ap (λ k. xs ++ take k ys) e)

  pub take_all : (n : ℕ) (xs : List A) → length xs ≤ n → take n xs ≡ xs
  take_all n [] h = take_nil n
  take_all zero (x ∷ xs) h = absurd (omega arith)
  take_all (suc n) (x ∷ xs) h = ap (λ r. x ∷ r) (take_all n xs (omega arith))
