-- ===== src/Native/Outcome.antt =====
-- What holds of a computation under a deadline on both of its ways out.
use fornacast.Prelude.{
  ℕ, ◌≡◌, refl, subst, true, Option, none, some, ok, err, arith, inl, inr, Bool-cases,
}
use fornacast.Native.{NativeError, NativeResult, ok_or}
use fornacast.Native.Clock.{Clock, Timed, lift, check_deadline, ◌>>=◌}

-- `P` holds of the value, or `E` of the error.
abbrev pub Outcome :
    {A : Type 0} → (NativeError → Type 0) → (A → Type 0) → NativeResult (A × ℕ) → Type 0
Outcome E P (ok (a, n)) = P a
Outcome E P (err e) = E e

-- The error is this one, and the clock was late.
abbrev pub TimedOut : Clock → NativeError → NativeError → Type 0
TimedOut late timeout e = (e ≡ timeout) × (n : ℕ) × (late n ≡ true)

module _ (E : NativeError → Type 0) where
  pub Outcome-bind :
      {A B : Type 0} (P : A → Type 0) (Q : B → Type 0) (m : Timed A) (f : A → Timed B) (n : ℕ)
      → Outcome E P (m n)
      → ((a : A) (k : ℕ) → P a → Outcome E Q (f a k))
      → Outcome E Q ((m >>= f) n)
  Outcome-bind {A} {B} P Q m f n h next = go (m n) h
    where
      go :
          (r : NativeResult (A × ℕ))
          → Outcome E P r
          → Outcome E Q
              (elim r as (λ x. NativeResult (B × ℕ)) [ ok (a, n') ↦ f a n' | err e ↦ err e ])
      go (ok (a, k)) h = next a k h
      go (err e) h = h

  pub Outcome-lift :
      {A : Type 0} (P : A → Type 0) (m : NativeResult A) (n : ℕ) {a : A}
      → m ≡ ok a
      → P a
      → Outcome E P (lift m n)
  Outcome-lift P (ok b) n e p = ground arith
  Outcome-lift P (err x) n e p = cc

  pub Outcome-lift_err :
      {A : Type 0} (P : A → Type 0) (m : NativeResult A) (n : ℕ) {e : NativeError}
      → m ≡ err e
      → E e
      → Outcome E P (lift m n)
  Outcome-lift_err P (ok b) n h p = cc
  Outcome-lift_err P (err x) n h p = ground arith

  pub Outcome-imply :
      {A : Type 0} (P Q : A → Type 0) (r : NativeResult (A × ℕ))
      → ((a : A) → P a → Q a)
      → Outcome E P r
      → Outcome E Q r
  Outcome-imply P Q (ok (a, n)) f h = f a h
  Outcome-imply P Q (err e) f h = h

pub Outcome-check :
    (late : Clock) (timeout : NativeError) (n : ℕ)
    → Outcome (TimedOut late timeout) (λ (u : Unit {0}). Unit {0}) (check_deadline late timeout n)
unfolding check_deadline
Outcome-check late timeout n = elim (Bool-cases (late n)) [
  | inl is_late ↦ rw is_late (refl, n, is_late)
  | inr in_time ↦ rw in_time tt
]

pub Outcome-weaken :
    {A : Type 0} (E F : NativeError → Type 0) (P : A → Type 0) (r : NativeResult (A × ℕ))
    → ((e : NativeError) → E e → F e)
    → Outcome E P r
    → Outcome F P r
Outcome-weaken E F P (ok (a, n)) f h = h
Outcome-weaken E F P (err e) f h = f e h

pub Outcome-ok_or :
    {A : Type 0} (E : NativeError → Type 0) (o : Option A) (e : NativeError) (n : ℕ)
    → (o ≡ none → E e)
    → Outcome E (λ a. o ≡ some a) (lift (ok_or o e) n)
Outcome-ok_or E none e n h = h refl
Outcome-ok_or E (some a) e n h = refl

pub Outcome-lift_self :
    {A : Type 0} (E : NativeError → Type 0) (m : NativeResult A) (n : ℕ)
    → ((e : NativeError) → m ≡ err e → E e)
    → Outcome E (λ a. m ≡ ok a) (lift m n)
Outcome-lift_self E (ok a) n h = refl
Outcome-lift_self E (err e) n h = h e refl

-- Where no error can be there is a value.
pub Outcome-value :
    {A : Type 0} (E : NativeError → Type 0) (P : A → Type 0) (r : NativeResult (A × ℕ))
    → ((e : NativeError) → E e → ⊥)
    → Outcome E P r
    → (a : A) × (k : ℕ) × (r ≡ ok (a, k)) × P a
Outcome-value E P (ok (a, k)) never h = (a, k, refl, h)
Outcome-value E P (err e) never h = absurd (never e h)

pub Outcome-eq_ok :
    {A : Type 0} (E : NativeError → Type 0) (P : A → Type 0) (r : NativeResult (A × ℕ)) {a : A}
    {k : ℕ}
    → r ≡ ok (a, k)
    → Outcome E P r
    → P a
Outcome-eq_ok E P r e h = subst (Outcome E P) e h

-- A computation returned the value at some reading of the clock.
abbrev pub Returned : {A : Type 0} → Timed A → A → Type 0
Returned m a = (n : ℕ) × (k : ℕ) × (m n ≡ ok (a, k))

pub Outcome-Returned :
    {A : Type 0} (E : NativeError → Type 0) (m : Timed A) (n : ℕ)
    → ((e : NativeError) → E e)
    → Outcome E (Returned m) (m n)
Outcome-Returned {A} E m n h = go (m n) refl
  where
    go : (r : NativeResult (A × ℕ)) → m n ≡ r → Outcome E (Returned m) r
    go (ok (a, k)) e = (n, k, e)
    go (err x) e = h x

pub Outcome-any :
    {A : Type 0} (r : NativeResult (A × ℕ)) → Outcome (λ e. Unit {0}) (λ (a : A). Unit {0}) r
Outcome-any (ok (a, n)) = tt
Outcome-any (err e) = tt
