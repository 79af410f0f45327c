-- ===== src/Native/Clock.antt =====
-- Code under a deadline. `late n` says whether the n-th reading of the clock is at the deadline or
-- past it; a computation counts its readings, and the sequence of answers is the environment's.
use fornacast.Prelude.{ℕ, ap, ◌+◌, ◌≡◌, refl, Bool, false, ok, err, if◌then◌else◌, arith}
use fornacast.Native.{NativeError, NativeResult}

abbrev pub Clock : Type 0
Clock = ℕ → Bool

abbrev pub Timed : Type 0 → Type 0
Timed A = ℕ → NativeResult (A × ℕ)

abbrev pub pure : {A : Type 0} → A → Timed A
pure a n = ok (a, n)

abbrev pub fail : {A : Type 0} → NativeError → Timed A
fail e n = err e

abbrev pub lift : {A : Type 0} → NativeResult A → Timed A
lift (ok a) n = ok (a, n)
lift (err e) n = err e

infixl 5 ◌>>=◌ ◌>>◌
abbrev pub ◌>>=◌ : {A B : Type 0} → Timed A → (A → Timed B) → Timed B
◌>>=◌ m f n = elim (m n) [ ok (a, n') ↦ f a n' | err e ↦ err e ]

abbrev pub ◌>>◌ : {B : Type 0} → Timed (Unit {0}) → Timed B → Timed B
m >> k = m >>= λ _. k

-- `check_…_deadline(deadline)?`
unfoldable pub check_deadline : Clock → NativeError → Timed (Unit {0})
check_deadline late timeout n = if late n then err timeout else ok (tt, n + 1)

-- No deadline passes.
abbrev pub OnTime : Clock → Type 0
OnTime late = (n : ℕ) → late n ≡ false

-- A result that came in time is the value of the code without a clock.
abbrev pub Gives {ℓ} : {A : Type ℓ} → NativeResult (A × ℕ) → A → Type ℓ
Gives {A = A} r a = (n : ℕ) × (r ≡ ok (a, n))

pub check_deadline-eq-ok :
    (late : Clock) (timeout : NativeError) (n : ℕ) {k : ℕ}
    → check_deadline late timeout n ≡ ok (tt, k)
    → (late n ≡ false) × (k ≡ n + 1)
unfolding check_deadline
check_deadline-eq-ok late timeout n h = ground arith

pub >>=-eq-ok :
    {A B : Type 0} (m : Timed A) (f : A → Timed B) (n : ℕ) {b : B} {k : ℕ}
    → (m >>= f) n ≡ ok (b, k)
    → (a : A) × (n' : ℕ) × (m n ≡ ok (a, n')) × (f a n' ≡ ok (b, k))
>>=-eq-ok {A} {B} m f n {b} {k} h = go (m n) refl h
  where
    go :
        (r : NativeResult (A × ℕ))
        → m n ≡ r
        → elim r as (λ x. NativeResult (B × ℕ)) [ ok (a, n') ↦ f a n' | err e ↦ err e ] ≡ ok (b, k)
        → (a : A) × (n' : ℕ) × (m n ≡ ok (a, n')) × (f a n' ≡ ok (b, k))
    go (ok (a, n')) e h = (a, n', e, h)
    go (err x) e h = cc

pub lift-eq-ok :
    {A : Type 0} (m : NativeResult A) (n : ℕ) {a : A} {k : ℕ}
    → lift m n ≡ ok (a, k)
    → (m ≡ ok a) × (n ≡ k)
lift-eq-ok (ok a) n h = (cc, cc)
lift-eq-ok (err e) n h = cc

pub bind-ok :
    {A B : Type 0} (m : Timed A) (f : A → Timed B) (n : ℕ) {a : A} {n' : ℕ}
    → m n ≡ ok (a, n')
    → (m >>= f) n ≡ f a n'
bind-ok {A} {B} m f n h =
    ap (λ r. elim r as (λ x. NativeResult (B × ℕ)) [ ok (a, n') ↦ f a n' | err e ↦ err e ]) h

pub check_deadline-ok :
    (late : Clock) (timeout : NativeError) (n : ℕ)
    → late n ≡ false
    → check_deadline late timeout n ≡ ok (tt, n + 1)
unfolding check_deadline
check_deadline-ok late timeout n h = ground arith

pub lift-ok : {A : Type 0} (m : NativeResult A) (n : ℕ) {a : A} → m ≡ ok a → lift m n ≡ ok (a, n)
lift-ok {A} m n h = ap (λ r. lift r n) h
