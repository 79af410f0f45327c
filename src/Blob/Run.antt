-- ===== src/Blob/Run.antt =====
-- A decode as a computation: it uses up the budget, and it returns, fails, panics, or is cut off
-- when the rounds that a loop of the model is given do not suffice.
pub mod Keeps
use fornacast.Prelude.Word.{u64_mod}
use fornacast.Prelude.{
  arith, ◌∙◌, ℕ, ◌+◌, ◌≤◌, ◌<◌, ◌≡◌, refl, Option, none, some, Result, ok, err, String,
}
use fornacast.Blob.Failure.{
  ErrorKind, storage_unavailable, corrupt_repository, work_limit_reached, stop_requested, Error,
  DecodeResult, corrupt,
}
use fornacast.Blob.Budget.{
  DecodeWorkBudget, Work, Chunk, chunk, unreachable, Counter, delta_instructions, charge,
  check_stop, charge_delta_instruction, charge_source_open, inflated_chunk, compressed_chunk,
  remaining_chunk,
}

pub data Halt : Type 0 where
  failed : Error → Halt
  panicked : Halt
  out_of_rounds : Halt

abbrev pub Ran : Type 0 → Type 0
Ran A = Result Halt (A × DecodeWorkBudget)

abbrev pub Decode : Type 0 → Type 0
Decode A = DecodeWorkBudget → Ran A

abbrev pub pure : {A : Type 0} → A → Decode A
pure a b = ok (a, b)

abbrev pub fail : {A : Type 0} → Error → Decode A
fail e b = err (failed e)

abbrev pub cut_off : {A : Type 0} → Decode A
cut_off b = err out_of_rounds

infixl 5 ◌>>=◌ ◌>>◌
abbrev pub ◌>>=◌ : {A B : Type 0} → Decode A → (A → Decode B) → Decode B
◌>>=◌ m f b = elim (m b) [ ok (a, b') ↦ f a b' | err h ↦ err h ]

abbrev pub ◌>>◌ : {B : Type 0} → Decode (Unit {0}) → Decode B → Decode B
m >> k = m >>= λ _. k

-- `?` on a result that uses nothing, and on an operation of the budget.
abbrev pub lift : {A : Type 0} → DecodeResult A → Decode A
lift (ok a) b = ok (a, b)
lift (err e) b = err (failed e)

abbrev pub work : {A : Type 0} → Work A → Decode A
work m b = lift (m b).0 (m b).1

abbrev ran_chunk : DecodeResult Chunk → Decode ℕ
ran_chunk (ok (chunk n)) b = ok (n, b)
ran_chunk (ok unreachable) b = err panicked
ran_chunk (err e) b = err (failed e)

abbrev pub work_chunk : Work Chunk → Decode ℕ
work_chunk m b = ran_chunk (m b).0 (m b).1

-- `From<String>` for the error of the code, and a parser of bytes that is given a decode to read
-- them with.
abbrev pub from_string : String → Halt
from_string detail = failed (corrupt detail)

abbrev pub reassociate : {A S : Type 0} → Result Halt (A × (S × DecodeWorkBudget)) → Ran (A × S)
reassociate (ok (a, (s, b))) = ok ((a, s), b)
reassociate (err h) = err h

abbrev pub reading :
    {S : Type 0}
    → (S → Decode (ℕ × S))
    → S × DecodeWorkBudget
    → Result Halt (ℕ × (S × DecodeWorkBudget))
reading read (s, b) = elim (read s b) [ ok ((a, s'), b') ↦ ok (a, (s', b')) | err h ↦ err h ]

-- The errors that a sound repository may still meet: a limit of the work, and a stop.
abbrev pub Excused : ErrorKind → Type 0
Excused storage_unavailable = ⊥
Excused corrupt_repository = ⊥
Excused work_limit_reached = Unit
Excused stop_requested = Unit

-- A run neither panics nor is cut off, and if it returns a value, `P` holds of that and of the
-- budget that is left. If `G` holds, it fails for an excused error only.
abbrev pub Gives : {A : Type 0} → Type 0 → (A → DecodeWorkBudget → Type 0) → Ran A → Type 0
Gives G P (ok (a, b)) = P a b
Gives G P (err (failed e)) = G → Excused e.kind
Gives G P (err panicked) = ⊥
Gives G P (err out_of_rounds) = ⊥

abbrev pub Succeeds : {A : Type 0} → DecodeResult A → Type 0
Succeeds (ok a) = Unit
Succeeds (err e) = ⊥

module _ (G : Type 0) where
  pub Gives-bind :
      {A B : Type 0} (P : A → DecodeWorkBudget → Type 0) (Q : B → DecodeWorkBudget → Type 0)
      (m : Decode A) (f : A → Decode B) (b : DecodeWorkBudget)
      → Gives G P (m b)
      → ((a : A) (b' : DecodeWorkBudget) → P a b' → Gives G Q (f a b'))
      → Gives G Q ((m >>= f) b)
  Gives-bind {A} {B} P Q m f b h next = go (m b) h
    where
      go :
          (r : Ran A)
          → Gives G P r
          → Gives G Q (elim r as (λ x. Ran B) [ ok (a, b') ↦ f a b' | err h ↦ err h ])
      go (ok (a, b')) h = next a b' h
      go (err (failed e)) h = h
      go (err panicked) h = absurd h
      go (err out_of_rounds) h = absurd h

  pub Gives-imply :
      {A : Type 0} (P Q : A → DecodeWorkBudget → Type 0) (r : Ran A)
      → ((a : A) (b : DecodeWorkBudget) → P a b → Q a b)
      → Gives G P r
      → Gives G Q r
  Gives-imply P Q (ok (a, b)) f h = f a b h
  Gives-imply P Q (err (failed e)) f h = h
  Gives-imply P Q (err panicked) f h = absurd h
  Gives-imply P Q (err out_of_rounds) f h = absurd h

  -- A step that uses nothing up.
  pub Gives-try :
      {A B : Type 0} (r : DecodeResult A) (Q : B → DecodeWorkBudget → Type 0) (f : A → Decode B)
      (b : DecodeWorkBudget)
      → (G → Succeeds r)
      → ((a : A) → r ≡ ok a → Gives G Q (f a b))
      → Gives G Q ((lift r >>= f) b)
  Gives-try (ok a) Q f b fine next = next a refl
  Gives-try (err e) Q f b fine next = λ g. absurd (fine g)

-- What is used up stays used up, and the limits stay.
abbrev pub Later : DecodeWorkBudget → DecodeWorkBudget → Type 0
Later b b' =
    (b'.limits ≡ b.limits)
    × (b.used.delta_instructions ≤ b'.used.delta_instructions)
    × (b.used.source_opens ≤ b'.used.source_opens)

abbrev pub Bounded : DecodeWorkBudget → Type 0
Bounded b = (b.limits.compressed_input_bytes < u64_mod) × (b.limits.inflated_output_bytes < u64_mod)

pub Later-refl : (b : DecodeWorkBudget) → Later b b
Later-refl b = (refl, omega arith, omega arith)

pub Later-trans : (a b c : DecodeWorkBudget) → Later a b → Later b c → Later a c
Later-trans a b c h k = (k.0 ∙ h.0, omega arith, omega arith)

pub Later-Bounded : (a b : DecodeWorkBudget) → Later a b → Bounded a → Bounded b
Later-Bounded a b h k = (rw h.0 k.0, rw h.0 k.1)

abbrev pub Granted : ℕ → DecodeWorkBudget → ℕ → DecodeWorkBudget → Type 0
Granted requested b n b' = Later b b' × (n ≤ requested) × (0 < requested → 0 < n)

module _ (G : Type 0) where
  pub charge-Later :
      (c : Counter) (n : ℕ) (b : DecodeWorkBudget)
      → Gives G (λ u b'. Later b b') (work (charge c n) b)
  unfolding charge
  charge-Later delta_instructions n b = ground arith
  charge-Later _ n b = ground arith

  pub check_stop-Later : (b : DecodeWorkBudget) → Gives G (λ u b'. Later b b') (work check_stop b)
  unfolding check_stop
  check_stop-Later b = ground arith

  -- A charge that is counted stays within the limit.
  pub charge_delta_instruction-Later :
      (b : DecodeWorkBudget)
      → Gives G
          (λ u b'.
            Later b b'
            × (b'.used.delta_instructions ≡ b.used.delta_instructions + 1)
            × (b'.used.delta_instructions ≤ b'.limits.delta_instructions))
          (work charge_delta_instruction b)
  unfolding charge_delta_instruction charge
  charge_delta_instruction-Later b = ground arith

  pub charge_source_open-Later :
      (b : DecodeWorkBudget)
      → Gives G
          (λ u b'.
            Later b b'
            × (b'.used.source_opens ≡ b.used.source_opens + 1)
            × (b'.used.source_opens ≤ b'.limits.source_opens))
          (work (charge_source_open 1) b)
  unfolding charge_source_open charge
  charge_source_open-Later b = ground arith

  pub inflated_chunk-Granted :
      (requested : ℕ) (b : DecodeWorkBudget)
      → Bounded b
      → Gives G (Granted requested b) (work_chunk (inflated_chunk requested) b)
  unfolding inflated_chunk remaining_chunk charge
  inflated_chunk-Granted requested b (h, k) = ground arith

  pub compressed_chunk-Granted :
      (requested : ℕ) (b : DecodeWorkBudget)
      → Bounded b
      → Gives G (Granted requested b) (work_chunk (compressed_chunk requested) b)
  unfolding compressed_chunk remaining_chunk charge
  compressed_chunk-Granted requested b (h, k) = ground arith
