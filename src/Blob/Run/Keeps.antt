-- ===== src/Blob/Run/Keeps.antt =====
-- Runs that only use up the budget: what they return, with the budget's part taken care of.
use fornacast.Prelude.{ℕ, ◌≤◌, ◌<◌, ◌≡◌, refl, Bool, true, false, String, ok}
use fornacast.Blob.Failure.{DecodeResult}
use fornacast.Blob.Budget.{
  DecodeWorkBudget, charge, check_stop, compressed_chunk, inflated_chunk, charge_compressed_input,
  charge_inflated_output, charge_skipped_output, compressed_input_bytes, inflated_output_bytes,
  skipped_output_bytes, Work,
}
use fornacast.Blob.Run.{
  Ran, Decode, Gives, Gives-bind, Gives-imply, Gives-try, Succeeds, Later, Later-trans,
  Later-Bounded, Bounded, lift, work, work_chunk, ◌>>=◌, charge-Later, check_stop-Later, Granted,
  compressed_chunk-Granted, inflated_chunk-Granted,
}
use fornacast.Blob.Stream.{ensure}

abbrev pub Keeps : {A : Type 0} → Type 0 → DecodeWorkBudget → (A → Type 0) → Ran A → Type 0
Keeps G b P = Gives G (λ a b'. Later b b' × P a)

abbrev pub Any : {A : Type 0} → A → Type 0
Any a = Unit {0}

-- A chunk that is granted.
abbrev pub Portion : ℕ → ℕ → Type 0
Portion n k = (k ≤ n) × (0 < n → 0 < k)

module _ (G : Type 0) where
  pub Keeps-imply :
      {A : Type 0} (P Q : A → Type 0) (b : DecodeWorkBudget) (r : Ran A)
      → ((a : A) → P a → Q a)
      → Keeps G b P r
      → Keeps G b Q r
  Keeps-imply P Q b r f h =
      Gives-imply G (λ a b'. Later b b' × P a) (λ a b'. Later b b' × Q a) r
        (λ a b' (l, p). (l, f a p)) h

  -- A step, and what comes after it with the budget that it leaves.
  pub Keeps-bind :
      {A B : Type 0} (P : A → Type 0) (Q : B → Type 0) (m : Decode A) (f : A → Decode B)
      (b : DecodeWorkBudget)
      → Keeps G b P (m b)
      → ((a : A) (b' : DecodeWorkBudget) → Later b b' → P a → Keeps G b' Q (f a b'))
      → Keeps G b Q ((m >>= f) b)
  Keeps-bind P Q m f b h next =
      Gives-bind G (λ a b'. Later b b' × P a) (λ c b'. Later b b' × Q c) m f b h
        λ a b' (l, p).
          Gives-imply G (λ c b''. Later b' b'' × Q c) (λ c b''. Later b b'' × Q c) (f a b')
            (λ c b'' (k, q). (Later-trans b b' b'' l k, q)) (next a b' l p)

  -- A step that uses nothing up.
  pub Keeps-try :
      {A B : Type 0} (r : DecodeResult A) (Q : B → Type 0) (f : A → Decode B) (b : DecodeWorkBudget)
      → (G → Succeeds r)
      → ((a : A) → r ≡ ok a → Keeps G b Q (f a b))
      → Keeps G b Q ((lift r >>= f) b)
  Keeps-try r Q f b fine next = Gives-try G r (λ c b'. Later b b' × Q c) f b fine next

  pub Gives-ensure :
      {B : Type 0} (t : Bool) (detail : String) (Q : B → DecodeWorkBudget → Type 0)
      (f : Unit {0} → Decode B) (b : DecodeWorkBudget)
      → (G → t ≡ true)
      → (t ≡ true → Gives G Q (f tt b))
      → Gives G Q ((lift (ensure t detail) >>= f) b)
  Gives-ensure true detail Q f b fine next = next refl
  Gives-ensure false detail Q f b fine next = λ g. absurd (cc (fine g))

  pub Keeps-ensure :
      {B : Type 0} (t : Bool) (detail : String) (Q : B → Type 0) (f : Unit {0} → Decode B)
      (b : DecodeWorkBudget)
      → (G → t ≡ true)
      → (t ≡ true → Keeps G b Q (f tt b))
      → Keeps G b Q ((lift (ensure t detail) >>= f) b)
  Keeps-ensure t detail Q f b = Gives-ensure t detail (λ c b'. Later b b' × Q c) f b

  -- A step that only uses up the budget.
  Keeps-work :
      {B : Type 0} (m : Work (Unit {0})) (Q : B → Type 0) (f : Unit {0} → Decode B)
      (b : DecodeWorkBudget)
      → Gives G (λ u b'. Later b b') (work m b)
      → Bounded b
      → ((b' : DecodeWorkBudget) → Bounded b' → Keeps G b' Q (f tt b'))
      → Keeps G b Q ((work m >>= f) b)
  Keeps-work m Q f b h bound next =
      Gives-bind G (λ u b'. Later b b') (λ c b'. Later b b' × Q c) (work m) f b h
        λ u b' l.
          Gives-imply G (λ c b''. Later b' b'' × Q c) (λ c b''. Later b b'' × Q c) (f tt b')
            (λ c b'' (k, q). (Later-trans b b' b'' l k, q)) (next b' (Later-Bounded b b' l bound))

  pub Keeps-check_stop :
      {B : Type 0} (Q : B → Type 0) (f : Unit {0} → Decode B) (b : DecodeWorkBudget)
      → Bounded b
      → ((b' : DecodeWorkBudget) → Bounded b' → Keeps G b' Q (f tt b'))
      → Keeps G b Q ((work check_stop >>= f) b)
  Keeps-check_stop Q f b = Keeps-work check_stop Q f b (check_stop-Later G b)

  pub Keeps-charge_compressed_input :
      {B : Type 0} (n : ℕ) (Q : B → Type 0) (f : Unit {0} → Decode B) (b : DecodeWorkBudget)
      → Bounded b
      → ((b' : DecodeWorkBudget) → Bounded b' → Keeps G b' Q (f tt b'))
      → Keeps G b Q ((work (charge_compressed_input n) >>= f) b)
  unfolding charge_compressed_input
  Keeps-charge_compressed_input n Q f b =
      Keeps-work (charge compressed_input_bytes n) Q f b (charge-Later G compressed_input_bytes n b)

  pub Keeps-charge_inflated_output :
      {B : Type 0} (n : ℕ) (Q : B → Type 0) (f : Unit {0} → Decode B) (b : DecodeWorkBudget)
      → Bounded b
      → ((b' : DecodeWorkBudget) → Bounded b' → Keeps G b' Q (f tt b'))
      → Keeps G b Q ((work (charge_inflated_output n) >>= f) b)
  unfolding charge_inflated_output
  Keeps-charge_inflated_output n Q f b =
      Keeps-work (charge inflated_output_bytes n) Q f b (charge-Later G inflated_output_bytes n b)

  pub Keeps-charge_skipped_output :
      {B : Type 0} (n : ℕ) (Q : B → Type 0) (f : Unit {0} → Decode B) (b : DecodeWorkBudget)
      → Bounded b
      → ((b' : DecodeWorkBudget) → Bounded b' → Keeps G b' Q (f tt b'))
      → Keeps G b Q ((work (charge_skipped_output n) >>= f) b)
  unfolding charge_skipped_output
  Keeps-charge_skipped_output n Q f b =
      Keeps-work (charge skipped_output_bytes n) Q f b (charge-Later G skipped_output_bytes n b)

  pub compressed_chunk-Keeps :
      (n : ℕ) (b : DecodeWorkBudget)
      → Bounded b
      → Keeps G b (Portion n) (work_chunk (compressed_chunk n) b)
  compressed_chunk-Keeps n b h =
      Gives-imply G (Granted n b) (λ k b'. Later b b' × Portion n k)
        (work_chunk (compressed_chunk n) b) (λ k b' g. (g.0, (g.1, g.2)))
        (compressed_chunk-Granted G n b h)

  pub inflated_chunk-Keeps :
      (n : ℕ) (b : DecodeWorkBudget)
      → Bounded b
      → Keeps G b (Portion n) (work_chunk (inflated_chunk n) b)
  inflated_chunk-Keeps n b h =
      Gives-imply G (Granted n b) (λ k b'. Later b b' × Portion n k)
        (work_chunk (inflated_chunk n) b) (λ k b' g. (g.0, (g.1, g.2)))
        (inflated_chunk-Granted G n b h)
