-- ===== src/Blob/Budget/Charges.antt =====
-- About the charges of `DecodeWorkBudget`, one and in runs.
use fornacast.Prelude.{
  ℕ, ◌+◌, ◌-◌, ◌≤◌, ◌<◌, ◌≡◌, ◌≢◌, ◌↔◌, false, ok, err, List, [], ◌∷◌, min, arith, refl, ◌∙◌,
  Result-cases, inl, inr,
}
use fornacast.Prelude.Word.{u64_mod}
use fornacast.Blob.Failure.{Error, DecodeResult}
use fornacast.Blob.Budget.{
  DecodeWorkBudget, Counter, delta_instructions, get, set, Work, polled, asked_to_stop, check_stop,
  charge, chunk, unreachable, remaining_chunk,
}

-- A charge succeeds exactly when the hook does not stop it and the counter stays within its
-- limit, and then it adds the count to that counter and changes no other.
pub charge_exact :
    (counter : Counter) (count : ℕ) (b : DecodeWorkBudget)
    → get counter b.limits < u64_mod
    → ((charge counter count b).0 ≡ ok tt) ↔ (
        (asked_to_stop b ≡ false)
        × (get counter b.used + count ≤ get counter b.limits)
        × ((charge counter count b).1
            ≡ record (polled b) { used = set counter (get counter b.used + count) b.used }))
unfolding charge
charge_exact delta_instructions count b h = ground arith
charge_exact _ count b h = ground arith

-- A request for a chunk never reaches the `unreachable!`; a chunk that it grants is what was
-- asked for or what the limit leaves, and is not empty unless nothing was asked for.
pub remaining_chunk_exact :
    (counter : Counter) (requested : ℕ) (b : DecodeWorkBudget)
    → get counter b.limits < u64_mod
    → let (result, b') = remaining_chunk counter requested b in
      (result ≢ ok unreachable)
      × (b'.limits ≡ b.limits)
      × ((n : ℕ)
          → result ≡ ok (chunk n)
          → (n ≡ min requested (get counter b.limits - get counter b.used))
            × (0 < requested → 0 < n)
            × (b'.used ≡ b.used))
unfolding remaining_chunk
remaining_chunk_exact delta_instructions requested b h =
    (λ e. ground arith, ground arith, λ n e. (ground arith, ground arith, ground arith))
remaining_chunk_exact _ requested b h =
    (λ e. ground arith, ground arith, λ n e. (ground arith, ground arith, ground arith))

-- The operations of a decode on its budget, and a run of them up to the first error.
pub data Operation : Type 0 where
  charges : Counter → ℕ → Operation
  asks_chunk : Counter → ℕ → Operation
  checks : Operation

abbrev done {ℓ} : {A : Type ℓ} → DecodeResult A → DecodeResult (Unit {0})
done (ok a) = ok tt
done (err e) = err e

unfoldable pub perform : Operation → Work (Unit {0})
perform (charges counter count) b = charge counter count b
perform (asks_chunk counter requested) b =
    let (r, b') = remaining_chunk counter requested b in (done r, b')
perform checks b = check_stop b

unfoldable pub run : List Operation → Work (Unit {0})
run [] b = (ok tt, b)
run (o ∷ os) b = let (r, b') = perform o b in elim r [ ok done ↦ run os b' | err e ↦ (err e, b') ]

-- Every counter is within its limit.
pub record Within (b : DecodeWorkBudget) : Type 0 where
  pub delta_instructions : b.used.delta_instructions ≤ b.limits.delta_instructions
  pub source_opens : b.used.source_opens ≤ b.limits.source_opens
  pub index_entries_scanned : b.used.index_entries_scanned ≤ b.limits.index_entries_scanned
  pub compressed_input_bytes : b.used.compressed_input_bytes ≤ b.limits.compressed_input_bytes
  pub inflated_output_bytes : b.used.inflated_output_bytes ≤ b.limits.inflated_output_bytes
  pub skipped_output_bytes : b.used.skipped_output_bytes ≤ b.limits.skipped_output_bytes
  pub discovery_bytes : b.used.discovery_bytes ≤ b.limits.discovery_bytes

abbrev Kept : DecodeWorkBudget → DecodeResult (Unit {0}) × DecodeWorkBudget → Type 0
Kept b (r, b') = r ≡ ok tt → Within b' × (b'.limits ≡ b.limits)

charge-Kept :
    (counter : Counter) (count : ℕ) (b : DecodeWorkBudget)
    → Within b
    → Kept b (charge counter count b)
unfolding charge
charge-Kept delta_instructions count b w e = (ground arith, ground arith)
charge-Kept _ count b w e = (ground arith, ground arith)

chunk-Kept :
    (counter : Counter) (requested : ℕ) (b : DecodeWorkBudget)
    → Within b
    → Kept b (perform (asks_chunk counter requested) b)
unfolding perform remaining_chunk
chunk-Kept delta_instructions requested b w e = (ground arith, ground arith)
chunk-Kept _ requested b w e = (ground arith, ground arith)

perform-Kept : (o : Operation) (b : DecodeWorkBudget) → Within b → Kept b (perform o b)
perform-Kept (charges counter count) b w = unfold perform in charge-Kept counter count b w
perform-Kept (asks_chunk counter requested) b w = chunk-Kept counter requested b w
perform-Kept checks b w = λ e. unfold perform check_stop in (ground arith, ground arith)

run_ok :
    (o : Operation) (os : List Operation) (b : DecodeWorkBudget)
    → (perform o b).0 ≡ ok tt
    → run (o ∷ os) b ≡ run os (perform o b).1
unfolding run
run_ok o os b e = rw (e, run)

run_err :
    (o : Operation) (os : List Operation) (b : DecodeWorkBudget) (x : Error)
    → (perform o b).0 ≡ err x
    → (run (o ∷ os) b).0 ≡ err x
unfolding run
run_err o os b x e = rw (e, run)

-- However a decode charges its budget, as long as nothing has failed every counter is within
-- the limit that the budget was made with.
pub run-Within :
    (os : List Operation) (b : DecodeWorkBudget)
    → Within b
    → (run os b).0 ≡ ok tt
    → Within (run os b).1 × ((run os b).1.limits ≡ b.limits)
run-Within [] b w e = unfold run in (w, refl)
run-Within (o ∷ os) b w e = elim (Result-cases (perform o b).0) [
  | inl (done, p) ↦
      let kept = perform-Kept o b w p in
      let later = run-Within os (perform o b).1 kept.0 (rw (run_ok o os b p) at e) in
      rw (run_ok o os b p) (later.0, later.1 ∙ kept.1)
  | inr (x, p) ↦ absurd (cc (run_err o os b x p))
]
