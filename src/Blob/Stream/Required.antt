-- ===== src/Blob/Stream/Required.antt =====
-- What a refill that is asked for gives: `refill`, and the check behind it.
use fornacast.Prelude.{
  ℕ, ◌≤◌, ◌<◌, ◌≡◌, refl, ap, ◌∙◌, Bool, true, false, Bool-cases, inl, inr, ◌++◌, length,
  length-drop, arith, ◌==◌, not, ◌||◌, min, if◌then◌else◌,
}
use fornacast.Prelude.Bytes.{Bytes}
use fornacast.Blob.Budget.{DecodeWorkBudget, inflated_chunk}
use fornacast.Blob.Run.{Later-refl, Later-Bounded, Bounded, work_chunk, pure}
use fornacast.Blob.Run.Keeps.{
  Keeps, Keeps-bind, Keeps-imply, Keeps-ensure, Portion, inflated_chunk-Keeps,
}
use fornacast.Blob.Stream.{
  InflatedStream, available, buffered, refill_rounds, refill_bound, refill, required,
}
use fornacast.Blob.Stream.Inflating.{Inflation}
use fornacast.Blob.Stream.Refills.{Filled, Pending, refill_rounds-Filled, empty_buffer}

module _ {D : Type 0} (z : Inflation D) (G : Type 0) (total : ℕ) where
  pub refill-Filled :
      (requested : ℕ) (s : InflatedStream D) (left : Bytes) (b : DecodeWorkBudget)
      → Bounded b
      → available s ≡ 0
      → Pending z G total s left
      → (G → 0 < requested)
      → Keeps G b
          (λ s'.
            Filled z G total requested s' left × (G → s'.ended ≡ false → 0 < length (buffered s')))
          (refill z.inflater z.read requested s b)
  unfolding refill
  refill-Filled requested s left b bound used_up (later, split, last, pending, sound) asks =
      let none_buffered = empty_buffer s used_up in
      let all : left ≡ later = split ∙ ap (λ x. x ++ later) none_buffered in
      elim (Bool-cases (requested == 0 || s.ended)) [
        | inl no_refill ↦ rw no_refill (
          Later-refl b,
          (
            (later, all, last, pending, λ g. ((sound g).0, omega arith)),
            λ g e. absurd (wanted requested s.ended no_refill (asks g) e),
          ),
        )
        | inr goes_on ↦
            let running : s.ended ≡ false = ground arith in
            let free : not (available s == 0) ≡ false = ground arith in
            rw (goes_on, free)
              (Keeps-bind G (Portion (min requested s.size)) _
                (work_chunk (inflated_chunk (min requested s.size))) _ b
                (inflated_chunk-Keeps G (min requested s.size) b bound)
                λ n b1 l1 (h, some_given).
                  Keeps-imply G
                    (λ s'.
                      Filled z G total n s' left × (s'.ended ≡ false → 0 < length (buffered s')))
                    _ b1 (refill_rounds z.inflater z.read (refill_bound z.inflater z.read s) n s b1)
                    (λ s' ((later', split', last', pending', sound'), given). (
                      (
                        later',
                        split',
                        last',
                        pending',
                        λ g. let (steady, few) = sound' g in (steady, omega (arith, few, h)),
                      ),
                      λ g. given,
                    ))
                    (refill_rounds-Filled z G total (refill_bound z.inflater z.read s) n s left b1
                      (Later-Bounded b b1 l1 bound) (omega arith) running (rw all pending)
                      λ g.
                        let ((sized, decodes), _) = sound g in
                        let wants = asks g in
                        let sized_buffer = sized.2 in
                        (rw all (sized, decodes), some_given (omega (arith, wants, sized_buffer)))))
      ]
    where
      wanted : (n : ℕ) (e : Bool) → n == 0 || e ≡ true → 0 < n → e ≡ false → ⊥
      wanted n e h some_wanted k = ground arith

  pub required-Filled :
      (requested : ℕ) (s : InflatedStream D) (left : Bytes) (b : DecodeWorkBudget)
      → Bounded b
      → Pending z G total s left
      → (G → (0 < requested) × (0 < length left))
      → Keeps G b
          (λ s'. Filled z G total requested s' left × (0 < length (buffered s')))
          (required z.inflater z.read requested s b)
  unfolding required
  required-Filled requested s left b bound pending asks =
      Keeps-bind G
        (λ s'.
          Filled z G total requested s' left × (G → s'.ended ≡ false → 0 < length (buffered s')))
        _ (if available s == 0 then refill z.inflater z.read requested s else pure s) _ b
        (elim (Bool-cases (available s == 0)) [
          | inl used_up ↦
              let none_left : available s ≡ 0 = ground arith in
              rw used_up (refill-Filled requested s left b bound none_left pending λ g. (asks g).0)
          | inr some_left ↦
              let (later, split, last, from_input, sound) = pending in
              let held = length-drop s.output_position s.output in
              rw some_left (
                Later-refl b,
                (
                  (
                    later,
                    split,
                    last,
                    from_input,
                    λ g. let (steady, few) = sound g in (steady, omega (arith, few)),
                  ),
                  λ g e.
                      let (steady, few) = sound g in
                      absurd (still (available s) (length (buffered s)) some_left held few),
                ),
              )
        ])
        λ s' b1 l1 ((later, split, last, from_input, sound), given).
          let held = length-drop s'.output_position s'.output in
          Keeps-ensure G (not (available s' == 0)) "zlib stream ended before requested data" _ _ b1
            (λ g. elim (Bool-cases (available s' == 0)) [
              | inr some_left ↦ rw some_left refl
              | inl used_up ↦
                  let no_bytes : available s' ≡ 0 = ground arith in
                  let all = split ∙ ap (λ x. x ++ later) (empty_buffer s' no_bytes) in
                  let some_byte = (asks g).1 in
                  elim (Bool-cases s'.ended) [
                    | inl over ↦ absurd (omega (arith, some_byte, ap length (all ∙ last over)))
                    | inr running ↦ absurd (omega (arith, no_bytes, held, given g running))
                  ]
            ])
            λ e.
              let some_left : 0 < available s' = ground arith in
              (
                Later-refl b1,
                ((later, split, last, from_input, sound), omega (arith, some_left, held)),
              )
    where
      still : (n m : ℕ) → n == 0 ≡ false → m ≡ n → m ≤ 0 → ⊥
      still n m h k l = ground arith
