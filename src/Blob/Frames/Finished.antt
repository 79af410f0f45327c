-- ===== src/Blob/Frames/Finished.antt =====
-- A frame that is through: `finish_frame`.
use fornacast.Prelude.{
  ℕ, ◌∷◌, ◌≤◌, ◌≡◌, refl, ◌∙◌, not, ◌&&◌, Bool-cases, inl, inr, none, [], ◌++◌, length, ltb, ◌==◌,
  arith,
}
use fornacast.Prelude.Bytes.{Bytes}
use fornacast.Blob.Budget.{DecodeWorkBudget}
use fornacast.Blob.Run.{Later-refl, Bounded}
use fornacast.Blob.Run.Keeps.{Keeps, Keeps-bind, Keeps-ensure}
use fornacast.Blob.Stream.{buffered, finish_exact}
use fornacast.Blob.Stream.Inflating.{Inflation}
use fornacast.Blob.Stream.Refills.{Pending}
use fornacast.Blob.Stream.Reads.{Output, finish_exact-Pending}
use fornacast.Blob.Frames.{DeltaFrame, finish_frame}
use fornacast.Blob.Frames.Advance.{SameFrame}

module _ {D : Type 0} (z : Inflation D) (G : Type 0) (total : ℕ) where
  module _ {S : Type 0} (out : Output S) where
    pub finish_frame-Keeps :
        (frame : DeltaFrame D) (output : S) (left : Bytes) (b : DecodeWorkBudget)
        → Bounded b
        → Pending z G total frame.stream left
        → (G
            → (left ≡ [] → frame.result_position ≡ frame.result_size)
              × (frame.requested.end ≡ frame.result_size
                  → (frame.result_position ≡ frame.result_size) × (left ≡ [])))
        → Keeps G b
            (λ r.
              SameFrame r.0 frame
              × (r.0.result_position ≡ frame.result_position)
              × (r.1 ≡ output)
              × (r.2 ≡ none))
            (finish_frame z.inflater z.read out.sink frame output b)
    unfolding finish_frame
    finish_frame-Keeps frame output left b bound pending sound =
        let early = not (frame.stream.ended && ltb frame.result_position frame.result_size) in
        Keeps-ensure G early "delta stream reached StreamEnd" _ _ b
          (λ g. elim (Bool-cases frame.stream.ended) [
            | inr running ↦ rw running refl
            | inl over ↦
                let (later, split, last, _, holds) = pending in
                let nothing =
                  no_bytes (buffered frame.stream) later left split (last over) (holds g).1 in
                let at_end = (sound g).0 nothing in ground arith
          ])
          λ e1. elim (Bool-cases (frame.requested.end == frame.result_size)) [
            | inr part ↦ rw part (Later-refl b, ((refl, refl, refl, refl), refl, refl, refl))
            | inl whole ↦
                let all : frame.requested.end ≡ frame.result_size = ground arith in
                rw whole (
                  Keeps-ensure G (frame.result_position == frame.result_size)
                    "delta result ended early" _ _ b
                    (λ g. let at_end = ((sound g).1 all).0 in ground arith)
                    λ e2.
                      Keeps-bind G (λ s. left ≡ []) _ (finish_exact z.inflater z.read frame.stream)
                        _ b
                        (finish_exact-Pending z G total frame.stream left b bound pending
                          λ g. ((sound g).1 all).1)
                        λ s b3 l3 e3. (Later-refl b3, ((refl, refl, refl, refl), refl, refl, refl)))
          ]
      where
        no_bytes :
            (held later left : Bytes)
            → left ≡ held ++ later
            → later ≡ []
            → length held ≤ 0
            → left ≡ []
        no_bytes [] later left split over few = split ∙ over
        no_bytes (x ∷ held) later left split over few = absurd (omega arith)
