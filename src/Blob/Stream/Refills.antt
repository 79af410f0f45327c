-- ===== src/Blob/Stream/Refills.antt =====
-- What the rounds of a refill do to the bytes that a stream still gives: `InflatedStream.refill`.
use fornacast.Prelude.{
  ℕ, zero, suc, ◌+◌, ◌≤◌, ◌<◌, ◌≡◌, refl, sym, ap, ◌∙◌, Bool, true, false, Bool-cases, inl, inr,
  Option, none, some, [], ◌∷◌, ◌++◌, length, length-append, arith, ◌==◌, not, ◌||◌,
}
use fornacast.Prelude.Bytes.{Bytes}
use fornacast.Prelude.Slices.{drop_all}
use fornacast.Blob.Budget.{DecodeWorkBudget, stream_buffer_target}
use fornacast.Blob.Run.{Later-refl, Later-Bounded, Bounded}
use fornacast.Blob.Run.Keeps.{Keeps, Keeps-bind, Keeps-ensure, Keeps-check_stop}
use fornacast.Blob.Zlib.{
  Status, stream_end, more_to_come, is_empty, decompress_once, is_exactly_exhausted,
}
use fornacast.Blob.Stream.{
  InflatedStream, available, buffered, compressed_left, is_end, beyond, differs, end_stream,
  refill_rounds,
}
use fornacast.Blob.Stream.Inflating.{Inflation, Intact, Stepped}
use fornacast.Blob.Stream.Sources.{decompress_once-Stepped, is_exactly_exhausted-Keeps}

pub empty_buffer : {D : Type 0} (s : InflatedStream D) → available s ≡ 0 → buffered s ≡ []
empty_buffer s h = drop_all s.output_position s.output (omega arith)

nothing_written : (bs : Bytes) → is_empty bs ≡ true → bs ≡ []
nothing_written [] h = refl
nothing_written (x ∷ bs) h = cc

-- The size that is declared, if there is one.
abbrev pub Declares : Option ℕ → ℕ → Type 0
Declares none total = Unit
Declares (some n) total = n ≡ total

not-beyond :
    (declared : Option ℕ) (total produced : ℕ)
    → Declares declared total
    → produced ≤ total
    → not (beyond declared produced) ≡ true
not-beyond none total produced same fits = refl
not-beyond (some n) total produced same fits = ground arith

not-differs :
    (declared : Option ℕ) (total produced : ℕ)
    → Declares declared total
    → produced ≡ total
    → not (differs declared produced) ≡ true
not-differs none total produced same all = refl
not-differs (some n) total produced same all = ground arith

module _ {D : Type 0} (z : Inflation D) (G : Type 0) (total : ℕ) where
  -- A stream of `total` bytes, of which `later` is still to be decoded.
  abbrev pub Sized : InflatedStream D → Bytes → Type 0
  Sized s later =
      (z.inflater.total_out s.inflate + length later ≡ total)
      × Declares s.declared_size total
      × (0 < s.size)
      × (s.size ≤ stream_buffer_target)

  abbrev pub Steady : InflatedStream D → Bytes → Type 0
  Steady s later =
      Sized s later
      × (s.ended ≡ false → z.Valid s.inflate (compressed_left s.source) later × Intact z s.source)

  -- `left` is what the stream still gives: the bytes in its buffer, which are at most `n` if the
  -- stream is sound, and behind them what comes out of the compressed input, which is nothing once
  -- the stream has ended.
  abbrev pub Filled : ℕ → InflatedStream D → Bytes → Type 0
  Filled n s left =
      (later : Bytes) × (left ≡ buffered s ++ later)
      × (s.ended ≡ true → later ≡ [])
      × z.Left s.inflate (compressed_left s.source) later
      × (G → Steady s later × (length (buffered s) ≤ n))

  -- Between two operations the buffer of a sound stream is empty.
  abbrev pub Pending : InflatedStream D → Bytes → Type 0
  Pending = Filled 0

  end_stream-Filled :
      (st : Status) (n : ℕ) (s : InflatedStream D) (left later : Bytes) (b : DecodeWorkBudget)
      → Bounded b
      → left ≡ buffered s ++ later
      → s.ended ≡ false
      → (is_end st ≡ true → later ≡ [])
      → z.Left s.inflate (compressed_left s.source) later
      → (G
          → Sized s later
            × (length (buffered s) ≤ n)
            × Intact z s.source
            × (is_end st ≡ false → z.Valid s.inflate (compressed_left s.source) later)
            × (is_end st ≡ true → compressed_left s.source ≡ []))
      → Keeps G b
          (λ s'.
            Filled n s' left
            × (buffered s' ≡ buffered s)
            × (compressed_left s'.source ≡ compressed_left s.source)
            × (s'.ended ≡ is_end st))
          (end_stream z.inflater z.read st s b)
  unfolding end_stream
  end_stream-Filled more_to_come n s left later b bound split running last pending sound = (
    Later-refl b,
    (
      (
        later,
        split,
        λ e. absurd (cc),
        pending,
        λ g.
            let (sized, few, intact, valid, _) = sound g in
            ((sized, λ e. (valid refl, intact)), few),
      ),
      refl,
      refl,
      running,
    ),
  )
  end_stream-Filled stream_end n s left later b bound split running last pending sound =
      let produced = z.inflater.total_out s.inflate in
      Keeps-ensure G (not (differs s.declared_size produced)) "zlib StreamEnd at bytes" _ _ b
        (λ g.
          let ((sum, declares, _, _), _, _, _, _) = sound g in
          not-differs s.declared_size total produced declares
            (omega (arith, sum, ap length (last refl))))
        λ e1.
          Keeps-bind G (λ r. (compressed_left r.1 ≡ compressed_left s.source) × (G → r.0 ≡ true)) _
            (is_exactly_exhausted z.read s.source) _ b
            (is_exactly_exhausted-Keeps z G s.source b bound
              λ g. let (_, _, intact, _, over) = sound g in (intact, over refl))
            λ r b2 l2 (same, over).
              Keeps-ensure G r.0 "zlib stream ended before the compressed entry boundary" _ _ b2
                over
                λ e3. (
                  Later-refl b2,
                  (
                    (
                      later,
                      split,
                      λ e. last refl,
                      rw same pending,
                      λ g. let (sized, few, _, _, _) = sound g in ((sized, λ e. absurd (cc)), few),
                    ),
                    refl,
                    same,
                    refl,
                  ),
                )

  pub refill_rounds-Filled :
      (rounds output_len : ℕ) (s : InflatedStream D) (left : Bytes) (b : DecodeWorkBudget)
      → Bounded b
      → length (compressed_left s.source) < rounds
      → s.ended ≡ false
      → z.Left s.inflate (compressed_left s.source) left
      → (G → Steady s left × (0 < output_len))
      → Keeps G b
          (λ s'. Filled output_len s' left × (s'.ended ≡ false → 0 < length (buffered s')))
          (refill_rounds z.inflater z.read rounds output_len s b)
  unfolding refill_rounds
  refill_rounds-Filled zero output_len s left b bound enough running pending sound =
      absurd (omega arith)
  refill_rounds-Filled (suc rounds) output_len s left b bound enough running pending sound =
      Keeps-check_stop G _ _ b bound λ b1 bound1.
        Keeps-bind G (Stepped z G s.inflate output_len left (length (compressed_left s.source))) _
          (decompress_once z.inflater z.read s.source s.inflate output_len) _ b1
          (decompress_once-Stepped z G s.source left s.inflate output_len b1 bound1 pending λ g.
            let ((_, decodes), room) = sound g in ((decodes running).0, room, (decodes running).1))
          λ step b2 l2 (used, later, split, last, pending', progress).
            let bound2 = Later-Bounded b1 b2 l2 bound1 in
            let s' : InflatedStream D = record s {
              source = step.source;
              inflate = step.inflate;
              output = step.written;
              output_position = 0;
            } in
            let sized : G → Sized s' later = λ g.
              let (((sum, declares, room, small), _), _) = sound g in
              let made = (progress g).2 in
              (
                omega (arith, sum, made, ap length split, length-append step.written later),
                declares,
                room,
                small,
              ) in
            let within = beyond s.declared_size (z.inflater.total_out step.inflate) in
            Keeps-ensure G (not within) "zlib stream produced bytes beyond declared size" _ _ b2
              (λ g.
                let (sum, declares, _, _) = sized g in
                not-beyond s.declared_size total (z.inflater.total_out step.inflate) declares
                  (omega (arith, sum)))
              λ e3.
                Keeps-bind G
                  (λ s''.
                    Filled output_len s'' left
                    × (buffered s'' ≡ step.written)
                    × (compressed_left s''.source ≡ compressed_left step.source)
                    × (s''.ended ≡ is_end step.status))
                  _ (end_stream z.inflater z.read step.status s') _ b2
                  (end_stream-Filled step.status output_len s' left later b2 bound2 split running
                    last pending'
                    λ g.
                      let (intact, few, _, goes_on, over) = progress g in
                      (sized g, few, intact, λ e. (goes_on e).1, over))
                  λ s'' b4 l4 (now, written, same, ends).
                    elim (Bool-cases (not (is_empty step.written) || s''.ended)) [
                      | inl finished ↦ rw finished (
                        Later-refl b4,
                        (now, λ e. rw written (some_written step.written s''.ended finished e)),
                      )
                      | inr unfinished ↦
                          let blank : is_empty step.written ≡ true = ground arith in
                          let none_out = nothing_written step.written blank in
                          let running' : s''.ended ≡ false = ground arith in
                          elim (Bool-cases (step.consumed == 0)) [
                            | inl stuck ↦
                                rw (unfinished, stuck)
                                  (λ g.
                                    let moves = ((progress g).3 (sym ends ∙ running')).0 in
                                    absurd (
                                      no_move step.consumed (length step.written) moves
                                        (ground arith) (ap length none_out)))
                            | inr moved ↦
                                let some_used : 0 < step.consumed = ground arith in
                                let fewer : length (compressed_left s''.source) < rounds =
                                  rw same (omega (arith, used, enough, some_used)) in
                                let all : left ≡ now.0 =
                                  now.1 ∙ ap (λ x. x ++ now.0) (written ∙ none_out) in
                                rw (unfinished, moved)
                                  (refill_rounds-Filled rounds output_len s'' left b4
                                    (Later-Bounded b2 b4 l4 bound2) fewer running' (rw all now.3)
                                    λ g. (rw all (now.4 g).0, (sound g).1))
                          ]
                    ]
    where
      some_written :
          (bs : Bytes) (e : Bool) → not (is_empty bs) || e ≡ true → e ≡ false → 0 < length bs
      some_written [] e h k = absurd (cc)
      some_written (x ∷ bs) e h k = omega arith

      no_move : (c n : ℕ) → 0 < c + n → c ≡ 0 → n ≡ 0 → ⊥
      no_move c n h k l = omega arith
