-- ===== src/Blob/Stream/Reads.antt =====
-- What reading, skipping and finishing do to the bytes that a stream still gives:
-- `read_required_byte`, `skip_exact` and `finish_exact`.
use fornacast.Prelude.{
  ℕ, zero, suc, ◌+◌, ◌-◌, ◌≤◌, ◌<◌, ◌≡◌, refl, sym, ap, ◌∙◌, false, Bool-cases, inl, inr, [], ◌∷◌,
  ◌++◌, length, length-append, take, drop, length-drop, ok, arith, ◌==◌, min,
}
use fornacast.Prelude.Bytes.{Bytes}
use fornacast.Prelude.Slices.{drop_plus, drop-append, take-append}
use fornacast.Blob.Budget.{DecodeWorkBudget, stream_buffer_target}
use fornacast.Blob.Run.{Later-refl, Later-Bounded, Bounded}
use fornacast.Blob.Run.Keeps.{
  Keeps, Keeps-bind, Keeps-imply, Keeps-ensure, Keeps-check_stop, Keeps-charge_skipped_output,
}
use fornacast.Blob.Sink.{Sink}
use fornacast.Blob.Stream.{
  InflatedStream, available, buffered, refill, required, read_required_byte, skip_rounds,
  skip_exact, finish_exact,
}
use fornacast.Blob.Stream.Inflating.{Inflation}
use fornacast.Blob.Stream.Refills.{Filled, Pending, empty_buffer}
use fornacast.Blob.Stream.Required.{refill-Filled, required-Filled}

-- A sink, what it holds, that an append adds to that, and that it succeeds while there is room.
pub record Output (S : Type 0) : Type 1 where
  pub sink : Sink S
  pub content : S → Bytes
  pub position_length : (s : S) → sink.position s ≡ length (content s)
  pub appends :
      (bytes : Bytes) (s s' : S) → sink.append bytes s ≡ ok s' → content s' ≡ content s ++ bytes
  pub Room : S → ℕ → Type 0
  pub takes :
      (bytes : Bytes) (s : S) (n : ℕ)
      → Room s (length bytes + n)
      → length bytes ≤ stream_buffer_target
      → (s' : S) × (sink.append bytes s ≡ ok s') × Room s' n

first_of : (bs : Bytes) → 0 < length bs → (x : ℕ) × (rest : Bytes) × (bs ≡ x ∷ rest)
first_of [] h = absurd (omega arith)
first_of (x ∷ rest) h = (x, rest, refl)

module _ {D : Type 0} (z : Inflation D) (G : Type 0) (total : ℕ) where
  -- Bytes of the buffer that are consumed are the first ones left.
  pub consume-Pending :
      (m n : ℕ) (s : InflatedStream D) (left : Bytes)
      → n ≤ length (buffered s)
      → (G → length (buffered s) ≤ n)
      → Filled z G total m s left
      → (take n left ≡ take n (buffered s))
        × (n ≤ length left)
        × Pending z G total (record s { output_position = s.output_position + n }) (drop n left)
  consume-Pending m n s left h all (later, split, last, pending, sound) =
      let behind = drop_plus s.output_position n s.output in
      (
        rw split (take-append n (buffered s) later h),
        rw split (omega (arith, h, length-append (buffered s) later)),
        (
          later,
          ap (drop n) split ∙ drop-append n (buffered s) later h ∙ ap (λ x. x ++ later) behind,
          last,
          pending,
          λ g.
              let held = ap length behind in
              ((sound g).0, omega (arith, all g, held, length-drop n (buffered s))),
        ),
      )

  pub read_required_byte-Pending :
      (s : InflatedStream D) (left : Bytes) (b : DecodeWorkBudget)
      → Bounded b
      → Pending z G total s left
      → (G → 0 < length left)
      → Keeps G b
          (λ r. (left ≡ r.0 ∷ drop 1 left) × Pending z G total r.1 (drop 1 left))
          (read_required_byte z.inflater z.read s b)
  unfolding read_required_byte
  read_required_byte-Pending s left b bound pending more =
      Keeps-check_stop G _ _ b bound λ b1 bound1.
        Keeps-bind G (λ s'. Filled z G total 1 s' left × (0 < length (buffered s'))) _
          (required z.inflater z.read 1 s) _ b1
          (required-Filled z G total 1 s left b1 bound1 pending λ g. (omega arith, more g))
          λ s' b2 l2 (pending', some_left).
            let (x, rest, e) = first_of (buffered s') some_left in
            let gone = consume-Pending 1 1 s' left some_left (λ g. (pending'.4 g).1) pending' in
            let whole : left ≡ x ∷ (rest ++ pending'.0) =
              pending'.1 ∙ ap (λ t. t ++ pending'.0) e in
            rw e (Later-refl b2, (whole ∙ ap (λ t. x ∷ t) (sym (ap (drop 1) whole)), gone.2))

  -- What is asked for and what is then consumed.
  pub wanted :
      (n : ℕ) (s : InflatedStream D) (left : Bytes)
      → Pending z G total s left
      → (G → suc n ≤ length left)
      → G
      → (0 < min (suc n) s.size) × (0 < length left)
  wanted n s left (later, split, last, pending, sound) enough g =
      let (((_, _, room, _), _), _) = sound g in
      let fits = enough g in (omega (arith, room), omega (arith, fits))

  skip_rounds-Pending :
      (rounds count : ℕ) (s : InflatedStream D) (left : Bytes) (b : DecodeWorkBudget)
      → Bounded b
      → count ≤ rounds
      → Pending z G total s left
      → (G → count ≤ length left)
      → Keeps G b
          (λ s'. (count ≤ length left) × Pending z G total s' (drop count left))
          (skip_rounds z.inflater z.read rounds count s b)
  unfolding skip_rounds
  skip_rounds-Pending rounds zero s left b bound enough pending fits =
      (Later-refl b, (omega arith, pending))
  skip_rounds-Pending zero (suc n) s left b bound enough pending fits = absurd (omega arith)
  skip_rounds-Pending (suc rounds) (suc n) s left b bound enough pending fits =
      Keeps-check_stop G _ _ b bound λ b1 bound1.
        let asked = min (suc n) s.size in
        Keeps-bind G (λ s'. Filled z G total asked s' left × (0 < length (buffered s'))) _
          (required z.inflater z.read asked s) _ b1
          (required-Filled z G total asked s left b1 bound1 pending (wanted n s left pending fits))
          λ s' b2 l2 (pending', some_left).
            let k = min (available s') (suc n) in
            let held = length-drop s'.output_position s'.output in
            let gone =
              consume-Pending asked k s' left (omega (arith, held))
                (λ g. omega (arith, held, (pending'.4 g).1)) pending' in
            Keeps-charge_skipped_output G k _ _ b2 (Later-Bounded b1 b2 l2 bound1) λ b3 bound3.
              Keeps-imply G
                (λ s''.
                  (suc n - k ≤ length (drop k left))
                  × Pending z G total s'' (drop (suc n - k) (drop k left)))
                (λ s''. (suc n ≤ length left) × Pending z G total s'' (drop (suc n) left)) b3
                (skip_rounds z.inflater z.read rounds (suc n - k)
                  (record s' { output_position = s'.output_position + k }) b3)
                (λ s'' (fits', now).
                  let all : k + (suc n - k) ≡ suc n = omega arith in
                  (
                    omega (arith, fits', gone.1, length-drop k left),
                    rw (drop_plus k (suc n - k) left, all) at now,
                  ))
                (skip_rounds-Pending rounds (suc n - k)
                  (record s' { output_position = s'.output_position + k }) (drop k left) b3 bound3
                  (omega (arith, enough, some_left, held)) gone.2
                  λ g. omega (arith, fits g, length-drop k left))

  pub skip_exact-Pending :
      (count : ℕ) (s : InflatedStream D) (left : Bytes) (b : DecodeWorkBudget)
      → Bounded b
      → Pending z G total s left
      → (G → count ≤ length left)
      → Keeps G b
          (λ s'. (count ≤ length left) × Pending z G total s' (drop count left))
          (skip_exact z.inflater z.read count s b)
  unfolding skip_exact
  skip_exact-Pending count s left b bound pending fits =
      skip_rounds-Pending count count s left b bound (omega arith) pending fits

  pub finish_exact-Pending :
      (s : InflatedStream D) (left : Bytes) (b : DecodeWorkBudget)
      → Bounded b
      → Pending z G total s left
      → (G → left ≡ [])
      → Keeps G b (λ s'. left ≡ []) (finish_exact z.inflater z.read s b)
  unfolding finish_exact
  finish_exact-Pending s left b bound pending none_left =
      let held = length-drop s.output_position s.output in
      Keeps-ensure G (available s == 0) "zlib stream produced unconsumed decoded bytes" _ _ b
        (λ g. let few = (pending.4 g).1 in ground arith)
        λ e1.
          let used_up : available s ≡ 0 = ground arith in
          Keeps-bind G
            (λ s'. Filled z G total 1 s' left × (G → s'.ended ≡ false → 0 < length (buffered s'))) _
            (refill z.inflater z.read 1 s) _ b
            (refill-Filled z G total 1 s left b bound used_up pending λ g. omega arith)
            λ s' b2 l2 ((later, split, last, now, sound), given).
              let held' = length-drop s'.output_position s'.output in
              let blank : G → length (buffered s') ≡ 0 = λ g. omega (
                arith,
                ap length (none_left g),
                ap length split,
                length-append (buffered s') later,
              ) in
              Keeps-ensure G (available s' == 0) "zlib stream produced more bytes than declared" _ _
                b2 (λ g. let nothing = blank g in ground arith)
                λ e3.
                  let used_up' : available s' ≡ 0 = ground arith in
                  Keeps-ensure G s'.ended "zlib stream did not reach StreamEnd" _ _ b2
                    (λ g. elim (Bool-cases s'.ended) [
                      | inl over ↦ over
                      | inr running ↦ absurd (omega (arith, blank g, given g running))
                    ])
                    λ e4.
                      let none_buffered = empty_buffer s' used_up' in
                      (Later-refl b2, split ∙ ap (λ x. x ++ later) none_buffered ∙ last e4)
