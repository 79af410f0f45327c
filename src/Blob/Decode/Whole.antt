-- ===== src/Blob/Decode/Whole.antt =====
-- The loop of tasks appends exactly the range that is asked for, within its rounds:
-- `append_source_range_to_sink`.
use fornacast.Prelude.{
  ℕ, zero, suc, ◌+◌, ◌-◌, ◌≤◌, ◌<◌, ◌≡◌, refl, sym, ap, ◌∙◌, List, [], ◌∷◌, ◌++◌, length,
  length-append, length-take, length-drop, take, drop, ◌==◌, leb, append-nil, arith,
}
use fornacast.Prelude.Bytes.{Bytes}
use fornacast.Prelude.Word.{checked_add}
use fornacast.Blob.Failure.{corrupt, ok_or}
use fornacast.Blob.Budget.{DecodeWorkBudget}
use fornacast.Blob.Run.{
  Gives, Gives-bind, Gives-imply, Gives-try, Later, Later-refl, Later-Bounded, Bounded,
}
use fornacast.Blob.Run.Keeps.{Gives-ensure}
use fornacast.Blob.Stream.Inflating.{Inflation}
use fornacast.Blob.Stream.Reads.{Output}
use fornacast.Blob.Objects.{ObjectSource, ObjectMetadata, enter_source}
use fornacast.Blob.Frames.{DecodeTask, source_task, delta_task, finish_task, advance}
use fornacast.Blob.Frames.Copies.{Advanced, still_wanted}
use fornacast.Blob.Frames.Rounds.{advance-Advanced}
use fornacast.Blob.Decode.{
  role_of, run_source, run_task, task_rounds, round_bound, append_source_range_to_sink,
}
use fornacast.Blob.Decode.Sources.{Generous}
use fornacast.Blob.Decode.Contents.{
  Repository, Content, Sound, Sound-size, Sound-small, Sound-Enters, enter_source-Succeeds,
  enter_source-entered,
}
use fornacast.Blob.Decode.Unique.{Sound-Content}
use fornacast.Blob.Decode.Ranges.{Opened, Ranged}
use fornacast.Blob.Decode.Entered.{run_source-Ranged}
use fornacast.Blob.Decode.Tasks.{measure, Todo, Stepped, after_source, after_frame}

module _ {D : Type 0} (z : Inflation D) (G : Type 0) (repo : Repository) {S : Type 0}
    (out : Output S) (generous : G → Generous repo.tracker) where
  run_task-Stepped :
      (task : DecodeTask D) (tasks : List (DecodeTask D)) (stack : List ObjectSource) (output : S)
      (w : Bytes) (b : DecodeWorkBudget)
      → Bounded b
      → Todo z G repo out (length (out.content output)) stack (task ∷ tasks) w
      → (G → out.Room output (length w))
      → Gives G (Stepped z G repo out task tasks output w b) (
          run_task z.inflater z.read repo.storage repo.guarded repo.tracker out.sink task tasks
            stack output b)
  run_task-Stepped (source_task source expected start size) tasks stack output w b bound
        (n, whole, rest, is_content, split, todo, sound) room =
      unfold run_task in
      let part = take size (drop start whole) in
      let inside : G → start + size ≤ length whole = λ g.
        let (is_sound, fits) = sound g in
        omega (arith, fits, Sound-size z repo n stack source expected whole is_sound) in
      Gives-try G (ok_or (checked_add start size) (corrupt "requested object range overflow")) _ _ b
        (λ g.
          let fits = inside g in
          let small = Sound-small z repo n stack source expected whole (sound g).0 in ground arith)
        λ end e1.
          Gives-ensure G (leb end expected.size) "requested object range exceeds size" _ _ b
            (λ g. let fits = (sound g).1 in ground arith)
            λ e2.
              Gives-try G (enter_source source stack) _ _ b
                (λ g.
                  enter_source-Succeeds source stack
                    (Sound-Enters z repo n stack source expected whole (sound g).0))
                λ entered e3.
                  let is_entered = enter_source-entered source stack entered e3 in
                  rw is_entered (
                    Gives-bind G
                      (λ r b'.
                        Later b b'
                        × Opened b b'
                        × Ranged z G repo out (source ∷ stack) whole start size output (length rest)
                            r)
                      _
                      (run_source z.inflater z.read repo.storage repo.guarded repo.tracker out.sink
                        source expected start size (role_of (source ∷ stack)) output)
                      _ b
                      (run_source-Ranged z G repo out source expected start size (length rest)
                        (role_of (source ∷ stack)) output n stack whole b bound is_content
                        λ g.
                          let fits = inside g in
                          let sum : length w ≡ size + length rest = omega (
                            arith,
                            fits,
                            ap length split,
                            length-append part rest,
                            length-take size (drop start whole),
                            length-drop start whole,
                          ) in
                          ((sound g).0, generous g, (sound g).1, rw sum at room g))
                      λ r b4 (l4, charged, ranged).
                        after_source z G repo out output whole rest w start size n tasks source
                          expected stack b b4 split todo sound l4 charged r.0 r.1 ranged)
  run_task-Stepped (delta_task frame) tasks stack output w b bound
        (n, base, result, rest, is_base, ready, split, todo, sound) room =
      unfold run_task in
      let still = still_wanted frame result in
      Gives-bind G (Advanced z G out base frame output result (length rest) b) _
        (advance z.inflater z.read out.sink frame output) _ b
        (advance-Advanced z G out base frame output result (length rest) b bound ready λ g.
          let sum : length w ≡ length still + length rest =
            omega (arith, ap length split, length-append still rest) in
          rw sum at room g)
        λ r b1 advanced.
          after_frame z G repo out n base result rest w frame tasks stack output b b1 is_base split
            todo sound r.0 r.1 r.2 advanced
  run_task-Stepped (finish_task output_start size) tasks stack output w b bound (at, todo) room =
      unfold run_task in
      let position = out.sink.position output in
      let here = out.position_length output in
      Gives-ensure G (leb output_start position) "decoder output position moved backwards" _ _ b
        (λ g. let ends = at g in ground arith)
        λ e1.
          Gives-ensure G (position - output_start == size) "decoder appended other bytes" _ _ b
            (λ g. let ends = at g in ground arith)
            λ e2. (Later-refl b, omega arith, w, todo, refl, room)

  task_rounds-Todo :
      (rounds : ℕ) (tasks : List (DecodeTask D)) (stack : List ObjectSource) (output : S)
      (w : Bytes) (b : DecodeWorkBudget)
      → Bounded b
      → measure b tasks < rounds
      → Todo z G repo out (length (out.content output)) stack tasks w
      → (G → out.Room output (length w))
      → Gives G
          (λ r b'. out.content r.1 ≡ out.content output ++ w)
          (task_rounds z.inflater z.read repo.storage repo.guarded repo.tracker out.sink rounds
            tasks stack output b)
  unfolding task_rounds
  task_rounds-Todo rounds [] stack output w b bound enough todo room =
      sym (append-nil (out.content output)) ∙ ap (λ x. out.content output ++ x) (sym todo)
  task_rounds-Todo zero (task ∷ tasks) stack output w b bound enough todo room =
      absurd (omega arith)
  task_rounds-Todo (suc rounds) (task ∷ tasks) stack output w b bound enough todo room =
      Gives-bind G (Stepped z G repo out task tasks output w b) _
        (run_task z.inflater z.read repo.storage repo.guarded repo.tracker out.sink task tasks stack
          output)
        _ b (run_task-Stepped task tasks stack output w b bound todo room)
        λ r b1 (l1, fewer, w', todo', adds, room').
          Gives-imply G (λ t b'. out.content t.1 ≡ out.content r.2 ++ w') _
            (task_rounds z.inflater z.read repo.storage repo.guarded repo.tracker out.sink rounds
              r.0 r.1 r.2 b1)
            (λ t b' e. e ∙ adds)
            (task_rounds-Todo rounds r.0 r.1 r.2 w' b1 (Later-Bounded b b1 l1 bound)
              (omega (arith, fewer, enough)) todo' room')

  range-Appended :
      (source : ObjectSource) (expected : ObjectMetadata) (start size : ℕ)
      (stack : List ObjectSource) (output : S) (n : ℕ) (whole : Bytes) (b : DecodeWorkBudget)
      → Bounded b
      → Content z repo n source whole
      → (G
          → Sound z repo n stack source expected whole
            × (start + size ≤ expected.size)
            × out.Room output size)
      → Gives G
          (λ r b'. out.content r.1 ≡ out.content output ++ take size (drop start whole))
          (append_source_range_to_sink z.inflater z.read repo.storage repo.guarded repo.tracker
            out.sink source expected start size stack output b)
  unfolding append_source_range_to_sink
  range-Appended source expected start size stack output n whole b bound is_content fine =
      let part = take size (drop start whole) in
      task_rounds-Todo
        (round_bound z.inflater z.read repo.storage repo.guarded repo.tracker out.sink b)
        (source_task source expected start size ∷ []) stack output part b bound (omega arith)
        (n, whole, [], is_content, sym (append-nil part), refl, λ g. ((fine g).0, (fine g).1))
        λ g.
          let (sound, inside, room) = fine g in
          let long : size ≡ length part = omega (
            arith,
            inside,
            Sound-size z repo n stack source expected whole sound,
            length-take size (drop start whole),
            length-drop start whole,
          ) in
          rw long at room

module _ {D : Type 0} (z : Inflation D) (repo : Repository) {S : Type 0} (out : Output S) where
  -- For an object with a content, plain or through a chain of deltas, an inflater that gives the
  -- plain bytes of its input, a sink that appends, and byte limits that fit 64 bits: the decoder of a
  -- range neither panics nor runs out of its rounds, and if it does not fail, the sink has been
  -- appended exactly that range of the content.
  pub append_source_range_to_sink_exact :
      (source : ObjectSource) (expected : ObjectMetadata) (start size : ℕ)
      (stack : List ObjectSource) (output : S) (n : ℕ) (whole : Bytes) (b : DecodeWorkBudget)
      → Bounded b
      → Content z repo n source whole
      → Gives ⊥
          (λ r b'. out.content r.1 ≡ out.content output ++ take size (drop start whole))
          (append_source_range_to_sink z.inflater z.read repo.storage repo.guarded repo.tracker
            out.sink source expected start size stack output b)
  append_source_range_to_sink_exact source expected start size stack output n whole b bound
        is_content =
      range-Appended z ⊥ repo out (λ g. absurd g) source expected start size stack output n whole b
        bound is_content λ g. absurd g

  -- For a sound object, with the metadata that is expected of it and a chain of deltas that can be
  -- entered, an allocator that returns what it is asked for, a range inside the object, a sink with
  -- room for it, and byte limits that fit 64 bits: the decoder appends exactly the range, or it
  -- fails because a limit of the work is reached or a stop is requested. It reports no corruption.
  pub append_source_range_to_sink_returns :
      (source : ObjectSource) (expected : ObjectMetadata) (start size : ℕ)
      (stack : List ObjectSource) (output : S) (n : ℕ) (whole : Bytes) (b : DecodeWorkBudget)
      → Bounded b
      → Sound z repo n stack source expected whole
      → Generous repo.tracker
      → start + size ≤ expected.size
      → out.Room output size
      → Gives Unit
          (λ r b'. out.content r.1 ≡ out.content output ++ take size (drop start whole))
          (append_source_range_to_sink z.inflater z.read repo.storage repo.guarded repo.tracker
            out.sink source expected start size stack output b)
  append_source_range_to_sink_returns source expected start size stack output n whole b bound sound
        generous inside room =
      range-Appended z Unit repo out (λ g. generous) source expected start size stack output n whole
        b bound (Sound-Content z repo n stack source expected whole sound)
        λ g. (sound, inside, room)
