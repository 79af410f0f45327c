-- ===== src/Blob/Decode/Tasks.antt =====
-- What the tasks of the decoder are still to append, and what a round makes of that:
-- `append_source_range_to_sink`.
use fornacast.Prelude.{
  ℕ, ◌+◌, ◌-◌, ◌*◌, ◌≤◌, ◌<◌, ◌≡◌, refl, sym, ap, ◌∙◌, Option, none, some, subst, List, [], ◌∷◌,
  ◌++◌, length, length-append, length-take, length-drop, take, drop, append_assoc, arith,
}
use fornacast.Prelude.Bytes.{Bytes}
use fornacast.Blob.Budget.{DecodeWorkBudget}
use fornacast.Blob.Run.{Later}
use fornacast.Blob.Stream.Inflating.{Inflation}
use fornacast.Blob.Stream.Reads.{Output}
use fornacast.Blob.Objects.{ObjectSource, ObjectMetadata, pop_source}
use fornacast.Blob.Frames.{DeltaFrame, DecodeTask, source_task, delta_task, finish_task}
use fornacast.Blob.Frames.Copies.{Ready, still_wanted, Advanced}
use fornacast.Blob.Decode.{push_frame, push_child}
use fornacast.Blob.Decode.Contents.{Repository, Content, Sound, Sound-size}
use fornacast.Blob.Decode.Ranges.{Opened, Ranged}

abbrev weight : {D : Type 0} → List (DecodeTask D) → ℕ
weight [] = 0
weight (source_task source expected start size ∷ tasks) = weight tasks
weight (delta_task frame ∷ tasks) = weight tasks + 1
weight (finish_task output_start size ∷ tasks) = weight tasks + 1

-- What a round takes something off.
abbrev pub measure : {D : Type 0} → DecodeWorkBudget → List (DecodeTask D) → ℕ
measure b tasks =
    3 * (b.limits.source_opens - b.used.source_opens)
    + (b.limits.delta_instructions - b.used.delta_instructions)
    + weight tasks

-- The limits stay.
pub same_limits :
    (b b' : DecodeWorkBudget)
    → Later b b'
    → (b'.limits.source_opens ≡ b.limits.source_opens)
      × (b'.limits.delta_instructions ≡ b.limits.delta_instructions)
same_limits b b' l = (ap (λ x. x.source_opens) l.0, ap (λ x. x.delta_instructions) l.0)

part_length :
    (start size : ℕ) (whole : Bytes)
    → start + size ≤ length whole
    → length (take size (drop start whole)) ≡ size
part_length start size whole h =
    omega (arith, h, length-take size (drop start whole), length-drop start whole)

module _ {D : Type 0} (z : Inflation D) (G : Type 0) (repo : Repository) {S : Type 0}
    (out : Output S) where
  -- What the tasks are still to append, when `at` bytes have been appended and the sources of the
  -- stack are open. If all is sound, a finished task has appended what it was to append.
  abbrev pub Todo : ℕ → List ObjectSource → List (DecodeTask D) → Bytes → Type 0
  Todo at stack [] w = w ≡ []
  Todo at stack (source_task source expected start size ∷ tasks) w =
      (n : ℕ) × (whole rest : Bytes) × Content z repo n source whole
      × (w ≡ take size (drop start whole) ++ rest)
      × Todo (at + length (take size (drop start whole))) stack tasks rest
      × (G → Sound z repo n stack source expected whole × (start + size ≤ expected.size))
  Todo at stack (delta_task frame ∷ tasks) w =
      (n : ℕ) × (base result rest : Bytes) × Content z repo n frame.base base
      × Ready z G out base frame result
      × (w ≡ still_wanted frame result ++ rest)
      × Todo (at + length (still_wanted frame result)) stack tasks rest
      × (G → Sound z repo n stack frame.base frame.base_metadata base)
  Todo at stack (finish_task output_start size ∷ tasks) w =
      (G → at ≡ output_start + size) × Todo at (pop_source stack) tasks w

  abbrev pub Stepped :
      DecodeTask D
      → List (DecodeTask D)
      → S
      → Bytes
      → DecodeWorkBudget
      → List (DecodeTask D) × List ObjectSource × S
      → DecodeWorkBudget
      → Type 0
  Stepped task tasks output w b r b' =
      Later b b'
      × (measure b' r.0 < measure b (task ∷ tasks))
      × (w' : Bytes) × Todo (length (out.content r.2)) r.1 r.0 w'
      × (out.content r.2 ++ w' ≡ out.content output ++ w)
      × (G → out.Room r.2 (length w'))

  pub after_source :
      (output : S) (whole rest w : Bytes) (start size n : ℕ) (tasks : List (DecodeTask D))
      (source : ObjectSource) (expected : ObjectMetadata) (stack : List ObjectSource)
      (b b' : DecodeWorkBudget)
      → w ≡ take size (drop start whole) ++ rest
      → Todo (length (out.content output) + length (take size (drop start whole))) stack tasks rest
      → (G → Sound z repo n stack source expected whole × (start + size ≤ expected.size))
      → Later b b'
      → Opened b b'
      → (output' : S) (frame : Option (DeltaFrame D))
      → Ranged z G repo out (source ∷ stack) whole start size output (length rest) (output', frame)
      → Stepped
          (source_task source expected start size)
          tasks
          output
          w
          b
          (
            push_frame z.inflater z.read repo.storage repo.guarded repo.tracker out.sink frame
                (finish_task (out.sink.position output) size ∷ tasks),
            source ∷ stack,
            output',
          )
          b'
  after_source output whole rest w start size n tasks source expected stack b b' split todo sound l
        charged output' none (added, room) =
      let part = take size (drop start whole) in
      let at : length (out.content output) + length part ≡ length (out.content output') =
        omega (arith, ap length added, length-append (out.content output) part) in
      (
        l,
        omega (arith, charged.0, charged.1, l.1, same_limits b b' l),
        rest,
        (
          λ g.
              let (is_sound, inside) = sound g in
              let long =
                part_length start size whole (
                  omega
                    (arith, inside, Sound-size z repo n stack source expected whole is_sound)) in
              omega (arith, at, long, out.position_length output),
          subst (λ k. Todo k stack tasks rest) at todo,
        ),
        ap (λ x. x ++ rest) added
            ∙ append_assoc (out.content output) part rest
            ∙ ap (λ x. out.content output ++ x) (sym split),
        room,
      )
  after_source output whole rest w start size n tasks source expected stack b b' split todo sound l
        charged output' (some frame) (m, base, is_base, ready, wanted, unchanged, more) =
      let part = take size (drop start whole) in
      let still = still_wanted frame whole in
      let at : length (out.content output) + length part
          ≡ length (out.content output') + length still =
        omega (arith, ap length unchanged, ap length wanted) in
      let long : G → length part ≡ size = λ g.
        let (is_sound, inside) = sound g in
        part_length start size whole
          (omega (arith, inside, Sound-size z repo n stack source expected whole is_sound)) in
      (
        l,
        omega (arith, charged.0, charged.1, l.1, same_limits b b' l),
        still ++ rest,
        (
          m,
          base,
          whole,
          rest,
          is_base,
          ready,
          refl,
          (
            λ g. omega (arith, at, long g, out.position_length output),
            subst (λ k. Todo k stack tasks rest) at todo,
          ),
          λ g. (more g).0,
        ),
        ap (λ x. x ++ (still ++ rest)) unchanged
            ∙ ap (λ x. out.content output ++ x) (ap (λ x. x ++ rest) wanted ∙ sym split),
        λ g.
            let sum : size + length rest ≡ length (still ++ rest) =
              omega (arith, long g, ap length wanted, length-append still rest) in
            rw sum at (more g).1,
      )

  pub after_frame :
      (n : ℕ) (base result rest w : Bytes) (frame : DeltaFrame D) (tasks : List (DecodeTask D))
      (stack : List ObjectSource) (output : S) (b b' : DecodeWorkBudget)
      → Content z repo n frame.base base
      → w ≡ still_wanted frame result ++ rest
      → Todo (length (out.content output) + length (still_wanted frame result)) stack tasks rest
      → (G → Sound z repo n stack frame.base frame.base_metadata base)
      → (frame' : DeltaFrame D) (output' : S) (child : Option (ℕ × ℕ))
      → Advanced z G out base frame output result (length rest) b (frame', output', child) b'
      → Stepped
          (delta_task frame)
          tasks
          output
          w
          b
          (
            push_child z.inflater z.read repo.storage repo.guarded repo.tracker out.sink frame'
                child tasks,
            stack,
            output',
          )
          b'
  after_frame n base result rest w frame tasks stack output b b' is_base split todo sound frame'
        output' none (l, added, room) =
      let still = still_wanted frame result in
      let at : length (out.content output) + length still ≡ length (out.content output') =
        omega (arith, ap length added, length-append (out.content output) still) in
      (
        l,
        omega (arith, l.1, l.2, same_limits b b' l),
        rest,
        subst (λ k. Todo k stack tasks rest) at todo,
        ap (λ x. x ++ rest) added
            ∙ append_assoc (out.content output) still rest
            ∙ ap (λ x. out.content output ++ x) (sym split),
        room,
      )
  after_frame n base result rest w frame tasks stack output b b' is_base split todo sound frame'
        output' (some (start, size)) (l, spent, same, inside, later, ready, adds, room) =
      let still = still_wanted frame result in
      let still' = still_wanted frame' later in
      let part = take size (drop start base) in
      let is_base' : Content z repo n frame'.base base =
        subst (λ x. Content z repo n x base) (sym same.0) is_base in
      let sound' : G → Sound z repo n stack frame'.base frame'.base_metadata base =
        λ g. rw (same.0, same.1) (sound g) in
      let at : length (out.content output) + length still
          ≡ length (out.content output') + length part + length still' =
        omega (
          arith,
          ap length adds,
          length-append (out.content output') (part ++ still'),
          length-append part still',
          length-append (out.content output) still,
        ) in
      (
        l,
        omega (arith, l.2, spent.0, spent.1, same_limits b b' l),
        part ++ (still' ++ rest),
        (
          n,
          base,
          still' ++ rest,
          is_base',
          refl,
          (
            n,
            base,
            later,
            rest,
            is_base',
            ready,
            refl,
            subst (λ k. Todo k stack tasks rest) at todo,
            sound',
          ),
          λ g. (
            sound' g,
            omega (
              arith,
              inside,
              Sound-size z repo n stack frame'.base frame'.base_metadata base (sound' g),
            ),
          ),
        ),
        ap (λ x. out.content output' ++ x) (sym (append_assoc part still' rest))
            ∙ sym (append_assoc (out.content output') (part ++ still') rest)
            ∙ ap (λ x. x ++ rest) adds
            ∙ append_assoc (out.content output) still rest
            ∙ ap (λ x. out.content output ++ x) (sym split),
        λ g.
            let sum : length part + (length still' + length rest)
                ≡ length (part ++ (still' ++ rest)) =
              omega (arith, length-append part (still' ++ rest), length-append still' rest) in
            rw sum at room g,
      )
