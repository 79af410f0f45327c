-- ===== src/Blob/Frames/Through.antt =====
-- What an instruction of a delta does, seen from the whole result, and what comes behind it.
use fornacast.Prelude.{
  ℕ, ◌+◌, ◌≤◌, ◌<◌, ◌≡◌, sym, ap, ◌∙◌, Option, none, some, ◌++◌, append_assoc, length,
  length-append, ok, arith,
}
use fornacast.Prelude.Bytes.{Bytes}
use fornacast.Blob.Failure.{corrupt}
use fornacast.Blob.Budget.{DecodeWorkBudget}
use fornacast.Blob.Run.{Decode, Gives, Gives-imply, Later, Later-trans, pure}
use fornacast.Blob.Stream.Inflating.{Inflation}
use fornacast.Blob.Stream.Reads.{Output}
use fornacast.Blob.Delta.{DeltaInstruction, read_list, decode_delta_instruction}
use fornacast.Blob.Frames.{DeltaFrame, advance_rounds}
use fornacast.Blob.Frames.Meaning.{Piece, Produces, within_range, within_range-append}
use fornacast.Blob.Frames.Advance.{asked, Inside, wanted_part, SameFrame, SoundFrame, Applied}
use fornacast.Blob.Frames.Copies.{
  instruction_size_positive, Piece-length, Spent, Ready, still_wanted, Advanced, Produces-nothing,
}

-- What is asked for, what is still wanted behind that, and room for more.
abbrev pub needed : {D : Type 0} → Bytes → Option (ℕ × ℕ) → DeltaFrame D → Bytes → ℕ → ℕ
needed base child frame later spare =
    length (asked base child) + (length (still_wanted frame later) + spare)

module _ {D : Type 0} (z : Inflation D) (G : Type 0) where
  module _ {S : Type 0} (out : Output S) where
    abbrev Made : Bytes → DeltaFrame D → S → Bytes → ℕ → DeltaFrame D × S × Option (ℕ × ℕ) → Type 0
    Made base frame output result spare r =
        SameFrame r.0 frame
        × (frame.result_position < r.0.result_position)
        × Inside base r.2
        × (later : Bytes) × Ready z G out base r.0 later
        × (out.content r.1 ++ (asked base r.2 ++ still_wanted r.0 later)
            ≡ out.content output ++ still_wanted frame result)
        × (G → out.Room r.1 (needed base r.2 r.0 later spare))

    -- An instruction that has been applied, seen from the whole result.
    pub Made-of :
        (total : ℕ) (base result rest piece left later : Bytes) (instruction : DeltaInstruction)
        (m opcode spare : ℕ) (behind : Bytes) (frame : DeltaFrame D) (output : S)
        → Piece base instruction rest piece left
        → decode_delta_instruction corrupt opcode read_list behind ≡ ok (instruction, rest)
        → result ≡ piece ++ later
        → Produces m base left later
        → (G → SoundFrame base frame × (frame.result_position + length result ≡ frame.result_size))
        → (r : DeltaFrame D × S × Option (ℕ × ℕ))
        → Applied z G total out base frame output piece left
            (length (
                within_range frame.requested.start frame.requested.end
                  (frame.result_position + length piece)
                  later)
              + spare)
            r
        → Made base frame output result spare r
    Made-of total base result rest piece left later instruction m opcode spare behind frame output
          made decoded whole more sound r
          (same, at, left', now, aligned, used_up, added, inside, room) =
        let low = frame.requested.start in
        let high = frame.requested.end in
        let p = frame.result_position in
        let some_bytes : 0 < length piece = omega (
          arith,
          instruction_size_positive opcode behind rest instruction decoded,
          Piece-length base rest piece left instruction made,
        ) in
        let behind_it : still_wanted r.0 later ≡ within_range low high (p + length piece) later =
          ap (λ q. within_range q.start q.end r.0.result_position later) same.2
          ∙ ap (λ k. within_range low high k later) at in
        let end_same : r.0.requested.end ≡ high = ap (λ q. q.end) same.2 in
        (
          same,
          omega (arith, at, some_bytes),
          inside,
          later,
          (
            total,
            left',
            now,
            λ h. (m, rw (aligned (omega (arith, h, end_same))) more),
            λ g.
                let ((bases, small, ordered, ends, fits), sum) = sound g in
                (
                  (
                    rw (same.1) bases,
                    small,
                    rw (same.2) ordered,
                    rw (same.2, same.3) ends,
                    rw (same.3) fits,
                  ),
                  omega (arith, at, sum, same.3, ap length whole, length-append piece later),
                  λ h. Produces-nothing m base later (rw (used_up h) at more),
                ),
          ),
          sym (append_assoc (out.content r.1) (asked base r.2) (still_wanted r.0 later))
              ∙ ap (λ x. x ++ still_wanted r.0 later) added
              ∙ ap (λ x. (out.content output ++ wanted_part frame piece) ++ x) behind_it
              ∙ append_assoc (out.content output) (wanted_part frame piece)
                  (within_range low high (p + length piece) later)
              ∙ ap (λ x. out.content output ++ x)
                  (sym (within_range-append low high p piece later)
                    ∙ ap (within_range low high p) (sym whole)),
          λ g. rw behind_it (room g),
        )

    Spent-after :
        (a b c : DecodeWorkBudget)
        → Later a b
        → b.used.delta_instructions ≡ a.used.delta_instructions + 1
        → b.used.delta_instructions ≤ b.limits.delta_instructions
        → Later b c
        → Spent a c
    Spent-after a b c l one within k =
        let limit : b.limits.delta_instructions ≡ a.limits.delta_instructions =
          ap (λ w. w.delta_instructions) l.0 in
        (omega (arith, one, k.1), omega (arith, one, within, limit))

    -- A step that asks for nothing, and what the frame behind it does.
    then-Advanced :
        (base : Bytes) (frame : DeltaFrame D) (output : S) (result : Bytes) (spare : ℕ)
        (a b c d : DecodeWorkBudget) (frame' : DeltaFrame D) (output' : S) (later : Bytes)
        → Later a b
        → b.used.delta_instructions ≡ a.used.delta_instructions + 1
        → b.used.delta_instructions ≤ b.limits.delta_instructions
        → Later b c
        → SameFrame frame' frame
        → out.content output' ++ still_wanted frame' later
          ≡ out.content output ++ still_wanted frame result
        → (r : DeltaFrame D × S × Option (ℕ × ℕ))
        → Advanced z G out base frame' output' later spare c r d
        → Advanced z G out base frame output result spare a r d
    then-Advanced base frame output result spare a b c d frame' output' later l one within k same
          adds (frame'', output'', none) (m, e, room) =
        (Later-trans a c d (Later-trans a b c l k) m, e ∙ adds, room)
    then-Advanced base frame output result spare a b c d frame' output' later l one within k same
          adds (frame'', output'', some child) (m, spent, same', inside, later', ready, e, room) =
        (
          Later-trans a c d (Later-trans a b c l k) m,
          Spent-after a b d l one within (Later-trans b c d k m),
          (same'.0 ∙ same.0, same'.1 ∙ same.1, same'.2 ∙ same.2, same'.3 ∙ same.3),
          inside,
          later',
          ready,
          e ∙ adds,
          room,
        )

    -- Behind an instruction the code returns the range that it asks for, or goes on.
    pub go_on :
        (rounds : ℕ) (base : Bytes) (frame : DeltaFrame D) (output : S) (result : Bytes) (spare : ℕ)
        (a b c : DecodeWorkBudget)
        → Later a b
        → b.used.delta_instructions ≡ a.used.delta_instructions + 1
        → b.used.delta_instructions ≤ b.limits.delta_instructions
        → Later b c
        → (frame' : DeltaFrame D) (output' : S) (child : Option (ℕ × ℕ))
        → Made base frame output result spare (frame', output', child)
        → ((later : Bytes)
            → Ready z G out base frame' later
            → (G → out.Room output' (length (still_wanted frame' later) + spare))
            → Gives G
                (Advanced z G out base frame' output' later spare c)
                (advance_rounds z.inflater z.read out.sink rounds frame' output' c))
        → Gives G (Advanced z G out base frame output result spare a) (
            (elim child as (λ x. Decode (DeltaFrame D × S × Option (ℕ × ℕ))) [
              | none ↦ advance_rounds z.inflater z.read out.sink rounds frame' output'
              | some range ↦ pure (frame', output', some range)
            ])
              c)
    go_on rounds base frame output result spare a b c l one within k frame' output' none
          (same, grows, inside, later, ready, adds, room) next =
        Gives-imply G (Advanced z G out base frame' output' later spare c)
          (Advanced z G out base frame output result spare a)
          (advance_rounds z.inflater z.read out.sink rounds frame' output' c)
          (λ r d advanced.
            then-Advanced base frame output result spare a b c d frame' output' later l one within k
              same adds r advanced)
          (next later ready λ g.
            let none_asked : 0 + (length (still_wanted frame' later) + spare)
                ≡ length (still_wanted frame' later) + spare =
              omega arith in
            rw none_asked at room g)
    go_on rounds base frame output result spare a b c l one within k frame' output' (some child)
          (same, grows, inside, later, ready, adds, room) next =
        (
          Later-trans a b c l k,
          Spent-after a b c l one within k,
          same,
          inside,
          later,
          ready,
          adds,
          room,
        )
