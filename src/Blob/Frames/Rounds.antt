-- ===== src/Blob/Frames/Rounds.antt =====
-- A frame runs up to the next copy that is requested, within its rounds: `advance`.
use fornacast.Prelude.{
  ℕ, zero, suc, ◌+◌, ◌-◌, ◌≤◌, ◌<◌, ◌≡◌, ap, ◌∙◌, false, Bool-cases, inl, inr, ◌∷◌, ◌++◌, length,
  length-append, ok, ltb, arith,
}
use fornacast.Prelude.Bytes.{Bytes}
use fornacast.Blob.Failure.{corrupt}
use fornacast.Blob.Budget.{DecodeWorkBudget, charge_delta_instruction}
use fornacast.Blob.Run.{
  Gives, Gives-bind, Later, Later-trans, Later-Bounded, Bounded, work,
  charge_delta_instruction-Later,
}
use fornacast.Blob.Stream.Inflating.{Inflation}
use fornacast.Blob.Stream.Refills.{Pending}
use fornacast.Blob.Stream.Reads.{Output}
use fornacast.Blob.Delta.{read_list, decode_delta_instruction}
use fornacast.Blob.Frames.{DeltaFrame, read_instruction, run_instruction, advance_rounds, advance}
use fornacast.Blob.Frames.Meaning.{within_range, within_range-append}
use fornacast.Blob.Frames.Pieces.{read_instruction-Pending}
use fornacast.Blob.Frames.Advance.{wanted_part, Applied, run_instruction-Applied}
use fornacast.Blob.Frames.Copies.{
  Piece-length, Ready, still_wanted, Advanced, past_the_request, next_instruction, some_instruction,
}
use fornacast.Blob.Frames.Through.{Made-of, go_on}

module _ {D : Type 0} (z : Inflation D) (G : Type 0) where
  module _ {S : Type 0} (out : Output S) where
    advance_rounds-Advanced :
        (rounds : ℕ) (base : Bytes) (frame : DeltaFrame D) (output : S) (result : Bytes) (spare : ℕ)
        (b : DecodeWorkBudget)
        → Bounded b
        → frame.requested.end ≤ frame.result_position + rounds
        → Ready z G out base frame result
        → (G → out.Room output (length (still_wanted frame result) + spare))
        → Gives G
            (Advanced z G out base frame output result spare b)
            (advance_rounds z.inflater z.read out.sink rounds frame output b)
    unfolding advance_rounds
    advance_rounds-Advanced zero base frame output result spare b bound enough ready room =
        let past : ltb frame.result_position frame.requested.end ≡ false = ground arith in
        rw past (past_the_request z G out base frame output result spare b bound ready room past)
    advance_rounds-Advanced (suc rounds) base frame output result spare b bound enough
          (total, left, pending, makes, sound) room =
        elim (Bool-cases (ltb frame.result_position frame.requested.end)) [
          | inr past ↦ rw past (
              past_the_request z G out base frame output result spare b bound
                (total, left, pending, makes, sound) room past)
          | inl inside ↦
              let before : frame.result_position < frame.requested.end = ground arith in
              let (n, produces) = makes (omega (arith, before)) in
              rw inside (
                Gives-bind G
                  (λ u b1.
                    Later b b1
                    × (b1.used.delta_instructions ≡ b.used.delta_instructions + 1)
                    × (b1.used.delta_instructions ≤ b1.limits.delta_instructions))
                  _ (work charge_delta_instruction) _ b (charge_delta_instruction-Later G b)
                  λ u b1 (l1, one, within).
                    let bound1 = Later-Bounded b b1 l1 bound in
                    Gives-bind G
                      (λ r b2.
                        Later b1 b2
                        × ((opcode : ℕ) × (behind rest : Bytes) × (left ≡ opcode ∷ behind)
                            × (decode_delta_instruction corrupt opcode read_list behind
                                ≡ ok (r.0, rest))
                            × Pending z G total r.1 rest))
                      _ (read_instruction z.inflater z.read frame.stream) _ b1
                      (read_instruction-Pending z G total frame.stream left b1 bound1 pending λ g.
                        let ((_, _, _, ends, _), sum, _) = sound g in
                        some_instruction z G out n base left result produces
                          (omega (arith, sum, ends, before)))
                      λ i b2 (l2, (opcode, behind, rest, first, decoded, pending')).
                        let (m, piece, left', later, made, whole, more) =
                          next_instruction z G out n base left result behind rest opcode i.0
                            produces first decoded in
                        let here : DeltaFrame D = record frame { stream = i.1 } in
                        let low = frame.requested.start in
                        let high = frame.requested.end in
                        let p = frame.result_position in
                        let behind_it = within_range low high (p + length piece) later in
                        let parts : still_wanted frame result
                            ≡ wanted_part here piece ++ behind_it =
                          ap (within_range low high p) whole
                          ∙ within_range-append low high p piece later in
                        Gives-bind G
                          (λ r b3.
                            Later b2 b3
                            × Applied z G total out base here output piece left'
                                (length behind_it + spare) r)
                          _ (run_instruction z.inflater z.read out.sink i.0 here output) _ b2
                          (run_instruction-Applied z G total out i.0 (length behind_it + spare) here
                            output base rest piece left' b2 (Later-Bounded b1 b2 l2 bound1) made
                            (Piece-length base rest piece left' i.0 made) pending'
                            λ g.
                              let (is_sound, sum, _) = sound g in
                              let much : length (still_wanted frame result) + spare
                                  ≡ length (wanted_part here piece) + (length behind_it + spare) =
                                omega (
                                  arith,
                                  ap length parts,
                                  length-append (wanted_part here piece) behind_it,
                                ) in
                              (
                                is_sound,
                                omega (arith, sum, ap length whole, length-append piece later),
                                rw much at room g,
                              ))
                          λ r b3 (l3, applied).
                            let all =
                              Made-of z G out total base result rest piece left' later i.0 m opcode
                                spare behind here output made decoded whole more
                                (λ g. ((sound g).0, (sound g).1)) r applied in
                            let k = Later-trans b1 b2 b3 l2 l3 in
                            let end_same : r.0.requested.end ≡ frame.requested.end =
                              ap (λ q. q.end) all.0.2 in
                            go_on z G out rounds base frame output result spare b b1 b3 l1 one
                              within k r.0 r.1 r.2 all
                              λ later' ready' room'.
                                advance_rounds-Advanced rounds base r.0 r.1 later' spare b3
                                  (Later-Bounded b1 b3 k bound1)
                                  (omega (arith, enough, all.1, end_same)) ready' room')
        ]

    -- A frame of a delta on its base: either it has appended all that is wanted of its result, or it
    -- asks for the next range of the base that is wanted, has appended what stands before that, and
    -- is ready for the rest.
    pub advance-Advanced :
        (base : Bytes) (frame : DeltaFrame D) (output : S) (result : Bytes) (spare : ℕ)
        (b : DecodeWorkBudget)
        → Bounded b
        → Ready z G out base frame result
        → (G → out.Room output (length (still_wanted frame result) + spare))
        → Gives G
            (Advanced z G out base frame output result spare b)
            (advance z.inflater z.read out.sink frame output b)
    unfolding advance
    advance-Advanced base frame output result spare b bound ready room =
        advance_rounds-Advanced (frame.requested.end - frame.result_position) base frame output
          result spare b bound (omega arith) ready room
