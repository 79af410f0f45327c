-- ===== src/Blob/Frames/Copies.antt =====
-- A frame of a delta gives the requested part of its result up to the next copy, asks for the range
-- of that copy, and keeps the rest for later: `advance`.
use fornacast.Prelude.{
  ℕ, zero, suc, ◌+◌, ◌-◌, ◌≤◌, ◌<◌, ◌≡◌, refl, sym, ap, ◌∙◌, max, false, Bool-cases, inl, inr,
  Option, none, some, [], ◌∷◌, ◌++◌, append-nil, length, length-take, length-drop, length-append,
  drop, ok, ltb, ◌==◌, arith, if◌then◌else◌, subst, bind-eq-ok,
}
use Prim.Native.Nat.{bit_and}
use fornacast.Prelude.Bytes.{Bytes}
use fornacast.Blob.Failure.{corrupt}
use fornacast.Blob.Budget.{DecodeWorkBudget}
use fornacast.Blob.Run.{Succeeds, Gives, Gives-imply, Later, Bounded}
use fornacast.Blob.Stream.Inflating.{Inflation}
use fornacast.Blob.Stream.Refills.{Pending}
use fornacast.Blob.Stream.Reads.{Output}
use fornacast.Blob.Delta.{
  DeltaInstruction, insert, copy, copy_field, offset_fields, size_fields, read_list,
  decode_delta_instruction,
}
use fornacast.Blob.Frames.{DeltaFrame, instruction_size, finish_frame}
use fornacast.Blob.Frames.Meaning.{Piece, Produces, within_range}
use fornacast.Blob.Frames.Advance.{asked, Inside, SameFrame, SoundFrame}
use fornacast.Blob.Frames.Finished.{finish_frame-Keeps}

-- Every instruction adds something.
copy_size_positive : (size : ℕ) → 0 < (if size == 0 then 0x1_0000 else size)
copy_size_positive size = ground arith

pub instruction_size_positive :
    (opcode : ℕ) (behind rest : Bytes) (instruction : DeltaInstruction)
    → decode_delta_instruction corrupt opcode read_list behind ≡ ok (instruction, rest)
    → 0 < instruction_size instruction
unfolding decode_delta_instruction
instruction_size_positive opcode behind rest instruction e = elim (Bool-cases (opcode == 0)) [
  | inl reserved ↦ absurd (cc (sym (rw reserved at e)))
  | inr some_opcode ↦ elim (Bool-cases (bit_and opcode 0x80 == 0)) [
    | inl inserts ↦
        let one : 0 < instruction_size (insert opcode) = ground arith in
        let same : insert opcode ≡ instruction = cc (rw (some_opcode, inserts) at e) in
        subst (λ i. 0 < instruction_size i) same one
    | inr copies ↦
        let (offset, _, e') =
          bind-eq-ok (copy_field read_list opcode offset_fields 0 behind) _
            (rw (some_opcode, copies) at e) in
        let (size, _, e'') = bind-eq-ok (copy_field read_list opcode size_fields 0 offset.1) _ e' in
        let same : copy offset.0 (if size.0 == 0 then 0x1_0000 else size.0) ≡ instruction =
          cc e'' in
        subst (λ i. 0 < instruction_size i) same (copy_size_positive size.0)
  ]
]

pub Piece-length :
    (base rest piece left : Bytes) (instruction : DeltaInstruction)
    → Piece base instruction rest piece left
    → length piece ≡ instruction_size instruction
Piece-length base rest piece left (insert size) (fits, whole, behind) =
    ap length whole ∙ omega (arith, length-take size rest)
Piece-length base rest piece left (copy offset size) (fits, whole, behind) =
    ap length whole
    ∙ omega (arith, fits, length-take size (drop offset base), length-drop offset base)

-- The budget has an instruction less.
abbrev pub Spent : DecodeWorkBudget → DecodeWorkBudget → Type 0
Spent b b' =
    (b.used.delta_instructions + 1 ≤ b'.used.delta_instructions)
    × (b.used.delta_instructions + 1 ≤ b.limits.delta_instructions)

-- A delta that is used up makes nothing more, and one that makes nothing more is used up.
pub Produces-nothing : (n : ℕ) (base result : Bytes) → Produces n base [] result → result ≡ []
Produces-nothing zero base result (used_up, nothing) = nothing
Produces-nothing (suc n) base result
      (opcode, behind, rest, left, piece, later, instruction, first, decoded, made, whole, more) =
    cc

pub Produces-used_up : (n : ℕ) (base left : Bytes) → Produces n base left [] → left ≡ []
Produces-used_up zero base left (used_up, nothing) = used_up
Produces-used_up (suc n) base left
      (opcode, behind, rest, left', piece, later, instruction, first, decoded, made, whole, more) =
    let adds = instruction_size_positive opcode behind rest instruction decoded in
    absurd (
      omega (
        arith,
        adds,
        Piece-length base rest piece left' instruction made,
        ap length whole,
        length-append piece later,
      ))

abbrev pub still_wanted : {D : Type 0} → DeltaFrame D → Bytes → Bytes
still_wanted frame result =
    within_range frame.requested.start frame.requested.end frame.result_position result

module _ {D : Type 0} (z : Inflation D) (G : Type 0) where
  module _ {S : Type 0} (out : Output S) where
    -- A frame whose stream still gives instructions for `result`, or has passed the request.
    abbrev pub Ready : Bytes → DeltaFrame D → Bytes → Type 0
    Ready base frame result =
        (total : ℕ) × (left : Bytes) × Pending z G total frame.stream left
        × (frame.result_position ≤ frame.requested.end → (n : ℕ) × Produces n base left result)
        × (G
            → SoundFrame base frame
              × (frame.result_position + length result ≡ frame.result_size)
              × (left ≡ [] → result ≡ []))

    -- A frame that is through has appended all that was wanted. One that asks for a range of the base
    -- has it that what is appended, what is asked for and what is still wanted make that up.
    abbrev pub Advanced :
        Bytes
        → DeltaFrame D
        → S
        → Bytes
        → ℕ
        → DecodeWorkBudget
        → DeltaFrame D × S × Option (ℕ × ℕ)
        → DecodeWorkBudget
        → Type 0
    Advanced base frame output result spare b (frame', output', none) b' =
        Later b b'
        × (out.content output' ≡ out.content output ++ still_wanted frame result)
        × (G → out.Room output' spare)
    Advanced base frame output result spare b (frame', output', some c) b' =
        Later b b'
        × Spent b b'
        × SameFrame frame' frame
        × Inside base (some c)
        × (later : Bytes) × Ready base frame' later
        × (out.content output' ++ (asked base (some c) ++ still_wanted frame' later)
            ≡ out.content output ++ still_wanted frame result)
        × (G
            → out.Room output'
                (length (asked base (some c)) + (length (still_wanted frame' later) + spare)))

    nothing_wanted :
        (frame : DeltaFrame D) (result : Bytes)
        → frame.requested.end ≤ frame.result_position
        → still_wanted frame result ≡ []
    nothing_wanted frame result h =
        let none_wanted : frame.requested.end - max frame.result_position frame.requested.start
            ≡ 0 =
          omega (arith, h) in
        rw none_wanted refl

    pub past_the_request :
        (base : Bytes) (frame : DeltaFrame D) (output : S) (result : Bytes) (spare : ℕ)
        (b : DecodeWorkBudget)
        → Bounded b
        → Ready base frame result
        → (G → out.Room output (length (still_wanted frame result) + spare))
        → ltb frame.result_position frame.requested.end ≡ false
        → Gives G
            (Advanced base frame output result spare b)
            (finish_frame z.inflater z.read out.sink frame output b)
    past_the_request base frame output result spare b bound (total, left, pending, makes, sound)
          room past =
        let ends : frame.requested.end ≤ frame.result_position = ground arith in
        Gives-imply G
          (λ r b'.
            Later b b'
            × (SameFrame r.0 frame
                × (r.0.result_position ≡ frame.result_position)
                × (r.1 ≡ output)
                × (r.2 ≡ none)))
          (Advanced base frame output result spare b)
          (finish_frame z.inflater z.read out.sink frame output b)
          (λ r b' (l, x). through r.0 r.1 r.2 b' ends room (l, x.0, x.1, x.2, x.3))
          (finish_frame-Keeps z G total out frame output left b bound pending λ g.
            let ((_, _, _, inside, _), sum, nothing) = sound g in
            (
              λ used_up. omega (arith, sum, ap length (nothing used_up)),
              λ whole.
                  let at_end : frame.result_position ≤ frame.requested.end =
                    omega (arith, sum, whole) in
                  let (n, produces) = makes at_end in
                  let none_left : result ≡ [] =
                    no_length result (omega (arith, sum, whole, ends)) in
                  (
                    omega (arith, sum, whole, ends),
                    Produces-used_up n base left (rw none_left at produces),
                  ),
            ))
      where
        no_length : (bs : Bytes) → length bs ≡ 0 → bs ≡ []
        no_length [] h = refl
        no_length (x ∷ bs) h = absurd (omega arith)

        through :
            (frame' : DeltaFrame D) (output' : S) (child : Option (ℕ × ℕ)) (b' : DecodeWorkBudget)
            → frame.requested.end ≤ frame.result_position
            → (G → out.Room output (length (still_wanted frame result) + spare))
            → Later b b'
              × SameFrame frame' frame
              × (frame'.result_position ≡ frame.result_position)
              × (output' ≡ output)
              × (child ≡ none)
            → Advanced base frame output result spare b (frame', output', child) b'
        through frame' output' none b' ends room (l, same, at, unchanged, no_child) =
            let nothing = nothing_wanted frame result ends in
            let just_spare : length (still_wanted frame result) + spare ≡ spare =
              omega (arith, ap length nothing) in
            (
              l,
              ap out.content unchanged
                  ∙ sym (append-nil (out.content output))
                  ∙ ap (λ x. out.content output ++ x) (sym nothing),
              λ g. rw unchanged (rw just_spare at room g),
            )
        through frame' output' (some c) b' ends room (l, same, at, unchanged, no_child) = cc

    -- The bytes that are read are those of the instruction that the delta has there.
    pub next_instruction :
        (n : ℕ) (base left result behind rest : Bytes) (opcode : ℕ) (instruction : DeltaInstruction)
        → Produces n base left result
        → left ≡ opcode ∷ behind
        → decode_delta_instruction corrupt opcode read_list behind ≡ ok (instruction, rest)
        → (m : ℕ) × (piece left' later : Bytes) × Piece base instruction rest piece left'
          × (result ≡ piece ++ later)
          × Produces m base left' later
    next_instruction zero base left result behind rest opcode instruction (none_left, e) first
          decoded =
        cc
    next_instruction (suc m) base left result behind rest opcode instruction
          (
            opcode', behind', rest', left', piece, later, instruction', first', decoded', made,
            whole, more,
          )
          first decoded =
        let same_opcode : opcode' ≡ opcode = cc in
        let same_behind : behind' ≡ behind = cc in
        let same_instruction : instruction' ≡ instruction = cc in
        let same_rest : rest' ≡ rest = cc in
        (m, piece, left', later, rw (same_instruction, same_rest) at made, whole, more)

    -- Where something is still made there is an instruction.
    pub some_instruction :
        (n : ℕ) (base left result : Bytes)
        → Produces n base left result
        → 0 < length result
        → (opcode : ℕ) × (behind : Bytes) × (left ≡ opcode ∷ behind)
          × Succeeds (decode_delta_instruction corrupt opcode read_list behind)
    some_instruction zero base left result (used_up, nothing) h =
        absurd (omega (arith, ap length nothing))
    some_instruction (suc n) base left result
          (
            opcode, behind, rest, left', piece, later, instruction, first, decoded, made, whole,
            more,
          )
          h =
        (opcode, behind, first, rw decoded tt)
