-- ===== src/Blob/Frames/Advance.antt =====
-- What an instruction does to a frame of a delta: `copy_range`, `apply_instruction` and
-- `run_instruction`.
use fornacast.Prelude.{
  ℕ, ◌<◌, ◌+◌, ◌-◌, ◌≤◌, ◌≡◌, refl, sym, ap, ◌∙◌, min, max, Option, none, some, [], ◌++◌,
  append-nil, length, length-take, length-drop, take, drop, ok, leb, arith,
}
use fornacast.Prelude.Bytes.{Bytes}
use fornacast.Prelude.Word.{u64_mod, checked_add}
use fornacast.Prelude.Slices.{drop_plus, take-drop-take}
use fornacast.Blob.Failure.{corrupt, ok_or}
use fornacast.Blob.Budget.{DecodeWorkBudget}
use fornacast.Blob.Run.{Succeeds, Later-refl, Bounded}
use fornacast.Blob.Run.Keeps.{Keeps, Keeps-bind, Keeps-try, Keeps-ensure}
use fornacast.Blob.Stream.Inflating.{Inflation}
use fornacast.Blob.Stream.Refills.{Pending}
use fornacast.Blob.Stream.Reads.{Output}
use fornacast.Blob.Delta.{DeltaInstruction, insert, copy, overlapping_base_range}
use fornacast.Blob.Frames.{
  DeltaFrame, instruction_size, insert_bytes, copy_range, apply_instruction, run_instruction,
}
use fornacast.Blob.Frames.Meaning.{Piece}
use fornacast.Blob.Frames.Pieces.{Inserted, insert_bytes-Pending}

-- The bytes of the base that a frame asks for.
abbrev pub asked : Bytes → Option (ℕ × ℕ) → Bytes
asked base none = []
asked base (some (start, size)) = take size (drop start base)

abbrev pub Inside : Bytes → Option (ℕ × ℕ) → Type 0
Inside base none = Unit
Inside base (some (start, size)) = start + size ≤ length base

-- The part of a piece that a frame wants.
abbrev pub wanted_part : {D : Type 0} → DeltaFrame D → Bytes → Bytes
wanted_part frame piece =
    let p = frame.result_position in
    take (min (p + length piece) frame.requested.end - max p frame.requested.start)
      (drop (frame.requested.start - p) piece)

abbrev pub SameFrame : {D : Type 0} → DeltaFrame D → DeltaFrame D → Type 0
SameFrame frame' frame =
    (frame'.base ≡ frame.base)
    × (frame'.base_metadata ≡ frame.base_metadata)
    × (frame'.requested ≡ frame.requested)
    × (frame'.result_size ≡ frame.result_size)

-- A frame of a sound delta: the sizes that it declares are those of its base and its result, and
-- the request lies in the result.
abbrev pub SoundFrame : {D : Type 0} → Bytes → DeltaFrame D → Type 0
SoundFrame base frame =
    (frame.base_metadata.size ≡ length base)
    × (length base < u64_mod)
    × (frame.requested.start ≤ frame.requested.end)
    × (frame.requested.end ≤ frame.result_size)
    × (frame.result_size < u64_mod)

module _ {D : Type 0} (z : Inflation D) (G : Type 0) (total : ℕ) where
  module _ {S : Type 0} (out : Output S) where
    copy_range-asked :
        (offset size : ℕ) (frame : DeltaFrame D) (base : Bytes) (child : Option (ℕ × ℕ))
        → copy_range z.inflater z.read out.sink offset size frame ≡ ok child
        → let low = frame.requested.start in
          let p = frame.result_position in
          asked base child
          ≡ take
              (min (p + size) frame.requested.end - max p low)
              (drop (low - p) (take size (drop offset base)))
    unfolding copy_range overlapping_base_range
    copy_range-asked offset size frame base none h =
        let p = frame.result_position in
        let none_wanted : min (p + size) frame.requested.end - max p frame.requested.start ≡ 0 =
          ground arith in
        rw none_wanted refl
    copy_range-asked offset size frame base (some (start, count)) h =
        let p = frame.result_position in
        let low = frame.requested.start in
        let n = min (p + size) frame.requested.end - max p low in
        let at : start ≡ offset + (low - p) = ground arith in
        let many : count ≡ n = ground arith in
        let room : low - p + n ≤ size = ground arith in
        rw (at, many)
          (sym (
            take-drop-take n (low - p) size (drop offset base) room
            ∙ ap (take n) (drop_plus offset (low - p) base)))

    copy_range-Inside :
        (offset size : ℕ) (frame : DeltaFrame D) (base : Bytes) (child : Option (ℕ × ℕ))
        → copy_range z.inflater z.read out.sink offset size frame ≡ ok child
        → offset + size ≤ length base
        → Inside base child
    unfolding copy_range overlapping_base_range
    copy_range-Inside offset size frame base none h here = tt
    copy_range-Inside offset size frame base (some (start, count)) h here = ground arith

    copy_range-Succeeds :
        (offset size : ℕ) (frame : DeltaFrame D) (base : Bytes)
        → SoundFrame base frame
        → offset + size ≤ length base
        → frame.result_position + size < u64_mod
        → Succeeds (copy_range z.inflater z.read out.sink offset size frame)
    unfolding copy_range overlapping_base_range
    copy_range-Succeeds offset size frame base (same, small, ordered, inside, fits) here at =
        ground arith

    -- What an instruction does to a frame, with the piece that it stands for.
    abbrev pub Applied :
        Bytes → DeltaFrame D → S → Bytes → Bytes → ℕ → DeltaFrame D × S × Option (ℕ × ℕ) → Type 0
    Applied base frame output piece left spare r =
        SameFrame r.0 frame
        × (r.0.result_position ≡ frame.result_position + length piece)
        × (left' : Bytes) × Pending z G total r.0.stream left'
        × (r.0.result_position ≤ frame.requested.end → left' ≡ left)
        × (left' ≡ [] → left ≡ [])
        × (out.content r.1 ++ asked base r.2 ≡ out.content output ++ wanted_part frame piece)
        × Inside base r.2
        × (G → out.Room r.1 (length (asked base r.2) + spare))

    apply_instruction-Applied :
        (instruction : DeltaInstruction) (end spare : ℕ) (frame : DeltaFrame D) (output : S)
        (base rest piece left : Bytes) (b : DecodeWorkBudget)
        → Bounded b
        → end ≡ frame.result_position + instruction_size instruction
        → Piece base instruction rest piece left
        → Pending z G total frame.stream rest
        → (G
            → SoundFrame base frame
              × (frame.result_position + length piece ≤ frame.result_size)
              × out.Room output (length (wanted_part frame piece) + spare))
        → Keeps G b
            (Applied base frame output piece left spare)
            (apply_instruction z.inflater z.read out.sink instruction end frame output b)
    unfolding apply_instruction
    apply_instruction-Applied (insert size) end spare frame output base rest piece left b bound ends
          (fits, whole, behind) pending sound =
        let long : length piece ≡ size = ap length whole ∙ omega (arith, length-take size rest) in
        let p = frame.result_position in
        let low = frame.requested.start in
        let high = frame.requested.end in
        Keeps-bind G (Inserted z G total out size frame output rest spare) _
          (insert_bytes z.inflater z.read out.sink size end frame output) _ b
          (rw ends (
            insert_bytes-Pending z G total out size spare frame output rest b bound fits pending
              λ g.
                let n = min (p + size) high - max p low in
                let same : length (wanted_part frame piece) + spare ≡ n + spare = omega (
                  arith,
                  long,
                  length-take (min (p + length piece) high - max p low) (drop (low - p) piece),
                  length-drop (low - p) piece,
                ) in
                rw same at (sound g).2))
          λ r b1 l1 (added, left', now, aligned, used_up, room). (
            Later-refl b1,
            (
              (refl, refl, refl, refl),
              omega (arith, ends, long),
              left',
              now,
              λ h. aligned (omega (arith, ends, h)) ∙ sym behind,
              λ h. behind ∙ used_up h,
              append-nil (out.content r.1)
                  ∙ added
                  ∙ ap
                      (λ k.
                        out.content output
                        ++ take (min (p + k) high - max p low) (drop (low - p) (take size rest)))
                      (sym long)
                  ∙ ap
                      (λ x.
                        out.content output
                        ++ take (min (p + length piece) high - max p low) (drop (low - p) x))
                      (sym whole),
              tt,
              λ g. let none_asked : 0 + spare ≡ spare = omega arith in rw none_asked (room g),
            ),
          )
    apply_instruction-Applied (copy offset size) end spare frame output base rest piece left b bound
          ends (fits, whole, behind) pending sound =
        let long : length piece ≡ size =
          ap length whole
          ∙ omega (arith, fits, length-take size (drop offset base), length-drop offset base) in
        let p = frame.result_position in
        let low = frame.requested.start in
        let high = frame.requested.end in
        Keeps-try G (copy_range z.inflater z.read out.sink offset size frame) _ _ b
          (λ g.
            let (is_sound, inside, _) = sound g in
            let limit = is_sound.4 in
            copy_range-Succeeds offset size frame base is_sound fits
              (omega (arith, long, inside, limit)))
          λ child e.
            let same : asked base child ≡ wanted_part frame piece =
              copy_range-asked offset size frame base child e
              ∙ ap
                  (λ k.
                    take (min (p + k) high - max p low)
                      (drop (low - p) (take size (drop offset base))))
                  (sym long)
              ∙ ap (λ x. take (min (p + length piece) high - max p low) (drop (low - p) x))
                  (sym whole) in
            (
              Later-refl b,
              (
                (refl, refl, refl, refl),
                omega (arith, ends, long),
                rest,
                pending,
                λ h. sym behind,
                λ h. behind ∙ h,
                ap (λ x. out.content output ++ x) same,
                copy_range-Inside offset size frame base child e fits,
                λ g. rw same (sound g).2,
              ),
            )

    pub run_instruction-Applied :
        (instruction : DeltaInstruction) (spare : ℕ) (frame : DeltaFrame D) (output : S)
        (base rest piece left : Bytes) (b : DecodeWorkBudget)
        → Bounded b
        → Piece base instruction rest piece left
        → length piece ≡ instruction_size instruction
        → Pending z G total frame.stream rest
        → (G
            → SoundFrame base frame
              × (frame.result_position + length piece ≤ frame.result_size)
              × out.Room output (length (wanted_part frame piece) + spare))
        → Keeps G b
            (Applied base frame output piece left spare)
            (run_instruction z.inflater z.read out.sink instruction frame output b)
    unfolding run_instruction
    run_instruction-Applied instruction spare frame output base rest piece left b bound made long
          pending sound =
        let ending = checked_add frame.result_position (instruction_size instruction) in
        Keeps-try G (ok_or ending (corrupt "delta result position overflow")) _ _ b
          (λ g. let (is_sound, inside, _) = sound g in let limit = is_sound.4 in ground arith)
          λ end e1.
            let ends : end ≡ frame.result_position + instruction_size instruction = ground arith in
            Keeps-ensure G (leb end frame.result_size) "delta command ends beyond result size" _ _ b
              (λ g. let inside = (sound g).1 in ground arith)
              λ e2.
                apply_instruction-Applied instruction end spare frame output base rest piece left b
                  bound ends made pending sound
