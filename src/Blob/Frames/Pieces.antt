-- ===== src/Blob/Frames/Pieces.antt =====
-- One instruction of a delta on a stream: `read_delta_header`, `insert_bytes` and `copy_range`.
use fornacast.Prelude.{
  ℕ, ◌+◌, ◌-◌, ◌≤◌, ◌≡◌, refl, sym, ap, ◌∙◌, min, max, Bool-cases, inl, inr, ◌∷◌, ◌++◌, append-nil,
  length, take, drop, length-drop, [], ok, leb, arith,
}
use fornacast.Prelude.Bytes.{Bytes}
use fornacast.Prelude.Slices.{drop_all, drop_plus, take-drop-take}
use fornacast.Blob.Failure.{corrupt}
use fornacast.Blob.Budget.{DecodeWorkBudget}
use fornacast.Blob.Run.{Succeeds, Later-refl, Later-Bounded, Bounded, from_string, reassociate}
use fornacast.Blob.Run.Keeps.{Keeps, Keeps-bind, Keeps-imply}
use fornacast.Blob.Stream.{InflatedStream, read_required_byte, skip_exact, append_exact}
use fornacast.Blob.Stream.Inflating.{Inflation, drop_nothing}
use fornacast.Blob.Stream.Refills.{Pending}
use fornacast.Blob.Stream.Reads.{Output, read_required_byte-Pending, skip_exact-Pending}
use fornacast.Blob.Stream.Appends.{append_exact-Pending}
use fornacast.Blob.Delta.{read_list, decode_delta_varint, decode_delta_instruction}
use fornacast.Blob.Frames.{
  DeltaFrame, stream_reader, read_delta_header, read_instruction, insert_bytes,
}
use fornacast.Blob.Frames.Parses.{
  decode_delta_varint-Agrees, decode_delta_instruction-Agrees, Agrees,
}

module _ {D : Type 0} (z : Inflation D) (G : Type 0) (total : ℕ) where
  pub read_delta_header-Pending :
      (s : InflatedStream D) (left : Bytes) (b : DecodeWorkBudget)
      → Bounded b
      → Pending z G total s left
      → (G
          → (m n : ℕ) × (behind body : Bytes) × (decode_delta_varint corrupt read_list left
              ≡ ok (m, behind))
            × (decode_delta_varint corrupt read_list behind ≡ ok (n, body)))
      → Keeps G b
          (λ r.
            (behind body : Bytes) × (decode_delta_varint corrupt read_list left
              ≡ ok (r.0.0, behind))
            × (decode_delta_varint corrupt read_list behind ≡ ok (r.0.1, body))
            × Pending z G total r.1 body)
          (read_delta_header z.inflater z.read s b)
  unfolding read_delta_header
  read_delta_header-Pending s left b bound pending fine =
      let reader = stream_reader z.inflater z.read in
      Keeps-bind G (Agrees z G total (decode_delta_varint corrupt read_list left)) _
        (λ c. reassociate (decode_delta_varint from_string reader (s, c))) _ b
        (decode_delta_varint-Agrees z G total s left b bound pending
          λ g. let (m, n, behind, body, e, e') = fine g in rw e tt)
        λ base b1 l1 (behind, e, pending1).
          Keeps-bind G (Agrees z G total (decode_delta_varint corrupt read_list behind)) _
            (λ c. reassociate (decode_delta_varint from_string reader (base.1, c))) _ b1
            (decode_delta_varint-Agrees z G total base.1 behind b1 (Later-Bounded b b1 l1 bound)
              pending1
              λ g.
                let (m, n, behind', body, first, second) = fine g in
                let same : behind ≡ behind' = cc (sym e ∙ first) in rw (same, second) tt)
            λ size b2 l2 (body, e', pending2). (Later-refl b2, (behind, body, e, e', pending2))

  pub read_instruction-Pending :
      (s : InflatedStream D) (left : Bytes) (b : DecodeWorkBudget)
      → Bounded b
      → Pending z G total s left
      → (G
          → (opcode : ℕ) × (behind : Bytes) × (left ≡ opcode ∷ behind)
            × Succeeds (decode_delta_instruction corrupt opcode read_list behind))
      → Keeps G b
          (λ r.
            (opcode : ℕ) × (behind rest : Bytes) × (left ≡ opcode ∷ behind)
            × (decode_delta_instruction corrupt opcode read_list behind ≡ ok (r.0, rest))
            × Pending z G total r.1 rest)
          (read_instruction z.inflater z.read s b)
  unfolding read_instruction
  read_instruction-Pending s left b bound pending fine =
      Keeps-bind G (λ r. (left ≡ r.0 ∷ drop 1 left) × Pending z G total r.1 (drop 1 left)) _
        (read_required_byte z.inflater z.read s) _ b
        (read_required_byte-Pending z G total s left b bound pending
          λ g. let (opcode, behind, split, _) = fine g in omega (arith, ap length split))
        λ r b1 l1 (first, pending1).
          Keeps-imply G
            (Agrees z G total (decode_delta_instruction corrupt r.0 read_list (drop 1 left))) _ b1
            (reassociate (
              decode_delta_instruction from_string r.0 (stream_reader z.inflater z.read) (r.1, b1)))
            (λ i (rest, e, now). (r.0, drop 1 left, rest, first, e, now))
            (decode_delta_instruction-Agrees z G total r.0 r.1 (drop 1 left) b1
              (Later-Bounded b b1 l1 bound) pending1
              λ g.
                let (opcode, behind, split, decodes) = fine g in
                let same : opcode ≡ r.0 = cc (sym split ∙ first) in
                let same_behind : behind ≡ drop 1 left = cc (sym split ∙ first) in
                rw (same, same_behind) at decodes)

  module _ {S : Type 0} (out : Output S) where
    -- What an insertion does: it appends the requested part of its bytes, and reads them all if the
    -- request does not end inside them.
    abbrev pub Inserted : ℕ → DeltaFrame D → S → Bytes → ℕ → InflatedStream D × S → Type 0
    Inserted size frame output left spare r =
        let end = frame.result_position + size in
        let low = frame.requested.start in
        let high = frame.requested.end in
        (out.content r.1
          ≡ out.content output
            ++ take (min end high - max frame.result_position low)
                (drop (low - frame.result_position) (take size left)))
        × (left' : Bytes) × Pending z G total r.0 left'
        × (end ≤ high → left' ≡ drop size left)
        × (left' ≡ [] → drop size left ≡ [])
        × (G → out.Room r.1 spare)

    pub insert_bytes-Pending :
        (size spare : ℕ) (frame : DeltaFrame D) (output : S) (left : Bytes) (b : DecodeWorkBudget)
        → Bounded b
        → size ≤ length left
        → Pending z G total frame.stream left
        → (G
            → out.Room output (
                min (frame.result_position + size) frame.requested.end
                - max frame.result_position frame.requested.start
                + spare))
        → Keeps G b (Inserted size frame output left spare) (
            insert_bytes z.inflater z.read out.sink size
              (frame.result_position + size)
              frame
              output
              b)
    unfolding insert_bytes
    insert_bytes-Pending size spare frame output left b bound fits pending room_for =
        let p = frame.result_position in
        let end = p + size in
        let low = frame.requested.start in
        let high = frame.requested.end in
        elim (Bool-cases (leb end low)) [
          | inl before ↦
              let none_wanted : min end high - max p low ≡ 0 = ground arith in
              let just_spare : min end high - max p low + spare ≡ spare =
                omega (arith, none_wanted) in
              rw before (
                Keeps-bind G (λ s. (size ≤ length left) × Pending z G total s (drop size left)) _
                  (skip_exact z.inflater z.read size frame.stream) _ b
                  (skip_exact-Pending z G total size frame.stream left b bound pending λ g. fits)
                  λ s b1 l1 (h, now). (
                    Later-refl b1,
                    (
                      rw none_wanted (sym (append-nil (out.content output))),
                      drop size left,
                      now,
                      λ e. refl,
                      λ e. e,
                      λ g. rw just_spare at room_for g,
                    ),
                  ))
          | inr inside ↦
              let d = max p low - p in
              let n = min end high - max p low in
              let same : d ≡ low - p = omega arith in
              let room : low - p + n ≤ size = ground arith in
              let before : d + n ≤ length left = omega (arith, room, same, fits) in
              rw inside (
                Keeps-bind G (λ s. (d ≤ length left) × Pending z G total s (drop d left)) _
                  (skip_exact z.inflater z.read d frame.stream) _ b
                  (skip_exact-Pending z G total d frame.stream left b bound pending
                    λ g. omega (arith, before))
                  λ s b1 l1 (h, now).
                    Keeps-imply G
                      (λ r.
                        (n ≤ length (drop d left))
                        × Pending z G total r.0 (drop n (drop d left))
                        × (out.content r.1 ≡ out.content output ++ take n (drop d left))
                        × (G → out.Room r.1 spare))
                      _ b1 (append_exact z.inflater z.read out.sink n s output b1)
                      (λ r (h', now', added, room'). (
                        added
                            ∙ ap (λ k. out.content output ++ take n (drop k left)) same
                            ∙ ap (λ x. out.content output ++ x)
                                (sym (take-drop-take n (low - p) size left room)),
                        drop n (drop d left),
                        now',
                        λ ends.
                            let all : d + n ≡ size = ground arith in
                            drop_plus d n left ∙ ap (λ k. drop k left) all,
                        λ nothing. drop_all size left (
                            omega (
                              arith,
                              room,
                              same,
                              drop_nothing n (drop d left) nothing,
                              length-drop d left,
                            )),
                        room',
                      ))
                      (append_exact-Pending z G total out n spare s output (drop d left) b1
                        (Later-Bounded b b1 l1 bound) now
                        λ g. (omega (arith, before, length-drop d left), room_for g)))
        ]
