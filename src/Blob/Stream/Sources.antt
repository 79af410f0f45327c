-- ===== src/Blob/Stream/Sources.antt =====
-- What one call of the inflater does to a source: `decompress_once` and `is_exactly_exhausted`.
use fornacast.Prelude.{
  ℕ, zero, suc, ◌<◌, ◌≤◌, ◌≡◌, refl, sym, ap, ◌∙◌, Bool, true, Bool-cases, inl, inr, [], ◌++◌,
  length, length-take, take, drop, take-append-drop, length-drop, length-append, String, arith,
  ◌==◌, not, ◌&&◌,
}
use fornacast.Prelude.Bytes.{Bytes}
use fornacast.Prelude.Slices.{drop_plus, drop-take, drop_all}
use fornacast.Blob.Failure.{storage, ok_or}
use fornacast.Blob.Budget.{DecodeWorkBudget, compressed_chunk}
use fornacast.Blob.Run.{Later-refl, Bounded, Later-Bounded, work_chunk}
use fornacast.Blob.Run.Keeps.{
  Keeps, Keeps-bind, Keeps-try, Keeps-charge_compressed_input, Portion, compressed_chunk-Keeps,
}
use fornacast.Blob.Zlib.{
  CompressedSource, slice, file, is_empty, decompress_slice, fill_buffer, decompress_once,
  is_exactly_exhausted,
}
use fornacast.Blob.Stream.{compressed_left}
use fornacast.Blob.Stream.Inflating.{
  Inflation, take_nothing, drop_nothing, first_nothing, ok_or-some, Intact, Stepped,
  inflate_input-Stepped,
}

module _ {D : Type 0} (z : Inflation D) where
  module _ (G : Type 0) where
    slice-Stepped :
        (bytes left : Bytes) (position : ℕ) (d : D) (out_len : ℕ) (b : DecodeWorkBudget)
        → Bounded b
        → z.Left d (drop position bytes) left
        → (G
            → z.Valid d (drop position bytes) left
              × (0 < out_len)
              × Intact z (slice bytes position))
        → Keeps G b
            (Stepped z G d out_len left (length (drop position bytes)))
            (decompress_slice z.inflater bytes position d out_len b)
    unfolding decompress_slice
    slice-Stepped bytes left position d out_len b bound pending valid =
        let remaining = drop position bytes in
        Keeps-bind G (Portion (length remaining)) _
          (work_chunk (compressed_chunk (length remaining))) _ b
          (compressed_chunk-Keeps G (length remaining) b bound)
          λ n b1 l1 (fits, some_given).
            let whole = take-append-drop n remaining in
            inflate_input-Stepped z G d (take n remaining) (drop n remaining) left
              (is_empty remaining) out_len position (length remaining) (slice bytes)
              "inflate pack entry" b1 (Later-Bounded b b1 l1 bound) (rw whole pending)
              (ap length whole)
              (λ k h. sym (drop_plus position k bytes) ∙ sym (drop-take k n remaining h))
              λ g.
                let (is_valid, room, (inside, small)) = valid g in
                let long = length-drop position bytes in
                let part = length-take n remaining in
                (
                  rw whole is_valid,
                  room,
                  take_nothing n remaining some_given,
                  omega (arith, inside, small, long, part),
                  λ k h. (omega (arith, inside, long, part, h), small),
                )

    fill_buffer-Keeps :
        (rest buffer : Bytes) (position size : ℕ) (eof : Bool) (detail : String)
        (b : DecodeWorkBudget)
        → Bounded b
        → (G → Intact z (file rest buffer position size eof))
        → Keeps G b
            (λ f.
              (drop f.2 f.1 ++ f.0 ≡ drop position buffer ++ rest)
              × (G → Intact z (file f.0 f.1 f.2 size f.3) × (drop f.2 f.1 ≡ [] → f.0 ≡ [])))
            (fill_buffer z.read rest buffer position size eof detail size b)
    unfolding fill_buffer
    fill_buffer-Keeps rest buffer position size eof detail b bound intact =
        elim (Bool-cases (position == length buffer && not eof)) [
          | inl due ↦
              let used_up : length buffer ≤ position = ground arith in
              rw due (
                Keeps-bind G (Portion size) _ (work_chunk (compressed_chunk size)) _ b
                  (compressed_chunk-Keeps G size b bound)
                  λ k b1 l1 (h, some_given).
                    Keeps-try G (ok_or (z.read rest k) (storage detail)) _ _ b1
                      (λ g.
                        let (_, _, buffered, _, reads) = intact g in
                        rw (reads rest k (some_given buffered)).1 tt)
                      λ n e. (
                        Later-refl b1,
                        (
                          take-append-drop n rest
                              ∙ ap (λ x. x ++ rest) (sym (drop_all position buffer used_up)),
                          λ g.
                              let (_, small, buffered, _, reads) = intact g in
                              let (m, given, fits, over) = reads rest k (some_given buffered) in
                              let same : m ≡ n =
                                cc (sym given ∙ ok_or-some (z.read rest k) (storage detail) n e) in
                              let halves = ap length (take-append-drop n rest) in
                              (
                                (
                                  omega arith,
                                  omega (
                                    arith,
                                    small,
                                    halves,
                                    length-append (take n rest) (drop n rest),
                                  ),
                                  buffered,
                                  λ none_read.
                                      let nothing : m ≡ 0 = ground arith in
                                      rw (over nothing) (drop_all n [] (omega arith)),
                                  reads,
                                ),
                                λ blank.
                                    take_nothing n rest
                                      (λ some_byte. positive m n rest same over some_byte) blank,
                              ),
                        ),
                      ))
          | inr not_due ↦ rw not_due (
            Later-refl b,
            (
              refl,
              λ g. (
                intact g,
                λ blank.
                    let past = drop_nothing position buffer blank in
                    let (inside, _, _, over, _) = intact g in
                    let ends : eof ≡ true = ground arith in over ends,
              ),
            ),
          )
        ]
      where
        positive : (m n : ℕ) (rest : Bytes) → m ≡ n → (m ≡ 0 → rest ≡ []) → 0 < length rest → 0 < n
        positive zero n rest same over some_byte =
            absurd (omega (arith, some_byte, ap length (over refl)))
        positive (suc m) n rest same over some_byte = omega (arith, same)

    pub decompress_once-Stepped :
        (source : CompressedSource) (left : Bytes) (d : D) (out_len : ℕ) (b : DecodeWorkBudget)
        → Bounded b
        → z.Left d (compressed_left source) left
        → (G → z.Valid d (compressed_left source) left × (0 < out_len) × Intact z source)
        → Keeps G b
            (Stepped z G d out_len left (length (compressed_left source)))
            (decompress_once z.inflater z.read source d out_len b)
    unfolding decompress_once
    decompress_once-Stepped (slice bytes position) left d out_len b bound pending valid =
        slice-Stepped bytes left position d out_len b bound pending valid
    decompress_once-Stepped (file rest buffer position size eof) left d out_len b bound pending
          valid =
        Keeps-bind G
          (λ f.
            (drop f.2 f.1 ++ f.0 ≡ drop position buffer ++ rest)
            × (G → Intact z (file f.0 f.1 f.2 size f.3) × (drop f.2 f.1 ≡ [] → f.0 ≡ [])))
          _ (fill_buffer z.read rest buffer position size eof "read loose object" size) _ b
          (fill_buffer-Keeps rest buffer position size eof "read loose object" b bound
            λ g. (valid g).2)
          λ f b1 l1 (same, intact).
            inflate_input-Stepped z G d (drop f.2 f.1) f.0 left (is_empty (drop f.2 f.1) && f.3)
              out_len f.2 (length (drop position buffer ++ rest))
              (λ (position' : ℕ). file f.0 f.1 position' size f.3) "inflate loose object" b1
              (Later-Bounded b b1 l1 bound) (rw same pending) (ap length same)
              (λ k h. ap (λ x. x ++ f.0) (sym (drop_plus f.2 k f.1)))
              λ g.
                let (is_valid, room, _) = valid g in
                let ((inside, small, buffered, over, reads), all) = intact g in
                let long = length-drop f.2 f.1 in
                (
                  rw same is_valid,
                  room,
                  all,
                  omega (arith, inside, small, long),
                  λ k h. (omega (arith, inside, long, h), small, buffered, over, reads),
                )

    pub is_exactly_exhausted-Keeps :
        (source : CompressedSource) (b : DecodeWorkBudget)
        → Bounded b
        → (G → Intact z source × (compressed_left source ≡ []))
        → Keeps G b
            (λ r. (compressed_left r.1 ≡ compressed_left source) × (G → r.0 ≡ true))
            (is_exactly_exhausted z.read source b)
    unfolding is_exactly_exhausted
    is_exactly_exhausted-Keeps (slice bytes position) b bound ends = (
      Later-refl b,
      (
        refl,
        λ g.
            let ((inside, small), all) = ends g in
            let past = drop_nothing position bytes all in ground arith,
      ),
    )
    is_exactly_exhausted-Keeps (file rest buffer position size eof) b bound ends =
        elim (Bool-cases (position == length buffer)) [
          | inr part ↦ rw part (
            Later-refl b,
            (
              refl,
              λ g.
                  let ((inside, _, _, _, _), all) = ends g in
                  let past =
                    drop_nothing position buffer (first_nothing (drop position buffer) rest all) in
                  absurd (ground arith),
            ),
          )
          | inl used_up ↦ elim (Bool-cases eof) [
            | inl over ↦ rw (used_up, over) (Later-refl b, (refl, λ g. refl))
            | inr not_over ↦
                let all_used : length buffer ≤ position = ground arith in
                let gone = drop_all position buffer all_used in
                rw (used_up, not_over)
                  (Keeps-bind G (Portion 1) _ (work_chunk (compressed_chunk 1)) _ b
                    (compressed_chunk-Keeps G 1 b bound)
                    λ k b1 l1 (h, some_given).
                      Keeps-try G (ok_or (z.read rest k) (storage "read loose object trailer")) _ _
                        b1
                        (λ g.
                          let ((_, _, _, _, reads), _) = ends g in
                          rw (reads rest k (some_given (omega arith))).1 tt)
                        λ n e.
                          Keeps-charge_compressed_input G n _ _ b1 (Later-Bounded b b1 l1 bound)
                            λ b2 bound2. (
                              Later-refl b2,
                              (
                                take-append-drop n rest ∙ ap (λ x. x ++ rest) (sym gone),
                                λ g.
                                    let ((_, _, _, _, reads), all) = ends g in
                                    let (m, given, fits, over) =
                                      reads rest k (some_given (omega arith)) in
                                    let same : m ≡ n = cc (
                                      sym given
                                      ∙ ok_or-some (z.read rest k)
                                          (storage "read loose object trailer") n e) in
                                    let no_rest : rest ≡ [] =
                                      sym (ap (λ x. x ++ rest) gone) ∙ all in
                                    let nothing : n ≡ 0 =
                                      omega (arith, fits, same, ap length no_rest) in
                                    ground arith,
                              ),
                            ))
          ]
        ]
