-- ===== src/Blob/Decode/Deltas.antt =====
-- A frame of a delta is made that is ready for the range that is asked for: `DeltaFrame::new`.
use fornacast.Prelude.{
  ℕ, ◌+◌, ◌-◌, ◌≤◌, ◌<◌, ◌≡◌, refl, sym, ap, ◌∙◌, max, none, some, subst, List, ◌∷◌, length, ok,
  ◌==◌, arith,
}
use fornacast.Prelude.Bytes.{Bytes}
use fornacast.Prelude.Word.{u64_mod}
use fornacast.Blob.Failure.{corrupt}
use fornacast.Blob.Budget.{DecodeWorkBudget}
use fornacast.Blob.Run.{Later-refl, Bounded}
use fornacast.Blob.Run.Keeps.{Keeps, Keeps-bind, Keeps-try, Keeps-ensure}
use fornacast.Blob.Stream.Inflating.{Inflation}
use fornacast.Blob.Stream.Refills.{Pending}
use fornacast.Blob.Stream.Reads.{Output}
use fornacast.Blob.Delta.{read_list, decode_delta_varint}
use fornacast.Blob.Objects.{
  ObjectSource, ObjectMetadata, ensure_metadata, delta_base, OpenedPack, compressed, delta_role,
}
use fornacast.Blob.Frames.{from_pack, read_delta_header, new_frame}
use fornacast.Blob.Frames.Meaning.{Produces}
use fornacast.Blob.Frames.Pieces.{read_delta_header-Pending}
use fornacast.Blob.Decode.Sources.{Whole, Generous, from_pack-Pending, from_pack-Succeeds}
use fornacast.Blob.Decode.Contents.{
  Repository, Content, Sound, EntryContent, EntrySound, ensure_metadata-Succeeds,
}
use fornacast.Blob.Decode.Unique.{Content-unique, Sound-Content}
use fornacast.Blob.Decode.Ranges.{Ranged}
use fornacast.Blob.Frames.Copies.{Produces-nothing}

module _ {D : Type 0} (z : Inflation D) (G : Type 0) (repo : Repository) {S : Type 0}
    (out : Output S) where
  pub new_frame-Ranged :
      (source : ObjectSource) (opened : OpenedPack) (expected : ObjectMetadata)
      (start size spare n : ℕ) (stack : List ObjectSource) (whole bytes : Bytes) (output : S)
      (b : DecodeWorkBudget)
      → Bounded b
      → compressed opened ≡ ok bytes
      → EntryContent z
          (λ v base. Content z repo n v.base base)
          repo.guarded
          source
          none
          (z.plain bytes)
          whole
      → (G
          → Whole z bytes
            × (opened.entry.decompressed_size ≡ length (z.plain bytes))
            × EntrySound z
                (λ v base. Sound z repo n (source ∷ stack) v.base v.metadata base)
                repo.guarded
                source
                none
                (z.plain bytes)
                expected
                whole
            × Generous repo.tracker
            × (start + size ≤ expected.size)
            × out.Room output (size + spare))
      → Keeps G b
          (λ frame.
            Ranged z G repo out (source ∷ stack) whole start size output spare (output, some frame))
          (new_frame z.inflater z.read source opened expected
            (record { start = start; end = start + size })
            repo.tracker
            repo.guarded
            b)
  unfolding new_frame
  new_frame-Ranged source opened expected start size spare n stack whole bytes output b bound e
        (v, base, verified, is_base, (behind, body, m, first, second, makes)) fine =
      Keeps-try G (delta_base repo.guarded source) _ _ b (λ g. rw verified tt)
        λ w found.
          let same_base : w ≡ v = cc in
          let known : G
              → Sound z repo n (source ∷ stack) v.base v.metadata base
                × (expected.kind ≡ v.metadata.kind)
                × (expected.size ≡ length whole)
                × (v.metadata.size ≡ length base)
                × (length base < u64_mod)
                × (length whole < u64_mod) =
            λ g.
              let (_, _, (u, base', is_u, sound, _, (kinds, sizes), bases, small, fits), _, _, _) =
                fine g in
              let same : u ≡ v = cc in
              let sound' : Sound z repo n (source ∷ stack) v.base v.metadata base' =
                rw same at sound in
              let unique =
                Content-unique z repo n n v.base base' base
                  (Sound-Content z repo n (source ∷ stack) v.base v.metadata base' sound')
                  is_base in
              (
                rw unique at sound',
                rw same at kinds,
                sizes,
                rw (same, unique) at bases,
                rw unique at small,
                fits,
              ) in
          Keeps-try G (from_pack z.inflater z.read opened repo.tracker delta_role) _ _ b
            (λ g. from_pack-Succeeds z opened repo.tracker delta_role bytes e (fine g).3)
            λ s made.
              Keeps-bind G
                (λ r.
                  (behind' body' : Bytes) × (decode_delta_varint corrupt read_list (z.plain bytes)
                    ≡ ok (r.0.0, behind'))
                  × (decode_delta_varint corrupt read_list behind' ≡ ok (r.0.1, body'))
                  × Pending z G (length (z.plain bytes)) r.1 body')
                _ (read_delta_header z.inflater z.read s) _ b
                (read_delta_header-Pending z G (length (z.plain bytes)) s (z.plain bytes) b bound
                  (from_pack-Pending z G opened repo.tracker delta_role bytes s e
                    (λ g. ((fine g).0, (fine g).1)) made)
                  λ g. (length base, length whole, behind, body, first, second))
                λ r b3 l3 (behind', body', first', second', now).
                  let same_behind : behind' ≡ behind = cc in
                  let same_base_size : r.0.0 ≡ length base = cc (sym first' ∙ first) in
                  let second'' = rw same_behind at second' in
                  let same_body : body' ≡ body = cc (sym second'' ∙ second) in
                  let same_size : r.0.1 ≡ length whole = cc (sym second'' ∙ second) in
                  let sizes : G → w.metadata.size ≡ length base =
                    λ g. ap (λ x. x.metadata.size) same_base ∙ (known g).3 in
                  Keeps-ensure G (r.0.0 == w.metadata.size) "delta declares another base size" _ _
                    b3 (λ g. let declared = sizes g in ground arith)
                    λ e4.
                      let actual : ObjectMetadata = record {
                        kind = w.metadata.kind;
                        size = r.0.1;
                      } in
                      Keeps-try G (ensure_metadata expected actual) _ _ b3
                        (λ g.
                          let (_, kinds, size, _, _, _) = known g in
                          ensure_metadata-Succeeds expected actual (
                            kinds ∙ ap (λ x. x.metadata.kind) (sym same_base),
                            size ∙ sym same_size,
                          ))
                        λ t e5.
                          let fits : start + size - max 0 start ≡ size = omega arith in
                          let at_start : start - 0 ≡ start = omega arith in
                          (
                            Later-refl b3,
                            (
                              n,
                              base,
                              subst (λ x. Content z repo n x.base base) (sym same_base) is_base,
                              (
                                length (z.plain bytes),
                                body',
                                now,
                                λ h.
                                    (m, subst (λ x. Produces m base x whole) (sym same_body) makes),
                                λ g.
                                    let (_, _, long, _, small, small') = known g in
                                    let inside = (fine g).4 in
                                    (
                                      (
                                        sizes g,
                                        small,
                                        omega arith,
                                        omega (arith, inside, long, same_size),
                                        omega (arith, small', same_size),
                                      ),
                                      omega (arith, same_size),
                                      λ h.
                                          Produces-nothing m base whole
                                            (rw (sym same_body ∙ h) at makes),
                                    ),
                              ),
                              rw (fits, at_start) refl,
                              refl,
                              λ g. (
                                subst (λ x. Sound z repo n (source ∷ stack) x.base x.metadata base)
                                    (sym same_base) (known g).0,
                                (fine g).5,
                              ),
                            ),
                          )
