-- ===== src/Blob/Decode/Entered.antt =====
-- A source that is entered, loose or in a pack: `open_guarded_packed` and `run_source`.
use fornacast.Prelude.{
  ℕ, zero, suc, ◌+◌, ◌≤◌, ◌≡◌, refl, sym, ap, ◌∙◌, Option, none, some, List, ◌∷◌, ◌++◌, length,
  take, drop, ok, arith,
}
use fornacast.Prelude.Bytes.{Bytes}
use fornacast.Receive.PackHeader.{Kind}
use fornacast.Blob.Budget.{DecodeWorkBudget, charge_source_open}
use fornacast.Blob.Run.{
  Gives, Gives-bind, Gives-imply, Later, Later-refl, Later-trans, Later-Bounded, Bounded, work,
  charge_source_open-Later,
}
use fornacast.Blob.Run.Keeps.{Keeps, Keeps-bind, Keeps-try}
use fornacast.Blob.Stream.Inflating.{Inflation}
use fornacast.Blob.Stream.Reads.{Output}
use fornacast.Blob.Delta.{Range}
use fornacast.Blob.Objects.{
  ObjectSource, loose, packed, ObjectMetadata, ensure_metadata, pack_entry_end, PackFile,
  OpenedPack, compressed, open_pack_data, opened_pack_from_parts, open_guarded_packed, BufferRole,
}
use fornacast.Blob.Frames.{from_pack, new_frame}
use fornacast.Blob.Decode.{append_stream, run_source, run_packed}
use fornacast.Blob.Decode.Sources.{Whole, Generous, from_pack-Pending, from_pack-Succeeds}
use fornacast.Blob.Decode.Contents.{
  Repository, EntryContent, EntrySound, Content, Sound, ensure_metadata-Succeeds,
}
use fornacast.Blob.Decode.Ranges.{append_stream-Exact, Opened, Fine, Ranged, run_loose-Ranged}
use fornacast.Blob.Decode.Deltas.{new_frame-Ranged}

module _ {D : Type 0} (z : Inflation D) (G : Type 0) (repo : Repository) {S : Type 0}
    (out : Output S) where
  -- The entry that is found is the one that the guarded metadata names.
  open_guarded_packed-Found :
      (path : Bytes) (offset entry_end : ℕ) (pack : PackFile) (opened : OpenedPack)
      (b : DecodeWorkBudget)
      → pack_entry_end repo.guarded (packed path offset) ≡ ok entry_end
      → repo.storage.packs path ≡ ok pack
      → opened_pack_from_parts offset pack entry_end ≡ ok opened
      → Gives G
          (λ o b'. Later b b' × Opened b b' × (o ≡ opened))
          (open_guarded_packed repo.storage (packed path offset) repo.guarded b)
  unfolding open_guarded_packed open_pack_data
  open_guarded_packed-Found path offset entry_end pack opened b ends found parts = rw ends (
      Gives-bind G (λ p b'. Later b b' × Opened b b' × (p ≡ pack)) _
        (open_pack_data repo.storage path) _ b
        (Gives-bind G
          (λ u b'.
            Later b b'
            × (b'.used.source_opens ≡ b.used.source_opens + 1)
            × (b'.used.source_opens ≤ b'.limits.source_opens))
          (λ p b'. Later b b' × Opened b b' × (p ≡ pack)) (work (charge_source_open 1)) _ b
          (charge_source_open-Later G b)
          λ u b1 (l1, one, within).
            let limit : b1.limits.source_opens ≡ b.limits.source_opens =
              ap (λ w. w.source_opens) l1.0 in
            rw found (l1, (omega (arith, one), omega (arith, one, within, limit)), refl))
        λ p b2 (l2, charged, same). rw (same, parts) (l2, charged, refl))

  run_packed-Ranged :
      (source : ObjectSource) (opened : OpenedPack) (kind : Option Kind) (expected : ObjectMetadata)
      (start size spare n : ℕ) (stack : List ObjectSource) (role : BufferRole) (output : S)
      (whole bytes : Bytes) (b : DecodeWorkBudget)
      → Bounded b
      → compressed opened ≡ ok bytes
      → EntryContent z
          (λ v base. Content z repo n v.base base)
          repo.guarded
          source
          kind
          (z.plain bytes)
          whole
      → (G
          → Whole z bytes
            × (opened.entry.decompressed_size ≡ length (z.plain bytes))
            × EntrySound z
                (λ v base. Sound z repo n (source ∷ stack) v.base v.metadata base)
                repo.guarded
                source
                kind
                (z.plain bytes)
                expected
                whole
            × Generous repo.tracker
            × (start + size ≤ expected.size)
            × out.Room output (size + spare))
      → Keeps G b (Ranged z G repo out (source ∷ stack) whole start size output spare) (
          run_packed z.inflater z.read repo.storage repo.guarded repo.tracker out.sink source opened
            kind expected start size role output b)
  unfolding run_packed
  run_packed-Ranged source opened (some kind) expected start size spare n stack role output whole
        bytes b bound e is_content fine =
      let actual : ObjectMetadata = record { kind = kind; size = opened.entry.decompressed_size } in
      let RangedHere = Ranged z G repo out (source ∷ stack) whole start size output spare in
      let total = length (z.plain bytes) in
      Keeps-try G (ensure_metadata expected actual) RangedHere _ b
        (λ g.
          let (_, size_is, (same, (kinds, sizes)), _, _, _) = fine g in
          ensure_metadata-Succeeds expected actual
            (kinds, sizes ∙ ap length (sym same) ∙ sym size_is))
        λ t e1.
          Keeps-try G (from_pack z.inflater z.read opened repo.tracker role) RangedHere _ b
            (λ g. from_pack-Succeeds z opened repo.tracker role bytes e (fine g).3)
            λ s made.
              Keeps-bind G
                (λ o.
                  (out.content o ≡ out.content output ++ take size (drop start (z.plain bytes)))
                  × (G → out.Room o spare))
                RangedHere
                (append_stream z.inflater z.read repo.storage repo.guarded repo.tracker out.sink
                  expected start size s output)
                _ b
                (append_stream-Exact z G repo out total expected start size spare s output
                  (z.plain bytes) b bound
                  (from_pack-Pending z G opened repo.tracker role bytes s e
                    (λ g. ((fine g).0, (fine g).1)) made)
                  λ g.
                    let (_, _, (same, (kinds, sizes)), _, inside, room) = fine g in
                    (
                      omega (arith, inside, sizes, ap length same),
                      sizes ∙ ap length (sym same),
                      room,
                    ))
                λ o b3 l3 (added, room). (
                  Later-refl b3,
                  (
                    added ∙ ap (λ x. out.content output ++ take size (drop start x)) is_content,
                    room,
                  ),
                )
  run_packed-Ranged source opened none expected start size spare n stack role output whole bytes b
        bound e is_content fine =
      let requested : Range = record { start = start; end = start + size } in
      let RangedHere = Ranged z G repo out (source ∷ stack) whole start size output spare in
      Keeps-bind G (λ frame. RangedHere (output, some frame)) RangedHere
        (new_frame z.inflater z.read source opened expected requested repo.tracker repo.guarded) _ b
        (new_frame-Ranged z G repo out source opened expected start size spare n stack whole bytes
          output b bound e is_content fine)
        λ frame b1 l1 ranged. (Later-refl b1, ranged)

  pub run_source-Ranged :
      (source : ObjectSource) (expected : ObjectMetadata) (start size spare : ℕ) (role : BufferRole)
      (output : S) (n : ℕ) (stack : List ObjectSource) (whole : Bytes) (b : DecodeWorkBudget)
      → Bounded b
      → Content z repo n source whole
      → (G → Fine z G repo out n stack source expected whole start size output spare)
      → Gives G
          (λ r b'.
            Later b b'
            × Opened b b'
            × Ranged z G repo out (source ∷ stack) whole start size output spare r)
          (run_source z.inflater z.read repo.storage repo.guarded repo.tracker out.sink source
            expected start size role output b)
  run_source-Ranged source expected start size spare role output zero stack whole b bound is_content
        fine =
      absurd is_content
  run_source-Ranged (loose db id) expected start size spare role output (suc n) stack whole b bound
        is_content fine =
      run_loose-Ranged z G repo out db id expected start size spare role output n stack whole b
        bound is_content fine
  run_source-Ranged (packed path offset) expected start size spare role output (suc n) stack whole b
        bound (entry_end, pack, opened, bytes, ends, found, parts, e, is_content) fine =
      unfold run_source in
      let source = packed path offset in
      let RangedHere = Ranged z G repo out (source ∷ stack) whole start size output spare in
      Gives-bind G (λ o b'. Later b b' × Opened b b' × (o ≡ opened))
        (λ r b'. Later b b' × Opened b b' × RangedHere r)
        (open_guarded_packed repo.storage source repo.guarded) _ b
        (open_guarded_packed-Found path offset entry_end pack opened b ends found parts)
        λ o b1 (l1, charged, same).
          Gives-imply G (λ r b'. Later b1 b' × RangedHere r) _
            (run_packed z.inflater z.read repo.storage repo.guarded repo.tracker out.sink source o
              o.entry.kind expected start size role output b1)
            (λ r b' (l, ranged).
              (Later-trans b b1 b' l1 l, (omega (arith, charged.0, l.2), charged.1), ranged))
            (rw same (
              run_packed-Ranged source opened opened.entry.kind expected start size spare n stack
                role output whole bytes b1 (Later-Bounded b b1 l1 bound) e is_content
                λ g.
                  let (sound, generous, inside, room) = fine g in
                  let (
                    _, entry_end', pack', opened', bytes', ends', found', parts', e', is_whole,
                    size_is, _, entry,
                  ) =
                    sound in
                  let same_end : entry_end' ≡ entry_end = cc in
                  let same_pack : pack' ≡ pack = cc in
                  let same_opened : opened' ≡ opened = cc (rw (same_end, same_pack) at parts') in
                  let same_bytes : bytes' ≡ bytes = cc (rw same_opened at e') in
                  (
                    rw same_bytes at is_whole,
                    rw (same_opened, same_bytes) at size_is,
                    rw (same_opened, same_bytes) at entry,
                    generous,
                    inside,
                    room,
                  )))
