-- ===== src/Blob/Decode/Ranges.antt =====
-- A range of a plain object is appended: `append_stream`, and `run_source` of a loose object.
use fornacast.Prelude.{
  ℕ, suc, ◌+◌, ◌≤◌, ◌≡◌, refl, sym, ap, ◌∙◌, Bool-cases, inl, inr, Option, none, some, List, [],
  ◌∷◌, ◌++◌, length, length-drop, take, drop, ok, ◌==◌, arith,
}
use fornacast.Prelude.Bytes.{Bytes}
use fornacast.Prelude.Slices.{drop_all}
use fornacast.Blob.Budget.{DecodeWorkBudget, charge_source_open}
use fornacast.Blob.Run.{
  Gives, Gives-bind, Gives-imply, Later, Later-refl, Later-trans, Later-Bounded, Bounded, work,
  charge_source_open-Later,
}
use fornacast.Blob.Run.Keeps.{Keeps, Keeps-bind, Keeps-try}
use fornacast.Blob.Stream.{InflatedStream, skip_exact, append_exact, finish_exact}
use fornacast.Blob.Stream.Inflating.{Inflation}
use fornacast.Blob.Stream.Refills.{Pending}
use fornacast.Blob.Stream.Reads.{Output, skip_exact-Pending, finish_exact-Pending}
use fornacast.Blob.Stream.Appends.{append_exact-Pending}
use fornacast.Blob.Objects.{ObjectSource, loose, ObjectMetadata, ensure_metadata, BufferRole}
use fornacast.Blob.Loose.{read_loose_header}
use fornacast.Blob.Loose.Format.{Header, Header-free, Header-unique, first_separator}
use fornacast.Blob.Loose.Whole.{read_loose_header-Header}
use fornacast.Blob.Frames.{DeltaFrame, from_file}
use fornacast.Blob.Frames.Copies.{Ready, still_wanted}
use fornacast.Blob.Decode.{append_stream, run_source}
use fornacast.Blob.Decode.Sources.{Generous, from_file-Pending, from_file-Succeeds}
use fornacast.Blob.Decode.Contents.{Repository, Content, Sound, ensure_metadata-Succeeds}

-- A source has been opened, within the limit.
abbrev pub Opened : DecodeWorkBudget → DecodeWorkBudget → Type 0
Opened b b' =
    (b.used.source_opens + 1 ≤ b'.used.source_opens)
    × (b.used.source_opens + 1 ≤ b.limits.source_opens)

module _ {D : Type 0} (z : Inflation D) (G : Type 0) (repo : Repository) {S : Type 0}
    (out : Output S) where
  pub append_stream-Exact :
      (total : ℕ) (expected : ObjectMetadata) (start size spare : ℕ) (s : InflatedStream D)
      (output : S) (left : Bytes) (b : DecodeWorkBudget)
      → Bounded b
      → Pending z G total s left
      → (G
          → (start + size ≤ length left)
            × (expected.size ≡ length left)
            × out.Room output (size + spare))
      → Keeps G b
          (λ o.
            (out.content o ≡ out.content output ++ take size (drop start left))
            × (G → out.Room o spare))
          (append_stream z.inflater z.read repo.storage repo.guarded repo.tracker out.sink expected
            start size s output b)
  unfolding append_stream
  append_stream-Exact total expected start size spare s output left b bound pending fine =
      Keeps-bind G (λ t. (start ≤ length left) × Pending z G total t (drop start left)) _
        (skip_exact z.inflater z.read start s) _ b
        (skip_exact-Pending z G total start s left b bound pending
          λ g. let fits = (fine g).0 in omega (arith, fits))
        λ t b1 l1 (h, now).
          let bound1 = Later-Bounded b b1 l1 bound in
          let long = length-drop start left in
          Keeps-bind G
            (λ r.
              (size ≤ length (drop start left))
              × Pending z G total r.0 (drop size (drop start left))
              × (out.content r.1 ≡ out.content output ++ take size (drop start left))
              × (G → out.Room r.1 spare))
            _ (append_exact z.inflater z.read out.sink size t output) _ b1
            (append_exact-Pending z G total out size spare t output (drop start left) b1 bound1 now
              λ g. let (fits, _, room) = fine g in (omega (arith, fits, long), room))
            λ r b2 l2 (h', now', added, room). elim (Bool-cases (start + size == expected.size)) [
              | inr part ↦ rw part (Later-refl b2, (added, room))
              | inl whole ↦
                  let all : start + size ≡ expected.size = ground arith in
                  rw whole (
                    Keeps-bind G (λ v. drop size (drop start left) ≡ []) _
                      (finish_exact z.inflater z.read r.0) _ b2
                      (finish_exact-Pending z G total r.0 (drop size (drop start left)) b2
                        (Later-Bounded b1 b2 l2 bound1) now'
                        λ g.
                          let same = (fine g).1 in
                          drop_all size (drop start left) (omega (arith, all, same, long)))
                      λ v b3 l3 e. (Later-refl b3, (added, room)))
            ]

  -- What is assumed of a range of a sound source.
  abbrev pub Fine :
      ℕ → List ObjectSource → ObjectSource → ObjectMetadata → Bytes → ℕ → ℕ → S → ℕ → Type 0
  Fine n stack source expected whole start size output spare =
      Sound z repo n stack source expected whole
      × Generous repo.tracker
      × (start + size ≤ expected.size)
      × out.Room output (size + spare)

  -- The range is appended, or a frame is ready to give it.
  abbrev pub Ranged : List ObjectSource → Bytes → ℕ → ℕ → S → ℕ → S × Option (DeltaFrame D) → Type 0
  Ranged entered whole start size output spare (output', none) =
      (out.content output' ≡ out.content output ++ take size (drop start whole))
      × (G → out.Room output' spare)
  Ranged entered whole start size output spare (output', some frame) =
      (n : ℕ) × (base : Bytes) × Content z repo n frame.base base
      × Ready z G out base frame whole
      × (still_wanted frame whole ≡ take size (drop start whole))
      × (out.content output' ≡ out.content output)
      × (G
          → Sound z repo n entered frame.base frame.base_metadata base
            × out.Room output' (size + spare))

  -- The header that is there is the one that is read, if the object is sound.
  same-Header :
      (plain front body whole : Bytes) (found expected : ObjectMetadata) (n : ℕ)
      (stack : List ObjectSource) (db id bytes : Bytes)
      → plain ≡ z.plain bytes
      → repo.storage.loose_files db id ≡ ok bytes
      → plain ≡ front ++ 0 ∷ body
      → Header found.kind found.size front
      → Sound z repo (suc n) stack (loose db id) expected whole
      → (expected.kind ≡ found.kind) × (expected.size ≡ found.size) × (expected.size ≡ length whole)
  same-Header plain front body whole found expected n stack db id bytes is_plain found_bytes split
        header (enters, bytes', front', stored, split', header', long, small, is_whole, reads) =
      let same : bytes' ≡ bytes = cc in
      let (kinds, sizes, _, _) =
        Header-unique expected.kind found.kind expected.size found.size front' front whole body
          header' header (sym split' ∙ ap z.plain same ∙ sym is_plain ∙ split) in
      (kinds, sizes, sym long)

  pub run_loose-Ranged :
      (db id : Bytes) (expected : ObjectMetadata) (start size spare : ℕ) (role : BufferRole)
      (output : S) (n : ℕ) (stack : List ObjectSource) (whole : Bytes) (b : DecodeWorkBudget)
      → Bounded b
      → Content z repo (suc n) (loose db id) whole
      → (G → Fine (suc n) stack (loose db id) expected whole start size output spare)
      → Gives G
          (λ r b'.
            Later b b' × Opened b b' × Ranged (loose db id ∷ stack) whole start size output spare r)
          (run_source z.inflater z.read repo.storage repo.guarded repo.tracker out.sink
            (loose db id)
            expected
            start
            size
            role
            output
            b)
  unfolding run_source
  run_loose-Ranged db id expected start size spare role output n stack whole b bound
        (bytes, front, stored, split, clean) fine =
      let RangedHere = Ranged (loose db id ∷ stack) whole start size output spare in
      Gives-bind G
        (λ u b'.
          Later b b'
          × (b'.used.source_opens ≡ b.used.source_opens + 1)
          × (b'.used.source_opens ≤ b'.limits.source_opens))
        _ (work (charge_source_open 1)) _ b (charge_source_open-Later G b)
        λ u b1 (l1, one, within).
          let limit : b1.limits.source_opens ≡ b.limits.source_opens =
            ap (λ w. w.source_opens) l1.0 in
          let bound1 = Later-Bounded b b1 l1 bound in
          Gives-imply G (λ r b'. Later b1 b' × RangedHere r)
            (λ r b'. Later b b' × Opened b b' × RangedHere r) _
            (λ r b' (l, done). (
              Later-trans b b1 b' l1 l,
              (omega (arith, one, l.2), omega (arith, one, within, limit)),
              done,
            ))
            (Keeps-try G (repo.storage.loose_files db id) RangedHere _ b1 (λ g. rw stored tt)
              λ x found.
                let same_bytes : x ≡ bytes = cc in
                let total = length (z.plain x) in
                Keeps-try G (from_file z.inflater z.read x repo.tracker role) RangedHere _ b1
                  (λ g. from_file-Succeeds z x repo.tracker role (fine g).1)
                  λ t made.
                    Keeps-bind G
                      (λ r.
                        (front' body : Bytes) × (z.plain x ≡ front' ++ 0 ∷ body)
                        × Header r.0.kind r.0.size front'
                        × Pending z G total r.1 body)
                      RangedHere (read_loose_header z.inflater z.read t) _ b1
                      (read_loose_header-Header z G total t (z.plain x) b1 bound1
                        (from_file-Pending z G x repo.tracker role t
                          (λ g.
                            let (_, y, _, stored', _, _, _, _, is_whole, reads) = (fine g).0 in
                            let same : y ≡ x = cc in (rw same at is_whole, reads))
                          made)
                        λ g.
                          let (_, y, front', stored', split', header, long, small, _, _) =
                            (fine g).0 in
                          let same : y ≡ x = cc in
                          (
                            expected.kind,
                            expected.size,
                            front',
                            whole,
                            ap z.plain (sym same) ∙ split',
                            header,
                            long,
                            refl,
                            rw same at small,
                          ))
                      λ r b2 l2 (front', body, split', header, now).
                        let same : body ≡ whole =
                          (first_separator 0 front' front body whole
                            (Header-free r.0.kind r.0.size front' header) clean
                            (sym split' ∙ ap z.plain same_bytes ∙ split)).1 in
                        let known = λ (g : G).
                          same-Header (z.plain x) front' body whole r.0 expected n stack db id x
                            refl found split' header (fine g).0 in
                        Keeps-try G (ensure_metadata expected r.0) RangedHere _ b2
                          (λ g.
                            let (kinds, sizes, _) = known g in
                            ensure_metadata-Succeeds expected r.0 (kinds, sizes))
                          λ v e5.
                            Keeps-bind G
                              (λ o.
                                (out.content o ≡ out.content output ++ take size (drop start body))
                                × (G → out.Room o spare))
                              RangedHere
                              (append_stream z.inflater z.read repo.storage repo.guarded
                                repo.tracker out.sink expected start size r.1 output)
                              _ b2
                              (append_stream-Exact total expected start size spare r.1 output body
                                b2 (Later-Bounded b1 b2 l2 bound1) now
                                λ g.
                                  let (_, _, inside, room) = fine g in
                                  let (_, _, long) = known g in
                                  (
                                    omega (arith, inside, long, ap length same),
                                    omega (arith, long, ap length same),
                                    room,
                                  ))
                              λ o b3 l3 (added, room). (
                                Later-refl b3,
                                (
                                  added
                                      ∙ ap (λ x. out.content output ++ take size (drop start x))
                                          same,
                                  room,
                                ),
                              ))
