-- ===== src/Blob/Decode/Contents.antt =====
-- What an object of the repository is, through its chain of deltas, and when everything that the
-- decoder of bounded_blob.rs meets on the way is sound.
use fornacast.Prelude.{
  ℕ, zero, suc, ◌<◌, ◌≡◌, ◌≢◌, sym, ap, false, Option, none, some, List, ◌∷◌, ◌++◌, length,
  length-append, ok, All, arith,
}
use fornacast.Prelude.Bytes.{Bytes}
use fornacast.Prelude.Word.{u64_mod}
use fornacast.Receive.PackHeader.{Kind}
use fornacast.Blob.Run.{Succeeds}
use fornacast.Blob.Stream.Inflating.{Inflation, Reads}
use fornacast.Blob.Objects.{
  ObjectSource, loose, packed, ObjectMetadata, ensure_metadata, GuardedMetadata, VerifiedDeltaBase,
  delta_base, pack_entry_end, PackFile, OpenedPack, compressed, Storage, opened_pack_from_parts,
  contains_source, max_chain_depth, enter_source, AllocationTracker,
}
use fornacast.Blob.Loose.Format.{Header}
use fornacast.Blob.Frames.Meaning.{Patches}
use fornacast.Blob.Decode.Sources.{Whole}

-- The parts of a repository, opened and guarded, and the memory that is allowed.
pub record Repository : Type 0 where
  pub storage : Storage
  pub guarded : GuardedMetadata
  pub tracker : AllocationTracker

-- A source may be entered: the chain is not too deep and does not come back to it.
abbrev pub Enters : ObjectSource → List ObjectSource → Type 0
Enters source stack = (length stack < max_chain_depth) × (contains_source source stack ≡ false)

pub enter_source-Succeeds :
    (source : ObjectSource) (stack : List ObjectSource)
    → Enters source stack
    → Succeeds (enter_source source stack)
unfolding enter_source
enter_source-Succeeds source stack (shallow, fresh) = ground arith

pub enter_source-entered :
    (source : ObjectSource) (stack entered : List ObjectSource)
    → enter_source source stack ≡ ok entered
    → entered ≡ source ∷ stack
unfolding enter_source
enter_source-entered source stack entered e = ground arith

abbrev pub Matches : ObjectMetadata → Kind → ℕ → Type 0
Matches expected kind size = (expected.kind ≡ kind) × (expected.size ≡ size)

pub ensure_metadata-Succeeds :
    (expected actual : ObjectMetadata)
    → Matches expected actual.kind actual.size
    → Succeeds (ensure_metadata expected actual)
unfolding ensure_metadata
ensure_metadata-Succeeds expected actual (kinds, sizes) = rw (kinds, sizes) ground arith

module _ {D : Type 0} (z : Inflation D) where
  -- An entry of a pack, from what it is decoded to, and the same with its soundness.
  abbrev pub EntryContent :
      (VerifiedDeltaBase → Bytes → Type 0)
      → GuardedMetadata
      → ObjectSource
      → Option Kind
      → Bytes
      → Bytes
      → Type 0
  EntryContent base_content guarded source (some kind) decoded content = decoded ≡ content
  EntryContent base_content guarded source none decoded content =
      (v : VerifiedDeltaBase) × (base : Bytes) × (delta_base guarded source ≡ ok v)
      × base_content v base
      × Patches base decoded content

  abbrev pub EntrySound :
      (VerifiedDeltaBase → Bytes → Type 0)
      → GuardedMetadata
      → ObjectSource
      → Option Kind
      → Bytes
      → ObjectMetadata
      → Bytes
      → Type 0
  EntrySound base_sound guarded source (some kind) decoded expected content =
      (decoded ≡ content) × Matches expected kind (length content)
  EntrySound base_sound guarded source none decoded expected content =
      (v : VerifiedDeltaBase) × (base : Bytes) × (delta_base guarded source ≡ ok v)
      × base_sound v base
      × Patches base decoded content
      × Matches expected v.metadata.kind (length content)
      × (v.metadata.size ≡ length base)
      × (length base < u64_mod)
      × (length content < u64_mod)

  -- The content of an object, with `n` objects in its chain of deltas at most: what stands behind
  -- the header of a loose object, an entry of a pack, or what a delta makes of its base.
  abbrev pub Content : Repository → ℕ → ObjectSource → Bytes → Type 0
  Content repo zero source content = ⊥
  Content repo (suc n) (loose db id) content =
      (bytes front : Bytes) × (repo.storage.loose_files db id ≡ ok bytes)
      × (z.plain bytes ≡ front ++ 0 ∷ content)
      × All (λ x. x ≢ 0) front
  Content repo (suc n) (packed path offset) content =
      (entry_end : ℕ) × (pack : PackFile) × (opened : OpenedPack) × (bytes : Bytes)
      × (pack_entry_end repo.guarded (packed path offset) ≡ ok entry_end)
      × (repo.storage.packs path ≡ ok pack)
      × (opened_pack_from_parts offset pack entry_end ≡ ok opened)
      × (compressed opened ≡ ok bytes)
      × EntryContent (λ v base. Content repo n v.base base) repo.guarded (packed path offset)
          opened.entry.kind (z.plain bytes) content

  -- The object is sound: it has this content and the metadata that is expected of it, its compressed
  -- bytes are whole streams, its sizes fit 64 bits, and its chain of deltas neither goes too deep nor
  -- comes back to a source that is open.
  abbrev pub Sound :
      Repository → ℕ → List ObjectSource → ObjectSource → ObjectMetadata → Bytes → Type 0
  Sound repo zero stack source expected content = ⊥
  Sound repo (suc n) stack (loose db id) expected content =
      Enters (loose db id) stack
      × (bytes front : Bytes) × (repo.storage.loose_files db id ≡ ok bytes)
      × (z.plain bytes ≡ front ++ 0 ∷ content)
      × Header expected.kind expected.size front
      × (length content ≡ expected.size)
      × (length (z.plain bytes) < u64_mod)
      × Whole z bytes
      × Reads z.read
  Sound repo (suc n) stack (packed path offset) expected content =
      Enters (packed path offset) stack
      × (entry_end : ℕ) × (pack : PackFile) × (opened : OpenedPack) × (bytes : Bytes)
      × (pack_entry_end repo.guarded (packed path offset) ≡ ok entry_end)
      × (repo.storage.packs path ≡ ok pack)
      × (opened_pack_from_parts offset pack entry_end ≡ ok opened)
      × (compressed opened ≡ ok bytes)
      × Whole z bytes
      × (opened.entry.decompressed_size ≡ length (z.plain bytes))
      × (length content < u64_mod)
      × EntrySound (λ v base. Sound repo n (packed path offset ∷ stack) v.base v.metadata base)
          repo.guarded (packed path offset) opened.entry.kind (z.plain bytes) expected content

  pub Sound-Enters :
      (repo : Repository) (n : ℕ) (stack : List ObjectSource) (source : ObjectSource)
      (expected : ObjectMetadata) (content : Bytes)
      → Sound repo n stack source expected content
      → Enters source stack
  Sound-Enters repo zero stack source expected content sound = absurd sound
  Sound-Enters repo (suc n) stack (loose db id) expected content sound = sound.0
  Sound-Enters repo (suc n) stack (packed path offset) expected content sound = sound.0

  entry_size :
      (base_sound : VerifiedDeltaBase → Bytes → Type 0) (guarded : GuardedMetadata)
      (source : ObjectSource) (kind : Option Kind) (decoded : Bytes) (expected : ObjectMetadata)
      (content : Bytes)
      → EntrySound base_sound guarded source kind decoded expected content
      → expected.size ≡ length content
  entry_size base_sound guarded source (some kind) decoded expected content (_, (_, sizes)) = sizes
  entry_size base_sound guarded source none decoded expected content
        (v, base, is_base, deeper, patches, (_, sizes), _, _, _) =
      sizes

  pub Sound-size :
      (repo : Repository) (n : ℕ) (stack : List ObjectSource) (source : ObjectSource)
      (expected : ObjectMetadata) (content : Bytes)
      → Sound repo n stack source expected content
      → expected.size ≡ length content
  Sound-size repo zero stack source expected content sound = absurd sound
  Sound-size repo (suc n) stack (loose db id) expected content (_, _, _, _, _, _, long, _, _, _) =
      sym long
  Sound-size repo (suc n) stack (packed path offset) expected content
        (_, _, _, opened, bytes, _, _, _, _, _, _, _, entry) =
      entry_size (λ v base. Sound repo n (packed path offset ∷ stack) v.base v.metadata base)
        repo.guarded (packed path offset) opened.entry.kind (z.plain bytes) expected content entry

  pub Sound-small :
      (repo : Repository) (n : ℕ) (stack : List ObjectSource) (source : ObjectSource)
      (expected : ObjectMetadata) (content : Bytes)
      → Sound repo n stack source expected content
      → length content < u64_mod
  Sound-small repo zero stack source expected content sound = absurd sound
  Sound-small repo (suc n) stack (loose db id) expected content
        (_, _, front, _, split, _, _, small, _, _) =
      omega (arith, small, ap length split, length-append front (0 ∷ content))
  Sound-small repo (suc n) stack (packed path offset) expected content
        (_, _, _, _, _, _, _, _, _, _, _, small, _) =
      small
