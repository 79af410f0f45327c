-- ===== src/Blob/Objects.antt =====
-- Where an object stands and what is known of it: `ObjectSource`, `ObjectMetadata`,
-- `GuardedMetadata`, `OpenedPack` and `AllocationTracker` of bounded_blob.rs. The packs and files
-- are given by what gix and the file system return for their paths.
use fornacast.Prelude.{
  ℕ, min, Bool, false, ◌&&◌, ◌||◌, Option, none, some, List, [], ◌∷◌, length, ok, err, ltb, leb,
  ◌==◌, if◌then◌else◌,
}
use fornacast.Prelude.Bytes.{Bytes, bytes_eq}
use fornacast.Receive.PackHeader.{Kind, object_type_id}
use fornacast.Blob.Failure.{DecodeResult, corrupt, ok_or}
use fornacast.Blob.Budget.{stream_buffer_target, charge_source_open}
use fornacast.Blob.Run.{Decode, fail, lift, work, ◌>>=◌, ◌>>◌}
use fornacast.Blob.Stream.{ensure}

pub data ObjectSource : Type 0 where
  loose : Bytes → Bytes → ObjectSource
  packed : Bytes → ℕ → ObjectSource

abbrev pub same_source : ObjectSource → ObjectSource → Bool
same_source (loose db id) (loose db' id') = bytes_eq db db' && bytes_eq id id'
same_source (loose db id) (packed path offset) = false
same_source (packed path offset) (loose db id) = false
same_source (packed path offset) (packed path' offset') = bytes_eq path path' && offset == offset'

abbrev pub contains_source : ObjectSource → List ObjectSource → Bool
contains_source source [] = false
contains_source source (s ∷ stack) = same_source s source || contains_source source stack

pub record ObjectMetadata : Type 0 where
  pub kind : Kind
  pub size : ℕ

unfoldable pub ensure_metadata : ObjectMetadata → ObjectMetadata → DecodeResult (Unit {0})
ensure_metadata expected actual =
    ensure
      (object_type_id expected.kind == object_type_id actual.kind && expected.size == actual.size)
      "object metadata mismatch"

pub record VerifiedDeltaBase : Type 0 where
  pub delta : ObjectSource
  pub base : ObjectSource
  pub metadata : ObjectMetadata

pub record VerifiedPackEntry : Type 0 where
  pub source : ObjectSource
  pub entry_end : ℕ

pub record GuardedMetadata : Type 0 where
  pub object : ObjectMetadata
  pub delta_bases : List VerifiedDeltaBase
  pub pack_entries : List VerifiedPackEntry

abbrev pub find_base : ObjectSource → List VerifiedDeltaBase → Option VerifiedDeltaBase
find_base source [] = none
find_base source (c ∷ cs) = if same_source c.delta source then some c else find_base source cs

unfoldable pub delta_base : GuardedMetadata → ObjectSource → DecodeResult VerifiedDeltaBase
delta_base guarded source =
    ok_or (find_base source guarded.delta_bases)
      (corrupt "guarded delta chain has no base for source")

abbrev pub find_end : ObjectSource → List VerifiedPackEntry → Option ℕ
find_end source [] = none
find_end source (c ∷ cs) =
    if same_source c.source source then some c.entry_end else find_end source cs

unfoldable pub pack_entry_end : GuardedMetadata → ObjectSource → DecodeResult ℕ
pack_entry_end guarded source =
    ok_or (find_end source guarded.pack_entries)
      (corrupt "guarded pack metadata has no entry for source")

-- An entry of a pack; a delta has no kind of its own.
pub record PackEntry : Type 0 where
  pub data_offset : ℕ
  pub kind : Option Kind
  pub decompressed_size : ℕ

-- `gix_pack::data::File`
pub record PackFile : Type 0 where
  pub pack_end : ℕ
  pub entry : ℕ → Option PackEntry
  pub entry_slice : ℕ → ℕ → Option Bytes

-- The files of the repository.
pub record Storage : Type 0 where
  pub packs : Bytes → DecodeResult PackFile
  pub loose_files : Bytes → Bytes → DecodeResult Bytes

pub record OpenedPack : Type 0 where
  pub pack : PackFile
  pub entry : PackEntry
  pub entry_end : ℕ

unfoldable pub compressed : OpenedPack → DecodeResult Bytes
compressed opened =
    ok_or (opened.pack.entry_slice opened.entry.data_offset opened.entry_end)
      (corrupt "pack entry compressed range is outside")

unfoldable pub opened_pack_from_parts : ℕ → PackFile → ℕ → DecodeResult OpenedPack
opened_pack_from_parts pack_offset pack entry_end = elim (pack.entry pack_offset) [
  | none ↦ err (corrupt "pack entry could not be read")
  | some entry ↦
      if leb entry.data_offset pack_offset
        || leb entry_end entry.data_offset
        || ltb pack.pack_end entry_end
      then err (corrupt "invalid pack entry range")
      else ok (record { pack = pack; entry = entry; entry_end = entry_end })
]

unfoldable pub open_pack_data : Storage → Bytes → Decode PackFile
open_pack_data storage index_path = do work (charge_source_open 1); lift (storage.packs index_path)

unfoldable pub open_guarded_packed : Storage → ObjectSource → GuardedMetadata → Decode OpenedPack
open_guarded_packed storage (loose db id) guarded =
    fail (corrupt "attempted to open a loose object as a guarded pack entry")
open_guarded_packed storage (packed index_path pack_offset) guarded = do
  entry_end ← lift (pack_entry_end guarded (packed index_path pack_offset))
  pack ← open_pack_data storage index_path
  lift (opened_pack_from_parts pack_offset pack entry_end)

pub data BufferRole : Type 0 where
  metadata_role returned_object decoded_object decoded_base delta_role work_role : BufferRole

abbrev pub metadata_buffer_limit : ℕ
metadata_buffer_limit = 32

abbrev pub role_limit : BufferRole → ℕ → ℕ
role_limit metadata_role limit = metadata_buffer_limit
role_limit _ limit = limit

-- The allocator says which capacity it returns; the size of the buffer is the answer.
pub record AllocationTracker : Type 0 where
  pub caller_limit : ℕ
  pub allocator : ℕ → ℕ

unfoldable pub allocate : AllocationTracker → ℕ → BufferRole → DecodeResult ℕ
allocate tracker capacity role =
    if ltb (role_limit role tracker.caller_limit) capacity
    then err (corrupt "bounded decoder requested a buffer beyond its limit")
    else if ltb (role_limit role tracker.caller_limit) (tracker.allocator capacity)
    then err (corrupt "allocator returned a buffer beyond its limit")
    else ok capacity

unfoldable pub stream_buffer : AllocationTracker → BufferRole → DecodeResult ℕ
stream_buffer tracker role =
    let capacity = role_limit role (min tracker.caller_limit stream_buffer_target) in
    if capacity == 0
    then err (corrupt "cannot allocate a decode buffer for a zero-byte limit")
    else allocate tracker capacity role

abbrev pub max_chain_depth : ℕ
max_chain_depth = 64

-- The stack holds the sources that are open, the last one first.
unfoldable pub enter_source : ObjectSource → List ObjectSource → DecodeResult (List ObjectSource)
enter_source source stack =
    if leb max_chain_depth (length stack)
    then err (corrupt "delta recursion exceeds the safe depth bound")
    else if contains_source source stack
    then err (corrupt "delta chain contains a cycle")
    else ok (source ∷ stack)

abbrev pub pop_source : List ObjectSource → List ObjectSource
pop_source [] = []
pop_source (s ∷ stack) = stack
