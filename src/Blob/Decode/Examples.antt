-- ===== src/Blob/Decode/Examples.antt =====
-- A delta and its base in a pack, a stored stream and a vector as the sink, for the tests.
use fornacast.Prelude.{
  ℕ, refl, min, Option, none, some, [], ◌∷◌, length, ok, err, arith, if◌then◌else◌, ◌==◌,
}
use fornacast.Prelude.Bytes.{Bytes}
use fornacast.Receive.PackHeader.{Kind}
use fornacast.Blob.Failure.{corrupt}
use fornacast.Blob.Budget.{DecodeWorkBudget, DecodeWorkLimits, no_work}
use fornacast.Blob.Zlib.{FileRead}
use fornacast.Blob.Sink.{Retained}
use fornacast.Blob.Stream.Inflating.{Inflation, Reads}
use fornacast.Blob.Objects.{
  ObjectSource, packed, GuardedMetadata, PackEntry, PackFile, Storage, AllocationTracker,
  OpenedPack, VerifiedDeltaBase,
}
use fornacast.Blob.Decode.Contents.{Repository}
use fornacast.Blob.Decode.Stored.Works.{Valid, stored-Works}
use fornacast.Blob.Decode.Stored.{Stored, stored, Left, plain, stored-Inflates}

abbrev pub read_all : FileRead
read_all rest limit = some (min limit (length rest))

abbrev pub path : Bytes
path = 112 ∷ []

abbrev pub base_source : ObjectSource
base_source = packed path 10

abbrev pub delta_source : ObjectSource
delta_source = packed path 20

-- The delta copies three bytes from offset 1 of its base and inserts two.
abbrev pub slice_at : ℕ → ℕ → Option Bytes
slice_at start end =
    if start == 12
    then some (1 ∷ 2 ∷ 3 ∷ 4 ∷ 255 ∷ [])
    else some (4 ∷ 5 ∷ 0x91 ∷ 1 ∷ 3 ∷ 2 ∷ 9 ∷ 8 ∷ 255 ∷ [])

abbrev pub entry_at : ℕ → Option PackEntry
entry_at offset =
    if offset == 10
    then some (record { data_offset = 12; kind = some Kind.blob; decompressed_size = 4 })
    else some (record { data_offset = 22; kind = none; decompressed_size = 8 })

abbrev pub pack : PackFile
pack = record { pack_end = 40; entry = entry_at; entry_slice = slice_at }

abbrev pub storage : Storage
storage = record { packs = λ p. ok pack; loose_files = λ db id. err (corrupt "no loose objects") }

abbrev pub guarded : GuardedMetadata
guarded = record {
  object = record { kind = Kind.blob; size = 5 };
  delta_bases =
      record {
        delta = delta_source;
        base = base_source;
        metadata = record { kind = Kind.blob; size = 4 };
      }
      ∷ [];
  pack_entries =
      record { source = base_source; entry_end = 17 }
      ∷ record { source = delta_source; entry_end = 31 }
      ∷ [];
}

abbrev pub tracker : AllocationTracker
tracker = record { caller_limit = 3; allocator = λ n. n }

abbrev pub limits : DecodeWorkLimits
limits = record {
  delta_instructions = 9;
  source_opens = 3;
  index_entries_scanned = 9;
  compressed_input_bytes = 99;
  inflated_output_bytes = 99;
  skipped_output_bytes = 99;
  discovery_bytes = 9;
}

abbrev pub budget : DecodeWorkBudget
budget = record { limits = limits; used = no_work; stop = none; polls = 0 }

abbrev pub empty_output : Retained
empty_output = record { output = []; capacity = 3 }

abbrev pub base_bytes : Bytes
base_bytes = 1 ∷ 2 ∷ 3 ∷ 4 ∷ []

abbrev pub whole_bytes : Bytes
whole_bytes = 2 ∷ 3 ∷ 4 ∷ 9 ∷ 8 ∷ []

pub read_all-Reads : Reads read_all
read_all-Reads [] limit some_limit = (min limit 0, refl, omega arith, λ e. refl)
read_all-Reads (x ∷ rest) limit some_limit =
    (min limit (length (x ∷ rest)), refl, omega arith, λ e. absurd (omega (arith, e, some_limit)))

abbrev pub inflation : Inflation Stored
inflation = record {
  inflater = stored;
  read = read_all;
  Left = Left;
  law = stored-Inflates;
  plain = plain;
  starts = λ bytes. refl;
  fresh_out = refl;
  Valid = Valid;
  works = stored-Works;
}

abbrev pub repository : Repository
repository = record { storage = storage; guarded = guarded; tracker = tracker }

abbrev pub opened_at : PackEntry → ℕ → OpenedPack
opened_at entry entry_end = record { pack = pack; entry = entry; entry_end = entry_end }

abbrev pub base_entry : PackEntry
base_entry = record { data_offset = 12; kind = some Kind.blob; decompressed_size = 4 }

abbrev pub delta_entry : PackEntry
delta_entry = record { data_offset = 22; kind = none; decompressed_size = 8 }

abbrev pub verified : VerifiedDeltaBase
verified = record {
  delta = delta_source;
  base = base_source;
  metadata = record { kind = Kind.blob; size = 4 };
}
