-- ===== src/Blob/Frames.antt =====
-- The decoder of a range of an object: `DeltaFrame`, `DecodeTask` and `append_source_range_to_sink` of
-- bounded_blob.rs.
pub mod Parses
pub mod Meaning
pub mod Pieces
pub mod Advance
pub mod Copies
pub mod Finished
pub mod Through
pub mod Rounds
use fornacast.Prelude.{
  ℕ, zero, suc, ◌+◌, ◌-◌, ◌*◌, min, max, Bool, true, false, not, ◌&&◌, Option, none, some, List, [],
  ◌∷◌, length, Result, ok, err, ltb, leb, ◌==◌, if◌then◌else◌,
}
use fornacast.Prelude.Bytes.{Bytes}
use fornacast.Prelude.Word.{checked_add}
use fornacast.Blob.Failure.{DecodeResult, corrupt, ok_or}
use fornacast.Blob.Budget.{
  DecodeWorkBudget, charge_delta_instruction, charge_source_open, max_delta_instructions,
  max_source_opens,
}
use fornacast.Blob.Run.{
  Halt, Decode, pure, fail, cut_off, lift, work, from_string, reassociate, reading, ◌>>=◌, ◌>>◌,
}
use fornacast.Blob.Zlib.{Inflater, FileRead, slice, file}
use fornacast.Blob.Sink.{Sink}
use fornacast.Blob.Stream.{
  InflatedStream, read_required_byte, skip_exact, append_exact, finish_exact, ensure,
}
use fornacast.Blob.Delta.{
  DeltaInstruction, insert, copy, Range, decode_delta_varint, decode_delta_instruction,
  overlapping_base_range,
}
use fornacast.Blob.Objects.{
  ObjectSource, loose, packed, ObjectMetadata, ensure_metadata, GuardedMetadata, delta_base,
  OpenedPack, compressed, Storage, open_guarded_packed, AllocationTracker, BufferRole, delta_role,
  decoded_object, decoded_base, work_role, stream_buffer, enter_source, pop_source,
}
use fornacast.Blob.Loose.{read_loose_header}

pub record DeltaFrame (D : Type 0) : Type 0 where
  pub stream : InflatedStream D
  pub base : ObjectSource
  pub base_metadata : ObjectMetadata
  pub requested : Range
  pub result_size : ℕ
  pub result_position : ℕ

pub data DecodeTask (D : Type 0) : Type 0 where
  source_task : ObjectSource → ObjectMetadata → ℕ → ℕ → DecodeTask D
  delta_task : DeltaFrame D → DecodeTask D
  finish_task : ℕ → ℕ → DecodeTask D

abbrev pub instruction_size : DeltaInstruction → ℕ
instruction_size (insert size) = size
instruction_size (copy offset size) = size

module _ {D : Type 0} (z : Inflater D) (read : FileRead) where
  -- The streams on an opened source, with the size of their buffers.
  abbrev pub slice_stream :
      Option ℕ → DecodeResult Bytes → DecodeResult ℕ → DecodeResult (InflatedStream D)
  slice_stream declared (err e) size = err e
  slice_stream declared (ok bytes) (err e) = err e
  slice_stream declared (ok bytes) (ok size) = ok (record {
    source = slice bytes 0;
    inflate = z.fresh;
    size = size;
    output = [];
    output_position = 0;
    declared_size = declared;
    ended = false;
  })

  abbrev pub file_stream : Bytes → DecodeResult ℕ → DecodeResult ℕ → DecodeResult (InflatedStream D)
  file_stream bytes (err e) size = err e
  file_stream bytes (ok input) (err e) = err e
  file_stream bytes (ok input) (ok size) = ok (record {
    source = file bytes [] 0 input false;
    inflate = z.fresh;
    size = size;
    output = [];
    output_position = 0;
    declared_size = none;
    ended = false;
  })

  -- `InflatedStream::from_pack` and `from_file`
  unfoldable pub from_pack :
      OpenedPack → AllocationTracker → BufferRole → DecodeResult (InflatedStream D)
  from_pack opened tracker role =
      slice_stream (some opened.entry.decompressed_size) (compressed opened)
        (stream_buffer tracker role)

  unfoldable pub from_file :
      Bytes → AllocationTracker → BufferRole → DecodeResult (InflatedStream D)
  from_file bytes tracker role =
      file_stream bytes (stream_buffer tracker work_role) (stream_buffer tracker role)

  -- A parser of the delta format that reads from a stream.
  abbrev pub stream_reader :
      InflatedStream D × DecodeWorkBudget → Result Halt (ℕ × (InflatedStream D × DecodeWorkBudget))
  stream_reader = reading (read_required_byte z read)

  unfoldable pub read_delta_header : InflatedStream D → Decode ((ℕ × ℕ) × InflatedStream D)
  read_delta_header s = do
    (base_size, s1) ← λ b. reassociate (decode_delta_varint from_string stream_reader (s, b))
    (result_size, s2) ← λ b. reassociate (decode_delta_varint from_string stream_reader (s1, b))
    pure ((base_size, result_size), s2)

  unfoldable pub read_instruction : InflatedStream D → Decode (DeltaInstruction × InflatedStream D)
  read_instruction s = do
    (opcode, s1) ← read_required_byte z read s
    λ b. reassociate (decode_delta_instruction from_string opcode stream_reader (s1, b))

  unfoldable pub new_frame :
      ObjectSource
      → OpenedPack
      → ObjectMetadata
      → Range
      → AllocationTracker
      → GuardedMetadata
      → Decode (DeltaFrame D)
  new_frame source opened expected requested tracker guarded = do
    verified_base ← lift (delta_base guarded source)
    stream ← lift (from_pack opened tracker delta_role)
    ((declared_base_size, result_size), stream') ← read_delta_header stream
    lift (
        ensure (declared_base_size == verified_base.metadata.size)
          "delta declares another base size")
    lift (
        ensure_metadata expected
          (record { kind = verified_base.metadata.kind; size = result_size }))
    pure (record {
      stream = stream';
      base = verified_base.base;
      base_metadata = verified_base.metadata;
      requested = requested;
      result_size = result_size;
      result_position = 0;
    })

  module _ {S : Type 0} (sink : Sink S) where
    -- The bytes of an insertion that are requested.
    unfoldable pub insert_bytes : ℕ → ℕ → DeltaFrame D → S → Decode (InflatedStream D × S)
    insert_bytes size instruction_end frame output =
        if leb instruction_end frame.requested.start
        then (do stream ← skip_exact z read size frame.stream; pure (stream, output))
        else (do
          let overlap_start = max frame.result_position frame.requested.start
          let overlap_end = min instruction_end frame.requested.end
          stream ← skip_exact z read (overlap_start - frame.result_position) frame.stream
          append_exact z read sink (overlap_end - overlap_start) stream output)

    -- The range of the base that a copy requests.
    unfoldable pub copy_range : ℕ → ℕ → DeltaFrame D → DecodeResult (Option (ℕ × ℕ))
    copy_range offset size frame = elim (checked_add offset size) [
      | none ↦ err (corrupt "delta base copy range overflow")
      | some base_end ↦
          if ltb frame.base_metadata.size base_end
          then err (corrupt "delta copy range exceeds base size")
          else elim (overlapping_base_range (copy offset size) frame.result_position
              frame.requested) [
                | err e ↦ err e
                | ok none ↦ ok none
                | ok (some range) ↦ ok (some (range.start, range.end - range.start))
              ]
    ]

    -- The frame behind an instruction that ends there, the output, and the range of the base it asks
    -- for.
    unfoldable pub apply_instruction :
        DeltaInstruction → ℕ → DeltaFrame D → S → Decode (DeltaFrame D × S × Option (ℕ × ℕ))
    apply_instruction (insert size) instruction_end frame output = do
      (stream, output') ← insert_bytes size instruction_end frame output
      pure (record frame { stream = stream; result_position = instruction_end }, output', none)
    apply_instruction (copy offset size) instruction_end frame output = do
      child ← lift (copy_range offset size frame)
      pure (record frame { result_position = instruction_end }, output, child)

    unfoldable pub run_instruction :
        DeltaInstruction → DeltaFrame D → S → Decode (DeltaFrame D × S × Option (ℕ × ℕ))
    run_instruction instruction frame output = do
      instruction_end ← lift (
          ok_or (checked_add frame.result_position (instruction_size instruction))
            (corrupt "delta result position overflow"))
      lift (ensure (leb instruction_end frame.result_size) "delta command ends beyond result size")
      apply_instruction instruction instruction_end frame output

    unfoldable pub finish_frame : DeltaFrame D → S → Decode (DeltaFrame D × S × Option (ℕ × ℕ))
    finish_frame frame output = do
      lift (
          ensure (not (frame.stream.ended && ltb frame.result_position frame.result_size))
            "delta stream reached StreamEnd")
      if frame.requested.end == frame.result_size
          then (do
            lift (ensure (frame.result_position == frame.result_size) "delta result ended early")
            stream ← finish_exact z read frame.stream
            pure (record frame { stream = stream }, output, none))
          else pure (frame, output, none)

    -- `while self.result_position < self.requested.end`, with the rounds that are left.
    unfoldable pub advance_rounds :
        ℕ → DeltaFrame D → S → Decode (DeltaFrame D × S × Option (ℕ × ℕ))
    advance_rounds zero frame output =
        if ltb frame.result_position frame.requested.end then cut_off else finish_frame frame output
    advance_rounds (suc rounds) frame output =
        if not (ltb frame.result_position frame.requested.end)
        then finish_frame frame output
        else do
          work charge_delta_instruction
          (instruction, stream) ← read_instruction frame.stream
          (frame', output', child) ←
              run_instruction instruction (record frame { stream = stream }) output
          elim child [
            | some range ↦ pure (frame', output', some range)
            | none ↦ advance_rounds rounds frame' output'
          ]

    unfoldable pub advance : DeltaFrame D → S → Decode (DeltaFrame D × S × Option (ℕ × ℕ))
    advance frame = advance_rounds (frame.requested.end - frame.result_position) frame
