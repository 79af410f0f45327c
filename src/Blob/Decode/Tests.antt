-- ===== src/Blob/Decode/Tests.antt =====
-- Ranges of an object of a pack, through a delta, and the header of a loose object.
use fornacast.Prelude.{◌≡◌, refl, Option, none, some, List, [], ◌∷◌, ok, err, arith}
use fornacast.Prelude.Bytes.{Bytes}
use fornacast.Receive.PackHeader.{Kind, object_type_id}
use fornacast.Blob.Budget.{
  check_stop, charge, charge_delta_instruction, charge_source_open, charge_compressed_input,
  charge_inflated_output, charge_skipped_output, compressed_chunk, inflated_chunk, remaining_chunk,
}
use fornacast.Blob.Delta.{
  insert, copy, read_list, varint_rounds, decode_delta_varint, copy_field, decode_delta_instruction,
  overlapping_base_range,
}
use fornacast.Blob.Stream.{
  end_stream, refill_rounds, refill, required, read_required_byte, skip_rounds, skip_exact,
  append_rounds, append_exact, finish_exact,
}
use fornacast.Blob.Frames.{
  from_pack, read_delta_header, read_instruction, new_frame, insert_bytes, copy_range,
  apply_instruction, run_instruction, finish_frame, advance_rounds, advance,
}
use fornacast.Blob.Run.{Gives, Ran}
use fornacast.Blob.Zlib.{
  inflate_input, decompress_slice, fill_buffer, decompress_once, is_exactly_exhausted,
}
use fornacast.Blob.Sink.{Retained, retained_sink, retained_append}
use fornacast.Blob.Objects.{
  ObjectSource, pack_entry_end, opened_pack_from_parts, compressed, delta_base, ensure_metadata,
  enter_source, stream_buffer, allocate, open_guarded_packed, open_pack_data,
}
use fornacast.Blob.Frames.Meaning.{Patches}
use fornacast.Blob.Decode.{
  append_source_range_to_sink, task_rounds, run_task, run_source, run_packed, append_stream,
}
use fornacast.Blob.Decode.Contents.{Content, Sound}
use fornacast.Blob.Decode.Whole.{
  append_source_range_to_sink_exact, append_source_range_to_sink_returns,
}
use fornacast.Blob.Decode.Stored.{stored}
use fornacast.Blob.Stream.Outputs.{held, retained}
use fornacast.Blob.Decode.Examples.{
  read_all, base_source, delta_source, pack, storage, guarded, tracker, budget, empty_output,
  base_bytes, whole_bytes, inflation, repository, opened_at, base_entry, delta_entry, verified,
}

delta_makes_whole : Patches base_bytes (4 ∷ 5 ∷ 0x91 ∷ 1 ∷ 3 ∷ 2 ∷ 9 ∷ 8 ∷ []) whole_bytes
unfolding decode_delta_varint varint_rounds decode_delta_instruction copy_field read_list
delta_makes_whole = (
  5 ∷ 0x91 ∷ 1 ∷ 3 ∷ 2 ∷ 9 ∷ 8 ∷ [],
  0x91 ∷ 1 ∷ 3 ∷ 2 ∷ 9 ∷ 8 ∷ [],
  2,
  refl,
  refl,
  (
    0x91,
    1 ∷ 3 ∷ 2 ∷ 9 ∷ 8 ∷ [],
    2 ∷ 9 ∷ 8 ∷ [],
    2 ∷ 9 ∷ 8 ∷ [],
    2 ∷ 3 ∷ 4 ∷ [],
    9 ∷ 8 ∷ [],
    copy 1 3,
    refl,
    refl,
    (omega arith, refl, refl),
    refl,
    (
      2,
      9 ∷ 8 ∷ [],
      9 ∷ 8 ∷ [],
      [],
      9 ∷ 8 ∷ [],
      [],
      insert 2,
      refl,
      refl,
      (omega arith, refl, refl),
      refl,
      (refl, refl),
    ),
  ),
)

delta_source-Content : Content inflation repository 2 delta_source whole_bytes
unfolding pack_entry_end opened_pack_from_parts compressed delta_base
delta_source-Content = (
  31,
  pack,
  opened_at delta_entry 31,
  4 ∷ 5 ∷ 0x91 ∷ 1 ∷ 3 ∷ 2 ∷ 9 ∷ 8 ∷ 255 ∷ [],
  refl,
  refl,
  refl,
  refl,
  (
    verified,
    base_bytes,
    refl,
    (17, pack, opened_at base_entry 17, 1 ∷ 2 ∷ 3 ∷ 4 ∷ 255 ∷ [], refl, refl, refl, refl, refl),
    delta_makes_whole,
  ),
)

append_source_range_to_sink_exact_example :
    Gives ⊥
      (λ r b'. held r.1 ≡ 3 ∷ 4 ∷ 9 ∷ [])
      (append_source_range_to_sink stored read_all storage guarded tracker retained_sink
        delta_source
        (record { kind = Kind.blob; size = 5 })
        1
        3
        []
        empty_output
        budget)
append_source_range_to_sink_exact_example =
    append_source_range_to_sink_exact inflation repository retained delta_source
      (record { kind = Kind.blob; size = 5 }) 1 3 [] empty_output 2 whole_bytes budget
      (omega arith, omega arith) delta_source-Content

base_source-Sound :
    Sound inflation repository 1
      (delta_source ∷ [])
      base_source
      (record { kind = Kind.blob; size = 4 })
      base_bytes
unfolding pack_entry_end opened_pack_from_parts compressed
base_source-Sound = (
  (omega arith, refl),
  17,
  pack,
  opened_at base_entry 17,
  1 ∷ 2 ∷ 3 ∷ 4 ∷ 255 ∷ [],
  refl,
  refl,
  refl,
  refl,
  (omega arith, (refl, refl, ground arith)),
  refl,
  omega arith,
  (refl, (refl, refl)),
)

delta_source-Sound :
    Sound inflation repository 2 [] delta_source (record { kind = Kind.blob; size = 5 }) whole_bytes
unfolding pack_entry_end opened_pack_from_parts compressed delta_base
delta_source-Sound = (
  (omega arith, refl),
  31,
  pack,
  opened_at delta_entry 31,
  4 ∷ 5 ∷ 0x91 ∷ 1 ∷ 3 ∷ 2 ∷ 9 ∷ 8 ∷ 255 ∷ [],
  refl,
  refl,
  refl,
  refl,
  (omega arith, (refl, refl, ground arith)),
  refl,
  omega arith,
  (
    verified,
    base_bytes,
    refl,
    base_source-Sound,
    delta_makes_whole,
    (refl, refl),
    refl,
    omega arith,
    omega arith,
  ),
)

append_source_range_to_sink_returns_example :
    Gives Unit
      (λ r b'. held r.1 ≡ 3 ∷ 4 ∷ 9 ∷ [])
      (append_source_range_to_sink stored read_all storage guarded tracker retained_sink
        delta_source
        (record { kind = Kind.blob; size = 5 })
        1
        3
        []
        empty_output
        budget)
append_source_range_to_sink_returns_example =
    append_source_range_to_sink_returns inflation repository retained delta_source
      (record { kind = Kind.blob; size = 5 }) 1 3 [] empty_output 2 whole_bytes budget
      (omega arith, omega arith) delta_source-Sound (omega arith, λ capacity. refl) (omega arith)
      (omega arith, omega arith)

abbrev output_of : Ran (List ObjectSource × Retained) → Option Bytes
output_of (ok (r, b)) = some r.1.output
output_of (err h) = none

-- The run does return.
range_of_delta :
    output_of (
      append_source_range_to_sink stored read_all storage guarded tracker retained_sink delta_source
        (record { kind = Kind.blob; size = 5 })
        1
        3
        []
        empty_output
        budget)
    ≡ some (3 ∷ 4 ∷ 9 ∷ [])
unfolding append_source_range_to_sink task_rounds run_task run_source run_packed append_stream
    open_guarded_packed open_pack_data opened_pack_from_parts pack_entry_end compressed delta_base
    ensure_metadata enter_source stream_buffer allocate from_pack new_frame read_delta_header
    read_instruction advance advance_rounds run_instruction apply_instruction insert_bytes
    copy_range finish_frame overlapping_base_range decode_delta_varint varint_rounds
    decode_delta_instruction copy_field read_required_byte required refill refill_rounds end_stream
    skip_exact skip_rounds append_exact append_rounds finish_exact decompress_once decompress_slice
    inflate_input is_exactly_exhausted fill_buffer retained_append check_stop charge
    charge_delta_instruction charge_source_open charge_compressed_input charge_inflated_output
    charge_skipped_output compressed_chunk inflated_chunk remaining_chunk object_type_id
range_of_delta = refl
