-- ===== src/Blob/Tests.antt =====
-- Runs of the delta decoder and of the budget, and their theorems at concrete inputs.
use fornacast.Prelude.{
  ℕ, ◌+◌, ◌-◌, ◌≤◌, ◌<◌, ◌≡◌, ◌≢◌, ◌↔◌, refl, min, false, Option, none, some, List, [], ◌∷◌, ◌++◌,
  ok, length, arith,
}
use fornacast.Prelude.Bytes.{Bytes}
use fornacast.Prelude.Word.{u64_mod}
use fornacast.Blob.Failure.{corrupt}
use fornacast.Blob.Delta.{
  copy, read_list, varint_rounds, decode_delta_varint, decode_delta_instruction, Range,
  overlapping_base_range,
}
use fornacast.Blob.Delta.Varint.{IsVarint, decode_delta_varint_exact}
use fornacast.Blob.Delta.Overlap.{Covers, overlapping_base_range_exact}
use fornacast.Blob.Budget.{
  DecodeWorkBudget, new_with_stop, with_stop_hook, chunk, unreachable, charge, remaining_chunk,
  source_opens, inflated_output_bytes, max_compressed_input_bytes, max_inflated_output_bytes,
  max_visitor_compressed_input_bytes, max_visitor_inflated_output_bytes, no_work, get, set, polled,
  asked_to_stop, check_stop,
}
use fornacast.Blob.Budget.Limits.{Bounded, Allowed, new_with_stop-Bounded, with_stop_hook-Bounded}
use fornacast.Blob.Budget.Charges.{
  charge_exact, remaining_chunk_exact, Operation, perform, run, charges, asks_chunk, checks, Within,
  run-Within,
}

varint_300 : decode_delta_varint corrupt read_list (0xac ∷ 0x02 ∷ 9 ∷ []) ≡ ok (300, 9 ∷ [])
unfolding decode_delta_varint varint_rounds read_list
varint_300 = refl

copy_sparse :
    decode_delta_instruction corrupt 0xb2 read_list (1 ∷ 2 ∷ 3 ∷ []) ≡ ok (copy 256 0x302, [])
unfolding decode_delta_instruction read_list
copy_sparse = refl

decode_delta_varint_exact_example :
    (decode_delta_varint corrupt read_list (0xac ∷ 0x02 ∷ 9 ∷ []) ≡ ok (300, 9 ∷ [])) ↔ (
      (used : Bytes) × IsVarint used 300
      × (0xac ∷ 0x02 ∷ 9 ∷ [] ≡ used ++ 9 ∷ [])
      × (length used ≤ 10)
      × (300 < u64_mod))
decode_delta_varint_exact_example =
    decode_delta_varint_exact (0xac ∷ 0x02 ∷ 9 ∷ []) (9 ∷ []) 300 (omega arith)

abbrev middle : Range
middle = record { start = 12; end = 15 }

overlapping_base_range_exact_example :
    (found : Option Range) × (overlapping_base_range (copy 100 8) 10 middle ≡ ok found)
    × Covers 100 8 10 middle found
overlapping_base_range_exact_example =
    overlapping_base_range_exact 100 8 10 middle (omega arith) (omega arith) (omega arith)

new_with_stop-Bounded_example :
    (b : DecodeWorkBudget) × (new_with_stop 1048576 none ≡ ok b)
    × Bounded max_compressed_input_bytes max_inflated_output_bytes b.limits
    × (b.used ≡ no_work)
new_with_stop-Bounded_example = new_with_stop-Bounded 1048576 none (omega arith)

with_stop_hook-Bounded_example :
    (plain b : DecodeWorkBudget) × (new_with_stop 0 (some (λ n. false)) ≡ ok plain)
    × (with_stop_hook 0 4096 (λ n. false) ≡ ok b)
    × Bounded max_visitor_compressed_input_bytes max_visitor_inflated_output_bytes b.limits
    × Allowed plain.limits b.limits (min 4096 max_inflated_output_bytes)
    × (b.stop ≡ some (λ n. false))
    × (b.used ≡ no_work)
with_stop_hook-Bounded_example = with_stop_hook-Bounded 0 4096 (λ n. false) (omega arith)

-- A small budget that has three source opens and ten bytes of output left.
abbrev small : DecodeWorkBudget
small = record {
  limits = record no_work { source_opens = 4; inflated_output_bytes = 10 };
  used = record no_work { source_opens = 1 };
  stop = none;
  polls = 0;
}

charge_exact_example : ((charge source_opens 3 small).0 ≡ ok tt) ↔ (
    (asked_to_stop small ≡ false)
    × (get source_opens small.used + 3 ≤ get source_opens small.limits)
    × ((charge source_opens 3 small).1 ≡ record (polled small) {
      used = set source_opens (get source_opens small.used + 3) small.used;
    }))
charge_exact_example = charge_exact source_opens 3 small (omega arith)

remaining_chunk_exact_example :
    let (result, b') = remaining_chunk inflated_output_bytes 64 small in
    (result ≢ ok unreachable)
    × (b'.limits ≡ small.limits)
    × ((n : ℕ)
        → result ≡ ok (chunk n)
        → (n
            ≡ min 64
                (get inflated_output_bytes small.limits - get inflated_output_bytes small.used))
          × (0 < 64 → 0 < n)
          × (b'.used ≡ small.used))
remaining_chunk_exact_example = remaining_chunk_exact inflated_output_bytes 64 small (omega arith)

small-Within : Within small
small-Within = omega arith

abbrev decode_step : List Operation
decode_step = checks ∷ charges source_opens 2 ∷ asks_chunk inflated_output_bytes 3 ∷ []

decode_step_passes : (run decode_step small).0 ≡ ok tt
unfolding run perform charge check_stop remaining_chunk
decode_step_passes = refl

run-Within_example :
    Within (run decode_step small).1 × ((run decode_step small).1.limits ≡ small.limits)
run-Within_example = run-Within decode_step small small-Within decode_step_passes
