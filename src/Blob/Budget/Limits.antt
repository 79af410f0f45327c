-- ===== src/Blob/Budget/Limits.antt =====
-- The limits that a budget starts with.
use fornacast.Prelude.{ℕ, ◌+◌, ◌*◌, ◌≤◌, ◌<◌, ◌≡◌, Bool, Option, some, ok, min, arith, refl}
use fornacast.Prelude.Word.{u64_mod}
use fornacast.Blob.Budget.{
  mib, max_delta_instructions, max_source_opens, max_index_entries_scanned,
  max_compressed_input_bytes, max_inflated_output_bytes, max_discovery_bytes,
  max_visitor_compressed_input_bytes, max_visitor_inflated_output_bytes, DecodeWorkLimits,
  DecodeWorkBudget, no_work, scaled_work_limit, new_with_stop, with_stop_hook,
}

-- Each limit lies between its baseline and its cap.
pub record Bounded (compressed inflated : ℕ) (w : DecodeWorkLimits) : Type 0 where
  pub instructions : w.delta_instructions ≡ max_delta_instructions
  pub opens : w.source_opens ≡ max_source_opens
  pub entries : w.index_entries_scanned ≡ max_index_entries_scanned
  pub compressed_low : 16 * mib ≤ w.compressed_input_bytes
  pub compressed_high : w.compressed_input_bytes ≤ compressed
  pub inflated_low : 32 * mib ≤ w.inflated_output_bytes
  pub inflated_high : w.inflated_output_bytes ≤ inflated
  pub skipped_low : 32 * mib ≤ w.skipped_output_bytes
  pub skipped_high : w.skipped_output_bytes ≤ inflated
  pub discovery_low : 64 * 1024 ≤ w.discovery_bytes
  pub discovery_high : w.discovery_bytes ≤ max_discovery_bytes

scaled_lem :
    (caller baseline numerator hard_cap : ℕ)
    → baseline + caller * numerator < u64_mod
    → scaled_work_limit caller baseline numerator 1 hard_cap
      ≡ ok (min (baseline + caller * numerator) hard_cap)
unfolding scaled_work_limit
scaled_lem caller baseline numerator hard_cap h = ground arith

abbrev start : ℕ → Option (ℕ → Bool) → DecodeWorkBudget
start caller stop = record {
  limits = record {
    delta_instructions = max_delta_instructions;
    source_opens = max_source_opens;
    index_entries_scanned = max_index_entries_scanned;
    compressed_input_bytes = min (16 * mib + caller * 32) max_compressed_input_bytes;
    inflated_output_bytes = min (32 * mib + caller * 32) max_inflated_output_bytes;
    skipped_output_bytes = min (32 * mib + caller * 32) max_inflated_output_bytes;
    discovery_bytes = min (64 * 1024 + caller * 1) max_discovery_bytes;
  };
  used = no_work;
  stop = stop;
  polls = 0;
}

new_with_stop-start :
    (caller : ℕ) (stop : Option (ℕ → Bool))
    → 32 * mib + caller * 32 < u64_mod
    → new_with_stop caller stop ≡ ok (start caller stop)
unfolding new_with_stop
new_with_stop-start caller stop h =
    rw (scaled_lem caller (16 * mib) 32 max_compressed_input_bytes (omega arith)) (
      rw (scaled_lem caller (32 * mib) 32 max_inflated_output_bytes h)
        (rw (scaled_lem caller (64 * 1024) 1 max_discovery_bytes (omega arith))))

-- Every caller limit whose work fits 64 bits gives a budget with nothing charged, each limit
-- between its baseline and its hard cap.
pub new_with_stop-Bounded :
    (caller_limit : ℕ) (stop : Option (ℕ → Bool))
    → 32 * mib + caller_limit * 32 < u64_mod
    → (b : DecodeWorkBudget) × (new_with_stop caller_limit stop ≡ ok b)
      × Bounded max_compressed_input_bytes max_inflated_output_bytes b.limits
      × (b.used ≡ no_work)
new_with_stop-Bounded caller stop h =
    (start caller stop, new_with_stop-start caller stop h, ground arith, refl)

-- The limits are those of a plain budget, with the allowance on top of the work on output, and twice
-- the allowance on top of the compressed input.
pub record Allowed (plain b : DecodeWorkLimits) (allowance : ℕ) : Type 0 where
  pub inflated : b.inflated_output_bytes ≡ plain.inflated_output_bytes + allowance
  pub skipped : b.skipped_output_bytes ≡ plain.skipped_output_bytes + allowance
  pub compressed : b.compressed_input_bytes ≡ plain.compressed_input_bytes + allowance * 2
  pub discovery : b.discovery_bytes ≡ plain.discovery_bytes

-- A visitor's budget, for every caller limit whose work fits 64 bits, is the plain budget of that
-- limit with room for the allowance: the whole of it, up to the cap of a plain budget, on top of the
-- inflated and of the skipped bytes, and twice that on top of the compressed ones. It keeps under
-- the visitor's caps, stops by the hook, and has nothing charged.
pub with_stop_hook-Bounded :
    (caller_limit output_allowance : ℕ) (stop : ℕ → Bool)
    → 32 * mib + caller_limit * 32 < u64_mod
    → (plain b : DecodeWorkBudget) × (new_with_stop caller_limit (some stop) ≡ ok plain)
      × (with_stop_hook caller_limit output_allowance stop ≡ ok b)
      × Bounded max_visitor_compressed_input_bytes max_visitor_inflated_output_bytes b.limits
      × Allowed plain.limits b.limits (min output_allowance max_inflated_output_bytes)
      × (b.stop ≡ some stop)
      × (b.used ≡ no_work)
unfolding with_stop_hook
with_stop_hook-Bounded caller allowance stop h =
    let plain = start caller (some stop) in
    let a = min allowance max_inflated_output_bytes in
    (
      plain,
      record plain {
        limits = record plain.limits {
          inflated_output_bytes =
              min (plain.limits.inflated_output_bytes + a) max_visitor_inflated_output_bytes;
          skipped_output_bytes =
              min (plain.limits.skipped_output_bytes + a) max_visitor_inflated_output_bytes;
          compressed_input_bytes =
              min (plain.limits.compressed_input_bytes + a * 2) max_visitor_compressed_input_bytes;
        };
      },
      new_with_stop-start caller (some stop) h,
      rw (new_with_stop-start caller (some stop) h) (ground arith),
      ground arith,
      record {
        inflated = omega arith;
        skipped = omega arith;
        compressed = omega arith;
        discovery = refl;
      },
      refl,
      refl,
    )
