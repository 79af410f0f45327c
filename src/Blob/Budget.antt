-- ===== src/Blob/Budget.antt =====
-- The work budget of a bounded decode: `DecodeWorkLimits`, `DecodeWorkBudget` and
-- `scaled_work_limit` of bounded_blob.rs. The counters are cells, so a failed charge keeps what it
-- wrote: each operation returns its result and the budget it leaves. The stop hook is the sequence
-- of its answers, with the number of calls made. The cache of pack indexes is left out.
pub mod Charges
pub mod Limits
use fornacast.Prelude.{
  ℕ, ◌+◌, ◌-◌, ◌*◌, ◌/◌, min, Bool, true, false, Option, none, some, String, Result, ok, err, ◌>>=◌,
  ltb, ◌==◌, if◌then◌else◌,
}
use fornacast.Prelude.Word.{u64_max, checked_add, checked_mul, saturating_sub}
use fornacast.Blob.Failure.{DecodeResult, corrupt, work_limit, stopped, ok_or}

abbrev pub mib : ℕ
mib = 1048576

abbrev pub stream_buffer_target : ℕ
stream_buffer_target = 8192

abbrev pub max_delta_instructions : ℕ
max_delta_instructions = 65536

abbrev pub max_source_opens : ℕ
max_source_opens = 4096

abbrev pub max_index_entries_scanned : ℕ
max_index_entries_scanned = 1000000

abbrev pub max_compressed_input_bytes : ℕ
max_compressed_input_bytes = 256 * mib

abbrev pub max_inflated_output_bytes : ℕ
max_inflated_output_bytes = 512 * mib

abbrev pub max_discovery_bytes : ℕ
max_discovery_bytes = 8 * mib

pub record DecodeWorkLimits : Type 0 where
  pub delta_instructions : ℕ
  pub source_opens : ℕ
  pub index_entries_scanned : ℕ
  pub compressed_input_bytes : ℕ
  pub inflated_output_bytes : ℕ
  pub skipped_output_bytes : ℕ
  pub discovery_bytes : ℕ

-- The cells have the fields of the limits.
pub record DecodeWorkBudget : Type 0 where
  pub limits : DecodeWorkLimits
  pub used : DecodeWorkLimits
  pub stop : Option (ℕ → Bool)
  pub polls : ℕ

unfoldable pub scaled_work_limit : ℕ → ℕ → ℕ → ℕ → ℕ → DecodeResult ℕ
scaled_work_limit caller_limit baseline numerator denominator hard_cap = do
  product ← ok_or (checked_mul caller_limit numerator) (corrupt "decode work limit overflow")
  rounded ← ok_or (checked_add product (denominator - 1)) (corrupt "decode work limit overflow")
  limit ←
      ok_or (checked_add baseline (rounded / denominator)) (corrupt "decode work limit overflow")
  ok (min limit hard_cap)

abbrev pub no_work : DecodeWorkLimits
no_work = record {
  delta_instructions = 0;
  source_opens = 0;
  index_entries_scanned = 0;
  compressed_input_bytes = 0;
  inflated_output_bytes = 0;
  skipped_output_bytes = 0;
  discovery_bytes = 0;
}

-- `usize` and `u64` are the same range here, so the conversion of the limit does not fail.
unfoldable pub new_with_stop : ℕ → Option (ℕ → Bool) → DecodeResult DecodeWorkBudget
new_with_stop caller_limit stop = do
  compressed ← scaled_work_limit caller_limit (16 * mib) 32 1 max_compressed_input_bytes
  inflated ← scaled_work_limit caller_limit (32 * mib) 32 1 max_inflated_output_bytes
  skipped ← scaled_work_limit caller_limit (32 * mib) 32 1 max_inflated_output_bytes
  discovery ← scaled_work_limit caller_limit (64 * 1024) 1 1 max_discovery_bytes
  ok (record {
    limits = record {
      delta_instructions = max_delta_instructions;
      source_opens = max_source_opens;
      index_entries_scanned = max_index_entries_scanned;
      compressed_input_bytes = compressed;
      inflated_output_bytes = inflated;
      skipped_output_bytes = skipped;
      discovery_bytes = discovery;
    };
    used = no_work;
    stop = stop;
    polls = 0;
  })

unfoldable pub new : ℕ → DecodeResult DecodeWorkBudget
new caller_limit = new_with_stop caller_limit none

abbrev pub max_visitor_compressed_input_bytes : ℕ
max_visitor_compressed_input_bytes = max_compressed_input_bytes + 2 * max_inflated_output_bytes

abbrev pub max_visitor_inflated_output_bytes : ℕ
max_visitor_inflated_output_bytes = max_inflated_output_bytes + max_inflated_output_bytes

unfoldable pub with_stop_hook : ℕ → ℕ → (ℕ → Bool) → DecodeResult DecodeWorkBudget
with_stop_hook caller_limit output_allowance stop = do
  budget ← new_with_stop caller_limit (some stop)
  let allowance = min output_allowance max_inflated_output_bytes
  inflated ←
      ok_or (checked_add budget.limits.inflated_output_bytes allowance)
        (corrupt "visitor inflated work limit overflow")
  skipped ←
      ok_or (checked_add budget.limits.skipped_output_bytes allowance)
        (corrupt "visitor skipped work limit overflow")
  compressed_allowance ←
      ok_or (checked_mul allowance 2) (corrupt "visitor compressed work allowance overflow")
  compressed ←
      ok_or (checked_add budget.limits.compressed_input_bytes compressed_allowance)
        (corrupt "visitor compressed work limit overflow")
  ok (record budget {
    limits = record budget.limits {
      inflated_output_bytes = min inflated max_visitor_inflated_output_bytes;
      skipped_output_bytes = min skipped max_visitor_inflated_output_bytes;
      compressed_input_bytes = min compressed max_visitor_compressed_input_bytes;
    };
  })

-- The cell that a charge is made to.
pub data Counter : Type 0 where
  delta_instructions source_opens index_entries_scanned compressed_input_bytes : Counter
  inflated_output_bytes skipped_output_bytes discovery_bytes : Counter

abbrev pub get : Counter → DecodeWorkLimits → ℕ
get delta_instructions w = w.delta_instructions
get source_opens w = w.source_opens
get index_entries_scanned w = w.index_entries_scanned
get compressed_input_bytes w = w.compressed_input_bytes
get inflated_output_bytes w = w.inflated_output_bytes
get skipped_output_bytes w = w.skipped_output_bytes
get discovery_bytes w = w.discovery_bytes

abbrev pub set : Counter → ℕ → DecodeWorkLimits → DecodeWorkLimits
set delta_instructions n w = record w { delta_instructions = n }
set source_opens n w = record w { source_opens = n }
set index_entries_scanned n w = record w { index_entries_scanned = n }
set compressed_input_bytes n w = record w { compressed_input_bytes = n }
set inflated_output_bytes n w = record w { inflated_output_bytes = n }
set skipped_output_bytes n w = record w { skipped_output_bytes = n }
set discovery_bytes n w = record w { discovery_bytes = n }

-- What an operation answers, and the budget it leaves.
abbrev pub Work : Type 0 → Type 0
Work A = DecodeWorkBudget → DecodeResult A × DecodeWorkBudget

abbrev pub polled : DecodeWorkBudget → DecodeWorkBudget
polled b = elim b.stop [ none ↦ b | some ask ↦ record b { polls = b.polls + 1 } ]

abbrev pub asked_to_stop : DecodeWorkBudget → Bool
asked_to_stop b = elim b.stop [ none ↦ false | some ask ↦ ask b.polls ]

unfoldable pub check_stop : Work (Unit {0})
check_stop b = if asked_to_stop b then (err stopped, polled b) else (ok tt, polled b)

-- The part of `charge` behind the poll.
abbrev pub charge_polled : Counter → ℕ → Work (Unit {0})
charge_polled counter count b = elim (checked_add (get counter b.used) count) [
  | none ↦ (err (work_limit "decode work counter overflow"), b)
  | some next ↦
      let charged = record b { used = set counter next b.used } in
      if ltb (get counter b.limits) next
      then (err (work_limit "decode work budget exhausted"), charged)
      else (ok tt, charged)
]

unfoldable pub charge : Counter → ℕ → Work (Unit {0})
charge counter count b =
    if asked_to_stop b then (err stopped, polled b) else charge_polled counter count (polled b)

unfoldable pub charge_delta_instruction : Work (Unit {0})
unfolding charge
charge_delta_instruction = charge delta_instructions 1

unfoldable pub charge_source_open : ℕ → Work (Unit {0})
unfolding charge
charge_source_open = charge source_opens

unfoldable pub charge_index_entries : ℕ → Work (Unit {0})
unfolding charge
charge_index_entries = charge index_entries_scanned

unfoldable pub charge_compressed_input : ℕ → Work (Unit {0})
unfolding charge
charge_compressed_input = charge compressed_input_bytes

unfoldable pub charge_inflated_output : ℕ → Work (Unit {0})
unfolding charge
charge_inflated_output = charge inflated_output_bytes

unfoldable pub charge_skipped_output : ℕ → Work (Unit {0})
unfolding charge
charge_skipped_output = charge skipped_output_bytes

unfoldable pub charge_discovery_bytes : ℕ → Work (Unit {0})
unfolding charge
charge_discovery_bytes = charge discovery_bytes

-- A chunk of an output, or the `unreachable!` of the code.
pub data Chunk : Type 0 where
  chunk : ℕ → Chunk
  unreachable : Chunk

abbrev charge_then_panic : Counter → Work Chunk
charge_then_panic counter b =
    let (result, b') = charge counter 1 b in
    elim result [ ok done ↦ (ok unreachable, b') | err e ↦ (err e, b') ]

unfoldable pub remaining_chunk : Counter → ℕ → Work Chunk
unfolding charge
remaining_chunk counter requested b =
    let b' = polled b in
    let remaining = saturating_sub (get counter b.limits) (get counter b.used) in
    if asked_to_stop b
    then (err stopped, b')
    else if requested == 0
    then (ok (chunk 0), b')
    else if remaining == 0
    then charge_then_panic counter b'
    else (ok (chunk (min requested (min remaining u64_max))), b')

unfoldable pub compressed_chunk : ℕ → Work Chunk
unfolding remaining_chunk
compressed_chunk requested =
    remaining_chunk compressed_input_bytes (min requested stream_buffer_target)

unfoldable pub inflated_chunk : ℕ → Work Chunk
unfolding remaining_chunk
inflated_chunk = remaining_chunk inflated_output_bytes
