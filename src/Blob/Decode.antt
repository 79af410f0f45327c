-- ===== src/Blob/Decode.antt =====
-- The loop of tasks of the decoder: `append_source_range_to_sink` of bounded_blob.rs. A copy of a
-- delta suspends its frame on the stack of tasks and asks for a range of the base.
pub mod Sources
pub mod Contents
pub mod Unique
pub mod Ranges
pub mod Deltas
pub mod Entered
pub mod Tasks
pub mod Whole
pub mod Stored
pub mod Examples
mod Tests
use fornacast.Prelude.{
  ℕ, zero, suc, ◌+◌, ◌-◌, ◌*◌, Bool, true, false, not, Option, none, some, List, [], ◌∷◌, length,
  Result, ok, err, ltb, leb, ◌==◌, if◌then◌else◌,
}
use fornacast.Prelude.Bytes.{Bytes}
use fornacast.Prelude.Word.{checked_add}
use fornacast.Receive.PackHeader.{Kind}
use fornacast.Blob.Failure.{DecodeResult, corrupt, ok_or}
use fornacast.Blob.Budget.{DecodeWorkBudget, charge_source_open}
use fornacast.Blob.Run.{Decode, pure, fail, cut_off, lift, work, ◌>>=◌, ◌>>◌}
use fornacast.Blob.Zlib.{Inflater, FileRead}
use fornacast.Blob.Sink.{Sink, Retained, retained_sink}
use fornacast.Blob.Stream.{InflatedStream, skip_exact, append_exact, finish_exact, ensure}
use fornacast.Blob.Delta.{Range}
use fornacast.Blob.Objects.{
  ObjectSource, loose, packed, ObjectMetadata, ensure_metadata, GuardedMetadata, OpenedPack,
  Storage, open_guarded_packed, AllocationTracker, BufferRole, decoded_object, decoded_base,
  enter_source, pop_source,
}
use fornacast.Blob.Loose.{read_loose_header}
use fornacast.Blob.Frames.{
  DeltaFrame, DecodeTask, source_task, delta_task, finish_task, from_pack, from_file, new_frame,
  advance,
}

abbrev pub role_of : List ObjectSource → BufferRole
role_of stack = if length stack == 1 then decoded_object else decoded_base

module _ {D : Type 0} (z : Inflater D) (read : FileRead) (storage : Storage)
    (guarded : GuardedMetadata) (tracker : AllocationTracker) {S : Type 0} (sink : Sink S) where
  -- The part of a range that both kinds of plain objects share.
  unfoldable pub append_stream : ObjectMetadata → ℕ → ℕ → InflatedStream D → S → Decode S
  append_stream expected start size stream output = do
    skipped ← skip_exact z read start stream
    (appended, output') ← append_exact z read sink size skipped output
    if start + size == expected.size
        then (do finished ← finish_exact z read appended; pure output')
        else pure output'

  -- An entry of a pack that is opened, with its kind if it is not a delta.
  unfoldable pub run_packed :
      ObjectSource
      → OpenedPack
      → Option Kind
      → ObjectMetadata
      → ℕ
      → ℕ
      → BufferRole
      → S
      → Decode (S × Option (DeltaFrame D))
  run_packed source opened (some kind) expected start size role output = do
    lift (ensure_metadata expected (record { kind = kind; size = opened.entry.decompressed_size }))
    stream ← lift (from_pack z read opened tracker role)
    output' ← append_stream expected start size stream output
    pure (output', none)
  run_packed source opened none expected start size role output = do
    frame ←
        new_frame z read source opened expected (record { start = start; end = start + size })
          tracker guarded
    pure (output, some frame)

  -- A source that is entered: the output, and the frame if it is a delta.
  unfoldable pub run_source :
      ObjectSource → ObjectMetadata → ℕ → ℕ → BufferRole → S → Decode (S × Option (DeltaFrame D))
  run_source (loose db id) expected start size role output = do
    work (charge_source_open 1)
    bytes ← lift (storage.loose_files db id)
    stream ← lift (from_file z read bytes tracker role)
    (actual, body) ← read_loose_header z read stream
    lift (ensure_metadata expected actual)
    output' ← append_stream expected start size body output
    pure (output', none)
  run_source (packed path offset) expected start size role output = do
    opened ← open_guarded_packed storage (packed path offset) guarded
    run_packed (packed path offset) opened opened.entry.kind expected start size role output

  abbrev pub push_frame : Option (DeltaFrame D) → List (DecodeTask D) → List (DecodeTask D)
  push_frame none tasks = tasks
  push_frame (some frame) tasks = delta_task frame ∷ tasks

  abbrev pub push_child : DeltaFrame D → Option (ℕ × ℕ) → List (DecodeTask D) → List (DecodeTask D)
  push_child frame none tasks = tasks
  push_child frame (some (start, size)) tasks =
      source_task frame.base frame.base_metadata start size ∷ delta_task frame ∷ tasks

  unfoldable pub run_task :
      DecodeTask D
      → List (DecodeTask D)
      → List ObjectSource
      → S
      → Decode (List (DecodeTask D) × List ObjectSource × S)
  run_task (source_task source expected start size) tasks stack output = do
    end ← lift (ok_or (checked_add start size) (corrupt "requested object range overflow"))
    lift (ensure (leb end expected.size) "requested object range exceeds size")
    entered ← lift (enter_source source stack)
    (output', frame) ← run_source source expected start size (role_of entered) output
    pure (push_frame frame (finish_task (sink.position output) size ∷ tasks), entered, output')
  run_task (delta_task frame) tasks stack output = do
    (frame', output', child) ← advance z read sink frame output
    pure (push_child frame' child tasks, stack, output')
  run_task (finish_task output_start size) tasks stack output = do
    lift
        (ensure (leb output_start (sink.position output)) "decoder output position moved backwards")
    lift (ensure (sink.position output - output_start == size) "decoder appended other bytes")
    pure (tasks, pop_source stack, output)

  -- `while let Some(task) = tasks.pop()`, with the rounds that are left.
  unfoldable pub task_rounds :
      ℕ → List (DecodeTask D) → List ObjectSource → S → Decode (List ObjectSource × S)
  task_rounds rounds [] stack output = pure (stack, output)
  task_rounds zero (task ∷ tasks) stack output = cut_off
  task_rounds (suc rounds) (task ∷ tasks) stack output = do
    (tasks', stack', output') ← run_task task tasks stack output
    task_rounds rounds tasks' stack' output'

  -- A source that is opened has three tasks and every round takes one off or charges.
  abbrev pub round_bound : DecodeWorkBudget → ℕ
  round_bound b =
      3 * (b.limits.source_opens - b.used.source_opens)
      + (b.limits.delta_instructions - b.used.delta_instructions)
      + 1

  unfoldable pub append_source_range_to_sink :
      ObjectSource → ObjectMetadata → ℕ → ℕ → List ObjectSource → S → Decode (List ObjectSource × S)
  append_source_range_to_sink source expected start size stack output b =
      task_rounds (round_bound b) (source_task source expected start size ∷ []) stack output b
