-- ===== src/Lib.antt =====
-- Verification of the native Git core of Fornacast, the Rust library that the Elixir applications
-- load: apps/git_core/native/fornacast_git_core/src/.
--
-- The library reads and writes bare repositories. Its functions answer with a value or with an
-- error of a fixed kind; listings come in pages, and every scan is bounded by a budget or a
-- deadline. Blobs are decoded by a bounded decoder of its own (bounded_blob.rs), which charges a
-- budget for all work. Everything else stands in lib.rs.
--
-- Parts, with the code that they are about:
--   Prelude: shared names, Boolean tests, lists, byte strings and 64-bit words.
--   Language: `Utf8Validator`, `ShebangClassifier`, `filename_language` and `LanguageScanner` of
--     lib.rs: what a blob is, found out in one pass over its chunks.
--   Native: `NativeError` of lib.rs, its checks of a deadline, and the causes that it looks for in
--     the errors of other libraries (Native/Errors).
--   Pages: `commit_page_window`, `tree_page_window`, `diff_page_window` and the limits of a
--     comparison, lib.rs.
--   Blob: bounded_blob.rs: the errors, the delta format (Blob/Delta), the work budget
--     (Blob/Budget), compressed input and sinks (Blob/Zlib, Blob/Sink), the inflated stream
--     (Blob/Stream), where objects stand (Blob/Objects), the headers of loose objects
--     (Blob/Header, Blob/Loose), the frames of deltas (Blob/Frames) and the loop of tasks that
--     decodes a range of an object (Blob/Decode). Blob/Run is the computation that all of it is
--     written in.
--   Tree: the checks on the entries of a tree object (Tree/Entries), the passes over it
--     (Tree/Pass) and the choice of a page (Tree/Listing), lib.rs.
--   Receive: `parse_receive_commands`, `validate_receive_commands` and the updates of branches and
--     tags (Receive/Commands), `write_pack_object_header` (Receive/PackHeader), the objects of a
--     pack (Receive/Reachable), lib.rs.
--   Refs: the scan of branches and tags (Refs/Scan), `RefSummaryBuilder` (Refs/Summary), the
--     reference of a route (Refs/Route) and names of mirrored references (Refs/Tracking), lib.rs.
--   Compare: `DecodedByteBudget`, `ComparisonCommitBudget` and `ComparisonDiffBudget`, lib.rs.
--   Diff: `RetainedDiffSource` and `StructuredDiffConsumer`, lib.rs.
--   Commits: `walk_commit_graph_with` and what loads commits for it, `commit_page`,
--     `commit_summary`, `commit_range_page_impl`, lib.rs; `read_tree_with_history_impl`
--     (Commits/History); `preflight_object`, git_data.rs.
--
-- Correspondence. A definition has the name of the function, method or type that it translates. A
-- method that changes its receiver returns the new one; cells and counters are fields of a state.
-- Errors are values of `Result`, with the kind and the detail of the code; a detail that is
-- formatted from the error of another library is a fixed text. Numbers are natural numbers; `u64`
-- and `usize` are 64 bits wide and every wrap, check or saturation of the code is written out
-- (Prelude/Word). Byte strings are lists of numbers below 256. A deadline is the sequence of the
-- answers of the clock (Native/Clock), and a stop hook the sequence of its answers.
--
-- Bounds and fuel. The loops are by structural recursion on the input, or on a count that the code
-- itself bounds: ten groups of a delta number, the bytes of a line. The passes of a page
-- (Tree/Listing) have a round for each entry up to the end of the page, since a round that reads no
-- entry is an error. The comparison across kinds takes a name off in every round and has one round
-- more than there are entries. The collection of the objects of a pack takes an entry off its stack
-- in every round, and has as many rounds as there are tips and references in the store
-- (Receive/Reachable/Rounds). The walk over the commits takes one object id off its stack in every
-- round, and pushes the parents of a commit once: its rounds are one more than the parents of all
-- commits of the repository, see Commits/Walk/Whole. The order of the commits has a round for each
-- of them. A refill of an inflated stream (Blob/Stream) uses up compressed input in every round
-- that writes nothing; skipping and appending take at least a byte a round; a frame of a delta
-- (Blob/Frames) moves on by at least a byte. The tasks of the decoder (Blob/Decode) charge a source
-- or an instruction in every round or take a task off: three rounds for each source that the budget
-- still allows, one for each instruction, and one more.
--
-- Not modelled: the object database and the packs of gix, the inflater of zlib and the file system,
-- which are parameters where the code uses them; the resource handles and the worker threads; the
-- Elixir applications.
pub mod Blob
pub mod Commits
pub mod Compare
pub mod Diff
pub mod Language
pub mod Native
pub mod Pages
pub mod Prelude
pub mod Receive
pub mod Refs
pub mod Tree
