-- ===== src/Commits/Range.antt =====
-- The commits of a comparison: `preflight_object` of git_data.rs, `load_comparison_commit_node`,
-- `walk_comparison_commit_graph` and `commit_range_page_impl`. A budget is handed through; a call
-- that fails ends the comparison, so nothing reads the budget that it leaves.
pub mod Difference
pub mod Whole
use fornacast.Prelude.{
  ℕ, suc, Bool, true, false, Option, none, some, List, [], ◌∷◌, length, Result, ok, err, guard, ltb,
  ◌==◌, if◌then◌else◌,
}
use fornacast.Prelude.Bytes.{Bytes}
use fornacast.Prelude.Word.{u64_mod}
use fornacast.Native.{NativeError, NativeResult, native_error, ok_or}
use fornacast.Native.Clock.{Clock, Timed, pure, fail, lift, ◌>>=◌, ◌>>◌}
use fornacast.Native.Errors.{StdError, without_source, diff_read_error}
use fornacast.Receive.PackHeader.{Kind, object_type_id}
use fornacast.Pages.{CommitPageWindow, commit_range_page_window}
use fornacast.Compare.Budgets.{
  Oids, has, DecodedByteBudget, ComparisonCommitBudget, charge, new_commit_budget,
}
use fornacast.Refs.Scan.{page_number}
use fornacast.Commits.Graph.{FromHex, Loader, walk_commit_graph_with}
use fornacast.Commits.Nodes.{
  CommitNode, CommitPosition, Nodes, lookup, check_commit_deadline, OrderedCommitGraph,
}
use fornacast.Commits.Load.{
  GitCommit, StoredEntry, ObjectHeader, Repository, find_graph_commit, decode_commit_node,
}
use fornacast.Commits.Walk.{walk_fuel}
use fornacast.Commits.Listing.{Printing, NativeCommit, hydrate_all, window_of}

-- A method of a budget, in a computation.
abbrev pub budgeted : {B : Type 0} → NativeResult (Unit {0}) × B → Timed B
budgeted (ok _, b) = pure b
budgeted (err e, b) = fail e

abbrev pub find_header : Repository → Bytes → NativeResult ObjectHeader
find_header repo oid = elim (lookup repo oid) [
  | none ↦ err (diff_read_error without_source)
  | some entry ↦ elim entry.header [ ok h ↦ ok h | err e ↦ err (diff_read_error e) ]
]

abbrev pub unexpected_kind : NativeError
unexpected_kind = native_error "corrupt_repository" "object has an unexpected kind"

unfoldable pub preflight_object :
    Clock → Repository → Bytes → Kind → DecodedByteBudget → Timed DecodedByteBudget
unfolding object_type_id
preflight_object late repo oid expected budget = do
  check_commit_deadline late
  header ← lift (find_header repo oid)
  lift (guard (object_type_id header.kind == object_type_id expected) unexpected_kind)
  lift (guard (ltb header.size u64_mod) (native_error "scan_byte_limit" "object size overflow"))
  budget' ← budgeted (charge oid header.size "Git-data decoded object budget exhausted" budget)
  check_commit_deadline late
  pure budget'

-- A commit that the budget has not seen is counted and charged.
unfoldable pub count_commit :
    Bytes → ℕ → ComparisonCommitBudget → NativeResult (Unit {0}) × ComparisonCommitBudget
count_commit oid data_length b =
    if has oid b.seen_commits
    then (ok tt, b)
    else (let counted = record b { seen_commits = oid ∷ b.seen_commits } in
        if ltb b.commit_limit (length counted.seen_commits)
        then (
          err (native_error "commit_limit" "comparison commit traversal exceeded its commit limit"),
          counted,
        )
        else (let (r, decoded) =
              charge oid data_length "comparison commit traversal exceeded its decoded-byte limit"
                b.decoded in
            (r, record counted { decoded = decoded })))

unfoldable pub load_comparison_commit_node :
    Clock
    → Repository
    → Bytes
    → CommitPosition
    → ComparisonCommitBudget
    → Timed (CommitNode × ComparisonCommitBudget)
load_comparison_commit_node late repo oid position b = do
  check_commit_deadline late
  decoded ← preflight_object late repo oid Kind.commit b.decoded
  commit ← lift (find_graph_commit repo oid position)
  b' ← budgeted (count_commit oid commit.data_length (record b { decoded = decoded }))
  node ← decode_commit_node late commit
  pure (node, b')

unfoldable pub walk_comparison_commit_graph :
    Clock
    → FromHex
    → Repository
    → Bytes
    → ComparisonCommitBudget
    → Timed (Option (OrderedCommitGraph × ComparisonCommitBudget))
walk_comparison_commit_graph late from_hex repo =
    walk_commit_graph_with late from_hex (load_comparison_commit_node late repo) (walk_fuel repo)

unfoldable pub comparison_page : Bytes → NativeResult ℕ
comparison_page page =
    if page_number page == 0
    then err (native_error "invalid_input" "comparison page must be positive")
    else ok (page_number page)

-- The commits that are not in the graph of the base.
unfoldable pub not_in_base : Nodes → Oids → Oids
not_in_base base [] = []
not_in_base base (oid ∷ oids) = elim (lookup base oid) [
  | none ↦ oid ∷ not_in_base base oids
  | some node ↦ not_in_base base oids
]

abbrev pub range_page :
    Clock → Printing → Repository → ℕ → ℕ → Oids → Timed (Option (List NativeCommit × ℕ))
range_page late p repo page per_page range = do
  commits ←
      hydrate_all late p repo
        (window_of (commit_range_page_window (length range) page per_page) range)
  check_commit_deadline late
  pure (some (commits, length range))

abbrev pub head_page :
    Clock
    → Printing
    → Repository
    → ℕ
    → ℕ
    → OrderedCommitGraph
    → Option (OrderedCommitGraph × ComparisonCommitBudget)
    → Timed (Option (List NativeCommit × ℕ))
head_page late p repo page per_page base none = pure none
head_page late p repo page per_page base (some (head_graph, b)) =
    range_page late p repo page per_page (not_in_base base.nodes head_graph.ordered)

abbrev pub base_page :
    Clock
    → FromHex
    → Printing
    → Repository
    → Bytes
    → ℕ
    → ℕ
    → Option (OrderedCommitGraph × ComparisonCommitBudget)
    → Timed (Option (List NativeCommit × ℕ))
base_page late from_hex p repo head_oid page per_page none = pure none
base_page late from_hex p repo head_oid page per_page (some (base_graph, b)) = do
  walked ← walk_comparison_commit_graph late from_hex repo head_oid b
  head_page late p repo page per_page base_graph walked

unfoldable pub commit_range_page :
    Clock
    → FromHex
    → Printing
    → NativeResult Repository
    → Bytes
    → Bytes
    → Bytes
    → ℕ
    → ℕ
    → ℕ
    → Timed (Option (List NativeCommit × ℕ))
commit_range_page late from_hex p opened base_oid head_oid page per_page commit_limit byte_limit =
    do
      number ← lift (comparison_page page)
      check_commit_deadline late
      repo ← lift opened
      walked ←
          walk_comparison_commit_graph late from_hex repo base_oid
            (new_commit_budget commit_limit byte_limit)
      base_page late from_hex p repo head_oid number per_page walked
