-- ===== src/Commits/Graph.antt =====
-- The walk over a commit graph: `walk_commit_graph_with`. The stack of pending commits has its top at
-- the head, where the code pops. How a commit is loaded is a parameter, with the state that loading
-- changes.
pub mod Maps
pub mod Order
pub mod Ordered
pub mod Parents
pub mod Queue
pub mod Release
pub mod Roots
pub mod Rounds
pub mod Explored
pub mod Reached
pub mod Visits
pub mod Walked
pub mod Weights
use Prim.Native.Nat.{Ordering}
use fornacast.Prelude.{
  ℕ, zero, suc, ◌-◌, Bool, true, false, Option, none, some, List, [], ◌∷◌, ◌++◌, ok, err, ltb, ◌==◌,
  if◌then◌else◌, length,
}
use mathlib.Core.Option
use fornacast.Prelude.Bytes.{Bytes, bytes_eq, cmp}
use fornacast.Prelude.Int.{ℤ, cmp_int}
use fornacast.Prelude.Word.{checked_add, checked_sub}
use fornacast.Native.{NativeError, NativeResult, native_error, ok_or}
use fornacast.Native.Clock.{Clock, Timed, pure, fail, lift, check_deadline, ◌>>=◌, ◌>>◌}
use fornacast.Compare.Budgets.{Oids, has}
use fornacast.Commits.Nodes.{
  CommitNode, CommitPosition, tip, ancestor, Map, lookup, put, Nodes, Counts, OrderedCommitGraph,
  count_of, or_default, check_commit_deadline,
}
use fornacast.Commits.Ordering.{order_commits}

abbrev pub count_overflow : NativeError
count_overflow = native_error "corrupt_repository" "commit graph child count overflow"

abbrev pub increment : Bytes → Counts → NativeResult Counts
increment oid counts = elim (checked_add (count_of counts oid) 1) [
  | none ↦ err count_overflow
  | some n ↦ ok (put oid n counts)
]

-- The counts and the stack behind the parents of a commit.
unfoldable pub count_parents : Clock → Oids → Counts → Oids → Timed (Counts × Oids)
count_parents late [] counts pending = pure (counts, pending)
count_parents late (parent ∷ parents) counts pending = do
  check_commit_deadline late
  counts' ← lift (increment parent counts)
  count_parents late parents counts' (parent ∷ pending)

pub record Walk (S : Type 0) : Type 0 where
  pub visited : Oids
  pub nodes : Nodes
  pub child_counts : Counts
  pub loading : S

abbrev pub Loader : Type 0 → Type 0
Loader S = Bytes → CommitPosition → S → Timed (CommitNode × S)

abbrev pub position_of : Bytes → Bytes → CommitPosition
position_of oid tip_oid = if bytes_eq oid tip_oid then tip else ancestor

-- What is kept of a commit that was loaded.
abbrev pub add_commit :
    {S : Type 0} → Bytes → CommitNode × S → Counts × Oids → Walk S → Walk S × Oids
add_commit oid (node, s) (counts, pending) w = (
  record {
    visited = w.visited ++ oid ∷ [];
    nodes = put oid node w.nodes;
    child_counts = counts;
    loading = s;
  },
  pending,
)

module _ {S : Type 0} (late : Clock) (tip_oid : Bytes) (load_node : Loader S) where
  -- A commit off the stack: the walk and the stack behind it.
  unfoldable pub visit_commit : Bytes → Walk S → Oids → Timed (Walk S × Oids)
  visit_commit oid w pending = if has oid w.visited then pure (w, pending) else (do
    loaded ← load_node oid (position_of oid tip_oid) w.loading
    counted ← count_parents late (loaded.0).parents (or_default oid w.child_counts) pending
    pure (add_commit oid loaded counted w))

  -- On fuel: none says that the rounds did not suffice.
  unfoldable pub walk_rounds : ℕ → Walk S → Oids → Timed (Option (Walk S))
  walk_rounds rounds w [] = pure (some w)
  walk_rounds zero w (oid ∷ pending) = pure none
  walk_rounds (suc rounds) w (oid ∷ pending) = do
    check_commit_deadline late
    visited ← visit_commit oid w pending
    walk_rounds rounds visited.0 visited.1

-- Of gix: `ObjectId::from_hex`.
abbrev pub FromHex : Type 0
FromHex = Bytes → Option Bytes

abbrev pub invalid_oid : NativeError
invalid_oid = native_error "commit_not_found" "invalid object id"

abbrev pub empty_walk : {S : Type 0} → S → Walk S
empty_walk s = record { visited = []; nodes = []; child_counts = []; loading = s }

abbrev pub order_walk :
    {S : Type 0} → Clock → Bytes → Option (Walk S) → Timed (Option (OrderedCommitGraph × S))
order_walk late tip_oid none = pure none
order_walk late tip_oid (some w) = do
  graph ← order_commits late tip_oid w.nodes w.child_counts
  pure (Option.map (λ g. (g, w.loading)) graph)

unfoldable pub walk_commit_graph_with :
    {S : Type 0}
    → Clock
    → FromHex
    → Loader S
    → ℕ
    → Bytes
    → S
    → Timed (Option (OrderedCommitGraph × S))
walk_commit_graph_with late from_hex load_node rounds snapshot_oid s = do
  check_commit_deadline late
  tip_oid ← lift (ok_or (from_hex snapshot_oid) invalid_oid)
  walked ← walk_rounds late tip_oid load_node rounds (empty_walk s) (tip_oid ∷ [])
  order_walk late tip_oid walked
