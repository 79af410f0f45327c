-- ===== src/Commits/Ordering.antt =====
-- The second part of `walk_commit_graph_with`: the order of the commits. The set of eligible commits
-- is kept in its order, since the code takes its first element.
use Prim.Native.Nat.{Ordering}
use fornacast.Prelude.{
  ℕ, zero, suc, Option, none, some, List, [], ◌∷◌, ◌++◌, ok, err, ◌==◌, if◌then◌else◌, length,
}
use fornacast.Prelude.Bytes.{Bytes, cmp}
use fornacast.Prelude.Int.{ℤ, cmp_int}
use fornacast.Prelude.Word.{checked_sub}
use fornacast.Native.{NativeError, NativeResult, native_error, ok_or}
use fornacast.Native.Clock.{Clock, Timed, pure, lift, ◌>>=◌, ◌>>◌}
use fornacast.Compare.Budgets.{Oids}
use fornacast.Commits.Nodes.{
  lookup, put, Nodes, Counts, OrderedCommitGraph, count_of, check_commit_deadline,
}

abbrev pub Eligible : Type 0
Eligible = ℤ × Bytes

-- The order of (Reverse(committer_time), oid).
abbrev pub cmp_eligible : Eligible → Eligible → Ordering
cmp_eligible (s, x) (t, y) = elim (cmp_int t s) [
  | Ordering.lt ↦ Ordering.lt
  | Ordering.eq ↦ cmp x y
  | Ordering.gt ↦ Ordering.gt
]

-- How the new element stands to the first one; `es'` has it in the rest.
abbrev pub place : Ordering → Eligible → Eligible → List Eligible → List Eligible → List Eligible
place Ordering.lt e f es es' = e ∷ f ∷ es
place Ordering.eq e f es es' = f ∷ es
place Ordering.gt e f es es' = f ∷ es'

-- `BTreeSet::insert`
abbrev pub insert : Eligible → List Eligible → List Eligible
insert e [] = e ∷ []
insert e (f ∷ es) = place (cmp_eligible e f) e f es (insert e es)

unfoldable pub first_eligible : Clock → Counts → Nodes → List Eligible → Timed (List Eligible)
first_eligible late counts [] eligible = pure eligible
first_eligible late counts ((oid, node) ∷ nodes) eligible = do
  check_commit_deadline late
  first_eligible late counts nodes
      (if count_of counts oid == 0 then insert (node.committer_time, oid) eligible else eligible)

abbrev pub missing_parent : NativeError
missing_parent = native_error "corrupt_repository" "commit graph parent is missing"

abbrev pub invalid_count : NativeError
invalid_count = native_error "corrupt_repository" "invalid commit graph child count"

-- A parent with no child left is eligible.
abbrev pub admit : Nodes → Bytes → ℕ → List Eligible → NativeResult (List Eligible)
admit nodes parent n eligible =
    if n == 0
    then (elim (lookup nodes parent) [
      | none ↦ err missing_parent
      | some node ↦ ok (insert (node.committer_time, parent) eligible)
    ])
    else ok eligible

unfoldable pub release_parent :
    Nodes → Bytes → Counts → List Eligible → NativeResult (Counts × List Eligible)
release_parent nodes parent counts eligible = elim (lookup counts parent) [
  | none ↦ err missing_parent
  | some n ↦ elim (checked_sub n 1) [
    | none ↦ err invalid_count
    | some n' ↦ elim (admit nodes parent n' eligible) [
      | err e ↦ err e
      | ok eligible' ↦ ok (put parent n' counts, eligible')
    ]
  ]
]

unfoldable pub release_parents :
    Clock → Nodes → Oids → Counts → List Eligible → Timed (Counts × List Eligible)
release_parents late nodes [] counts eligible = pure (counts, eligible)
release_parents late nodes (parent ∷ parents) counts eligible = do
  check_commit_deadline late
  released ← lift (release_parent nodes parent counts eligible)
  release_parents late nodes parents released.0 released.1

-- The `expect` of the code is an error here.
abbrev pub not_loaded : NativeError
not_loaded = native_error "panic" "eligible commit must be present in the loaded graph"

unfoldable pub order_rounds :
    Clock → Nodes → ℕ → Counts → List Eligible → Oids → Timed (Option Oids)
order_rounds late nodes rounds counts [] ordered = pure (some ordered)
order_rounds late nodes zero counts (e ∷ eligible) ordered = pure none
order_rounds late nodes (suc rounds) counts ((time, oid) ∷ eligible) ordered = do
  check_commit_deadline late
  node ← lift (ok_or (lookup nodes oid) not_loaded)
  released ← release_parents late nodes node.parents counts eligible
  order_rounds late nodes rounds released.0 released.1 (ordered ++ oid ∷ [])

abbrev pub cyclic : NativeError
cyclic = native_error "corrupt_repository" "commit graph is not acyclic"

abbrev pub graph_of : Bytes → Nodes → Oids → NativeResult OrderedCommitGraph
graph_of tip_oid nodes ordered =
    if length ordered == length nodes
    then ok (record { tip = tip_oid; ordered = ordered; nodes = nodes })
    else err cyclic

abbrev pub finish_order : Bytes → Nodes → Option Oids → Timed (Option OrderedCommitGraph)
finish_order tip_oid nodes none = pure none
finish_order tip_oid nodes (some ordered) = do
  graph ← lift (graph_of tip_oid nodes ordered)
  pure (some graph)

-- The order of the commits that were loaded. A round takes out one commit.
unfoldable pub order_commits : Clock → Bytes → Nodes → Counts → Timed (Option OrderedCommitGraph)
order_commits late tip_oid nodes counts = do
  eligible ← first_eligible late counts nodes []
  ordered ← order_rounds late nodes (length nodes) counts eligible []
  check_commit_deadline late
  finish_order tip_oid nodes ordered
