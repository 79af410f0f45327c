-- ===== src/Commits/History.antt =====
-- A page of a tree with the commit that changed each entry last: `read_tree_with_history_impl` of
-- apps/git_core/native/fornacast_git_core/src/lib.rs.
pub mod Physical
pub mod Paths
pub mod Latest
pub mod Loop
pub mod Changed
pub mod Rows
pub mod Shown
pub mod Whole
mod Tests
use fornacast.Prelude.{
  ℕ, Bool, true, false, not, ◌&&◌, Option, none, some, String, List, [], ◌∷◌, ◌++◌, length, Result,
  ok, err, ◌==◌, if◌then◌else◌,
}
use fornacast.Prelude.Bytes.{Bytes, bytes_eq}
use fornacast.Native.{NativeError, NativeResult, native_error, ok_or}
use fornacast.Native.Clock.{Clock, Timed, pure, fail, lift, ◌>>=◌, ◌>>◌}
use fornacast.Native.Errors.{error_chain_contains_storage_io}
use fornacast.Pages.{tree_page_window}
use fornacast.Compare.Budgets.{Oids}
use fornacast.Refs.Scan.{page_number}
use fornacast.Tree.Entries.{Item, TreeEntryState}
use fornacast.Tree.Pass.{
  BTreeMap, DirectTreeEntry, same_bool, check_tree_history_deadline, find_raw_tree_entry,
  retained_tree_states,
}
use fornacast.Tree.Listing.{
  safe_git_path_components, count_direct_tree_entries, retain_direct_tree_page,
}
use fornacast.Commits.Nodes.{CommitNode, tip, Map, lookup, put, Nodes, OrderedCommitGraph}
use fornacast.Commits.Graph.{FromHex, invalid_oid}
use fornacast.Commits.Load.{FindError, not_found, find_failed, Repository, load_commit_node}
use fornacast.Commits.Walk.{walk_commit_graph}
use fornacast.Commits.Listing.{Printing, NativeTreeCommit, hydrate_tree_commit}
use fornacast.Tree.Pass
use fornacast.Commits.History.Physical.{
  PhysicalTree, TreeObject, Trees, corrupt_tree, load_physical_tree, tree_for_git_path,
}

abbrev pub first_parent : Oids → Option Bytes
first_parent [] = none
first_parent (oid ∷ oids) = some oid

abbrev pub node_missing : NativeError
node_missing = native_error "corrupt_repository" "commit graph node is missing"

abbrev pub parent_missing : NativeError
parent_missing = native_error "corrupt_repository" "first parent graph node is missing"

abbrev pub same_id : Option PhysicalTree → Option PhysicalTree → Bool
same_id none none = true
same_id none (some b) = false
same_id (some a) none = false
same_id (some a) (some b) = bytes_eq a.id b.id

abbrev pub items_of : Option PhysicalTree → Option (List Item)
items_of none = none
items_of (some tree) = some tree.items

abbrev pub States : Type 0
States = BTreeMap TreeEntryState

abbrev pub is_selected : List DirectTreeEntry → Bytes → Bool
is_selected [] name = false
is_selected (e ∷ es) name = if bytes_eq e.name name then true else is_selected es name

module _ (late : Clock) (trees : Trees) (nodes : Nodes) (components : List Bytes)
    (selected : List DirectTreeEntry) where
  abbrev pub parent_tree : Oids → Timed (Option PhysicalTree)
  parent_tree parents = elim (first_parent parents) [
    | none ↦ pure none
    | some oid ↦ (do
      parent ← lift (ok_or (lookup nodes oid) parent_missing)
      tree_for_git_path late trees parent.tree components false)
  ]

  -- The states of the selected entries in a commit and in its first parent; none if the tree at the
  -- path is the same.
  unfoldable pub commit_states : Bytes → Timed (Option (States × States))
  commit_states oid = do
    check_tree_history_deadline late
    node ← lift (ok_or (lookup nodes oid) node_missing)
    current ← tree_for_git_path late trees node.tree components false
    parent ← parent_tree node.parents
    if same_id current parent then pure none else do
      current_states ← retained_tree_states late (items_of current) (is_selected selected)
      parent_states ← retained_tree_states late (items_of parent) (is_selected selected)
      pure (some (current_states, parent_states))

abbrev pub same_state : Option TreeEntryState → Option TreeEntryState → Bool
same_state none none = true
same_state none (some b) = false
same_state (some a) none = false
same_state (some a) (some b) =
    a.mode == b.mode && bytes_eq a.oid b.oid && same_bool a.is_tree b.is_tree

-- The commit touches the name, and the name has no commit yet.
abbrev pub is_touched : Map NativeTreeCommit → States × States → Bytes → Bool
is_touched latest s name = elim (lookup latest name) [
  | some c ↦ false
  | none ↦ not (same_state (Pass.lookup name s.0) (Pass.lookup name s.1))
]

unfoldable pub touched : List DirectTreeEntry → Map NativeTreeCommit → States × States → List Bytes
touched [] latest s = []
touched (e ∷ es) latest s =
    let rest = touched es latest s in if is_touched latest s e.name then e.name ∷ rest else rest

unfoldable pub put_all : List Bytes → NativeTreeCommit → Map NativeTreeCommit → Map NativeTreeCommit
put_all [] commit latest = latest
put_all (name ∷ names) commit latest = put_all names commit (put name commit latest)

abbrev pub is_empty : List Bytes → Bool
is_empty [] = true
is_empty (x ∷ xs) = false

module _ (late : Clock) (p : Printing) (repo : Repository) (trees : Trees) (nodes : Nodes)
    (components : List Bytes) (selected : List DirectTreeEntry) where
  -- What a commit adds, and whether it adds any.
  unfoldable pub add_touched :
      Bytes → Option (States × States) → Map NativeTreeCommit → Timed (Map NativeTreeCommit × Bool)
  add_touched oid none latest = pure (latest, false)
  add_touched oid (some s) latest =
      if is_empty (touched selected latest s) then pure (latest, false) else (do
        commit ← hydrate_tree_commit late p repo oid
        pure (put_all (touched selected latest s) commit latest, true))

  -- The loop over the commits, which ends early once all entries have one.
  unfoldable pub latest_commits : Oids → Map NativeTreeCommit → Timed (Map NativeTreeCommit)
  latest_commits [] latest = pure latest
  latest_commits (oid ∷ oids) latest = do
    states ← commit_states late trees nodes components selected oid
    added ← add_touched oid states latest
    let rest = latest_commits oids added.0
    if added.1 && length added.0 == length selected then pure added.0 else rest

abbrev pub no_commit : NativeError
no_commit =
    native_error "corrupt_repository" "current tree entry has no reachable introducing commit"

-- `BTreeMap::remove`, the map that is left.
abbrev pub remove : {A : Type 0} → Bytes → Map A → Map A
remove k [] = []
remove k ((j, v) ∷ m) = let rest = remove k m in if bytes_eq j k then rest else (j, v) ∷ rest

unfoldable pub rows_of :
    List DirectTreeEntry
    → Map NativeTreeCommit
    → NativeResult (List (DirectTreeEntry × NativeTreeCommit))
rows_of [] latest = ok []
rows_of (e ∷ es) latest = elim (lookup latest e.name) [
  | none ↦ err no_commit
  | some commit ↦ elim (rows_of es (remove e.name latest)) [
    | err x ↦ err x
    | ok rows ↦ ok ((e, commit) ∷ rows)
  ]
]

abbrev pub TreePage : Type 0
TreePage = List (DirectTreeEntry × NativeTreeCommit) × ℕ

abbrev pub history_rows :
    Clock
    → Printing
    → Repository
    → Trees
    → List Bytes
    → ℕ
    → List DirectTreeEntry
    → Option OrderedCommitGraph
    → Timed (Option TreePage)
history_rows late p repo trees components total selected none = pure none
history_rows late p repo trees components total [] (some graph) = do
  check_tree_history_deadline late
  pure (some ([], total))
history_rows late p repo trees components total (e ∷ es) (some graph) = do
  latest ← latest_commits late p repo trees graph.nodes components (e ∷ es) graph.ordered []
  rows ← lift (rows_of (e ∷ es) latest)
  check_tree_history_deadline late
  pure (some (rows, total))

abbrev pub required_tree : Option PhysicalTree → NativeResult PhysicalTree
required_tree tree = ok_or tree (native_error "panic" "required selected tree must be present")

abbrev pub invalid_tree_page : NativeError
invalid_tree_page = native_error "path_not_found" "invalid tree page"

-- None says that the rounds of the walk did not suffice.
unfoldable pub read_tree_with_history :
    Clock
    → FromHex
    → Printing
    → NativeResult Repository
    → Trees
    → Bytes
    → Bytes
    → Bytes
    → ℕ
    → Timed (Option TreePage)
read_tree_with_history late from_hex p opened trees snapshot_oid tree_path page per_page =
    if page_number page == 0 then fail invalid_tree_page else (do
      components ← lift (safe_git_path_components tree_path)
      repo ← lift opened
      check_tree_history_deadline late
      tip_oid ← lift (ok_or (from_hex snapshot_oid) invalid_oid)
      tip_node ← load_commit_node late repo tip_oid tip
      found ← tree_for_git_path late trees tip_node.tree components true
      selected_tree ← lift (required_tree found)
      counts ← count_direct_tree_entries late selected_tree.items
      selected ←
          retain_direct_tree_page late selected_tree.items counts.0 counts.1
            (tree_page_window counts.0 (page_number page) per_page)
      graph ← walk_commit_graph late from_hex repo snapshot_oid
      history_rows late p repo trees components counts.0 selected graph)
