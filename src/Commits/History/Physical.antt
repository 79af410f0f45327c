-- ===== src/Commits/History/Physical.antt =====
-- The trees of a repository, given by what gix returns for their ids: `load_physical_tree` and
-- `tree_for_git_path` of apps/git_core/native/fornacast_git_core/src/lib.rs.
use fornacast.Prelude.{
  Bool, Option, none, some, String, List, [], ◌∷◌, Result, ok, err, if◌then◌else◌,
}
use fornacast.Prelude.Bytes.{Bytes}
use fornacast.Native.{NativeError, NativeResult, native_error}
use fornacast.Native.Clock.{Clock, Timed, pure, fail, lift, ◌>>=◌, ◌>>◌}
use fornacast.Native.Errors.{error_chain_contains_storage_io}
use fornacast.Tree.Entries.{Item}
use fornacast.Tree.Pass.{check_tree_history_deadline, find_raw_tree_entry}
use fornacast.Commits.Nodes.{Map, lookup}
use fornacast.Commits.Load.{FindError, not_found, find_failed}

pub record PhysicalTree : Type 0 where
  pub id : Bytes
  pub items : List Item

pub data TreeObject : Type 0 where
  tree_object : List Item → TreeObject
  other_object : TreeObject

abbrev pub Trees : Type 0
Trees = Map (Result FindError TreeObject)

abbrev pub corrupt_tree : NativeError
corrupt_tree = native_error "corrupt_repository" "tree could not be read"

abbrev pub try_into_tree : Bytes → Option (Result FindError TreeObject) → NativeResult PhysicalTree
try_into_tree oid none = err corrupt_tree
try_into_tree oid (some (ok (tree_object items))) = ok (record { id = oid; items = items })
try_into_tree oid (some (ok other_object)) = err corrupt_tree
try_into_tree oid (some (err not_found)) = err corrupt_tree
try_into_tree oid (some (err (find_failed error))) =
    if error_chain_contains_storage_io error
    then err (native_error "storage_unavailable" "tree could not be read")
    else err corrupt_tree

unfoldable pub load_physical_tree : Clock → Trees → Bytes → Timed PhysicalTree
load_physical_tree late trees oid = do
  check_tree_history_deadline late
  tree ← lift (try_into_tree oid (lookup trees oid))
  check_tree_history_deadline late
  pure tree

abbrev pub no_tree : Bool → String → Timed (Option PhysicalTree)
no_tree required detail =
    if required then fail (native_error "path_not_found" detail) else pure none

-- The loop over the components.
unfoldable pub descend :
    Clock → Trees → Bool → PhysicalTree → List Bytes → Timed (Option PhysicalTree)
descend late trees required tree [] = do check_tree_history_deadline late; pure (some tree)
descend late trees required tree (component ∷ components) = do
  check_tree_history_deadline late
  state ← find_raw_tree_entry late tree.items component
  elim state [
    | none ↦ no_tree required "tree path was not found"
    | some s ↦
        if s.is_tree
        then (do
          next ← load_physical_tree late trees s.oid
          descend late trees required next components)
        else no_tree required "path does not point to a tree"
  ]

unfoldable pub tree_for_git_path :
    Clock → Trees → Bytes → List Bytes → Bool → Timed (Option PhysicalTree)
tree_for_git_path late trees root_tree components required = do
  tree ← load_physical_tree late trees root_tree
  descend late trees required tree components
