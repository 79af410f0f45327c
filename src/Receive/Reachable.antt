-- ===== src/Receive/Reachable.antt =====
-- The objects that a pack is filled with: `collect_reachable_objects` and `enqueue_children`. The
-- store and the parsers of gix are given by the parsed objects. The queue is a stack: its head is
-- the end of the vector, where the code pops.
pub mod Rounds
pub mod Refers
pub mod Closed
pub mod Exact
use fornacast.Prelude.{
  ℕ, zero, suc, ◌+◌, length, Bool, true, false, ◌||◌, Option, none, some, String, List, [], ◌∷◌,
  ◌++◌, Result, ok, err, ◌>>=◌, if◌then◌else◌,
}
use fornacast.Prelude.Bytes.{Bytes, bytes_eq}
use fornacast.Tree.Entries.{EntryKind, tree, blob, blob_executable, link, commit}
use fornacast.Receive.PackHeader.{Kind}

-- What gix reads in the data of an object: a failed part is an error.
pub data View : Type 0 where
  commit_view : Result String Bytes → List Bytes → View
  tree_view : List (Result String (EntryKind × Bytes)) → View
  tag_view : Result String Bytes → View
  blob_view : View

pub record StoredObject : Type 0 where
  pub kind : Kind
  pub data_bytes : Bytes
  pub view : View

pub record PackObject : Type 0 where
  pub kind : Kind
  pub data_bytes : Bytes

-- `queue.extend(parents)`
unfoldable pub extend : List Bytes → List Bytes → List Bytes
extend [] queue = queue
extend (x ∷ xs) queue = extend xs (x ∷ queue)

-- An entry of a tree: a submodule is passed over.
abbrev pub push_entry : EntryKind → Bytes → List Bytes → List Bytes
push_entry tree oid queue = oid ∷ queue
push_entry blob oid queue = oid ∷ queue
push_entry blob_executable oid queue = oid ∷ queue
push_entry link oid queue = oid ∷ queue
push_entry commit oid queue = queue

unfoldable pub enqueue_entries :
    List (Result String (EntryKind × Bytes)) → List Bytes → Result String (List Bytes)
enqueue_entries [] queue = ok queue
enqueue_entries (err e ∷ entries) queue = err e
enqueue_entries (ok (kind, oid) ∷ entries) queue =
    enqueue_entries entries (push_entry kind oid queue)

unfoldable pub enqueue_children : View → List Bytes → Result String (List Bytes)
enqueue_children (commit_view root parents) queue = do
  tree_id ← root
  ok (extend parents (tree_id ∷ queue))
enqueue_children (tree_view entries) queue = enqueue_entries entries queue
enqueue_children (tag_view target) queue = do target_id ← target; ok (target_id ∷ queue)
enqueue_children blob_view queue = ok queue

abbrev pub has : Bytes → List Bytes → Bool
has id [] = false
has id (x ∷ xs) = bytes_eq x id || has id xs

abbrev pub Store : Type 0
Store = List (Bytes × StoredObject)

abbrev pub find_object : Store → Bytes → Result String StoredObject
find_object [] id = err "object could not be found"
find_object ((x, object) ∷ store) id = if bytes_eq x id then ok object else find_object store id

abbrev pub pack_object : StoredObject → PackObject
pack_object o = record { kind = o.kind; data_bytes = o.data_bytes }

-- The loop, on fuel: none says that the rounds did not suffice. It gives the ids that were seen
-- too.
unfoldable pub collect_rounds :
    Store
    → ℕ
    → List Bytes
    → List Bytes
    → List PackObject
    → Option (Result String (List Bytes × List PackObject))
collect_rounds store zero [] seen objects = some (ok (seen, objects))
collect_rounds store zero (id ∷ queue) seen objects = none
collect_rounds store (suc rounds) [] seen objects = some (ok (seen, objects))
collect_rounds store (suc rounds) (id ∷ queue) seen objects = elim (has id seen) [
  | true ↦ collect_rounds store rounds queue seen objects
  | false ↦ elim (find_object store id) [
    | err e ↦ some (err e)
    | ok o ↦ elim (enqueue_children o.view queue) [
      | err e ↦ some (err e)
      | ok queue' ↦ collect_rounds store rounds queue' (id ∷ seen) (objects ++ pack_object o ∷ [])
    ]
  ]
]

-- The number of references of an object, as far as they can be read.
abbrev pub count : Result String (List Bytes) → ℕ
count (ok c) = length c
count (err e) = 0

abbrev pub all_references : Store → ℕ
all_references [] = 0
all_references ((id, o) ∷ store) = count (enqueue_children o.view []) + all_references store

abbrev pub collected :
    Option (Result String (List Bytes × List PackObject)) → Option (Result String (List PackObject))
collected none = none
collected (some (err e)) = some (err e)
collected (some (ok (seen, objects))) = some (ok objects)

-- A round takes an entry off the stack, so the tips and all references of the store are enough. The
-- stack of the tips has the last one on top.
unfoldable pub collect_reachable_objects :
    Store → List Bytes → Option (Result String (List PackObject))
collect_reachable_objects store tips =
    collected (collect_rounds store (length tips + all_references store) (extend tips []) [] [])
