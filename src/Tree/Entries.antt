-- ===== src/Tree/Entries.antt =====
-- The entries of a tree object and the checks that every entry passes: `validate_tree_entry` and
-- `git_tree_entry_order`. What gix decodes from the object is a list of items, of which the last may
-- be broken.
use Prim.Native.Nat.{Ordering}
use fornacast.Prelude.{
  ℕ, min, Bool, true, false, not, ◌||◌, Option, none, some, String, [], ok, err, ◌>>=◌, ◌==◌,
  if◌then◌else◌, length, take, get,
}
use fornacast.Prelude.Bytes.{Bytes, codes, bytes_eq, contains, cmp, cmp_option, is_less}
use fornacast.Native.{NativeResult, native_error}

-- `gix::object::tree::EntryKind`
pub data EntryKind : Type 0 where
  tree blob blob_executable link commit : EntryKind

unfoldable pub entry_kind : EntryKind → String
entry_kind tree = "tree"
entry_kind blob = "blob"
entry_kind blob_executable = "blob"
entry_kind link = "blob"
entry_kind commit = "commit"

-- What gix decodes: the mode, and its own reading of it.
pub record RawEntry : Type 0 where
  pub mode : ℕ
  pub is_tree : Bool
  pub kind : EntryKind
  pub filename : Bytes
  pub oid : Bytes

pub data Item : Type 0 where
  entry : RawEntry → Item
  broken : Item

pub record TreeEntryState : Type 0 where
  pub mode : ℕ
  pub oid : Bytes
  pub is_tree : Bool

-- The byte at a place of the name, or the separator that ends the name of a tree.
abbrev pub next_byte : ℕ → Bytes → Bool → Option ℕ
next_byte common name is_tree = elim (get common name) [
  | some b ↦ some b
  | none ↦ if is_tree then some b'/' else none
]

-- The comparison, where `common` is the smaller length.
abbrev pub order_at : ℕ → Bytes → Bool → Bytes → Bool → Ordering
order_at common left_name left_is_tree right_name right_is_tree =
    elim (cmp (take common left_name) (take common right_name)) [
      | Ordering.eq ↦
          cmp_option (next_byte common left_name left_is_tree)
            (next_byte common right_name right_is_tree)
      | Ordering.lt ↦ Ordering.lt
      | Ordering.gt ↦ Ordering.gt
    ]

unfoldable pub git_tree_entry_order : Bytes → Bool → Bytes → Bool → Ordering
git_tree_entry_order left_name left_is_tree right_name right_is_tree =
    order_at (min (length left_name) (length right_name)) left_name left_is_tree right_name
      right_is_tree

-- The entry seen before: its name, and whether it is a tree.
abbrev pub Previous : Type 0
Previous = Option (Bytes × Bool)

abbrev pub mode_is_tree : ℕ → NativeResult Bool
mode_is_tree mode =
    if mode == 0o040000
    then ok true
    else if mode == 0o100644 || mode == 0o100755 || mode == 0o120000 || mode == 0o160000
    then ok false
    else err (native_error "corrupt_repository" "tree contains an unsupported entry mode")

abbrev pub is_unsafe_name : Bytes → Bool
is_unsafe_name name =
    bytes_eq name []
    || bytes_eq name (codes ".")
    || bytes_eq name (codes "..")
    || contains b'/' name
    || contains 0 name

abbrev pub out_of_order : Previous → Bytes → Bool → Bool
out_of_order none name is_tree = false
out_of_order (some (previous_name, previous_is_tree)) name is_tree =
    bytes_eq previous_name name
    || not (is_less (git_tree_entry_order previous_name previous_is_tree name is_tree))

-- The new value of `previous`.
unfoldable pub validate_tree_entry : Previous → Bytes → ℕ → NativeResult Previous
validate_tree_entry previous name mode = do
  is_tree ← mode_is_tree mode
  if is_unsafe_name name
      then err (native_error "corrupt_repository" "tree contains an unsafe entry name")
      else if out_of_order previous name is_tree
      then err (
          native_error "corrupt_repository" "tree entries are duplicate or not canonically ordered")
      else ok (some (name, is_tree))
