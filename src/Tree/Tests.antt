-- ===== src/Tree/Tests.antt =====
-- A small tree object, and the theorems at concrete inputs.

use fornacast.Prelude.{
  take, inl, inr, true, false, ◌≡◌, ◌↔◌, refl, none, some, List, [], ◌∷◌, ok, ◌==◌,
}
use mathlib.Core.List.{map}
use fornacast.Prelude.Bytes.{codes, cmp}
use fornacast.Native.Clock.{Clock, Gives, check_deadline}
use fornacast.Tree.Entries.{
  tree, blob, RawEntry, Item, entry, Previous, git_tree_entry_order, validate_tree_entry,
  entry_kind,
}
use fornacast.Tree.Order.{sort_key, git_tree_entry_order_exact}
use fornacast.Tree.Pass.{
  state_of, check_tree_history_deadline, for_entries, pass, find_raw_tree_entry,
  next_raw_name_batch, insert, last_key, pop_last, octal,
}
use fornacast.Tree.Canonical.{Canonical, Acceptable, validate_tree_entry_exact}
use fornacast.Tree.Retain.{Sorted}
use fornacast.Tree.Batches.{listing, next_raw_name_batch_exact}
use fornacast.Tree.Lookup.{named, to_list, find_raw_tree_entry_exact}

abbrev never : Clock
never n = false

-- The file `a-b` stands before the directory `a`.
abbrev file_a_b : RawEntry
file_a_b = record {
  mode = 0o100644;
  is_tree = false;
  kind = blob;
  filename = codes "a-b";
  oid = codes "01";
}

abbrev dir_a : RawEntry
dir_a = record {
  mode = 0o040000;
  is_tree = true;
  kind = tree;
  filename = codes "a";
  oid = codes "02";
}

abbrev items : List Item
items = entry file_a_b ∷ entry dir_a ∷ []

git_tree_entry_order_exact_example :
    git_tree_entry_order (codes "a") true (codes "a-b") false
    ≡ cmp (sort_key (codes "a") true) (sort_key (codes "a-b") false)
git_tree_entry_order_exact_example =
    git_tree_entry_order_exact (codes "a") true (codes "a-b") false refl refl

abbrev before_a : Previous
before_a = some (codes "a-b", false)

validate_tree_entry_exact_example :
    (validate_tree_entry before_a (codes "a") 0o040000 ≡ ok (some (codes "a", true))) ↔ (
      Acceptable before_a (codes "a") 0o040000
      × (◌≡◌ {A = Previous} (some (codes "a", true)) (some (codes "a", 0o040000 == 0o040000))))
validate_tree_entry_exact_example =
    validate_tree_entry_exact before_a (codes "a") 0o040000 (some (codes "a", true)) refl

found_a :
    find_raw_tree_entry never items (codes "a") 0
    ≡ ok (some (record { mode = 0o040000; oid = codes "02"; is_tree = true }), 3)
unfolding find_raw_tree_entry pass for_entries check_tree_history_deadline check_deadline
    validate_tree_entry git_tree_entry_order
found_a = refl

first_name :
    next_raw_name_batch never items false none 1 0
    ≡ ok (
      (
        codes "a-b",
        record { name = codes "a-b"; kind = "blob"; mode = codes "100644"; oid = codes "01" },
      )
          ∷ [],
      3,
    )
unfolding next_raw_name_batch pass for_entries check_tree_history_deadline check_deadline
    validate_tree_entry git_tree_entry_order insert last_key pop_last octal entry_kind
first_name = refl

find_raw_tree_entry_exact_example :
    Gives (find_raw_tree_entry never items (codes "a") 0) (some (state_of dir_a)) ↔ (
      (es : List RawEntry) × (items ≡ map entry es)
      × Canonical none es
      × (named (codes "a") es ≡ to_list (some (state_of dir_a))))
find_raw_tree_entry_exact_example =
    find_raw_tree_entry_exact never items (codes "a") 0 (some (state_of dir_a)) (λ n. refl)

small-Canonical : Canonical none (file_a_b ∷ dir_a ∷ [])
small-Canonical = ((inr (inl refl), refl, tt), ((inl refl, refl, (λ e. cc, refl)), tt))

next_raw_name_batch_exact_example :
    Gives
      (next_raw_name_batch never items false none 1 0)
      (take 1 (listing false none (file_a_b ∷ dir_a ∷ []) []))
    × Sorted (listing false none (file_a_b ∷ dir_a ∷ []) [])
next_raw_name_batch_exact_example =
    next_raw_name_batch_exact never (file_a_b ∷ dir_a ∷ []) false none 1 0 (λ n. refl)
      small-Canonical (refl, (refl, tt))
