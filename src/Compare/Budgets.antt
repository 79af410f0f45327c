-- ===== src/Compare/Budgets.antt =====
-- `DecodedByteBudget`, `ComparisonCommitBudget` and `ComparisonDiffBudget`. A set of object ids is
-- the list of its elements. A method returns its result and the budget that it leaves, since a
-- failed one keeps what it wrote.
use fornacast.Prelude.{
  ℕ, Bool, false, ◌||◌, none, some, String, List, [], ◌∷◌, ok, err, ltb, if◌then◌else◌,
}
use fornacast.Prelude.Bytes.{Bytes, bytes_eq}
use fornacast.Prelude.Word.{checked_add}
use fornacast.Native.{NativeResult, native_error}
use fornacast.Pages.{
  comparison_commit_limit, comparison_tree_entry_limit, comparison_file_limit,
  comparison_byte_limit,
}

abbrev pub Oids : Type 0
Oids = List Bytes

abbrev pub has : Bytes → Oids → Bool
has oid [] = false
has oid (x ∷ xs) = bytes_eq x oid || has oid xs

pub record DecodedByteBudget : Type 0 where
  pub seen : Oids
  pub used : ℕ
  pub limit : ℕ

pub record ComparisonCommitBudget : Type 0 where
  pub seen_commits : Oids
  pub commit_limit : ℕ
  pub decoded : DecodedByteBudget

pub record ComparisonDiffBudget : Type 0 where
  pub validated_trees : Oids
  pub tree_entries : ℕ
  pub tree_entry_limit : ℕ
  pub changed_files : ℕ
  pub file_limit : ℕ
  pub decoded : DecodedByteBudget

unfoldable pub new_decoded : ℕ → DecodedByteBudget
new_decoded limit = record { seen = []; used = 0; limit = comparison_byte_limit limit }

-- The part of `charge` behind the set: `b` has the object in `seen`.
abbrev pub add_size : ℕ → String → DecodedByteBudget → NativeResult (Unit {0}) × DecodedByteBudget
add_size decoded_size detail b = elim (checked_add b.used decoded_size) [
  | none ↦ (err (native_error "scan_byte_limit" detail), b)
  | some next ↦
      if ltb b.limit next
      then (err (native_error "scan_byte_limit" detail), b)
      else (ok tt, record b { used = next })
]

unfoldable pub charge :
    Bytes → ℕ → String → DecodedByteBudget → NativeResult (Unit {0}) × DecodedByteBudget
charge oid decoded_size detail b =
    if has oid b.seen
    then (ok tt, b)
    else add_size decoded_size detail (record b { seen = oid ∷ b.seen })

unfoldable pub new_commit_budget : ℕ → ℕ → ComparisonCommitBudget
new_commit_budget commit_limit byte_limit = record {
  seen_commits = [];
  commit_limit = comparison_commit_limit commit_limit;
  decoded = new_decoded byte_limit;
}

unfoldable pub new_diff_budget : ℕ → ℕ → ℕ → ComparisonDiffBudget
new_diff_budget tree_entry_limit file_limit byte_limit = record {
  validated_trees = [];
  tree_entries = 0;
  tree_entry_limit = comparison_tree_entry_limit tree_entry_limit;
  changed_files = 0;
  file_limit = comparison_file_limit file_limit;
  decoded = new_decoded byte_limit;
}

unfoldable pub record_tree_entry :
    ComparisonDiffBudget → NativeResult (Unit {0}) × ComparisonDiffBudget
record_tree_entry b = elim (checked_add b.tree_entries 1) [
  | none ↦ (err (native_error "tree_entry_limit" "comparison tree-entry count overflow"), b)
  | some next ↦
      if ltb b.tree_entry_limit next
      then (
        err (native_error "tree_entry_limit" "comparison diff exceeded its tree-entry limit"),
        record b { tree_entries = next },
      )
      else (ok tt, record b { tree_entries = next })
]

unfoldable pub record_changed_file :
    ComparisonDiffBudget → NativeResult (Unit {0}) × ComparisonDiffBudget
record_changed_file b = elim (checked_add b.changed_files 1) [
  | none ↦ (err (native_error "diff_file_limit" "comparison changed-file count overflow"), b)
  | some next ↦
      if ltb b.file_limit next
      then (
        err (native_error "diff_file_limit" "comparison diff exceeded its changed-file limit"),
        record b { changed_files = next },
      )
      else (ok tt, record b { changed_files = next })
]
