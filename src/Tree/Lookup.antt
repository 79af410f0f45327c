-- ===== src/Tree/Lookup.antt =====
-- What the passes that look for an entry and that count the entries find.
use fornacast.Prelude.{
  ℕ, suc, ◌+◌, ◌<◌, ◌≡◌, ◌↔◌, Option, none, some, List, [], ◌∷◌, ◌++◌, ok, arith, if◌then◌else◌,
  length,
}
use mathlib.Core.List.{map}
use fornacast.Prelude.Bytes.{Bytes, bytes_eq}
use fornacast.Prelude.Word.{u64_mod}
use fornacast.Native.Clock.{Clock, OnTime, Gives}
use fornacast.Tree.Entries.{RawEntry, Item, entry, TreeEntryState}
use fornacast.Tree.Pass.{state_of, find_step, find_raw_tree_entry, count_step}
use fornacast.Tree.Canonical.{Canonical, fold_entries, pass_exact}

-- The entries of a name.
abbrev pub named : Bytes → List RawEntry → List TreeEntryState
named name [] = []
named name (e ∷ es) = if bytes_eq e.filename name then state_of e ∷ named name es else named name es

abbrev pub to_list : Option TreeEntryState → List TreeEntryState
to_list none = []
to_list (some x) = x ∷ []

pub find_fold :
    (name : Bytes) (es : List RawEntry) (before found : Option TreeEntryState)
    → (fold_entries (find_step name) es before ≡ ok found)
      ↔ (to_list before ++ named name es ≡ to_list found)
unfolding fold_entries
find_fold name [] none none = ground arith
find_fold name [] none (some y) = ground arith
find_fold name [] (some x) none = ground arith
find_fold name [] (some x) (some y) = ground arith
find_fold name (e ∷ es) none found =
    ground (arith, find_fold name es none found, find_fold name es (some (state_of e)) found)
find_fold name (e ∷ es) (some x) none = ground (arith, find_fold name es (some x) none)
find_fold name (e ∷ es) (some x) (some y) = ground (arith, find_fold name es (some x) (some y))

-- In time, the entry of a name is looked up with success exactly when the object decodes whole into
-- a canonical sequence of entries; what is found is the only entry of that name, or there is none.
pub find_raw_tree_entry_exact :
    (late : Clock) (items : List Item) (name : Bytes) (n : ℕ) (found : Option TreeEntryState)
    → OnTime late
    → Gives (find_raw_tree_entry late items name n) found ↔ (
        (es : List RawEntry) × (items ≡ map entry es)
        × Canonical none es
        × (named name es ≡ to_list found))
unfolding find_raw_tree_entry
find_raw_tree_entry_exact late items name n found on_time =
    let exact = pass_exact late (find_step name) items none n found on_time in
    (
      λ g.
          let (es, is, canonical, folded) = exact.0 g in
          (es, is, canonical, (find_fold name es none found).0 folded),
      λ (es, is, canonical, listed).
          exact.1 (es, is, canonical, (find_fold name es none found).1 listed),
    )

abbrev pub trees : List RawEntry → ℕ
trees [] = 0
trees (e ∷ es) = if e.is_tree then suc (trees es) else trees es

pub count_fold :
    (es : List RawEntry) (total directories : ℕ)
    → total + length es < u64_mod
    → directories + length es < u64_mod
    → fold_entries count_step es (total, directories)
      ≡ ok (total + length es, directories + trees es)
unfolding fold_entries
count_fold [] total directories h k = ground arith
count_fold (e ∷ es) total directories h k = ground (
  arith,
  count_fold es (total + 1) directories (omega arith) (omega arith),
  count_fold es (total + 1) (directories + 1) (omega arith) (omega arith),
)
