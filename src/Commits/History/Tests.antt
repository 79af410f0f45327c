-- ===== src/Commits/History/Tests.antt =====
-- A file of the first commit and a file of the second one, in the listing of their tree.
use fornacast.Prelude.{ℕ, ◌≡◌, refl, Option, some, [], ◌∷◌, false, ok}
use fornacast.Prelude.Bytes.{Bytes, codes}
use fornacast.Prelude.Int.{pos}
use fornacast.Native.Clock.{Clock, check_deadline}
use fornacast.Receive.PackHeader.{Kind}
use fornacast.Compare.Budgets.{Oids}
use fornacast.Pages.{tree_page_window}
use fornacast.Tree.Entries.{
  EntryKind, RawEntry, entry, git_tree_entry_order, validate_tree_entry, entry_kind,
}
use fornacast.Tree.Pass
use fornacast.Tree.Pass.{
  direct_entry, check_tree_history_deadline, for_entries, pass, find_raw_tree_entry,
  retained_tree_states, next_raw_name_batch, insert, last_key, pop_last, octal,
}
use fornacast.Tree.Listing.{
  safe_git_path_components, window_rounds, retain_raw_name_window, retain_direct_tree_page,
  count_direct_tree_entries,
}
use fornacast.Commits.Nodes.{check_commit_deadline}
use fornacast.Commits.Graph.{
  FromHex, count_parents, visit_commit, walk_rounds, walk_commit_graph_with,
}
use fornacast.Commits.Graph.Maps.{DistinctKeys}
use fornacast.Commits.Ordering.{
  first_eligible, release_parent, release_parents, order_rounds, order_commits,
}
use fornacast.Commits.Load.{
  GitSignature, commit_object, StoredEntry, Repository, find_graph_commit, decode_commit_node,
  load_commit_node,
}
use fornacast.Commits.Walk.{walk_commit_graph}
use fornacast.Commits.Listing.{Printing, NativeTreeCommit, first_line, hydrate_tree_commit}
use fornacast.Commits.History.Physical.{
  Trees, tree_object, load_physical_tree, descend, tree_for_git_path,
}
use fornacast.Commits.History.{
  TreePage, commit_states, touched, put_all, add_touched, latest_commits, rows_of,
  read_tree_with_history,
}
use fornacast.Commits.History.Whole.{IsHistoryPage, read_tree_with_history_exact}

abbrev in_time : Clock
in_time n = false

abbrev plain_hex : FromHex
plain_hex text = some text

abbrev printing : Printing
printing = record { hex = λ oid. oid; text = λ text. text }

abbrev signature : ℕ → GitSignature
signature t = record { name = codes "Ada"; email = codes "ada@example.org"; time = some (pos t) }

abbrev stored : Bytes → Bytes → Oids → ℕ → Bytes × StoredEntry
stored oid tree_oid parents t = (
  oid,
  record {
    header = ok (record { kind = Kind.commit; size = 200 });
    object = ok (
        commit_object (record {
          data_length = 200;
          decoded = some (record {
            author = some (signature t);
            committer = some (signature t);
            message = codes "Change";
            tree = tree_oid;
            parents = parents;
          });
        }));
  },
)

abbrev history : Repository
history =
    stored (codes "c2") (codes "t2") (codes "c1" ∷ []) 20
    ∷ stored (codes "c1") (codes "t1") [] 10
    ∷ []

abbrev file : Bytes → Bytes → RawEntry
file name oid = record {
  mode = 0o100644;
  is_tree = false;
  kind = EntryKind.blob;
  filename = name;
  oid = oid;
}

abbrev trees : Trees
trees =
    (
      codes "t2",
      ok (
          tree_object
            (entry (file (codes "f") (codes "1")) ∷ entry (file (codes "g") (codes "2")) ∷ [])),
    )
    ∷ (codes "t1", ok (tree_object (entry (file (codes "f") (codes "1")) ∷ [])))
    ∷ []

abbrev changed_at : Bytes → ℕ → NativeTreeCommit
changed_at oid t = record {
  oid = oid;
  title = codes "Change";
  author_name = codes "Ada";
  author_time = pos t;
}

abbrev rows : Option TreePage
rows = some (
  (direct_entry (file (codes "f") (codes "1")), changed_at (codes "c1") 10)
      ∷ (direct_entry (file (codes "g") (codes "2")), changed_at (codes "c2") 20)
      ∷ [],
  2,
)

history_distinct : DistinctKeys history
history_distinct = (refl, (refl, tt))

history_page :
    read_tree_with_history in_time plain_hex printing
      (ok history)
      trees
      (codes "c2")
      []
      (codes "1")
      10
      0
    ≡ ok (rows, 59)
unfolding read_tree_with_history safe_git_path_components load_commit_node find_graph_commit
    decode_commit_node check_commit_deadline check_deadline check_tree_history_deadline
    tree_for_git_path load_physical_tree descend find_raw_tree_entry pass for_entries
    validate_tree_entry git_tree_entry_order count_direct_tree_entries retain_direct_tree_page
    retain_raw_name_window window_rounds next_raw_name_batch insert last_key pop_last octal
    entry_kind tree_page_window walk_commit_graph walk_commit_graph_with walk_rounds visit_commit
    count_parents order_commits first_eligible order_rounds release_parents release_parent
    latest_commits commit_states retained_tree_states Pass.lookup touched put_all add_touched
    hydrate_tree_commit first_line rows_of
history_page = refl

read_tree_with_history_exact_example :
    IsHistoryPage in_time printing history trees (codes "c2") [] 1 10 rows
unfolding safe_git_path_components
read_tree_with_history_exact_example =
    read_tree_with_history_exact in_time plain_hex printing history trees history_distinct
      (codes "c2") (codes "c2") refl [] [] refl (codes "1") 10 0 history_page
