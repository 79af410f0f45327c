-- ===== src/Commits/Listing/Tests.antt =====
-- Pages of the commits of a small repository: a merge of two commits with one parent.
use fornacast.Prelude.{ℕ, ◌≡◌, ◌≢◌, refl, Option, some, List, [], ◌∷◌, ok, arith}
use fornacast.Prelude.Bytes.{Bytes, codes}
use fornacast.Prelude.Int.{pos}
use fornacast.Native.Clock.{check_deadline}
use fornacast.Compare.Budgets.{Oids, charge, new_decoded, new_commit_budget}
use fornacast.Commits.Graph.{count_parents, visit_commit, walk_rounds, walk_commit_graph_with}
use fornacast.Commits.Nodes.{check_commit_deadline}
use fornacast.Commits.Ordering.{
  first_eligible, release_parent, release_parents, order_rounds, order_commits,
}
use fornacast.Commits.Load.{find_graph_commit, decode_commit_node, load_commit_node}
use fornacast.Pages.{
  commit_page_window, commit_range_page_window, comparison_commit_limit, comparison_byte_limit,
}
use fornacast.Refs.Scan.{page_number}
use fornacast.Commits.Listing.{
  Printing, NativeCommit, native_commit, first_line, hydrate_commit, hydrate_all, commit_page,
}
use fornacast.Commits.Listing.Page.{IsPage, commit_page_exact, commit_page_returns}
use fornacast.Commits.Range.{
  preflight_object, count_commit, load_comparison_commit_node, walk_comparison_commit_graph,
  comparison_page, not_in_base, commit_range_page,
}
use fornacast.Commits.Range.Whole.{IsRangePage, commit_range_page_exact}
use fornacast.Commits.Walk.{walk_commit_graph}
use fornacast.Commits.Tests.{
  in_time, plain_hex, signature, sample, sample_distinct, depth, sample-Edge, sample_ranked,
  sample-Stored,
}

abbrev printing : Printing
printing = record { hex = λ oid. oid; text = λ text. text }

abbrev listed_commit : Bytes → Oids → ℕ → NativeCommit
listed_commit oid parents t =
    native_commit printing oid
      (record {
        author = some (signature t);
        committer = some (signature t);
        message = codes "Change";
        tree = codes "t";
        parents = parents;
      })
      (signature t) (pos t) (signature t) (pos t)

-- The second page, of three commits to a page.
sample_page :
    commit_page in_time plain_hex printing (ok sample) (codes "m") (codes "2") 3 0
    ≡ ok (some (listed_commit (codes "r") [] 5 ∷ [], 4), 41)
unfolding commit_page walk_commit_graph walk_commit_graph_with walk_rounds visit_commit
    load_commit_node find_graph_commit decode_commit_node count_parents check_commit_deadline
    check_deadline order_commits first_eligible order_rounds release_parents release_parent
    hydrate_all hydrate_commit commit_page_window first_line
sample_page = refl

commit_page_exact_example :
    (page_number (codes "2") ≢ 0)
    × IsPage printing sample (codes "m") 2 3 (some (listed_commit (codes "r") [] 5 ∷ [], 4))
commit_page_exact_example =
    commit_page_exact in_time plain_hex printing sample sample_distinct (codes "m") (codes "m") refl
      (omega arith) (codes "2") 3 0 sample_page

commit_page_returns_example :
    (o : Option (List NativeCommit × ℕ)) × (k : ℕ) × (commit_page in_time plain_hex printing
        (ok sample)
        (codes "m")
        (codes "2")
        3
        0
      ≡ ok (o, k))
    × IsPage printing sample (codes "m") (page_number (codes "2")) 3 o
commit_page_returns_example =
    commit_page_returns in_time plain_hex printing sample sample_distinct (codes "m") (codes "m")
      refl (omega arith) (λ n. refl) (omega arith) sample-Stored
      (depth, λ c p node r l h. sample_ranked c p (sample-Edge c p node l h)) (codes "2") 3 0
      (omega arith)

-- What the merge adds to its first parent.
sample_range :
    commit_range_page in_time plain_hex printing
      (ok sample)
      (codes "a")
      (codes "m")
      (codes "1")
      10
      100
      10000
      0
    ≡ ok (
      some (
        listed_commit (codes "m") (codes "a" ∷ codes "b" ∷ []) 30
            ∷ listed_commit (codes "b") (codes "r" ∷ []) 20
            ∷ [],
        2,
      ),
      69,
    )
unfolding commit_range_page comparison_page walk_comparison_commit_graph walk_commit_graph_with
    walk_rounds visit_commit load_comparison_commit_node preflight_object count_commit charge
    new_commit_budget new_decoded comparison_commit_limit comparison_byte_limit find_graph_commit
    decode_commit_node count_parents check_commit_deadline check_deadline order_commits
    first_eligible order_rounds release_parents release_parent hydrate_all hydrate_commit
    commit_range_page_window first_line not_in_base
sample_range = refl

commit_range_page_exact_example : IsRangePage printing sample (codes "a") (codes "m") 1 10 (
    some (
      listed_commit (codes "m") (codes "a" ∷ codes "b" ∷ []) 30
          ∷ listed_commit (codes "b") (codes "r" ∷ []) 20
          ∷ [],
      2,
    ))
commit_range_page_exact_example =
    commit_range_page_exact in_time plain_hex printing sample sample_distinct (omega arith)
      (codes "a") (codes "a") (codes "m") (codes "m") refl refl (codes "1") 10 100 10000 0
      sample_range
