-- ===== src/Commits/History/Whole.antt =====
-- What a page of a tree with its history shows: `read_tree_with_history`.
use fornacast.Prelude.{
  ℕ, ◌≡◌, inl, inr, refl, sym, ap, subst, true, Option, some, List, none, length, ok, ◌==◌,
  Bool-cases,
}
use fornacast.Prelude.Bytes.{Bytes}
use fornacast.Native.{ok_or}
use fornacast.Native.Clock.{Clock, Timed, lift, ◌>>=◌, ◌>>◌}
use fornacast.Native.Outcome.{
  Outcome, Outcome-bind, Outcome-ok_or, Outcome-weaken, Outcome-imply, Outcome-eq_ok, Outcome-any,
  Outcome-lift, Outcome-Returned, Returned,
}
use fornacast.Pages.{tree_page_window}
use fornacast.Refs.Scan.{page_number}
use fornacast.Tree.Pass.{DirectTreeEntry, check_tree_history_deadline}
use fornacast.Tree.Listing.{
  safe_git_path_components, count_direct_tree_entries, retain_direct_tree_page,
}
use fornacast.Commits.Nodes.{CommitNode, OrderedCommitGraph, tip}
use fornacast.Commits.Graph.{FromHex, invalid_oid}
use fornacast.Commits.Graph.Maps.{DistinctKeys}
use fornacast.Commits.Graph.Reached.{IsWalk}
use fornacast.Commits.Load.{Repository, load_commit_node}
use fornacast.Commits.Load.Store.{commits_of}
use fornacast.Commits.Walk.{walk_commit_graph}
use fornacast.Commits.Walk.Whole.{WalkError, GivesWalk, walk_commit_graph_exact}
use fornacast.Commits.Listing.{Printing}
use fornacast.Commits.Listing.Hydrated.{Any}
use fornacast.Commits.History.Physical.{Trees, PhysicalTree, tree_for_git_path}
use fornacast.Commits.History.{TreePage, required_tree, history_rows, read_tree_with_history}
use fornacast.Commits.History.Paths.{TreeAt, tree_for_git_path-TreeAt}
use fornacast.Tree.Entries.{RawEntry, entry}
use fornacast.Tree.Canonical.{Canonical}
use fornacast.Tree.Lookup
use fornacast.Tree.States.{count_direct_tree_entries-counts}
use fornacast.Commits.Graph.Release.{Loaded}
use fornacast.Commits.Load.Reads.{LoadError, load_commit_node-loads}
use mathlib.Core.List.{map}
use fornacast.Commits.History.Shown.{ShowsRows, history_rows-ShowsRows}

-- The entries of the tree at the path in the tip's commit, their number, and the entries of the page
-- as the listing of a tree reads them.
abbrev pub ReadsPage :
    Clock → Repository → Trees → Bytes → List Bytes → ℕ → ℕ → ℕ → List DirectTreeEntry → Type 0
ReadsPage late repo trees tip_oid components number per_page total selected =
    (node : CommitNode) × (tree : PhysicalTree) × (es : List RawEntry) × Loaded (commits_of repo)
      tip_oid node
    × TreeAt trees node.tree components (some tree)
    × (tree.items ≡ map entry es)
    × Canonical none es
    × (total ≡ length es)
    × Returned
        (retain_direct_tree_page late tree.items (length es) (Lookup.trees es)
          (tree_page_window (length es) number per_page))
        selected

reads_page :
    (late : Clock) (repo : Repository) (trees : Trees) (tip_oid : Bytes) (components : List Bytes)
    (number per_page : ℕ) (node : CommitNode) (tree : PhysicalTree) (counts : ℕ × ℕ)
    (selected : List DirectTreeEntry)
    → Returned (load_commit_node late repo tip_oid tip) node
    → Returned (tree_for_git_path late trees node.tree components true) (some tree)
    → Returned (count_direct_tree_entries late tree.items) counts
    → Returned
        (retain_direct_tree_page late tree.items counts.0 counts.1
          (tree_page_window counts.0 number per_page))
        selected
    → ReadsPage late repo trees tip_oid components number per_page counts.0 selected
reads_page late repo trees tip_oid components number per_page node tree counts selected
      (n, k, loads) (n1, k1, at_path) (n2, k2, counted) retained =
    let (es, is, canonical, total, directories) =
      count_direct_tree_entries-counts late tree.items n2 counted in
    let whole =
      Outcome-eq_ok (LoadError late repo tip tip_oid) (Loaded (commits_of repo) tip_oid) _ loads
        (load_commit_node-loads late repo tip_oid tip n) in
    (
      node,
      tree,
      es,
      whole,
      tree_for_git_path-TreeAt trees late node.tree components true n1 at_path,
      is,
      canonical,
      total,
      subst
          (λ d.
            Returned
              (retain_direct_tree_page late tree.items (length es) d
                (tree_page_window (length es) number per_page))
              selected)
          directories
          (subst
            (λ t.
              Returned
                (retain_direct_tree_page late tree.items t counts.1
                  (tree_page_window t number per_page))
                selected)
            total retained),
    )

abbrev pub IsHistoryPage :
    Clock → Printing → Repository → Trees → Bytes → List Bytes → ℕ → ℕ → Option TreePage → Type 0
IsHistoryPage late p repo trees tip_oid components number per_page o =
    (total : ℕ) × (selected : List DirectTreeEntry) × (g : OrderedCommitGraph) × ReadsPage late repo
      trees tip_oid components number per_page total selected
    × IsWalk (commits_of repo) tip_oid g
    × ShowsRows p repo trees g components selected total o

module _ (late : Clock) (from_hex : FromHex) (p : Printing) (repo : Repository) (trees : Trees)
    (distinct : DistinctKeys repo) (snapshot_oid tip_oid : Bytes)
    (hex : from_hex snapshot_oid ≡ some tip_oid) (tree_path : Bytes) (components : List Bytes)
    (safe : safe_git_path_components tree_path ≡ ok components) where
  -- The reads behind the checks of the page and the path.
  abbrev read_page : ℕ → ℕ → List Bytes → Timed (Option TreePage)
  read_page number per_page components = do
    check_tree_history_deadline late
    tip_oid ← lift (ok_or (from_hex snapshot_oid) invalid_oid)
    tip_node ← load_commit_node late repo tip_oid tip
    found ← tree_for_git_path late trees tip_node.tree components true
    selected_tree ← lift (required_tree found)
    counts ← count_direct_tree_entries late selected_tree.items
    selected ←
        retain_direct_tree_page late selected_tree.items counts.0 counts.1
          (tree_page_window counts.0 number per_page)
    graph ← walk_commit_graph late from_hex repo snapshot_oid
    history_rows late p repo trees components counts.0 selected graph

  read_page-IsHistoryPage :
      (number per_page n : ℕ)
      → Outcome Any
          (IsHistoryPage late p repo trees tip_oid components number per_page)
          (read_page number per_page components n)
  read_page-IsHistoryPage number per_page n =
      let Q = IsHistoryPage late p repo trees tip_oid components number per_page in
      Outcome-bind Any (λ (u : Unit {0}). Unit {0}) Q (check_tree_history_deadline late) _ n
        (Outcome-any (check_tree_history_deadline late n))
        λ _ n1 _.
          Outcome-bind Any (λ x. x ≡ tip_oid) Q (lift (ok_or (from_hex snapshot_oid) invalid_oid)) _
            n1
            (Outcome-lift Any (λ x. x ≡ tip_oid) (ok_or (from_hex snapshot_oid) invalid_oid) n1
              (ap (λ x. ok_or x invalid_oid) hex) refl)
            λ x n2 x_is.
              Outcome-bind Any (Returned (load_commit_node late repo x tip)) Q
                (load_commit_node late repo x tip) _ n2
                (Outcome-Returned Any (load_commit_node late repo x tip) n2 (λ e. tt))
                λ node n3 has_node.
                  Outcome-bind Any
                    (Returned (tree_for_git_path late trees node.tree components true)) Q
                    (tree_for_git_path late trees node.tree components true) _ n3
                    (Outcome-Returned Any (tree_for_git_path late trees node.tree components true)
                      n3 (λ e. tt))
                    λ found n4 has_found.
                      Outcome-bind Any (λ tree. found ≡ some tree) Q (lift (required_tree found)) _
                        n4 (Outcome-ok_or Any found _ n4 (λ e. tt))
                        λ tree n5 found_is.
                          Outcome-bind Any (Returned (count_direct_tree_entries late tree.items)) Q
                            (count_direct_tree_entries late tree.items) _ n5
                            (Outcome-Returned Any (count_direct_tree_entries late tree.items) n5
                              (λ e. tt))
                            λ counts n6 has_counts.
                              let retained =
                                retain_direct_tree_page late tree.items counts.0 counts.1
                                  (tree_page_window counts.0 number per_page) in
                              Outcome-bind Any (Returned retained) Q retained _ n6
                                (Outcome-Returned Any retained n6 (λ e. tt))
                                λ selected n7 has_selected.
                                  Outcome-bind Any (GivesWalk repo tip_oid) Q
                                    (walk_commit_graph late from_hex repo snapshot_oid) _ n7
                                    (Outcome-weaken (WalkError late repo tip_oid) Any
                                      (GivesWalk repo tip_oid)
                                      (walk_commit_graph late from_hex repo snapshot_oid n7)
                                      (λ e h. tt)
                                      (walk_commit_graph_exact late from_hex repo distinct
                                        snapshot_oid tip_oid hex n7))
                                    λ o n8 (g, is, walk).
                                      subst
                                        (λ y. Outcome Any Q (
                                          history_rows late p repo trees components counts.0
                                            selected y n8))
                                        (sym is)
                                        (Outcome-imply Any
                                          (ShowsRows p repo trees g components selected counts.0) Q
                                          (history_rows late p repo trees components counts.0
                                            selected (some g) n8)
                                          (λ r shows. (
                                            counts.0,
                                            selected,
                                            g,
                                            reads_page late repo trees tip_oid components number
                                                per_page node tree counts selected
                                                (subst
                                                  (λ y.
                                                    Returned (load_commit_node late repo y tip)
                                                      node)
                                                  x_is has_node)
                                                (subst
                                                  (Returned (
                                                    tree_for_git_path late trees node.tree
                                                      components true))
                                                  found_is has_found)
                                                has_counts has_selected,
                                            walk,
                                            shows,
                                          ))
                                          (history_rows-ShowsRows late p repo trees g tip_oid
                                            components counts.0 selected n8 walk))

  -- A page of a tree that is returned, with the snapshot's id read by gix and a safe path, has the
  -- entries that the listing of a tree reads from the tree at the path in the snapshot's commit, one
  -- row each in that order, and the number of all entries of that tree. The commit of a row is as the
  -- repository has it, and it is the first one, in the order of the walk over all commits of the
  -- snapshot, that alters the entry: it has it and its first parent has not, or the other way round,
  -- or the mode or the object differs. The commits before it all keep the entry as their first parents
  -- have it, or have the same tree at the path.
  pub read_tree_with_history_exact :
      (page : Bytes) (per_page n : ℕ) {o : Option TreePage} {k : ℕ}
      → read_tree_with_history late from_hex p
          (ok repo)
          trees
          snapshot_oid
          tree_path
          page
          per_page
          n
        ≡ ok (o, k)
      → IsHistoryPage late p repo trees tip_oid components (page_number page) per_page o
  unfolding read_tree_with_history
  read_tree_with_history_exact page per_page n {o} {k} h =
      elim (Bool-cases (page_number page == 0)) [
        | inl zero_page ↦ absurd (cc (rw zero_page at h))
        | inr positive ↦
            let number = page_number page in
            let Q = IsHistoryPage late p repo trees tip_oid components number per_page in
            Outcome-eq_ok Any Q _ (rw positive at h) (
              Outcome-bind Any (λ c. c ≡ components) Q (lift (safe_git_path_components tree_path)) _
                n
                (Outcome-lift Any (λ c. c ≡ components) (safe_git_path_components tree_path) n safe
                  refl)
                λ c n1 c_is.
                  subst (λ c. Outcome Any Q (read_page number per_page c n1)) (sym c_is)
                    (read_page-IsHistoryPage number per_page n1))
      ]
