-- ===== src/Commits/Range/Whole.antt =====
-- What `commit_range_page` shows of the commits of a comparison.
use fornacast.Prelude.{ℕ, ◌≤◌, ◌≡◌, refl, sym, subst, Option, some, List, length, ok, arith}
use fornacast.Prelude.Bytes.{Bytes}
use fornacast.Prelude.Word.{u64_max, clamp}
use fornacast.Native.Clock.{Clock, lift}
use fornacast.Native.Outcome.{Outcome, Outcome-bind, Outcome-imply, Outcome-eq_ok}
use fornacast.Pages.{commit_page_limit, commit_range_page_window}
use fornacast.Compare.Budgets.{Oids, ComparisonCommitBudget, new_commit_budget}
use fornacast.Refs.Scan.{page_number}
use fornacast.Commits.Graph.{FromHex}
use fornacast.Commits.Nodes.{check_commit_deadline, OrderedCommitGraph}
use fornacast.Commits.Graph.Maps.{DistinctKeys}
use fornacast.Commits.Graph.Parents.{Reach}
use fornacast.Commits.Graph.Reached.{IsWalk, length-ordered}
use fornacast.Commits.Load.{Repository}
use fornacast.Commits.Load.Store.{commits_of, commits_of-DistinctKeys}
use fornacast.Commits.Listing.{Printing, NativeCommit, hydrate_all, window_of}
use fornacast.Commits.Listing.Hydrated.{Any, deadline, hydrate_all-ShowsAll, ShowsAll}
use fornacast.Commits.Listing.Page.{page_entries, window_of-page_entries, length-commits_of}
use fornacast.Commits.Range.{
  walk_comparison_commit_graph, comparison_page, not_in_base, range_page, head_page, base_page,
  commit_range_page,
}
use fornacast.Commits.Range.Difference.{
  Without, Without-length, valid_page, not_in_base-Without, Walks, walk_comparison-Walks,
}

-- A page of the commits that the head reaches and the base does not, in the order of the head's
-- graph, and their number.
abbrev pub IsRangePage :
    Printing → Repository → Bytes → Bytes → ℕ → ℕ → Option (List NativeCommit × ℕ) → Type 0
IsRangePage p repo base_oid head_oid number per_page o =
    (g : OrderedCommitGraph) × (range : Oids) × (commits : List NativeCommit) × IsWalk
      (commits_of repo) head_oid g
    × Without (Reach (commits_of repo) base_oid) g.ordered range
    × (o ≡ some (commits, length range))
    × ShowsAll p repo (page_entries number (clamp 1 commit_page_limit per_page) range) commits

module _ (late : Clock) (from_hex : FromHex) (p : Printing) (repo : Repository)
    (distinct : DistinctKeys repo) (few : length repo ≤ u64_max)
    (base_text base_oid head_text head_oid : Bytes) (base_hex : from_hex base_text ≡ some base_oid)
    (head_hex : from_hex head_text ≡ some head_oid) where
  same_window :
      (number per_page : ℕ) (range : Oids)
      → length range ≤ u64_max
      → window_of (commit_range_page_window (length range) number per_page) range
        ≡ page_entries number (clamp 1 commit_page_limit per_page) range
  unfolding commit_range_page_window
  same_window number per_page range h = window_of-page_entries number per_page range h

  abbrev Shown : ℕ → ℕ → Oids → Option (List NativeCommit × ℕ) → Type 0
  Shown number per_page range o =
      (commits : List NativeCommit) × (o ≡ some (commits, length range))
      × ShowsAll p repo (page_entries number (clamp 1 commit_page_limit per_page) range) commits

  range_page-Shown :
      (number per_page : ℕ) (range : Oids) (n : ℕ)
      → length range ≤ u64_max
      → Outcome Any (Shown number per_page range) (range_page late p repo number per_page range n)
  range_page-Shown number per_page range n h =
      let Q = Shown number per_page range in
      let oids = window_of (commit_range_page_window (length range) number per_page) range in
      Outcome-bind Any (ShowsAll p repo oids) Q (hydrate_all late p repo oids) _ n
        (hydrate_all-ShowsAll late p repo oids n)
        λ cs n1 shown.
          Outcome-bind Any (λ (u : Unit {0}). Unit {0}) Q (check_commit_deadline late) _ n1
            (deadline late p repo n1)
            λ _ n2 _. (
              cs,
              refl,
              subst (λ l. ShowsAll p repo l cs) (same_window number per_page range h) shown,
            )

  abbrev Q' : ℕ → ℕ → Option (List NativeCommit × ℕ) → Type 0
  Q' number per_page = IsRangePage p repo base_oid head_oid number per_page

  head_page-IsRangePage :
      (number per_page : ℕ) (base g : OrderedCommitGraph) (b : ComparisonCommitBudget) (n : ℕ)
      → IsWalk (commits_of repo) base_oid base
      → IsWalk (commits_of repo) head_oid g
      → Outcome Any
          (Q' number per_page)
          (head_page late p repo number per_page base (some (g, b)) n)
  head_page-IsRangePage number per_page base g b n base_walk walk =
      let range = not_in_base base.nodes g.ordered in
      let without = not_in_base-Without (commits_of repo) base_oid base base_walk g.ordered in
      let small : length range ≤ u64_max = omega (
        arith,
        few,
        length-commits_of repo,
        Without-length without,
        length-ordered (commits_of repo) head_oid (commits_of-DistinctKeys repo distinct) g walk,
      ) in
      Outcome-imply Any (Shown number per_page range) (Q' number per_page)
        (range_page late p repo number per_page range n)
        (λ o (cs, e, shown). (g, range, cs, walk, without, e, shown))
        (range_page-Shown number per_page range n small)

  base_page-IsRangePage :
      (number per_page : ℕ) (base : OrderedCommitGraph) (b : ComparisonCommitBudget) (n : ℕ)
      → IsWalk (commits_of repo) base_oid base
      → Outcome Any
          (Q' number per_page)
          (base_page late from_hex p repo head_text number per_page (some (base, b)) n)
  base_page-IsRangePage number per_page base b n base_walk =
      Outcome-bind Any (Walks late from_hex p repo distinct head_oid) (Q' number per_page)
        (walk_comparison_commit_graph late from_hex repo head_text b) _ n
        (walk_comparison-Walks late from_hex p repo distinct head_text head_oid head_hex b n)
        λ o k (g, b', is, walk, _).
          subst
            (λ x. Outcome Any (Q' number per_page) (head_page late p repo number per_page base x k))
            (sym is) (head_page-IsRangePage number per_page base g b' k base_walk walk)

  -- A page of a comparison that is returned, with the ids read by gix and no more than 2^64 - 1
  -- objects in the repository, shows exactly the entries of that page of the commits that the head
  -- reaches and the base does not, in the order of the head's graph and each as the repository has
  -- it, and reports their number.
  pub commit_range_page_exact :
      (page : Bytes) (per_page commit_limit byte_limit n : ℕ) {o : Option (List NativeCommit × ℕ)}
      {k : ℕ}
      → commit_range_page late from_hex p
          (ok repo)
          base_text
          head_text
          page
          per_page
          commit_limit
          byte_limit
          n
        ≡ ok (o, k)
      → IsRangePage p repo base_oid head_oid (page_number page) per_page o
  unfolding commit_range_page
  commit_range_page_exact page per_page commit_limit byte_limit n h =
      let Q = Q' (page_number page) per_page in
      let b = new_commit_budget commit_limit byte_limit in
      Outcome-eq_ok Any Q _ h (
        Outcome-bind Any (λ number. number ≡ page_number page) Q (lift (comparison_page page)) _ n
          (valid_page page n)
          λ number n1 is.
            Outcome-bind Any (λ (u : Unit {0}). Unit {0}) Q (check_commit_deadline late) _ n1
              (deadline late p repo n1)
              λ _ n2 _.
                Outcome-bind Any (Walks late from_hex p repo distinct base_oid) Q
                  (walk_comparison_commit_graph late from_hex repo base_text b) _ n2
                  (walk_comparison-Walks late from_hex p repo distinct base_text base_oid base_hex b
                    n2)
                  λ o n3 (g, b', e, walk, _).
                    subst
                      (λ x.
                        Outcome Any Q
                          (base_page late from_hex p repo head_text number per_page x n3))
                      (sym e)
                      (subst
                        (λ y.
                          Outcome Any Q
                            (base_page late from_hex p repo head_text y per_page (some (g, b')) n3))
                        (sym is) (base_page-IsRangePage (page_number page) per_page g b' n3 walk)))
