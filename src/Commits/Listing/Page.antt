-- ===== src/Commits/Listing/Page.antt =====
-- What `commit_page` and `commit_summary` show of the commits that a snapshot reaches.
use fornacast.Prelude.{
  ℕ, suc, zero, ◌-◌, ◌*◌, ◌≤◌, ◌<◌, ◌≡◌, ◌≢◌, inl, inr, refl, sym, ap, ◌∙◌, subst, min, Option,
  some, false, List, [], ◌∷◌, ◌++◌, length, take, drop, length-drop, All-take, All-drop, All-imply,
  ok, ◌==◌, arith, Bool-cases,
}
use fornacast.Prelude.Bytes.{Bytes}
use fornacast.Prelude.Word.{u64_mod, u64_max, clamp}
use fornacast.Native.Clock.{Clock, OnTime, ◌>>=◌}
use fornacast.Native.Outcome.{
  Outcome, Outcome-bind, Outcome-weaken, Outcome-eq_ok, Outcome-imply, Outcome-value,
}
use fornacast.Pages.{commit_page_limit, commit_page_window}
use fornacast.Compare.Budgets.{Oids}
use fornacast.Refs.Scan.{page_number}
use fornacast.Commits.Graph.{FromHex}
use fornacast.Commits.Nodes.{CommitNode, Nodes, check_commit_deadline, OrderedCommitGraph}
use fornacast.Commits.Graph.Maps.{DistinctKeys}
use fornacast.Commits.Graph.Release.{Loaded, CommitTimeout, Outcome-commit_deadline, AllLoaded}
use fornacast.Commits.Graph.Order.{IsOrder}
use fornacast.Commits.Graph.Parents.{Reach, parents_left}
use fornacast.Commits.Graph.Reached.{IsWalk, IsRanked, length-ordered}
use fornacast.Commits.Load.{Repository}
use fornacast.Commits.Load.Store.{commits_of, commits_of-DistinctKeys, with_node-length}
use fornacast.Commits.Walk.{walk_commit_graph}
use fornacast.Commits.Walk.Whole.{WalkError, GivesWalk, walk_commit_graph_exact, no_error}
use fornacast.Commits.Listing.{Printing, NativeCommit, hydrate_all, window_of, page_of, commit_page}
use fornacast.Commits.Listing.Hydrated.{ShowsAll, hydrate_all-Loaded}

take-min : {A : Type 0} (n : ℕ) (xs : List A) → take (min n (length xs)) xs ≡ take n xs
take-min zero xs = let e : min 0 (length xs) ≡ 0 = omega arith in ap (λ k. take k xs) e
take-min (suc n) [] = let e : min (suc n) 0 ≡ 0 = omega arith in ap (λ k. take k []) e
take-min (suc n) (x ∷ xs) =
    let e : min (suc n) (length (x ∷ xs)) ≡ suc (min n (length xs)) = omega arith in
    ap (λ k. take k (x ∷ xs)) e ∙ ap (λ l. x ∷ l) (take-min n xs)

drop-min : {A : Type 0} (n : ℕ) (xs : List A) → drop (min n (length xs)) xs ≡ drop n xs
drop-min zero xs = let e : min 0 (length xs) ≡ 0 = omega arith in ap (λ k. drop k xs) e
drop-min (suc n) [] = let e : min (suc n) 0 ≡ 0 = omega arith in ap (λ k. drop k []) e
drop-min (suc n) (x ∷ xs) =
    let e : min (suc n) (length (x ∷ xs)) ≡ suc (min n (length xs)) = omega arith in
    ap (λ k. drop k (x ∷ xs)) e ∙ drop-min n xs

-- The entries of a page, counted from 1.
abbrev pub page_entries : {A : Type 0} → ℕ → ℕ → List A → List A
page_entries page size xs = take size (drop ((page - 1) * size) xs)

pub window_of-page_entries :
    {A : Type 0} (page per_page : ℕ) (xs : List A)
    → length xs ≤ u64_max
    → window_of (commit_page_window (length xs) page per_page) xs
      ≡ page_entries page (clamp 1 commit_page_limit per_page) xs
unfolding commit_page_window
window_of-page_entries page per_page xs h =
    let size = clamp 1 commit_page_limit per_page in
    let w = commit_page_window (length xs) page per_page in
    let first : w.start ≡ min ((page - 1) * size) (length xs) = omega arith in
    let count : w.end - w.start ≡ min size (length (drop ((page - 1) * size) xs)) =
      omega (arith, length-drop ((page - 1) * size) xs) in
    ap (λ k. take (w.end - w.start) (drop k xs)) first
    ∙ ap (take (w.end - w.start)) (drop-min ((page - 1) * size) xs)
    ∙ ap (λ k. take k (drop ((page - 1) * size) xs)) count
    ∙ take-min size (drop ((page - 1) * size) xs)

-- The commits of a repository are no more than its objects.
pub length-commits_of : (repo : Repository) → length (commits_of repo) ≤ length repo
length-commits_of [] = omega arith
length-commits_of ((id, entry) ∷ repo) =
    omega (arith, length-commits_of repo, with_node-length id _ (commits_of repo))

-- A page of a graph, and the number of all its commits.
abbrev pub PageOf :
    Printing → Repository → ℕ → ℕ → OrderedCommitGraph → Option (List NativeCommit × ℕ) → Type 0
PageOf p repo number per_page g o =
    (commits : List NativeCommit) × (o ≡ some (commits, length g.ordered))
    × ShowsAll p repo (page_entries number (clamp 1 commit_page_limit per_page) g.ordered) commits

abbrev pub IsPage : Printing → Repository → Bytes → ℕ → ℕ → Option (List NativeCommit × ℕ) → Type 0
IsPage p repo tip_oid number per_page o =
    (g : OrderedCommitGraph) × IsWalk (commits_of repo) tip_oid g
    × PageOf p repo number per_page g o

-- What an order lists is in the graph.
IsOrder-AllLoaded : (nodes : Nodes) (done ps : Oids) → IsOrder nodes done ps → AllLoaded nodes ps
IsOrder-AllLoaded nodes done [] h = tt
IsOrder-AllLoaded nodes done (p ∷ ps) (next, h) =
    ((next.0, next.1), IsOrder-AllLoaded nodes (done ++ p ∷ []) ps h)

IsWalk-AllLoaded :
    (store : Nodes) (tip_oid : Bytes) (g : OrderedCommitGraph)
    → IsWalk store tip_oid g
    → AllLoaded store g.ordered
IsWalk-AllLoaded store tip_oid g walk =
    All-imply (λ x (node, l). (node, ((walk.loaded x node).0 l).1)) g.ordered
      (IsOrder-AllLoaded g.nodes [] g.ordered walk.ordered)

module _ (late : Clock) (from_hex : FromHex) (p : Printing) (repo : Repository)
    (distinct : DistinctKeys repo) (snapshot_oid tip_oid : Bytes)
    (hex : from_hex snapshot_oid ≡ some tip_oid) (few : length repo ≤ u64_max) where
  page_of-PageOf :
      (number per_page : ℕ) (g : OrderedCommitGraph) (n : ℕ)
      → IsWalk (commits_of repo) tip_oid g
      → Outcome
          (CommitTimeout late)
          (PageOf p repo number per_page g)
          (page_of late p repo number per_page (some g) n)
  page_of-PageOf number per_page g n walk =
      let Q = PageOf p repo number per_page g in
      let w = commit_page_window (length g.ordered) number per_page in
      let oids = window_of w g.ordered in
      let here_is = window_of-page_entries number per_page g.ordered (
        omega (
          arith,
          few,
          length-commits_of repo,
          length-ordered (commits_of repo) tip_oid (commits_of-DistinctKeys repo distinct) g walk,
        )) in
      let Readable = λ (x : Bytes). (node : CommitNode) × Loaded (commits_of repo) x node in
      let stored : AllLoaded (commits_of repo) oids =
        All-take Readable (w.end - w.start) (drop w.start g.ordered) (
          All-drop Readable w.start g.ordered
            (IsWalk-AllLoaded (commits_of repo) tip_oid g walk)) in
      Outcome-bind (CommitTimeout late) (ShowsAll p repo oids) Q (hydrate_all late p repo oids) _ n
        (hydrate_all-Loaded late p repo oids n distinct stored)
        λ cs n1 shown.
          Outcome-bind (CommitTimeout late) (λ (u : Unit {0}). Unit {0}) Q
            (check_commit_deadline late) _ n1 (Outcome-commit_deadline late n1)
            λ _ n2 _. (cs, refl, subst (λ l. ShowsAll p repo l cs) here_is shown)

  walk-IsPage :
      (number per_page n : ℕ)
      → Outcome (WalkError late repo tip_oid) (IsPage p repo tip_oid number per_page) (
          (walk_commit_graph late from_hex repo snapshot_oid >>= λ graph.
          page_of late p repo number per_page graph)
            n)
  walk-IsPage number per_page n =
      let E = WalkError late repo tip_oid in
      let Q = IsPage p repo tip_oid number per_page in
      Outcome-bind E (GivesWalk repo tip_oid) Q (walk_commit_graph late from_hex repo snapshot_oid)
        _ n (walk_commit_graph_exact late from_hex repo distinct snapshot_oid tip_oid hex n)
        λ o k (g, is, walk).
          subst (λ x. Outcome E Q (page_of late p repo number per_page x k)) (sym is)
            (Outcome-imply E (PageOf p repo number per_page g) Q
              (page_of late p repo number per_page (some g) k) (λ x page. (g, walk, page))
              (Outcome-weaken (CommitTimeout late) E (PageOf p repo number per_page g)
                (page_of late p repo number per_page (some g) k) (λ e t. inl (inl t))
                (page_of-PageOf number per_page g k walk)))

  -- A page of commits that is returned has a number other than 0; with the snapshot's id read by gix
  -- and no more than 2^64 - 1 objects in the repository, it reports the number of all commits that
  -- the snapshot reaches, and shows exactly the entries of that page of their order, each commit as
  -- the repository has it.
  pub commit_page_exact :
      (page : Bytes) (per_page n : ℕ) {o : Option (List NativeCommit × ℕ)} {k : ℕ}
      → commit_page late from_hex p (ok repo) snapshot_oid page per_page n ≡ ok (o, k)
      → (page_number page ≢ 0) × IsPage p repo tip_oid (page_number page) per_page o
  unfolding commit_page
  commit_page_exact page per_page n {o} {k} h = elim (Bool-cases (page_number page == 0)) [
    | inl zero_page ↦ absurd (cc (rw zero_page at h))
    | inr positive ↦ (
      ground arith,
      Outcome-eq_ok (WalkError late repo tip_oid)
          (IsPage p repo tip_oid (page_number page) per_page) _ (rw positive at h)
          (walk-IsPage (page_number page) per_page n),
    )
  ]

  -- In time, and with a page number other than 0, the page is returned if all commits that the
  -- snapshot reaches can be read and ranked and the repository has fewer than 2^64 parents: it
  -- reports the number of these commits, and shows exactly the entries of that page of their order,
  -- each commit as the repository has it.
  pub commit_page_returns :
      OnTime late
      → parents_left (commits_of repo) [] < u64_mod
      → ((x : Bytes)
          → Reach (commits_of repo) tip_oid x
          → (node : CommitNode) × Loaded (commits_of repo) x node)
      → (depth : Bytes → ℕ) × IsRanked (commits_of repo) tip_oid depth
      → (page : Bytes) (per_page n : ℕ) → page_number page ≢ 0
      → (o : Option (List NativeCommit × ℕ)) × (k : ℕ) × (commit_page late from_hex p
            (ok repo)
            snapshot_oid
            page
            per_page
            n
          ≡ ok (o, k))
        × IsPage p repo tip_oid (page_number page) per_page o
  unfolding commit_page
  commit_page_returns t parents stored ranked page per_page n numbered =
      let positive : (page_number page == 0) ≡ false = ground arith in
      let (o, k, e, shown) =
        Outcome-value (WalkError late repo tip_oid)
          (IsPage p repo tip_oid (page_number page) per_page) _
          (no_error late from_hex repo distinct snapshot_oid tip_oid hex t parents stored ranked)
          (walk-IsPage (page_number page) per_page n) in
      (o, k, rw positive e, shown)
