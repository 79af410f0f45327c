-- ===== src/Commits/Walk/Whole.antt =====
-- What `walk_commit_graph` returns for a repository, and when it does.
use fornacast.Prelude.{ℕ, ◌<◌, ◌≡◌, ◌⊎◌, inl, inr, ap, ◌∙◌, Option, some, List, [], ok, arith}
use mathlib.Core.Option
use fornacast.Prelude.Bytes.{Bytes}
use fornacast.Prelude.Word.{u64_mod}
use fornacast.Native.{NativeError}
use fornacast.Native.Clock.{Clock, OnTime}
use fornacast.Native.Outcome.{Outcome, Outcome-bind, Outcome-weaken, Outcome-value}
use fornacast.Commits.Graph.{FromHex, position_of, walk_commit_graph_with}
use fornacast.Commits.Nodes.{CommitNode, OrderedCommitGraph}
use fornacast.Commits.Graph.Maps.{DistinctKeys}
use fornacast.Commits.Graph.Release.{Loaded, CommitTimeout}
use fornacast.Commits.Graph.Parents.{Reach, parents_left, Overflow}
use fornacast.Commits.Graph.Walked.{walk_commit_graph_with-Walked}
use fornacast.Commits.Graph.Reached.{IsWalk, IsRanked, Cyclic}
use fornacast.Commits.Load.{Repository, load_commit_node}
use fornacast.Commits.Load.Store.{commits_of, commits_of-DistinctKeys}
use fornacast.Commits.Load.Reads.{Unreadable, load_commit_node-loads, Loaded_readable}
use fornacast.Commits.Walk.{plain_loader, walk_fuel, walk_commit_graph}

-- The ways in which a walk over a repository fails.
abbrev pub WalkError : Clock → Repository → Bytes → NativeError → Type 0
WalkError late repo tip_oid e =
    (CommitTimeout late e
      ⊎ (Overflow (commits_of repo) e
          ⊎ ((x : Bytes) × Reach (commits_of repo) tip_oid x
              × Unreadable repo (position_of x tip_oid) x e)))
    ⊎ Cyclic (commits_of repo) tip_oid e

abbrev pub GivesWalk : Repository → Bytes → Option OrderedCommitGraph → Type 0
GivesWalk repo tip_oid o =
    (g : OrderedCommitGraph) × (o ≡ some g) × IsWalk (commits_of repo) tip_oid g

module _ (late : Clock) (from_hex : FromHex) (repo : Repository) (distinct : DistinctKeys repo)
    (snapshot_oid tip_oid : Bytes) (hex : from_hex snapshot_oid ≡ some tip_oid) where
  abbrev store : List (Bytes × CommitNode)
  store = commits_of repo

  abbrev E : NativeError → Type 0
  E e =
      CommitTimeout late e
      ⊎ (Overflow store e
          ⊎ ((x : Bytes) × Reach store tip_oid x × Unreadable repo (position_of x tip_oid) x e))

  loads :
      (oid : Bytes) (s : Unit {0}) (n : ℕ)
      → Reach store tip_oid oid
      → Unit {0}
      → Outcome E
          (λ (r : CommitNode × Unit {0}). Loaded store oid r.0 × Unit {0})
          (plain_loader late repo oid (position_of oid tip_oid) s n)
  loads oid s n r u =
      Outcome-bind E (λ node. Loaded store oid node)
        (λ (r : CommitNode × Unit {0}). Loaded store oid r.0 × Unit {0})
        (load_commit_node late repo oid (position_of oid tip_oid)) _ n
        (Outcome-weaken _ E (λ node. Loaded store oid node)
          (load_commit_node late repo oid (position_of oid tip_oid) n)
          (λ e y. elim y [ inl t ↦ inl t | inr bad ↦ inr (inr (oid, r, bad)) ])
          (load_commit_node-loads late repo oid (position_of oid tip_oid) n))
        (λ node k l. (l, tt))

  -- A walk from an id that gix can read gives the graph of exactly the commits that the tip reaches,
  -- listed once each: every commit behind all of its children and, of those that could be next, the
  -- one of the latest time, with the smallest id among equal times. Or else the deadline has passed,
  -- the repository has 2^64 parents, a commit that is reached cannot be read, or the commits have no
  -- ranks by which parents come behind children; there is no other outcome.
  pub walk_commit_graph_exact :
      (n : ℕ)
      → Outcome
          (WalkError late repo tip_oid)
          (GivesWalk repo tip_oid)
          (walk_commit_graph late from_hex repo snapshot_oid n)
  unfolding walk_commit_graph
  walk_commit_graph_exact n =
      let P = λ (s : Unit {0}). Unit {0} in
      let Q = λ (o : Option (OrderedCommitGraph × Unit {0})).
        (g : OrderedCommitGraph) × (s : Unit {0}) × (o ≡ some (g, s))
        × IsWalk store tip_oid g
        × Unit {0} in
      Outcome-bind (WalkError late repo tip_oid) Q (GivesWalk repo tip_oid)
        (walk_commit_graph_with late from_hex (plain_loader late repo) (walk_fuel repo) snapshot_oid
          tt)
        _ n
        (walk_commit_graph_with-Walked late store (commits_of-DistinctKeys repo distinct) tip_oid
          (plain_loader late repo) P E (λ e t. inl t) (λ e o. inr (inl o)) loads from_hex
          snapshot_oid tt (walk_fuel repo) n hex tt (omega arith))
        (λ o k (g, s, e, is, _).
          (g, ap (Option.map (λ (r : OrderedCommitGraph × Unit {0}). r.0)) e, is))

  -- None of them happens where all commits can be read and ranked, in time.
  pub no_error :
      OnTime late
      → parents_left store [] < u64_mod
      → ((x : Bytes) → Reach store tip_oid x → (node : CommitNode) × Loaded store x node)
      → (depth : Bytes → ℕ) × IsRanked store tip_oid depth
      → (e : NativeError) → WalkError late repo tip_oid e
      → ⊥
  no_error t few stored ranked e (inl (inl (_, k, is_late))) = cc (t k, is_late)
  no_error t few stored ranked e (inl (inr (inl (_, many)))) = omega (arith, many)
  no_error t few stored ranked e (inl (inr (inr (x, r, bad)))) =
      let (node, l) = stored x r in
      Loaded_readable repo x (position_of x tip_oid) node e distinct l bad
  no_error t few stored ranked e (inr (_, unranked)) = unranked ranked

  -- In time, a walk whose commits can all be read and ranked, with fewer than 2^64 parents in the
  -- repository, returns the graph: neither rounds nor anything else is missing.
  pub walk_commit_graph_returns :
      OnTime late
      → parents_left store [] < u64_mod
      → ((x : Bytes) → Reach store tip_oid x → (node : CommitNode) × Loaded store x node)
      → (depth : Bytes → ℕ) × IsRanked store tip_oid depth
      → (n : ℕ)
      → (g : OrderedCommitGraph) × (k : ℕ) × (walk_commit_graph late from_hex repo snapshot_oid n
          ≡ ok (some g, k))
        × IsWalk store tip_oid g
  walk_commit_graph_returns t few stored ranked n =
      let (o, k, e, (g, is, walk)) =
        Outcome-value (WalkError late repo tip_oid) (GivesWalk repo tip_oid)
          (walk_commit_graph late from_hex repo snapshot_oid n) (no_error t few stored ranked)
          (walk_commit_graph_exact n) in
      (g, k, e ∙ ap (λ x. ok (x, k)) is, walk)
