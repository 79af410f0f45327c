-- ===== src/Commits/Range/Difference.antt =====
-- The walks of a comparison, and the commits that are not in the base.
use fornacast.Prelude.{
  ℕ, ◌≤◌, ◌≡◌, inl, inr, refl, Option, some, [], ◌∷◌, length, ok, err, ◌==◌, arith, Bool-cases,
  Option-cases,
}
use fornacast.Prelude.Bytes.{Bytes}
use fornacast.Native.{NativeResult}
use fornacast.Native.Clock.{Clock, lift}
use fornacast.Native.Outcome.{Outcome, Outcome-bind, Outcome-lift_self, Outcome-weaken}
use fornacast.Receive.PackHeader.{Kind}
use fornacast.Compare.Budgets.{Oids, DecodedByteBudget, ComparisonCommitBudget}
use fornacast.Refs.Scan.{page_number}
use fornacast.Commits.Graph.{FromHex, position_of}
use fornacast.Commits.Nodes.{
  CommitNode, CommitPosition, Nodes, lookup, check_commit_deadline, OrderedCommitGraph,
}
use fornacast.Commits.Graph.Maps.{DistinctKeys}
use fornacast.Commits.Graph.Release.{Loaded}
use fornacast.Commits.Graph.Parents.{Reach}
use fornacast.Commits.Graph.Walked.{walk_commit_graph_with-Walked}
use fornacast.Commits.Graph.Reached.{IsWalk}
use fornacast.Commits.Load.{GitCommit, Repository, find_graph_commit, decode_commit_node}
use fornacast.Commits.Load.Store.{commits_of, commits_of-DistinctKeys, decoded_node}
use fornacast.Commits.Load.Reads.{DecodeError, decoded-Loaded, decode_commit_node-loads}
use fornacast.Commits.Walk.{walk_fuel}
use fornacast.Commits.Listing.{Printing}
use fornacast.Commits.Listing.Hydrated.{Any, deadline}
use fornacast.Commits.Range.{
  budgeted, preflight_object, count_commit, load_comparison_commit_node,
  walk_comparison_commit_graph, comparison_page, not_in_base,
}

-- The second list is the first one without the elements of P.
pub data Without (P : Bytes → Type 0) : Oids → Oids → Type 0 where
  done : Without P [] []
  left_out : {x : Bytes} {xs ys : Oids} → P x → Without P xs ys → Without P (x ∷ xs) ys
  retained : {x : Bytes} {xs ys : Oids} → (P x → ⊥) → Without P xs ys → Without P (x ∷ xs) (x ∷ ys)

pub Without-length : {P : Bytes → Type 0} {xs ys : Oids} → Without P xs ys → length ys ≤ length xs
Without-length done = omega arith
Without-length (left_out p w) = omega (arith, Without-length w)
Without-length (retained p w) = omega (arith, Without-length w)

pub valid_page :
    (page : Bytes) (n : ℕ)
    → Outcome Any (λ number. number ≡ page_number page) (lift (comparison_page page) n)
unfolding comparison_page
valid_page page n = elim (Bool-cases (page_number page == 0)) [
  | inl zero_page ↦ rw zero_page tt
  | inr positive ↦ rw positive refl
]

always : {A : Type 0} (r : NativeResult (A × ℕ)) → Outcome Any (λ (a : A). Unit {0}) r
always (ok (a, n)) = tt
always (err e) = tt

module _ (store : Nodes) (base_oid : Bytes) (base : OrderedCommitGraph)
    (walk : IsWalk store base_oid base) where
  pub not_in_base-Without :
      (oids : Oids) → Without (Reach store base_oid) oids (not_in_base base.nodes oids)
  unfolding not_in_base
  not_in_base-Without [] = done
  not_in_base-Without (oid ∷ oids) = elim (Option-cases (lookup base.nodes oid)) [
    | inl missing ↦
        rw (missing, not_in_base)
          (retained (λ r. let (node, l) = walk.stored oid r in cc (missing, l))
            (not_in_base-Without oids))
    | inr (node, l) ↦
        rw (l, not_in_base) (left_out ((walk.loaded oid node).0 l).0 (not_in_base-Without oids))
  ]

module _ (late : Clock) (from_hex : FromHex) (p : Printing) (repo : Repository)
    (distinct : DistinctKeys repo) where
  abbrev store : Nodes
  store = commits_of repo

  Outcome-decode :
      (c : GitCommit) (n : ℕ)
      → Outcome Any (λ node. decoded_node c.decoded ≡ some node) (decode_commit_node late c n)
  Outcome-decode c n =
      Outcome-weaken (DecodeError late repo c) Any (λ node. decoded_node c.decoded ≡ some node)
        (decode_commit_node late c n) (λ e h. tt) (decode_commit_node-loads late repo c n)

  load_comparison-loads :
      (oid : Bytes) (position : CommitPosition) (b : ComparisonCommitBudget) (n : ℕ)
      → Outcome Any
          (λ (r : CommitNode × ComparisonCommitBudget). Loaded store oid r.0 × Unit {0})
          (load_comparison_commit_node late repo oid position b n)
  unfolding load_comparison_commit_node
  load_comparison-loads oid position b n =
      let Q = λ (r : CommitNode × ComparisonCommitBudget). Loaded store oid r.0 × Unit {0} in
      Outcome-bind Any (λ (u : Unit {0}). Unit {0}) Q (check_commit_deadline late) _ n
        (deadline late p repo n)
        λ _ n1 _.
          Outcome-bind Any (λ (d : DecodedByteBudget). Unit {0}) Q
            (preflight_object late repo oid Kind.commit b.decoded) _ n1
            (always (preflight_object late repo oid Kind.commit b.decoded n1))
            λ decoded n2 _.
              Outcome-bind Any (λ c. find_graph_commit repo oid position ≡ ok c) Q
                (lift (find_graph_commit repo oid position)) _ n2
                (Outcome-lift_self Any (find_graph_commit repo oid position) n2 (λ e h. tt))
                λ c n3 found.
                  let counted = count_commit oid c.data_length (record b { decoded = decoded }) in
                  Outcome-bind Any (λ (d : ComparisonCommitBudget). Unit {0}) Q (budgeted counted) _
                    n3 (always (budgeted counted n3))
                    λ b' n4 _.
                      Outcome-bind Any (λ node. decoded_node c.decoded ≡ some node) Q
                        (decode_commit_node late c) _ n4 (Outcome-decode c n4)
                        λ node n5 is. (decoded-Loaded late repo oid position c node found is, tt)

  abbrev pub Walks : Bytes → Option (OrderedCommitGraph × ComparisonCommitBudget) → Type 0
  Walks tip_oid o =
      (g : OrderedCommitGraph) × (b : ComparisonCommitBudget) × (o ≡ some (g, b))
      × IsWalk store tip_oid g
      × Unit {0}

  pub walk_comparison-Walks :
      (snapshot_oid tip_oid : Bytes)
      → from_hex snapshot_oid ≡ some tip_oid
      → (b : ComparisonCommitBudget) (n : ℕ)
      → Outcome Any
          (Walks tip_oid)
          (walk_comparison_commit_graph late from_hex repo snapshot_oid b n)
  unfolding walk_comparison_commit_graph
  walk_comparison-Walks snapshot_oid tip_oid hex b n =
      Outcome-weaken _ Any (Walks tip_oid)
        (walk_comparison_commit_graph late from_hex repo snapshot_oid b n) (λ e h. tt)
        (walk_commit_graph_with-Walked late store (commits_of-DistinctKeys repo distinct) tip_oid
          (load_comparison_commit_node late repo) (λ (b : ComparisonCommitBudget). Unit {0}) Any
          (λ e h. tt) (λ e h. tt)
          (λ oid s k r u. load_comparison-loads oid (position_of oid tip_oid) s k) from_hex
          snapshot_oid b (walk_fuel repo) n hex tt (omega arith))
