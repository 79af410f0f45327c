-- ===== src/Commits/Graph/Reached.antt =====
-- What the walk has reached when its stack is empty, and the graph that it returns.
use fornacast.Prelude.{
  ℕ, zero, suc, ◌+◌, ◌≤◌, ◌<◌, ◌≡◌, ◌⊎◌, ◌↔◌, inl, inr, sym, ap, ◌∙◌, subst, true, false, none,
  some, [], ◌∷◌, ◌++◌, append-nil, append_assoc, arith, All, length,
}
use fornacast.Prelude.Bytes.{Bytes, bytes_eq_refl}
use fornacast.Native.{NativeError}
use fornacast.Native.Clock.{Clock}
use fornacast.Compare.Budgets.{Oids, has}
use fornacast.Commits.Graph.{Walk}
use fornacast.Commits.Nodes.{CommitNode, Nodes, lookup, OrderedCommitGraph}
use fornacast.Commits.Ordering.{cyclic}
use fornacast.Commits.Graph.Maps.{DistinctKeys}
use fornacast.Commits.Graph.Weights.{weigh_step}
use fornacast.Commits.Graph.Release.{Loaded, waiting, CommitTimeout}
use fornacast.Commits.Graph.Parents.{Reach, here, step}
use fornacast.Commits.Graph.Order.{IsOrder}
use fornacast.Commits.Graph.Rounds.{IsClosed, left_over, left_over-nil}
use fornacast.Commits.Graph.Ordered.{Stuck, HasCycle, OrderError, IsOrderedGraph}
use fornacast.Commits.Graph.Explored.{IsExplored}

-- The graph holds the commits that the tip reaches, all of them in their order.
pub record IsWalk (store : Nodes) (tip_oid : Bytes) (g : OrderedCommitGraph) : Type 0 where
  pub begins : g.tip ≡ tip_oid
  pub loaded :
      (x : Bytes) (node : CommitNode)
      → Loaded g.nodes x node ↔ (Reach store tip_oid x × Loaded store x node)
  pub stored : (x : Bytes) → Reach store tip_oid x → (node : CommitNode) × Loaded g.nodes x node
  pub ordered : IsOrder g.nodes [] g.ordered
  pub listed : (x : Bytes) → Reach store tip_oid x → has x g.ordered ≡ true

-- A depth for each commit that the tip reaches, greater for its parents.
abbrev pub IsRanked : Nodes → Bytes → (Bytes → ℕ) → Type 0
IsRanked store tip_oid depth =
    (c p : Bytes) (node : CommitNode)
    → Reach store tip_oid c
    → Loaded store c node
    → has p node.parents ≡ true
    → depth c < depth p

-- There are no such depths.
abbrev pub Cyclic : Nodes → Bytes → NativeError → Type 0
Cyclic store tip_oid e = (e ≡ cyclic) × ¬ ((depth : Bytes → ℕ) × IsRanked store tip_oid depth)

All-of_has :
    (P : Bytes → Type 0) (oids : Oids) → ((x : Bytes) → has x oids ≡ true → P x) → All P oids
All-of_has P [] f = tt
All-of_has P (y ∷ oids) f =
    (f y (ground (arith, bytes_eq_refl y)), All-of_has P oids (λ x h. f x (ground arith)))

module _ {S : Type 0} (P : S → Type 0) (store : Nodes) (tip_oid : Bytes) (w : Walk S)
    (i : IsExplored S P store tip_oid w []) where
  met_visited : (x : Bytes) → (has x w.visited ≡ true) ⊎ (has x [] ≡ true) → has x w.visited ≡ true
  met_visited x (inl h) = h
  met_visited x (inr h) = cc

  reach_loaded : (x : Bytes) → Reach store tip_oid x → (node : CommitNode) × Loaded w.nodes x node
  reach_loaded x here = i.loaded x (met_visited x i.tip_met)
  reach_loaded x (step {c} {p} {node} r l h) =
      let (n, ln) = reach_loaded c r in
      let same : some n ≡ some node = sym (i.from_store c n ln).0 ∙ l in
      let there : has x n.parents ≡ true =
        ap (λ o. elim o [ none ↦ false | some y ↦ has x y.parents ]) same ∙ h in
      i.loaded x (met_visited x (i.parents_met c n x ln there))

  nodes_exact :
      (x : Bytes) (node : CommitNode)
      → Loaded w.nodes x node ↔ (Reach store tip_oid x × Loaded store x node)
  nodes_exact x node = (
    λ l. let (s, r) = i.from_store x node l in (r, s),
    λ (r, s). let (n, l) = reach_loaded x r in l ∙ sym (i.from_store x n l).0 ∙ s,
  )

  pub nodes-IsClosed : IsClosed w.nodes
  nodes-IsClosed oid node l =
      All-of_has (λ p. (n : CommitNode) × Loaded w.nodes p n) node.parents
        (λ p h. i.loaded p (met_visited p (i.parents_met oid node p l h)))

  pub nodes_counted :
      (x : Bytes) (node : CommitNode)
      → Loaded w.nodes x node
      → lookup w.child_counts x ≡ some (waiting w.nodes x [])
  nodes_counted x node l = let (m, e) = i.entered x node l in ground (arith, i.counted x)

  -- Depths contradict a set of commits of which each has a child in it.
  Stuck-unranked :
      (done : Oids)
      → Stuck w.nodes done
      → (depth : Bytes → ℕ) → IsRanked store tip_oid depth
      → (n : ℕ) (p : Bytes) (np : CommitNode) → Loaded w.nodes p np
      → has p done ≡ false
      → depth p < n
      → ⊥
  Stuck-unranked done stuck depth ranked zero p np l o h = absurd (omega arith)
  Stuck-unranked done stuck depth ranked (suc n) p np l o h =
      let (c, nc, lc, oc, parent) = stuck.0 p np l o in
      let (s, r) = i.from_store c nc lc in
      Stuck-unranked done stuck depth ranked n c nc lc oc (omega (arith, ranked c p nc r s parent))

  cycle_unranked : HasCycle w.nodes → ¬ ((depth : Bytes → ℕ) × IsRanked store tip_oid depth)
  cycle_unranked (done, stuck) (depth, ranked) =
      let (_, p, np, l, o) = stuck in
      Stuck-unranked done stuck depth ranked (suc (depth p)) p np l o (omega arith)

  pub is_walk : (g : OrderedCommitGraph) → IsOrderedGraph tip_oid w.nodes g → IsWalk store tip_oid g
  is_walk g (t, n, order, all) = record {
    begins = t;
    loaded = λ x node.
        subst (λ ns. (lookup ns x ≡ some node) ↔ (Reach store tip_oid x × Loaded store x node))
          (sym n) (nodes_exact x node);
    stored =
        subst (λ ns. (x : Bytes) → Reach store tip_oid x → (node : CommitNode) × Loaded ns x node)
          (sym n) reach_loaded;
    ordered = subst (λ ns. IsOrder ns [] g.ordered) (sym n) order;
    listed = λ x r. let (node, l) = reach_loaded x r in all x node l;
  }

  pub order_error :
      (late : Clock) (E : NativeError → Type 0)
      → ((e : NativeError) → CommitTimeout late e → E e)
      → (e : NativeError) → OrderError late w.nodes e
      → E e ⊎ Cyclic store tip_oid e
  order_error late E timed e (inl t) = inl (timed e t)
  order_error late E timed e (inr (is, cycle)) = inr (is, cycle_unranked cycle)

module _ (store : Nodes) (tip_oid : Bytes) (distinct : DistinctKeys store) where
  ordered_left :
      (g : OrderedCommitGraph)
      → IsWalk store tip_oid g
      → (done ps : Oids) → IsOrder g.nodes done ps
      → length ps + left_over store (done ++ ps) ≡ left_over store done
  ordered_left g walk done [] h = omega (arith, ap (left_over store) (append-nil done))
  ordered_left g walk done (p ∷ ps) ((np, l, o, _, _), h) = omega (
    arith,
    ordered_left g walk (done ++ p ∷ []) ps h,
    ap (left_over store) (append_assoc done (p ∷ []) ps),
    weigh_step (λ _. 1) store p done np distinct ((walk.loaded p np).0 l).1 o,
  )

  pub length-ordered :
      (g : OrderedCommitGraph) → IsWalk store tip_oid g → length g.ordered ≤ length store
  length-ordered g walk =
      omega (arith, ordered_left g walk [] g.ordered walk.ordered, left_over-nil store)
