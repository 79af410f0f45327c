-- ===== src/Commits/Graph/Ordered.antt =====
-- The whole ordering: `order_commits` gives all commits in their order, unless there is a cycle.
use fornacast.Prelude.{
  ℕ, ◌+◌, ◌<◌, ◌≡◌, ◌⊎◌, inl, inr, refl, sym, ap, subst, true, false, Option, some, List, [], ◌∷◌,
  ◌++◌, append-nil, append_assoc, ltb, ◌==◌, arith, Bool-cases, length,
}
use fornacast.Prelude.Bytes.{Bytes}
use fornacast.Native.{NativeError}
use fornacast.Native.Clock.{Clock, lift}
use fornacast.Native.Outcome.{Outcome, Outcome-bind, Outcome-weaken}
use fornacast.Compare.Budgets.{Oids, has}
use fornacast.Commits.Nodes.{
  CommitNode, Nodes, Counts, lookup, check_commit_deadline, OrderedCommitGraph,
}
use fornacast.Commits.Ordering.{
  Eligible, first_eligible, order_rounds, cyclic, graph_of, finish_order, order_commits,
}
use fornacast.Commits.Graph.Maps.{DistinctKeys}
use fornacast.Commits.Graph.Weights.{occurrences, has_of_occurrences, weigh_step, weigh_pos}
use fornacast.Commits.Graph.Release.{
  Loaded, waiting, IsConsistent, CommitTimeout, Outcome-commit_deadline,
}
use fornacast.Commits.Graph.Order.{IsOrder}
use fornacast.Commits.Graph.Roots.{first_eligible-IsConsistent}
use fornacast.Commits.Graph.Rounds.{left_over, left_over-nil, IsClosed, Placed, order_rounds-Placed}

-- Commits that wait for one another: every commit that is not done has such a child.
abbrev pub Stuck : Nodes → Oids → Type 0
Stuck nodes done =
    ((p : Bytes) (np : CommitNode)
      → Loaded nodes p np
      → has p done ≡ false
      → (c : Bytes) × (nc : CommitNode) × Loaded nodes c nc
        × (has c done ≡ false)
        × (has p nc.parents ≡ true))
    × (p : Bytes) × (np : CommitNode) × Loaded nodes p np
    × (has p done ≡ false)

abbrev pub HasCycle : Nodes → Type 0
HasCycle nodes = (done : Oids) × Stuck nodes done

abbrev pub OrderError : Clock → Nodes → NativeError → Type 0
OrderError late nodes e = CommitTimeout late e ⊎ ((e ≡ cyclic) × HasCycle nodes)

-- The graph of these commits, all of them in their order.
abbrev pub IsOrderedGraph : Bytes → Nodes → OrderedCommitGraph → Type 0
IsOrderedGraph tip_oid nodes g =
    (g.tip ≡ tip_oid)
    × (g.nodes ≡ nodes)
    × IsOrder nodes [] g.ordered
    × ((x : Bytes) (node : CommitNode) → Loaded nodes x node → has x g.ordered ≡ true)

abbrev pub Ordered : Bytes → Nodes → Option OrderedCommitGraph → Type 0
Ordered tip_oid nodes o = (g : OrderedCommitGraph) × (o ≡ some g) × IsOrderedGraph tip_oid nodes g

module _ (nodes : Nodes) (distinct : DistinctKeys nodes) where
  left_over-IsOrder :
      (done ps : Oids)
      → IsOrder nodes done ps
      → length ps + left_over nodes (done ++ ps) ≡ left_over nodes done
  left_over-IsOrder done [] h = omega (arith, ap (left_over nodes) (append-nil done))
  left_over-IsOrder done (p ∷ ps) ((np, l, o, _, _), h) = omega (
    arith,
    left_over-IsOrder (done ++ p ∷ []) ps h,
    ap (left_over nodes) (append_assoc done (p ∷ []) ps),
    weigh_step (λ _. 1) nodes p done np distinct l o,
  )

  none_left :
      (done : Oids) (x : Bytes) (node : CommitNode)
      → left_over nodes done ≡ 0
      → Loaded nodes x node
      → has x done ≡ true
  none_left done x node z l = elim (Bool-cases (has x done)) [
    | inl is_done ↦ is_done
    | inr is_open ↦ absurd (omega (arith, weigh_step (λ _. 1) nodes x done node distinct l is_open))
  ]

  some_left :
      (done : Oids) (counts : Counts)
      → IsConsistent nodes done [] counts []
      → 0 < left_over nodes done
      → Stuck nodes done
  some_left done counts inv h =
      let (p, np, l, o, _) = weigh_pos (λ _. 1) nodes done distinct h in (blocked, p, np, l, o)
    where
      blocked :
          (p : Bytes) (np : CommitNode)
          → Loaded nodes p np
          → has p done ≡ false
          → (c : Bytes) × (nc : CommitNode) × Loaded nodes c nc
            × (has c done ≡ false)
            × (has p nc.parents ≡ true)
      blocked p np l o =
          let waits : 0 < waiting nodes p done = elim (Bool-cases (ltb 0 (waiting nodes p done))) [
            | inl pos ↦ ground arith
            | inr nil ↦ absurd (inv.full p np l o (ground arith))
          ] in
          let (c, nc, lc, oc, pos) =
            weigh_pos (λ n. occurrences p n.parents) nodes done distinct waits in
          (c, nc, lc, oc, has_of_occurrences p nc.parents pos)

module _ (late : Clock) (tip_oid : Bytes) (nodes : Nodes) (counts : Counts)
    (distinct : DistinctKeys nodes) (closed : IsClosed nodes)
    (counted : (x : Bytes) (node : CommitNode)
      → Loaded nodes x node
      → lookup counts x ≡ some (waiting nodes x [])) where
  graph_of-Ordered :
      (o : Oids) (counts' : Counts)
      → IsOrder nodes [] o
      → IsConsistent nodes o [] counts' []
      → (n : ℕ)
      → Outcome
          (OrderError late nodes)
          (IsOrderedGraph tip_oid nodes)
          (lift (graph_of tip_oid nodes o) n)
  graph_of-Ordered o counts' order inv n =
      let sizes = left_over-IsOrder nodes distinct [] o order in
      elim (Bool-cases (length o == length nodes)) [
        | inl all ↦
            let z : left_over nodes o ≡ 0 = ground (arith, sizes, left_over-nil nodes) in
            rw all (refl, refl, order, λ x node. none_left nodes distinct o x node z)
        | inr short ↦
            let pos : 0 < left_over nodes o = ground (arith, sizes, left_over-nil nodes) in
            rw short (inr (refl, (o, some_left nodes distinct o counts' inv pos)))
      ]

  finish_order-Ordered :
      (o : Option Oids)
      → Placed nodes [] o
      → (n : ℕ)
      → Outcome (OrderError late nodes) (Ordered tip_oid nodes) (finish_order tip_oid nodes o n)
  finish_order-Ordered o (placed, counts', e, order, inv) n =
      let E = OrderError late nodes in
      let Q = Ordered tip_oid nodes in
      subst (λ x. Outcome E Q (finish_order tip_oid nodes x n)) (sym e)
        (Outcome-bind E (IsOrderedGraph tip_oid nodes) Q (lift (graph_of tip_oid nodes placed)) _ n
          (graph_of-Ordered placed counts' order inv n) (λ g k is. (g, refl, is)))

  pub order_commits-Ordered :
      (n : ℕ)
      → Outcome
          (OrderError late nodes)
          (Ordered tip_oid nodes)
          (order_commits late tip_oid nodes counts n)
  unfolding order_commits
  order_commits-Ordered n =
      let E = OrderError late nodes in
      let Q = Ordered tip_oid nodes in
      let timed = λ (e : NativeError) (t : CommitTimeout late e). inl t in
      let Start = λ (eligible : List Eligible). IsConsistent nodes [] [] counts eligible in
      let begin = first_eligible late counts nodes [] in
      Outcome-bind E Start Q begin _ n
        (Outcome-weaken (CommitTimeout late) E Start (begin n) timed
          (first_eligible-IsConsistent late counts nodes n distinct counted))
        (λ eligible k inv.
          let rounds = order_rounds late nodes (length nodes) counts eligible [] in
          Outcome-bind E (Placed nodes []) Q rounds _ k
            (Outcome-weaken (CommitTimeout late) E (Placed nodes []) (rounds k) timed (
              order_rounds-Placed late nodes distinct closed (length nodes) counts eligible [] k inv
                (omega (arith, left_over-nil nodes))))
            (λ o j placed.
              Outcome-bind E (λ (u : Unit {0}). Unit {0}) Q (check_commit_deadline late) _ j
                (Outcome-weaken (CommitTimeout late) E (λ (u : Unit {0}). Unit {0})
                  (check_commit_deadline late j) timed (Outcome-commit_deadline late j))
                (λ _ i _. finish_order-Ordered o placed i)))
