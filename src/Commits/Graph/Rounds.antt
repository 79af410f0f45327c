-- ===== src/Commits/Graph/Rounds.antt =====
-- All rounds of the ordering: `order_rounds` takes out every commit that a cycle does not hold back.
use fornacast.Prelude.{
  ℕ, zero, suc, ◌≤◌, ◌≡◌, refl, sym, ap, ◌∙◌, subst, Option, some, List, [], ◌∷◌, ◌++◌, append-nil,
  append_assoc, arith, length,
}
use fornacast.Prelude.Bytes.{Bytes}
use fornacast.Native.{ok_or}
use fornacast.Native.Clock.{Clock, lift}
use fornacast.Native.Outcome.{Outcome, Outcome-bind, Outcome-lift, Outcome-imply}
use fornacast.Compare.Budgets.{Oids}
use fornacast.Commits.Nodes.{CommitNode, Nodes, Counts, lookup, check_commit_deadline}
use fornacast.Commits.Ordering.{Eligible, release_parents, not_loaded, order_rounds}
use fornacast.Commits.Graph.Maps.{DistinctKeys}
use fornacast.Commits.Graph.Weights.{weigh, weigh_step}
use fornacast.Commits.Graph.Release.{
  Loaded, IsConsistent, CommitTimeout, Outcome-commit_deadline, AllLoaded,
  release_parents-IsConsistent,
}
use fornacast.Commits.Graph.Order.{IsNext, IsOrder, head_node, head-IsNext, pop-IsConsistent}

-- How many commits are not done.
abbrev pub left_over : Nodes → Oids → ℕ
left_over nodes done = weigh (λ _. 1) nodes done

pub left_over-nil : (nodes : Nodes) → left_over nodes [] ≡ length nodes
left_over-nil [] = refl
left_over-nil ((id, node) ∷ nodes) = omega (arith, left_over-nil nodes)

-- The parents of a commit of the graph are in it.
abbrev pub IsClosed : Nodes → Type 0
IsClosed nodes =
    (oid : Bytes) (node : CommitNode) → Loaded nodes oid node → AllLoaded nodes node.parents

-- What the rounds add to the list.
abbrev pub Placed : Nodes → Oids → Option Oids → Type 0
Placed nodes ordered o =
    (more : Oids) × (counts : Counts) × (o ≡ some (ordered ++ more))
    × IsOrder nodes ordered more
    × IsConsistent nodes (ordered ++ more) [] counts []

module _ (late : Clock) (nodes : Nodes) (distinct : DistinctKeys nodes)
    (closed : IsClosed nodes) where
  Placed-next :
      (ordered : Oids) (oid : Bytes)
      → IsNext nodes ordered oid
      → (o : Option Oids) → Placed nodes (ordered ++ oid ∷ []) o
      → Placed nodes ordered o
  Placed-next ordered oid next o (more, counts, e, order, inv) = (
    oid ∷ more,
    counts,
    e ∙ ap some (append_assoc ordered (oid ∷ []) more),
    (next, order),
    subst (λ l. IsConsistent nodes l [] counts []) (append_assoc ordered (oid ∷ []) more) inv,
  )

  pub order_rounds-Placed :
      (rounds : ℕ) (counts : Counts) (eligible : List Eligible) (ordered : Oids) (n : ℕ)
      → IsConsistent nodes ordered [] counts eligible
      → left_over nodes ordered ≤ rounds
      → Outcome
          (CommitTimeout late)
          (Placed nodes ordered)
          (order_rounds late nodes rounds counts eligible ordered n)
  unfolding order_rounds
  order_rounds-Placed rounds counts [] ordered n inv h = (
    [],
    counts,
    ap some (sym (append-nil ordered)),
    tt,
    subst (λ l. IsConsistent nodes l [] counts []) (sym (append-nil ordered)) inv,
  )
  order_rounds-Placed zero counts ((t, oid) ∷ eligible) ordered n inv h =
      let (node, l, _, o, _) = head_node nodes distinct ordered counts t oid eligible inv in
      absurd (omega (arith, weigh_step (λ _. 1) nodes oid ordered node distinct l o))
  order_rounds-Placed (suc rounds) counts ((t, oid) ∷ eligible) ordered n inv h =
      let E = CommitTimeout late in
      let (node, l, _, o, _) = head_node nodes distinct ordered counts t oid eligible inv in
      let next = head-IsNext nodes distinct ordered counts t oid eligible inv in
      let popped = pop-IsConsistent nodes distinct ordered counts t oid eligible inv in
      let ordered' = ordered ++ oid ∷ [] in
      Outcome-bind E (λ _. Unit {0}) (Placed nodes ordered) (check_commit_deadline late) _ n
        (Outcome-commit_deadline late n)
        (λ _ k _.
          Outcome-bind E (λ x. x ≡ node) (Placed nodes ordered)
            (lift (ok_or (lookup nodes oid) not_loaded)) _ k
            (Outcome-lift E (λ x. x ≡ node) _ k (ap (λ x. ok_or x not_loaded) l) refl)
            (λ x j is.
              Outcome-bind E
                (λ (r : Counts × List Eligible). IsConsistent nodes ordered' [] r.0 r.1)
                (Placed nodes ordered) (release_parents late nodes x.parents counts eligible) _ j
                (release_parents-IsConsistent late nodes ordered' x.parents counts eligible j
                  (subst (λ y. AllLoaded nodes y.parents) (sym is) (closed oid node l))
                  (subst (λ y. IsConsistent nodes ordered' y.parents counts eligible) (sym is)
                    popped))
                (λ r i inv'.
                  Outcome-imply E (Placed nodes ordered') (Placed nodes ordered) _
                    (Placed-next ordered oid next)
                    (order_rounds-Placed rounds r.0 r.1 ordered' i inv'
                      (omega (arith, weigh_step (λ _. 1) nodes oid ordered node distinct l o))))))
