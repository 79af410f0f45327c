-- ===== src/Commits/Graph/Order.antt =====
-- The order in which commits are taken out of the graph: `order_rounds` and `order_commits`.

use fornacast.Prelude.{
  ◌+◌, ◌≡◌, ◌⊎◌, inl, inr, refl, sym, ap, ◌∙◌, subst, true, false, some, List, [], ◌∷◌, ◌++◌, ltb,
  arith, Bool-cases,
}
use fornacast.Prelude.Bytes.{Bytes, bytes_eq, bytes_eq_iff}
use fornacast.Prelude.Int.{ℤ}
use fornacast.Compare.Budgets.{Oids, has}
use fornacast.Commits.Nodes.{CommitNode, Nodes, Counts, lookup}
use fornacast.Commits.Ordering.{Eligible}
use fornacast.Commits.Graph.Maps.{DistinctKeys, has-snoc, bytes_eq-false}
use fornacast.Commits.Graph.Queue.{Before, In, All-In, Before-irrefl}
use fornacast.Commits.Graph.Weights.{
  occurrences, has_of_occurrences, occurrences_of_has, weigh_step, weigh_pos, Weighs,
}
use fornacast.Commits.Graph.Release.{Loaded, waiting, IsConsistent}

-- Every child of the commit is in the list.
abbrev pub ChildrenIn : Nodes → Oids → Bytes → Type 0
ChildrenIn nodes done p =
    (c : Bytes) (node : CommitNode)
    → Loaded nodes c node
    → has p node.parents ≡ true
    → has c done ≡ true

-- The commit is new, its children are done, and of all such commits it is the latest, with the
-- smallest id among those of its time.
abbrev pub IsNext : Nodes → Oids → Bytes → Type 0
IsNext nodes done p =
    (np : CommitNode) × Loaded nodes p np
    × (has p done ≡ false)
    × ChildrenIn nodes done p
    × ((q : Bytes) (nq : CommitNode)
        → Loaded nodes q nq
        → has q done ≡ false
        → ChildrenIn nodes done q
        → (q ≡ p) ⊎ Before (np.committer_time, p) (nq.committer_time, q))

-- The list goes on with the next commit each time.
abbrev pub IsOrder : Nodes → Oids → Oids → Type 0
IsOrder nodes done [] = Unit
IsOrder nodes done (p ∷ ps) = IsNext nodes done p × IsOrder nodes (done ++ p ∷ []) ps

module _ (nodes : Nodes) (distinct : DistinctKeys nodes) where
  pub ChildrenIn-of_waiting :
      (done : Oids) (p : Bytes) → waiting nodes p done ≡ 0 → ChildrenIn nodes done p
  ChildrenIn-of_waiting done p z c node l is_parent = elim (Bool-cases (has c done)) [
    | inl done_c ↦ done_c
    | inr open_c ↦ absurd (
        omega (
          arith,
          weigh_step (λ n. occurrences p n.parents) nodes c done node distinct l open_c,
          occurrences_of_has p node.parents is_parent,
        ))
  ]

  pub waiting_of_ChildrenIn :
      (done : Oids) (p : Bytes) → ChildrenIn nodes done p → waiting nodes p done ≡ 0
  waiting_of_ChildrenIn done p h = elim (Bool-cases (ltb 0 (waiting nodes p done))) [
    | inl some_wait ↦
        let (c, node, l, open_c, pos) : Weighs (λ n. occurrences p n.parents) nodes done =
          weigh_pos (λ n. occurrences p n.parents) nodes done distinct (ground arith) in
        absurd (cc (h c node l (has_of_occurrences p node.parents pos), open_c))
    | inr none_wait ↦ ground arith
  ]

  module _ (ordered : Oids) (counts : Counts) (t : ℤ) (oid : Bytes) (eligible : List Eligible)
      (inv : IsConsistent nodes ordered [] counts ((t, oid) ∷ eligible)) where
    open inv use {counted, sorted, sound, full, settled}

    abbrev pub head_node :
        (node : CommitNode) × Loaded nodes oid node
        × (t ≡ node.committer_time)
        × (has oid ordered ≡ false)
        × (waiting nodes oid ordered + 0 ≡ 0)
    head_node = sound t oid (inl refl)

    pub head-IsNext : IsNext nodes ordered oid
    head-IsNext = (
      head_node.0,
      head_node.1,
      head_node.3,
      ChildrenIn-of_waiting ordered oid (omega (arith, head_node.4)),
      λ q nq l o c. elim (full q nq l o (omega (arith, waiting_of_ChildrenIn ordered q c))) [
        | inl is ↦ inl (ap (λ e. e.1) is)
        | inr later ↦ inr (
            subst (λ s. Before (s, oid) (nq.committer_time, q)) head_node.2
              (All-In (Before (t, oid)) eligible (nq.committer_time, q) sorted.0 later))
      ],
    )

    pop_waiting :
        (x : Bytes)
        → waiting nodes x ordered
          ≡ occurrences x head_node.0.parents + waiting nodes x (ordered ++ oid ∷ [])
    pop_waiting x =
        weigh_step (λ n. occurrences x n.parents) nodes oid ordered head_node.0 distinct head_node.1
          head_node.3

    apart : (t' : ℤ) (x : Bytes) → In (t', x) eligible → oid ≡ x → ⊥
    apart t' x m is =
        let (node, l, time, o, z) = sound t' x (inr m) in
        let same : some head_node.0 ≡ some node = sym head_node.1 ∙ ap (lookup nodes) is ∙ l in
        let again : (t', x) ≡ (t, oid) = ground (arith, head_node.2) in
        Before-irrefl (t, oid)
          (subst (Before (t, oid)) again (All-In (Before (t, oid)) eligible (t', x) sorted.0 m))

    pub pop-IsConsistent :
        IsConsistent nodes (ordered ++ oid ∷ []) head_node.0.parents counts eligible
    pop-IsConsistent = record {
      counted = λ x node l. ground (arith, counted x node l, pop_waiting x);
      sorted = sorted.1;
      sound = λ t' x m.
          let (node, l, time, o, z) = sound t' x (inr m) in
          (
            node,
            l,
            time,
            ground (arith, has-snoc x oid ordered, bytes_eq-false oid x (apart t' x m)),
            omega (arith, pop_waiting x),
          );
      full = λ x node l o z.
          let not_oid : bytes_eq oid x ≡ false = ground (arith, has-snoc x oid ordered) in
          elim (full x node l (ground (arith, has-snoc x oid ordered))
            (omega (arith, pop_waiting x))) [
              | inl is ↦ absurd (ground (arith, bytes_eq_iff oid x, ap (λ e. e.1) is))
              | inr later ↦ later
            ];
      settled = λ x h.
          ground (
            arith,
            has-snoc x oid ordered,
            bytes_eq_iff oid x,
            settled x,
            pop_waiting x,
            head_node,
          );
    }
