-- ===== src/Commits/Graph/Visits.antt =====
-- The first part of the walk: `visit_commit` and `walk_rounds` load what the tip reaches.
use fornacast.Prelude.{
  ℕ, zero, suc, ◌+◌, ◌≤◌, ◌≡◌, ◌⊎◌, inl, inr, refl, ap, ◌∙◌, subst, true, false, ◌||◌, Option, none,
  some, [], ◌∷◌, ◌++◌, arith, Bool-cases, Option-cases, length,
}
use fornacast.Prelude.Bytes.{Bytes, bytes_eq, bytes_eq_iff, bytes_eq_refl}
use fornacast.Native.{NativeError}
use fornacast.Native.Clock.{Clock}
use fornacast.Native.Outcome.{Outcome, Outcome-bind}
use fornacast.Compare.Budgets.{Oids, has}
use fornacast.Commits.Graph.{
  count_parents, Walk, Loader, position_of, add_commit, visit_commit, walk_rounds,
}
use fornacast.Commits.Nodes.{
  CommitNode, Nodes, Counts, count_of, lookup, or_default, check_commit_deadline,
}
use fornacast.Commits.Graph.Maps.{
  DistinctKeys, put-DistinctKeys, lookup-put, lookup-put_cases, count_of-or_default,
  lookup-or_default, has-snoc,
}
use fornacast.Commits.Graph.Weights.{occurrences, weigh-put, weigh_step}
use fornacast.Commits.Graph.Release.{Loaded, CommitTimeout}
use fornacast.Commits.Graph.Parents.{
  Reach, step, parents_left, Overflow, occurrences-le, waiting-le, IsCounted, Outcome-deadline,
  count_parents-IsCounted,
}
use fornacast.Commits.Graph.Explored.{IsExplored}

-- A popped commit that was visited leaves nothing behind.
met_again :
    (oid p : Bytes) (visited pending : Oids)
    → has oid visited ≡ true
    → (has p visited ≡ true) ⊎ (has p (oid ∷ pending) ≡ true)
    → (has p visited ≡ true) ⊎ (has p pending ≡ true)
met_again oid p visited pending again h = ground (arith, bytes_eq_iff oid p)

met_new :
    (oid p : Bytes) (visited pending parents : Oids)
    → (has p visited ≡ true) ⊎ (has p (oid ∷ pending) ≡ true)
    → (has p (visited ++ oid ∷ []) ≡ true) ⊎ ((has p pending || has p parents) ≡ true)
met_new oid p visited pending parents h = ground (arith, has-snoc p oid visited)

module _ {S : Type 0} (late : Clock) (store : Nodes) (store_distinct : DistinctKeys store)
    (tip_oid : Bytes) (load_node : Loader S) (P : S → Type 0) (E : NativeError → Type 0)
    (timed : (e : NativeError) → CommitTimeout late e → E e)
    (over : (e : NativeError) → Overflow store e → E e)
    (loads : (oid : Bytes) (s : S) (n : ℕ)
      → Reach store tip_oid oid
      → P s
      → Outcome E
          (λ (r : CommitNode × S). Loaded store oid r.0 × P r.1)
          (load_node oid (position_of oid tip_oid) s n)) where
  abbrev pub Explored : Walk S → Oids → Type 0
  Explored w pending = IsExplored S P store tip_oid w pending

  -- An entry of the stack, or a parent that is not counted, is taken away in every round.
  abbrev pub work : Walk S → Oids → ℕ
  work w pending = length pending + parents_left store w.visited

  again-Explored :
      (oid : Bytes) (w : Walk S) (pending : Oids)
      → has oid w.visited ≡ true
      → Explored w (oid ∷ pending)
      → Explored w pending
  again-Explored oid w pending again i = record {
    keeps = i.keeps;
    distinct = i.distinct;
    counted = i.counted;
    entered = i.entered;
    from_store = i.from_store;
    waits = λ x h. i.waits x (ground arith);
    loaded = i.loaded;
    seen = i.seen;
    parents_met =
        λ x node p l h. met_again oid p w.visited pending again (i.parents_met x node p l h);
    tip_met = met_again oid tip_oid w.visited pending again i.tip_met;
    edges = i.edges;
  }

  module _ (oid : Bytes) (w : Walk S) (pending : Oids) (is_new : has oid w.visited ≡ false)
      (i : Explored w (oid ∷ pending)) (node : CommitNode) (s : S)
      (in_store : Loaded store oid node) (p : P s) where
    absent : lookup w.nodes oid ≡ none
    absent = elim (Option-cases (lookup w.nodes oid)) [
      | inl missing ↦ missing
      | inr (n, l) ↦ absurd (cc (i.seen oid n l, is_new))
    ]

    taken :
        parents_left store w.visited
        ≡ length node.parents + parents_left store (w.visited ++ oid ∷ [])
    taken =
        weigh_step (λ n. length n.parents) store oid w.visited node store_distinct in_store is_new

    room :
        (x : Bytes)
        → count_of (or_default oid w.child_counts) x + occurrences x node.parents
          ≤ parents_left store []
    room x = omega (
      arith,
      count_of-or_default oid x w.child_counts,
      i.counted x,
      waiting-le w.nodes x,
      occurrences-le x node.parents,
      taken,
      i.edges,
    )

    module _ (c : Counts × Oids)
        (counted : IsCounted node.parents (or_default oid w.child_counts) pending c) where
      abbrev walk' : Walk S
      walk' = (add_commit oid (node, s) c w).0

      abbrev NodeCases : Bytes → CommitNode → Type 0
      NodeCases x n =
          ((oid ≡ x) × (some node ≡ some n)) ⊎ ((bytes_eq oid x ≡ false) × Loaded w.nodes x n)

      node_cases : (x : Bytes) (n : CommitNode) → Loaded walk'.nodes x n → NodeCases x n
      node_cases x n l = lookup-put_cases oid x node w.nodes n l

      entered' : (x : Bytes) (n : CommitNode) → NodeCases x n → (m : ℕ) × (lookup c.0 x ≡ some m)
      entered' x n (inl (is, _)) =
          let (m, l) = lookup-or_default oid x w.child_counts (inl ((bytes_eq_iff oid x).1 is)) in
          counted.kept x m l
      entered' x n (inr (other, l)) =
          let (m, l') = lookup-or_default oid x w.child_counts (inr (i.entered x n l)) in
          counted.kept x m l'

      from_store' :
          (x : Bytes) (n : CommitNode) → NodeCases x n → Loaded store x n × Reach store tip_oid x
      from_store' x n (inl (is, one)) = (
        subst (λ y. lookup store y ≡ some n) is (in_store ∙ one),
        subst (Reach store tip_oid) is (i.waits oid (ground (arith, bytes_eq_refl oid))),
      )
      from_store' x n (inr (other, l)) = i.from_store x n l

      waits' : (x : Bytes) → has x c.1 ≡ true → Reach store tip_oid x
      waits' x h = elim (Bool-cases (has x pending)) [
        | inl old ↦ i.waits x (ground arith)
        | inr new ↦
            step (i.waits oid (ground (arith, bytes_eq_refl oid))) in_store
              (ground (arith, counted.stacked x))
      ]

      loaded' :
          (x : Bytes)
          → has x (w.visited ++ oid ∷ []) ≡ true
          → (n : CommitNode) × Loaded walk'.nodes x n
      loaded' x h = elim (Bool-cases (bytes_eq oid x)) [
        | inl same ↦ (node, ground (arith, lookup-put oid x node w.nodes))
        | inr other ↦
            let (n, l) = i.loaded x (ground (arith, has-snoc x oid w.visited)) in
            (n, ground (arith, lookup-put oid x node w.nodes))
      ]

      seen' : (x : Bytes) (n : CommitNode) → NodeCases x n → has x (w.visited ++ oid ∷ []) ≡ true
      seen' x n (inl (is, _)) = ground (arith, has-snoc x oid w.visited, bytes_eq_iff oid x)
      seen' x n (inr (other, l)) = ground (arith, has-snoc x oid w.visited, i.seen x n l)

      met' :
          (q : Bytes)
          → (has q w.visited ≡ true) ⊎ (has q (oid ∷ pending) ≡ true)
          → (has q walk'.visited ≡ true) ⊎ (has q c.1 ≡ true)
      met' q h = elim (met_new oid q w.visited pending node.parents h) [
        | inl old ↦ inl old
        | inr new ↦ inr (counted.stacked q ∙ new)
      ]

      parents_met' :
          (x : Bytes) (n : CommitNode) (q : Bytes)
          → NodeCases x n
          → has q n.parents ≡ true
          → (has q walk'.visited ≡ true) ⊎ (has q c.1 ≡ true)
      parents_met' x n q (inl (is, one)) h =
          let there : has q node.parents ≡ true =
            ap (λ o. elim o [ none ↦ false | some y ↦ has q y.parents ]) one ∙ h in
          inr (counted.stacked q ∙ ground arith)
      parents_met' x n q (inr (other, l)) h = met' q (i.parents_met x n q l h)

      new-Explored : Explored walk' c.1
      new-Explored = record {
        keeps = p;
        distinct = put-DistinctKeys oid node w.nodes absent i.distinct;
        counted = λ x. omega (
          arith,
          counted.grown x,
          count_of-or_default oid x w.child_counts,
          i.counted x,
          weigh-put (λ n. occurrences x n.parents) w.nodes oid node absent,
        );
        entered = λ x n l. entered' x n (node_cases x n l);
        from_store = λ x n l. from_store' x n (node_cases x n l);
        waits = waits';
        loaded = loaded';
        seen = λ x n l. seen' x n (node_cases x n l);
        parents_met = λ x n q l h. parents_met' x n q (node_cases x n l) h;
        tip_met = met' tip_oid i.tip_met;
        edges =
            omega
              (arith, weigh-put (λ n. length n.parents) w.nodes oid node absent, taken, i.edges);
      }

      new_work : work walk' c.1 + 1 ≡ work w (oid ∷ pending)
      new_work = omega (arith, taken, counted.size)

  abbrev Visited : Walk S → Bytes → Oids → Walk S × Oids → Type 0
  Visited w oid pending r = Explored r.0 r.1 × (work r.0 r.1 + 1 ≡ work w (oid ∷ pending))

  visit_commit-Visited :
      (oid : Bytes) (w : Walk S) (pending : Oids) (n : ℕ)
      → Explored w (oid ∷ pending)
      → Outcome E (Visited w oid pending) (visit_commit late tip_oid load_node oid w pending n)
  unfolding visit_commit
  visit_commit-Visited oid w pending n i = elim (Bool-cases (has oid w.visited)) [
    | inl again ↦ rw again (again-Explored oid w pending again i, omega arith)
    | inr new ↦
        let Q = Visited w oid pending in
        rw new (
          Outcome-bind E (λ (r : CommitNode × S). Loaded store oid r.0 × P r.1) Q
            (load_node oid (position_of oid tip_oid) w.loading) _ n
            (loads oid w.loading n (i.waits oid (ground (arith, bytes_eq_refl oid))) i.keeps)
            (λ r k (in_store, p).
              let counts = or_default oid w.child_counts in
              Outcome-bind E (IsCounted r.0.parents counts pending) Q
                (count_parents late r.0.parents counts pending) _ k
                (count_parents-IsCounted late store E timed over r.0.parents counts pending k
                  (room oid w pending new i r.0 r.1 in_store p))
                (λ c j counted. (
                  new-Explored oid w pending new i r.0 r.1 in_store p c counted,
                  new_work oid w pending new i r.0 r.1 in_store p c counted,
                ))))
  ]

  -- With rounds for all the work the walk ends with an empty stack.
  pub walk_rounds-IsExplored :
      (rounds : ℕ) (w : Walk S) (pending : Oids) (n : ℕ)
      → Explored w pending
      → work w pending ≤ rounds
      → Outcome E
          (λ o. (v : Walk S) × (o ≡ some v) × Explored v [])
          (walk_rounds late tip_oid load_node rounds w pending n)
  unfolding walk_rounds
  walk_rounds-IsExplored rounds w [] n i h = (w, refl, i)
  walk_rounds-IsExplored zero w (oid ∷ pending) n i h = absurd (omega arith)
  walk_rounds-IsExplored (suc rounds) w (oid ∷ pending) n i h =
      let Q = λ (o : Option (Walk S)). (v : Walk S) × (o ≡ some v) × Explored v [] in
      Outcome-bind E (λ (u : Unit {0}). Unit {0}) Q (check_commit_deadline late) _ n
        (Outcome-deadline late store E timed over n)
        (λ _ k _.
          Outcome-bind E (Visited w oid pending) Q
            (visit_commit late tip_oid load_node oid w pending) _ k
            (visit_commit-Visited oid w pending k i)
            (λ r j (i', less). walk_rounds-IsExplored rounds r.0 r.1 j i' (omega (arith, less, h))))
