-- ===== src/Commits/Graph/Roots.antt =====
-- The set of eligible commits at the start: `first_eligible`.
use fornacast.Prelude.{
  ℕ, ◌≡◌, ◌⊎◌, ◌↔◌, inl, inr, refl, sym, ap, ◌∙◌, subst, none, some, List, [], ◌∷◌, ◌==◌,
  if◌then◌else◌, arith, Bool-cases,
}
use fornacast.Prelude.Bytes.{Bytes, bytes_eq, bytes_eq_iff, bytes_eq_refl}
use fornacast.Native.Clock.{Clock}
use fornacast.Native.Outcome.{Outcome, Outcome-bind, Outcome-imply}
use fornacast.Commits.Nodes.{CommitNode, Nodes, Counts, count_of, lookup, check_commit_deadline}
use fornacast.Commits.Ordering.{Eligible, insert, first_eligible}
use fornacast.Commits.Graph.Maps.{DistinctKeys}
use fornacast.Commits.Graph.Queue.{In, IsSorted, insert-IsSorted, In-insert}
use fornacast.Commits.Graph.Release.{
  Loaded, waiting, IsConsistent, CommitTimeout, Outcome-commit_deadline,
}

-- A commit with no child, as it is put into the set.
abbrev IsRoot : Counts → Nodes → Eligible → Type 0
IsRoot counts nodes e =
    (node : CommitNode) × Loaded nodes e.1 node
    × (e.0 ≡ node.committer_time)
    × (count_of counts e.1 ≡ 0)

abbrev Roots : Counts → Nodes → List Eligible → List Eligible → Type 0
Roots counts nodes before after =
    IsSorted after × ((e : Eligible) → In e after ↔ (In e before ⊎ IsRoot counts nodes e))

module _ (counts : Counts) (id : Bytes) (node : CommitNode) where
  abbrev with_root : List Eligible → List Eligible
  with_root eligible =
      if count_of counts id == 0 then insert (node.committer_time, id) eligible else eligible

  with_root-IsSorted :
      (eligible : List Eligible) → IsSorted eligible → IsSorted (with_root eligible)
  with_root-IsSorted eligible s = ground (arith, insert-IsSorted (node.committer_time, id) eligible)

  leaves :
      (e : Eligible) (eligible : List Eligible)
      → In e (with_root eligible)
      → In e eligible ⊎ ((count_of counts id ≡ 0) × (e ≡ (node.committer_time, id)))
  leaves e eligible m = elim (Bool-cases (count_of counts id == 0)) [
    | inl root ↦ ground (arith, In-insert e (node.committer_time, id) eligible)
    | inr child ↦ ground arith
  ]

  enters :
      (e : Eligible) (eligible : List Eligible)
      → In e eligible ⊎ ((count_of counts id ≡ 0) × (e ≡ (node.committer_time, id)))
      → In e (with_root eligible)
  enters e eligible m = elim (Bool-cases (count_of counts id == 0)) [
    | inl root ↦ ground (arith, In-insert e (node.committer_time, id) eligible)
    | inr child ↦ ground arith
  ]

  with_root-Roots :
      (nodes : Nodes) (eligible after : List Eligible)
      → lookup nodes id ≡ none
      → Roots counts nodes (with_root eligible) after
      → Roots counts ((id, node) ∷ nodes) eligible after
  with_root-Roots nodes eligible after fresh (sorted, entries) =
      (sorted, λ e. (λ m. to e ((entries e).0 m), from e))
    where
      is_root :
          (e : Eligible)
          → count_of counts id ≡ 0
          → e ≡ (node.committer_time, id)
          → IsRoot counts ((id, node) ∷ nodes) e
      is_root e z is =
          subst (IsRoot counts ((id, node) ∷ nodes)) (sym is)
            (node, ground (arith, bytes_eq_refl id), refl, z)

      to :
          (e : Eligible)
          → In e (with_root eligible) ⊎ IsRoot counts nodes e
          → In e eligible ⊎ IsRoot counts ((id, node) ∷ nodes) e
      to e (inl first) = elim (leaves e eligible first) [
        | inl old ↦ inl old
        | inr (z, is) ↦ inr (is_root e z is)
      ]
      to e (inr (n, l, t, z)) = inr (n, ground (arith, bytes_eq_iff id e.1), t, z)

      from : (e : Eligible) → In e eligible ⊎ IsRoot counts ((id, node) ∷ nodes) e → In e after
      from e (inl old) = (entries e).1 (inl (enters e eligible (inl old)))
      from e (inr (n, l, t, z)) = elim (Bool-cases (bytes_eq id e.1)) [
        | inl same ↦
            let is : id ≡ e.1 = (bytes_eq_iff id e.1).0 same in
            let one : some node ≡ some n =
              sym (ap (λ b. if b then some node else lookup nodes e.1) same) ∙ l in
            let this : e ≡ (node.committer_time, id) = ground arith in
            let zero_count : count_of counts id ≡ 0 =
              subst (λ x. count_of counts x ≡ 0) (sym is) z in
            (entries e).1 (inl (enters e eligible (inr (zero_count, this))))
        | inr other ↦ (entries e).1 (inr (n, ground arith, t, z))
      ]

module _ (late : Clock) (counts : Counts) where
  first_eligible-Roots :
      (nodes : Nodes) (eligible : List Eligible) (n : ℕ)
      → DistinctKeys nodes
      → IsSorted eligible
      → Outcome
          (CommitTimeout late)
          (Roots counts nodes eligible)
          (first_eligible late counts nodes eligible n)
  unfolding first_eligible
  first_eligible-Roots [] eligible n d s =
      (s, λ e. (inl, λ m. elim m [ inl old ↦ old | inr (_, l, _, _) ↦ absurd (cc l) ]))
  first_eligible-Roots ((id, node) ∷ nodes) eligible n d s =
      Outcome-bind (CommitTimeout late) (λ _. Unit {0}) (Roots counts ((id, node) ∷ nodes) eligible)
        (check_commit_deadline late) _ n (Outcome-commit_deadline late n)
        (λ _ k _.
          Outcome-imply (CommitTimeout late)
            (Roots counts nodes (with_root counts id node eligible)) _ _
            (λ after. with_root-Roots counts id node nodes eligible after d.0)
            (first_eligible-Roots nodes (with_root counts id node eligible) k d.1
              (with_root-IsSorted counts id node eligible s)))

  -- The set with which the ordering begins.
  pub first_eligible-IsConsistent :
      (nodes : Nodes) (n : ℕ)
      → DistinctKeys nodes
      → ((x : Bytes) (node : CommitNode)
          → Loaded nodes x node
          → lookup counts x ≡ some (waiting nodes x []))
      → Outcome
          (CommitTimeout late)
          (λ eligible. IsConsistent nodes [] [] counts eligible)
          (first_eligible late counts nodes [] n)
  first_eligible-IsConsistent nodes n d counted =
      Outcome-imply (CommitTimeout late) (Roots counts nodes []) _
        (first_eligible late counts nodes [] n)
        (λ eligible (sorted, entries). record {
          counted = λ x node l. ground (arith, counted x node l);
          sorted = sorted;
          sound = λ t x m. elim ((entries (t, x)).0 m) [
            | inl old ↦ absurd old
            | inr (node, l, time, z) ↦ (node, l, time, refl, ground (arith, counted x node l))
          ];
          full = λ x node l o z.
              (entries (node.committer_time, x)).1
                (inr (node, l, refl, ground (arith, counted x node l)));
          settled = λ x h. cc;
        })
        (first_eligible-Roots nodes [] n d tt)
