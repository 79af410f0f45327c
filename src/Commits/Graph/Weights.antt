-- ===== src/Commits/Graph/Weights.antt =====
-- Sums over the commits of a graph that are not done: the children that a commit waits for.
use fornacast.Prelude.{
  ℕ, ◌+◌, ◌<◌, ◌≡◌, inl, inr, refl, sym, ap, ◌∙◌, subst, true, false, none, some, [], ◌∷◌, ◌++◌,
  ltb, if◌then◌else◌, arith, Bool-cases,
}
use fornacast.Prelude.Bytes.{Bytes, bytes_eq, bytes_eq_iff, bytes_eq_refl}
use fornacast.Compare.Budgets.{Oids, has}
use fornacast.Commits.Nodes.{CommitNode, Nodes, lookup, put}
use fornacast.Commits.Graph.Maps.{DistinctKeys, has-snoc}

-- How often an id stands in a list.
abbrev pub occurrences : Bytes → Oids → ℕ
occurrences p [] = 0
occurrences p (q ∷ qs) = (if bytes_eq q p then 1 else 0) + occurrences p qs

pub has_of_occurrences : (p : Bytes) (qs : Oids) → 0 < occurrences p qs → has p qs ≡ true
has_of_occurrences p [] h = absurd (omega arith)
has_of_occurrences p (q ∷ qs) h = ground (arith, has_of_occurrences p qs)

pub occurrences_of_has : (p : Bytes) (qs : Oids) → has p qs ≡ true → 0 < occurrences p qs
occurrences_of_has p [] h = cc
occurrences_of_has p (q ∷ qs) h = ground (arith, occurrences_of_has p qs)

module _ (w : CommitNode → ℕ) where
  abbrev pub weigh : Nodes → Oids → ℕ
  weigh [] done = 0
  weigh ((id, node) ∷ nodes) done = (if has id done then 0 else w node) + weigh nodes done

  pub weigh-absent :
      (nodes : Nodes) (oid : Bytes) (done : Oids)
      → lookup nodes oid ≡ none
      → weigh nodes (done ++ oid ∷ []) ≡ weigh nodes done
  weigh-absent [] oid done h = refl
  weigh-absent ((id, node) ∷ nodes) oid done h = ground (
    arith,
    weigh-absent nodes oid done,
    has-snoc id oid done,
    bytes_eq_iff oid id,
    bytes_eq_iff id oid,
  )

  -- A commit that is done no longer counts.
  pub weigh_step :
      (nodes : Nodes) (oid : Bytes) (done : Oids) (node : CommitNode)
      → DistinctKeys nodes
      → lookup nodes oid ≡ some node
      → has oid done ≡ false
      → weigh nodes done ≡ w node + weigh nodes (done ++ oid ∷ [])
  weigh_step [] oid done node d l h = cc
  weigh_step ((id, n) ∷ nodes) oid done node d l h = elim (Bool-cases (bytes_eq id oid)) [
    | inl same ↦
        let is : id ≡ oid = (bytes_eq_iff id oid).0 same in
        let absent : lookup nodes oid ≡ none = subst (λ x. lookup nodes x ≡ none) is d.0 in
        let open_id : has id done ≡ false = subst (λ x. has x done ≡ false) (sym is) h in
        let back : bytes_eq oid id ≡ true = (bytes_eq_iff oid id).1 (sym is) in
        let this : some n ≡ some node =
          sym (ap (λ b. if b then some n else lookup nodes oid) same) ∙ l in
        let weight : w n ≡ w node = ap (λ o. elim o [ none ↦ 0 | some x ↦ w x ]) this in
        ground (arith, weigh-absent nodes oid done, has-snoc id oid done)
    | inr other ↦ ground (
      arith,
      weigh_step nodes oid done node,
      has-snoc id oid done,
      bytes_eq_iff oid id,
      bytes_eq_iff id oid,
    )
  ]

  pub weigh-put :
      (nodes : Nodes) (oid : Bytes) (node : CommitNode)
      → lookup nodes oid ≡ none
      → weigh (put oid node nodes) [] ≡ weigh nodes [] + w node
  weigh-put [] oid node h = omega arith
  weigh-put ((id, n) ∷ nodes) oid node h = ground (arith, weigh-put nodes oid node)

  -- Some commit that is not done has a weight.
  abbrev pub Weighs : Nodes → Oids → Type 0
  Weighs nodes done =
      (c : Bytes) × (node : CommitNode) × (lookup nodes c ≡ some node)
      × (has c done ≡ false)
      × (0 < w node)

  pub weigh_pos :
      (nodes : Nodes) (done : Oids) → DistinctKeys nodes → 0 < weigh nodes done → Weighs nodes done
  weigh_pos [] done d h = absurd (omega arith)
  weigh_pos ((id, n) ∷ nodes) done d h = elim (Bool-cases (has id done)) [
    | inl seen ↦ later (weigh_pos nodes done d.1 (ground arith))
    | inr new ↦ elim (Bool-cases (ltb 0 (w n))) [
      | inl pos ↦ (id, n, ground (arith, bytes_eq_refl id), new, ground arith)
      | inr nil ↦ later (weigh_pos nodes done d.1 (ground arith))
    ]
  ]
    where
      later : Weighs nodes done → Weighs ((id, n) ∷ nodes) done
      later (c, node, l, open_c, p) = (c, node, ground (arith, bytes_eq_iff id c), open_c, p)
