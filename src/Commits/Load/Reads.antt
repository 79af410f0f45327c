-- ===== src/Commits/Load/Reads.antt =====
-- Loading a commit against the commits of the repository.
use fornacast.Prelude.{
  ℕ, ◌≡◌, ◌⊎◌, inl, inr, refl, sym, ap, ◌∙◌, Option, none, some, Result, ok, err, arith,
  Option-cases,
}
use fornacast.Prelude.Bytes.{Bytes}
use fornacast.Native.{NativeError, ok_or}
use fornacast.Native.Clock.{Clock, lift}
use fornacast.Native.Outcome.{
  Outcome, Outcome-bind, Outcome-lift_self, Outcome-ok_or, Outcome-imply, Outcome-weaken,
}
use fornacast.Commits.Nodes.{CommitNode, CommitPosition, lookup, check_commit_deadline}
use fornacast.Commits.Graph.Maps.{DistinctKeys}
use fornacast.Commits.Graph.Release.{Loaded, CommitTimeout, Outcome-commit_deadline}
use fornacast.Commits.Load.{
  GitSignature, DecodedCommit, GitCommit, FindError, not_found, GitObject, commit_object,
  other_object, StoredEntry, Repository, try_into_commit, find_graph_commit, corrupt_commit,
  decode_commit_node, load_commit_node,
}
use fornacast.Commits.Load.Store.{
  decoded_node, object_node, commits_of, lookup-commits_of, commits_of-lookup,
}

-- The commit cannot be found, or its data cannot be read.
abbrev pub Unreadable : Repository → CommitPosition → Bytes → NativeError → Type 0
Unreadable repo position oid e =
    (find_graph_commit repo oid position ≡ err e)
    ⊎ ((c : GitCommit) × (find_graph_commit repo oid position ≡ ok c)
        × (decoded_node c.decoded ≡ none)
        × (e ≡ corrupt_commit))

pub no_author_time :
    (c : GitCommit) (d : DecodedCommit) (a : GitSignature)
    → c.decoded ≡ some d
    → d.author ≡ some a
    → a.time ≡ none
    → (d.committer ≡ none) ⊎ ((m : GitSignature) × (d.committer ≡ some m))
    → decoded_node c.decoded ≡ none
no_author_time c d a has_d has_a h (inl missing) = ground arith
no_author_time c d a has_d has_a h (inr (m, has_m)) = ground arith

module _ (late : Clock) (repo : Repository) where
  abbrev pub LoadError : CommitPosition → Bytes → NativeError → Type 0
  LoadError position oid e = CommitTimeout late e ⊎ Unreadable repo position oid e

  abbrev pub DecodeError : GitCommit → NativeError → Type 0
  DecodeError c e = CommitTimeout late e ⊎ ((decoded_node c.decoded ≡ none) × (e ≡ corrupt_commit))

  pub decode_commit_node-loads :
      (c : GitCommit) (n : ℕ)
      → Outcome
          (DecodeError c)
          (λ node. decoded_node c.decoded ≡ some node)
          (decode_commit_node late c n)
  unfolding decode_commit_node
  decode_commit_node-loads c n =
      let E = DecodeError c in
      let Q = λ (node : CommitNode). decoded_node c.decoded ≡ some node in
      Outcome-bind E (λ d. c.decoded ≡ some d) Q (lift (ok_or c.decoded corrupt_commit)) _ n
        (Outcome-ok_or E c.decoded corrupt_commit n (λ h. inr (ap decoded_node h, refl)))
        (λ d n1 has_d.
          Outcome-bind E (λ a. d.author ≡ some a) Q (lift (ok_or d.author corrupt_commit)) _ n1
            (Outcome-ok_or E d.author corrupt_commit n1 (λ h. inr (ground arith, refl)))
            (λ a n2 has_a.
              Outcome-bind E (λ s. a.time ≡ some s) Q (lift (ok_or a.time corrupt_commit)) _ n2
                (Outcome-ok_or E a.time corrupt_commit n2
                  (λ h. inr (no_author_time c d a has_d has_a h (Option-cases d.committer), refl)))
                (λ s n3 has_s.
                  Outcome-bind E (λ m. d.committer ≡ some m) Q
                    (lift (ok_or d.committer corrupt_commit)) _ n3
                    (Outcome-ok_or E d.committer corrupt_commit n3 (λ h. inr (ground arith, refl)))
                    (λ m n4 has_m.
                      Outcome-bind E (λ t. m.time ≡ some t) Q (lift (ok_or m.time corrupt_commit)) _
                        n4
                        (Outcome-ok_or E m.time corrupt_commit n4 (λ h. inr (ground arith, refl)))
                        (λ t n5 has_t.
                          Outcome-bind E (λ (u : Unit {0}). Unit {0}) Q (check_commit_deadline late)
                            _ n5
                            (Outcome-weaken (CommitTimeout late) E (λ (u : Unit {0}). Unit {0})
                              (check_commit_deadline late n5) (λ e y. inl y)
                              (Outcome-commit_deadline late n5))
                            (λ _ n6 _. ground arith))))))

  commit_in :
      (position : CommitPosition) (c : GitCommit) (r : Result FindError GitObject)
      → try_into_commit position r ≡ ok c
      → object_node r ≡ decoded_node c.decoded
  commit_in position c (ok (commit_object x)) h =
      ap (λ r. elim r [ ok y ↦ decoded_node y.decoded | err e ↦ none ]) h
  commit_in position c (ok other_object) h = cc
  commit_in position c (err e) h = cc

  pub decoded-Loaded :
      (oid : Bytes) (position : CommitPosition) (c : GitCommit) (node : CommitNode)
      → find_graph_commit repo oid position ≡ ok c
      → decoded_node c.decoded ≡ some node
      → Loaded (commits_of repo) oid node
  unfolding find_graph_commit
  decoded-Loaded oid position c node h d = elim (Option-cases (lookup repo oid)) [
    | inl missing ↦ absurd (
        cc (
          sym (
            ap
              (λ (o : Option StoredEntry).
                try_into_commit position (elim o [ none ↦ err not_found | some x ↦ x.object ]))
              missing)
          ∙ h))
    | inr (entry, l) ↦
        let its : try_into_commit position entry.object ≡ ok c =
          sym (
            ap
              (λ (o : Option StoredEntry).
                try_into_commit position (elim o [ none ↦ err not_found | some x ↦ x.object ]))
              l)
          ∙ h in
        lookup-commits_of repo oid entry node l (commit_in position c entry.object its ∙ d)
  ]

  pub load_commit_node-loads :
      (oid : Bytes) (position : CommitPosition) (n : ℕ)
      → Outcome
          (LoadError position oid)
          (λ node. Loaded (commits_of repo) oid node)
          (load_commit_node late repo oid position n)
  unfolding load_commit_node
  load_commit_node-loads oid position n =
      let E = LoadError position oid in
      let Q = λ (node : CommitNode). Loaded (commits_of repo) oid node in
      let deadline = λ (k : ℕ).
        Outcome-weaken (CommitTimeout late) E (λ (u : Unit {0}). Unit {0})
          (check_commit_deadline late k) (λ e y. inl y) (Outcome-commit_deadline late k) in
      Outcome-bind E (λ (u : Unit {0}). Unit {0}) Q (check_commit_deadline late) _ n (deadline n)
        (λ _ n1 _.
          Outcome-bind E (λ c. find_graph_commit repo oid position ≡ ok c) Q
            (lift (find_graph_commit repo oid position)) _ n1
            (Outcome-lift_self E (find_graph_commit repo oid position) n1 (λ e h. inr (inl h)))
            (λ c n2 h.
              Outcome-bind E (λ (u : Unit {0}). Unit {0}) Q (check_commit_deadline late) _ n2
                (deadline n2)
                (λ _ n3 _.
                  Outcome-imply E (λ node. decoded_node c.decoded ≡ some node) Q
                    (decode_commit_node late c n3) (λ node. decoded-Loaded oid position c node h)
                    (Outcome-weaken (DecodeError c) E (λ node. decoded_node c.decoded ≡ some node)
                      (decode_commit_node late c n3)
                      (λ e y. elim y [ inl t ↦ inl t | inr (d, is) ↦ inr (inr (c, h, d, is)) ])
                      (decode_commit_node-loads c n3)))))

-- What the map has can be read.
pub Loaded_readable :
    (repo : Repository) (oid : Bytes) (position : CommitPosition) (node : CommitNode)
    (e : NativeError)
    → DistinctKeys repo
    → Loaded (commits_of repo) oid node
    → Unreadable repo position oid e
    → ⊥
unfolding find_graph_commit
Loaded_readable repo oid position node e d l bad =
    let (entry, in_repo, its) = commits_of-lookup repo oid node d l in
    let reads : find_graph_commit repo oid position ≡ try_into_commit position entry.object =
      ap
        (λ (o : Option StoredEntry).
          try_into_commit position (elim o [ none ↦ err not_found | some x ↦ x.object ]))
        in_repo in
    contradicts entry.object its (elim bad [
      | inl h ↦ inl (sym reads ∙ h)
      | inr (c, h, none_decoded, _) ↦ inr (c, sym reads ∙ h, none_decoded)
    ])
  where
    contradicts :
        (r : Result FindError GitObject)
        → object_node r ≡ some node
        → (try_into_commit position r ≡ err e)
          ⊎ ((c : GitCommit) × (try_into_commit position r ≡ ok c)
              × (decoded_node c.decoded ≡ none))
        → ⊥
    contradicts (ok (commit_object c)) o (inl h) = cc
    contradicts (ok (commit_object c)) o (inr (c', h, z)) =
        let same : decoded_node c.decoded ≡ decoded_node c'.decoded =
          ap (λ r. elim r [ ok y ↦ decoded_node y.decoded | err e ↦ none ]) h in
        cc (o, same, z)
    contradicts (ok other_object) o h = absurd (cc o)
    contradicts (err x) o h = absurd (cc o)
