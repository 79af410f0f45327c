-- ===== src/Commits/Listing/Hydrated.antt =====
-- The commits of a page as they are read from the repository: `hydrate_commit` of
-- apps/git_core/native/fornacast_git_core/src/lib.rs for each of them.
use fornacast.Prelude.{
  ℕ, ◌≡◌, inl, inr, refl, ap, some, List, [], ◌∷◌, ok, All, All-imply, arith, Option-cases,
}
use fornacast.Prelude.Bytes.{Bytes}
use fornacast.Prelude.Int.{ℤ}
use fornacast.Native.{NativeError, ok_or}
use fornacast.Native.Clock.{Clock, lift}
use fornacast.Native.Outcome.{
  Outcome, Outcome-bind, Outcome-ok_or, Outcome-lift_self, Outcome-weaken,
}
use fornacast.Compare.Budgets.{Oids}
use fornacast.Commits.Nodes.{ancestor, check_commit_deadline}
use fornacast.Commits.Graph.Maps.{DistinctKeys}
use fornacast.Commits.Graph.Release.{CommitTimeout, Outcome-commit_deadline, AllLoaded}
use fornacast.Commits.Load.{
  GitSignature, DecodedCommit, GitCommit, Repository, find_graph_commit, corrupt_commit,
}
use fornacast.Commits.Load.Store.{commits_of, decoded_node}
use fornacast.Commits.Load.Reads.{Unreadable, no_author_time, Loaded_readable}
use fornacast.Commits.Listing.{Printing, NativeCommit, native_commit, hydrate_commit, hydrate_all}

-- The commit is what the repository has under the id.
abbrev pub Shows : Printing → Repository → Bytes → NativeCommit → Type 0
Shows p repo oid c =
    (commit : GitCommit) × (d : DecodedCommit) × (a : GitSignature) × (s : ℤ) × (m : GitSignature)
    × (t : ℤ) × (find_graph_commit repo oid ancestor ≡ ok commit)
    × (commit.decoded ≡ some d)
    × (d.author ≡ some a)
    × (a.time ≡ some s)
    × (d.committer ≡ some m)
    × (m.time ≡ some t)
    × (c ≡ native_commit p oid d a s m t)

abbrev pub ShowsAll : Printing → Repository → Oids → List NativeCommit → Type 0
ShowsAll p repo [] [] = Unit
ShowsAll p repo [] (c ∷ cs) = ⊥
ShowsAll p repo (oid ∷ oids) [] = ⊥
ShowsAll p repo (oid ∷ oids) (c ∷ cs) = Shows p repo oid c × ShowsAll p repo oids cs

abbrev pub Any : NativeError → Type 0
Any e = Unit

module _ (late : Clock) (p : Printing) (repo : Repository) where
  pub deadline : (n : ℕ) → Outcome Any (λ (u : Unit {0}). Unit {0}) (check_commit_deadline late n)
  deadline n =
      Outcome-weaken (CommitTimeout late) Any (λ (u : Unit {0}). Unit {0})
        (check_commit_deadline late n) (λ e t. tt) (Outcome-commit_deadline late n)

  module _ (E : NativeError → Type 0) (timed : (e : NativeError) → CommitTimeout late e → E e) where
    in_time : (n : ℕ) → Outcome E (λ (u : Unit {0}). Unit {0}) (check_commit_deadline late n)
    in_time n =
        Outcome-weaken (CommitTimeout late) E (λ (u : Unit {0}). Unit {0})
          (check_commit_deadline late n) timed (Outcome-commit_deadline late n)

    hydrate_commit-Shows :
        (oid : Bytes) (n : ℕ)
        → ((e : NativeError) → Unreadable repo ancestor oid e → E e)
        → Outcome E (Shows p repo oid) (hydrate_commit late p repo oid n)
    unfolding hydrate_commit
    hydrate_commit-Shows oid n fails =
        let Q = Shows p repo oid in
        let U = λ (u : Unit {0}). Unit {0} in
        Outcome-bind E U Q (check_commit_deadline late) _ n (in_time n) λ _ n1 _.
          Outcome-bind E (λ c. find_graph_commit repo oid ancestor ≡ ok c) Q
            (lift (find_graph_commit repo oid ancestor)) _ n1
            (Outcome-lift_self E (find_graph_commit repo oid ancestor) n1 (λ e h. fails e (inl h)))
            λ c n2 found.
              Outcome-bind E U Q (check_commit_deadline late) _ n2 (in_time n2) λ _ n3 _.
                Outcome-bind E (λ d. c.decoded ≡ some d) Q (lift (ok_or c.decoded corrupt_commit)) _
                  n3
                  (Outcome-ok_or E c.decoded corrupt_commit n3
                    (λ h. fails corrupt_commit (inr (c, found, ap decoded_node h, refl))))
                  λ d n4 has_d.
                    Outcome-bind E U Q (check_commit_deadline late) _ n4 (in_time n4) λ _ n5 _.
                      Outcome-bind E (λ a. d.author ≡ some a) Q
                        (lift (ok_or d.author corrupt_commit)) _ n5
                        (Outcome-ok_or E d.author corrupt_commit n5
                          (λ h. fails corrupt_commit (inr (c, found, ground arith, refl))))
                        λ a n6 has_a.
                          Outcome-bind E (λ s. a.time ≡ some s) Q
                            (lift (ok_or a.time corrupt_commit)) _ n6
                            (Outcome-ok_or E a.time corrupt_commit n6 (λ h. fails corrupt_commit (
                              inr (
                                c,
                                found,
                                no_author_time c d a has_d has_a h (Option-cases d.committer),
                                refl,
                              ))))
                            λ s n7 has_s.
                              Outcome-bind E (λ m. d.committer ≡ some m) Q
                                (lift (ok_or d.committer corrupt_commit)) _ n7
                                (Outcome-ok_or E d.committer corrupt_commit n7
                                  (λ h. fails corrupt_commit (inr (c, found, ground arith, refl))))
                                λ m n8 has_m.
                                  Outcome-bind E (λ t. m.time ≡ some t) Q
                                    (lift (ok_or m.time corrupt_commit)) _ n8
                                    (Outcome-ok_or E m.time corrupt_commit n8 (λ h.
                                      fails corrupt_commit (inr (c, found, ground arith, refl))))
                                    λ t n9 has_t.
                                      Outcome-bind E U Q (check_commit_deadline late) _ n9
                                        (in_time n9)
                                        λ _ n10 _. (
                                          c, d, a, s, m, t, found, has_d, has_a, has_s, has_m,
                                          has_t, refl,
                                        )

    hydrate_all_given :
        (oids : Oids) (n : ℕ)
        → All (λ oid. (e : NativeError) → Unreadable repo ancestor oid e → E e) oids
        → Outcome E (ShowsAll p repo oids) (hydrate_all late p repo oids n)
    unfolding hydrate_all
    hydrate_all_given [] n fails = tt
    hydrate_all_given (oid ∷ oids) n fails =
        let Q = ShowsAll p repo (oid ∷ oids) in
        Outcome-bind E (λ (u : Unit {0}). Unit {0}) Q (check_commit_deadline late) _ n (in_time n)
          λ _ n1 _.
            Outcome-bind E (Shows p repo oid) Q (hydrate_commit late p repo oid) _ n1
              (hydrate_commit-Shows oid n1 fails.0)
              λ c n2 shown.
                Outcome-bind E (ShowsAll p repo oids) Q (hydrate_all late p repo oids) _ n2
                  (hydrate_all_given oids n2 fails.1) λ cs n3 rest. (shown, rest)

  may_fail :
      (oids : Oids) → All (λ oid. (e : NativeError) → Unreadable repo ancestor oid e → Any e) oids
  may_fail [] = tt
  may_fail (oid ∷ oids) = (λ e h. tt, may_fail oids)

  pub hydrate_all-ShowsAll :
      (oids : Oids) (n : ℕ) → Outcome Any (ShowsAll p repo oids) (hydrate_all late p repo oids n)
  hydrate_all-ShowsAll oids n = hydrate_all_given Any (λ e t. tt) oids n (may_fail oids)

  -- Commits that the repository has are all shown, unless the deadline passes.
  pub hydrate_all-Loaded :
      (oids : Oids) (n : ℕ)
      → DistinctKeys repo
      → AllLoaded (commits_of repo) oids
      → Outcome (CommitTimeout late) (ShowsAll p repo oids) (hydrate_all late p repo oids n)
  hydrate_all-Loaded oids n distinct l =
      hydrate_all_given (CommitTimeout late) (λ e t. t) oids n
        (All-imply
          (λ oid (node, has_node) e bad.
            absurd (Loaded_readable repo oid ancestor node e distinct has_node bad))
          oids l)
