-- ===== src/Commits/Listing/Authored.antt =====
-- The commit of a row as `hydrate_tree_commit` shows it.
use fornacast.Prelude.{refl, ℕ, ◌≡◌, ap, Option, none, some, ok, err}
use fornacast.Prelude.Bytes.{Bytes}
use fornacast.Prelude.Int.{ℤ}
use fornacast.Native.{NativeError, ok_or}
use fornacast.Native.Clock.{Clock, lift}
use fornacast.Native.Outcome.{
  Outcome, Outcome-bind, Outcome-any, Outcome-lift_self, Outcome-ok_or, Outcome-eq_ok, Returned,
}
use fornacast.Commits.Listing.Hydrated.{Any}
use fornacast.Tree.Pass.{check_tree_history_deadline}
use fornacast.Commits.Nodes.{ancestor}
use fornacast.Commits.Load.{
  GitSignature, DecodedCommit, GitCommit, Repository, find_graph_commit, corrupt_commit,
}
use fornacast.Commits.Listing.{Printing, NativeTreeCommit, first_line, hydrate_tree_commit}

-- The commit of a row is what the repository has under the id.
abbrev pub ShowsCommit : Printing → Repository → Bytes → NativeTreeCommit → Type 0
ShowsCommit p repo oid c =
    (commit : GitCommit) × (d : DecodedCommit) × (a : GitSignature) × (s : ℤ) × (find_graph_commit
        repo oid ancestor
      ≡ ok commit)
    × (commit.decoded ≡ some d)
    × (d.author ≡ some a)
    × (a.time ≡ some s)
    × (c ≡ record {
      oid = p.hex oid;
      title = p.text (first_line d.message);
      author_name = p.text a.name;
      author_time = s;
    })

pub ok_or-eq-ok :
    {A : Type 0} (o : Option A) (e : NativeError) {a : A} → ok_or o e ≡ ok a → o ≡ some a
ok_or-eq-ok none e h = cc h
ok_or-eq-ok (some x) e h = ap (λ r. elim r [ ok z ↦ some z | err z ↦ none ]) h

hydrate_tree_commit_lem :
    (late : Clock) (p : Printing) (repo : Repository) (oid : Bytes) (n : ℕ)
    → Outcome Any (ShowsCommit p repo oid) (hydrate_tree_commit late p repo oid n)
unfolding hydrate_tree_commit
hydrate_tree_commit_lem late p repo oid n =
    let Q = ShowsCommit p repo oid in
    let U = λ (u : Unit {0}). Unit {0} in
    let in_time = λ (i : ℕ). Outcome-any (check_tree_history_deadline late i) in
    Outcome-bind Any U Q (check_tree_history_deadline late) _ n (in_time n) λ _ n1 _.
      Outcome-bind Any (λ c. find_graph_commit repo oid ancestor ≡ ok c) Q
        (lift (find_graph_commit repo oid ancestor)) _ n1
        (Outcome-lift_self Any (find_graph_commit repo oid ancestor) n1 (λ e h. tt))
        λ c n2 found.
          Outcome-bind Any U Q (check_tree_history_deadline late) _ n2 (in_time n2) λ _ n3 _.
            Outcome-bind Any (λ d. c.decoded ≡ some d) Q (lift (ok_or c.decoded corrupt_commit)) _
              n3 (Outcome-ok_or Any c.decoded corrupt_commit n3 (λ h. tt))
              λ d n4 has_d.
                Outcome-bind Any (λ a. d.author ≡ some a) Q (lift (ok_or d.author corrupt_commit)) _
                  n4 (Outcome-ok_or Any d.author corrupt_commit n4 (λ h. tt))
                  λ a n5 has_a.
                    Outcome-bind Any (λ s. a.time ≡ some s) Q (lift (ok_or a.time corrupt_commit)) _
                      n5 (Outcome-ok_or Any a.time corrupt_commit n5 (λ h. tt))
                      λ s n6 has_s.
                        Outcome-bind Any U Q (check_tree_history_deadline late) _ n6 (in_time n6)
                          λ _ n7 _. (c, d, a, s, found, has_d, has_a, has_s, refl)

pub hydrate_tree_commit-ShowsCommit :
    (late : Clock) (p : Printing) (repo : Repository) (oid : Bytes) (c : NativeTreeCommit)
    → Returned (hydrate_tree_commit late p repo oid) c
    → ShowsCommit p repo oid c
hydrate_tree_commit-ShowsCommit late p repo oid c (n, k, h) =
    Outcome-eq_ok Any (ShowsCommit p repo oid) _ h (hydrate_tree_commit_lem late p repo oid n)
