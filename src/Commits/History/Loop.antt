-- ===== src/Commits/History/Loop.antt =====
-- The loop of `latest_commits` over the commits of a walk.
use fornacast.Prelude.{
  ℕ, ◌≡◌, ◌⊎◌, inl, inr, sym, ap, ◌∙◌, subst, Bool, true, false, ◌&&◌, Option, none, some, List, [],
  ◌∷◌, length, ◌==◌, if◌then◌else◌, arith, Bool-cases,
}
use fornacast.Prelude.Bytes.{Bytes}
use fornacast.Native.Clock.{Clock}
use fornacast.Native.Outcome.{Outcome, Outcome-bind, Outcome-Returned, Outcome-imply, Returned}
use fornacast.Compare.Budgets.{Oids, has}
use fornacast.Tree.Pass.{DirectTreeEntry}
use fornacast.Commits.Nodes.{Map, lookup, Nodes}
use fornacast.Commits.Load.{Repository}
use fornacast.Commits.Listing.{Printing, NativeTreeCommit, hydrate_tree_commit}
use fornacast.Commits.Listing.Hydrated.{Any}
use fornacast.Commits.History.Physical.{Trees}
use fornacast.Commits.History.{
  States, is_selected, commit_states, is_touched, touched, put_all, is_empty, add_touched,
  latest_commits,
}
use fornacast.Commits.History.Latest.{
  Differs, Agrees, is_touched_iff, touched-has, has-touched, lookup-put_all,
}

-- The first element that has Q, behind elements that have P.
pub data First (P Q : Bytes → Type 0) : Oids → Type 0 where
  now : {x : Bytes} {xs : Oids} → Q x → First P Q (x ∷ xs)
  later : {x : Bytes} {xs : Oids} → P x → First P Q xs → First P Q (x ∷ xs)

pub First-imply :
    {P P' Q Q' : Bytes → Type 0}
    → ((x : Bytes) → P x → P' x)
    → ((x : Bytes) → Q x → Q' x)
    → {xs : Oids} → First P Q xs
    → First P' Q' xs
First-imply f g (now {x} q) = now (g x q)
First-imply f g (later {x} p rest) = later (f x p) (First-imply f g rest)

empty_has : (name : Bytes) (names : List Bytes) → is_empty names ≡ true → has name names ≡ true → ⊥
empty_has name [] e m = cc m
empty_has name (x ∷ names) e m = cc e

module _ (late : Clock) (p : Printing) (repo : Repository) (trees : Trees) (nodes : Nodes)
    (components : List Bytes) (selected : List DirectTreeEntry) where
  -- The commit leaves the entry as its first parent has it.
  abbrev pub Leaves : Bytes → Bytes → Type 0
  Leaves name oid =
      (s : Option (States × States)) × Returned
        (commit_states late trees nodes components selected oid) s
      × Agrees name s

  -- The commit changes the entry, and this is how it is shown.
  abbrev pub Changes : Bytes → NativeTreeCommit → Bytes → Type 0
  Changes name c oid =
      (s : Option (States × States)) × Returned
        (commit_states late trees nodes components selected oid) s
      × Differs name s
      × Returned (hydrate_tree_commit late p repo oid) c

  abbrev Added :
      Bytes → Option (States × States) → Map NativeTreeCommit → Map NativeTreeCommit × Bool → Type 0
  Added oid s latest r =
      ((name : Bytes) (c : NativeTreeCommit)
        → lookup r.0 name ≡ some c
        → (lookup latest name ≡ some c)
          ⊎ ((lookup latest name ≡ none)
              × (is_selected selected name ≡ true)
              × Differs name s
              × Returned (hydrate_tree_commit late p repo oid) c))
      × ((name : Bytes)
          → is_selected selected name ≡ true
          → lookup r.0 name ≡ none
          → (lookup latest name ≡ none) × Agrees name s)

  nothing_touched :
      (oid : Bytes) (s : States × States) (latest : Map NativeTreeCommit)
      → is_empty (touched selected latest s) ≡ true
      → Added oid (some s) latest (latest, false)
  nothing_touched oid s latest h = (
    λ name c l. inl l,
    λ name sel l. (l, agrees name sel l (Bool-cases (is_touched latest s name))),
  )
    where
      agrees :
          (name : Bytes)
          → is_selected selected name ≡ true
          → lookup latest name ≡ none
          → (is_touched latest s name ≡ true) ⊎ (is_touched latest s name ≡ false)
          → Agrees name (some s)
      agrees name sel l (inl t) =
          absurd (
            empty_has name (touched selected latest s) h (has-touched name latest s selected sel t))
      agrees name sel l (inr f) = ground arith

  some-touched :
      (oid : Bytes) (s : States × States) (latest : Map NativeTreeCommit) (c : NativeTreeCommit)
      → Returned (hydrate_tree_commit late p repo oid) c
      → Added oid (some s) latest (put_all (touched selected latest s) c latest, true)
  some-touched oid s latest c brought = (first, second)
    where
      names : List Bytes
      names = touched selected latest s

      first :
          (name : Bytes) (d : NativeTreeCommit)
          → lookup (put_all names c latest) name ≡ some d
          → (lookup latest name ≡ some d)
            ⊎ ((lookup latest name ≡ none)
                × (is_selected selected name ≡ true)
                × Differs name (some s)
                × Returned (hydrate_tree_commit late p repo oid) d)
      first name d l = elim (Bool-cases (has name names)) [
        | inl new ↦
            let (sel, t) = touched-has name latest s selected new in
            let (missing, differs) = (is_touched_iff latest s name).0 t in
            let is : some c ≡ some d =
              sym (ap (λ b. if b then some c else lookup latest name) new)
              ∙ sym (lookup-put_all name names c latest)
              ∙ l in
            inr (
              missing,
              sel,
              differs,
              subst
                  (λ o. elim o [
                    | none ↦ Unit {0}
                    | some x ↦ Returned (hydrate_tree_commit late p repo oid) x
                  ])
                  is brought,
            )
        | inr old ↦ inl (
            sym (ap (λ b. if b then some c else lookup latest name) old)
            ∙ sym (lookup-put_all name names c latest)
            ∙ l)
      ]

      second :
          (name : Bytes)
          → is_selected selected name ≡ true
          → lookup (put_all names c latest) name ≡ none
          → (lookup latest name ≡ none) × Agrees name (some s)
      second name sel l = elim (Bool-cases (has name names)) [
        | inl new ↦ absurd (
            cc (
              sym (ap (λ b. if b then some c else lookup latest name) new)
              ∙ sym (lookup-put_all name names c latest)
              ∙ l))
        | inr old ↦
            let missing : lookup latest name ≡ none =
              sym (ap (λ b. if b then some c else lookup latest name) old)
              ∙ sym (lookup-put_all name names c latest)
              ∙ l in
            (
              missing,
              elim (Bool-cases (is_touched latest s name)) [
                | inl t ↦ absurd (cc (old, has-touched name latest s selected sel t))
                | inr f ↦ ground arith
              ],
            )
      ]

  add_touched-Added :
      (oid : Bytes) (s : Option (States × States)) (latest : Map NativeTreeCommit) (n : ℕ)
      → Outcome Any
          (Added oid s latest)
          (add_touched late p repo trees nodes components selected oid s latest n)
  unfolding add_touched
  add_touched-Added oid none latest n = (λ name c l. inl l, λ name sel l. (l, tt))
  add_touched-Added oid (some s) latest n =
      elim (Bool-cases (is_empty (touched selected latest s))) [
        | inl none_touched ↦ rw none_touched (nothing_touched oid s latest none_touched)
        | inr any_touched ↦ rw any_touched (
            Outcome-bind Any (Returned (hydrate_tree_commit late p repo oid))
              (Added oid (some s) latest) (hydrate_tree_commit late p repo oid) _ n
              (Outcome-Returned Any (hydrate_tree_commit late p repo oid) n (λ e. tt))
              (λ c k brought. some-touched oid s latest c brought))
      ]

  abbrev pub Found : Map NativeTreeCommit → Oids → Map NativeTreeCommit → Type 0
  Found latest oids r =
      (name : Bytes) (c : NativeTreeCommit)
      → lookup r name ≡ some c
      → (lookup latest name ≡ some c)
        ⊎ ((lookup latest name ≡ none)
            × (is_selected selected name ≡ true)
            × First (Leaves name) (Changes name c) oids)

  carry :
      (oid : Bytes) (s : Option (States × States)) (latest : Map NativeTreeCommit)
      (added : Map NativeTreeCommit × Bool)
      → Returned (commit_states late trees nodes components selected oid) s
      → Added oid s latest added
      → (oids : Oids) (r : Map NativeTreeCommit) → Found added.0 oids r
      → Found latest (oid ∷ oids) r
  carry oid s latest added observed (first, second) oids r found name c l = elim (found name c l) [
    | inl l' ↦ elim (first name c l') [
      | inl old ↦ inl old
      | inr (missing, sel, d, brought) ↦ inr (missing, sel, now (s, observed, d, brought))
    ]
    | inr (missing', sel, f) ↦
        let (missing, agrees) = second name sel missing' in
        inr (missing, sel, later (s, observed, agrees) f)
  ]

  pub latest_commits-Found :
      (oids : Oids) (latest : Map NativeTreeCommit) (n : ℕ)
      → Outcome Any
          (Found latest oids)
          (latest_commits late p repo trees nodes components selected oids latest n)
  unfolding latest_commits
  latest_commits-Found [] latest n = λ name c l. inl l
  latest_commits-Found (oid ∷ oids) latest n =
      let Q = Found latest (oid ∷ oids) in
      Outcome-bind Any (Returned (commit_states late trees nodes components selected oid)) Q
        (commit_states late trees nodes components selected oid) _ n
        (Outcome-Returned Any (commit_states late trees nodes components selected oid) n (λ e. tt))
        λ s n1 observed.
          Outcome-bind Any (Added oid s latest) Q
            (add_touched late p repo trees nodes components selected oid s latest) _ n1
            (add_touched-Added oid s latest n1)
            λ added n2 is_added. elim (Bool-cases (added.1 && length added.0 == length selected)) [
              | inl complete ↦
                  rw complete
                    (carry oid s latest added observed is_added oids added.0 (λ name c l. inl l))
              | inr open_names ↦ rw open_names (
                  Outcome-imply Any (Found added.0 oids) Q
                    (latest_commits late p repo trees nodes components selected oids added.0 n2)
                    (λ r. carry oid s latest added observed is_added oids r)
                    (latest_commits-Found oids added.0 n2))
            ]
