-- ===== src/Commits/History/Latest.antt =====
-- The commits that `latest_commits` finds: for each entry the first one that touches it.
use fornacast.Prelude.{
  ◌≡◌, ◌↔◌, inl, inr, refl, sym, subst, true, false, Option, none, some, List, [], ◌∷◌,
  if◌then◌else◌, arith, Bool-cases, Option-cases,
}
use fornacast.Prelude.Bytes.{Bytes, bytes_eq, bytes_eq_iff}
use fornacast.Compare.Budgets.{has}
use fornacast.Tree.Pass
use fornacast.Tree.Pass.{DirectTreeEntry}
use fornacast.Commits.Nodes.{Map, lookup, put}
use fornacast.Commits.Graph.Maps.{lookup-put}
use fornacast.Commits.Listing.{NativeTreeCommit}
use fornacast.Commits.History.{States, is_selected, same_state, is_touched, touched, put_all}

-- The states of an entry differ between a commit and its first parent; not when the tree at the path
-- is the same.
abbrev pub Differs : Bytes → Option (States × States) → Type 0
Differs name none = ⊥
Differs name (some s) = same_state (Pass.lookup name s.0) (Pass.lookup name s.1) ≡ false

abbrev pub Agrees : Bytes → Option (States × States) → Type 0
Agrees name none = Unit
Agrees name (some s) = same_state (Pass.lookup name s.0) (Pass.lookup name s.1) ≡ true

pub is_touched_iff :
    (latest : Map NativeTreeCommit) (s : States × States) (name : Bytes)
    → (is_touched latest s name ≡ true) ↔ ((lookup latest name ≡ none) × Differs name (some s))
is_touched_iff latest s name = elim (Option-cases (lookup latest name)) [
  | inl missing ↦ ground arith
  | inr (c, l) ↦ ground arith
]

module _ (name : Bytes) (latest : Map NativeTreeCommit) (s : States × States) where
  pub touched-has :
      (es : List DirectTreeEntry)
      → has name (touched es latest s) ≡ true
      → (is_selected es name ≡ true) × (is_touched latest s name ≡ true)
  unfolding touched
  touched-has [] h = cc
  touched-has (e ∷ es) h = elim (Bool-cases (bytes_eq e.name name)) [
    | inl same ↦
        let is : e.name ≡ name = (bytes_eq_iff e.name name).0 same in
        elim (Bool-cases (is_touched latest s e.name)) [
          | inl t ↦ (ground arith, subst (λ x. is_touched latest s x ≡ true) is t)
          | inr f ↦ let rest = touched-has es (rw (f, touched) at h) in (ground arith, rest.1)
        ]
    | inr other ↦ elim (Bool-cases (is_touched latest s e.name)) [
      | inl t ↦
          let rest = touched-has es (rw (other, has) at (rw (t, touched) at h)) in
          (ground arith, rest.1)
      | inr f ↦ let rest = touched-has es (rw (f, touched) at h) in (ground arith, rest.1)
    ]
  ]

  pub has-touched :
      (es : List DirectTreeEntry)
      → is_selected es name ≡ true
      → is_touched latest s name ≡ true
      → has name (touched es latest s) ≡ true
  unfolding touched
  has-touched [] h t = cc
  has-touched (e ∷ es) h t = elim (Bool-cases (bytes_eq e.name name)) [
    | inl same ↦
        let is : e.name ≡ name = (bytes_eq_iff e.name name).0 same in
        let it : is_touched latest s e.name ≡ true =
          subst (λ x. is_touched latest s x ≡ true) (sym is) t in
        rw (it, touched) (rw same refl)
    | inr other ↦
        let rest = has-touched es (rw other at h) t in
        elim (Bool-cases (is_touched latest s e.name)) [
          | inl it ↦ rw (it, touched) (rw other rest)
          | inr f ↦ rw (f, touched) rest
        ]
  ]

pub lookup-put_all :
    (name : Bytes) (names : List Bytes) (c : NativeTreeCommit) (latest : Map NativeTreeCommit)
    → lookup (put_all names c latest) name ≡ (if has name names then some c else lookup latest name)
unfolding put_all
lookup-put_all name [] c latest = refl
lookup-put_all name (x ∷ names) c latest =
    ground (arith, lookup-put_all name names c (put x c latest), lookup-put x name c latest)
