-- ===== src/Refs/Scan/Named.antt =====
-- The branches and tags among the references: the direct ones that a scan visits.
use fornacast.Prelude.{
  ◌≡◌, inl, inr, refl, sym, ap, ◌∙◌, subst, Option, none, some, List, [], ◌∷◌, ◌++◌, arith,
  Bool-cases, Option-cases,
}
use fornacast.Prelude.Bytes.{Bytes, codes, starts_with, starts_with-eq-true}
use fornacast.Refs.Scan.{RefKind, branch, tag, ref_kind_bytes, ScannedRef, scanned}

-- What the code visits of the references.
abbrev pub direct : List (Bytes × Option Bytes) → List ScannedRef
direct [] = []
direct ((name, target) ∷ pairs) = elim (scanned name target) [
  | none ↦ direct pairs
  | some reference ↦ reference ∷ direct pairs
]

-- The reference of a name under refs/heads is a branch, under refs/tags a tag, and no other.
pub data Names : Bytes → RefKind → Type 0 where
  under_heads : (rest : Bytes) → Names (codes "refs/heads/" ++ rest) branch
  under_tags : (rest : Bytes) → Names (codes "refs/tags/" ++ rest) tag

-- The second list has, in the order of the first, each reference that has a target and is a branch
-- or a tag, with its name, its kind and its target, and nothing else.
pub data Direct : List (Bytes × Option Bytes) → List ScannedRef → Type 0 where
  done : Direct [] []
  symbolic :
      {name : Bytes} {pairs : List (Bytes × Option Bytes)} {refs : List ScannedRef}
      → Direct pairs refs
      → Direct ((name, none) ∷ pairs) refs
  other :
      {name target : Bytes} {pairs : List (Bytes × Option Bytes)} {refs : List ScannedRef}
      → ((kind : RefKind) → Names name kind → ⊥)
      → Direct pairs refs
      → Direct ((name, some target) ∷ pairs) refs
  shown :
      {name target : Bytes} {kind : RefKind} {pairs : List (Bytes × Option Bytes)}
      {refs : List ScannedRef}
      → Names name kind
      → Direct pairs refs
      → Direct
          ((name, some target) ∷ pairs)
          (record { name = name; kind = kind; target = target } ∷ refs)

ref_kind_bytes-Names :
    (name : Bytes) (kind : RefKind) → Names name kind → ref_kind_bytes name ≡ some kind
unfolding ref_kind_bytes
ref_kind_bytes-Names name kind (under_heads rest) = refl
ref_kind_bytes-Names name kind (under_tags rest) = refl

Names-ref_kind_bytes :
    (name : Bytes) (kind : RefKind) → ref_kind_bytes name ≡ some kind → Names name kind
unfolding ref_kind_bytes
Names-ref_kind_bytes name kind h = elim (Bool-cases (starts_with (codes "refs/heads/") name)) [
  | inl heads ↦
      let (rest, is) = starts_with-eq-true (codes "refs/heads/") name heads in
      let its : branch ≡ kind = cc (rw heads at h) in
      subst (Names name) its (subst (λ n. Names n branch) (sym is) (under_heads rest))
  | inr no_heads ↦ elim (Bool-cases (starts_with (codes "refs/tags/") name)) [
    | inl tags ↦
        let (rest, is) = starts_with-eq-true (codes "refs/tags/") name tags in
        let its : tag ≡ kind = cc (rw tags at (rw no_heads at h)) in
        subst (Names name) its (subst (λ n. Names n tag) (sym is) (under_tags rest))
    | inr no_tags ↦ absurd (cc (rw no_tags at (rw no_heads at h)))
  ]
]

scanned-symbolic : (name : Bytes) → scanned name none ≡ none
scanned-symbolic name = elim (Option-cases (ref_kind_bytes name)) [
  | inl no_kind ↦ ground arith
  | inr (kind, k) ↦ ground arith
]

nameless_kind :
    (name : Bytes) → ((kind : RefKind) → Names name kind → ⊥) → ref_kind_bytes name ≡ none
nameless_kind name nameless = elim (Option-cases (ref_kind_bytes name)) [
  | inl no_kind ↦ no_kind
  | inr (kind, k) ↦ absurd (nameless kind (Names-ref_kind_bytes name kind k))
]

module _ (name : Bytes) (target : Option Bytes) (pairs : List (Bytes × Option Bytes)) where
  direct-left_out : scanned name target ≡ none → direct ((name, target) ∷ pairs) ≡ direct pairs
  direct-left_out e =
      ap (λ o. elim o [ none ↦ direct pairs | some reference ↦ reference ∷ direct pairs ]) e

  direct-visited :
      (r : ScannedRef)
      → scanned name target ≡ some r
      → direct ((name, target) ∷ pairs) ≡ r ∷ direct pairs
  direct-visited r e =
      ap (λ o. elim o [ none ↦ direct pairs | some reference ↦ reference ∷ direct pairs ]) e

pub direct-Direct : (pairs : List (Bytes × Option Bytes)) → Direct pairs (direct pairs)
direct-Direct [] = done
direct-Direct ((name, none) ∷ pairs) =
    subst (Direct ((name, none) ∷ pairs))
      (sym (direct-left_out name none pairs (scanned-symbolic name)))
      (symbolic (direct-Direct pairs))
direct-Direct ((name, some target) ∷ pairs) =
    let rest = direct-Direct pairs in
    elim (Option-cases (ref_kind_bytes name)) [
      | inl no_kind ↦
          subst (Direct ((name, some target) ∷ pairs))
            (sym (direct-left_out name (some target) pairs (ground arith)))
            (other (λ kind named. absurd (cc (ref_kind_bytes-Names name kind named, no_kind))) rest)
      | inr (kind, k) ↦
          subst (Direct ((name, some target) ∷ pairs))
            (sym (direct-visited name (some target) pairs _ (ground arith)))
            (shown (Names-ref_kind_bytes name kind k) rest)
    ]

pub Direct-direct :
    {pairs : List (Bytes × Option Bytes)} {refs : List ScannedRef}
    → Direct pairs refs
    → refs ≡ direct pairs
Direct-direct done = refl
Direct-direct (symbolic {name} {pairs} d) =
    Direct-direct d ∙ sym (direct-left_out name none pairs (scanned-symbolic name))
Direct-direct (other {name} {target} {pairs} nameless d) =
    let no_kind = nameless_kind name nameless in
    Direct-direct d ∙ sym (direct-left_out name (some target) pairs (ground arith))
Direct-direct (shown {name} {target} {kind} {pairs} named d) =
    let k = ref_kind_bytes-Names name kind named in
    ap (λ refs. record { name = name; kind = kind; target = target } ∷ refs) (Direct-direct d)
    ∙ sym (direct-visited name (some target) pairs _ (ground arith))
