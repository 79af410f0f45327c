-- ===== src/Commits/Graph/Maps.antt =====
-- About the maps and sets of `walk_commit_graph_with`.
use fornacast.Prelude.{
  ℕ, suc, ◌≡◌, ◌⊎◌, inl, inr, refl, sym, ap, ◌∙◌, true, false, ◌||◌, none, some, [], ◌∷◌, ◌++◌,
  length, if◌then◌else◌, arith, Bool-cases, Option-cases,
}
use fornacast.Prelude.Bytes.{Bytes, bytes_eq, bytes_eq_iff, bytes_eq_refl}
use fornacast.Compare.Budgets.{Oids, has}
use fornacast.Commits.Nodes.{Map, lookup, put, Counts, count_of, or_default}

pub bytes_eq-false : (x y : Bytes) → (x ≡ y → ⊥) → bytes_eq x y ≡ false
bytes_eq-false x y h = ground (arith, bytes_eq_iff x y)

pub lookup-put :
    {A : Type 0} (k j : Bytes) (v : A) (m : Map A)
    → lookup (put k v m) j ≡ (if bytes_eq k j then some v else lookup m j)
lookup-put k j v [] = refl
lookup-put k j v ((i, w) ∷ m) =
    ground (arith, bytes_eq_iff k j, bytes_eq_iff i k, bytes_eq_iff i j, lookup-put k j v m)

pub lookup-put_self : {A : Type 0} (k : Bytes) (v : A) (m : Map A) → lookup (put k v m) k ≡ some v
lookup-put_self k v m = ground (arith, lookup-put k k v m, bytes_eq_refl k)

pub lookup-put_other :
    {A : Type 0} (k j : Bytes) (v : A) (m : Map A)
    → bytes_eq k j ≡ false
    → lookup (put k v m) j ≡ lookup m j
lookup-put_other k j v m h = ground (arith, lookup-put k j v m)

pub length-put :
    {A : Type 0} (k : Bytes) (v : A) (m : Map A)
    → lookup m k ≡ none
    → length (put k v m) ≡ suc (length m)
length-put k v [] h = refl
length-put k v ((i, w) ∷ m) h = ground (arith, length-put k v m)

abbrev pub DistinctKeys : {A : Type 0} → Map A → Type 0
DistinctKeys [] = Unit
DistinctKeys ((k, v) ∷ m) = (lookup m k ≡ none) × DistinctKeys m

pub put-DistinctKeys :
    {A : Type 0} (k : Bytes) (v : A) (m : Map A)
    → lookup m k ≡ none
    → DistinctKeys m
    → DistinctKeys (put k v m)
put-DistinctKeys k v [] h d = (refl, tt)
put-DistinctKeys k v ((i, w) ∷ m) h d = elim (Bool-cases (bytes_eq i k)) [
  | inl same ↦ ground arith
  | inr other ↦
      let rest = put-DistinctKeys k v m (ground arith) d.1 in
      ground (arith, lookup-put k i v m, bytes_eq_iff k i, bytes_eq_iff i k)
]

pub has-snoc : (x oid : Bytes) (xs : Oids) → has x (xs ++ oid ∷ []) ≡ (has x xs || bytes_eq oid x)
has-snoc x oid [] = ground arith
has-snoc x oid (y ∷ xs) = ground (arith, has-snoc x oid xs)

pub has_mono : (x oid : Bytes) (xs : Oids) → has x xs ≡ true → has x (xs ++ oid ∷ []) ≡ true
has_mono x oid xs h = ground (arith, has-snoc x oid xs)

pub has_last : (oid : Bytes) (xs : Oids) → has oid (xs ++ oid ∷ []) ≡ true
has_last oid xs = ground (arith, has-snoc oid oid xs, bytes_eq_refl oid)

-- A default does not change what is counted.
pub count_of-or_default :
    (oid x : Bytes) (counts : Counts) → count_of (or_default oid counts) x ≡ count_of counts x
count_of-or_default oid x counts = ground (arith, lookup-put oid x 0 counts, bytes_eq_iff oid x)

-- Behind it the entry is there.
pub lookup-or_default :
    (oid x : Bytes) (counts : Counts)
    → (bytes_eq oid x ≡ true) ⊎ ((m : ℕ) × (lookup counts x ≡ some m))
    → (m : ℕ) × (lookup (or_default oid counts) x ≡ some m)
lookup-or_default oid x counts h = elim (Option-cases (lookup counts oid)) [
  | inl missing ↦ elim (Bool-cases (bytes_eq oid x)) [
    | inl same ↦ (0, ground (arith, lookup-put oid x 0 counts))
    | inr other ↦ elim h [
      | inl same ↦ absurd (cc (same, other))
      | inr (m, l) ↦ (m, ground (arith, lookup-put oid x 0 counts))
    ]
  ]
  | inr (m, l) ↦ elim h [
    | inl same ↦ (m, ground (arith, bytes_eq_iff oid x))
    | inr (k, l') ↦ (k, ground arith)
  ]
]

-- An entry behind `put` is the new one or an old one.
pub lookup-put_cases :
    {A : Type 0} (k j : Bytes) (v : A) (m : Map A) (u : A)
    → lookup (put k v m) j ≡ some u
    → ((k ≡ j) × (some v ≡ some u)) ⊎ ((bytes_eq k j ≡ false) × (lookup m j ≡ some u))
lookup-put_cases k j v m u h = elim (Bool-cases (bytes_eq k j)) [
  | inl same ↦ inl (
    (bytes_eq_iff k j).0 same,
    sym (ap (λ b. if b then some v else lookup m j) same) ∙ sym (lookup-put k j v m) ∙ h,
  )
  | inr other ↦ inr (other, sym (lookup-put_other k j v m other) ∙ h)
]
