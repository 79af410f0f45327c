-- ===== src/Commits/History/Rows.antt =====
-- The rows of a page, made from the commits that were found for its entries.
use fornacast.Prelude.{
  ◌≡◌, inl, inr, refl, ap, subst, none, some, List, [], ◌∷◌, ok, err, if◌then◌else◌, arith,
  Option-cases, Result-cases,
}
use fornacast.Prelude.Bytes.{Bytes, bytes_eq, bytes_eq_iff}
use fornacast.Tree.Pass.{DirectTreeEntry}
use fornacast.Commits.Nodes.{Map, lookup}
use fornacast.Commits.Listing.{NativeTreeCommit}
use fornacast.Commits.History.{remove, rows_of}

lookup-remove :
    {A : Type 0} (k j : Bytes) (m : Map A)
    → lookup (remove k m) j ≡ (if bytes_eq k j then none else lookup m j)
lookup-remove k j [] = ground arith
lookup-remove k j ((i, v) ∷ m) =
    ground (arith, lookup-remove k j m, bytes_eq_iff k j, bytes_eq_iff i k, bytes_eq_iff i j)

kept_entry :
    {A : Type 0} (k j : Bytes) (m : Map A) (d : A)
    → lookup (remove k m) j ≡ some d
    → lookup m j ≡ some d
kept_entry k j m d h = ground (arith, lookup-remove k j m)

-- The rows are those of the entries, each with a commit of the map.
abbrev pub RowsOf :
    Map NativeTreeCommit → List DirectTreeEntry → List (DirectTreeEntry × NativeTreeCommit) → Type 0
RowsOf latest [] rows = rows ≡ []
RowsOf latest (e ∷ es) [] = ⊥
RowsOf latest (e ∷ es) ((f, c) ∷ rows) =
    (f ≡ e) × (lookup latest e.name ≡ some c) × RowsOf latest es rows

pub rows_of-RowsOf :
    (es : List DirectTreeEntry) (latest m : Map NativeTreeCommit)
    (rows : List (DirectTreeEntry × NativeTreeCommit))
    → ((name : Bytes) (c : NativeTreeCommit) → lookup m name ≡ some c → lookup latest name ≡ some c)
    → rows_of es m ≡ ok rows
    → RowsOf latest es rows
unfolding rows_of
rows_of-RowsOf [] latest m rows within h = ground arith
rows_of-RowsOf (e ∷ es) latest m rows within h = elim (Option-cases (lookup m e.name)) [
  | inl missing ↦ absurd (cc (rw (missing, rows_of) at h))
  | inr (c, l) ↦ elim (Result-cases (rows_of es (remove e.name m))) [
    | inr (x, bad) ↦ absurd (cc (rw (bad, rows_of) at (rw (l, rows_of) at h)))
    | inl (rest, good) ↦
        let same : ok ((e, c) ∷ rest) ≡ ok rows = rw (good, rows_of) at (rw (l, rows_of) at h) in
        let is : (e, c) ∷ rest ≡ rows = ap (λ r. elim r [ ok x ↦ x | err x ↦ [] ]) same in
        subst (RowsOf latest (e ∷ es)) is (
          refl,
          within e.name c l,
          rows_of-RowsOf es latest (remove e.name m) rest
              (λ name d l'. within name d (kept_entry e.name name m d l')) good,
        )
  ]
]
