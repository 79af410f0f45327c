-- ===== src/Refs/Summary/Samples.antt =====
-- What a summary says of the references that were scanned.

use fornacast.Prelude.{
  ℕ, zero, suc, ◌+◌, ◌<◌, ◌≡◌, ◌↔◌, ◌⊎◌, inl, inr, refl, sym, ap, ◌∙◌, Bool, true, false, ◌&&◌,
  ◌||◌, Option, none, some, List, [], ◌∷◌, ◌++◌, ltb, if◌then◌else◌, length, take, arith,
  append-nil, append_assoc, subst, Bool-cases, length-append,
}
use fornacast.Prelude.Bytes.{Bytes, bytes_eq, bytes_eq_iff}
use fornacast.Refs.Scan.{RefKind, branch, tag, same_kind, ScannedRef, ref_sample_limit}
use fornacast.Refs.Scan.Visits.{visits}
use fornacast.Refs.Scan.Page.{of_kind}
use fornacast.Refs.Summary.{
  RefSummaryBuilder, new, record_ref, any_named, insert_by_name, sort_by_name, with_selected,
  add_selected, finish,
}

take-nil : (n : ℕ) → ◌≡◌ {A = List ScannedRef} (take n []) []
take-nil zero = refl
take-nil (suc n) = refl

take-snoc :
    (n : ℕ) (refs : List ScannedRef) (r : ScannedRef)
    → take n (refs ++ r ∷ [])
      ≡ (if ltb (length (take n refs)) n then take n refs ++ r ∷ [] else take n refs)
take-snoc zero refs r = ground arith
take-snoc (suc n) [] r = ground (arith, take-nil n)
take-snoc (suc n) (x ∷ refs) r = ground (arith, take-snoc n refs r)

-- The state after the references of the two kinds.
abbrev after : List ScannedRef → List ScannedRef → RefSummaryBuilder
after bs ts = record {
  branch_count = length bs;
  tag_count = length ts;
  branches = take ref_sample_limit bs;
  tags = take ref_sample_limit ts;
}

unchanged : (refs : List ScannedRef) → refs ≡ refs ++ []
unchanged refs = sym (append-nil refs)

counted : (refs : List ScannedRef) (r : ScannedRef) → length refs + 1 ≡ length (refs ++ r ∷ [])
counted refs r = omega (arith, length-append refs (r ∷ []))

record_ref-after :
    (r : ScannedRef) (bs ts : List ScannedRef)
    → record_ref r (after bs ts)
      ≡ after (bs ++ of_kind branch (r ∷ [])) (ts ++ of_kind tag (r ∷ []))
unfolding record_ref
record_ref-after r bs ts = go r.kind refl
  where
    go :
        (k : RefKind)
        → r.kind ≡ k
        → record_ref r (after bs ts)
          ≡ after (bs ++ of_kind branch (r ∷ [])) (ts ++ of_kind tag (r ∷ []))
    go branch e =
        let r' = record r { kind = branch } in
        rw e (λ i. record {
          branch_count = counted bs r' i;
          tag_count = length (unchanged ts i);
          branches = sym (take-snoc ref_sample_limit bs r') i;
          tags = take ref_sample_limit (unchanged ts i);
        })
    go tag e =
        let r' = record r { kind = tag } in
        rw e (λ i. record {
          branch_count = length (unchanged bs i);
          tag_count = counted ts r' i;
          branches = take ref_sample_limit (unchanged bs i);
          tags = sym (take-snoc ref_sample_limit ts r') i;
        })

of_kind-cons :
    (kind : RefKind) (r : ScannedRef) (refs : List ScannedRef)
    → of_kind kind (r ∷ []) ++ of_kind kind refs ≡ of_kind kind (r ∷ refs)
of_kind-cons kind r refs = ground arith

visits-after :
    (refs bs ts : List ScannedRef)
    → visits record_ref refs (after bs ts)
      ≡ after (bs ++ of_kind branch refs) (ts ++ of_kind tag refs)
visits-after [] bs ts = λ i. after (unchanged bs i) (unchanged ts i)
visits-after (r ∷ refs) bs ts =
    let bs' = bs ++ of_kind branch (r ∷ []) in
    let ts' = ts ++ of_kind tag (r ∷ []) in
    let split_b = append_assoc bs (of_kind branch (r ∷ [])) (of_kind branch refs) in
    let split_t = append_assoc ts (of_kind tag (r ∷ [])) (of_kind tag refs) in
    ap (visits record_ref refs) (record_ref-after r bs ts)
    ∙ visits-after refs bs' ts'
    ∙ (λ i. after (split_b i) (split_t i))
    ∙ (λ i. after (bs ++ of_kind-cons branch r refs i) (ts ++ of_kind-cons tag r refs i))

any_named-insert_by_name :
    (name : Bytes) (r : ScannedRef) (refs : List ScannedRef)
    → any_named name (insert_by_name r refs) ≡ bytes_eq r.name name || any_named name refs
unfolding insert_by_name
any_named-insert_by_name name r [] = refl
any_named-insert_by_name name r (x ∷ refs) = ground (arith, any_named-insert_by_name name r refs)

any_named-sort_by_name :
    (name : Bytes) (refs : List ScannedRef)
    → any_named name (sort_by_name refs) ≡ any_named name refs
unfolding sort_by_name
any_named-sort_by_name name [] = refl
any_named-sort_by_name name (x ∷ refs) =
    any_named-insert_by_name name x (sort_by_name refs)
    ∙ ap (λ b. bytes_eq x.name name || b) (any_named-sort_by_name name refs)

any_named-snoc :
    (name : Bytes) (refs : List ScannedRef) (r : ScannedRef)
    → any_named name (refs ++ r ∷ []) ≡ any_named name refs || bytes_eq r.name name
any_named-snoc name [] r = ground arith
any_named-snoc name (x ∷ refs) r = ground (arith, any_named-snoc name refs r)

truncated_iff :
    (b t : ℕ)
    → (ltb ref_sample_limit b || ltb ref_sample_limit t ≡ true)
      ↔ ((ref_sample_limit < b) ⊎ (ref_sample_limit < t))
truncated_iff b t = ground arith

with_selected-named :
    (name : Bytes) (r : ScannedRef) (sample : List ScannedRef)
    → any_named name (with_selected r sample) ≡ any_named name sample || bytes_eq r.name name
with_selected-named name r sample = elim (Bool-cases (any_named r.name sample)) [
  | inr absent ↦
      ap (λ b. any_named name (if b then sample else sort_by_name (sample ++ r ∷ []))) absent
      ∙ any_named-sort_by_name name (sample ++ r ∷ [])
      ∙ any_named-snoc name sample r
  | inl present ↦
      ap (λ b. any_named name (if b then sample else sort_by_name (sample ++ r ∷ []))) present
      ∙ elim (Bool-cases (bytes_eq r.name name)) [
        | inr other ↦ ground arith
        | inl same ↦
            let there : any_named name sample ≡ true =
              subst (λ x. any_named x sample ≡ true) ((bytes_eq_iff r.name name).0 same) present in
            ground arith
      ]
]

abbrev pub selects : RefKind → Option ScannedRef → Bytes → Bool
selects kind none name = false
selects kind (some r) name = same_kind kind r.kind && bytes_eq r.name name

added :
    (selected : Option ScannedRef) (b : RefSummaryBuilder) (name : Bytes)
    → (any_named name (add_selected selected b).branches
        ≡ any_named name b.branches || selects branch selected name)
      × (any_named name (add_selected selected b).tags
          ≡ any_named name b.tags || selects tag selected name)
      × ((add_selected selected b).branch_count ≡ b.branch_count)
      × ((add_selected selected b).tag_count ≡ b.tag_count)
added none b name = (ground arith, ground arith, refl, refl)
added (some r) b name = go r.kind refl
  where
    go :
        (k : RefKind)
        → r.kind ≡ k
        → (any_named name (add_selected (some r) b).branches
            ≡ any_named name b.branches || selects branch (some r) name)
          × (any_named name (add_selected (some r) b).tags
              ≡ any_named name b.tags || selects tag (some r) name)
          × ((add_selected (some r) b).branch_count ≡ b.branch_count)
          × ((add_selected (some r) b).tag_count ≡ b.tag_count)
    go branch e =
        rw e (
          with_selected-named name (record r { kind = branch }) b.branches,
          ground arith,
          refl,
          refl,
        )
    go tag e =
        rw e (ground arith, with_selected-named name (record r { kind = tag }) b.tags, refl, refl)

-- What a summary says of the scanned references: it counts the branches and the tags, its samples
-- name the first hundred of each and the selected reference, and it tells whether there are more
-- than a hundred of either.
pub finish-visits :
    (refs : List ScannedRef) (selected : Option ScannedRef) (name : Bytes)
    → let s = finish (visits record_ref refs new) selected in
      let bs = of_kind branch refs in
      let ts = of_kind tag refs in
      (s.branch_count ≡ length bs)
      × (s.tag_count ≡ length ts)
      × (any_named name s.branches
          ≡ any_named name (take ref_sample_limit bs) || selects branch selected name)
      × (any_named name s.tags
          ≡ any_named name (take ref_sample_limit ts) || selects tag selected name)
      × ((s.refs_truncated ≡ true)
          ↔ ((ref_sample_limit < length bs) ⊎ (ref_sample_limit < length ts)))
unfolding finish
finish-visits refs selected name =
    let bs = of_kind branch refs in
    let ts = of_kind tag refs in
    let (names_b, names_t, count_b, count_t) = added selected (after bs ts) name in
    rw (visits-after refs [] []) (
      count_b,
      count_t,
      names_b,
      names_t,
      rw (count_b, count_t) (truncated_iff (length bs) (length ts)),
    )
