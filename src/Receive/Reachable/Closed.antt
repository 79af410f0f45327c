-- ===== src/Receive/Reachable/Closed.antt =====
-- About the loop of `collect_reachable_objects`: the ids that it saw, their objects and references.
use fornacast.Prelude.{
  ℕ, zero, suc, ◌+◌, ◌≡◌, ◌⊎◌, inl, inr, refl, sym, ◌∙◌, subst, true, false, ◌||◌, Option, none,
  some, String, List, [], ◌∷◌, ◌++◌, Result, ok, err, ◌≢◌, length, arith, Bool-cases, Result-cases,
}
use fornacast.Prelude.Bytes.{Bytes, bytes_eq, bytes_eq_iff}
use fornacast.Receive.Reachable.{
  StoredObject, PackObject, has, Store, find_object, pack_object, collect_rounds, extend, collected,
  all_references, collect_reachable_objects,
}
use fornacast.Receive.Reachable.Rounds.{
  open_references, collect_rounds_enough, references, step_seen, step_new, step_missing,
  step_broken,
}

pub has-append : (x : Bytes) (a b : List Bytes) → has x (a ++ b) ≡ has x a || has x b
has-append x [] b = refl
has-append x (y ∷ a) b = ground (arith, has-append x a b)

module _ (store : Store) where
  -- The objects of the ids, the last of which was seen first; no id comes twice.
  abbrev pub Packed : List Bytes → List PackObject → Type 0
  Packed [] objects = objects ≡ []
  Packed (id ∷ seen) objects =
      (o : StoredObject) × (before : List PackObject) × (find_object store id ≡ ok o)
      × (has id seen ≡ false)
      × (objects ≡ before ++ pack_object o ∷ [])
      × Packed seen before

  -- The object of an id is in the store, and its references are all among `those`.
  abbrev pub RefersTo : Bytes → (Bytes → Type 0) → Type 0
  RefersTo id those =
      (o : StoredObject) × (c : List Bytes) × (find_object store id ≡ ok o)
      × (references o.view ≡ ok c)
      × ((y : Bytes) → has y c ≡ true → those y)

  abbrev pub ClosedBut : List Bytes → List Bytes → Type 0
  ClosedBut seen queue =
      (x : Bytes) → has x seen ≡ true → RefersTo x (λ y. (has y seen ≡ true) ⊎ (has y queue ≡ true))

  abbrev pub Gathered : List Bytes → List Bytes → List Bytes → List PackObject → Type 0
  Gathered queue seen seen' objects' =
      ((x : Bytes) → has x seen' ≡ true → RefersTo x (λ y. has y seen' ≡ true))
      × Packed seen' objects'
      × ((x : Bytes) → (has x seen ≡ true) ⊎ (has x queue ≡ true) → has x seen' ≡ true)

  known_again :
      (id : Bytes) (queue seen : List Bytes)
      → has id seen ≡ true
      → (y : Bytes) → (has y seen ≡ true) ⊎ (has y (id ∷ queue) ≡ true)
      → (has y seen ≡ true) ⊎ (has y queue ≡ true)
  known_again id queue seen again y (inl k) = inl k
  known_again id queue seen again y (inr k) = elim (Bool-cases (bytes_eq id y)) [
    | inl same ↦ inl (subst (λ z. has z seen ≡ true) ((bytes_eq_iff id y).0 same) again)
    | inr other ↦ inr (ground arith)
  ]

  closed_again :
      (id : Bytes) (queue seen : List Bytes)
      → has id seen ≡ true
      → ClosedBut seen (id ∷ queue)
      → ClosedBut seen queue
  closed_again id queue seen again closed x h =
      let (o, c, f, r, all) = closed x h in
      (o, c, f, r, λ y k. known_again id queue seen again y (all y k))

  closed_new :
      (id : Bytes) (queue seen : List Bytes) (o : StoredObject) (c : List Bytes)
      → find_object store id ≡ ok o
      → references o.view ≡ ok c
      → ClosedBut seen (id ∷ queue)
      → ClosedBut (id ∷ seen) (c ++ queue)
  closed_new id queue seen o c f r closed x h = elim (Bool-cases (bytes_eq id x)) [
    | inl same ↦
        let is : id ≡ x = (bytes_eq_iff id x).0 same in
        (
          o,
          c,
          subst (λ z. find_object store z ≡ ok o) is f,
          r,
          λ y k. inr (ground (arith, has-append y c queue, k)),
        )
    | inr other ↦
        let (o', c', f', r', all) = closed x (ground (arith, h)) in
        (o', c', f', r', λ y k. moved y (all y k))
  ]
    where
      moved :
          (y : Bytes)
          → (has y seen ≡ true) ⊎ (has y (id ∷ queue) ≡ true)
          → (has y (id ∷ seen) ≡ true) ⊎ (has y (c ++ queue) ≡ true)
      moved y k = ground (arith, has-append y c queue, k)

  finished :
      (seen : List Bytes) (objects : List PackObject) {seen' : List Bytes}
      {objects' : List PackObject}
      → ClosedBut seen []
      → Packed seen objects
      → ◌≡◌ {A = Option (Result String (List Bytes × List PackObject))}
          (some (ok (seen, objects)))
          (some (ok (seen', objects')))
      → Gathered [] seen seen' objects'
  finished seen objects {seen'} {objects'} closed packed e =
      let same : seen ≡ seen' = cc in
      let these : objects ≡ objects' = cc in
      let whole : Gathered [] seen seen objects = (
        λ x h. let (o, c, f, r, all) = closed x h in (o, c, f, r, λ y k. ground (arith, all y k)),
        packed,
        λ x h. ground (arith, h),
      ) in
      subst (λ s. Gathered [] seen s objects') same (subst (Gathered [] seen seen) these whole)

  pub collect_rounds-Gathered :
      (n : ℕ) (queue seen : List Bytes) (objects : List PackObject) {seen' : List Bytes}
      {objects' : List PackObject}
      → ClosedBut seen queue
      → Packed seen objects
      → collect_rounds store n queue seen objects ≡ some (ok (seen', objects'))
      → Gathered queue seen seen' objects'
  collect_rounds-Gathered zero [] seen objects closed packed e =
      unfold collect_rounds in finished seen objects closed packed e
  collect_rounds-Gathered zero (id ∷ queue) seen objects closed packed e =
      unfold collect_rounds in cc
  collect_rounds-Gathered (suc n) [] seen objects closed packed e =
      unfold collect_rounds in finished seen objects closed packed e
  collect_rounds-Gathered (suc n) (id ∷ queue) seen objects {seen'} {objects'} closed packed e =
      elim (Bool-cases (has id seen)) [
        | inl again ↦
            let (all, done, kept) =
              collect_rounds-Gathered n queue seen objects (closed_again id queue seen again closed)
                packed (sym (step_seen store n id queue seen objects again) ∙ e) in
            (all, done, λ x h. kept x (known_again id queue seen again x h))
        | inr new ↦ elim (Result-cases (find_object store id)) [
          | inr (x, f) ↦ absurd (cc (step_missing store n id queue seen objects x new f))
          | inl (o, f) ↦ elim (Result-cases (references o.view)) [
            | inr (x, r) ↦ absurd (cc (step_broken store n id queue seen objects o x new f r))
            | inl (c, r) ↦
                let (all, done, kept) =
                  collect_rounds-Gathered n (c ++ queue) (id ∷ seen) (objects ++ pack_object o ∷ [])
                    (closed_new id queue seen o c f r closed) (o, objects, f, new, refl, packed)
                    (sym (step_new store n id queue seen objects o c new f r) ∙ e) in
                (all, done, λ x h. kept x (ground (arith, has-append x c queue, h)))
          ]
        ]
      ]

length-extend : (xs queue : List Bytes) → length (extend xs queue) ≡ length xs + length queue
unfolding extend
length-extend [] queue = omega arith
length-extend (y ∷ xs) queue = omega (arith, length-extend xs (y ∷ queue))

open-nothing : (store : Store) → open_references store [] ≡ all_references store
open-nothing [] = refl
open-nothing ((id, o) ∷ store) = omega (arith, open-nothing store)

pub collected-eq-ok :
    (r : Option (Result String (List Bytes × List PackObject))) {objects : List PackObject}
    → collected r ≡ some (ok objects)
    → (ids : List Bytes) × (r ≡ some (ok (ids, objects)))
collected-eq-ok none e = cc
collected-eq-ok (some (err x)) e = cc
collected-eq-ok (some (ok (ids, objects))) e = (ids, cc)

collected-eq-none :
    (r : Option (Result String (List Bytes × List PackObject))) → collected r ≡ none → r ≡ none
collected-eq-none none e = refl
collected-eq-none (some (err x)) e = cc
collected-eq-none (some (ok (ids, objects))) e = cc

-- A collection ends, with objects or with an error.
pub collect_reachable_objects-ends :
    (store : Store) (tips : List Bytes) → collect_reachable_objects store tips ≢ none
unfolding collect_reachable_objects
collect_reachable_objects-ends store tips e =
    collect_rounds_enough store (length tips + all_references store) (extend tips []) [] []
      (omega (arith, length-extend tips [], open-nothing store))
      (collected-eq-none
        (collect_rounds store (length tips + all_references store) (extend tips []) [] []) e)
