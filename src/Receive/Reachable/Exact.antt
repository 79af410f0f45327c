-- ===== src/Receive/Reachable/Exact.antt =====
-- What `collect_reachable_objects` collects: just the objects that the tips reach.
use fornacast.Prelude.{
  ◌↔◌, ℕ, zero, suc, ◌+◌, ◌≡◌, inl, inr, refl, sym, ap, ◌∙◌, subst, true, ◌||◌, Option, some,
  String, List, [], ◌∷◌, ◌++◌, Result, ok, err, length, arith, Bool-cases, Result-cases,
}
use fornacast.Prelude.Bytes.{Bytes, bytes_eq}
use fornacast.Receive.Reachable.{
  StoredObject, PackObject, has, Store, find_object, pack_object, collect_rounds, extend,
  all_references, collect_reachable_objects,
}
use fornacast.Receive.Reachable.Rounds.{references, step_seen, step_new, step_missing, step_broken}
use fornacast.Prelude.Bytes.{bytes_eq_refl}
use fornacast.Receive.Reachable.Refers.{Refers, IsRead, references-Refers, has-extend}
use fornacast.Receive.Reachable.Closed.{
  has-append, Packed, Gathered, collect_rounds-Gathered, collected-eq-ok,
}

seen_of :
    {seen seen' : List Bytes} {objects objects' : List PackObject}
    → ◌≡◌ {A = Option (Result String (List Bytes × List PackObject))}
        (some (ok (seen, objects)))
        (some (ok (seen', objects')))
    → seen ≡ seen'
seen_of e = cc e

module _ (store : Store) (tips : List Bytes) where
  -- An id that the tips reach: a tip, or one that an object refers to whose id they reach.
  pub data Reached : Bytes → Type 0 where
    a_tip : {x : Bytes} → has x tips ≡ true → Reached x
    referred :
        {x y : Bytes} {o : StoredObject}
        → Reached x
        → find_object store x ≡ ok o
        → Refers o.view y
        → Reached y

  -- The ids are those that the tips reach, and the object of each can be read whole; the objects are
  -- theirs, one for each id.
  abbrev pub Collected : List Bytes → List PackObject → Type 0
  Collected ids objects =
      ((x : Bytes) → (has x ids ≡ true) ↔ Reached x)
      × ((x : Bytes)
          → Reached x
          → (o : StoredObject) × (find_object store x ≡ ok o) × IsRead o.view)
      × Packed store ids objects

  abbrev AllReached : List Bytes → Type 0
  AllReached xs = (x : Bytes) → has x xs ≡ true → Reached x

  reached_behind : (id : Bytes) (queue : List Bytes) → AllReached (id ∷ queue) → AllReached queue
  reached_behind id queue all x h = all x (ground arith)

  reached_next :
      (id : Bytes) (queue c : List Bytes) (o : StoredObject)
      → find_object store id ≡ ok o
      → references o.view ≡ ok c
      → AllReached (id ∷ queue)
      → AllReached (c ++ queue)
  reached_next id queue c o f r all x h = elim (Bool-cases (has x c)) [
    | inl of_this ↦
        referred (all id (ap (λ b. b || has id queue) (bytes_eq_refl id))) f
          (((references-Refers o.view c r).1 x).0 of_this)
    | inr earlier ↦ all x (ground (arith, has-append x c queue, h))
  ]

  reached_seen :
      (id : Bytes) (queue seen : List Bytes)
      → AllReached (id ∷ queue)
      → AllReached seen
      → AllReached (id ∷ seen)
  reached_seen id queue seen all old x h = elim (Bool-cases (bytes_eq id x)) [
    | inl same ↦ all x (ground arith)
    | inr other ↦ old x (ground arith)
  ]

  collect_rounds-Reached :
      (n : ℕ) (queue seen : List Bytes) (objects : List PackObject) {seen' : List Bytes}
      {objects' : List PackObject}
      → AllReached queue
      → AllReached seen
      → collect_rounds store n queue seen objects ≡ some (ok (seen', objects'))
      → AllReached seen'
  collect_rounds-Reached zero [] seen objects all old e =
      unfold collect_rounds in subst AllReached (seen_of e) old
  collect_rounds-Reached zero (id ∷ queue) seen objects all old e = unfold collect_rounds in cc
  collect_rounds-Reached (suc n) [] seen objects all old e =
      unfold collect_rounds in subst AllReached (seen_of e) old
  collect_rounds-Reached (suc n) (id ∷ queue) seen objects all old e =
      elim (Bool-cases (has id seen)) [
        | inl again ↦
            collect_rounds-Reached n queue seen objects (reached_behind id queue all) old
              (sym (step_seen store n id queue seen objects again) ∙ e)
        | inr new ↦ elim (Result-cases (find_object store id)) [
          | inr (x, f) ↦ absurd (cc (step_missing store n id queue seen objects x new f, e))
          | inl (o, f) ↦ elim (Result-cases (references o.view)) [
            | inr (x, r) ↦ absurd (cc (step_broken store n id queue seen objects o x new f r, e))
            | inl (c, r) ↦
                collect_rounds-Reached n (c ++ queue) (id ∷ seen) (objects ++ pack_object o ∷ [])
                  (reached_next id queue c o f r all) (reached_seen id queue seen all old)
                  (sym (step_new store n id queue seen objects o c new f r) ∙ e)
          ]
        ]
      ]

  -- All that is reached is gathered, and read whole.
  Gathered-has :
      (ids : List Bytes) (objects : List PackObject)
      → Gathered store tips [] ids objects
      → (x : Bytes) → Reached x
      → has x ids ≡ true
  Gathered-has ids objects g x (a_tip h) = (let (closed, packed, kept) = g in kept x (inr h))
  Gathered-has ids objects g y (referred {x = x} {o = o} r f refers) =
      let (closed, packed, kept) = g in
      let (o', c, f', r', all) = closed x (Gathered-has ids objects g x r) in
      let same : o' ≡ o = ap (λ q. elim q [ ok z ↦ z | err e ↦ o ]) (sym f' ∙ f) in
      let its = subst (λ z. references z.view ≡ ok c) same r' in
      all y (((references-Refers o.view c its).1 y).1 refers)

  Gathered-IsRead :
      (ids : List Bytes) (objects : List PackObject)
      → Gathered store tips [] ids objects
      → (x : Bytes) → Reached x
      → (o : StoredObject) × (find_object store x ≡ ok o) × IsRead o.view
  Gathered-IsRead ids objects g x r =
      let (closed, packed, kept) = g in
      let (o, c, f, its, all) = closed x (Gathered-has ids objects g x r) in
      (o, f, (references-Refers o.view c its).0)

  -- What is packed for some tips, if the collection succeeds: exactly the objects that the tips
  -- reach, each once, with the kind and the data of the store. A commit refers to its tree and its
  -- parents, a tree to its entries but for submodules, a tag to its target. All these objects are in
  -- the store and can be read whole.
  pub collect_reachable_objects-Collected :
      (objects : List PackObject)
      → collect_reachable_objects store tips ≡ some (ok objects)
      → (ids : List Bytes) × Collected ids objects
  unfolding collect_reachable_objects
  collect_reachable_objects-Collected objects e =
      let n = length tips + all_references store in
      let (ids, r) = collected-eq-ok (collect_rounds store n (extend tips []) [] []) e in
      let (all, packed, kept) =
        collect_rounds-Gathered store n (extend tips []) [] [] (λ x h. cc) refl r in
      let g : Gathered store tips [] ids objects =
        (all, packed, λ x h. kept x (ground (arith, has-extend x tips [], h))) in
      let reached =
        collect_rounds-Reached n (extend tips []) [] []
          (λ x h. a_tip (ground (arith, has-extend x tips [], h))) (λ x h. absurd (cc h)) r in
      (ids, (λ x. (reached x, Gathered-has ids objects g x), Gathered-IsRead ids objects g, packed))
