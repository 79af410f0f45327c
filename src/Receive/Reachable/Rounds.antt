-- ===== src/Receive/Reachable/Rounds.antt =====
-- About the rounds of `collect_reachable_objects`, one at a time, and their number.
use fornacast.Prelude.{
  ℕ, zero, suc, ◌+◌, ◌≤◌, ◌≡◌, ◌≢◌, inl, inr, refl, sym, ap, ◌∙◌, subst, true, false, none, some,
  String, List, [], ◌∷◌, ◌++◌, Result, ok, err, ◌>>=◌, if◌then◌else◌, length, length-append, arith,
  Bool-cases, Result-cases,
}
use fornacast.Prelude.Bytes.{Bytes, bytes_eq, bytes_eq_iff}
use fornacast.Tree.Entries.{EntryKind, tree, blob, blob_executable, link, commit}
use fornacast.Receive.Reachable.{
  View, commit_view, tree_view, tag_view, blob_view, StoredObject, PackObject, extend, push_entry,
  enqueue_entries, enqueue_children, has, Store, find_object, count, pack_object, collect_rounds,
}

-- What an object refers to, in the order in which the stack holds it.
abbrev pub references : View → Result String (List Bytes)
references view = enqueue_children view []

-- The stack grows by the references of an object.
abbrev Grows : Result String (List Bytes) → Result String (List Bytes) → List Bytes → Type 0
Grows whole alone queue = whole ≡ (alone >>= λ c. ok (c ++ queue))

extend-append : (xs a queue : List Bytes) → extend xs (a ++ queue) ≡ extend xs a ++ queue
unfolding extend
extend-append [] a queue = refl
extend-append (x ∷ xs) a queue = extend-append xs (x ∷ a) queue

push_entry-append :
    (kind : EntryKind) (oid : Bytes) (a queue : List Bytes)
    → push_entry kind oid (a ++ queue) ≡ push_entry kind oid a ++ queue
push_entry-append tree oid a queue = refl
push_entry-append blob oid a queue = refl
push_entry-append blob_executable oid a queue = refl
push_entry-append link oid a queue = refl
push_entry-append commit oid a queue = refl

enqueue_entries-append :
    (entries : List (Result String (EntryKind × Bytes))) (a queue : List Bytes)
    → Grows (enqueue_entries entries (a ++ queue)) (enqueue_entries entries a) queue
unfolding enqueue_entries
enqueue_entries-append [] a queue = refl
enqueue_entries-append (err e ∷ entries) a queue = refl
enqueue_entries-append (ok (kind, oid) ∷ entries) a queue =
    ap (enqueue_entries entries) (push_entry-append kind oid a queue)
    ∙ enqueue_entries-append entries (push_entry kind oid a) queue

enqueue-Grows :
    (view : View) (queue : List Bytes) → Grows (enqueue_children view queue) (references view) queue
unfolding enqueue_children
enqueue-Grows (commit_view (ok t) parents) queue = ap ok (extend-append parents (t ∷ []) queue)
enqueue-Grows (commit_view (err e) parents) queue = refl
enqueue-Grows (tree_view entries) queue = enqueue_entries-append entries [] queue
enqueue-Grows (tag_view (ok t)) queue = refl
enqueue-Grows (tag_view (err e)) queue = refl
enqueue-Grows blob_view queue = refl

-- How many references the objects have that are not seen.
abbrev pub open_references : Store → List Bytes → ℕ
open_references [] seen = 0
open_references ((id, o) ∷ store) seen =
    (if has id seen then 0 else count (references o.view)) + open_references store seen

open_mono :
    (store : Store) (seen : List Bytes) (id : Bytes)
    → open_references store (id ∷ seen) ≤ open_references store seen
open_mono [] seen id = omega arith
open_mono ((x, o) ∷ store) seen id = ground (arith, open_mono store seen id)

open_step :
    (store : Store) (seen : List Bytes) (id : Bytes) (o : StoredObject)
    → has id seen ≡ false
    → find_object store id ≡ ok o
    → open_references store (id ∷ seen) + count (references o.view) ≤ open_references store seen
open_step [] seen id o h f = cc
open_step ((x, p) ∷ store) seen id o h f = elim (Bool-cases (bytes_eq x id)) [
  | inl same ↦
      let is : x ≡ id = (bytes_eq_iff x id).0 same in
      let p_o : ok p ≡ ok o = sym (ap (λ b. if b then ok p else find_object store id) same) ∙ f in
      let counts : count (references p.view) ≡ count (references o.view) =
        ap (λ r. elim r [ ok q ↦ count (references q.view) | err e ↦ 0 ]) p_o in
      let unseen : has x seen ≡ false = subst (λ y. has y seen ≡ false) (sym is) h in
      let found : bytes_eq id x ≡ true = (bytes_eq_iff id x).1 (sym is) in
      ground (arith, open_mono store seen id)
  | inr other ↦
      let rest : find_object store id ≡ ok o =
        sym (ap (λ b. if b then ok p else find_object store id) other) ∙ f in
      ground (arith, open_step store seen id o h rest)
]

module _ (store : Store) where
  pub step_seen :
      (n : ℕ) (id : Bytes) (queue seen : List Bytes) (objects : List PackObject)
      → has id seen ≡ true
      → collect_rounds store (suc n) (id ∷ queue) seen objects
        ≡ collect_rounds store n queue seen objects
  unfolding collect_rounds
  step_seen n id queue seen objects h = ground arith

  pub step_new :
      (n : ℕ) (id : Bytes) (queue seen : List Bytes) (objects : List PackObject) (o : StoredObject)
      (c : List Bytes)
      → has id seen ≡ false
      → find_object store id ≡ ok o
      → references o.view ≡ ok c
      → collect_rounds store (suc n) (id ∷ queue) seen objects
        ≡ collect_rounds store n (c ++ queue) (id ∷ seen) (objects ++ pack_object o ∷ [])
  unfolding collect_rounds
  step_new n id queue seen objects o c h f r =
      let e : enqueue_children o.view queue ≡ ok (c ++ queue) =
        enqueue-Grows o.view queue ∙ ap (λ r. r >>= λ c. ok (c ++ queue)) r in
      ground arith

  pub step_missing :
      (n : ℕ) (id : Bytes) (queue seen : List Bytes) (objects : List PackObject) (x : String)
      → has id seen ≡ false
      → find_object store id ≡ err x
      → collect_rounds store (suc n) (id ∷ queue) seen objects ≡ some (err x)
  unfolding collect_rounds
  step_missing n id queue seen objects x h f = ground arith

  pub step_broken :
      (n : ℕ) (id : Bytes) (queue seen : List Bytes) (objects : List PackObject) (o : StoredObject)
      (x : String)
      → has id seen ≡ false
      → find_object store id ≡ ok o
      → references o.view ≡ err x
      → collect_rounds store (suc n) (id ∷ queue) seen objects ≡ some (err x)
  unfolding collect_rounds
  step_broken n id queue seen objects o x h f r =
      let e : enqueue_children o.view queue ≡ err x =
        enqueue-Grows o.view queue ∙ ap (λ r. r >>= λ c. ok (c ++ queue)) r in
      ground arith

  -- As many rounds as there are entries on the stack and references of objects not seen are enough:
  -- the collection ends, with objects or with an error.
  pub collect_rounds_enough :
      (n : ℕ) (queue seen : List Bytes) (objects : List PackObject)
      → length queue + open_references store seen ≤ n
      → collect_rounds store n queue seen objects ≢ none
  collect_rounds_enough zero [] seen objects h = unfold collect_rounds in λ e. cc
  collect_rounds_enough zero (id ∷ queue) seen objects h = absurd (omega arith)
  collect_rounds_enough (suc n) [] seen objects h = unfold collect_rounds in λ e. cc
  collect_rounds_enough (suc n) (id ∷ queue) seen objects h = elim (Bool-cases (has id seen)) [
    | inl again ↦
        subst (λ r. r ≢ none) (sym (step_seen n id queue seen objects again))
          (collect_rounds_enough n queue seen objects (omega (arith, h)))
    | inr new ↦ elim (Result-cases (find_object store id)) [
      | inr (x, f) ↦
          subst (λ r. r ≢ none) (sym (step_missing n id queue seen objects x new f)) (λ e. cc)
      | inl (o, f) ↦ elim (Result-cases (references o.view)) [
        | inr (x, r) ↦
            subst (λ r. r ≢ none) (sym (step_broken n id queue seen objects o x new f r)) (λ e. cc)
        | inl (c, r) ↦
            let counted : count (references o.view) ≡ length c = ap count r in
            let bound : length (c ++ queue) + open_references store (id ∷ seen) ≤ n =
              omega (arith, length-append c queue, open_step store seen id o new f, counted, h) in
            subst (λ r. r ≢ none) (sym (step_new n id queue seen objects o c new f r))
              (collect_rounds_enough n (c ++ queue) (id ∷ seen) (objects ++ pack_object o ∷ [])
                bound)
      ]
    ]
  ]
