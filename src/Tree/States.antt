-- ===== src/Tree/States.antt =====
-- What the passes over a tree object tell about its entries, whatever the clock did: the state of a
-- name, the states of many names, and the number of entries.
use Prim.Native.Nat.{Ordering}
use fornacast.Prelude.{
  ℕ, ◌+◌, ◌≡◌, inl, inr, refl, sym, ap, ◌∙◌, Bool, true, false, not, ◌&&◌, ◌==◌, Option, none, some,
  List, [], ◌∷◌, ◌++◌, append-nil, append_assoc, length, ok, err, bind-eq-ok, if◌then◌else◌, arith,
  Bool-cases, Option-cases,
}
use mathlib.Core.List.{map}
use fornacast.Prelude.Bytes.{Bytes, bytes_eq, bytes_eq_iff, cmp}
use fornacast.Native.Clock as Clock
use fornacast.Native.Clock.{Clock, pure, ◌>>=◌, ◌>>◌}
use fornacast.Tree.Entries.{RawEntry, Item, entry, TreeEntryState}
use fornacast.Tree.Order.{cmp-eq, cmp_refl}
use fornacast.Tree.Pass.{
  BTreeMap, insert, lookup, state_of, find_step, find_raw_tree_entry, states_step,
  retained_tree_states, count_step, check_tree_history_deadline, for_entries,
}
use fornacast.Tree.Canonical.{Canonical, fold_entries, pass_sound, for_entries_sound}
use fornacast.Tree.Lookup.{named, to_list, find_fold, trees}
use fornacast.Tree.Listing.{validate_cross_kind_tree_names, count_direct_tree_entries}

-- The object decodes whole into a canonical sequence of entries, and has just these states of the
-- name: one, or none.
abbrev pub StateOf : List Item → Bytes → Option TreeEntryState → Type 0
StateOf items name o =
    (es : List RawEntry) × (items ≡ map entry es) × Canonical none es × (named name es ≡ to_list o)

pub find_raw_tree_entry-StateOf :
    (late : Clock) (items : List Item) (name : Bytes) (n : ℕ) {o : Option TreeEntryState} {k : ℕ}
    → find_raw_tree_entry late items name n ≡ ok (o, k)
    → StateOf items name o
unfolding find_raw_tree_entry
find_raw_tree_entry-StateOf late items name n {o} e =
    let (es, is, canonical, folded) = pass_sound late (find_step name) items none n e in
    (es, is, canonical, (find_fold name es none o).0 folded)

module _ {V : Type 0} (j k : Bytes) (v : V) (k' : Bytes) (v' : V) (m : BTreeMap V) where
  inserted : Ordering → BTreeMap V
  inserted Ordering.lt = (k, v) ∷ (k', v') ∷ m
  inserted Ordering.eq = (k', v) ∷ m
  inserted Ordering.gt = (k', v') ∷ insert k v m

  insert_by : (o : Ordering) → cmp k k' ≡ o → insert k v ((k', v') ∷ m) ≡ inserted o
  unfolding insert inserted
  insert_by Ordering.lt e = rw (e, insert) refl
  insert_by Ordering.eq e = rw (e, insert) refl
  insert_by Ordering.gt e = rw (e, insert) refl

  lookup-inserted :
      lookup j (insert k v m) ≡ (if bytes_eq j k then some v else lookup j m)
      → (o : Ordering) → cmp k k' ≡ o
      → lookup j (inserted o) ≡ (if bytes_eq j k then some v else lookup j ((k', v') ∷ m))
  unfolding lookup inserted
  lookup-inserted rest Ordering.lt e = refl
  lookup-inserted rest Ordering.eq e = ground (arith, ap (bytes_eq j) (cmp-eq k k' e))
  lookup-inserted rest Ordering.gt e = elim (Bool-cases (bytes_eq j k)) [
    | inl same ↦
        let is : j ≡ k = (bytes_eq_iff j k).0 same in
        elim (Bool-cases (bytes_eq j k')) [
          | inl twice ↦
              let it : j ≡ k' = (bytes_eq_iff j k').0 twice in
              let equal : cmp k k' ≡ Ordering.eq = ap (λ x. cmp x k') (sym is ∙ it) ∙ cmp_refl k' in
              absurd (cc (equal, e))
          | inr other ↦ ground (arith, rest)
        ]
    | inr new ↦ ground (arith, rest)
  ]

lookup-insert :
    {V : Type 0} (j k : Bytes) (v : V) (m : BTreeMap V)
    → lookup j (insert k v m) ≡ (if bytes_eq j k then some v else lookup j m)
lookup-insert j k v [] = unfold lookup insert in refl
lookup-insert j k v ((k', v') ∷ m) =
    ap (lookup j) (insert_by j k v k' v' m (cmp k k') refl)
    ∙ lookup-inserted j k v k' v' m (lookup-insert j k v m) (cmp k k') refl

-- What a step does to the states of a name that is selected.
states_step-lookup :
    (selected : Bytes → Bool) (name : Bytes) (x : RawEntry) (m : BTreeMap TreeEntryState)
    {m1 : BTreeMap TreeEntryState}
    → selected name ≡ true
    → states_step selected x m ≡ ok m1
    → to_list (lookup name m1)
      ≡ to_list (lookup name m) ++ (if bytes_eq x.filename name then state_of x ∷ [] else [])
states_step-lookup selected name x m {m1} chosen h = elim (Bool-cases (selected x.filename)) [
  | inr passed_over ↦
      let same : ok m ≡ ok m1 = rw passed_over at h in
      let back : m ≡ m1 = ap (λ r. elim r [ ok z ↦ z | err z ↦ m ]) same in
      elim (Bool-cases (bytes_eq x.filename name)) [
        | inl this ↦
            let is : x.filename ≡ name = (bytes_eq_iff x.filename name).0 this in
            absurd (cc (chosen, passed_over, ap selected is))
        | inr other ↦
            ap (λ z. to_list (lookup name z)) (sym back)
            ∙ rw other (sym (append-nil (to_list (lookup name m))))
      ]
  | inl taken ↦ elim (Option-cases (lookup x.filename m)) [
    | inr (old, l) ↦ absurd (cc (rw l at (rw taken at h)))
    | inl missing ↦
        let same : ok (insert x.filename (state_of x) m) ≡ ok m1 = rw missing at (rw taken at h) in
        let back : insert x.filename (state_of x) m ≡ m1 =
          ap (λ r. elim r [ ok z ↦ z | err z ↦ m ]) same in
        let now = lookup-insert name x.filename (state_of x) m in
        ap (λ z. to_list (lookup name z)) (sym back)
        ∙ ap to_list now
        ∙ elim (Bool-cases (bytes_eq x.filename name)) [
          | inl this ↦
              let is : x.filename ≡ name = (bytes_eq_iff x.filename name).0 this in
              let same_name : bytes_eq name x.filename ≡ true =
                (bytes_eq_iff name x.filename).1 (sym is) in
              let absent : lookup name m ≡ none = ap (λ z. lookup z m) (sym is) ∙ missing in
              rw (this, same_name, absent) refl
          | inr other ↦
              let other_name : bytes_eq name x.filename ≡ false =
                ground (arith, bytes_eq_iff name x.filename, bytes_eq_iff x.filename name) in
              rw (other, other_name) (sym (append-nil (to_list (lookup name m))))
        ]
  ]
]

states_fold :
    (selected : Bytes → Bool) (name : Bytes) (es : List RawEntry) (m : BTreeMap TreeEntryState)
    {m' : BTreeMap TreeEntryState}
    → selected name ≡ true
    → fold_entries (states_step selected) es m ≡ ok m'
    → to_list (lookup name m) ++ named name es ≡ to_list (lookup name m')
unfolding fold_entries
states_fold selected name [] m chosen e =
    append-nil (to_list (lookup name m))
    ∙ ap (λ r. elim r [ ok x ↦ to_list (lookup name x) | err x ↦ [] ]) e
states_fold selected name (x ∷ es) m {m'} chosen e =
    let (m1, this, rest) = bind-eq-ok (states_step selected x m) _ e in
    named-cons name x es (to_list (lookup name m))
    ∙ ap (λ l. l ++ named name es) (sym (states_step-lookup selected name x m chosen this))
    ∙ states_fold selected name es m1 chosen rest
  where
    named-cons :
        (name : Bytes) (x : RawEntry) (es : List RawEntry) (l : List TreeEntryState)
        → l ++ named name (x ∷ es)
          ≡ (l ++ (if bytes_eq x.filename name then state_of x ∷ [] else [])) ++ named name es
    named-cons name x es l = elim (Bool-cases (bytes_eq x.filename name)) [
      | inl same ↦ rw same (sym (append_assoc l (state_of x ∷ []) (named name es)))
      | inr other ↦ rw other (ap (λ y. y ++ named name es) (sym (append-nil l)))
    ]

-- The states that are retained for a tree, or for none.
abbrev pub EntryIn : Option (List Item) → Bytes → Option TreeEntryState → Type 0
EntryIn none name o = o ≡ none
EntryIn (some items) name o = StateOf items name o

pub retained_tree_states-EntryIn :
    (late : Clock) (tree : Option (List Item)) (selected : Bytes → Bool) (n : ℕ)
    {m : BTreeMap TreeEntryState} {k : ℕ}
    → retained_tree_states late tree selected n ≡ ok (m, k)
    → (name : Bytes) → selected name ≡ true
    → EntryIn tree name (lookup name m)
unfolding retained_tree_states lookup
retained_tree_states-EntryIn late none selected n {m} h name chosen =
    let (_, n1, _, e) = Clock.>>=-eq-ok (check_tree_history_deadline late) _ n h in
    ap (λ r. elim r [ ok (z, i) ↦ lookup name z | err z ↦ none ]) (sym e)
retained_tree_states-EntryIn late (some items) selected n h name chosen =
    let (es, is, canonical, folded) = pass_sound late (states_step selected) items [] n h in
    (es, is, canonical, states_fold selected name es [] chosen folded)

count_step_sound :
    (x : RawEntry) (total directories : ℕ) {c : ℕ × ℕ}
    → count_step x (total, directories) ≡ ok c
    → (c.0 ≡ total + 1) × (c.1 ≡ directories + (if x.is_tree then 1 else 0))
count_step_sound x total directories h = ground arith

-- The entries are counted, all of them and the directories.
count_fold_sound :
    (es : List RawEntry) (total directories : ℕ) {c : ℕ × ℕ}
    → fold_entries count_step es (total, directories) ≡ ok c
    → (c.0 ≡ total + length es) × (c.1 ≡ directories + trees es)
unfolding fold_entries
count_fold_sound [] total directories {c} e =
    let same : (total, directories) ≡ c = ap (λ r. elim r [ ok z ↦ z | err z ↦ c ]) e in
    let first : total ≡ c.0 = ap (λ z. z.0) same in
    let second : directories ≡ c.1 = ap (λ z. z.1) same in
    (omega (arith, first), omega (arith, second))
count_fold_sound (x ∷ es) total directories {c} e =
    let ((t, d), this, rest) = bind-eq-ok (count_step x (total, directories)) _ e in
    let (counted, trees_counted) = count_fold_sound es t d rest in
    let (one, maybe) = count_step_sound x total directories this in
    (omega (arith, counted, one), ground (arith, trees_counted, maybe))

pub count_direct_tree_entries-counts :
    (late : Clock) (items : List Item) (n : ℕ) {c : ℕ × ℕ} {k : ℕ}
    → count_direct_tree_entries late items n ≡ ok (c, k)
    → (es : List RawEntry) × (items ≡ map entry es)
      × Canonical none es
      × (c.0 ≡ length es)
      × (c.1 ≡ trees es)
unfolding count_direct_tree_entries
count_direct_tree_entries-counts late items n {c} {k} h =
    let (s, n1, loop, e) = Clock.>>=-eq-ok (for_entries late count_step items none (0, 0)) _ n h in
    let (es, is, canonical, folded) =
      for_entries_sound late count_step items none (0, 0) n tt loop in
    let counts = count_fold_sound es 0 0 folded in
    let back : s ≡ c = ending s n1 e in
    (
      es,
      is,
      canonical,
      ap (λ z. z.0) (sym back) ∙ omega (arith, counts.0),
      ap (λ z. z.1) (sym back) ∙ omega (arith, counts.1),
    )
  where
    ending :
        (s : ℕ × ℕ) (i : ℕ)
        → (if not (s.1 == 0) && not (s.1 == s.0)
              then (do
                compared ← validate_cross_kind_tree_names late items
                check_tree_history_deadline late
                pure (s.0, s.1))
              else (do check_tree_history_deadline late; pure (s.0, s.1)))
            i
          ≡ ok (c, k)
        → s ≡ c
    ending s i h = elim (Bool-cases (not (s.1 == 0) && not (s.1 == s.0))) [
      | inl compared ↦
          let (_, i1, _, h1) =
            Clock.>>=-eq-ok (validate_cross_kind_tree_names late items) _ i (rw compared at h) in
          let (_, i2, _, h2) = Clock.>>=-eq-ok (check_tree_history_deadline late) _ i1 h1 in
          ap (λ r. elim r [ ok z ↦ z.0 | err z ↦ c ]) h2
      | inr plain ↦
          let (_, i1, _, h1) =
            Clock.>>=-eq-ok (check_tree_history_deadline late) _ i (rw plain at h) in
          ap (λ r. elim r [ ok z ↦ z.0 | err z ↦ c ]) h1
    ]
