-- ===== src/Receive/Reachable/Refers.antt =====
-- What an object refers to, apart from `enqueue_children`: a commit to its tree and its parents, a
-- tree to its entries but for submodules, a tag to its target, and a blob to nothing.
use fornacast.Prelude.{
  ◌≡◌, ◌↔◌, ◌⊎◌, inl, inr, refl, sym, ap, ◌∙◌, subst, true, false, ◌||◌, Bool, String, List, [],
  ◌∷◌, Result, ok, err, arith, Bool-cases,
}
use fornacast.Prelude.Bytes.{Bytes, bytes_eq, bytes_eq_iff, bytes_eq_refl}
use fornacast.Tree.Entries.{EntryKind, tree, blob, blob_executable, link, commit}
use fornacast.Receive.Reachable.{
  View, commit_view, tree_view, tag_view, blob_view, extend, push_entry, enqueue_entries,
  enqueue_children, has,
}
use fornacast.Receive.Reachable.Rounds.{references}

abbrev pub Entries : Type 0
Entries = List (Result String (EntryKind × Bytes))

-- The entry is among those of a tree.
pub data HasEntry (kind : EntryKind) (oid : Bytes) : Entries → Type 0 where
  first : {entries : Entries} → HasEntry kind oid (ok (kind, oid) ∷ entries)
  behind :
      {e : Result String (EntryKind × Bytes)} {entries : Entries}
      → HasEntry kind oid entries
      → HasEntry kind oid (e ∷ entries)

-- The objects of submodules are in another repository.
abbrev pub IsLocal : EntryKind → Type 0
IsLocal commit = ⊥
IsLocal tree = Unit
IsLocal blob = Unit
IsLocal blob_executable = Unit
IsLocal link = Unit

pub data Refers : View → Bytes → Type 0 where
  commit_tree : {root : Bytes} {parents : List Bytes} → Refers (commit_view (ok root) parents) root
  commit_parent :
      {root : Result String Bytes} {parents : List Bytes} {parent : Bytes}
      → has parent parents ≡ true
      → Refers (commit_view root parents) parent
  tree_entry :
      {entries : Entries} {oid : Bytes} (kind : EntryKind)
      → IsLocal kind
      → HasEntry kind oid entries
      → Refers (tree_view entries) oid
  tag_target : {target : Bytes} → Refers (tag_view (ok target)) target

abbrev AllRead : Entries → Type 0
AllRead [] = Unit
AllRead (ok e ∷ entries) = AllRead entries
AllRead (err e ∷ entries) = ⊥

-- No part of the object failed to be read.
abbrev pub IsRead : View → Type 0
IsRead (commit_view (ok root) parents) = Unit
IsRead (commit_view (err e) parents) = ⊥
IsRead (tree_view entries) = AllRead entries
IsRead (tag_view (ok target)) = Unit
IsRead (tag_view (err e)) = ⊥
IsRead blob_view = Unit

pub has-extend :
    (x : Bytes) (xs queue : List Bytes) → has x (extend xs queue) ≡ has x xs || has x queue
unfolding extend
has-extend x [] queue = refl
has-extend x (y ∷ xs) queue = ground (arith, has-extend x xs (y ∷ queue))

has_first : (x : Bytes) (xs : List Bytes) → has x (x ∷ xs) ≡ true
has_first x xs = ap (λ b. b || has x xs) (bytes_eq_refl x)

-- An element of a list with one more element.
has-cons : (x y : Bytes) (xs : List Bytes) → has y (x ∷ xs) ≡ true → (x ≡ y) ⊎ (has y xs ≡ true)
has-cons x y xs h = elim (Bool-cases (bytes_eq x y)) [
  | inl same ↦ inl ((bytes_eq_iff x y).0 same)
  | inr other ↦ inr (ground arith)
]

-- An entry that is referred to.
abbrev Entry : Entries → Bytes → Type 0
Entry entries y = (kind : EntryKind) × IsLocal kind × HasEntry kind y entries

Entry-behind :
    {e : Result String (EntryKind × Bytes)} {entries : Entries} {y : Bytes}
    → Entry entries y
    → Entry (e ∷ entries) y
Entry-behind (kind, l, h) = (kind, l, behind h)

pushed :
    (kind : EntryKind) (oid y : Bytes) (entries : Entries) (queue : List Bytes)
    → has y (push_entry kind oid queue) ≡ true
    → (has y queue ≡ true) ⊎ Entry (ok (kind, oid) ∷ entries) y
pushed kind oid y entries queue h = go kind h
  where
    this : (k : EntryKind) → IsLocal k → oid ≡ y → Entry (ok (k, oid) ∷ entries) y
    this k l is = subst (Entry (ok (k, oid) ∷ entries)) is (k, l, first)

    local :
        (k : EntryKind)
        → IsLocal k
        → has y (oid ∷ queue) ≡ true
        → (has y queue ≡ true) ⊎ Entry (ok (k, oid) ∷ entries) y
    local k l h = elim (has-cons oid y queue h) [ inl is ↦ inr (this k l is) | inr q ↦ inl q ]

    go :
        (k : EntryKind)
        → has y (push_entry k oid queue) ≡ true
        → (has y queue ≡ true) ⊎ Entry (ok (k, oid) ∷ entries) y
    go commit h = inl h
    go tree h = local tree tt h
    go blob h = local blob tt h
    go blob_executable h = local blob_executable tt h
    go link h = local link tt h

push_keeps :
    (kind : EntryKind) (oid y : Bytes) (queue : List Bytes)
    → has y queue ≡ true
    → has y (push_entry kind oid queue) ≡ true
push_keeps commit oid y queue h = h
push_keeps tree oid y queue h = ground arith
push_keeps blob oid y queue h = ground arith
push_keeps blob_executable oid y queue h = ground arith
push_keeps link oid y queue h = ground arith

push_local :
    (kind : EntryKind) (oid : Bytes) (queue : List Bytes)
    → IsLocal kind
    → has oid (push_entry kind oid queue) ≡ true
push_local commit oid queue l = absurd l
push_local tree oid queue l = has_first oid queue
push_local blob oid queue l = has_first oid queue
push_local blob_executable oid queue l = has_first oid queue
push_local link oid queue l = has_first oid queue

abbrev has_ok : Bytes → Result String (List Bytes) → Bool
has_ok y (ok l) = has y l
has_ok y (err x) = false

module _ {c : List Bytes} where
  enqueue_entries-AllRead :
      (entries : Entries) (queue : List Bytes)
      → enqueue_entries entries queue ≡ ok c
      → AllRead entries
  unfolding enqueue_entries
  enqueue_entries-AllRead [] queue e = tt
  enqueue_entries-AllRead (err x ∷ entries) queue e = cc e
  enqueue_entries-AllRead (ok (kind, oid) ∷ entries) queue e =
      enqueue_entries-AllRead entries (push_entry kind oid queue) e

  enqueue_entries_sound :
      (entries : Entries) (queue : List Bytes) (y : Bytes)
      → enqueue_entries entries queue ≡ ok c
      → has y c ≡ true
      → (has y queue ≡ true) ⊎ Entry entries y
  unfolding enqueue_entries
  enqueue_entries_sound [] queue y e h = inl (subst (λ r. has_ok y r ≡ true) (sym e) h)
  enqueue_entries_sound (err x ∷ entries) queue y e h = absurd (cc e)
  enqueue_entries_sound (ok (kind, oid) ∷ entries) queue y e h =
      elim (enqueue_entries_sound entries (push_entry kind oid queue) y e h) [
        | inl q ↦ pushed kind oid y entries queue q
        | inr found ↦ inr (Entry-behind found)
      ]

  enqueue_entries-keeps :
      (entries : Entries) (queue : List Bytes) (y : Bytes)
      → enqueue_entries entries queue ≡ ok c
      → has y queue ≡ true
      → has y c ≡ true
  unfolding enqueue_entries
  enqueue_entries-keeps [] queue y e h = subst (λ r. has_ok y r ≡ true) e h
  enqueue_entries-keeps (err x ∷ entries) queue y e h = absurd (cc e)
  enqueue_entries-keeps (ok (kind, oid) ∷ entries) queue y e h =
      enqueue_entries-keeps entries (push_entry kind oid queue) y e (push_keeps kind oid y queue h)

  enqueue_entries_complete :
      (kind : EntryKind) (y : Bytes) (entries : Entries) (queue : List Bytes)
      → enqueue_entries entries queue ≡ ok c
      → IsLocal kind
      → HasEntry kind y entries
      → has y c ≡ true
  unfolding enqueue_entries
  enqueue_entries_complete kind y entries queue e l (first {entries = rest}) =
      enqueue_entries-keeps rest (push_entry kind y queue) y e (push_local kind y queue l)
  enqueue_entries_complete kind y entries queue e l (behind {e = ok (k, oid)} {entries = rest} h) =
      enqueue_entries_complete kind y rest (push_entry k oid queue) e l h
  enqueue_entries_complete kind y entries queue e l (behind {e = err x} h) = absurd (cc e)

  references-IsRead : (view : View) → references view ≡ ok c → IsRead view
  unfolding enqueue_children
  references-IsRead (commit_view (ok root) parents) e = tt
  references-IsRead (commit_view (err x) parents) e = cc e
  references-IsRead (tree_view entries) e = enqueue_entries-AllRead entries [] e
  references-IsRead (tag_view (ok target)) e = tt
  references-IsRead (tag_view (err x)) e = cc e
  references-IsRead blob_view e = tt

  references_sound :
      (view : View) (y : Bytes) → references view ≡ ok c → has y c ≡ true → Refers view y
  unfolding enqueue_children
  references_sound (commit_view (ok root) parents) y e h =
      let its : has y (extend parents (root ∷ [])) ≡ true = ap (has_ok y) e ∙ h in
      elim (Bool-cases (has y parents)) [
        | inl parent ↦ commit_parent parent
        | inr no_parent ↦
            elim (has-cons root y [] (ground (arith, has-extend y parents (root ∷ [])))) [
              | inl is ↦ subst (Refers (commit_view (ok root) parents)) is commit_tree
              | inr nothing ↦ absurd (cc nothing)
            ]
      ]
  references_sound (commit_view (err x) parents) y e h = absurd (cc e)
  references_sound (tree_view entries) y e h = elim (enqueue_entries_sound entries [] y e h) [
    | inl none_yet ↦ absurd (cc none_yet)
    | inr (kind, l, found) ↦ tree_entry kind l found
  ]
  references_sound (tag_view (ok target)) y e h =
      elim (has-cons target y [] (ap (has_ok y) e ∙ h)) [
        | inl is ↦ subst (Refers (tag_view (ok target))) is tag_target
        | inr nothing ↦ absurd (cc nothing)
      ]
  references_sound (tag_view (err x)) y e h = absurd (cc e)
  references_sound blob_view y e h = absurd (cc (ap (has_ok y) e ∙ h))

  references_complete :
      (view : View) (y : Bytes) → references view ≡ ok c → Refers view y → has y c ≡ true
  unfolding enqueue_children
  references_complete view y e (commit_tree {root} {parents}) =
      sym (ap (has_ok root) e)
      ∙ ground (arith, has-extend root parents (root ∷ []), has_first root [])
  references_complete view y e (commit_parent {root = ok root} {parents} h) =
      sym (ap (has_ok y) e) ∙ ground (arith, has-extend y parents (root ∷ []))
  references_complete view y e (commit_parent {root = err x} {parents} h) = absurd (cc e)
  references_complete view y e (tree_entry {entries} kind l h) =
      enqueue_entries_complete kind y entries [] e l h
  references_complete view y e tag_target = sym (ap (has_ok y) e) ∙ has_first y []

-- An object with references is read whole, and these are the ids that it refers to.
pub references-Refers :
    (view : View) (c : List Bytes)
    → references view ≡ ok c
    → IsRead view × ((y : Bytes) → (has y c ≡ true) ↔ Refers view y)
references-Refers view c e =
    (references-IsRead view e, λ y. (references_sound view y e, references_complete view y e))
