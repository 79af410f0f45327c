-- ===== src/Tree/Batches.antt =====
-- About `next_raw_name_batch`: the listing of a kind of entries in the order of their names.
use Prim.Native.Nat.{Ordering}
use fornacast.Prelude.{
  ℕ, ◌≡◌, ◌≢◌, ◌⊎◌, inl, inr, refl, sym, ap, ◌∙◌, subst, Bool, true, false, ◌&&◌, ◌==◌, Option,
  none, some, List, [], ◌∷◌, ok, ◌>>=◌, if◌then◌else◌, take, All, All-imply, arith, Bool-cases,
}
use mathlib.Core.List.{map}
use fornacast.Prelude.Bytes.{Bytes, cmp}
use fornacast.Native.Clock.{Clock, OnTime, Gives}
use fornacast.Tree.Entries.{RawEntry, entry, Previous}
use fornacast.Tree.Order.{sort_key, cmp_refl, cmp-eq, cmp_trans, cmp_flip, Ordering-cases}
use fornacast.Tree.Canonical.{Canonical, After, seen, fold_entries, pass_exact}
use fornacast.Tree.Pass.{
  BTreeMap, insert, DirectTreeEntry, retain, direct_entry, past, same_bool, batch_step,
  next_raw_name_batch,
}
use fornacast.Tree.Retain.{
  Keys, Sorted, Fresh, insert-lt, insert-eq, insert-gt, retain-take, take-nil,
}

abbrev chosen : Bool → Option Bytes → RawEntry → Bool
chosen directories cursor e = same_bool e.is_tree directories && past cursor e.filename

-- All entries of the kind behind the cursor, put in the order of their names.
pub listing :
    Bool → Option Bytes → List RawEntry → BTreeMap DirectTreeEntry → BTreeMap DirectTreeEntry
listing directories cursor [] m = m
listing directories cursor (e ∷ es) m =
    listing directories cursor es
      (if chosen directories cursor e then insert e.filename (direct_entry e) m else m)

-- gix reads the kind off the mode.
abbrev pub Agree : List RawEntry → Type 0
Agree = All (λ e. e.is_tree ≡ (e.mode == 0o040000))

-- A key of the kind is not behind the entry before: it stands before it, or is its own.
abbrev NotBehind : Bool → Previous → Bytes → Type 0
NotBehind d none k = true ≡ false
NotBehind d (some (name, t)) k =
    (cmp (sort_key k d) (sort_key name t) ≡ Ordering.lt) ⊎ ((k ≡ name) × (d ≡ t))

insert-Keys :
    (P : Bytes → Type 0) (k : Bytes) (v : DirectTreeEntry) (m : BTreeMap DirectTreeEntry)
    → P k
    → Keys P m
    → Keys P (insert k v m)
insert-Keys P k v [] p h = unfold insert in (p, tt)
insert-Keys P k v ((k', v') ∷ m) p h = elim (Ordering-cases (cmp k k')) [
  | inl e ↦ subst (Keys P) (sym (insert-lt k v k' v' m e)) (p, h)
  | inr (inl e) ↦ subst (Keys P) (sym (insert-eq k v k' v' m e)) h
  | inr (inr e) ↦ subst (Keys P) (sym (insert-gt k v k' v' m e)) (h.0, insert-Keys P k v m p h.1)
]

insert-Sorted :
    (k : Bytes) (v : DirectTreeEntry) (m : BTreeMap DirectTreeEntry)
    → Sorted m
    → Fresh k m
    → Sorted (insert k v m)
insert-Sorted k v [] s f = unfold insert in (tt, tt)
insert-Sorted k v ((k', v') ∷ m) s f = elim (Ordering-cases (cmp k k')) [
  | inl e ↦
      subst Sorted (sym (insert-lt k v k' v' m e))
        ((e, All-imply (λ b l. cmp_trans k k' b.0 e l) m s.0), s)
  | inr (inl e) ↦ absurd (f.0 e)
  | inr (inr e) ↦ subst Sorted (sym (insert-gt k v k' v' m e)) (
    insert-Keys (λ x. cmp k' x ≡ Ordering.lt) k v m (cmp_flip k k' e) s.0,
    insert-Sorted k v m s.1 f.1,
  )
]

-- What is before the last entry is before the next one, too.
next_behind :
    (d : Bool) (p : Previous) (e : RawEntry) (k : Bytes)
    → After p e.filename e.mode
    → NotBehind d p k
    → cmp (sort_key k d) (sort_key e.filename (e.mode == 0o040000)) ≡ Ordering.lt
next_behind d none e k a h = absurd (cc)
next_behind d (some (name, t)) e k a (inl l) =
    cmp_trans (sort_key k d) (sort_key name t) (sort_key e.filename (e.mode == 0o040000)) l a.1
next_behind d (some (name, t)) e k a (inr (same, kind)) =
    subst (λ x. cmp x (sort_key e.filename (e.mode == 0o040000)) ≡ Ordering.lt)
      (λ i. sort_key (sym same i) (sym kind i)) a.1

-- Of the same kind, that makes its name another.
next_fresh :
    (d : Bool) (k name : Bytes)
    → cmp (sort_key k d) (sort_key name d) ≡ Ordering.lt
    → cmp name k ≢ Ordering.eq
next_fresh d k name l e =
    let same : name ≡ k = cmp-eq name k e in
    let equal : cmp (sort_key k d) (sort_key k d) ≡ Ordering.lt =
      subst (λ x. cmp (sort_key k d) (sort_key x d) ≡ Ordering.lt) same l in
    let refl_eq = cmp_refl (sort_key k d) in absurd (cc)

chosen-kind :
    (d : Bool) (cursor : Option Bytes) (e : RawEntry) → chosen d cursor e ≡ true → e.is_tree ≡ d
chosen-kind d cursor e h = ground arith

module _ (d : Bool) (cursor : Option Bytes) (e : RawEntry) (es : List RawEntry) where
  listing-cons :
      (m : BTreeMap DirectTreeEntry) (c : Bool)
      → chosen d cursor e ≡ c
      → listing d cursor (e ∷ es) m
        ≡ listing d cursor es (if c then insert e.filename (direct_entry e) m else m)
  unfolding listing
  listing-cons m c h =
      ap (λ c. listing d cursor es (if c then insert e.filename (direct_entry e) m else m)) h

  fold-cons :
      (limit : ℕ) (m : BTreeMap DirectTreeEntry) (c : Bool)
      → chosen d cursor e ≡ c
      → fold_entries (batch_step d cursor limit) (e ∷ es) m
        ≡ fold_entries
            (batch_step d cursor limit)
            es
            (if c then retain limit e.filename (direct_entry e) m else m)
  unfolding fold_entries
  fold-cons limit m true h =
      ap
        (λ c.
          (if c then ok (retain limit e.filename (direct_entry e) m) else ok m)
          >>= fold_entries (batch_step d cursor limit) es)
        h
  fold-cons limit m false h =
      ap
        (λ c.
          (if c then ok (retain limit e.filename (direct_entry e) m) else ok m)
          >>= fold_entries (batch_step d cursor limit) es)
        h

batch_fold :
    (d : Bool) (cursor : Option Bytes) (limit : ℕ) (es : List RawEntry) (p : Previous)
    (m : BTreeMap DirectTreeEntry)
    → Canonical p es
    → Agree es
    → Sorted m
    → Keys (NotBehind d p) m
    → (fold_entries (batch_step d cursor limit) es (take limit m)
        ≡ ok (take limit (listing d cursor es m)))
      × Sorted (listing d cursor es m)
batch_fold d cursor limit [] p m c g s b = unfold fold_entries listing in (refl, s)
batch_fold d cursor limit (e ∷ es) p m (fine, c) (agree, g) s b =
    let before = All-imply (λ x h. next_behind d p e x.0 fine.2 h) m b in
    elim (Bool-cases (chosen d cursor e)) [
      | inr skipped ↦
          let (fold, sorted) =
            batch_fold d cursor limit es (seen e) m c g s (All-imply (λ x h. inl h) m before) in
          let same = listing-cons d cursor e es m false skipped in
          (
            fold-cons d cursor e es limit (take limit m) false skipped
                ∙ fold
                ∙ ap (λ l. ok (take limit l)) (sym same),
            subst Sorted (sym same) sorted,
          )
      | inl taken ↦
          let kind : d ≡ (e.mode == 0o040000) = sym (chosen-kind d cursor e taken) ∙ agree in
          let fresh : Fresh e.filename m =
            All-imply
              (λ x h. next_fresh d x.0 e.filename (
                subst (λ t. cmp (sort_key x.0 d) (sort_key e.filename t) ≡ Ordering.lt) (sym kind)
                  h))
              m before in
          let m' = insert e.filename (direct_entry e) m in
          let b' =
            insert-Keys (NotBehind d (seen e)) e.filename (direct_entry e) m (inr (refl, kind))
              (All-imply (λ x h. inl h) m before) in
          let (fold, sorted) =
            batch_fold d cursor limit es (seen e) m' c g
              (insert-Sorted e.filename (direct_entry e) m s fresh) b' in
          let same = listing-cons d cursor e es m true taken in
          (
            fold-cons d cursor e es limit (take limit m) true taken
                ∙ ap (fold_entries (batch_step d cursor limit) es)
                    (retain-take limit e.filename (direct_entry e) m s fresh)
                ∙ fold
                ∙ ap (λ l. ok (take limit l)) (sym same),
            subst Sorted (sym same) sorted,
          )
    ]

-- A batch that is read in time from a canonical tree is the beginning, up to the limit, of the
-- entries of the kind behind the cursor, in the order of their names, all of which differ.
pub next_raw_name_batch_exact :
    (late : Clock) (es : List RawEntry) (d : Bool) (cursor : Option Bytes) (limit n : ℕ)
    → OnTime late
    → Canonical none es
    → Agree es
    → Gives
        (next_raw_name_batch late (map entry es) d cursor limit n)
        (take limit (listing d cursor es []))
      × Sorted (listing d cursor es [])
unfolding next_raw_name_batch
next_raw_name_batch_exact late es d cursor limit n on_time canonical agree =
    let (fold, sorted) = batch_fold d cursor limit es none [] canonical agree tt tt in
    let from_nothing : fold_entries (batch_step d cursor limit) es []
        ≡ ok (take limit (listing d cursor es [])) =
      ap (fold_entries (batch_step d cursor limit) es) (sym (take-nil limit)) ∙ fold in
    let exact =
      pass_exact late (batch_step d cursor limit) (map entry es) [] n
        (take limit (listing d cursor es [])) on_time in
    (exact.1 (es, refl, canonical, from_nothing), sorted)
