-- ===== src/Tree/Retain.antt =====
-- About the rule by which `next_raw_name_batch` keeps an entry, on batches in order.
use Prim.Native.Nat.{Ordering}
use fornacast.Prelude.{
  ℕ, zero, suc, ◌≤◌, ◌<◌, ◌≡◌, ◌≢◌, refl, sym, ap, ◌∙◌, true, [], ◌∷◌, length, take, All, All-take,
  All-imply, arith, dec_lt, length-take, inl, inr,
}
use fornacast.Prelude.Bytes.{Bytes, cmp}
use fornacast.Tree.Order.{cmp_trans, Ordering-cases}
use fornacast.Tree.Pass.{BTreeMap, insert, last_key, pop_last, DirectTreeEntry, below_last, retain}

abbrev Batch : Type 0
Batch = BTreeMap DirectTreeEntry

abbrev pub Keys : (Bytes → Type 0) → Batch → Type 0
Keys P = All (λ b. P b.0)

abbrev pub Sorted : Batch → Type 0
Sorted [] = Unit
Sorted ((k, v) ∷ m) = Keys (λ k'. cmp k k' ≡ Ordering.lt) m × Sorted m

abbrev pub Fresh : Bytes → Batch → Type 0
Fresh k = Keys (λ k'. cmp k k' ≢ Ordering.eq)

take_all : (n : ℕ) (m : Batch) → length m ≤ n → take n m ≡ m
take_all zero [] h = refl
take_all zero (x ∷ m) h = absurd (omega arith)
take_all (suc n) [] h = refl
take_all (suc n) (x ∷ m) h = ap (λ l. x ∷ l) (take_all n m (omega arith))

pop_last-take : (n : ℕ) (m : Batch) → n < length m → pop_last (take (suc n) m) ≡ take n m
unfolding pop_last
pop_last-take n [] h = absurd (omega arith)
pop_last-take zero (x ∷ m) h = refl
pop_last-take (suc n) (x ∷ []) h = absurd (omega arith)
pop_last-take (suc n) (x ∷ y ∷ m) h = ap (λ l. x ∷ l) (pop_last-take n (y ∷ m) (omega arith))

below_last-All :
    (k k' : Bytes) (v' : DirectTreeEntry) (m : Batch)
    → cmp k k' ≡ Ordering.lt
    → Keys (λ x. cmp k x ≡ Ordering.lt) m
    → below_last k ((k', v') ∷ m) ≡ true
unfolding last_key
below_last-All k k' v' [] h a = ground arith
below_last-All k k' v' ((x, w) ∷ m) h a = below_last-All k x w m a.0 a.1

retain_behind :
    (n : ℕ) (k : Bytes) (v : DirectTreeEntry) (k' : Bytes) (v' : DirectTreeEntry) (b : Batch)
    → cmp k k' ≡ Ordering.gt
    → retain (suc n) k v ((k', v') ∷ b) ≡ (k', v') ∷ retain n k v b
unfolding insert last_key pop_last
retain_behind n k v k' v' [] h = ground arith
retain_behind n k v k' v' (x ∷ b) h = ground arith

insert_before :
    (n : ℕ) (k : Bytes) (v : DirectTreeEntry) (k' : Bytes) (v' : DirectTreeEntry) (m : Batch)
    → cmp k k' ≡ Ordering.lt
    → insert k v (take n ((k', v') ∷ m)) ≡ (k, v) ∷ take n ((k', v') ∷ m)
unfolding insert
insert_before zero k v k' v' m h = refl
insert_before (suc n) k v k' v' m h = ground arith

retain_room :
    (limit : ℕ) (k : Bytes) (v : DirectTreeEntry) (b : Batch)
    → length b < limit
    → retain limit k v b ≡ insert k v b
retain_room limit k v b h = ground arith

retain_full :
    (limit : ℕ) (k : Bytes) (v : DirectTreeEntry) (b : Batch)
    → length b ≡ limit
    → below_last k b ≡ true
    → retain limit k v b ≡ insert k v (pop_last b)
retain_full limit k v b h e = ground arith

retain_before :
    (n : ℕ) (k : Bytes) (v : DirectTreeEntry) (k' : Bytes) (v' : DirectTreeEntry) (m : Batch)
    → cmp k k' ≡ Ordering.lt
    → Keys (λ x. cmp k' x ≡ Ordering.lt) m
    → retain (suc n) k v (take (suc n) ((k', v') ∷ m)) ≡ (k, v) ∷ take n ((k', v') ∷ m)
retain_before n k v k' v' m h a = elim (dec_lt (length m) n) [
  | yes room ↦
      let whole = take_all (suc n) ((k', v') ∷ m) (omega arith) in
      let short = take_all n ((k', v') ∷ m) (omega arith) in
      let fits : length (take (suc n) ((k', v') ∷ m)) < suc n =
        omega (arith, length-take (suc n) ((k', v') ∷ m)) in
      retain_room (suc n) k v (take (suc n) ((k', v') ∷ m)) fits
      ∙ insert_before (suc n) k v k' v' m h
      ∙ ap (λ l. (k, v) ∷ l) (whole ∙ sym short)
  | no full ↦
      let size : length (take (suc n) ((k', v') ∷ m)) ≡ suc n =
        omega (arith, length-take (suc n) ((k', v') ∷ m)) in
      let above = All-imply (λ b e. cmp_trans k k' b.0 h e) m a in
      let lower =
        below_last-All k k' v' (take n m) h (All-take (λ b. cmp k b.0 ≡ Ordering.lt) n m above) in
      retain_full (suc n) k v (take (suc n) ((k', v') ∷ m)) size lower
      ∙ ap (insert k v) (pop_last-take n ((k', v') ∷ m) (omega arith))
      ∙ insert_before n k v k' v' m h
]

pub take-nil : (n : ℕ) → ◌≡◌ {A = Batch} (take n []) []
take-nil zero = refl
take-nil (suc n) = refl

retain_zero : (k : Bytes) (v : DirectTreeEntry) (m : Batch) → retain 0 k v (take 0 m) ≡ []
unfolding last_key
retain_zero k v m = refl

pub insert-lt :
    (k : Bytes) (v : DirectTreeEntry) (k' : Bytes) (v' : DirectTreeEntry) (m : Batch)
    → cmp k k' ≡ Ordering.lt
    → insert k v ((k', v') ∷ m) ≡ (k, v) ∷ (k', v') ∷ m
unfolding insert
insert-lt k v k' v' m e = ground arith

pub insert-eq :
    (k : Bytes) (v : DirectTreeEntry) (k' : Bytes) (v' : DirectTreeEntry) (m : Batch)
    → cmp k k' ≡ Ordering.eq
    → insert k v ((k', v') ∷ m) ≡ (k', v) ∷ m
unfolding insert
insert-eq k v k' v' m e = ground arith

pub insert-gt :
    (k : Bytes) (v : DirectTreeEntry) (k' : Bytes) (v' : DirectTreeEntry) (m : Batch)
    → cmp k k' ≡ Ordering.gt
    → insert k v ((k', v') ∷ m) ≡ (k', v') ∷ insert k v m
unfolding insert
insert-gt k v k' v' m e = ground arith

-- To keep a batch within its limit at every entry is to keep its beginning in the end.
pub retain-take :
    (limit : ℕ) (k : Bytes) (v : DirectTreeEntry) (m : Batch)
    → Sorted m
    → Fresh k m
    → retain limit k v (take limit m) ≡ take limit (insert k v m)
retain-take zero k v m s f = retain_zero k v m
retain-take (suc n) k v [] s f = unfold insert in ground (arith, take-nil n)
retain-take (suc n) k v ((k', v') ∷ m) s f = elim (Ordering-cases (cmp k k')) [
  | inl e ↦ retain_before n k v k' v' m e s.0 ∙ ap (take (suc n)) (sym (insert-lt k v k' v' m e))
  | inr (inl e) ↦ absurd (f.0 e)
  | inr (inr e) ↦
      retain_behind n k v k' v' (take n m) e
      ∙ ap (λ l. (k', v') ∷ l) (retain-take n k v m s.1 f.1)
      ∙ ap (take (suc n)) (sym (insert-gt k v k' v' m e))
]
