-- ===== src/Tree/Order.antt =====
-- About `git_tree_entry_order`: the keys by which Git sorts entries, and the order of byte strings.
use Prim.Native.Nat.{Ordering, compare}
use fornacast.Prelude.{
  ◌⊎◌, inl, inr, ℕ, suc, min, Bool, true, false, ◌≡◌, refl, [], ◌∷◌, ◌++◌, length, arith,
}
use fornacast.Prelude.Bytes.{Bytes, contains, cmp}
use fornacast.Tree.Entries.{order_at, git_tree_entry_order}

abbrev pub sort_key : Bytes → Bool → Bytes
sort_key name true = name ++ b'/' ∷ []
sort_key name false = name

min-suc : (a b : ℕ) → min (suc a) (suc b) ≡ suc (min a b)
min-suc a b = omega arith

order_at-cons :
    (c x : ℕ) (l : Bytes) (lt : Bool) (y : ℕ) (r : Bytes) (rt : Bool)
    → order_at (suc c) (x ∷ l) lt (y ∷ r) rt ≡ elim (compare x y) [
      | Ordering.lt ↦ Ordering.lt
      | Ordering.eq ↦ order_at c l lt r rt
      | Ordering.gt ↦ Ordering.gt
    ]
order_at-cons c x l lt y r rt = ground arith

sort_key-cons : (x : ℕ) (name : Bytes) (t : Bool) → sort_key (x ∷ name) t ≡ x ∷ sort_key name t
sort_key-cons x name true = refl
sort_key-cons x name false = refl

-- On names without a separator, the order that the code computes is the byte order of the names
-- with the separator added to those of trees.
pub git_tree_entry_order_exact :
    (left : Bytes) (lt : Bool) (right : Bytes) (rt : Bool)
    → contains b'/' left ≡ false
    → contains b'/' right ≡ false
    → git_tree_entry_order left lt right rt ≡ cmp (sort_key left lt) (sort_key right rt)
unfolding git_tree_entry_order
git_tree_entry_order_exact [] lt [] rt h k = ground arith
git_tree_entry_order_exact [] lt (y ∷ right) rt h k = ground arith
git_tree_entry_order_exact (x ∷ left) lt [] rt h k = ground arith
git_tree_entry_order_exact (x ∷ left) lt (y ∷ right) rt h k =
    let c = min (length left) (length right) in
    let rest = git_tree_entry_order_exact left lt right rt (ground arith) (ground arith) in
    rw
      (
        min-suc (length left) (length right),
        order_at-cons c x left lt y right rt,
        sort_key-cons x left lt,
        sort_key-cons y right rt,
      )
      (ground (arith, rest))

pub cmp_refl : (a : Bytes) → cmp a a ≡ Ordering.eq
cmp_refl [] = refl
cmp_refl (x ∷ a) = ground (arith, cmp_refl a)

pub cmp-eq : (a b : Bytes) → cmp a b ≡ Ordering.eq → a ≡ b
cmp-eq [] [] h = refl
cmp-eq [] (y ∷ b) h = cc
cmp-eq (x ∷ a) [] h = cc
cmp-eq (x ∷ a) (y ∷ b) h = ground (arith, cmp-eq a b)

pub cmp_trans :
    (a b c : Bytes) → cmp a b ≡ Ordering.lt → cmp b c ≡ Ordering.lt → cmp a c ≡ Ordering.lt
cmp_trans [] [] c h k = cc
cmp_trans [] (y ∷ b) [] h k = cc
cmp_trans [] (y ∷ b) (z ∷ c) h k = refl
cmp_trans (x ∷ a) [] c h k = cc
cmp_trans (x ∷ a) (y ∷ b) [] h k = cc
cmp_trans (x ∷ a) (y ∷ b) (z ∷ c) h k = ground (arith, cmp_trans a b c)

pub cmp_flip : (a b : Bytes) → cmp a b ≡ Ordering.gt → cmp b a ≡ Ordering.lt
cmp_flip [] [] h = cc
cmp_flip [] (y ∷ b) h = cc
cmp_flip (x ∷ a) [] h = refl
cmp_flip (x ∷ a) (y ∷ b) h = ground (arith, cmp_flip a b)

pub Ordering-cases : (o : Ordering) → (o ≡ Ordering.lt) ⊎ ((o ≡ Ordering.eq) ⊎ (o ≡ Ordering.gt))
Ordering-cases Ordering.lt = inl refl
Ordering-cases Ordering.eq = inr (inl refl)
Ordering-cases Ordering.gt = inr (inr refl)
