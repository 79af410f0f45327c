-- ===== src/Commits/Graph/Queue.antt =====
-- About the set of eligible commits, which is kept in the order of time and id.
use Prim.Native.Nat.{Ordering}
use fornacast.Prelude.{
  ◌≡◌, ◌⊎◌, ◌↔◌, inl, inr, refl, sym, ◌∙◌, subst, List, [], ◌∷◌, All, All-imply, arith,
}
use fornacast.Prelude.Int.{ℤ, pos, negsuc, cmp_int}
use fornacast.Tree.Order.{cmp-eq, cmp_refl, cmp_trans, cmp_flip}
use fornacast.Commits.Ordering.{Eligible, cmp_eligible, place, insert}

cmp_int-eq : (s t : ℤ) → cmp_int s t ≡ Ordering.eq → s ≡ t
cmp_int-eq (pos a) (pos b) h = ground arith
cmp_int-eq (pos a) (negsuc b) h = cc
cmp_int-eq (negsuc a) (pos b) h = cc
cmp_int-eq (negsuc a) (negsuc b) h = ground arith

cmp_int_trans :
    (r s t : ℤ) → cmp_int r s ≡ Ordering.lt → cmp_int s t ≡ Ordering.lt → cmp_int r t ≡ Ordering.lt
cmp_int_trans (pos a) (pos b) (pos c) h k = ground arith
cmp_int_trans (pos a) (pos b) (negsuc c) h k = cc
cmp_int_trans (pos a) (negsuc b) t h k = cc
cmp_int_trans (negsuc a) (pos b) (pos c) h k = refl
cmp_int_trans (negsuc a) (pos b) (negsuc c) h k = cc
cmp_int_trans (negsuc a) (negsuc b) (pos c) h k = refl
cmp_int_trans (negsuc a) (negsuc b) (negsuc c) h k = ground arith

cmp_int_flip : (s t : ℤ) → cmp_int s t ≡ Ordering.gt → cmp_int t s ≡ Ordering.lt
cmp_int_flip (pos a) (pos b) h = ground arith
cmp_int_flip (pos a) (negsuc b) h = refl
cmp_int_flip (negsuc a) (pos b) h = cc
cmp_int_flip (negsuc a) (negsuc b) h = ground arith

cmp_int_refl : (s t : ℤ) → s ≡ t → cmp_int s t ≡ Ordering.eq
cmp_int_refl (pos a) t h = subst (λ x. cmp_int (pos a) x ≡ Ordering.eq) h (ground arith)
cmp_int_refl (negsuc a) t h = subst (λ x. cmp_int (negsuc a) x ≡ Ordering.eq) h (ground arith)

abbrev pub Before : Eligible → Eligible → Type 0
Before e f = cmp_eligible e f ≡ Ordering.lt

cmp_eligible-eq : (e f : Eligible) → cmp_eligible e f ≡ Ordering.eq → e ≡ f
cmp_eligible-eq (s, x) (t, y) h = ground (arith, cmp_int-eq t s, cmp-eq x y)

cmp_eligible_flip : (e f : Eligible) → cmp_eligible e f ≡ Ordering.gt → Before f e
cmp_eligible_flip (s, x) (t, y) h =
    ground
      (arith, cmp_int-eq t s, cmp_int_refl t s, cmp_int_refl s t, cmp_int_flip t s, cmp_flip x y)

pub Before-trans : (e f g : Eligible) → Before e f → Before f g → Before e g
Before-trans (r, x) (s, y) (t, z) h k =
    ground (
      arith,
      cmp_int-eq s r,
      cmp_int-eq t s,
      cmp_int_refl t r,
      cmp_int_trans t s r,
      cmp_trans x y z,
    )

abbrev pub In : Eligible → List Eligible → Type 0
In e [] = ⊥
In e (f ∷ es) = (e ≡ f) ⊎ In e es

abbrev pub IsSorted : List Eligible → Type 0
IsSorted [] = Unit
IsSorted (e ∷ es) = All (Before e) es × IsSorted es

pub All-In : (P : Eligible → Type 0) (es : List Eligible) (e : Eligible) → All P es → In e es → P e
All-In P [] e a h = absurd h
All-In P (f ∷ es) e a (inl is) = subst P (sym is) a.0
All-In P (f ∷ es) e a (inr later) = All-In P es e a.1 later

module _ (P : Eligible → Type 0) (e : Eligible) (p : P e) where
  All-place :
      (o : Ordering) (f : Eligible) (es es' : List Eligible)
      → All P (f ∷ es)
      → All P es'
      → All P (place o e f es es')
  All-place Ordering.lt f es es' a a' = (p, a)
  All-place Ordering.eq f es es' a a' = a
  All-place Ordering.gt f es es' a a' = (a.0, a')

  pub All-insert : (es : List Eligible) → All P es → All P (insert e es)
  All-insert [] a = (p, tt)
  All-insert (f ∷ es) a = All-place (cmp_eligible e f) f es (insert e es) a (All-insert es a.1)

place-IsSorted :
    (e f : Eligible) (es : List Eligible) (o : Ordering)
    → cmp_eligible e f ≡ o
    → IsSorted (f ∷ es)
    → IsSorted (insert e es)
    → IsSorted (place o e f es (insert e es))
place-IsSorted e f es Ordering.lt h s s' =
    ((h, All-imply (λ g b. Before-trans e f g h b) es s.0), s)
place-IsSorted e f es Ordering.eq h s s' = s
place-IsSorted e f es Ordering.gt h s s' =
    (All-insert (Before f) e (cmp_eligible_flip e f h) es s.0, s')

pub insert-IsSorted : (e : Eligible) (es : List Eligible) → IsSorted es → IsSorted (insert e es)
insert-IsSorted e [] s = (tt, tt)
insert-IsSorted e (f ∷ es) s =
    place-IsSorted e f es (cmp_eligible e f) refl s (insert-IsSorted e es s.1)

In-place :
    (g e f : Eligible) (es es' : List Eligible) (o : Ordering)
    → cmp_eligible e f ≡ o
    → In g es' ↔ ((g ≡ e) ⊎ In g es)
    → In g (place o e f es es') ↔ ((g ≡ e) ⊎ In g (f ∷ es))
In-place g e f es es' Ordering.lt h i = (λ m. m, λ m. m)
In-place g e f es es' Ordering.eq h i =
    (inr, λ m. elim m [ inl is ↦ inl (is ∙ cmp_eligible-eq e f h) | inr later ↦ later ])
In-place g e f es es' Ordering.gt h i = ground arith

pub In-insert : (g e : Eligible) (es : List Eligible) → In g (insert e es) ↔ ((g ≡ e) ⊎ In g es)
In-insert g e [] = (λ h. h, λ h. h)
In-insert g e (f ∷ es) = In-place g e f es (insert e es) (cmp_eligible e f) refl (In-insert g e es)

pub Before-irrefl : (e : Eligible) → Before e e → ⊥
Before-irrefl (s, x) h = ground (arith, cmp_int_refl s s, cmp_refl x)
