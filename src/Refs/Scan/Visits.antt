-- ===== src/Refs/Scan/Visits.antt =====
-- What a scan visits.
use fornacast.Prelude.{ℕ, ◌+◌, ◌≡◌, ◌↔◌, refl, sym, ap, ◌∙◌, Option, List, [], ◌∷◌, ok, arith}
use mathlib.Core.List.{map}
use fornacast.Prelude.Bytes.{Bytes}
use fornacast.Native.Clock as Clock
use fornacast.Native.Clock.{Clock, OnTime, Gives}
use fornacast.Refs.Scan.Named.{direct, Direct, direct-Direct, Direct-direct}
use fornacast.Refs.Scan.{
  ScannedRef, RefItem, found, broken, RefStore, check_ref_deadline, scanned, visit_some, for_refs,
  scan_direct_refs,
}

abbrev pub found_pair : Bytes × Option Bytes → RefItem
found_pair (name, target) = found name target

abbrev pub visits : {S : Type 0} → (ScannedRef → S → S) → List ScannedRef → S → S
visits visit [] s = s
visits visit (reference ∷ refs) s = visits visit refs (visit reference s)

-- A state comes from the direct references that a store lists.
abbrev pub Scans : {S : Type 0} → RefStore → (ScannedRef → S → S) → S → S → Type 0
Scans store visit s s' =
    (pairs : List (Bytes × Option Bytes)) × (refs : List ScannedRef) × (store.opened ≡ ok tt)
    × (store.references ≡ ok (map found_pair pairs))
    × Direct pairs refs
    × (s' ≡ visits visit refs s)

module _ {S : Type 0} (late : Clock) (visit : ScannedRef → S → S) where
  visits-direct :
      (name : Bytes) (target : Option Bytes) (pairs : List (Bytes × Option Bytes)) (s : S)
      → visits visit (direct pairs) (visit_some visit (scanned name target) s)
        ≡ visits visit (direct ((name, target) ∷ pairs)) s
  visits-direct name target pairs s = ground arith

  for_refs_sound :
      (items : List RefItem) (s : S) (n : ℕ) {s' : S} {k : ℕ}
      → for_refs late visit items s n ≡ ok (s', k)
      → (pairs : List (Bytes × Option Bytes)) × (items ≡ map found_pair pairs)
        × (s' ≡ visits visit (direct pairs) s)
  unfolding for_refs
  for_refs_sound [] s n h = ([], refl, cc)
  for_refs_sound (broken ∷ items) s n h =
      let (_, n1, _, h1) = Clock.>>=-eq-ok (check_ref_deadline late) _ n h in absurd (cc)
  for_refs_sound (found name target ∷ items) s n h =
      let (_, n1, _, h1) = Clock.>>=-eq-ok (check_ref_deadline late) _ n h in
      let (pairs, is, result) =
        for_refs_sound items (visit_some visit (scanned name target) s) n1 h1 in
      (
        (name, target) ∷ pairs,
        ap (λ l. found name target ∷ l) is,
        result ∙ visits-direct name target pairs s,
      )

  in_time : (n : ℕ) → OnTime late → check_ref_deadline late n ≡ ok (tt, n + 1)
  unfolding check_ref_deadline
  in_time n on_time = Clock.check_deadline-ok late _ n (on_time n)

  for_refs_complete :
      (pairs : List (Bytes × Option Bytes)) (s : S) (n : ℕ)
      → OnTime late
      → Gives (for_refs late visit (map found_pair pairs) s n) (visits visit (direct pairs) s)
  unfolding for_refs
  for_refs_complete [] s n on_time = (n, refl)
  for_refs_complete ((name, target) ∷ pairs) s n on_time =
      let (k, e) =
        for_refs_complete pairs (visit_some visit (scanned name target) s) (n + 1) on_time in
      (
        k,
        Clock.bind-ok (check_ref_deadline late) _ n (in_time n on_time)
            ∙ e
            ∙ ap (λ s. ok (s, k)) (visits-direct name target pairs s),
      )

  -- A scan in time succeeds exactly when the repository opens and all its references can be read. In
  -- their order, it visits those that are not symbolic and have names under refs/heads/, as branches,
  -- or under refs/tags/, as tags, each with its target, and no others.
  pub scan_direct_refs_exact :
      (store : RefStore) (s : S) (n : ℕ) (s' : S)
      → OnTime late
      → Gives (scan_direct_refs late store visit s n) s' ↔ Scans store visit s s'
  unfolding scan_direct_refs
  scan_direct_refs_exact store s n s' on_time = (to, from)
    where
      to : Gives (scan_direct_refs late store visit s n) s' → Scans store visit s s'
      to (k, e) =
          let (_, n1, o, e1) = Clock.>>=-eq-ok (Clock.lift store.opened) _ n e in
          let (_, n2, _, e2) = Clock.>>=-eq-ok (check_ref_deadline late) _ n1 e1 in
          let (items, n3, r, e3) = Clock.>>=-eq-ok (Clock.lift store.references) _ n2 e2 in
          let (s1, n4, f, e4) = Clock.>>=-eq-ok (for_refs late visit items s) _ n3 e3 in
          let (_, n5, _, e5) = Clock.>>=-eq-ok (check_ref_deadline late) _ n4 e4 in
          let (pairs, is, result) = for_refs_sound items s n3 f in
          let same : s1 ≡ s' = cc in
          (
            pairs,
            direct pairs,
            (Clock.lift-eq-ok store.opened n o).0,
            (Clock.lift-eq-ok store.references n2 r).0 ∙ ap ok is,
            direct-Direct pairs,
            sym same ∙ result,
          )

      from : Scans store visit s s' → Gives (scan_direct_refs late store visit s n) s'
      from (pairs, refs, opened, listed, these, result) =
          let (k, e) = for_refs_complete pairs s (n + 1) on_time in
          (
            k + 1,
            Clock.bind-ok (Clock.lift store.opened) _ n (Clock.lift-ok store.opened n opened)
                ∙ Clock.bind-ok (check_ref_deadline late) _ n (in_time n on_time)
                ∙ Clock.bind-ok (Clock.lift store.references) _ (n + 1)
                    (Clock.lift-ok store.references (n + 1) listed)
                ∙ Clock.bind-ok (for_refs late visit (map found_pair pairs) s) _ (n + 1) e
                ∙ Clock.bind-ok (check_ref_deadline late) _ k (in_time k on_time)
                ∙ ap (λ s. ok (s, k + 1))
                    (sym (result ∙ ap (λ r. visits visit r s) (Direct-direct these))),
          )
