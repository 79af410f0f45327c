-- ===== src/Refs/Scan/Page.antt =====
-- What a page of references holds.
use fornacast.Prelude.{
  ℕ, zero, suc, ◌+◌, ◌*◌, ◌-◌, ◌≤◌, ◌≡◌, refl, sym, ap, ◌∙◌, subst, false, ◌&&◌, Option, some, List,
  [], ◌∷◌, ◌++◌, ok, ltb, leb, ◌==◌, if◌then◌else◌, arith, length, take, drop, min, append_assoc,
  append-nil,
}
use mathlib.Core.List.{map}
use fornacast.Prelude.Bytes.{Bytes}
use fornacast.Prelude.Word.{u64_max, saturating_add, saturating_mul, saturating_sub, clamp}
use fornacast.Native.Clock.{fail, Clock, OnTime, Gives}
use fornacast.Refs.Scan.{
  RefKind, same_kind, ScannedRef, RefStore, ref_page_limit, page_step, kind_of_text, page_number,
  scan_page, invalid_page, checked_page, ref_page,
}
use fornacast.Refs.Scan.Named.{direct, Direct, Direct-direct}
use fornacast.Refs.Scan.Visits.{found_pair, visits, scan_direct_refs_exact}

abbrev pub of_kind : RefKind → List ScannedRef → List ScannedRef
of_kind kind [] = []
of_kind kind (r ∷ refs) = if same_kind r.kind kind then r ∷ of_kind kind refs else of_kind kind refs

-- The elements whose places, counted from `i`, lie in the window.
abbrev window : ℕ → ℕ → ℕ → List ScannedRef → List ScannedRef
window start end i [] = []
window start end i (r ∷ refs) =
    if leb start i && ltb i end
    then r ∷ window start end (i + 1) refs
    else window start end (i + 1) refs

visits-page_step :
    (kind : RefKind) (start end : ℕ) (refs before : List ScannedRef) (i : ℕ)
    → visits (page_step kind start end) refs (before, i)
      ≡ (before ++ window start end i (of_kind kind refs), i + length (of_kind kind refs))
visits-page_step kind start end [] before i = ground (arith, append-nil before)
visits-page_step kind start end (r ∷ refs) before i = ground (
  arith,
  visits-page_step kind start end refs before i,
  visits-page_step kind start end refs before (i + 1),
  visits-page_step kind start end refs (before ++ r ∷ []) (i + 1),
  append_assoc before (r ∷ []) (window start end (i + 1) (of_kind kind refs)),
)

zero_plus : (n : ℕ) → 0 + n ≡ n
zero_plus n = omega arith

length-of_kind :
    (kind : RefKind) (pairs : List (Bytes × Option Bytes))
    → length (of_kind kind (direct pairs)) ≤ length pairs
length-of_kind kind [] = omega arith
length-of_kind kind ((name, target) ∷ pairs) = ground (arith, length-of_kind kind pairs)

window_saturated :
    (start end i : ℕ) (refs : List ScannedRef)
    → i + length refs ≤ u64_max
    → window start end i refs ≡ window (min start u64_max) (min end u64_max) i refs
window_saturated start end i [] h = refl
window_saturated start end i (r ∷ refs) h =
    ground (arith, window_saturated start end (i + 1) refs (omega arith))

window_past : (start end i : ℕ) (refs : List ScannedRef) → end ≤ i → window start end i refs ≡ []
window_past start end i [] h = refl
window_past start end i (r ∷ refs) h =
    ground (arith, window_past start end (i + 1) refs (omega arith))

window-take :
    (refs : List ScannedRef) (size start end i : ℕ)
    → start ≤ i
    → end ≡ i + size
    → window start end i refs ≡ take size refs
window-take [] zero start end i h k = refl
window-take [] (suc size) start end i h k = refl
window-take (r ∷ refs) zero start end i h k = window_past start end i (r ∷ refs) (omega arith)
window-take (r ∷ refs) (suc size) start end i h k =
    ground (arith, window-take refs size start end (i + 1) (omega arith) (omega arith))

window-slice :
    (refs : List ScannedRef) (gap size start end i : ℕ)
    → start ≡ i + gap
    → end ≡ start + size
    → window start end i refs ≡ take size (drop gap refs)
window-slice refs zero size start end i h k =
    window-take refs size start end i (omega arith) (omega arith)
window-slice [] (suc gap) zero start end i h k = refl
window-slice [] (suc gap) (suc size) start end i h k = refl
window-slice (r ∷ refs) (suc gap) size start end i h k =
    ground (arith, window-slice refs gap size start end (i + 1) (omega arith) (omega arith))

-- The entries of a page: those behind the earlier pages, up to the size of a page.
abbrev pub page_of : ℕ → ℕ → List ScannedRef → List ScannedRef
page_of page per_page refs =
    let size = clamp 1 ref_page_limit per_page in take size (drop ((page - 1) * size) refs)

visits-page :
    (kind : RefKind) (page per_page : ℕ) (refs : List ScannedRef)
    → length (of_kind kind refs) ≤ u64_max
    → let size = clamp 1 ref_page_limit per_page in
      let start = saturating_mul (saturating_sub page 1) size in
      visits (page_step kind start (saturating_add start size)) refs ([], 0)
      ≡ (page_of page per_page (of_kind kind refs), length (of_kind kind refs))
visits-page kind page per_page refs h =
    let size = clamp 1 ref_page_limit per_page in
    let start = (page - 1) * size in
    let l = of_kind kind refs in
    let bounds : min (min start u64_max + size) u64_max ≡ min (start + size) u64_max =
      omega arith in
    visits-page_step kind (min start u64_max) (min (min start u64_max + size) u64_max) refs [] 0
    ∙ ap (λ end. (window (min start u64_max) end 0 l, 0 + length l)) bounds
    ∙ ap (λ w. (w, 0 + length l)) (sym (window_saturated start (start + size) 0 l (omega arith)))
    ∙ λ i. (
      window-slice l start size start (start + size) 0 (omega arith) (omega arith) i,
      zero_plus (length l) i,
    )

ref_page-valid :
    (late : Clock) (store : RefStore) (kind page : Bytes) (per_page : ℕ) (k : RefKind)
    → kind_of_text kind ≡ some k
    → 1 ≤ page_number page
    → ref_page late store kind page per_page ≡ scan_page late store k (page_number page) per_page
unfolding ref_page
ref_page-valid late store kind page per_page k e h =
    let positive : (page_number page == 0) ≡ false = ground arith in
    ap (λ o. checked_page late store o (page_number page) per_page) e
    ∙ ap (λ b. if b then fail invalid_page else scan_page late store k (page_number page) per_page)
        positive

-- A page of references, asked for in time with a valid kind and number of a page, of a repository
-- that opens and of which all references, at most 2^64 - 1, can be read: the answer is that page of
-- the references of the kind that are not symbolic, and their number.
pub ref_page_exact :
    (late : Clock) (store : RefStore) (kind page : Bytes) (per_page n : ℕ) (k : RefKind)
    (pairs : List (Bytes × Option Bytes)) (refs : List ScannedRef)
    → OnTime late
    → store.opened ≡ ok tt
    → store.references ≡ ok (map found_pair pairs)
    → Direct pairs refs
    → length pairs ≤ u64_max
    → kind_of_text kind ≡ some k
    → 1 ≤ page_number page
    → Gives
        (ref_page late store kind page per_page n)
        (page_of (page_number page) per_page (of_kind k refs), length (of_kind k refs))
ref_page_exact late store kind page per_page n k pairs refs on_time opened listed these bound valid
      positive =
    let size = clamp 1 ref_page_limit per_page in
    let start = saturating_mul (saturating_sub (page_number page) 1) size in
    let visit = page_step k start (saturating_add start size) in
    let fits : length (of_kind k refs) ≤ u64_max =
      subst (λ l. length (of_kind k l) ≤ u64_max) (sym (Direct-direct these))
        (omega (arith, length-of_kind k pairs)) in
    let answer : List ScannedRef × ℕ =
      (page_of (page_number page) per_page (of_kind k refs), length (of_kind k refs)) in
    let scan = scan_direct_refs_exact late visit store ([], 0) n answer on_time in
    let visited = visits-page k (page_number page) per_page refs fits in
    subst (λ f. Gives (f n) answer)
      (sym (ref_page-valid late store kind page per_page k valid positive))
      (scan.1 (pairs, refs, opened, listed, these, sym visited))
