-- ===== src/Refs/Route/Longest.antt =====
-- About `maybe_record_route_match` and `ref_summary_for_route`: the names that a route starts with.
use fornacast.Prelude.{
  ℕ, ◌+◌, ◌≤◌, ◌<◌, ◌≡◌, ◌⊎◌, inl, inr, refl, sym, ap, ◌∙◌, true, false, Option, none, some, List,
  [], ◌∷◌, ◌++◌, length, All, All-imply, arith, Option-cases, Bool-cases, subst,
}
use fornacast.Prelude.Bytes.{
  Bytes, codes, bytes_eq, bytes_eq_iff, strip_prefix, strip_prefix-append, strip_prefix-eq-some,
}
use fornacast.Refs.Scan.{RefKind, branch, tag, ScannedRef}
use fornacast.Refs.Scan.Visits.{visits}
use fornacast.Refs.Route.{
  RouteMatch, path_behind, replaces, record_path, maybe_record_route_match, RouteScan, no_match,
  short_name, legacy_match, route_step,
}

-- The route is the selector, or goes on behind it with a separator and the path.
abbrev pub Names : Bytes → Bytes → Bytes → Type 0
Names route selector path = ((route ≡ selector) × (path ≡ [])) ⊎ (route ≡ selector ++ b'/' ∷ path)

path_behind-Names :
    (route selector : Bytes) {path : Bytes}
    → path_behind route selector ≡ some path
    → Names route selector path
path_behind-Names route selector {path} h = elim (Bool-cases (bytes_eq route selector)) [
  | inl same ↦ inl ((bytes_eq_iff route selector).0 same, ground (arith, h, same))
  | inr other ↦ elim (Option-cases (strip_prefix selector route)) [
    | inl absent ↦ absurd (ground arith)
    | inr (suffix, e) ↦
        let f : strip_prefix (codes "/") suffix ≡ some path = ground arith in
        inr (
          strip_prefix-eq-some selector route e
          ∙ ap (λ s. selector ++ s) (strip_prefix-eq-some (codes "/") suffix f))
  ]
]

Names-path_behind :
    (route selector path : Bytes)
    → Names route selector path
    → path_behind route selector ≡ none
    → true ≡ false
Names-path_behind route selector path (inl (same, _)) h =
    ground (arith, bytes_eq_iff route selector)
Names-path_behind route selector path (inr behind) h = ground (
  arith,
  bytes_eq_iff route selector,
  strip_prefix-append selector (b'/' ∷ path),
  strip_prefix-append (codes "/") path,
  h,
  behind,
)

-- A name that is tried, and its reference.
abbrev pub Candidate : Type 0
Candidate = Bytes × ScannedRef

abbrev pub In : Candidate → List Candidate → Type 0
In c [] = true ≡ false
In c (x ∷ cs) = (c ≡ x) ⊎ In c cs

abbrev pub Longest : Bytes → List Candidate → Option RouteMatch → Type 0
Longest route cs none = All (λ c. (path : Bytes) → ¬ Names route c.0 path) cs
Longest route cs (some m) =
    Names route m.selector_full_name m.repository_path
    × In (m.selector_full_name, m.reference) cs
    × All (λ c. (path : Bytes) → Names route c.0 path → length c.0 ≤ length m.selector_full_name) cs

abbrev record_all : Bytes → List Candidate → Option RouteMatch → Option RouteMatch
record_all route [] m = m
record_all route ((selector, reference) ∷ cs) m =
    record_all route cs (maybe_record_route_match m route selector reference)

abbrev size : Option RouteMatch → ℕ
size none = 0
size (some m) = length m.selector_full_name + 1

record_path-size :
    (path : Option Bytes) (selector : Bytes) (reference : ScannedRef) (m : Option RouteMatch)
    → (size m ≤ size (record_path path selector reference m))
      × ((p : Bytes)
          → path ≡ some p
          → length selector < size (record_path path selector reference m))
record_path-size none selector reference m = (omega arith, λ p e. cc)
record_path-size (some q) selector reference none = (omega arith, λ p e. omega arith)
record_path-size (some q) selector reference (some m) = (ground arith, λ p e. ground arith)

record_all-size :
    (route : Bytes) (cs : List Candidate) (m : Option RouteMatch)
    → size m ≤ size (record_all route cs m)
unfolding maybe_record_route_match
record_all-size route [] m = omega arith
record_all-size route ((selector, reference) ∷ cs) m = omega (
  arith,
  (record_path-size (path_behind route selector) selector reference m).0,
  record_all-size route cs (maybe_record_route_match m route selector reference),
)

Names-some :
    (route selector path : Bytes)
    → Names route selector path
    → (p : Bytes) × (path_behind route selector ≡ some p)
Names-some route selector path h = elim (Option-cases (path_behind route selector)) [
  | inl e ↦ absurd (cc (Names-path_behind route selector path h e))
  | inr (p, e) ↦ (p, e)
]

record_all-All :
    (route : Bytes) (cs : List Candidate) (m : Option RouteMatch)
    → All
        (λ c. (path : Bytes) → Names route c.0 path → length c.0 < size (record_all route cs m))
        cs
unfolding maybe_record_route_match
record_all-All route [] m = tt
record_all-All route ((selector, reference) ∷ cs) m =
    let m1 = maybe_record_route_match m route selector reference in
    (
      λ path h.
          let (p, e) = Names-some route selector path h in
          omega (
            arith,
            (record_path-size (path_behind route selector) selector reference m).1 p e,
            record_all-size route cs m1,
          ),
      record_all-All route cs m1,
    )

record_path-origin :
    (path : Option Bytes) (selector : Bytes) (reference : ScannedRef) (before : Option RouteMatch)
    {m : RouteMatch}
    → record_path path selector reference before ≡ some m
    → (before ≡ some m)
      ⊎ ((path ≡ some m.repository_path)
          × (selector ≡ m.selector_full_name)
          × (reference ≡ m.reference))
record_path-origin none selector reference before h = inl h
record_path-origin (some q) selector reference before {m} h =
    elim (Bool-cases (replaces selector before)) [
      | inl new ↦ inr (ground arith, ground arith, ground arith)
      | inr old ↦ inl (ground arith)
    ]

record_all-origin :
    (route : Bytes) (cs : List Candidate) (before : Option RouteMatch) {m : RouteMatch}
    → record_all route cs before ≡ some m
    → (before ≡ some m)
      ⊎ (Names route m.selector_full_name m.repository_path
          × In (m.selector_full_name, m.reference) cs)
unfolding maybe_record_route_match
record_all-origin route [] before h = inl h
record_all-origin route ((selector, reference) ∷ cs) before {m} h =
    elim (record_all-origin route cs (maybe_record_route_match before route selector reference) h) [
      | inr (names, later) ↦ inr (names, inr later)
      | inl now ↦
          elim (record_path-origin (path_behind route selector) selector reference before now) [
            | inl old ↦ inl old
            | inr (e, s, r) ↦ inr (
              subst (λ x. Names route x m.repository_path) s (path_behind-Names route selector e),
              inl (λ i. (sym s i, sym r i)),
            )
          ]
    ]

abbrev kept_if : RefKind → RefKind → Candidate → List Candidate → List Candidate
kept_if branch branch c cs = c ∷ cs
kept_if branch tag c cs = cs
kept_if tag branch c cs = cs
kept_if tag tag c cs = c ∷ cs

-- The short names of the branches or of the tags.
abbrev pub candidates : RefKind → Bytes → List ScannedRef → List Candidate
candidates kind prefix [] = []
candidates kind prefix (r ∷ refs) =
    kept_if kind r.kind (short_name prefix r.name, r) (candidates kind prefix refs)

step-matches :
    (route : Bytes) (r : ScannedRef) (bs ts : List Candidate) (s : RouteScan)
    → let s' = route_step none route r s in
      (record_all route
          (kept_if branch r.kind (short_name (codes "refs/heads/") r.name, r) bs)
          s.branch_match
        ≡ record_all route bs s'.branch_match)
      × (record_all route
            (kept_if tag r.kind (short_name (codes "refs/tags/") r.name, r) ts)
            s.tag_match
          ≡ record_all route ts s'.tag_match)
unfolding route_step legacy_match
step-matches route r bs ts s = go r.kind refl
  where
    go :
        (k : RefKind)
        → r.kind ≡ k
        → let s' = route_step none route r s in
          (record_all route
              (kept_if branch r.kind (short_name (codes "refs/heads/") r.name, r) bs)
              s.branch_match
            ≡ record_all route bs s'.branch_match)
          × (record_all route
                (kept_if tag r.kind (short_name (codes "refs/tags/") r.name, r) ts)
                s.tag_match
              ≡ record_all route ts s'.tag_match)
    go branch e = rw e (refl, refl)
    go tag e = rw e (refl, refl)

visits-matches :
    (route : Bytes) (refs : List ScannedRef) (s : RouteScan)
    → let s' = visits (route_step none route) refs s in
      (s'.branch_match
        ≡ record_all route (candidates branch (codes "refs/heads/") refs) s.branch_match)
      × (s'.tag_match ≡ record_all route (candidates tag (codes "refs/tags/") refs) s.tag_match)
visits-matches route [] s = (refl, refl)
visits-matches route (r ∷ refs) s =
    let (b, t) = visits-matches route refs (route_step none route r s) in
    let bs = candidates branch (codes "refs/heads/") refs in
    let ts = candidates tag (codes "refs/tags/") refs in
    let (eb, et) = step-matches route r bs ts s in (b ∙ sym eb, t ∙ sym et)

record_all-Longest :
    (route : Bytes) (cs : List Candidate) → Longest route cs (record_all route cs none)
record_all-Longest route cs = go (record_all route cs none) refl
  where
    go : (m : Option RouteMatch) → record_all route cs none ≡ m → Longest route cs m
    go none e =
        All-imply
          (λ c h path names.
            let shorter : length c.0 < size none =
              subst (λ m. length c.0 < size m) e (h path names) in
            omega arith)
          cs (record_all-All route cs none)
    go (some m) e = elim (record_all-origin route cs none e) [
      | inl impossible ↦ absurd (cc)
      | inr (names, among) ↦ (
        names,
        among,
        All-imply
            (λ c h path names.
              let shorter : length c.0 < size (some m) =
                subst (λ m. length c.0 < size m) e (h path names) in
              omega arith)
            cs (record_all-All route cs none),
      )
    ]

-- A scan for a route that declares no kind picks, among the branches and among the tags, the
-- reference of the longest short name that the route starts with, at a separator or as a whole, and
-- takes what is behind it for the path; it picks none only if there is no such name.
pub route_step-Longest :
    (route : Bytes) (refs : List ScannedRef)
    → let s = visits (route_step none route) refs no_match in
      Longest route (candidates branch (codes "refs/heads/") refs) s.branch_match
      × Longest route (candidates tag (codes "refs/tags/") refs) s.tag_match
route_step-Longest route refs =
    let (b, t) = visits-matches route refs no_match in
    let bs = candidates branch (codes "refs/heads/") refs in
    let ts = candidates tag (codes "refs/tags/") refs in
    (
      subst (Longest route bs) (sym b) (record_all-Longest route bs),
      subst (Longest route ts) (sym t) (record_all-Longest route ts),
    )
