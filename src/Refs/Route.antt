-- ===== src/Refs/Route.antt =====
-- The reference that a route names: `declared_route_kind`, `join_route_segments`,
-- `maybe_record_route_match` and `ref_summary_for_route`.
pub mod Longest
use fornacast.Prelude.{
  ℕ, Bool, true, false, not, ◌&&◌, ◌||◌, Option, none, some, String, List, [], ◌∷◌, ◌++◌, ok, err,
  ltb, if◌then◌else◌, length,
}
use fornacast.Prelude.Bytes.{Bytes, codes, bytes_eq, strip_prefix}
use fornacast.Native.{native_error}
use fornacast.Native.Clock.{Clock, Timed, pure, fail, ◌>>=◌, ◌>>◌}
use fornacast.Refs.Scan.{
  RefKind, branch, tag, same_kind, ScannedRef, RefStore, check_ref_deadline, scan_direct_refs,
}
use fornacast.Refs.Summary
use fornacast.Refs.Summary.{RefSummaryBuilder, RefSummary, record_ref}

unfoldable pub declared_route_kind : List Bytes → Option RefKind
declared_route_kind [] = none
declared_route_kind (refs ∷ []) = none
declared_route_kind (refs ∷ declared_kind ∷ rest) =
    if bytes_eq refs (codes "refs") && bytes_eq declared_kind (codes "heads")
    then some branch
    else if bytes_eq refs (codes "refs") && bytes_eq declared_kind (codes "tags")
    then some tag
    else none

unfoldable pub join_route_segments : List Bytes → Bytes
join_route_segments [] = []
join_route_segments (segment ∷ []) = segment
join_route_segments (segment ∷ next ∷ rest) = segment ++ b'/' ∷ join_route_segments (next ∷ rest)

pub record RouteMatch : Type 0 where
  pub reference : ScannedRef
  pub selector_full_name : Bytes
  pub repository_path : Bytes

-- The path behind the selector, if the route starts with it.
abbrev pub path_behind : Bytes → Bytes → Option Bytes
path_behind route_path selector =
    if bytes_eq route_path selector then some [] else elim (strip_prefix selector route_path) [
      | none ↦ none
      | some suffix ↦ strip_prefix (codes "/") suffix
    ]

abbrev pub replaces : Bytes → Option RouteMatch → Bool
replaces selector none = true
replaces selector (some current) = ltb (length current.selector_full_name) (length selector)

abbrev pub record_path : Option Bytes → Bytes → ScannedRef → Option RouteMatch → Option RouteMatch
record_path none selector reference matched = matched
record_path (some path) selector reference matched =
    if replaces selector matched
    then some
        (record { reference = reference; selector_full_name = selector; repository_path = path })
    else matched

unfoldable pub maybe_record_route_match :
    Option RouteMatch → Bytes → Bytes → ScannedRef → Option RouteMatch
maybe_record_route_match matched route_path selector reference =
    record_path (path_behind route_path selector) selector reference matched

-- What the closure of `ref_summary_for_route` changes.
pub record RouteScan : Type 0 where
  pub summary : RefSummaryBuilder
  pub canonical_match : Option RouteMatch
  pub branch_match : Option RouteMatch
  pub tag_match : Option RouteMatch

abbrev pub no_match : RouteScan
no_match = record {
  summary = Summary.new;
  canonical_match = none;
  branch_match = none;
  tag_match = none;
}

-- The prefix is there, by the kind; where the code would panic the name is kept whole.
abbrev pub short_name : Bytes → Bytes → Bytes
short_name prefix name = elim (strip_prefix prefix name) [ none ↦ name | some short ↦ short ]

unfoldable pub legacy_match : Bytes → ScannedRef → RouteScan → RouteScan
legacy_match route_path reference s = elim reference.kind [
  | branch ↦ record s {
    branch_match =
        maybe_record_route_match s.branch_match route_path
          (short_name (codes "refs/heads/") reference.name) reference;
  }
  | tag ↦ record s {
    tag_match =
        maybe_record_route_match s.tag_match route_path
          (short_name (codes "refs/tags/") reference.name) reference;
  }
]

unfoldable pub route_step : Option RefKind → Bytes → ScannedRef → RouteScan → RouteScan
route_step declared_kind route_path reference before =
    let s = record before { summary = record_ref reference before.summary } in
    elim declared_kind [
      | none ↦ legacy_match route_path reference s
      | some kind ↦
          if same_kind kind reference.kind
          then record s {
            canonical_match =
                maybe_record_route_match s.canonical_match route_path reference.name reference;
          }
          else s
    ]

abbrev pub or_else : Option RouteMatch → Option RouteMatch → Option RouteMatch
or_else (some m) other = some m
or_else none other = other

abbrev pub kind_text : RefKind → String
kind_text branch = "branch"
kind_text tag = "tag"

abbrev pub selected_match : Option RefKind → RouteScan → String × Option RouteMatch
selected_match (some kind) s = (kind_text kind, s.canonical_match)
selected_match none s = ("legacy", or_else s.branch_match s.tag_match)

-- The summary, the kind of the selector, its full name and the path in the repository.
unfoldable pub ref_summary_for_route :
    Clock → RefStore → List Bytes → Timed (RefSummary × String × Bytes × Bytes)
ref_summary_for_route late store route_segments = do
  let route_path = join_route_segments route_segments
  check_ref_deadline late
  let declared_kind = declared_route_kind route_segments
  s ← scan_direct_refs late store (route_step declared_kind route_path) no_match
  let (selector_kind, matched) = selected_match declared_kind s
  elim matched [
    | none ↦ fail (native_error "ref_not_found" "route does not contain an existing ref")
    | some m ↦ pure (
      Summary.finish s.summary (some m.reference),
      selector_kind,
      m.selector_full_name,
      m.repository_path,
    )
  ]
