-- ===== src/Refs/Scan.antt =====
-- The scan over all direct branches and tags, and a page of them: `ref_kind_bytes`,
-- `scan_direct_refs` and `ref_page`. The references come from gix in the order of their names.
pub mod Named
pub mod Visits
pub mod Page
use fornacast.Prelude.{
  ℕ, ◌+◌, ◌*◌, ◌-◌, Bool, true, false, not, ◌&&◌, ◌||◌, Option, none, some, List, [], ◌∷◌, ◌++◌, ok,
  err, ltb, leb, ◌==◌, if◌then◌else◌,
}
use fornacast.Prelude.Bytes.{Bytes, codes, bytes_eq, starts_with, is_ascii_digit}
use fornacast.Prelude.Word.{u64_mod, u64_max, saturating_add, saturating_mul, saturating_sub, clamp}
use fornacast.Native.{NativeError, NativeResult, native_error}
use fornacast.Native.Clock.{Clock, Timed, pure, fail, lift, check_deadline, ◌>>=◌, ◌>>◌}

abbrev pub ref_sample_limit : ℕ
ref_sample_limit = 100

abbrev pub ref_page_limit : ℕ
ref_page_limit = 100

-- The texts "branch" and "tag".
pub data RefKind : Type 0 where
  branch tag : RefKind

abbrev pub same_kind : RefKind → RefKind → Bool
same_kind branch branch = true
same_kind branch tag = false
same_kind tag branch = false
same_kind tag tag = true

unfoldable pub ref_kind_bytes : Bytes → Option RefKind
ref_kind_bytes name =
    if starts_with (codes "refs/heads/") name
    then some branch
    else if starts_with (codes "refs/tags/") name
    then some tag
    else none

pub record ScannedRef : Type 0 where
  pub name : Bytes
  pub kind : RefKind
  pub target : Bytes

-- What gix gives for a reference: its name, and its target unless it is symbolic.
pub data RefItem : Type 0 where
  found : Bytes → Option Bytes → RefItem
  broken : RefItem

-- The repository as far as it is read here: whether it opens, and its references.
pub record RefStore : Type 0 where
  pub opened : NativeResult (Unit {0})
  pub references : NativeResult (List RefItem)

unfoldable pub check_ref_deadline : Clock → Timed (Unit {0})
check_ref_deadline late =
    check_deadline late
      (native_error "scan_timeout" "reference scan exceeded the five-second deadline")

-- The reference that is visited for an item, if any.
abbrev pub scanned : Bytes → Option Bytes → Option ScannedRef
scanned name target = elim (ref_kind_bytes name) [
  | none ↦ none
  | some kind ↦ elim target [
    | none ↦ none
    | some t ↦ some (record { name = name; kind = kind; target = t })
  ]
]

abbrev pub visit_some : {S : Type 0} → (ScannedRef → S → S) → Option ScannedRef → S → S
visit_some visit none s = s
visit_some visit (some reference) s = visit reference s

abbrev pub corrupt_reference : NativeError
corrupt_reference = native_error "corrupt_repository" "reference could not be read"

unfoldable pub for_refs : {S : Type 0} → Clock → (ScannedRef → S → S) → List RefItem → S → Timed S
for_refs late visit [] s = pure s
for_refs late visit (broken ∷ items) s = do check_ref_deadline late; fail corrupt_reference
for_refs late visit (found name target ∷ items) s = do
  check_ref_deadline late
  for_refs late visit items (visit_some visit (scanned name target) s)

-- The state is what the closure `visit` changes.
unfoldable pub scan_direct_refs :
    {S : Type 0} → Clock → RefStore → (ScannedRef → S → S) → S → Timed S
scan_direct_refs late store visit s = do
  lift store.opened
  check_ref_deadline late
  items ← lift store.references
  s' ← for_refs late visit items s
  check_ref_deadline late
  pure s'

-- `str::parse::<usize>()`
abbrev pub parse_digits : ℕ → Bytes → Option ℕ
parse_digits value [] = some value
parse_digits value (b ∷ digits) =
    let next = value * 10 + (b - b'0') in
    if is_ascii_digit b && ltb next u64_mod then parse_digits next digits else none

abbrev pub parse_usize : Bytes → Option ℕ
parse_usize [] = none
parse_usize (b ∷ []) = if b == b'+' then none else parse_digits 0 (b ∷ [])
parse_usize (b ∷ c ∷ digits) =
    if b == b'+' then parse_digits 0 (c ∷ digits) else parse_digits 0 (b ∷ c ∷ digits)

abbrev pub kind_of_text : Bytes → Option RefKind
kind_of_text text =
    if bytes_eq text (codes "branch")
    then some branch
    else if bytes_eq text (codes "tag")
    then some tag
    else none

-- The references of the page and the total so far.
abbrev pub page_step : RefKind → ℕ → ℕ → ScannedRef → List ScannedRef × ℕ → List ScannedRef × ℕ
page_step kind start end reference (page_refs, total) =
    if same_kind reference.kind kind
    then (
      if leb start total && ltb total end then page_refs ++ reference ∷ [] else page_refs,
      total + 1,
    )
    else (page_refs, total)

abbrev pub invalid_page : NativeError
invalid_page = native_error "ref_not_found" "invalid reference page"

abbrev pub page_number : Bytes → ℕ
page_number page = elim (parse_usize page) [ none ↦ u64_max | some n ↦ n ]

-- The scan for a page that is asked for with a valid number.
abbrev pub scan_page : Clock → RefStore → RefKind → ℕ → ℕ → Timed (List ScannedRef × ℕ)
scan_page late store kind number per_page =
    let size = clamp 1 ref_page_limit per_page in
    let start = saturating_mul (saturating_sub number 1) size in
    scan_direct_refs late store (page_step kind start (saturating_add start size)) ([], 0)

abbrev pub checked_page : Clock → RefStore → Option RefKind → ℕ → ℕ → Timed (List ScannedRef × ℕ)
checked_page late store none number per_page = fail invalid_page
checked_page late store (some kind) number per_page =
    if number == 0 then fail invalid_page else scan_page late store kind number per_page

unfoldable pub ref_page : Clock → RefStore → Bytes → Bytes → ℕ → Timed (List ScannedRef × ℕ)
ref_page late store kind page per_page =
    checked_page late store (kind_of_text kind) (page_number page) per_page
