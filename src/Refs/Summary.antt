-- ===== src/Refs/Summary.antt =====
-- The summary of all branches and tags: `RefSummaryBuilder`, `ref_summary`.
pub mod Samples
use Prim.Native.Nat.{Ordering}
use fornacast.Prelude.{
  ℕ, ◌+◌, ◌≤◌, ◌<◌, ◌≡◌, ◌↔◌, Bool, true, false, not, ◌&&◌, ◌||◌, Option, none, some, List, [], ◌∷◌,
  ◌++◌, ok, ltb, if◌then◌else◌, length, take, arith, refl, append-nil, append_assoc,
}
use fornacast.Prelude.Bytes.{Bytes, bytes_eq, cmp}
use fornacast.Native.Clock.{Clock, Timed, pure, ◌>>=◌}
use fornacast.Refs.Scan.{
  RefKind, branch, tag, ScannedRef, RefStore, ref_sample_limit, scan_direct_refs,
}

pub record RefSummaryBuilder : Type 0 where
  pub branch_count : ℕ
  pub tag_count : ℕ
  pub branches : List ScannedRef
  pub tags : List ScannedRef

abbrev pub new : RefSummaryBuilder
new = record { branch_count = 0; tag_count = 0; branches = []; tags = [] }

-- A sample grows up to its limit.
abbrev pub sampled : List ScannedRef → ScannedRef → List ScannedRef
sampled sample reference =
    if ltb (length sample) ref_sample_limit then sample ++ reference ∷ [] else sample

unfoldable pub record_ref : ScannedRef → RefSummaryBuilder → RefSummaryBuilder
record_ref reference b = elim reference.kind [
  | branch ↦ record b { branch_count = b.branch_count + 1; branches = sampled b.branches reference }
  | tag ↦ record b { tag_count = b.tag_count + 1; tags = sampled b.tags reference }
]

abbrev pub any_named : Bytes → List ScannedRef → Bool
any_named name [] = false
any_named name (r ∷ refs) = bytes_eq r.name name || any_named name refs

-- `sort_by`, which is stable.
unfoldable pub insert_by_name : ScannedRef → List ScannedRef → List ScannedRef
insert_by_name r [] = r ∷ []
insert_by_name r (x ∷ xs) = elim (cmp r.name x.name) [
  | Ordering.gt ↦ x ∷ insert_by_name r xs
  | Ordering.lt ↦ r ∷ x ∷ xs
  | Ordering.eq ↦ r ∷ x ∷ xs
]

unfoldable pub sort_by_name : List ScannedRef → List ScannedRef
sort_by_name [] = []
sort_by_name (x ∷ xs) = insert_by_name x (sort_by_name xs)

abbrev pub with_selected : ScannedRef → List ScannedRef → List ScannedRef
with_selected selected sample =
    if any_named selected.name sample then sample else sort_by_name (sample ++ selected ∷ [])

pub record RefSummary : Type 0 where
  pub branch_count : ℕ
  pub tag_count : ℕ
  pub branches : List ScannedRef
  pub tags : List ScannedRef
  pub refs_truncated : Bool

abbrev pub add_selected : Option ScannedRef → RefSummaryBuilder → RefSummaryBuilder
add_selected none b = b
add_selected (some selected) b = elim selected.kind [
  | branch ↦ record b { branches = with_selected selected b.branches }
  | tag ↦ record b { tags = with_selected selected b.tags }
]

unfoldable pub finish : RefSummaryBuilder → Option ScannedRef → RefSummary
finish b selected =
    let s = add_selected selected b in
    record {
      branch_count = s.branch_count;
      tag_count = s.tag_count;
      branches = s.branches;
      tags = s.tags;
      refs_truncated = ltb ref_sample_limit s.branch_count || ltb ref_sample_limit s.tag_count;
    }

-- The closure of `ref_summary`: the selected reference and the summary.
abbrev pub summary_step :
    Option Bytes
    → ScannedRef
    → Option ScannedRef × RefSummaryBuilder
    → Option ScannedRef × RefSummaryBuilder
summary_step none reference (selected, b) = (selected, record_ref reference b)
summary_step (some name) reference (selected, b) =
    (if bytes_eq name reference.name then some reference else selected, record_ref reference b)

unfoldable pub ref_summary : Clock → RefStore → Option Bytes → Timed RefSummary
ref_summary late store selected_ref = do
  (selected, summary) ← scan_direct_refs late store (summary_step selected_ref) (none, new)
  pure (finish summary selected)
