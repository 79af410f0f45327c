-- ===== src/Refs/Tests.antt =====
-- Scans of a small set of references, and the theorems at concrete inputs.
use fornacast.Prelude.{
  ◌≡◌, ◌↔◌, refl, true, false, Option, none, some, List, [], ◌∷◌, ok, length, ◌<◌, ◌||◌, arith,
  take, ◌⊎◌,
}
use mathlib.Core.List.{map}
use fornacast.Prelude.Bytes.{Bytes, codes}
use fornacast.Native.Clock.{Clock, Gives, check_deadline}
use fornacast.Refs.Scan.{
  branch, tag, ref_sample_limit, ScannedRef, RefStore, ref_kind_bytes, page_step, for_refs,
  check_ref_deadline, scan_direct_refs, ref_page,
}
use fornacast.Refs.Scan.Named.{Direct, direct-Direct}
use fornacast.Refs.Scan.Visits.{found_pair, visits, Scans, scan_direct_refs_exact}
use fornacast.Refs.Scan.Page.{of_kind, page_of, ref_page_exact}
use fornacast.Refs.Summary
use fornacast.Refs.Summary.{record_ref, insert_by_name, sort_by_name}
use fornacast.Refs.Summary.Samples.{selects, finish-visits}
use fornacast.Refs.Route.{
  declared_route_kind, join_route_segments, maybe_record_route_match, no_match, legacy_match,
  route_step, ref_summary_for_route,
}
use fornacast.Refs.Route.Longest.{Longest, candidates, route_step-Longest}
use fornacast.Refs.Tracking
use fornacast.Refs.Tracking.{validated_tracking_ref_name}
use fornacast.Refs.Tracking.Distinct.{validated_tracking_ref_name-injective}

abbrev never : Clock
never n = false

abbrev pairs : List (Bytes × Option Bytes)
pairs =
    (codes "refs/heads/a", some (codes "01"))
    ∷ (codes "refs/heads/a/b", some (codes "02"))
    ∷ (codes "refs/heads/sym", none)
    ∷ (codes "refs/notes/n", some (codes "03"))
    ∷ (codes "refs/tags/v1", some (codes "04"))
    ∷ []

abbrev store : RefStore
store = record { opened = ok tt; references = ok (map found_pair pairs) }

abbrev head_a : ScannedRef
head_a = record { name = codes "refs/heads/a"; kind = branch; target = codes "01" }

abbrev head_a_b : ScannedRef
head_a_b = record { name = codes "refs/heads/a/b"; kind = branch; target = codes "02" }

abbrev tag_v1 : ScannedRef
tag_v1 = record { name = codes "refs/tags/v1"; kind = tag; target = codes "04" }

second_page : ref_page never store (codes "branch") (codes "2") 1 0 ≡ ok ((head_a_b ∷ [], 2), 7)
unfolding ref_page scan_direct_refs for_refs check_ref_deadline check_deadline ref_kind_bytes
second_page = refl

route_of_a_b :
    ref_summary_for_route never store (codes "a" ∷ codes "b" ∷ codes "c" ∷ []) 0
    ≡ ok (
      (
        record {
          branch_count = 2;
          tag_count = 1;
          branches = head_a ∷ head_a_b ∷ [];
          tags = tag_v1 ∷ [];
          refs_truncated = false;
        },
        "legacy",
        codes "a/b",
        codes "c",
      ),
      8,
    )
unfolding ref_summary_for_route scan_direct_refs for_refs check_ref_deadline check_deadline
    ref_kind_bytes route_step legacy_match record_ref maybe_record_route_match join_route_segments
    declared_route_kind Summary.finish sort_by_name insert_by_name
route_of_a_b = refl

pairs_shown : Direct pairs (head_a ∷ head_a_b ∷ tag_v1 ∷ [])
unfolding ref_kind_bytes
pairs_shown = direct-Direct pairs

ref_page_exact_example :
    Gives
      (ref_page never store (codes "branch") (codes "2") 1 0)
      (page_of 2 1 (of_kind branch (head_a ∷ head_a_b ∷ tag_v1 ∷ [])), 2)
ref_page_exact_example =
    ref_page_exact never store (codes "branch") (codes "2") 1 0 branch pairs
      (head_a ∷ head_a_b ∷ tag_v1 ∷ []) (λ n. refl) refl refl pairs_shown (omega arith) refl
      (omega arith)

scan_direct_refs_exact_example :
    Gives (scan_direct_refs never store (page_step branch 0 1) ([], 0) 0) (head_a ∷ [], 2)
    ↔ Scans store (page_step branch 0 1) ([], 0) (head_a ∷ [], 2)
scan_direct_refs_exact_example =
    scan_direct_refs_exact never (page_step branch 0 1) store ([], 0) 0 (head_a ∷ [], 2) (λ n. refl)

route_step-Longest_example :
    let s = visits (route_step none (codes "a/b/c")) (head_a ∷ head_a_b ∷ tag_v1 ∷ []) no_match in
    Longest
      (codes "a/b/c")
      (candidates branch (codes "refs/heads/") (head_a ∷ head_a_b ∷ tag_v1 ∷ []))
      s.branch_match
    × Longest
        (codes "a/b/c")
        (candidates tag (codes "refs/tags/") (head_a ∷ head_a_b ∷ tag_v1 ∷ []))
        s.tag_match
route_step-Longest_example = route_step-Longest (codes "a/b/c") (head_a ∷ head_a_b ∷ tag_v1 ∷ [])

mirrored :
    validated_tracking_ref_name (λ name. ok tt) (codes "up-1") (codes "refs/heads/main")
    ≡ ok (codes "refs/fornacast/mirrors/up-1/heads/main", Tracking.branch)
unfolding validated_tracking_ref_name
mirrored = refl

validated_tracking_ref_name-injective_example :
    (codes "up-1" ≡ codes "up-1") × (codes "refs/heads/main" ≡ codes "refs/heads/main")
validated_tracking_ref_name-injective_example =
    validated_tracking_ref_name-injective (λ name. ok tt) (codes "up-1") (codes "refs/heads/main")
      (codes "up-1") (codes "refs/heads/main") mirrored mirrored

finish-visits_example :
    let s =
      Summary.finish
        (visits record_ref (head_a ∷ head_a_b ∷ tag_v1 ∷ []) Summary.new)
        (some head_a) in
    let bs = of_kind branch (head_a ∷ head_a_b ∷ tag_v1 ∷ []) in
    let ts = of_kind tag (head_a ∷ head_a_b ∷ tag_v1 ∷ []) in
    (s.branch_count ≡ length bs)
    × (s.tag_count ≡ length ts)
    × (Summary.any_named (codes "refs/heads/a") s.branches
        ≡ Summary.any_named (codes "refs/heads/a") (take ref_sample_limit bs)
          || selects branch (some head_a) (codes "refs/heads/a"))
    × (Summary.any_named (codes "refs/heads/a") s.tags
        ≡ Summary.any_named (codes "refs/heads/a") (take ref_sample_limit ts)
          || selects tag (some head_a) (codes "refs/heads/a"))
    × ((s.refs_truncated ≡ true)
        ↔ ((ref_sample_limit < length bs) ⊎ (ref_sample_limit < length ts)))
finish-visits_example =
    finish-visits (head_a ∷ head_a_b ∷ tag_v1 ∷ []) (some head_a) (codes "refs/heads/a")
