-- ===== src/Refs/Tracking.antt =====
-- The names under which the references of a mirrored repository are kept:
-- `validated_tracking_ref_name`. The test of names in gix is a parameter.
pub mod Distinct
use fornacast.Prelude.{
  ℕ, Bool, true, false, not, ◌&&◌, ◌||◌, Option, none, some, List, [], ◌∷◌, ◌++◌, Result, ok, err,
  ◌>>=◌, ◌>>◌, guard, leb, ltb, ◌==◌, if◌then◌else◌, length,
}
use fornacast.Prelude.Bytes.{Bytes, codes, all, strip_prefix, last_is, is_ascii_alphanumeric}
use fornacast.Native.{NativeError, NativeResult, native_error, ok_or}

pub data TrackingRefKind : Type 0 where
  branch tag : TrackingRefKind

abbrev pub namespace_limit : ℕ
namespace_limit = 64

abbrev pub source_ref_limit : ℕ
source_ref_limit = 1024

abbrev pub first_alphanumeric : Bytes → Bool
first_alphanumeric [] = false
first_alphanumeric (b ∷ bs) = is_ascii_alphanumeric b

abbrev pub is_identifier_byte : ℕ → Bool
is_identifier_byte b = is_ascii_alphanumeric b || (b == b'-' || b == b'_')

abbrev pub namespace_valid : Bytes → Bool
namespace_valid namespace =
    leb (length namespace) namespace_limit
    && first_alphanumeric namespace
    && all is_identifier_byte namespace

-- The reference below `refs/`, with its kind.
abbrev pub tag_ref : Option Bytes → Option (Bytes × TrackingRefKind)
tag_ref none = none
tag_ref (some suffix) = some (codes "tags/" ++ suffix, tag)

abbrev pub branch_or_tag : Option Bytes → Option Bytes → Option (Bytes × TrackingRefKind)
branch_or_tag none as_tag = tag_ref as_tag
branch_or_tag (some suffix) as_tag = some (codes "heads/" ++ suffix, branch)

abbrev pub without_last_slash : Option (Bytes × TrackingRefKind) → Option (Bytes × TrackingRefKind)
without_last_slash none = none
without_last_slash (some (relative, kind)) =
    if last_is b'/' relative then none else some (relative, kind)

abbrev pub relative_ref : Bytes → Option (Bytes × TrackingRefKind)
relative_ref source_ref = without_last_slash (
    branch_or_tag (strip_prefix (codes "refs/heads/") source_ref)
      (strip_prefix (codes "refs/tags/") source_ref))

abbrev pub invalid_ref : NativeError
invalid_ref =
    native_error "invalid_ref" "tracking source must be a canonical full branch or tag ref"

abbrev pub tracking_prefix : Bytes
tracking_prefix = codes "refs/fornacast/mirrors/"

-- The optional pair as a result.
abbrev pub relative_or : Option (Bytes × TrackingRefKind) → NativeResult (Bytes × TrackingRefKind)
relative_or none = err invalid_ref
relative_or (some r) = ok r

unfoldable pub validated_tracking_ref_name :
    (Bytes → NativeResult (Unit {0})) → Bytes → Bytes → NativeResult (Bytes × TrackingRefKind)
validated_tracking_ref_name full_name namespace source_ref = do
  guard (namespace_valid namespace)
      (native_error "invalid_ref" "tracking namespace must be one bounded ASCII identifier")
  guard (leb (length source_ref) source_ref_limit)
      (native_error "invalid_ref" "tracking source exceeds the reference-name byte limit")
  (relative, kind) ← relative_or (relative_ref source_ref)
  full_name source_ref
  full_name (tracking_prefix ++ namespace ++ b'/' ∷ relative)
  ok (tracking_prefix ++ namespace ++ b'/' ∷ relative, kind)
