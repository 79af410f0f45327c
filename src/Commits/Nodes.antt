-- ===== src/Commits/Nodes.antt =====
-- The data of the walk over a commit graph. A map is the list of its entries, and a set the list of
-- its elements.

use fornacast.Prelude.{ℕ, Option, none, some, List, [], ◌∷◌, if◌then◌else◌}
use fornacast.Prelude.Bytes.{Bytes, bytes_eq}
use fornacast.Prelude.Int.{ℤ}
use fornacast.Native.{native_error}
use fornacast.Native.Clock.{Clock, Timed, check_deadline}
use fornacast.Compare.Budgets.{Oids}

pub record CommitNode : Type 0 where
  pub tree : Bytes
  pub parents : Oids
  pub committer_time : ℤ

pub data CommitPosition : Type 0 where
  tip ancestor : CommitPosition

abbrev pub Map : Type 0 → Type 0
Map A = List (Bytes × A)

abbrev pub lookup : {A : Type 0} → Map A → Bytes → Option A
lookup [] k = none
lookup ((j, v) ∷ m) k = if bytes_eq j k then some v else lookup m k

abbrev pub put : {A : Type 0} → Bytes → A → Map A → Map A
put k v [] = (k, v) ∷ []
put k v ((j, w) ∷ m) = if bytes_eq j k then (k, v) ∷ m else (j, w) ∷ put k v m

abbrev pub Nodes : Type 0
Nodes = Map CommitNode

abbrev pub Counts : Type 0
Counts = Map ℕ

pub record OrderedCommitGraph : Type 0 where
  pub tip : Bytes
  pub ordered : Oids
  pub nodes : Nodes

abbrev pub count_of : Counts → Bytes → ℕ
count_of counts oid = elim (lookup counts oid) [ none ↦ 0 | some n ↦ n ]

-- `entry(oid).or_default()`
abbrev pub or_default : Bytes → Counts → Counts
or_default oid counts = elim (lookup counts oid) [ none ↦ put oid 0 counts | some n ↦ counts ]

unfoldable pub check_commit_deadline : Clock → Timed (Unit {0})
check_commit_deadline late =
    check_deadline late
      (native_error "scan_timeout" "commit scan exceeded the five-second deadline")
