-- ===== src/Tree/Listing.antt =====
-- The listing of one tree: `count_direct_tree_entries`, `retain_raw_name_window`,
-- `retain_direct_tree_page` and `validate_cross_kind_tree_names`; the components of a path,
-- `safe_git_path_components`. A loop that the code leaves by its test runs on fuel here.
use Prim.Native.Nat.{Ordering}
use fornacast.Prelude.{
  ℕ, zero, suc, min, Bool, true, false, not, ◌&&◌, ◌||◌, Option, none, some, List, [], ◌∷◌, ◌++◌,
  ok, err, ltb, leb, ◌==◌, if◌then◌else◌, length,
}
use fornacast.Prelude.Bytes.{Bytes, codes, bytes_eq, contains, cmp}
use fornacast.Prelude.Word.{checked_add, saturating_add, saturating_sub}
use fornacast.Native.{NativeError, NativeResult, native_error}
use fornacast.Native.Clock.{Clock, Timed, pure, fail, lift, ◌>>=◌, ◌>>◌}
use fornacast.Pages.{tree_page_limit, TreePageWindow}
use fornacast.Tree.Entries.{Item}
use fornacast.Tree.Pass.{
  check_tree_history_deadline, for_entries, count_step, BTreeMap, last_key, DirectTreeEntry,
  next_raw_name_batch,
}

-- `path.split(|byte| *byte == b'/')`
abbrev pub split : Bytes → Bytes → List Bytes
split current [] = current ∷ []
split current (b ∷ path) =
    if b == b'/' then current ∷ split [] path else split (current ++ b ∷ []) path

abbrev pub is_unsafe_component : Bytes → Bool
is_unsafe_component c =
    bytes_eq c [] || bytes_eq c (codes ".") || bytes_eq c (codes "..") || contains 0 c

abbrev pub any_component : List Bytes → Bool
any_component [] = false
any_component (c ∷ cs) = is_unsafe_component c || any_component cs

unfoldable pub safe_git_path_components : Bytes → NativeResult (List Bytes)
safe_git_path_components path =
    if bytes_eq path []
    then ok []
    else (if any_component (split [] path)
        then err (native_error "path_not_found" "tree path contains an unsafe component")
        else ok (split [] path))

abbrev pub wrong_count : NativeError
wrong_count = native_error "corrupt_repository" "tree category count disagrees with its exact count"

-- The bindings of a batch whose ordinal, counted from `ordinal`, lies in the window.
abbrev pub within_window : ℕ → ℕ → ℕ → BTreeMap DirectTreeEntry → List DirectTreeEntry
within_window start end ordinal [] = []
within_window start end ordinal ((name, e) ∷ batch) =
    let rest = within_window start end (saturating_add ordinal 1) batch in
    if leb start ordinal && ltb ordinal end then e ∷ rest else rest

-- `while consumed < end`: every round consumes an entry, so `end` rounds are enough.
unfoldable pub window_rounds :
    Clock
    → List Item
    → Bool
    → ℕ
    → ℕ
    → ℕ
    → Option Bytes
    → ℕ
    → List DirectTreeEntry
    → Timed (List DirectTreeEntry)
window_rounds late items directories start end zero cursor consumed retained = pure retained
window_rounds late items directories start end (suc rounds) cursor consumed retained =
    if leb end consumed then pure retained else do
      check_tree_history_deadline late
      batch ←
          next_raw_name_batch late items directories cursor
            (min (saturating_sub end consumed) tree_page_limit)
      elim (last_key batch) [
        | none ↦ fail wrong_count
        | some next_cursor ↦ do
          consumed' ← lift (elim (checked_add consumed (length batch)) [
            | none ↦ err (native_error "corrupt_repository" "tree page ordinal overflow")
            | some n ↦ ok n
          ])
          window_rounds late items directories start end rounds (some next_cursor) consumed'
              (retained ++ within_window start end consumed batch)
      ]

unfoldable pub retain_raw_name_window :
    Clock → List Item → Bool → ℕ → ℕ → Timed (List DirectTreeEntry)
retain_raw_name_window late items directories start end =
    if start == end then (do check_tree_history_deadline late; pure []) else do
      retained ← window_rounds late items directories start end end none 0 []
      check_tree_history_deadline late
      pure retained

unfoldable pub retain_direct_tree_page :
    Clock → List Item → ℕ → ℕ → TreePageWindow → Timed (List DirectTreeEntry)
retain_direct_tree_page late items total directory_count window = do
  let non_directory_count = saturating_sub total directory_count
  let directory_start = min window.start directory_count
  let directory_end = min window.end directory_count
  let non_directory_start = min (saturating_sub window.start directory_count) non_directory_count
  let non_directory_end = min (saturating_sub window.end directory_count) non_directory_count
  directories ← retain_raw_name_window late items true directory_start directory_end
  non_directories ← retain_raw_name_window late items false non_directory_start non_directory_end
  let entries = directories ++ non_directories
  if length entries == saturating_sub window.end window.start
      then (do check_tree_history_deadline late; pure entries)
      else fail
          (native_error "corrupt_repository" "tree page length disagrees with its exact count")

abbrev pub keys : BTreeMap DirectTreeEntry → List Bytes
keys [] = []
keys ((k, e) ∷ m) = k ∷ keys m

-- The names of one kind that are still to be compared, read in batches: what is left of the last
-- batch, and its last name.
pub record Names : Type 0 where
  pub left : List Bytes
  pub cursor : Option Bytes

-- A batch is read when nothing is left of the last one.
unfoldable pub refill : Clock → List Item → Bool → Names → Timed Names
refill late items directories names = elim names.left [
  | [] ↦ do
    batch ← next_raw_name_batch late items directories names.cursor tree_page_limit
    pure (record {
      left = keys batch;
      cursor = elim (last_key batch) [ none ↦ names.cursor | some last ↦ some last ];
    })
  | _ ∷ _ ↦ pure names
]

pub data Comparison : Type 0 where
  distinct unfinished : Comparison

-- The loop, on fuel: `unfinished` says that the rounds did not suffice.
unfoldable pub cross_kind_rounds : Clock → List Item → ℕ → Names → Names → Timed Comparison
cross_kind_rounds late items zero dirs others = pure unfinished
cross_kind_rounds late items (suc rounds) dirs others = do
  check_tree_history_deadline late
  dirs' ← refill late items true dirs
  elim dirs'.left [
    | [] ↦ pure distinct
    | d ∷ ds ↦ do
      others' ← refill late items false others
      elim others'.left [
        | [] ↦ pure distinct
        | o ∷ os ↦ elim (cmp d o) [
          | Ordering.lt ↦ cross_kind_rounds late items rounds (record dirs' { left = ds }) others'
          | Ordering.gt ↦ cross_kind_rounds late items rounds dirs' (record others' { left = os })
          | Ordering.eq ↦ fail (
              native_error "corrupt_repository" "tree contains a duplicate entry name across kinds")
        ]
      ]
  ]

abbrev pub no_names : Names
no_names = record { left = []; cursor = none }

-- Every round takes one name off, so one round more than there are entries is enough.
unfoldable pub validate_cross_kind_tree_names : Clock → List Item → Timed Comparison
validate_cross_kind_tree_names late items =
    cross_kind_rounds late items (suc (length items)) no_names no_names

unfoldable pub count_direct_tree_entries : Clock → List Item → Timed (ℕ × ℕ)
count_direct_tree_entries late items = do
  (total, directory_count) ← for_entries late count_step items none (0, 0)
  if not (directory_count == 0) && not (directory_count == total)
      then (do
        compared ← validate_cross_kind_tree_names late items
        check_tree_history_deadline late
        pure (total, directory_count))
      else (do check_tree_history_deadline late; pure (total, directory_count))
