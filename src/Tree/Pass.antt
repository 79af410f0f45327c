-- ===== src/Tree/Pass.antt =====
-- The passes over a tree object: `find_raw_tree_entry`, `retained_tree_states`,
-- `count_direct_tree_entries` without its second part, and `next_raw_name_batch`.
use Prim.Native.Nat.{Ordering}
use fornacast.Prelude.{
  ℕ, zero, suc, ◌+◌, ◌/◌, ◌%◌, Bool, true, false, not, ◌&&◌, ◌||◌, Option, none, some, String, List,
  [], ◌∷◌, ok, err, ltb, ◌==◌, if◌then◌else◌, length,
}
use fornacast.Prelude.Bytes.{Bytes, bytes_eq, cmp, is_less}
use fornacast.Prelude.Word.{checked_add}
use fornacast.Native.{NativeError, NativeResult, native_error}
use fornacast.Native.Clock.{Clock, Timed, pure, fail, lift, check_deadline, ◌>>=◌, ◌>>◌}
use fornacast.Tree.Entries.{
  entry_kind, RawEntry, Item, entry, broken, TreeEntryState, Previous, validate_tree_entry,
}

abbrev pub scan_timeout : NativeError
scan_timeout = native_error "scan_timeout" "tree history scan exceeded the five-second deadline"

unfoldable pub check_tree_history_deadline : Clock → Timed (Unit {0})
check_tree_history_deadline late = check_deadline late scan_timeout

abbrev pub corrupt_entry : NativeError
corrupt_entry = native_error "corrupt_repository" "object parsing failed"

-- The loop that the functions below share: `body` is what each does behind the checks.
unfoldable pub for_entries :
    {S : Type 0} → Clock → (RawEntry → S → NativeResult S) → List Item → Previous → S → Timed S
for_entries late body [] previous s = pure s
for_entries late body (broken ∷ items) previous s = do
  check_tree_history_deadline late
  fail corrupt_entry
for_entries late body (entry e ∷ items) previous s = do
  check_tree_history_deadline late
  previous' ← lift (validate_tree_entry previous e.filename e.mode)
  s' ← lift (body e s)
  for_entries late body items previous' s'

-- A whole pass: the loop, and the last look at the clock.
unfoldable pub pass :
    {S : Type 0} → Clock → (RawEntry → S → NativeResult S) → List Item → S → Timed S
pass late body items s = do
  s' ← for_entries late body items none s
  check_tree_history_deadline late
  pure s'

abbrev pub state_of : RawEntry → TreeEntryState
state_of e = record { mode = e.mode; oid = e.oid; is_tree = e.is_tree }

abbrev pub duplicate_selected : NativeError
duplicate_selected =
    native_error "corrupt_repository" "tree contains a duplicate selected entry name"

abbrev pub find_step :
    Bytes → RawEntry → Option TreeEntryState → NativeResult (Option TreeEntryState)
find_step name e found =
    if bytes_eq e.filename name
    then elim found [ none ↦ ok (some (state_of e)) | some old ↦ err duplicate_selected ]
    else ok found

unfoldable pub find_raw_tree_entry : Clock → List Item → Bytes → Timed (Option TreeEntryState)
find_raw_tree_entry late items name = pass late (find_step name) items none

-- A `BTreeMap` as the list of its bindings in the order of the keys.
abbrev pub BTreeMap : Type 0 → Type 0
BTreeMap V = List (Bytes × V)

-- `BTreeMap::insert`: a binding of the key is replaced.
unfoldable pub insert : {V : Type 0} → Bytes → V → BTreeMap V → BTreeMap V
insert k v [] = (k, v) ∷ []
insert k v ((k', v') ∷ m) = elim (cmp k k') [
  | Ordering.lt ↦ (k, v) ∷ (k', v') ∷ m
  | Ordering.eq ↦ (k', v) ∷ m
  | Ordering.gt ↦ (k', v') ∷ insert k v m
]

-- The value that `insert` reports as replaced.
unfoldable pub lookup : {V : Type 0} → Bytes → BTreeMap V → Option V
lookup k [] = none
lookup k ((k', v') ∷ m) = if bytes_eq k k' then some v' else lookup k m

-- `last_key_value`, the key; `pop_last`.
unfoldable pub last_key : {V : Type 0} → BTreeMap V → Option Bytes
last_key [] = none
last_key ((k, v) ∷ []) = some k
last_key (x ∷ y ∷ m) = last_key (y ∷ m)

unfoldable pub pop_last : {V : Type 0} → BTreeMap V → BTreeMap V
pop_last [] = []
pop_last (x ∷ []) = []
pop_last (x ∷ y ∷ m) = x ∷ pop_last (y ∷ m)

-- A set of names is given by its membership test.
abbrev pub states_step :
    (Bytes → Bool) → RawEntry → BTreeMap TreeEntryState → NativeResult (BTreeMap TreeEntryState)
states_step selected e states =
    if selected e.filename
    then elim (lookup e.filename states) [
      | none ↦ ok (insert e.filename (state_of e) states)
      | some old ↦ err duplicate_selected
    ]
    else ok states

-- `tree` is none for a side of a merge that has no tree.
unfoldable pub retained_tree_states :
    Clock → Option (List Item) → (Bytes → Bool) → Timed (BTreeMap TreeEntryState)
retained_tree_states late none selected = do check_tree_history_deadline late; pure []
retained_tree_states late (some items) selected = pass late (states_step selected) items []

-- The total and the number of directories.
abbrev pub count_step : RawEntry → ℕ × ℕ → NativeResult (ℕ × ℕ)
count_step e (total, directory_count) = elim (checked_add total 1) [
  | none ↦ err (native_error "corrupt_repository" "tree entry count overflow")
  | some total' ↦
      if e.is_tree
      then elim (checked_add directory_count 1) [
        | none ↦ err (native_error "corrupt_repository" "tree directory count overflow")
        | some directory_count' ↦ ok (total', directory_count')
      ]
      else ok (total', directory_count)
]

pub record DirectTreeEntry : Type 0 where
  pub name : Bytes
  pub kind : String
  pub mode : Bytes
  pub oid : Bytes

-- `format!("{:06o}", mode)` of a 16-bit number.
unfoldable pub octal : ℕ → ℕ → Bytes → Bytes
octal zero n digits = digits
octal (suc width) n digits = octal width (n / 8) ((b'0' + n % 8) ∷ digits)

abbrev pub direct_entry : RawEntry → DirectTreeEntry
direct_entry e = record {
  name = e.filename;
  kind = entry_kind e.kind;
  mode = octal 6 e.mode [];
  oid = e.oid;
}

abbrev pub past : Option Bytes → Bytes → Bool
past none name = true
past (some cursor) name = is_less (cmp cursor name)

abbrev pub below_last : {V : Type 0} → Bytes → BTreeMap V → Bool
below_last name m = elim (last_key m) [ none ↦ false | some largest ↦ is_less (cmp name largest) ]

abbrev pub retain :
    ℕ → Bytes → DirectTreeEntry → BTreeMap DirectTreeEntry → BTreeMap DirectTreeEntry
retain limit name e batch =
    if ltb (length batch) limit || below_last name batch
    then insert name e (if length batch == limit then pop_last batch else batch)
    else batch

abbrev pub same_bool : Bool → Bool → Bool
same_bool true b = b
same_bool false b = not b

abbrev pub batch_step :
    Bool
    → Option Bytes
    → ℕ
    → RawEntry
    → BTreeMap DirectTreeEntry
    → NativeResult (BTreeMap DirectTreeEntry)
batch_step directories cursor limit e batch =
    if same_bool e.is_tree directories && past cursor e.filename
    then ok (retain limit e.filename (direct_entry e) batch)
    else ok batch

unfoldable pub next_raw_name_batch :
    Clock → List Item → Bool → Option Bytes → ℕ → Timed (BTreeMap DirectTreeEntry)
next_raw_name_batch late items directories cursor limit =
    pass late (batch_step directories cursor limit) items []
