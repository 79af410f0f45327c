-- ===== src/Receive/Commands.antt =====
-- Commands of a push and the edits that are planned for them: `parse_receive_commands`,
-- `validate_receive_commands`, `validate_receive_command`, `branch_update`, `tag_update`,
-- `update_ref_edit`, `current_ref_target` and `is_ancestor`. The repository of gix is a parameter.
-- A text of an error that the code formats from one of gix is what the parameter gives.
use fornacast.Prelude.{
  ℕ, Bool, true, false, not, ◌&&◌, ◌||◌, Option, none, some, String, List, [], ◌∷◌, ◌++◌, Result,
  ok, err, ◌>>=◌, ◌>>◌, guard, ◌==◌, if◌then◌else◌, length, within, ◌⊎◌, inl, inr,
}
use fornacast.Prelude.Bytes.{
  Bytes, codes, bytes_eq, all, contains, starts_with, is_ascii_digit, to_ascii_lowercase,
}
use mathlib.Core.List.{map}

pub record ReceiveCommand : Type 0 where
  pub old : Bytes
  pub new : Bytes
  pub ref_name : Bytes

-- What the code asks of `gix::Repository` and of the parsers of gix. A walk is the list of its
-- items; the target of a reference is none for a symbolic one.
pub record Repository : Type 0 where
  pub parse_object_id : Bytes → Result String Bytes
  pub find_commit : Bytes → Bool
  pub find_object : Bytes → Bool
  pub try_find_reference : Bytes → Result String (Option (Option Bytes))
  pub rev_walk : Bytes → Result String (List (Result String Bytes))
  pub full_name : Bytes → Result String Bytes

pub data PreviousValue : Type 0 where
  must_not_exist : PreviousValue
  must_exist_and_match : Bytes → PreviousValue

-- `gix_ref::transaction::RefEdit` with an update, whose other fields are constants.
pub record RefEdit : Type 0 where
  pub message : Bytes
  pub expected : PreviousValue
  pub new : Bytes
  pub name : Bytes

abbrev pub is_ascii_hexdigit : ℕ → Bool
is_ascii_hexdigit b = is_ascii_digit b || within b'a' b'f' b || within b'A' b'F' b

unfoldable pub valid_receive_oid : Bytes → Bool
valid_receive_oid oid = length oid == 40 && all is_ascii_hexdigit oid

unfoldable pub is_zero_oid : Bytes → Bool
is_zero_oid oid = all (λ b. b == b'0') oid

-- The closure of `parse_receive_commands`.
abbrev pub parse_receive_command : Bytes × Bytes × Bytes → Result String ReceiveCommand
parse_receive_command (old, new, ref_name) =
    if not (valid_receive_oid old) || not (valid_receive_oid new)
    then err "invalid object id"
    else if contains 0 ref_name || contains b'\n' ref_name
    then err "invalid reference name"
    else ok (record {
      old = map to_ascii_lowercase old;
      new = map to_ascii_lowercase new;
      ref_name = ref_name;
    })

unfoldable pub parse_receive_commands :
    List (Bytes × Bytes × Bytes) → Result String (List ReceiveCommand)
parse_receive_commands [] = ok []
parse_receive_commands (c ∷ cs) = do
  command ← parse_receive_command c
  commands ← parse_receive_commands cs
  ok (command ∷ commands)

module _ (repo : Repository) where
  unfoldable pub current_ref_target : Bytes → Result String (Option Bytes)
  current_ref_target ref_name = do
    found ← repo.try_find_reference ref_name
    elim found [ none ↦ ok none | some target ↦ ok target ]

  -- The walk up to the ancestor, or to an item that is an error.
  unfoldable pub walk_reaches : Bytes → List (Result String Bytes) → Result String Bool
  walk_reaches ancestor [] = ok false
  walk_reaches ancestor (info ∷ walk) = do
    id ← info
    if bytes_eq id ancestor then ok true else walk_reaches ancestor walk

  unfoldable pub is_ancestor : Bytes → Bytes → Result String Bool
  is_ancestor ancestor tip =
      if bytes_eq ancestor tip then ok true else (repo.rev_walk tip >>= walk_reaches ancestor)

  unfoldable pub update_ref_edit : ReceiveCommand → Bytes → PreviousValue → Result String RefEdit
  update_ref_edit command new_id expected = do
    name ← repo.full_name command.ref_name
    ok (record {
      message = codes "push: " ++ command.ref_name;
      expected = expected;
      new = new_id;
      name = name;
    })

  abbrev pub is_some : Option Bytes → Bool
  is_some none = false
  is_some (some x) = true

  -- The previous value that the edit of a branch is to expect, of a new branch and of one that
  -- moves.
  abbrev pub create_expected : ReceiveCommand → Result String PreviousValue
  create_expected command = do
    current ← current_ref_target command.ref_name
    guard (not (is_some current)) "reference already exists"
    ok must_not_exist

  abbrev pub stale : Option Bytes → Bytes → Result String (Unit {0})
  stale none old_id = err "reference does not exist"
  stale (some actual) old_id = guard (bytes_eq actual old_id) "stale reference update"

  abbrev pub move_expected : ReceiveCommand → Bytes → Bytes → Result String PreviousValue
  move_expected command new_id old_id = do
    current ← current_ref_target command.ref_name
    stale current old_id
    guard (repo.find_commit old_id) "existing branch target must be a commit"
    descends ← is_ancestor old_id new_id
    guard descends "non-fast-forward updates are not supported"
    ok (must_exist_and_match old_id)

  abbrev pub branch_expected : ReceiveCommand → Bytes → Result String PreviousValue
  branch_expected command new_id =
      if is_zero_oid command.old
      then create_expected command
      else (repo.parse_object_id command.old >>= move_expected command new_id)

  unfoldable pub branch_update : ReceiveCommand → Result String RefEdit
  branch_update command = do
    new_id ← repo.parse_object_id command.new
    guard (repo.find_commit new_id) "branch target must be a commit"
    expected ← branch_expected command new_id
    update_ref_edit command new_id expected

  unfoldable pub tag_update : ReceiveCommand → Result String RefEdit
  tag_update command = do
    guard (is_zero_oid command.old) "tag updates are not supported in this Fornacast release"
    current ← current_ref_target command.ref_name
    guard (not (is_some current)) "reference already exists"
    new_id ← repo.parse_object_id command.new
    guard (repo.find_object new_id) "tag target object is missing"
    update_ref_edit command new_id must_not_exist

  unfoldable pub validate_receive_command : ReceiveCommand → Result String RefEdit
  validate_receive_command command =
      if is_zero_oid command.new
      then err "deletions are not supported in this Fornacast release"
      else if starts_with (codes "refs/heads/") command.ref_name
      then branch_update command
      else if starts_with (codes "refs/tags/") command.ref_name
      then tag_update command
      else err "only branch and tag refs are supported"

  abbrev pub member : Bytes → List Bytes → Bool
  member name [] = false
  member name (x ∷ xs) = bytes_eq x name || member name xs

  -- What the loop finds for a command after those named `seen`.
  abbrev pub outcome : ReceiveCommand → List Bytes → Result String RefEdit
  outcome command seen =
      if member command.ref_name seen
      then err "multiple updates for the same reference are not supported"
      else validate_receive_command command

  abbrev pub pushed :
      Result String RefEdit
      → List RefEdit × List (Option String)
      → List RefEdit × List (Option String)
  pushed (ok edit) (plans, errors) = (edit ∷ plans, none ∷ errors)
  pushed (err message) (plans, errors) = (plans, some message ∷ errors)

  -- The plans and the errors of the loop.
  unfoldable pub plan_commands :
      List ReceiveCommand → List Bytes → List RefEdit × List (Option String)
  plan_commands [] seen = ([], [])
  plan_commands (command ∷ commands) seen =
      pushed (outcome command seen) (plan_commands commands (command.ref_name ∷ seen))

  abbrev pub any_error : List (Option String) → Bool
  any_error [] = false
  any_error (none ∷ errors) = any_error errors
  any_error (some message ∷ errors) = true

  -- `NativeReceiveStatus`: the reference, the verdict and its reason.
  abbrev pub statuses : List ReceiveCommand → List (Option String) → List (Bytes × String × String)
  statuses [] errors = []
  statuses (command ∷ commands) [] = []
  statuses (command ∷ commands) (none ∷ errors) =
      (command.ref_name, "ng", "atomic push rejected") ∷ statuses commands errors
  statuses (command ∷ commands) (some message ∷ errors) =
      (command.ref_name, "ng", message) ∷ statuses commands errors

  unfoldable pub validate_receive_commands :
      List ReceiveCommand → List RefEdit ⊎ List (Bytes × String × String)
  validate_receive_commands commands =
      let (plans, errors) = plan_commands commands [] in
      if any_error errors then inr (statuses commands errors) else inl plans
