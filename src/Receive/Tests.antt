-- ===== src/Receive/Tests.antt =====
-- A push against a small repository, and the theorems at concrete inputs.
use fornacast.Prelude.{
  ◌≢◌, true, ◌≡◌, ◌↔◌, ◌⊎◌, inl, inr, refl, none, some, String, List, [], ◌∷◌, ◌++◌, ok,
  if◌then◌else◌, arith,
}
use fornacast.Prelude.Bytes.{Bytes, codes, bytes_eq}
use fornacast.Receive.Commands.{
  ReceiveCommand, Repository, must_exist_and_match, must_not_exist, RefEdit, is_zero_oid,
  current_ref_target, walk_reaches, is_ancestor, update_ref_edit, branch_update, tag_update,
  validate_receive_command, plan_commands, validate_receive_commands,
}
use fornacast.Receive.Updates.{FastForward, branch_update-FastForward}
use fornacast.Receive.Atomic.{
  Planned, validate_receive_commands_exact, refused, verdicts, validate_receive_commands-refused,
}
use fornacast.Tree.Entries.{EntryKind}
use fornacast.Receive.Reachable.{
  commit_view, tree_view, blob_view, PackObject, Store, extend, enqueue_entries, enqueue_children,
  collect_rounds, collect_reachable_objects,
}
use fornacast.Receive.Reachable.Closed.{collect_reachable_objects-ends}
use fornacast.Receive.Reachable.Exact.{Collected, collect_reachable_objects-Collected}
use fornacast.Receive.PackHeader.{Kind, size_rounds, write_pack_object_header}
use fornacast.Receive.PackHeader.RoundTrip.{read_header, read_header-write_pack_object_header}

-- The branch `main` stands at the commit `a1`, of which `b2` is a child.
abbrev small_repo : Repository
small_repo = record {
  parse_object_id = λ oid. ok oid;
  find_commit = λ oid. true;
  find_object = λ oid. true;
  try_find_reference = λ name.
      if bytes_eq name (codes "refs/heads/main") then ok (some (some (codes "a1"))) else ok none;
  rev_walk = λ tip. ok (ok (codes "b2") ∷ ok (codes "a1") ∷ []);
  full_name = λ name. ok name;
}

abbrev main_forward : ReceiveCommand
main_forward = record { old = codes "a1"; new = codes "b2"; ref_name = codes "refs/heads/main" }

abbrev main_backward : ReceiveCommand
main_backward = record { old = codes "a1"; new = codes "c3"; ref_name = codes "refs/heads/main" }

abbrev new_tag : ReceiveCommand
new_tag = record { old = codes "00"; new = codes "b2"; ref_name = codes "refs/tags/v1" }

abbrev forward_edit : RefEdit
forward_edit = record {
  message = codes "push: refs/heads/main";
  expected = must_exist_and_match (codes "a1");
  new = codes "b2";
  name = codes "refs/heads/main";
}

abbrev tag_edit : RefEdit
tag_edit = record {
  message = codes "push: refs/tags/v1";
  expected = must_not_exist;
  new = codes "b2";
  name = codes "refs/tags/v1";
}

forward_planned : branch_update small_repo main_forward ≡ ok forward_edit
unfolding branch_update update_ref_edit is_ancestor walk_reaches current_ref_target is_zero_oid
forward_planned = refl

both_planned :
    validate_receive_commands small_repo (main_forward ∷ new_tag ∷ [])
    ≡ inl (forward_edit ∷ tag_edit ∷ [])
unfolding validate_receive_commands plan_commands validate_receive_command branch_update tag_update
    update_ref_edit is_ancestor walk_reaches current_ref_target is_zero_oid
both_planned = refl

branch_update-FastForward_example :
    (small_repo.parse_object_id main_forward.new ≡ ok forward_edit.new)
    × (small_repo.find_commit forward_edit.new ≡ true)
    × (small_repo.full_name main_forward.ref_name ≡ ok forward_edit.name)
    × FastForward small_repo main_forward forward_edit.new forward_edit.expected
branch_update-FastForward_example =
    branch_update-FastForward small_repo main_forward forward_edit forward_planned

validate_receive_commands_exact_example :
    (validate_receive_commands small_repo (main_forward ∷ new_tag ∷ [])
      ≡ inl (forward_edit ∷ tag_edit ∷ []))
    ↔ Planned small_repo (main_forward ∷ new_tag ∷ []) [] (forward_edit ∷ tag_edit ∷ [])
validate_receive_commands_exact_example =
    validate_receive_commands_exact small_repo (main_forward ∷ new_tag ∷ [])
      (forward_edit ∷ tag_edit ∷ [])

validate_receive_commands-refused_example :
    ((edits : List RefEdit) × (validate_receive_commands small_repo
          (main_backward ∷ main_forward ∷ [])
        ≡ inl edits))
    ⊎ ((answer : List (Bytes × String × String)) × (validate_receive_commands small_repo
            (main_backward ∷ main_forward ∷ [])
          ≡ inr answer)
        × (verdicts small_repo answer ≡ refused small_repo (main_backward ∷ main_forward ∷ [])))
validate_receive_commands-refused_example =
    validate_receive_commands-refused small_repo (main_backward ∷ main_forward ∷ [])

header_300 : write_pack_object_header [] 3 300 ≡ 0xbc ∷ 0x12 ∷ []
unfolding write_pack_object_header size_rounds
header_300 = refl

read_header-write_pack_object_header_example :
    (header : Bytes) × (write_pack_object_header (1 ∷ []) 3 300 ≡ (1 ∷ []) ++ header)
    × (read_header (header ++ 7 ∷ []) ≡ some (3, 300, 7 ∷ []))
read_header-write_pack_object_header_example =
    read_header-write_pack_object_header (1 ∷ []) 3 300 (7 ∷ []) (omega arith) (omega arith)

-- A commit with its tree and a file; a submodule is passed over.
abbrev small_store : Store
small_store =
    (
      codes "c1",
      record {
        kind = Kind.commit;
        data_bytes = codes "C";
        view = commit_view (ok (codes "t1")) [];
      },
    )
    ∷ (
      codes "t1",
      record {
        kind = Kind.tree;
        data_bytes = codes "T";
        view = tree_view (
            ok (EntryKind.blob, codes "b1")
            ∷ ok (EntryKind.blob, codes "b1")
            ∷ ok (EntryKind.commit, codes "s1")
            ∷ []);
      },
    )
    ∷ (codes "b1", record { kind = Kind.blob; data_bytes = codes "B"; view = blob_view })
    ∷ []

abbrev small_pack : List PackObject
small_pack =
    record { kind = Kind.commit; data_bytes = codes "C" }
    ∷ record { kind = Kind.tree; data_bytes = codes "T" }
    ∷ record { kind = Kind.blob; data_bytes = codes "B" }
    ∷ []

small_pack_collected :
    collect_reachable_objects small_store (codes "c1" ∷ []) ≡ some (ok small_pack)
unfolding collect_reachable_objects collect_rounds enqueue_children enqueue_entries extend
small_pack_collected = refl

collect_reachable_objects-Collected_example :
    (ids : List Bytes) × Collected small_store (codes "c1" ∷ []) ids small_pack
collect_reachable_objects-Collected_example =
    collect_reachable_objects-Collected small_store (codes "c1" ∷ []) small_pack
      small_pack_collected

collect_reachable_objects-ends_example :
    collect_reachable_objects small_store (codes "c1" ∷ []) ≢ none
collect_reachable_objects-ends_example =
    collect_reachable_objects-ends small_store (codes "c1" ∷ [])
