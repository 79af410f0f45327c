-- ===== src/Receive/Updates.antt =====
-- About `branch_update`: the previous value that an edit expects, and the history of the branch.
use fornacast.Prelude.{
  Bool, true, false, ◌≡◌, ◌⊎◌, inl, inr, refl, ap, ◌∙◌, Option-cases, Option, none, some, String,
  List, [], ◌∷◌, Result, ok, err, bind-eq-ok, Bool-cases, guard, arith, sym, subst,
}
use fornacast.Prelude.Bytes.{Bytes, bytes_eq, bytes_eq_iff}
use fornacast.Receive.Commands.{
  stale, create_expected, move_expected, ReceiveCommand, Repository, PreviousValue, must_not_exist,
  must_exist_and_match, RefEdit, is_zero_oid, current_ref_target, walk_reaches, is_ancestor,
  update_ref_edit, branch_expected, branch_update,
}

-- A commit is reached from the tip: it is the tip, or the walk from there comes to it.
pub data Found (id : Bytes) : List (Result String Bytes) → Type 0 where
  here : (walk : List (Result String Bytes)) → Found id (ok id ∷ walk)
  there :
      (other : Bytes) (walk : List (Result String Bytes))
      → Found id walk
      → Found id (ok other ∷ walk)

module _ (repo : Repository) where
  abbrev pub Reaches : Bytes → Bytes → Type 0
  Reaches ancestor tip =
      (ancestor ≡ tip)
      ⊎ ((walk : List (Result String Bytes)) × (repo.rev_walk tip ≡ ok walk) × Found ancestor walk)

  walk_reaches-Found :
      (ancestor : Bytes) (walk : List (Result String Bytes))
      → walk_reaches repo ancestor walk ≡ ok true
      → Found ancestor walk
  unfolding walk_reaches
  walk_reaches-Found ancestor [] h = cc
  walk_reaches-Found ancestor (err e ∷ walk) h = cc
  walk_reaches-Found ancestor (ok id ∷ walk) h = elim (Bool-cases (bytes_eq id ancestor)) [
    | inl same ↦
        subst (λ x. Found ancestor (ok x ∷ walk)) (sym ((bytes_eq_iff id ancestor).0 same))
          (here walk)
    | inr other ↦ there id walk (walk_reaches-Found ancestor walk (rw other at h))
  ]

  is_ancestor-Reaches :
      (ancestor tip : Bytes) → is_ancestor repo ancestor tip ≡ ok true → Reaches ancestor tip
  unfolding is_ancestor
  is_ancestor-Reaches ancestor tip h = elim (Bool-cases (bytes_eq ancestor tip)) [
    | inl same ↦ inl ((bytes_eq_iff ancestor tip).0 same)
    | inr other ↦
        let (walk, e, found) =
          bind-eq-ok (repo.rev_walk tip) (walk_reaches repo ancestor) (rw other at h) in
        inr (walk, e, walk_reaches-Found ancestor walk found)
  ]

  -- The reference is new, or it stands at an ancestor of the new commit.
  abbrev pub FastForward : ReceiveCommand → Bytes → PreviousValue → Type 0
  FastForward command new_id expected =
      ((expected ≡ must_not_exist) × (current_ref_target repo command.ref_name ≡ ok none))
      ⊎ ((old_id : Bytes) × (expected ≡ must_exist_and_match old_id)
          × (current_ref_target repo command.ref_name ≡ ok (some old_id))
          × Reaches old_id new_id)

  guard-true : (b : Bool) (e : String) → guard b e ≡ ok tt → b ≡ true
  guard-true true e h = refl
  guard-true false e h = cc

  stale-tt :
      (current : Option Bytes) (old_id : Bytes)
      → stale repo current old_id ≡ ok tt
      → current ≡ some old_id
  stale-tt none old_id h = cc
  stale-tt (some actual) old_id h =
      ap some ((bytes_eq_iff actual old_id).0 (guard-true (bytes_eq actual old_id) _ h))

  created :
      (command : ReceiveCommand) (expected : PreviousValue)
      → create_expected repo command ≡ ok expected
      → (expected ≡ must_not_exist) × (current_ref_target repo command.ref_name ≡ ok none)
  created command expected h =
      let (current, e, h1) = bind-eq-ok (current_ref_target repo command.ref_name) _ h in
      elim (Option-cases current) [
        | inl absent ↦ (ground arith, e ∙ ap ok absent)
        | inr (x, present) ↦ absurd (ground arith)
      ]

  moved :
      (command : ReceiveCommand) (new_id old_id : Bytes) (expected : PreviousValue)
      → move_expected repo command new_id old_id ≡ ok expected
      → (expected ≡ must_exist_and_match old_id)
        × (current_ref_target repo command.ref_name ≡ ok (some old_id))
        × Reaches old_id new_id
  moved command new_id old_id expected h =
      let (current, e, h1) = bind-eq-ok (current_ref_target repo command.ref_name) _ h in
      let (_, s, h2) = bind-eq-ok (stale repo current old_id) _ h1 in
      let (_, _, h3) = bind-eq-ok (guard (repo.find_commit old_id) _) _ h2 in
      let (descends, a, h4) = bind-eq-ok (is_ancestor repo old_id new_id) _ h3 in
      let (_, g, h5) = bind-eq-ok (guard descends _) _ h4 in
      let is : descends ≡ true = guard-true descends _ g in
      (cc, e ∙ ap ok (stale-tt current old_id s), is_ancestor-Reaches old_id new_id (a ∙ ap ok is))

  branch_expected-FastForward :
      (command : ReceiveCommand) (new_id : Bytes) (expected : PreviousValue)
      → branch_expected repo command new_id ≡ ok expected
      → FastForward command new_id expected
  branch_expected-FastForward command new_id expected h =
      elim (Bool-cases (is_zero_oid command.old)) [
        | inl zero ↦ inl (created command expected (rw zero at h))
        | inr old ↦
            let (old_id, _, h1) =
              bind-eq-ok (repo.parse_object_id command.old) (move_expected repo command new_id)
                (rw old at h) in
            let (exp, current, reaches) = moved command new_id old_id expected h1 in
            inr (old_id, exp, current, reaches)
      ]

  -- An update of a branch that is planned sets it to a commit of the repository, and loses no
  -- history: the branch did not exist, and is expected not to, or it stood at an ancestor of the
  -- new commit, where it is expected to stand when the edit is made.
  pub branch_update-FastForward :
      (command : ReceiveCommand) (edit : RefEdit)
      → branch_update repo command ≡ ok edit
      → (repo.parse_object_id command.new ≡ ok edit.new)
        × (repo.find_commit edit.new ≡ true)
        × (repo.full_name command.ref_name ≡ ok edit.name)
        × FastForward command edit.new edit.expected
  unfolding branch_update update_ref_edit
  branch_update-FastForward command edit h =
      let (new_id, n, h1) = bind-eq-ok (repo.parse_object_id command.new) _ h in
      let (_, g, h2) = bind-eq-ok (guard (repo.find_commit new_id) _) _ h1 in
      let (expected, e, h3) = bind-eq-ok (branch_expected repo command new_id) _ h2 in
      let (name, f, h4) = bind-eq-ok (repo.full_name command.ref_name) _ h3 in
      let new : new_id ≡ edit.new = cc in
      let exp : expected ≡ edit.expected = cc in
      let named : name ≡ edit.name = cc in
      (
        n ∙ ap ok new,
        subst (λ x. repo.find_commit x ≡ true) new (guard-true (repo.find_commit new_id) _ g),
        f ∙ ap ok named,
        subst (λ x. FastForward command x edit.expected) new
            (subst (FastForward command new_id) exp
              (branch_expected-FastForward command new_id expected e)),
      )
