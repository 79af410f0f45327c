-- ===== src/Receive/Atomic.antt =====
-- About `validate_receive_commands`: plans and refusals of a whole push.
use fornacast.Prelude.{
  Bool, true, false, ◌≡◌, ◌↔◌, ◌⊎◌, inl, inr, refl, ap, Option, String, List, [], ◌∷◌, Result, ok,
  err, arith, Bool-cases, if◌then◌else◌,
}
use fornacast.Prelude.Bytes.{Bytes}
use fornacast.Receive.Commands.{
  ReceiveCommand, Repository, RefEdit, validate_receive_command, member, outcome, pushed, any_error,
  statuses, plan_commands, validate_receive_commands,
}

module _ (repo : Repository) where
  -- Every command has its edit, and no name comes twice.
  abbrev pub Planned : List ReceiveCommand → List Bytes → List RefEdit → Type 0
  Planned [] seen [] = Unit
  Planned [] seen (edit ∷ edits) = (true ≡ false)
  Planned (command ∷ commands) seen [] = (true ≡ false)
  Planned (command ∷ commands) seen (edit ∷ edits) =
      (member repo command.ref_name seen ≡ false)
      × (validate_receive_command repo command ≡ ok edit)
      × Planned commands (command.ref_name ∷ seen) edits

  Passes : List RefEdit × List (Option String) → List RefEdit → Type 0
  Passes (plans, errors) edits = (any_error repo errors ≡ false) × (plans ≡ edits)

  outcome_exact :
      (command : ReceiveCommand) (seen : List Bytes) (edit : RefEdit)
      → (outcome repo command seen ≡ ok edit) ↔ (
          (member repo command.ref_name seen ≡ false)
          × (validate_receive_command repo command ≡ ok edit))
  outcome_exact command seen edit = ground arith

  pushed_nil :
      (r : Result String RefEdit) (rest : List RefEdit × List (Option String))
      → Passes (pushed repo r rest) []
      → true ≡ false
  unfolding Passes
  pushed_nil (ok edit) rest (h, k) = cc
  pushed_nil (err message) rest (h, k) = h

  pushed_cons :
      (r : Result String RefEdit) (rest : List RefEdit × List (Option String)) (edit : RefEdit)
      (edits : List RefEdit)
      → Passes (pushed repo r rest) (edit ∷ edits) ↔ ((r ≡ ok edit) × Passes rest edits)
  unfolding Passes
  pushed_cons (ok e) rest edit edits = ground arith
  pushed_cons (err message) rest edit edits = ground arith

  plan_exact :
      (commands : List ReceiveCommand) (seen : List Bytes) (edits : List RefEdit)
      → Passes (plan_commands repo commands seen) edits ↔ Planned commands seen edits
  unfolding plan_commands
  plan_exact [] seen [] = unfold Passes in ground arith
  plan_exact [] seen (edit ∷ edits) = unfold Passes in ground arith
  plan_exact (command ∷ commands) seen [] =
      (pushed_nil (outcome repo command seen) _, λ h. absurd (cc))
  plan_exact (command ∷ commands) seen (edit ∷ edits) =
      let cons =
        pushed_cons (outcome repo command seen)
          (plan_commands repo commands (command.ref_name ∷ seen)) edit edits in
      let one = outcome_exact command seen edit in
      let more = plan_exact commands (command.ref_name ∷ seen) edits in
      (
        λ h. let (o, p) = cons.0 h in let (fresh, valid) = one.0 o in (fresh, valid, more.0 p),
        λ (fresh, valid, p). cons.1 (one.1 (fresh, valid), more.1 p),
      )

  -- The edits of a push are made only if every command is valid and no reference is named twice;
  -- then they are the edits of the commands, in their order.
  pub validate_receive_commands_exact :
      (commands : List ReceiveCommand) (edits : List RefEdit)
      → (validate_receive_commands repo commands ≡ inl edits) ↔ Planned commands [] edits
  unfolding validate_receive_commands Passes
  validate_receive_commands_exact commands edits = ground (arith, plan_exact commands [] edits)

  -- The names and verdicts of a refusal.
  abbrev pub refused : List ReceiveCommand → List (Bytes × String)
  refused [] = []
  refused (command ∷ commands) = (command.ref_name, "ng") ∷ refused commands

  abbrev pub verdicts : List (Bytes × String × String) → List (Bytes × String)
  verdicts [] = []
  verdicts ((name, verdict, reason) ∷ rest) = (name, verdict) ∷ verdicts rest

  statuses-cons :
      (command : ReceiveCommand) (commands : List ReceiveCommand) (seen : List Bytes)
      → verdicts (statuses repo commands (plan_commands repo commands (command.ref_name ∷ seen)).1)
        ≡ refused commands
      → verdicts
          (statuses repo (command ∷ commands) (plan_commands repo (command ∷ commands) seen).1)
        ≡ refused (command ∷ commands)
  unfolding plan_commands
  statuses-cons command commands seen h = ground (arith, h)

  statuses-refused :
      (commands : List ReceiveCommand) (seen : List Bytes)
      → verdicts (statuses repo commands (plan_commands repo commands seen).1) ≡ refused commands
  statuses-refused [] seen = refl
  statuses-refused (command ∷ commands) seen =
      statuses-cons command commands seen (statuses-refused commands (command.ref_name ∷ seen))

  -- A push is either planned or refused, and a refusal says `ng` of every command, in their order.
  pub validate_receive_commands-refused :
      (commands : List ReceiveCommand)
      → ((edits : List RefEdit) × (validate_receive_commands repo commands ≡ inl edits))
        ⊎ ((answer : List (Bytes × String × String)) × (validate_receive_commands repo commands
              ≡ inr answer)
            × (verdicts answer ≡ refused commands))
  unfolding validate_receive_commands
  validate_receive_commands-refused commands =
      let (plans, errors) = plan_commands repo commands [] in
      let answer : Bool → List RefEdit ⊎ List (Bytes × String × String) =
        λ b. if b then inr (statuses repo commands errors) else inl plans in
      elim (Bool-cases (any_error repo errors)) [
        | inl bad ↦ inr (statuses repo commands errors, ap answer bad, statuses-refused commands [])
        | inr good ↦ inl (plans, ap answer good)
      ]
