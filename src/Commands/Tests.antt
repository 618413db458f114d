-- ===== src/Commands/Tests.antt =====
-- Commands as clients send them.
use zooid.Approval.{ApprovalOption, allow, cancel}
use zooid.Commands.{
  approve, decision_for_command, deny, ok, parse_approval_command, reaction_command,
}
use zooid.Commands.Decisions.{Meant, decision_for_command-Meant}
use zooid.Prelude.{List, String, [], none, refl, some, ◌∷◌, ◌≡◌}

abbrev option : String → String → ApprovalOption
option id kind = record { option_id = id; name = id; kind = kind }

abbrev options : List ApprovalOption
options = option "all" "allow_always" ∷ option "once" "allow_once" ∷ option "no" "reject_once" ∷ []

parsed :
    (parse_approval_command " Approve  x-1 "
      ≡ some (record { command = approve; approval_id = some "x-1" }))
    × (parse_approval_command "deny" ≡ some (record { command = deny; approval_id = none }))
    × (parse_approval_command "approve the plan" ≡ none)
    × (parse_approval_command "approved" ≡ none)
    × (reaction_command (some "👎\u{fe0f}") ≡ some deny)
unfolding parse_approval_command reaction_command
parsed = (refl, refl, refl, refl, refl)

decided :
    (decision_for_command approve options ≡ ok (allow "once"))
    × (decision_for_command deny (option "all" "allow_always" ∷ []) ≡ ok cancel)
unfolding decision_for_command
decided = (refl, refl)

decision_for_command-Meant_example :
    (o : ApprovalOption) × (o.option_id ≡ "once") × Meant approve options o
unfolding decision_for_command
decision_for_command-Meant_example = decision_for_command-Meant approve options "once" refl
