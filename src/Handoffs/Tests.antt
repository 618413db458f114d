-- ===== src/Handoffs/Tests.antt =====
-- Candidates on two workstations.
use zooid.Handoffs.{
  HandoffCandidate, not_in_room, ok, refused, resolve_handoff_target, unknown_agent,
}
use zooid.Handoffs.Targets.{Meant, resolve_handoff_target-Meant}
use zooid.Prelude.{List, Option, String, [], includes, none, refl, some, true, ◌∷◌, ◌≡◌}
use zooid.Texts.{trim}

abbrev candidate : String → String → Option String → HandoffCandidate
candidate id name w = record { user_id = id; name = name; workstation = w; rooms = "!r" ∷ [] }

abbrev candidates : List HandoffCandidate
candidates =
    candidate "@a:h" "coder" none
    ∷ candidate "@b:h" "coder" (some "lab")
    ∷ candidate "@c:h" "tester" (some "lab")
    ∷ []

resolved :
    (resolve_handoff_target " @tester " "!r" candidates
      ≡ ok (candidate "@c:h" "tester" (some "lab")))
    × (resolve_handoff_target "lab.coder" "!r" candidates
        ≡ ok (candidate "@b:h" "coder" (some "lab")))
    × (resolve_handoff_target "coder" "!r" candidates ≡ ok (candidate "@a:h" "coder" none))
    × (resolve_handoff_target "@c:h" "!s" candidates ≡ refused (not_in_room "lab.tester" []))
    × (resolve_handoff_target "nobody" "!s" candidates ≡ refused (unknown_agent "nobody" []))
unfolding resolve_handoff_target
resolved = (refl, refl, refl, refl, refl)

resolve_handoff_target-Meant_example :
    (includes "!r" ("!r" ∷ []) ≡ true)
    × Meant (trim " @tester ") (candidate "@c:h" "tester" (some "lab")) candidates
unfolding resolve_handoff_target
resolve_handoff_target-Meant_example =
    resolve_handoff_target-Meant " @tester " "!r" candidates
      (candidate "@c:h" "tester" (some "lab")) refl
