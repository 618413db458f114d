-- ===== src/Typing/Tests.antt =====
-- A run of the registry with two turns of one agent, one of them parked on a human for a while.
use zooid.Dict.{delete, get, insert, remove, set}
use zooid.Prelude.{List, [], false, refl, true, ◌∷◌, ◌≡◌}
use zooid.Typing.{enter, exit, init, is_typing, pause, resume, set_presence, set_typing, slot_key}
use zooid.Typing.Slots.{Valid}
use zooid.Typing.Step.{Call, enters, exits, pauses, resumes, run}
use zooid.Typing.Wires.{run-Valid}

abbrev calls : List Call
calls =
    enters "!r" "@a" "s1"
    ∷ enters "!r" "@a" "s2"
    ∷ exits "!r" "@a" "s2"
    ∷ pauses "!r" "@a" "s1"
    ∷ resumes "!r" "@a" "s1"
    ∷ exits "!r" "@a" "s1"
    ∷ resumes "!r" "@a" "s1"
    ∷ []

calls_result :
    ((run calls init).wire
      ≡ set_typing "!r" "@a" true
        ∷ set_presence "@a" false
        ∷ set_typing "!r" "@a" false
        ∷ set_presence "@a" true
        ∷ set_typing "!r" "@a" true
        ∷ set_presence "@a" false
        ∷ set_typing "!r" "@a" false
        ∷ set_presence "@a" true
        ∷ [])
    × ((run calls init).slots ≡ [])
    × (is_typing "!r" "@a" (run (enters "!r" "@a" "s1" ∷ []) init) ≡ true)
unfolding run init enter exit pause resume is_typing get set delete insert remove slot_key
calls_result = (refl, refl, refl)

run-Valid_example : Valid (run calls init)
run-Valid_example = run-Valid calls
