-- ===== src/Sessions/Tests.antt =====
-- A turn with updates in it and after it, and the sessions of two agents.
use zooid.Dict.{delete, get, set}
use zooid.Prelude.{List, String, [], map, none, refl, some, ◌∷◌, ◌≡◌}
use zooid.Sessions.{
  SessionKey, SessionMap, SessionRecord, delete_session, end_turn, find_session, init, key_of,
  list_for_agent, observe_update, session_update, set_session, start_turn, turn_completed,
  turn_started,
}
use zooid.Sessions.Taps.{Call, Told, ends, observes, run, run-Told, starts}

abbrev calls : List Call
calls =
    starts "t1" "s" "hello"
    ∷ observes "s" "u1"
    ∷ ends "s" "end_turn"
    ∷ observes "s" "u2"
    ∷ ends "s" "end_turn"
    ∷ []

calls_taps :
    (run calls (init "coder")).taps
    ≡ turn_started "coder" "s" "t1" "hello"
      ∷ session_update "coder" "s" (some "t1") "u1"
      ∷ turn_completed "coder" "s" "t1" "end_turn"
      ∷ session_update "coder" "s" none "u2"
      ∷ []
unfolding run init start_turn observe_update end_turn get set delete
calls_taps = refl

run-Told_example : Told (run calls (init "coder"))
run-Told_example = run-Told calls "coder"

abbrev at : String → String → SessionKey
at thread agent = record { thread_id = thread; agent_id = agent }

abbrev two : SessionMap
two =
    set_session (at "$t" "b") (record { session_id = "s2"; started_at = 2 })
      (set_session (at "$t" "a") (record { session_id = "s1"; started_at = 1 }) [])

listed :
    (map (λ (r : SessionRecord). r.session_id) (list_for_agent "a" two) ≡ "s1" ∷ [])
    × (find_session (at "$t" "a") (delete_session (at "$t" "a") two) ≡ none)
unfolding list_for_agent set_session find_session delete_session key_of set get delete
listed = (refl, refl)
