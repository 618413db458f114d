-- ===== src/Spawns/Tests.antt =====
-- Two sessions of one agent.
use zooid.Dict.{delete, get, set, values}
use zooid.Prelude.{List, String, [], map, none, refl, some, ◌∷◌, ◌≡◌}
use zooid.Spawns.{
  SpawnBinding, SpawnInput, get_by_acp_session, init, key, link_session, register, release_session,
}
use zooid.Spawns.Isolation.{Isolated, run-Isolated}
use zooid.Spawns.Step.{AllFresh, Call, links, registers, run, step}

abbrev session : String → SpawnInput
session t = record {
  agent_name = "coder";
  thread_ref = record { channel_id = "!r"; thread_id = t };
  provider = "matrix";
  session_key = none;
}

abbrev calls : List Call
calls =
    registers "u1" (session "$t")
    ∷ registers "u2" (session "$s")
    ∷ links "coder" "$t" "acp1"
    ∷ registers "u3" (session "$t")
    ∷ []

calls_result :
    (map (λ (b : SpawnBinding). b.spawn_id) (values (run calls init).bindings) ≡ "u1" ∷ "u2" ∷ [])
    × (get_by_acp_session "acp1" (run calls init)
        ≡ some (record { spawn_id = "u1"; input = session "$t" }))
    × (get_by_acp_session "acp1" (release_session "coder" "$t" (run calls init)).0 ≡ none)
unfolding run init register link_session release_session get_by_acp_session key get set delete
    values
calls_result = (refl, refl, refl)

calls-AllFresh : AllFresh calls init
unfolding step init register link_session key get set
calls-AllFresh = (refl, (refl, (tt, (refl, tt))))

run-Isolated_example : Isolated (run calls init)
run-Isolated_example = run-Isolated calls calls-AllFresh
