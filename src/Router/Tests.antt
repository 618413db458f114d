-- ===== src/Router/Tests.antt =====
-- Events of a room with two agents, and the theorems of `route` at them.
use zooid.Calls.{session_key_for}
use zooid.Calls.Walk.{Acyclic}
use zooid.Dict.{Dict, get}
use zooid.Events.{ThreadState}
use zooid.Mentions.{extract_mentions}
use zooid.Prelude.{All, String, [], arith, none, refl, some, ◌∷◌, ◌≡◌}
use zooid.Router.{route, sender_is_agent}
use zooid.Router.Directions.{WokenByAgent, route-WokenByAgent}
use zooid.Router.Routes.{reworded, route_agent_prose}
use zooid.Router.Samples.{
  agents, called_thread, coder, planner, prose, reply, says, threads, to_coder,
}

abbrev no_threads : Dict ThreadState
no_threads = []

no_threads-Acyclic :
    (r : String) (st : ThreadState) → get r no_threads ≡ some st → Acyclic st.callers
unfolding get
no_threads-Acyclic r st e = absurd (ground arith)

-- The coder's report goes to its caller; a human's follow-up goes to the coder; a call goes to its
-- callee; prose of an agent to nobody.
routed :
    (route some 0 (says "@coder:h" (reply none "done")) agents threads none []
      ≡ some (planner ∷ []))
    × (route some 0 (says "@u:h" (reply none "and now?")) agents threads none []
        ≡ some (coder ∷ []))
    × (route some 0 (says "@planner:h" (reply (some to_coder) "go on")) agents [] none []
        ≡ some (coder ∷ []))
    × (route some 0 (says "@planner:h" (reply none "hi @coder:h")) agents [] none [] ≡ some [])
unfolding route get
routed = (refl, refl, refl, refl)

keyed :
    (session_key_for "@coder:h" "$t" (some called_thread) ≡ "$t|$call")
    × (session_key_for "@planner:h" "$t" (some called_thread) ≡ "$t")
unfolding session_key_for get
keyed = (refl, refl)

route_agent_prose_example :
    route some 0
      (reworded (says "@coder:h" (reply none "done")) (reply none "done") (prose "ask @planner:h"))
      agents
      threads
      none
      []
    ≡ route some 0 (says "@coder:h" (reply none "done")) agents threads none []
unfolding sender_is_agent extract_mentions
route_agent_prose_example =
    route_agent_prose some 0 (says "@coder:h" (reply none "done")) (reply none "done")
      (prose "ask @planner:h") agents threads none [] [] ("@planner:h" ∷ []) refl refl refl refl

route-WokenByAgent_example :
    All (WokenByAgent (reply (some to_coder) "go on") [] "@planner:h") (coder ∷ [])
unfolding route sender_is_agent
route-WokenByAgent_example =
    route-WokenByAgent some 0 (says "@planner:h" (reply (some to_coder) "go on"))
      (reply (some to_coder) "go on") agents [] [] "@planner:h" (coder ∷ []) no_threads-Acyclic refl
      refl refl refl
