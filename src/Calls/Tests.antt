-- ===== src/Calls/Tests.antt =====
-- Call graphs, and the theorems at them.
use zooid.Calls.{would_cycle_callers}
use zooid.Calls.CallGraph.{set-Acyclic}
use zooid.Calls.Walk.{Acyclic, Up, here, next, would_cycle_callers_iff}
use zooid.Dict.{Dict, get, insert, set}
use zooid.Events.{HandoffContent, ThreadState}
use zooid.Prelude.{String, [], arith, eq_iff, false, refl, some, true, ◌↔◌, ◌∷◌, ◌≡◌}

empty-Acyclic : Acyclic []
unfolding get
empty-Acyclic a p e u = absurd (ground arith)

abbrev edges : Dict String
edges = ("@coder:h", "@planner:h") ∷ ("@planner:h", "@lead:h") ∷ []

walked :
    (would_cycle_callers edges "@lead:h" "@coder:h" ≡ some true)
    × (would_cycle_callers edges "@tester:h" "@coder:h" ≡ some false)
    × (would_cycle_callers (("a", "b") ∷ ("b", "a") ∷ []) "c" "a" ≡ some true)
unfolding would_cycle_callers get insert
walked = (refl, refl, refl)

-- The graph of one call.
apart : ¬ Up [] "@planner:h" "@coder:h"
unfolding get
apart (here e) = ground (arith, eq_iff "@planner:h" "@coder:h")
apart (next e u) = ground arith

one_call-Acyclic : Acyclic (set "@coder:h" "@planner:h" [])
one_call-Acyclic = set-Acyclic [] "@coder:h" "@planner:h" apart empty-Acyclic

would_cycle_callers_iff_example :
    (would_cycle_callers (set "@coder:h" "@planner:h" []) "@planner:h" "@coder:h" ≡ some true)
    ↔ Up (set "@coder:h" "@planner:h" []) "@coder:h" "@planner:h"
would_cycle_callers_iff_example =
    would_cycle_callers_iff (set "@coder:h" "@planner:h" []) "@planner:h" "@coder:h"
      one_call-Acyclic

abbrev call : HandoffContent
call = record { call_id = "call"; caller = "@planner:h"; callee = "@coder:h" }

abbrev fresh_thread : ThreadState
fresh_thread = record { participants = []; root_mentions = []; callers = []; handoffs = [] }
