-- ===== src/Calls.antt =====
-- The call graph of a thread and the sessions of its calls: `wouldCycleCallers` of packages/
-- transport-matrix/src/router.ts, session-keys.ts, and the recording of a call edge in transport.ts.
pub mod Walk
pub mod CallGraph
mod Tests
use Prim.Native.String
use zooid.Dict.{Dict, get, insert, set}
use zooid.Events.{HandoffContent, ThreadState}
use zooid.Prelude.{
  Bool, List, Option, String, [], default, false, if◌then◌else◌, includes, last, length, none, some,
  suc, true, zero, ℕ, ◌++◌, ◌==◌, ◌||◌,
}

-- The loop of `wouldCycleCallers` on fuel, none where the fuel runs out.
unfoldable pub walk : ℕ → Dict String → String → List String → Option String → Option Bool
walk fuel callers callee seen none = some false
walk zero callers callee seen (some cursor) = none
walk (suc fuel) callers callee seen (some cursor) =
    let rest = walk fuel callers callee (insert cursor seen) (get cursor callers) in
    if cursor == callee || includes cursor seen then some true else rest

-- One round for each edge, and one more, are enough.
unfoldable pub would_cycle_callers : Dict String → String → String → Option Bool
unfolding walk
would_cycle_callers callers callee caller =
    walk (suc (length callers)) callers callee [] (some caller)

unfoldable pub compose_handoff_key : String → String → String
compose_handoff_key root call = String.◌++◌ root (String.◌++◌ "|" call)

unfoldable pub session_key_for : String → String → Option ThreadState → String
unfolding compose_handoff_key
session_key_for agent root none = root
session_key_for agent root (some st) = elim (last (default (get agent st.handoffs) [])) [
  | none ↦ root
  | some arc ↦ if arc == "" then root else compose_handoff_key root arc
]

-- The state of the thread with the edge and the arc of a call.
abbrev pub with_call : HandoffContent → Option String → ThreadState → ThreadState
with_call h event_id st = record st {
  callers = set h.callee h.caller st.callers;
  handoffs = elim event_id [
    | none ↦ st.handoffs
    | some id ↦
        if id == ""
        then st.handoffs
        else set h.callee (insert id (default (get h.callee st.handoffs) [])) st.handoffs
  ];
}

-- The recording of a call edge in packages/transport-matrix/src/transport.ts.
unfoldable pub record_call : HandoffContent → Option String → ThreadState → Option ThreadState
unfolding would_cycle_callers
record_call h event_id st =
    if h.callee == h.caller
    then some st
    else (elim (would_cycle_callers st.callers h.callee h.caller) [
      | none ↦ none
      | some closes ↦ some (if closes then st else with_call h event_id st)
    ])
