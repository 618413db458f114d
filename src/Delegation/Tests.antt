-- ===== src/Delegation/Tests.antt =====
-- Handoffs of a planner in a thread: the first, a second one, one to a waiting agent, a failed post.
use zooid.Tasks
use zooid.Invocations
use mathlib.Core.Path.{subst}
use zooid.Calls.CallGraph.{set-Acyclic}
use zooid.Calls.Walk.{Acyclic}
use zooid.Delegation.{
  Board, Caller, Staff, Verdict, already_open, already_waiting, handoff, post_failed, self,
  take_back, turned_down,
}
use zooid.Delegation.Open.{Handled, handoff-Handled}
use zooid.Dict.{Dict, delete, get, set}
use zooid.Events.{ThreadState}
use zooid.Handoffs.{label}
use zooid.Inbound.{empty_state}
use zooid.Inbound.Dispatch.{is_new_edge}
use zooid.Inbound.Edges.{Acyclic-empty, new_edge-apart}
use zooid.Prelude.{[], default, false, none, refl, some, ◌∷◌, ◌≡◌}
use zooid.Router.Samples.{agents, called_thread, threads}
use zooid.Tasks.{caller}

abbrev staff : Staff
staff = record { bindings = agents; workforce = [] }

abbrev planner_calls : Caller
planner_calls = record {
  agent_name = "planner";
  channel_id = "!r";
  thread_root = "$t";
  session_key = "$t";
}

abbrev coder_calls : Caller
coder_calls = record planner_calls { agent_name = "coder" }

abbrev board : Dict ThreadState → Board
board states = record {
  thread_states = states;
  tasks = Tasks.init none none false "run";
  invocations = Invocations.init;
  open_handoffs = [];
}

abbrev first_call : Board × Verdict
first_call =
    handoff staff planner_calls "coder" "go on" "call" "inv" (λ b. b) (some "$h") (board [])

abbrev lost_call : Board × Verdict
lost_call = handoff staff planner_calls "coder" "go on" "call" "inv" (λ b. b) none (board [])

begun_once :
    (first_call.0.open_handoffs ≡ ("@planner:h::$t", "@coder:h") ∷ [])
    × ((handoff staff planner_calls "coder" "again" "call2" "inv2"
          (λ b. b)
          (some "$i")
          first_call.0).1
        ≡ turned_down already_open)
    × ((handoff staff planner_calls "planner" "me" "call2" "inv2" (λ b. b) (some "$i") (board [])).1
        ≡ turned_down self)
    × ((handoff staff coder_calls "planner" "back" "call2" "inv2"
          (λ b. b)
          (some "$i")
          (board threads)).1
        ≡ turned_down already_waiting)
    × (lost_call ≡ (board [], turned_down post_failed))
unfolding handoff take_back get set delete Tasks.init Invocations.init label
begun_once = (refl, refl, refl, refl, refl)

called_thread-Acyclic : Acyclic called_thread.callers
unfolding set get is_new_edge
called_thread-Acyclic =
    set-Acyclic [] "@coder:h" "@planner:h"
      (new_edge-apart (record { call_id = "call"; caller = "@planner:h"; callee = "@coder:h" })
        empty_state Acyclic-empty refl)
      Acyclic-empty

-- The planner called the coder before, and calls it again.
handoff-Handled_example :
    let (b, verdict) =
      handoff staff planner_calls "coder" "go on" "call" "inv"
        (λ b. b)
        (some "$h")
        (board threads) in
    Handled staff planner_calls "coder" "go on" "call" (λ b. b) (board threads) b verdict
unfolding get
handoff-Handled_example =
    handoff-Handled staff planner_calls "coder" "go on" "call" "inv" (λ b. b) (some "$h")
      (board threads)
      (λ st h. subst (λ s. Acyclic (default s called_thread).callers) h called_thread-Acyclic)
