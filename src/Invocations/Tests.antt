-- ===== src/Invocations/Tests.antt =====
-- A chain of two calls in a task, and a cycle.
use zooid.Dict.{get, set}
use zooid.Invocations.{
  InvocationRecord, ancestor_agents, attach_call_event, init, open_call, outstanding, resolve,
}
use zooid.Invocations.Ancestors.{ancestor_agents_total}
use zooid.Invocations.Lifecycle.{Call, attaches, cancels_task, opens, resolve_once, run}
use zooid.Prelude.{List, String, [], none, refl, some, ◌++◌, ◌∷◌, ◌≡◌}

abbrev invocation : String → String → InvocationRecord
invocation agent session = record {
  invocation_id = "";
  task_id = "t";
  caller_agent = agent;
  caller_session_key = session;
  callee_agent = "x";
  call_id = none;
  call_event_id = none;
  callee_session_key = none;
  state = outstanding;
}

abbrev calls : List Call
calls =
    opens "i1" (invocation "lead" "$t")
    ∷ attaches "i1" "$e1" "$t|1"
    ∷ opens "i2" (invocation "coder" "$t|1")
    ∷ attaches "i2" "$e2" "$t|2"
    ∷ []

walks :
    (ancestor_agents "$t|2" (run calls init) ≡ some ("coder" ∷ "lead" ∷ []))
    × (ancestor_agents "$t|2" (run (calls ++ attaches "i2" "$e3" "$t" ∷ []) init)
        ≡ some ("coder" ∷ "lead" ∷ "coder" ∷ []))
unfolding ancestor_agents run init open_call attach_call_event get set
walks = (refl, refl)

ancestor_agents_total_example :
    (agents : List String) × (ancestor_agents "$t|2" (run calls init) ≡ some agents)
ancestor_agents_total_example = ancestor_agents_total "$t|2" (run calls init)

resolve_once_example :
    resolve "i1" (run (cancels_task "t" ∷ []) (resolve "i1" (run calls init)).0)
    ≡ (run (cancels_task "t" ∷ []) (resolve "i1" (run calls init)).0, none)
unfolding run init open_call attach_call_event resolve get set
resolve_once_example = resolve_once "i1" _ (cancels_task "t" ∷ []) (run calls init) refl (refl, tt)
