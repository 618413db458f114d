-- ===== src/Elicitation/Tests.antt =====
-- Runs of the correlator, and its theorems at them.
use zooid.Dict.{delete, get, keys, set, values}
use zooid.Dict.Count.{one}
use zooid.Elicitation.{
  ElicitationCorrelator, RegisterElicitationInput, accept, cancel_for, cancel_request, cancel_where,
  decline, evict, find_pending, finish, init, register, settle,
}
use zooid.Elicitation.Bounded.{Sound, init-Sound, step-Sound}
use zooid.Elicitation.History.{run_answers_once}
use zooid.Elicitation.Settles.{settlements}
use zooid.Elicitation.Step.{Call, cancels_for, registers, run, settles, step}
use zooid.Prelude.{List, String, [], false, is_some, none, refl, some, ◌+◌, ◌∷◌, ◌≡◌}

abbrev question : String → RegisterElicitationInput
question key = record {
  agent_name = "coder";
  session_id = "s1";
  session_key = key;
  room_id = "!r";
  thread_root = "$t";
  tool_call_id = none;
  message = "Which branch?";
  requested_schema = "{}";
  meta = none;
  aborted = false;
}

abbrev calls : List Call
calls =
    registers "q1" (question "k1")
    ∷ registers "q2" (question "k2")
    ∷ settles "q1" (accept "main") (some "@u:x") none
    ∷ cancels_for ("k2" ∷ [])
    ∷ settles "q2" decline none none
    ∷ []

calls_kept : keys (run calls (init (some 1))).entries ≡ "q2" ∷ []
unfolding run init register settle cancel_for cancel_where cancel_request finish evict get set
    delete values keys
calls_kept = refl

abbrev asked : ElicitationCorrelator
asked = step (registers "q1" (question "k1")) (init none)

asked-Sound : Sound asked
unfolding init get
asked-Sound = step-Sound (registers "q1" (question "k1")) (init none) refl (init-Sound none)

run_answers_once_example :
    settlements "q1" (run calls (init (some 1))).log
      + one (is_some (find_pending "q1" (run calls (init (some 1)))))
    ≡ 1
run_answers_once_example = run_answers_once "q1" calls (some 1) (refl, (refl, tt))
