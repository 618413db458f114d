-- ===== src/Inbound/Tests.antt =====
-- A call in a thread, the callee's report, and a message in an open task's thread.
use zooid.Tasks
use zooid.Invocations
use zooid.Returns
use zooid.Dict.{Dict, delete, get, insert, set}
use zooid.Events.{Content, ThreadState, is_mirror_notice}
use zooid.Inbound.{Desk, Message, Office}
use zooid.Inbound.Dispatch.{dispatch}
use zooid.Inbound.Edges.{Forests}
use zooid.Inbound.Forest.{dispatch-Forests}
use zooid.Inbound.Graphs.{SameGraph}
use zooid.Inbound.Rebuild.{reader_in, rebuild_thread_state}
use zooid.Inbound.Recorded.{state_at}
use zooid.Inbound.Restarts.{Handles, rebuild-SameGraph, restart-Forests}
use zooid.Inbound.Wakes.{Wakes}
use zooid.Prelude.{List, String, [], false, map, none, refl, some, ◌∷◌, ◌≡◌}
use zooid.Router.Samples.{agents, reply, says, to_coder}

abbrev office : Office
office = record { agents = agents; known = []; decode = some; now = 0 }

abbrev desk : Dict ThreadState → Desk
desk states = record {
  thread_states = states;
  tasks = Tasks.init none none false "run";
  invocations = Invocations.init;
  returns = Returns.init 5000 none;
  queued = [];
}

abbrev message : String → String → Content → Message
message who id c = record {
  event = says who c;
  event_id = some id;
  start_attempt = none;
  has_result = false;
  body = some "done";
}

abbrev call : Message
call = message "@planner:h" "$call" (reply (some to_coder) "go on")

abbrev report : Message
report = message "@coder:h" "$report" (reply none "done")

after_call : Desk
after_call = (dispatch office call (some "$t") none (desk [])).0

call_turns :
    map {B = String × String} (λ t. (t.agent.name, t.session_key)) after_call.queued
    ≡ ("coder", "$t|$call") ∷ []
unfolding after_call dispatch get set delete insert Tasks.init Invocations.init Returns.init
    Returns.key
call_turns = refl

call_return : map (λ p. p.0) after_call.returns.pending ≡ "@coder:h::$t" ∷ []
unfolding after_call dispatch get set delete Tasks.init Invocations.init Returns.init Returns.key
call_return = refl

-- The report waits for the end of the coder's turn.
report_turns : (dispatch office report (some "$t") none after_call).0.queued ≡ after_call.queued
unfolding after_call dispatch get set delete Tasks.init Invocations.init Returns.init insert
    Returns.key
report_turns = refl

desk-Forests : Forests (desk []).thread_states
unfolding get
desk-Forests root st h = absurd (let b : none ≡ some st = h in cc)

dispatch-Forests_example : Forests (dispatch office call (some "$t") none (desk [])).0.thread_states
dispatch-Forests_example =
    dispatch-Forests office call (some "$t") none (desk [])
      (λ st h. absurd (let b : none ≡ some st = h in cc)) desk-Forests

-- The thread's events after a restart.
abbrev past : List Message
past = call ∷ report ∷ []

abbrev rebuilt_state : ThreadState
rebuilt_state = record {
  participants = "planner" ∷ "coder" ∷ [];
  root_mentions = [];
  callers = ("@coder:h", "@planner:h") ∷ [];
  handoffs = ("@coder:h", "$call" ∷ []) ∷ [];
}

rebuilt : rebuild_thread_state office "!r" none past ≡ some rebuilt_state
unfolding rebuild_thread_state get set insert
rebuilt = refl

restart-Forests_example :
    Forests
      (dispatch office report
        (some "$t")
        (rebuild_thread_state office "!r" none past)
        (desk [])).0.thread_states
restart-Forests_example =
    restart-Forests office report (some "$t") "!r" none past (desk []) desk-Forests

-- The call and the report, as the handler takes them.
past_handled :
    Handles office "$t" past (desk []) (dispatch office report (some "$t") none after_call).0
unfolding after_call dispatch get set delete insert Tasks.init Invocations.init Returns.init
    Returns.key
past_handled =
    Handles.takes call (report ∷ []) none (desk []) _ (refl, refl) refl refl refl
      (Handles.takes report [] none after_call _ (refl, refl) refl refl refl (Handles.over _))

rebuild-SameGraph_example :
    SameGraph rebuilt_state (state_at "$t" (dispatch office report (some "$t") none after_call).0)
unfolding reader_in is_mirror_notice get
rebuild-SameGraph_example =
    rebuild-SameGraph office "$t" "!r" "@planner:h" none past rebuilt_state (desk [])
      (dispatch office report (some "$t") none after_call).0 refl ((refl, refl), ((refl, refl), tt))
      (refl, refl) past_handled rebuilt
