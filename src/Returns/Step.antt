-- ===== src/Returns/Step.antt =====
-- The calls of the component as one step function, and histories of calls.
use zooid.Events.{AgentBinding}
use zooid.Prelude.{Bool, List, Option, String, [], ◌∷◌}
use zooid.Returns.{
  PendingReturns, activity, drop_thread, hold, interrupt, mark_delegated, open_call, timer_fires,
  turn_ended, turn_finished, turn_started,
}

pub data Call : Type 0 where
  opens :
      (callee thread_root room_id : String)
      → AgentBinding
      → (remote : Bool) → (caller_session_key : Option String) → Call
  holds :
      (callee thread_root room_id : String)
      → List AgentBinding
      → (body : Option String) → (remote : Bool) → Call
  marks : (callee thread_root : String) → Call
  acts : (callee thread_root : String) → Call
  starts : (agent thread_root : String) → Call
  finishes : (agent thread_root : String) → Call
  ends : (callee thread_root : String) → Call
  interrupts : (thread_root : String) → Call
  drops : (thread_root : String) → Call
  fires : (key : String) → Call

unfoldable pub step : Call → PendingReturns → PendingReturns
step (opens a r room b remote s) c = open_call a r room b remote s c
step (holds a r room bs body remote) c = hold a r room bs body remote c
step (marks a r) c = mark_delegated a r c
step (acts a r) c = activity a r c
step (starts a r) c = turn_started a r c
step (finishes a r) c = turn_finished a r c
step (ends a r) c = turn_ended a r c
step (interrupts r) c = interrupt r c
step (drops r) c = drop_thread r c
step (fires k) c = timer_fires k c

unfoldable pub run : List Call → PendingReturns → PendingReturns
unfolding step
run [] c = c
run (k ∷ ks) c = run ks (step k c)
