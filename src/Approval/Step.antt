-- ===== src/Approval/Step.antt =====
-- The calls of the correlator as one step function, and histories of calls.
use zooid.Prelude.{ℕ, String, Option, List, [], ◌∷◌}
use zooid.Approval.{
  ApprovalRequest, ApprovalDecision, ApprovalCorrelator, register, timer_fires, resolve,
  resolve_by_id, cancel_session,
}

pub data Call : Type 0 where
  registers :
      (approval_id agent_name session_id : String)
      → ApprovalRequest
      → (timeout_ms : Option ℕ) → Call
  fires : (approval_id : String) → Call
  resolves : (session_id approval_id : String) → ApprovalDecision → Call
  resolves_by_id : (approval_id : String) → ApprovalDecision → Call
  cancels : (session_id : String) → Call

unfoldable pub step : Call → ApprovalCorrelator → ApprovalCorrelator
step (registers i a s r t) c = (register i a s r t c).0
step (fires i) c = timer_fires i c
step (resolves s i d) c = (resolve s i d c).0
step (resolves_by_id i d) c = (resolve_by_id i d c).0
step (cancels s) c = cancel_session s c

unfoldable pub run : List Call → ApprovalCorrelator → ApprovalCorrelator
unfolding step
run [] c = c
run (k ∷ ks) c = run ks (step k c)
