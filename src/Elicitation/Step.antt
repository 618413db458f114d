-- ===== src/Elicitation/Step.antt =====
-- The calls of the correlator as one step function, and histories of calls.
use zooid.Prelude.{String, Option, List, [], ◌∷◌}
use zooid.Elicitation.{
  ElicitationResponse, RegisterElicitationInput, ElicitationCorrelator, register,
  attach_request_event, settle, cancel_request, fail, cancel_session, cancel_for,
}

-- `aborts` is the listener on the request's signal.
pub data Call : Type 0 where
  registers : (request_id : String) → RegisterElicitationInput → Call
  aborts : (request_id : String) → Call
  attaches : (request_id event_id : String) → Call
  settles :
      (request_id : String)
      → ElicitationResponse
      → (responded_by response_event_id : Option String) → Call
  cancels : (request_id reason : String) → Call
  fails : (request_id error : String) → Call
  cancels_session : (session_id reason : String) → Call
  cancels_for : (session_keys : List String) → Call

unfoldable pub step : Call → ElicitationCorrelator → ElicitationCorrelator
step (registers i input) c = register i input c
step (aborts i) c = (cancel_request i "agent_cancelled" c).0
step (attaches i event) c = attach_request_event i event c
step (settles i r by event) c = (settle i r by event c).0
step (cancels i reason) c = (cancel_request i reason c).0
step (fails i err) c = (fail i err c).0
step (cancels_session s reason) c = (cancel_session s reason c).0
step (cancels_for ks) c = cancel_for ks c

unfoldable pub run : List Call → ElicitationCorrelator → ElicitationCorrelator
unfolding step
run [] c = c
run (k ∷ ks) c = run ks (step k c)
