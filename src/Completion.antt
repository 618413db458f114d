-- ===== src/Completion.antt =====
-- packages/transport-matrix/src/task-completion.ts, `evaluateCompletion`: what the end of a turn makes of
-- its thread.
pub mod Outcome
mod Tests
use zooid.Prelude.{Option, String, if◌then◌else◌, ltb, non_empty, none, some, ℕ}
use zooid.Texts.{trim}

pub data StopReason : Type 0 where
  end_turn max_tokens max_turn_requests refusal cancelled : StopReason

-- An error is its message.
pub record CompletionInputs : Type 0 where
  pub agent : String
  pub thread_id : String
  pub stop_reason : Option StopReason
  pub error : Option String
  pub summary : Option String
  pub prose : Option String
  pub outstanding : ℕ
  pub awaiting_human : ℕ

pub data Status : Type 0 where
  complete failed aborted partial : Status

-- `outstanding_handoff` and `awaiting_human`.
pub data WaitReason : Type 0 where
  awaits_handoff awaits_human : WaitReason

-- An output is its text; the status `cancelled` is `aborted`.
pub record ThreadCompletion : Type 0 where
  pub agent : String
  pub thread_id : String
  pub status : Status
  pub output : Option String
  pub reason : Option String
  pub error : Option String

pub data CompletionDecision : Type 0 where
  stay_open : WaitReason → CompletionDecision
  finish : ThreadCompletion → CompletionDecision

-- The text of the turn's prose, if it has one.
unfoldable pub output_of : CompletionInputs → Option String
unfolding trim
output_of i = elim i.prose [ none ↦ none | some p ↦ non_empty (some (trim p)) ]

abbrev pub finished :
    CompletionInputs → Status → (output reason error : Option String) → CompletionDecision
finished i status output reason error = finish (record {
  agent = i.agent;
  thread_id = i.thread_id;
  status = status;
  output = output;
  reason = reason;
  error = error;
})

-- The decision for a turn that ended of itself.
abbrev pub evaluate_end : CompletionInputs → CompletionDecision
evaluate_end i =
    if ltb 0 i.awaiting_human
    then stay_open awaits_human
    else if ltb 0 i.outstanding
    then stay_open awaits_handoff
    else elim (non_empty i.summary) [
      | some s ↦ finished i complete (some s) none none
      | none ↦ elim (output_of i) [
        | some t ↦ finished i complete (some t) none none
        | none ↦ finished i failed none (some "no_result") (some "No result produced")
      ]
    ]

unfoldable pub evaluate_completion : CompletionInputs → CompletionDecision
unfolding output_of
evaluate_completion i = elim i.error [
  | some e ↦ finished i failed (output_of i) none (some e)
  | none ↦ elim i.stop_reason [
    | none ↦ evaluate_end i
    | some end_turn ↦ evaluate_end i
    | some cancelled ↦ finished i aborted (output_of i) none none
    | some max_tokens ↦ finished i partial (output_of i) (some "max_tokens") none
    | some max_turn_requests ↦ finished i partial (output_of i) (some "max_turn_requests") none
    | some refusal ↦ finished i failed (output_of i) (some "refusal") none
  ]
]
