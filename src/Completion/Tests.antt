-- ===== src/Completion/Tests.antt =====
-- The end of a turn with prose, and with a human still asked.
use zooid.Completion.{CompletionInputs, awaits_human, end_turn, evaluate_completion, stay_open}
use zooid.Completion.Outcome.{
  completes, ended_well, evaluate_completion_outcome, expected, fails, stays, waits, went_wrong,
}
use zooid.Prelude.{none, refl, some, true, ℕ, ◌&&◌, ◌≡◌}

abbrev turn : ℕ → CompletionInputs
turn n = record {
  agent = "coder";
  thread_id = "$t";
  stop_reason = some end_turn;
  error = none;
  summary = some "";
  prose = some " done ";
  outstanding = 0;
  awaiting_human = n;
}

abbrev silent_turn : CompletionInputs
silent_turn = record (turn 0) { prose = none }

-- An empty success is a failure.
decisions :
    (completes (evaluate_completion (turn 0)) ≡ some (some "done"))
    × (evaluate_completion (turn 1) ≡ stay_open awaits_human)
    × (completes (evaluate_completion silent_turn) ≡ none)
    × (fails (evaluate_completion silent_turn) ≡ true)
unfolding evaluate_completion
decisions = (refl, refl, refl, refl)

evaluate_completion_outcome_example :
    (stays (evaluate_completion (turn 1)) ≡ (ended_well (turn 1) && waits (turn 1)))
    × (completes (evaluate_completion (turn 1)) ≡ expected (turn 1))
    × (fails (evaluate_completion (turn 1)) ≡ went_wrong (turn 1))
evaluate_completion_outcome_example = evaluate_completion_outcome (turn 1)
