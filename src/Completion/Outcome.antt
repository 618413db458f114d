-- ===== src/Completion/Outcome.antt =====
-- When a task stays open, and when it is complete.
use zooid.Completion.{
  CompletionDecision, CompletionInputs, Status, StopReason, cancelled, complete, end_turn,
  evaluate_completion, evaluate_end, failed, finish, max_tokens, max_turn_requests, output_of,
  refusal, stay_open,
}
use zooid.Prelude.{
  Bool, Option, Option-cases, String, arith, false, if◌then◌else◌, inl, inr, is_some, ltb,
  non_empty, none, not, refl, some, true, ◌&&◌, ◌||◌, ◌≡◌,
}

-- The turn ended without an error and of itself.
abbrev pub ended_well : CompletionInputs → Bool
ended_well i = elim i.error [
  | some e ↦ false
  | none ↦ elim i.stop_reason [
    | none ↦ true
    | some end_turn ↦ true
    | some cancelled ↦ false
    | some max_tokens ↦ false
    | some max_turn_requests ↦ false
    | some refusal ↦ false
  ]
]

abbrev pub waits : CompletionInputs → Bool
waits i = ltb 0 i.awaiting_human || ltb 0 i.outstanding

-- The turn has a result: its summary, or else its prose.
abbrev pub result_of : CompletionInputs → Option String
result_of i = elim (non_empty i.summary) [ none ↦ output_of i | some s ↦ some s ]

abbrev pub stays : CompletionDecision → Bool
stays (stay_open r) = true
stays (finish c) = false

abbrev pub is_complete : Status → Bool
is_complete complete = true
is_complete _ = false

-- Whether a decision completes its task, and with what output.
abbrev pub completes : CompletionDecision → Option (Option String)
completes (stay_open r) = none
completes (finish c) = if is_complete c.status then some c.output else none

-- A turn that ended well, for which nobody is waited, has its result as output.
abbrev pub expected : CompletionInputs → Option (Option String)
expected i =
    if ended_well i && not (waits i)
    then (elim (result_of i) [ none ↦ none | some s ↦ some (some s) ])
    else none

abbrev pub is_failed : Status → Bool
is_failed failed = true
is_failed _ = false

abbrev pub fails : CompletionDecision → Bool
fails (stay_open r) = false
fails (finish c) = is_failed c.status

-- The turn failed: an error, a refusal, or an end with nothing to show.
abbrev pub went_wrong : CompletionInputs → Bool
went_wrong i = elim i.error [
  | some e ↦ true
  | none ↦ elim i.stop_reason [
    | none ↦ not (waits i) && not (is_some (result_of i))
    | some end_turn ↦ not (waits i) && not (is_some (result_of i))
    | some cancelled ↦ false
    | some max_tokens ↦ false
    | some max_turn_requests ↦ false
    | some refusal ↦ true
  ]
]

end_of-evaluate :
    (i : CompletionInputs)
    → (stays (evaluate_end i) ≡ waits i)
      × (completes (evaluate_end i) ≡ (
          if waits i then none else (elim (result_of i) [ none ↦ none | some s ↦ some (some s) ])))
      × (fails (evaluate_end i) ≡ (not (waits i) && not (is_some (result_of i))))
end_of-evaluate i = elim (Option-cases (non_empty i.summary)) [
  | inr (s, e) ↦ (ground arith, ground arith, ground arith)
  | inl gone ↦ elim (Option-cases (output_of i)) [
    | inr (t, e) ↦ (ground arith, ground arith, ground arith)
    | inl bare ↦ (ground arith, ground arith, ground arith)
  ]
]

by_reason :
    (i : CompletionInputs) (r : StopReason)
    → i.error ≡ none
    → i.stop_reason ≡ some r
    → (stays (evaluate_completion i) ≡ (ended_well i && waits i))
      × (completes (evaluate_completion i) ≡ expected i)
      × (fails (evaluate_completion i) ≡ went_wrong i)
unfolding evaluate_completion
by_reason i end_turn clean stop =
    let (a, b, c) = end_of-evaluate i in rw (clean, stop, evaluate_completion) (a, ground arith, c)
by_reason i max_tokens clean stop = rw (clean, stop, evaluate_completion) (refl, refl, refl)
by_reason i max_turn_requests clean stop = rw (clean, stop, evaluate_completion) (refl, refl, refl)
by_reason i refusal clean stop = rw (clean, stop, evaluate_completion) (refl, refl, refl)
by_reason i cancelled clean stop = rw (clean, stop, evaluate_completion) (refl, refl, refl)

-- A task stays open exactly if the turn ended well and somebody is still waited for; it is completed
-- exactly if the turn ended well, nobody is waited for and there is a result, and then with that result:
-- the summary, or else the prose. It fails exactly at an error, at a refusal, or where the turn ended
-- well, nobody is waited for and there is no result.
pub evaluate_completion_outcome :
    (i : CompletionInputs)
    → (stays (evaluate_completion i) ≡ (ended_well i && waits i))
      × (completes (evaluate_completion i) ≡ expected i)
      × (fails (evaluate_completion i) ≡ went_wrong i)
unfolding evaluate_completion
evaluate_completion_outcome i = elim (Option-cases i.error) [
  | inr (e, failure) ↦ rw (failure, evaluate_completion) (ground arith, ground arith, ground arith)
  | inl clean ↦ elim (Option-cases i.stop_reason) [
    | inl silent ↦
        let (a, b, c) = end_of-evaluate i in
        rw (clean, silent, evaluate_completion) (a, ground arith, c)
    | inr (r, stop) ↦ by_reason i r clean stop
  ]
]
