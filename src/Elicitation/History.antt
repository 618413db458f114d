-- ===== src/Elicitation/History.antt =====
-- Whole histories of calls: each promise is settled once, and memory stays bounded.
use zooid.Dict.{count, get, has, values}
use zooid.Dict.Count.{one}
use zooid.Elicitation.{
  ElicitationCorrelator, PendingElicitation, attach_request_event, cancel_for, cancel_request,
  cancel_session, cancel_where, fail, find_pending, finish, has_key, in_session, init, register,
  settle,
}
use zooid.Elicitation.Bounded.{IsNew, Sound, init-Sound, step-Sound}
use zooid.Elicitation.Known.{
  has-attach, has-cancel_request, has-cancel_where, has-fail, has-register, has-settle,
}
use zooid.Elicitation.Settles.{
  accounted, accounted-attach, accounted-cancel_request, accounted-cancel_where, accounted-fail,
  accounted-register, accounted-settle, settlements,
}
use zooid.Elicitation.Step.{
  Call, aborts, attaches, cancels, cancels_for, cancels_session, fails, registers, run, settles,
  step,
}
use zooid.Elicitation.Valid.{is_terminal}
use zooid.Prelude.{
  Bool, Distinct, List, Option, String, [], arith, default, eq_iff, eq_refl, false, includes,
  includes-append, is_some, refl, true, ℕ, ◌++◌, ◌+◌, ◌<◌, ◌||◌, ◌∙◌, ◌∷◌, ◌≡◌, ◌≤◌,
}

-- Every stored record is accounted for.
abbrev Known : ElicitationCorrelator → Type 0
Known c = (j : String) → has j c.entries ≡ true → 0 < accounted j c

-- The id that a call registers.
abbrev new_id : Call → List String
new_id (registers i input) = i ∷ []
new_id _ = []

abbrev pub new_ids : List Call → List String
new_ids [] = []
new_ids (k ∷ ks) = new_id k ++ new_ids ks

accounted-step :
    (j : String) (k : Call) (c : ElicitationCorrelator)
    → IsNew k c
    → Sound c
    → accounted j (step k c) ≡ accounted j c + one (includes j (new_id k))
unfolding step cancel_session cancel_for
accounted-step j (registers i input) c h v = ground (arith, accounted-register j i input c h v)
accounted-step j (aborts i) c h v =
    omega (arith, accounted-cancel_request j i "agent_cancelled" c v)
accounted-step j (attaches i event) c h v = omega (arith, accounted-attach j i event c)
accounted-step j (settles i r by event) c h v = omega (arith, accounted-settle j i r by event c v)
accounted-step j (cancels i reason) c h v = omega (arith, accounted-cancel_request j i reason c v)
accounted-step j (fails i err) c h v = omega (arith, accounted-fail j i err c v)
accounted-step j (cancels_session s reason) c h v =
    omega (arith, accounted-cancel_where j (in_session s) reason (values c.entries) c v)
accounted-step j (cancels_for ks) c h v =
    omega (arith, accounted-cancel_where j (has_key ks) "task_closed" (values c.entries) c v)

has-step :
    (j : String) (k : Call) (c : ElicitationCorrelator)
    → IsNew k c
    → Sound c
    → has j (step k c).entries ≡ true
    → (includes j (new_id k) || has j c.entries) ≡ true
unfolding step cancel_session cancel_for
has-step j (registers i input) c h v k = ground (arith, has-register j i input c h v k)
has-step j (aborts i) c h v k = has-cancel_request j i "agent_cancelled" c v k
has-step j (attaches i event) c h v k = has-attach j i event c k
has-step j (settles i r by event) c h v k = has-settle j i r by event c v k
has-step j (cancels i reason) c h v k = has-cancel_request j i reason c v k
has-step j (fails i err) c h v k = has-fail j i err c v k
has-step j (cancels_session s reason) c h v k =
    has-cancel_where j (in_session s) reason (values c.entries) c v k
has-step j (cancels_for ks) c h v k =
    has-cancel_where j (has_key ks) "task_closed" (values c.entries) c v k

step-Known :
    (k : Call) (c : ElicitationCorrelator) → IsNew k c → Sound c → Known c → Known (step k c)
step-Known k c h v known j at =
    ground (arith, known j, accounted-step j k c h v, has-step j k c h v at)

accounted-IsNew :
    (k : Call) (c : ElicitationCorrelator)
    → Known c
    → ((i : String) → includes i (new_id k) ≡ true → accounted i c ≡ 0)
    → IsNew k c
accounted-IsNew (registers i input) c known h = ground (arith, h i, known i, eq_refl i)
accounted-IsNew _ c known h = tt

Distinct-tail : (k : Call) (ids : List String) → Distinct (new_id k ++ ids) → Distinct ids
Distinct-tail (registers i input) ids h = h.1
Distinct-tail _ ids h = h

Distinct-head :
    (k : Call) (ids : List String) (j : String)
    → Distinct (new_id k ++ ids)
    → includes j ids ≡ true
    → includes j (new_id k) ≡ false
Distinct-head (registers i input) ids j h m = ground (arith, eq_iff i j)
Distinct-head _ ids j h m = refl

run_lem :
    (j : String) (ks : List Call) (c : ElicitationCorrelator)
    → Distinct (new_ids ks)
    → ((i : String) → includes i (new_ids ks) ≡ true → accounted i c ≡ 0)
    → Known c
    → Sound c
    → (accounted j (run ks c) ≡ accounted j c + one (includes j (new_ids ks))) × Sound (run ks c)
unfolding run
run_lem j [] c d h known v = (omega arith, v)
run_lem j (k ∷ ks) c d h known v =
    let fresh =
      accounted-IsNew k c known
        (λ i hi. h i (ground (arith, includes-append i (new_id k) (new_ids ks)))) in
    let rest =
      run_lem j ks (step k c) (Distinct-tail k (new_ids ks) d)
        (λ i hi. ground (
          arith,
          h i,
          includes-append i (new_id k) (new_ids ks),
          accounted-step i k c fresh v,
          Distinct-head k (new_ids ks) i d hi,
        ))
        (step-Known k c fresh v known) (step-Sound k c fresh v) in
    (
      ground (
        arith,
        rest.0,
        accounted-step j k c fresh v,
        includes-append j (new_id k) (new_ids ks),
        Distinct-head k (new_ids ks) j d,
      ),
      rest.1,
    )

run-init :
    (j : String) (ks : List Call) (cap : Option ℕ)
    → Distinct (new_ids ks)
    → (accounted j (run ks (init cap)) ≡ one (includes j (new_ids ks))) × Sound (run ks (init cap))
unfolding init get
run-init j ks cap d =
    let (once, sound) =
      run_lem j ks (init cap) d (λ i h. refl) (λ i h. absurd (ground arith)) (init-Sound cap) in
    (omega (arith, once), sound)

-- In every history whose registrations bring distinct ids, the settlements of a request's promise,
-- and one more while the request is pending, make one if it was registered and none if it was not:
-- a question put to a human is answered, cancelled or failed once at most.
pub run_answers_once :
    (j : String) (ks : List Call) (cap : Option ℕ)
    → Distinct (new_ids ks)
    → settlements j (run ks (init cap)).log + one (is_some (find_pending j (run ks (init cap))))
      ≡ one (includes j (new_ids ks))
run_answers_once j ks cap d = (run-init j ks cap d).0

cap-cancel_where :
    (p : PendingElicitation → Bool) (reason : String) (es : List PendingElicitation)
    (c : ElicitationCorrelator)
    → (cancel_where p reason es c).0.terminal_cap ≡ c.terminal_cap
unfolding cancel_where cancel_request finish
cap-cancel_where p reason [] c = refl
cap-cancel_where p reason (e ∷ es) c = cap-cancel_where p reason es _ ∙ ground arith

-- The cap is set once.
cap-step : (k : Call) (c : ElicitationCorrelator) → (step k c).terminal_cap ≡ c.terminal_cap
unfolding step register attach_request_event settle cancel_request fail finish cancel_session
    cancel_for
cap-step (registers i input) c = ground arith
cap-step (aborts i) c = ground arith
cap-step (attaches i event) c = ground arith
cap-step (settles i r by event) c = ground arith
cap-step (cancels i reason) c = ground arith
cap-step (fails i err) c = ground arith
cap-step (cancels_session s reason) c = cap-cancel_where (in_session s) reason (values c.entries) c
cap-step (cancels_for ks) c = cap-cancel_where (has_key ks) "task_closed" (values c.entries) c

cap-run : (ks : List Call) (c : ElicitationCorrelator) → (run ks c).terminal_cap ≡ c.terminal_cap
unfolding run
cap-run [] c = refl
cap-run (k ∷ ks) c = cap-run ks (step k c) ∙ cap-step k c

-- In every history whose registrations bring distinct ids, no more answered records stay in memory
-- than the cap that the correlator was made with, 500 if none was given.
run_bounded :
    (ks : List Call) (cap : Option ℕ)
    → Distinct (new_ids ks)
    → count is_terminal (run ks (init cap)).entries ≤ default cap 500
unfolding init
run_bounded ks cap d =
    let v = (run-init "" ks cap d).1 in
    omega (arith, v.bounded, v.valid.counted, cap-run ks (init cap))
