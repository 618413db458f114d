-- ===== src/Delegation/Open.antt =====
-- packages/transport-matrix/src/transport.ts, `handoff`: when a call is started, and what it leaves open.
use mathlib.Core.Path.{subst}
use zooid.Calls.Walk.{Acyclic, Up, would_cycle_callers_iff}
use zooid.Delegation.{
  Board, Caller, Refusal, Staff, Step, Verdict, already_open, already_waiting, begin, binding_for,
  busy, finish_handoff, handoff, handoff_candidates, is_local, no_prompt, open_key, open_task,
  post_failed, remote_in_task, self, send_handoff, sending, started, stopped, take_back,
  turned_down, unknown_caller, unresolved, vet_target, waits_on,
}
use zooid.Delegation.AfterPost.{begin-take_back, posted-busy}
use zooid.Delegation.Busy.{begin-busy}
use zooid.Delegation.Causes.{Cause, vetted-Cause}
use zooid.Dict.{get}
use zooid.Dict.Laws.{get-delete_self}
use zooid.Events.{AgentBinding, ThreadState}
use zooid.Handoffs.{
  HandoffCandidate, HandoffResolution, Reason, ok, refused, resolve_handoff_target,
}
use zooid.Handoffs.Targets.{Meant, resolve_handoff_target-Meant}
use zooid.Invocations.{InvocationRecord, is_outstanding}
use zooid.Invocations.Lifecycle.{resolve_closes}
use zooid.Prelude.{
  Bool, Bool-cases, Option, Option-cases, String, arith, eq_iff, false, if◌then◌else◌, includes,
  inl, inr, is_some, none, not, refl, some, true, ◌&&◌, ◌==◌, ◌≡◌, ◌≢◌, ◌⊎◌,
}
use zooid.Texts.{trim}

-- A check that is passed.
passed :
    (c : Bool) (r : Refusal) (rest : Option Refusal)
    → (if c then some r else rest) ≡ none
    → (c ≡ false) × (rest ≡ none)
passed true r rest h = absurd (let e : some r ≡ none = h in cc)
passed false r rest h = (refl, h)

-- What holds of a call whose message is on its way: `middle` is the board that it leaves.
pub record Sent (s : Staff) (c : Caller) (query : String) (b middle : Board) (me : AgentBinding)
    (t : HandoffCandidate) (invocation : Option String) : Type 0 where
  pub known : binding_for s c.agent_name ≡ some me
  pub in_room : includes c.channel_id t.rooms ≡ true
  pub meant : Meant (trim query) t (handoff_candidates s)
  pub other : t.user_id ≢ me.user_id
  pub apart :
      (st : ThreadState)
      → get c.thread_root b.thread_states ≡ some st
      → ¬ Up st.callers me.user_id t.user_id
  pub near : is_some (open_task c b) ≡ true → is_local s t.user_id ≡ true
  pub idle : busy c me.user_id b ≡ false
  pub taken : busy c me.user_id middle ≡ true
  pub undone : busy c me.user_id (take_back c me.user_id invocation middle) ≡ false

-- Nothing is left open of a call: no handoff of the caller in the thread, and no invocation of its id.
abbrev pub CallOver : Caller → String → Option String → Board → Type 0
CallOver c who invocation b =
    (get (open_key who c.thread_root) b.open_handoffs ≡ none)
    × ((id : String) (x : InvocationRecord)
        → invocation ≡ some id
        → get id b.invocations.records ≡ some x
        → is_outstanding x.state ≡ false)

-- How a call ends: it is turned down before the post and nothing changes, its post fails and it is over,
-- or it is started.
pub data Handled (s : Staff) (c : Caller) (query prompt call_id : String)
    (meanwhile : Board → Board) (b b' : Board) : Verdict → Type 0 where
  declined :
      (why : Refusal)
      → Cause s c query prompt b why
      → b' ≡ b
      → Handled s c query prompt call_id meanwhile b b' (turned_down why)
  failed :
      (middle : Board) (me : AgentBinding) (t : HandoffCandidate) (invocation : Option String)
      → Sent s c query b middle me t invocation
      → CallOver c me.user_id invocation b'
      → b'.tasks ≡ (meanwhile middle).tasks
      → Handled s c query prompt call_id meanwhile b b' (turned_down post_failed)
  begun :
      (middle : Board) (me : AgentBinding) (t : HandoffCandidate) (invocation : Option String)
      → Sent s c query b middle me t invocation
      → busy c me.user_id b' ≡ busy c me.user_id (meanwhile middle)
      → Handled s c query prompt call_id meanwhile b b' (started call_id t)

Resolution-cases :
    (x : HandoffResolution)
    → ((why : Reason) × (x ≡ refused why)) ⊎ ((t : HandoffCandidate) × (x ≡ ok t))
Resolution-cases (refused why) = inl (why, refl)
Resolution-cases (ok t) = inr (t, refl)

take_back-CallOver :
    (c : Caller) (who : String) (invocation : Option String) (b : Board)
    → CallOver c who invocation (take_back c who invocation b)
unfolding take_back
take_back-CallOver c who invocation b = (
  get-delete_self (open_key who c.thread_root) b.open_handoffs,
  λ id x inside found.
      resolve_closes id b.invocations x
        (subst (λ o. get id (take_back c who o b).invocations.records ≡ some x) inside found),
)

-- Nobody who waits for the caller, directly or through others, is called.
waits_on-apart :
    (c : Caller) (target who : String) (b : Board) (st : ThreadState)
    → get c.thread_root b.thread_states ≡ some st
    → Acyclic st.callers
    → waits_on c target who b ≡ false
    → ¬ Up st.callers who target
unfolding waits_on
waits_on-apart c target who b st found acyclic free up =
    let closes = (would_cycle_callers_iff st.callers target who acyclic).1 up in
    absurd (let e : true ≡ false = rw (found, waits_on, closes) at free in cc)

vetted-Sent :
    (s : Staff) (c : Caller) (query : String) (me : AgentBinding) (t : HandoffCandidate)
    (call_id invocation_id : String) (b : Board)
    → ((st : ThreadState) → get c.thread_root b.thread_states ≡ some st → Acyclic st.callers)
    → binding_for s c.agent_name ≡ some me
    → resolve_handoff_target query c.channel_id (handoff_candidates s) ≡ ok t
    → vet_target s c me t b ≡ none
    → let (middle, invocation) = begin c me t call_id invocation_id b in
      Sent s c query b middle me t invocation
unfolding vet_target
vetted-Sent s c query me t call_id invocation_id b acyclic known found vetted =
    let (other, h) = passed (t.user_id == me.user_id) self _ vetted in
    let (free_of, h) = passed (waits_on c t.user_id me.user_id b) already_waiting _ h in
    let (near, h) =
      passed (is_some (open_task c b) && not (is_local s t.user_id)) remote_in_task _ h in
    let (idle, h) = passed (busy c me.user_id b) already_open _ h in
    let (in_room, meant) =
      resolve_handoff_target-Meant query c.channel_id (handoff_candidates s) t found in
    record {
      known = known;
      in_room = in_room;
      meant = meant;
      other = λ e. absurd (ground (arith, e, other, eq_iff t.user_id me.user_id));
      apart = λ st h. waits_on-apart c t.user_id me.user_id b st h (acyclic st h) free_of;
      near = λ inside. ground (arith, near, inside);
      idle = idle;
      taken = begin-busy c me t call_id invocation_id b;
      undone = begin-take_back c me t call_id invocation_id b idle;
    }

-- How the first half ends.
data Tried (s : Staff) (c : Caller) (query prompt : String) (b b' : Board) : Step → Type 0 where
  halted :
      (why : Refusal)
      → Cause s c query prompt b why
      → b' ≡ b
      → Tried s c query prompt b b' (stopped why)
  on_its_way :
      (me : AgentBinding) (t : HandoffCandidate) (invocation : Option String)
      → Sent s c query b b' me t invocation
      → Tried s c query prompt b b' (sending me t invocation)

send_handoff-Tried :
    (s : Staff) (c : Caller) (query prompt call_id invocation_id : String) (b : Board)
    → ((st : ThreadState) → get c.thread_root b.thread_states ≡ some st → Acyclic st.callers)
    → Tried s c query prompt b
        (send_handoff s c query prompt call_id invocation_id b).0
        (send_handoff s c query prompt call_id invocation_id b).1
unfolding send_handoff
send_handoff-Tried s c query prompt call_id invocation_id b acyclic =
    elim (Option-cases (binding_for s c.agent_name)) [
      | inl stranger ↦ rw (stranger, send_handoff) (Tried.halted unknown_caller stranger refl)
      | inr (me, known) ↦ elim (Bool-cases (trim prompt == "")) [
        | inl blank_one ↦
            rw (known, send_handoff, blank_one)
              (Tried.halted no_prompt ((eq_iff (trim prompt) "").0 blank_one) refl)
        | inr worded ↦
            elim (Resolution-cases
              (resolve_handoff_target query c.channel_id (handoff_candidates s))) [
                | inl (why, missed) ↦
                    rw (known, send_handoff, worded, missed)
                      (Tried.halted (unresolved why) missed refl)
                | inr (t, found) ↦ elim (Option-cases (vet_target s c me t b)) [
                  | inr (why, refusing) ↦
                      rw (known, send_handoff, worded, found, refusing)
                        (Tried.halted why
                          (vetted-Cause s c query prompt me t b why acyclic known found refusing)
                          refl)
                  | inl vetted ↦
                      rw (known, send_handoff, worded, found, vetted)
                        (Tried.on_its_way me t (begin c me t call_id invocation_id b).1 (
                          vetted-Sent s c query me t call_id invocation_id b acyclic known found
                            vetted))
                ]
              ]
      ]
    ]

-- How the second half ends, whatever the first came to.
ended :
    (s : Staff) (c : Caller) (query prompt call_id : String) (meanwhile : Board → Board)
    (post : Option String) (b middle : Board) (step : Step)
    → Tried s c query prompt b middle step
    → Handled s c query prompt call_id meanwhile b
        (finish_handoff c call_id meanwhile post middle step).0
        (finish_handoff c call_id meanwhile post middle step).1
unfolding finish_handoff take_back
ended s c query prompt call_id meanwhile post b middle _ (halted why early still) =
    Handled.declined why early still
ended s c query prompt call_id meanwhile none b middle _ (on_its_way me t invocation sent) =
    Handled.failed middle me t invocation sent
      (take_back-CallOver c me.user_id invocation (meanwhile middle)) refl
ended s c query prompt call_id meanwhile (some event_id) b middle _
      (on_its_way me t invocation sent) =
    Handled.begun middle me t invocation sent
      (posted-busy c me.user_id invocation event_id (meanwhile middle))

-- Let the calls of the thread close no cycle, and anything happen while the handler waits for the post.
-- A handoff that is refused before the post changes nothing, and what the refusal says is so: the caller
-- is unknown, the prompt is blank, the query is not resolved for the reason given, or the agent that it
-- names is the caller, waits for it in the thread, is not local in an open task's thread, or the
-- caller is busy. One that is posted goes to a candidate of the caller's room, the only one that the
-- query means, other than the caller, which does not wait for the caller in the thread, directly or
-- through others, and is local where the thread is an open task's. Its caller was not busy with a
-- handoff in the thread, or in its session of the task, and is busy when the message leaves; taking
-- the call back at once makes the caller free, and a post that succeeds leaves the caller as busy as it
-- then is. If the post fails, the answer is that it failed, and nothing of the call is left open,
-- whatever happened meanwhile; the tasks stay as they are then.
pub handoff-Handled :
    (s : Staff) (c : Caller) (query prompt call_id invocation_id : String)
    (meanwhile : Board → Board) (post : Option String) (b : Board)
    → ((st : ThreadState) → get c.thread_root b.thread_states ≡ some st → Acyclic st.callers)
    → Handled s c query prompt call_id meanwhile b
        (handoff s c query prompt call_id invocation_id meanwhile post b).0
        (handoff s c query prompt call_id invocation_id meanwhile post b).1
unfolding handoff
handoff-Handled s c query prompt call_id invocation_id meanwhile post b acyclic =
    ended s c query prompt call_id meanwhile post b _ _
      (send_handoff-Tried s c query prompt call_id invocation_id b acyclic)
