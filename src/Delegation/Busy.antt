-- ===== src/Delegation/Busy.antt =====
-- packages/transport-matrix/src/transport.ts, `handoff`: who is busy with a call, from its start on.
use zooid.Delegation.{Board, Caller, begin, busy, is_nothing, open_key, open_task}
use zooid.Dict.{Dict, get, set, values}
use zooid.Dict.Laws.{get-set, get-set_self}
use zooid.Events.{AgentBinding}
use zooid.Handoffs.{HandoffCandidate}
use zooid.Invocations.{InvocationRecord, is_outstanding, open_call, outstanding, outstanding_for}
use zooid.Prelude.{
  Option-cases, String, [], ap, arith, eq_iff, eq_refl, false, filter, inl, inr, is_some, none,
  refl, some, true, ◌&&◌, ◌==◌, ◌∙◌, ◌∷◌, ◌≡◌,
}
use zooid.Tasks.{clear_summary, enclosing_task_for_root, task_for_root}

-- Lookups after a summary is cleared: the same tasks are open.
pub open-clear_summary :
    (c : Caller) (id : String) (b : Board)
    → is_some (enclosing_task_for_root c.thread_root (clear_summary id b.tasks))
      ≡ is_some (enclosing_task_for_root c.thread_root b.tasks)
unfolding enclosing_task_for_root task_for_root clear_summary
open-clear_summary c id b = elim (Option-cases (get id b.tasks.tasks)) [
  | inl gone ↦ rw (gone, clear_summary) refl
  | inr (r, found) ↦ elim (Option-cases (get c.thread_root b.tasks.by_root)) [
    | inl rootless ↦
        rw (found, clear_summary, rootless, enclosing_task_for_root, task_for_root) refl
    | inr (i, rooted) ↦
        ground (arith, get-set i id (record r { summary = none }) b.tasks.tasks, eq_iff id i)
  ]
]

still_there :
    (session id : String) (r : InvocationRecord) (m : Dict InvocationRecord)
    → (is_outstanding r.state && r.caller_session_key == session) ≡ true
    → is_nothing (
        filter
          (λ x. is_outstanding x.state && x.caller_session_key == session)
          (values (set id r m)))
      ≡ false
unfolding values set
still_there session id r [] h = ground arith
still_there session id r ((j, x) ∷ m) h = ground (arith, still_there session id r m h)

pub begin-busy :
    (c : Caller) (me : AgentBinding) (t : HandoffCandidate) (call_id invocation_id : String)
    (b : Board)
    → busy c me.user_id (begin c me t call_id invocation_id b).0 ≡ true
unfolding begin busy open_task outstanding_for open_call
begin-busy c me t call_id invocation_id b = elim (Option-cases (open_task c b)) [
  | inl ordinary ↦
      rw
        (
          ordinary,
          begin,
          busy,
          ordinary,
          get-set_self (open_key me.user_id c.thread_root) t.user_id b.open_handoffs,
        )
        refl
  | inr (task, inside) ↦
      let opened : is_some
            (enclosing_task_for_root c.thread_root (clear_summary task.task_id b.tasks))
          ≡ true =
        open-clear_summary c task.task_id b ∙ ap is_some inside in
      let mine : InvocationRecord = record {
        invocation_id = invocation_id;
        task_id = task.task_id;
        caller_agent = me.name;
        caller_session_key = c.session_key;
        callee_agent = t.name;
        call_id = some call_id;
        call_event_id = none;
        callee_session_key = none;
        state = outstanding;
      } in
      rw
        (
          inside,
          begin,
          busy,
          opened,
          outstanding_for,
          open_call,
          still_there c.session_key invocation_id mine b.invocations.records
              (eq_refl c.session_key),
        )
        refl
]
