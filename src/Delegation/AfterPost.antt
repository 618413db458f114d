-- ===== src/Delegation/AfterPost.antt =====
-- packages/transport-matrix/src/transport.ts, `handoff`: who is busy with a call once its post has failed or
-- succeeded.
use mathlib.Core.Path.{subst}
use zooid.Calls.{compose_handoff_key}
use zooid.Delegation.{
  Board, Caller, begin, busy, is_nothing, open_key, open_task, posted, take_back,
}
use zooid.Delegation.Busy.{open-clear_summary}
use zooid.Dict.{Dict, get, set, values}
use zooid.Dict.Laws.{get-delete_self, get-set_self}
use zooid.Events.{AgentBinding}
use zooid.Handoffs.{HandoffCandidate}
use zooid.Invocations.{
  InvocationRecord, attach_call_event, is_outstanding, open_call, outstanding, outstanding_for,
  resolve, returned,
}
use zooid.Prelude.{
  Option, Option-cases, String, [], ap, arith, eq_iff, eq_refl, false, filter, inl, inr, is_some,
  non_empty, none, refl, some, sym, true, ◌&&◌, ◌==◌, ◌∙◌, ◌∷◌, ◌≡◌,
}
use zooid.Tasks.{TaskRecord, clear_summary, enclosing_task_for_root}

-- Between the two, an entry that comes and is closed counts for nothing.
closed_again :
    (session id : String) (x y : InvocationRecord) (m : Dict InvocationRecord)
    → (is_outstanding y.state && y.caller_session_key == session) ≡ false
    → is_nothing
        (filter (λ r. is_outstanding r.state && r.caller_session_key == session) (values m))
      ≡ true
    → is_nothing (
        filter
          (λ r. is_outstanding r.state && r.caller_session_key == session)
          (values (set id y (set id x m))))
      ≡ true
unfolding values set
closed_again session id x y [] off h = ground (arith, eq_refl id)
closed_again session id x y ((j, r) ∷ m) off h =
    ground (arith, eq_refl id, eq_iff j id, closed_again session id x y m off)

-- An entry that is changed in nothing that counts.
same_count :
    (session id : String) (x y : InvocationRecord) (m : Dict InvocationRecord)
    → get id m ≡ some x
    → y.state ≡ x.state
    → y.caller_session_key ≡ x.caller_session_key
    → is_nothing (
        filter
          (λ r. is_outstanding r.state && r.caller_session_key == session)
          (values (set id y m)))
      ≡ is_nothing
          (filter (λ r. is_outstanding r.state && r.caller_session_key == session) (values m))
unfolding values set get
same_count session id x y [] h e f = absurd (ground arith)
same_count session id x y ((j, r) ∷ m) h e f =
    ground (arith, eq_iff j id, eq_iff id j, same_count session id x y m)

abbrev call_of :
    Caller → AgentBinding → HandoffCandidate → (call_id id : String) → TaskRecord → InvocationRecord
call_of c me t call_id id task = record {
  invocation_id = id;
  task_id = task.task_id;
  caller_agent = me.name;
  caller_session_key = c.session_key;
  callee_agent = t.name;
  call_id = some call_id;
  call_event_id = none;
  callee_session_key = none;
  state = outstanding;
}

-- The board of a call within a task.
abbrev opened_board :
    Caller → AgentBinding → HandoffCandidate → (call_id id : String) → TaskRecord → Board → Board
opened_board c me t call_id id task b = record b {
  invocations = open_call id (call_of c me t call_id id task) b.invocations;
  tasks = clear_summary task.task_id b.tasks;
}

begin-inside :
    (c : Caller) (me : AgentBinding) (t : HandoffCandidate) (call_id id : String)
    (task : TaskRecord) (b : Board)
    → open_task c b ≡ some task
    → begin c me t call_id id b ≡ (opened_board c me t call_id id task b, some id)
unfolding begin
begin-inside c me t call_id id task b inside = rw (inside, begin) refl

take_back-inside :
    (c : Caller) (me : AgentBinding) (t : HandoffCandidate) (call_id id : String)
    (task : TaskRecord) (b : Board)
    → open_task c b ≡ some task
    → busy c me.user_id b ≡ false
    → busy c me.user_id (take_back c me.user_id (some id) (opened_board c me t call_id id task b))
      ≡ false
unfolding busy open_task outstanding_for open_call take_back resolve
take_back-inside c me t call_id id task b inside idle =
    let opened : is_some
          (enclosing_task_for_root c.thread_root (clear_summary task.task_id b.tasks))
        ≡ true =
      open-clear_summary c task.task_id b ∙ ap is_some inside in
    let mine : InvocationRecord = call_of c me t call_id id task in
    let before : is_nothing (outstanding_for c.session_key b.invocations) ≡ true =
      ground (arith, inside) in
    rw
      (
        take_back,
        resolve,
        open_call,
        get-set_self id mine b.invocations.records,
        busy,
        opened,
        outstanding_for,
        closed_again c.session_key id mine (record mine { state = returned }) b.invocations.records
            refl before,
      )
      refl

-- A call whose post fails at once leaves its caller free.
pub begin-take_back :
    (c : Caller) (me : AgentBinding) (t : HandoffCandidate) (call_id invocation_id : String)
    (b : Board)
    → busy c me.user_id b ≡ false
    → let (b', invocation) = begin c me t call_id invocation_id b in
      busy c me.user_id (take_back c me.user_id invocation b') ≡ false
unfolding begin busy open_task outstanding_for open_call take_back resolve
begin-take_back c me t call_id invocation_id b idle = elim (Option-cases (open_task c b)) [
  | inl ordinary ↦
      rw
        (
          ordinary,
          begin,
          take_back,
          busy,
          ordinary,
          get-delete_self (open_key me.user_id c.thread_root)
              (set (open_key me.user_id c.thread_root) t.user_id b.open_handoffs),
        )
        refl
  | inr (task, inside) ↦
      subst
        (λ (p : Board × Option String). busy c me.user_id (take_back c me.user_id p.1 p.0) ≡ false)
        (sym (begin-inside c me t call_id invocation_id task b inside))
        (take_back-inside c me t call_id invocation_id task b inside idle)
]

-- The event of a call that was posted changes nobody's being busy.
pub posted-busy :
    (c : Caller) (who : String) (invocation : Option String) (event_id : String) (b : Board)
    → busy c who (posted c invocation event_id b) ≡ busy c who b
unfolding busy posted open_task outstanding_for attach_call_event
posted-busy c who invocation event_id b = elim (Option-cases (non_empty (some event_id))) [
  | inl gone ↦ rw (gone, posted) refl
  | inr (event, there_is) ↦ elim (Option-cases invocation) [
    | inl ordinary ↦ rw (there_is, posted, ordinary) refl
    | inr (id, inside) ↦ elim (Option-cases (get id b.invocations.records)) [
      | inl gone ↦ rw (there_is, posted, inside, attach_call_event, gone) refl
      | inr (r, found) ↦
          rw
            (
              there_is,
              posted,
              inside,
              attach_call_event,
              found,
              busy,
              outstanding_for,
              same_count c.session_key id r
                  (record r {
                    call_event_id = some event;
                    callee_session_key = some (compose_handoff_key c.thread_root event);
                  })
                  b.invocations.records found refl refl,
            )
            refl
    ]
  ]
]
