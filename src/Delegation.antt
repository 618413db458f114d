-- ===== src/Delegation.antt =====
-- packages/transport-matrix/src/transport.ts, `handoff` of the task actions: an agent calls another. All up to
-- the post of the message runs at once; then the handler waits for the post, while `meanwhile` changes the
-- board, and ends by the post's outcome: the event's id, or none where it failed. The uuids of the call and
-- of the invocation are arguments.
pub mod Busy
pub mod AfterPost
pub mod Causes
pub mod Open
mod Tests
use zooid.Calls.{compose_handoff_key, would_cycle_callers}
use zooid.Dict.{Dict, delete, get, has, set, values}
use zooid.Events.{AgentBinding, RoomBinding, ThreadState}
use zooid.Handoffs.{HandoffCandidate, Reason, ok, refused, resolve_handoff_target}
use zooid.Invocations.{
  InvocationRecord, InvocationRegistry, attach_call_event, open_call, outstanding, outstanding_for,
  resolve,
}
use zooid.Prelude.{
  Bool, List, Option, String, [], any, false, find, if◌then◌else◌, is_some, map, non_empty, none,
  not, some, true, ◌&&◌, ◌==◌, ◌>>=◌, ◌∷◌,
}
use zooid.Tasks.{TaskRecord, TaskRegistry, clear_summary, enclosing_task_for_root}
use zooid.Tasks.Step.{step}
use zooid.Texts.{concat, trim}

pub record Caller : Type 0 where
  pub agent_name : String
  pub channel_id : String
  pub thread_root : String
  pub session_key : String

pub record Board : Type 0 where
  pub thread_states : Dict ThreadState
  pub tasks : TaskRegistry
  pub invocations : InvocationRegistry
  pub open_handoffs : Dict String

-- The daemon's bindings and the agents of the other workstations.
pub record Staff : Type 0 where
  pub bindings : List AgentBinding
  pub workforce : List HandoffCandidate

pub data Refusal : Type 0 where
  unknown_caller no_prompt self already_waiting remote_in_task already_open post_failed : Refusal
  unresolved : Reason → Refusal

pub data Verdict : Type 0 where
  turned_down : Refusal → Verdict
  started : (call_id : String) → HandoffCandidate → Verdict

-- What the checks come to: a refusal, or a message that is on its way.
pub data Step : Type 0 where
  stopped : Refusal → Step
  sending : AgentBinding → HandoffCandidate → (invocation : Option String) → Step

unfoldable pub open_key : String → String → String
open_key who root = concat (who ∷ "::" ∷ root ∷ [])

abbrev list_others : List HandoffCandidate → Dict HandoffCandidate → Dict HandoffCandidate
list_others [] m = m
list_others (e ∷ es) m = list_others es (set e.user_id e m)

abbrev list_own : List AgentBinding → Dict HandoffCandidate → Dict HandoffCandidate
list_own [] m = m
list_own (b ∷ bs) m = list_own bs (
    set b.user_id
      (record {
        user_id = b.user_id;
        name = b.name;
        workstation = get b.user_id m >>= λ c. c.workstation;
        rooms = map (λ (r : RoomBinding). r.alias) b.rooms;
      })
      m)

unfoldable pub handoff_candidates : Staff → List HandoffCandidate
unfolding set values
handoff_candidates s = values (list_own s.bindings (list_others s.workforce []))

unfoldable pub open_task : Caller → Board → Option TaskRecord
unfolding enclosing_task_for_root
open_task c b = enclosing_task_for_root c.thread_root b.tasks

-- Whether the caller waits for the target in the thread.
unfoldable pub waits_on : Caller → String → String → Board → Bool
unfolding would_cycle_callers
waits_on c target who b = elim (get c.thread_root b.thread_states) [
  | none ↦ false
  | some st ↦ elim (would_cycle_callers st.callers target who) [ none ↦ false | some w ↦ w ]
]

abbrev pub is_nothing : List InvocationRecord → Bool
is_nothing [] = true
is_nothing (r ∷ rs) = false

unfoldable pub busy : Caller → String → Board → Bool
unfolding open_task outstanding_for open_key
busy c who b =
    if is_some (open_task c b)
    then not (is_nothing (outstanding_for c.session_key b.invocations))
    else has (open_key who c.thread_root) b.open_handoffs

unfoldable pub begin :
    Caller
    → AgentBinding
    → HandoffCandidate
    → (call_id invocation_id : String) → Board
    → Board × Option String
unfolding open_task open_call clear_summary
begin c me t call_id invocation_id b = elim (open_task c b) [
  | none ↦ (
    record b { open_handoffs = set (open_key me.user_id c.thread_root) t.user_id b.open_handoffs },
    none,
  )
  | some task ↦ (
    record b {
      invocations =
          open_call invocation_id
            (record {
              invocation_id = invocation_id;
              task_id = task.task_id;
              caller_agent = me.name;
              caller_session_key = c.session_key;
              callee_agent = t.name;
              call_id = some call_id;
              call_event_id = none;
              callee_session_key = none;
              state = outstanding;
            })
            b.invocations;
      tasks = clear_summary task.task_id b.tasks;
    },
    some invocation_id,
  )
]

-- After the post: the event is attached, or the handoff is taken back.
unfoldable pub posted : Caller → Option String → String → Board → Board
unfolding attach_call_event compose_handoff_key
posted c invocation event_id b = elim (non_empty (some event_id)) [
  | none ↦ b
  | some event ↦ elim invocation [
    | none ↦ b
    | some id ↦ record b {
      invocations =
          attach_call_event id event (compose_handoff_key c.thread_root event) b.invocations;
    }
  ]
]

unfoldable pub take_back : Caller → String → Option String → Board → Board
unfolding resolve open_key
take_back c who invocation b = record b {
  open_handoffs = delete (open_key who c.thread_root) b.open_handoffs;
  invocations = elim invocation [ none ↦ b.invocations | some id ↦ (resolve id b.invocations).0 ];
}

-- What follows the wait.
unfoldable pub finish_handoff :
    Caller
    → (call_id : String) → (meanwhile : Board → Board) → (post : Option String) → Board
    → Step
    → Board × Verdict
unfolding posted take_back
finish_handoff c call_id meanwhile post b (stopped why) = (b, turned_down why)
finish_handoff c call_id meanwhile none b (sending me t invocation) =
    (take_back c me.user_id invocation (meanwhile b), turned_down post_failed)
finish_handoff c call_id meanwhile (some event_id) b (sending me t invocation) =
    (posted c invocation event_id (meanwhile b), started call_id t)

module _ (s : Staff) where
  abbrev pub is_local : String → Bool
  is_local id = any (λ b. b.user_id == id) s.bindings

  abbrev pub binding_for : String → Option AgentBinding
  binding_for name = find (λ b. b.name == name) s.bindings

  -- The checks on a target.
  unfoldable pub vet_target : Caller → AgentBinding → HandoffCandidate → Board → Option Refusal
  unfolding waits_on open_task busy
  vet_target c me t b =
      if t.user_id == me.user_id
      then some self
      else if waits_on c t.user_id me.user_id b
      then some already_waiting
      else if is_some (open_task c b) && not (is_local t.user_id)
      then some remote_in_task
      else if busy c me.user_id b
      then some already_open
      else none

  -- All up to the wait for the post.
  unfoldable pub send_handoff :
      Caller → (query prompt call_id invocation_id : String) → Board → Board × Step
  unfolding vet_target begin trim resolve_handoff_target handoff_candidates
  send_handoff c query prompt call_id invocation_id b = elim (binding_for c.agent_name) [
    | none ↦ (b, stopped unknown_caller)
    | some me ↦
        if trim prompt == ""
        then (b, stopped no_prompt)
        else elim (resolve_handoff_target query c.channel_id (handoff_candidates s)) [
          | refused why ↦ (b, stopped (unresolved why))
          | ok t ↦ elim (vet_target c me t b) [
            | some refusal ↦ (b, stopped refusal)
            | none ↦
                let (b', invocation) = begin c me t call_id invocation_id b in
                (b', sending me t invocation)
          ]
        ]
  ]

  unfoldable pub handoff :
      Caller
      → (query prompt call_id invocation_id : String) → (meanwhile : Board → Board)
      → (post : Option String) → Board
      → Board × Verdict
  unfolding send_handoff finish_handoff
  handoff c query prompt call_id invocation_id meanwhile post b =
      let (b', step) = send_handoff c query prompt call_id invocation_id b in
      finish_handoff c call_id meanwhile post b' step
