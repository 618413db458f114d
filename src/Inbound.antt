-- ===== src/Inbound.antt =====
-- packages/transport-matrix/src/transport.ts, `handleInboundEvent` from the promotion of a message to the
-- queueing of turns: the composition of the router, the call graph, the task registry, the
-- invocations and the pending returns. What the homeserver answers is an argument: the promoted root
-- of the thread, and the state that `rebuildThreadState` gives, if it gives one.
pub mod Dispatch
pub mod Edges
pub mod Forest
pub mod Queue
pub mod Chosen
pub mod Wakes
pub mod Rebuild
pub mod Graphs
pub mod Recorded
pub mod Restarts
mod Tests
use zooid.Calls.{compose_handoff_key}
use zooid.Dict.{Dict, get, has, set}
use zooid.Events.{
  AgentBinding, Event, TaskThreadContext, ThreadState, inbound_thread_root, opt_is, read_handoff,
  truthy,
}
use zooid.Invocations.{
  InvocationRecord, InvocationRegistry, attach_call_event, by_call_event, by_call_id,
}
use zooid.Prelude.{
  Bool, List, Option, String, [], any, default, false, filter, if◌then◌else◌, includes, is_some,
  last, non_empty, none, not, some, true, ℕ, ◌&&◌, ◌++◌, ◌==◌, ◌>>=◌, ◌||◌, ◌∷◌,
}
use zooid.Returns.{PendingReturns, hold}
use zooid.Router.{is_return_route}
use zooid.Tasks.{TaskRecord, TaskRegistry, adopt, is_open, task_for_root}

-- The event, with the fields that routing does not read.
pub record Message : Type 0 where
  pub event : Event
  pub event_id : Option String
  pub start_attempt : Option String
  pub has_result : Bool
  pub body : Option String

pub record TurnInput : Type 0 where
  pub agent : AgentBinding
  pub room_id : String
  pub thread_root : String
  pub session_key : String
  pub parent_agent : Option String

-- The maps of the transport that a message reads and writes, and the turns that it queues, oldest first.
pub record Desk : Type 0 where
  pub thread_states : Dict ThreadState
  pub tasks : TaskRegistry
  pub invocations : InvocationRegistry
  pub returns : PendingReturns
  pub queued : List TurnInput

-- The daemon's bindings, the agents of every workstation, `decodeURIComponent` and the clock.
pub record Office : Type 0 where
  pub agents : List AgentBinding
  pub known : List String
  pub decode : String → Option String
  pub now : ℕ

abbrev pub is_message : Message → Bool
is_message m = m.event.type == "m.room.message"

abbrev pub inbound_rel : Message → Option String
inbound_rel m = m.event.content >>= inbound_thread_root

abbrev pub msgtype_of : Message → Option String
msgtype_of m = m.event.content >>= λ c. c.msgtype

abbrev pub empty_state : ThreadState
empty_state = record { participants = []; root_mentions = []; callers = []; handoffs = [] }

unfoldable pub adopt_start : Message → Desk → Desk
unfolding adopt
adopt_start m d = elim (non_empty m.start_attempt) [
  | none ↦ d
  | some attempt ↦ if is_some (inbound_rel m) then d else elim (non_empty m.event_id) [
    | none ↦ d
    | some id ↦ record d { tasks = adopt attempt id d.tasks }
  ]
]

abbrev pub same_text : Option String → Option String → Bool
same_text none none = true
same_text (some a) (some b) = a == b
same_text _ _ = false

-- `taskRec` if it is open: a closed task's thread routes like an ordinary one.
unfoldable pub open_task : Option String → Desk → Option TaskRecord
unfolding task_for_root
open_task promoted d = do
  root ← promoted
  r ← task_for_root root d.tasks
  (if is_open r.phase then some r else none)

abbrev pub context_of : Message → TaskRecord → TaskThreadContext
context_of m r = record {
  assignee = r.assignee;
  is_root = not (is_some (inbound_rel m)) && same_text m.event_id r.thread_root;
}

-- The invocation that an agent's message in a task's thread answers for, attached by its call id if
-- the echo came before the send was known.
unfoldable pub called :
    Message → String → InvocationRegistry → InvocationRegistry × Option InvocationRecord
unfolding by_call_event by_call_id attach_call_event read_handoff compose_handoff_key
called m event_id inv = elim (by_call_event event_id inv) [
  | some r ↦ (inv, some r)
  | none ↦ elim (m.event.content >>= read_handoff) [
    | none ↦ (inv, none)
    | some h ↦
        if opt_is m.event.sender h.caller
        then (elim (by_call_id h.call_id inv) [
          | none ↦ (inv, none)
          | some r ↦ (
            if truthy r.call_event_id
                then inv
                else attach_call_event r.invocation_id event_id
                    (compose_handoff_key (default (inbound_rel m) event_id) event_id) inv,
            some r,
          )
        ])
        else (inv, none)
  ]
]

module _ (o : Office) where
  abbrev pub is_local : String → Bool
  is_local id = any (λ b. b.user_id == id) o.agents

  abbrev pub own_sender : Message → Bool
  own_sender m = any (λ b. opt_is m.event.sender b.user_id) o.agents

  abbrev pub is_agent_id : String → Bool
  is_agent_id id = is_local id || includes id o.known

  unfoldable pub is_remote_agent : String → Option String → Bool
  is_remote_agent sender msgtype =
      if is_local sender then false else includes sender o.known || opt_is msgtype "m.notice"

  -- A thread reply with no state in memory. The wait for the rebuild is taken as no time: no other
  -- handler makes the state between the look and the write.
  unfoldable pub heal : Message → Option ThreadState → Desk → Desk
  heal m rebuilt d = elim (inbound_rel m) [
    | none ↦ d
    | some root ↦
        if is_message m && not (has root d.thread_states) && truthy m.event.room_id
        then (elim rebuilt [
          | none ↦ d
          | some st ↦ record d { thread_states = set root st d.thread_states }
        ])
        else d
  ]

  -- Another workstation's agent becomes the thread's last poster.
  unfoldable pub note_poster : Message → Desk → Desk
  unfolding is_remote_agent
  note_poster m d = elim (inbound_rel m) [
    | none ↦ d
    | some root ↦ elim (get root d.thread_states) [
      | none ↦ d
      | some st ↦ elim (non_empty m.event.sender) [
        | none ↦ d
        | some s ↦
            if is_message m
              && is_remote_agent s (msgtype_of m)
              && not (opt_is (last st.participants) s)
            then record d {
              thread_states =
                  set root (record st { participants = st.participants ++ s ∷ [] }) d.thread_states;
            }
            else d
      ]
    ]
  ]

  abbrev pub in_task_thread : Message → Option TaskThreadContext → Bool
  in_task_thread m none = false
  in_task_thread m (some t) = not t.is_root && own_sender m

  -- In the thread of an open task an agent's message wakes only the callee of its invocation.
  unfoldable pub gate :
      Message → Option TaskThreadContext → List AgentBinding → Desk → Desk × List AgentBinding
  unfolding called
  gate m task matches d = elim (if in_task_thread m task then non_empty m.event_id else none) [
    | none ↦ (d, matches)
    | some id ↦
        let (inv, found) = called m id d.invocations in
        (
          record d { invocations = inv },
          elim found [ none ↦ [] | some r ↦ filter (λ a. a.name == r.callee_agent) matches ],
        )
  ]

  -- The thread, the room and the agent of a message that may be a return.
  unfoldable pub parties : Message → Option String → Option (String × String × String)
  parties m promoted = do
    root ← (if is_message m then promoted else none)
    room ← non_empty m.event.room_id
    s ← non_empty m.event.sender
    (if is_agent_id s then some (root, room, s) else none)

  -- A return waits for the end of its callee's turn.
  unfoldable pub hold_returns :
      Message → Option String → List AgentBinding → Desk → Desk × List AgentBinding
  unfolding hold is_return_route parties
  hold_returns m promoted matches d = elim (parties m promoted) [
    | none ↦ (d, matches)
    | some (root, room, s) ↦
        let returning =
          λ (a : AgentBinding). is_return_route m.event a (get root d.thread_states) in
        elim (filter returning matches) [
          | [] ↦ (d, matches)
          | a ∷ bs ↦ (
            record d { returns = hold s root room (a ∷ bs) m.body (not (is_local s)) d.returns },
            filter (λ x. not (returning x)) matches,
          )
        ]
  ]
