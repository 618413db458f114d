-- ===== src/Inbound/Dispatch.antt =====
-- packages/transport-matrix/src/transport.ts, `handleInboundEvent`: the recording of a thread's state and of a
-- call, the queueing of the turns, and the whole path of a message.
use zooid.Calls.{session_key_for, with_call, would_cycle_callers}
use zooid.Dict.{get, set}
use zooid.Events.{
  AgentBinding, HandoffContent, TaskThreadContext, ThreadState, opt_is, read_handoff,
}
use zooid.Inbound.{
  Desk, Message, Office, TurnInput, adopt_start, context_of, empty_state, gate, heal, hold_returns,
  is_agent_id, is_local, is_message, note_poster, open_task,
}
use zooid.Mentions.{extract_mentions}
use zooid.Prelude.{
  Bool, List, Option, String, [], default, false, find, if◌then◌else◌, includes, is_some, non_empty,
  none, not, some, true, ◌&&◌, ◌++◌, ◌==◌, ◌>>=◌, ◌∷◌,
}
use zooid.Returns.{PendingReturns, mark_delegated, open_call}
use zooid.Router.{is_mention, route}
use zooid.Tasks.{TaskRecord}

-- The structured handoff of a message that its own caller sends.
unfoldable pub call_edge : Message → Option HandoffContent
unfolding read_handoff
call_edge m = do
  h ← (m.event.content >>= read_handoff)
  (if is_message m && opt_is m.event.sender h.caller then some h else none)

unfoldable pub add_mentioned : List AgentBinding → List String → List String → List String
add_mentioned [] mentions names = names
add_mentioned (a ∷ agents) mentions names = add_mentioned agents mentions (
    if includes a.user_id mentions && not (includes a.name names)
    then names ++ a.name ∷ []
    else names)

abbrev pub keep_state : String → ThreadState → Desk → Desk
keep_state root st d = record d { thread_states = set root st d.thread_states }

-- Whether the edge is recorded: it is no call of itself, and closes no cycle.
unfoldable pub is_new_edge : HandoffContent → ThreadState → Bool
unfolding would_cycle_callers
is_new_edge h st =
    not (h.callee == h.caller)
    && elim (would_cycle_callers st.callers h.callee h.caller) [ none ↦ false | some b ↦ not b ]

abbrev pub is_task_root : Option TaskThreadContext → Bool
is_task_root none = false
is_task_root (some t) = t.is_root

abbrev pub root_assignee : Option TaskThreadContext → ThreadState → ThreadState
root_assignee none st = st
root_assignee (some t) st =
    if includes t.assignee st.root_mentions
    then st
    else record st { root_mentions = st.root_mentions ++ t.assignee ∷ [] }

abbrev pub is_empty_list : List AgentBinding → Bool
is_empty_list [] = true
is_empty_list (a ∷ rest) = false

abbrev pub envelope : Option TaskThreadContext → Option TaskRecord → AgentBinding → Option String
envelope (some t) (some r) a =
    if t.is_root && a.name == r.assignee then some r.parent.agent else none
envelope _ _ a = none

unfoldable pub turns_for :
    String
    → String
    → Option TaskThreadContext
    → Option TaskRecord
    → Option ThreadState
    → List AgentBinding
    → List TurnInput
unfolding session_key_for
turns_for room root task rec st [] = []
turns_for room root task rec st (a ∷ woken) =
    record {
      agent = a;
      room_id = room;
      thread_root = root;
      session_key = session_key_for a.user_id root st;
      parent_agent = envelope task rec a;
    }
    ∷ turns_for room root task rec st woken

unfoldable pub enqueue :
    Message
    → Option String
    → Option TaskThreadContext
    → Option TaskRecord
    → List AgentBinding
    → Desk
    → Desk
unfolding turns_for
enqueue m promoted task rec woken d = elim promoted [
  | none ↦ d
  | some root ↦ elim (non_empty m.event.room_id) [
    | none ↦ d
    | some room ↦ record d {
      queued = d.queued ++ turns_for room root task rec (get root d.thread_states) woken;
    }
  ]
]

abbrev pub context : Message → Option TaskRecord → Option TaskThreadContext
context m none = none
context m (some r) = some (context_of m r)

module _ (o : Office) where
  abbrev pub sent_by_agent : Message → Bool
  sent_by_agent m = elim (non_empty m.event.sender) [ none ↦ false | some s ↦ is_agent_id o s ]

  -- A human's mentions root the thread; none where `extractMentions` throws.
  unfoldable pub note_mentions : Message → ThreadState → Option ThreadState
  unfolding add_mentioned extract_mentions
  note_mentions m st = if sent_by_agent m then some st else elim m.event.content [
    | none ↦ some st
    | some c ↦ elim (extract_mentions o.decode c.text) [
      | none ↦ none
      | some mentions ↦
          some (record st { root_mentions = add_mentioned o.agents mentions st.root_mentions })
    ]
  ]

  -- The caller's daemon owns the return.
  unfoldable pub open_return :
      HandoffContent
      → String
      → Option TaskThreadContext
      → Message
      → ThreadState
      → PendingReturns
      → PendingReturns
  unfolding open_call mark_delegated session_key_for
  open_return h root (some task) m st c = c
  open_return h root none m st c = elim (non_empty m.event.room_id) [
    | none ↦ c
    | some room ↦
        let opened : PendingReturns = elim (find (λ b. b.user_id == h.caller) o.agents) [
          | none ↦ c
          | some b ↦
              if is_mention b.trigger
              then open_call h.callee root room b (not (is_local o h.callee))
                  (some (session_key_for b.user_id root (some st))) c
              else c
        ] in
        mark_delegated h.caller root opened
  ]

  unfoldable pub record_edge :
      Option HandoffContent
      → String
      → Option TaskThreadContext
      → Message
      → ThreadState
      → Desk
      → Desk
  unfolding open_return is_new_edge
  record_edge none root task m st d = keep_state root st d
  record_edge (some h) root task m st d =
      if is_new_edge h st
      then record (keep_state root (with_call h m.event_id st) d) {
        returns = open_return h root task m (with_call h m.event_id st) d.returns;
      }
      else keep_state root st d

  -- The thread's state is made and extended where the message wakes an agent or records a call. False
  -- where `extractMentions` throws.
  unfoldable pub record_thread :
      Message → Option String → Option TaskThreadContext → List AgentBinding → Desk → Desk × Bool
  unfolding record_edge note_mentions call_edge
  record_thread m none task woken d = (d, true)
  record_thread m (some root) task woken d =
      let st = default (get root d.thread_states) empty_state in
      if is_empty_list woken && not (is_some (call_edge m))
      then (d, true)
      else if is_task_root task
      then (keep_state root (root_assignee task st) d, true)
      else elim (note_mentions m st) [
        | none ↦ (keep_state root st d, false)
        | some st' ↦ (record_edge (call_edge m) root task m st' d, true)
      ]

  -- What follows the router's answer.
  unfoldable pub settle_matches :
      Message → Option String → Option TaskRecord → List AgentBinding → Desk → Desk × Bool
  unfolding gate hold_returns record_thread enqueue
  settle_matches m promoted rec matches d =
      let task = context m rec in
      let (d1, called_for) = gate o m task matches d in
      let (d2, woken) = hold_returns o m promoted called_for d1 in
      let (d3, went_on) = record_thread m promoted task woken d2 in
      if went_on then (enqueue m promoted task rec woken d3, true) else (d3, false)

  -- False where a malformed escape makes the handler throw.
  unfoldable pub dispatch : Message → Option String → Option ThreadState → Desk → Desk × Bool
  unfolding heal adopt_start open_task note_poster route settle_matches
  dispatch m promoted rebuilt d =
      let d1 = adopt_start m (heal o m rebuilt d) in
      if m.has_result
      then (d1, true)
      else let rec = open_task promoted d1 in
        let d2 = note_poster o m d1 in
        elim (route o.decode o.now m.event o.agents d2.thread_states (context m rec) o.known) [
          | none ↦ (d2, false)
          | some matches ↦ settle_matches m promoted rec matches d2
        ]
