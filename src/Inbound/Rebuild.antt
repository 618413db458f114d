-- ===== src/Inbound/Rebuild.antt =====
-- packages/transport-matrix/src/transport.ts, `rebuildThreadState`: a thread's state from its events, after a
-- restart. The events that the homeserver gives are arguments: the root, if it is there, and the rest.
use zooid.Calls.{with_call}
use zooid.Events.{AgentBinding, ThreadState, in_room, is_mirror_notice, opt_is, read_handoff}
use zooid.Inbound.{Message, Office, empty_state, is_message, is_remote_agent, msgtype_of}
use zooid.Inbound.Dispatch.{is_new_edge, note_mentions}
use zooid.Prelude.{
  List, Option, String, [], false, find, if◌then◌else◌, last, non_empty, none, some, true, ◌&&◌,
  ◌++◌, ◌==◌, ◌>>=◌, ◌∷◌,
}
use zooid.Router.Samples.{agents}

abbrev first : List AgentBinding → Option AgentBinding
first [] = none
first (a ∷ rest) = some a

-- An agent that may read the room.
unfoldable pub reader_in : String → List AgentBinding → Option String
reader_in room agents = do
  a ← elim (find (in_room (some room)) agents) [ some a ↦ some a | none ↦ first agents ]
  non_empty (some a.user_id)

-- A call edge, only from a structured handoff whose caller is the sender.
unfoldable pub seed_edge : Message → ThreadState → ThreadState
unfolding read_handoff is_new_edge
seed_edge m st = elim (m.event.content >>= read_handoff) [
  | none ↦ st
  | some h ↦
      if opt_is m.event.sender h.caller && is_new_edge h st then with_call h m.event_id st else st
]

module _ (o : Office) where
  -- The first loop, over the root and the thread; none where `extractMentions` throws.
  unfoldable pub seed_all : List Message → ThreadState → Option ThreadState
  unfolding seed_edge note_mentions is_mirror_notice
  seed_all [] st = some st
  seed_all (m ∷ ms) st = elim (is_mirror_notice m.event.content) [
    | true ↦ seed_all ms st
    | false ↦ elim (note_mentions o m st) [
      | none ↦ none
      | some noted ↦ seed_all ms (seed_edge m noted)
    ]
  ]

  -- Who a message of the thread makes a participant.
  unfoldable pub participant_of : Message → Option String
  unfolding is_remote_agent
  participant_of m = do
    sender ← (if is_message m then non_empty m.event.sender else none)
    elim (find (λ b. b.user_id == sender) o.agents) [
      | some a ↦ non_empty (some a.name)
      | none ↦ if is_remote_agent o sender (msgtype_of m) then some sender else none
    ]

  abbrev pub add_participant : Message → ThreadState → ThreadState
  add_participant m st = elim (participant_of m) [
    | none ↦ st
    | some p ↦
        if opt_is (last st.participants) p
        then st
        else record st { participants = st.participants ++ p ∷ [] }
  ]

  -- The second loop, over the thread alone.
  unfoldable pub add_all : List Message → ThreadState → ThreadState
  unfolding participant_of is_mirror_notice
  add_all [] st = st
  add_all (m ∷ ms) st =
      add_all ms (if is_mirror_notice m.event.content then st else add_participant m st)

  abbrev pub with_root : Option Message → List Message → List Message
  with_root none thread = thread
  with_root (some root) thread = root ∷ thread

  unfoldable pub rebuild_thread_state : String → Option Message → List Message → Option ThreadState
  unfolding seed_all add_all reader_in
  rebuild_thread_state room root thread = elim (reader_in room o.agents) [
    | none ↦ some empty_state
    | some user_id ↦ seed_all (with_root root thread) empty_state >>= λ st. some (add_all thread st)
  ]
