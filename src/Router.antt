-- ===== src/Router.antt =====
-- packages/transport-matrix/src/router.ts, `route`: which agents an event of a room wakes.
pub mod Routes
pub mod Directions
pub mod Samples
mod Tests
use Prim.Native.String
use zooid.Dict.{Dict, get}
use zooid.Events.{
  AgentBinding, Content, Event, HandoffContent, TaskThreadContext, ThreadState, Trigger,
  any_message, in_room, inbound_thread_root, is_routable, mention, opt_is, read_handoff,
}
use zooid.Mentions.{extract_mentions}
use zooid.Prelude.{
  Bool, List, Option, String, [], any, false, filter, if◌then◌else◌, includes, last, none, not,
  some, true, ℕ, ◌&&◌, ◌==◌, ◌||◌,
}

module _ (e : Event) (c : Content) (agents : List AgentBinding) (known : List String) where
  unfoldable pub sender_is_agent : Bool
  sender_is_agent =
      any (λ x. opt_is e.sender x.user_id) agents
      || elim e.sender [ none ↦ false | some s ↦ includes s known ]
      || opt_is c.msgtype "m.notice"

  -- The mentions hold an agent that is not the sender.
  unfoldable pub addresses_agent : List String → Bool
  addresses_agent mentions =
      any
        (λ id.
          not (opt_is e.sender id)
          && (includes id known || any (λ x. x.user_id == id && in_room e.room_id x) agents))
        mentions

-- `threadRoot ? threadStates?.get(threadRoot) : undefined`.
unfoldable pub thread_state : Content → Dict ThreadState → Option ThreadState
unfolding inbound_thread_root
thread_state c states = elim (inbound_thread_root c) [ none ↦ none | some r ↦ get r states ]

abbrev pub is_mention : Trigger → Bool
is_mention mention = true
is_mention any_message = false

abbrev pub calls_back : Option String → AgentBinding → ThreadState → Bool
calls_back none a st = false
calls_back (some s) a st =
    not (s == "") && not (s == a.user_id) && opt_is (get s st.callers) a.user_id

unfoldable pub is_return_route : Event → AgentBinding → Option ThreadState → Bool
is_return_route e a none = false
is_return_route e a (some st) = is_mention a.trigger && calls_back e.sender a st

-- `handoff?.caller === event.sender && handoff?.callee === a.userId`. With no handoff the first test
-- holds of an event with no sender, and the second fails.
abbrev pub handoff_calls : Option String → AgentBinding → Option HandoffContent → Bool
handoff_calls sender a none = false
handoff_calls sender a (some h) = opt_is sender h.caller && h.callee == a.user_id

-- The human's bare follow-up in a thread.
abbrev pub follows_up : AgentBinding → ThreadState → Bool
follows_up a st = elim (last st.participants) [
  | none ↦ includes a.name st.root_mentions
  | some p ↦ if p == "" then includes a.name st.root_mentions else p == a.name
]

-- What the loop of `route` knows before it looks at an agent.
pub record Facts : Type 0 where
  pub mentions : List String
  pub state : Option ThreadState
  pub from_agent : Bool
  pub addressed : Bool
  pub handoff : Option HandoffContent

abbrev pub task_chooses : TaskThreadContext → Facts → Event → AgentBinding → Bool
task_chooses t f e a =
    if t.is_root
    then a.name == t.assignee
    else if opt_is e.sender a.user_id
    then false
    else if f.from_agent
    then handoff_calls e.sender a f.handoff
    else includes a.user_id f.mentions || a.name == t.assignee && not f.addressed

abbrev pub thread_chooses : Facts → Event → AgentBinding → Bool
thread_chooses f e a =
    if opt_is e.sender a.user_id
    then false
    else if not (is_mention a.trigger)
    then true
    else if f.from_agent
    then handoff_calls e.sender a f.handoff || is_return_route e a f.state
    else includes a.user_id f.mentions
      || elim f.state [ none ↦ false | some st ↦ not f.addressed && follows_up a st ]

-- The body of the loop of `route`: whether the agent is matched.
unfoldable pub chooses : Option TaskThreadContext → Facts → Event → AgentBinding → Bool
unfolding is_return_route
chooses task f e a =
    in_room e.room_id a && elim task [ none ↦ thread_chooses f e a | some t ↦ task_chooses t f e a ]

unfoldable pub facts :
    Event → Content → List AgentBinding → Dict ThreadState → List String → List String → Facts
unfolding sender_is_agent addresses_agent thread_state read_handoff
facts e c agents states known mentions = record {
  mentions = mentions;
  state = thread_state c states;
  from_agent = sender_is_agent e c agents known;
  addressed = addresses_agent e c agents known mentions;
  handoff = read_handoff c;
}

-- None where a formatted body makes `decodeURIComponent` throw.
unfoldable pub route :
    (String → Option String)
    → ℕ
    → Event
    → List AgentBinding
    → Dict ThreadState
    → Option TaskThreadContext
    → List String
    → Option (List AgentBinding)
unfolding facts chooses is_routable extract_mentions
route decode now e agents states task known = elim e.content [
  | none ↦ some []
  | some c ↦
      if is_routable now e c
      then (elim (extract_mentions decode c.text) [
        | none ↦ none
        | some mentions ↦
            some (filter (chooses task (facts e c agents states known mentions) e) agents)
      ])
      else some []
]
