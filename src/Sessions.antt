-- ===== src/Sessions.antt =====
-- packages/acp-client/src/turn-tracker.ts, `TurnTracker`, and session-map.ts beside it, `SessionMap`: the
-- turns and the sessions of one agent's client. A turn's new id is an argument; the events given to
-- `onTap` are the entries of `taps`, oldest first. An update is passed on unread, as a text.
pub mod Taps
mod Tests
use Prim.Native.String
use Prim.Native.Char.{code}
use zooid.Dict.{Dict, delete, get, set, values}
use zooid.Prelude.{
  List, Option, String, [], filter, if◌then◌else◌, map, none, some, ℕ, ◌++◌, ◌==◌, ◌∷◌,
}

-- The error event, which other code emits, keeps its code and message.
pub data TapEvent : Type 0 where
  turn_started : (agent_id session_id turn_id prompt_text : String) → TapEvent
  session_update :
      (agent_id session_id : String) → (turn_id : Option String) → (update : String) → TapEvent
  turn_completed : (agent_id session_id turn_id stop_reason : String) → TapEvent
  error : (agent_id code message : String) → TapEvent

pub record TurnTracker : Type 0 where
  pub agent_id : String
  pub active : Dict String
  pub taps : List TapEvent

unfoldable pub init : String → TurnTracker
init agent = record { agent_id = agent; active = []; taps = [] }

abbrev pub tap : TapEvent → TurnTracker → TurnTracker
tap e c = record c { taps = c.taps ++ e ∷ [] }

unfoldable pub start_turn : String → String → String → TurnTracker → TurnTracker
start_turn turn session prompt c =
    tap (turn_started c.agent_id session turn prompt)
      (record c { active = set session turn c.active })

unfoldable pub observe_update : String → String → TurnTracker → TurnTracker
observe_update session update c =
    tap (session_update c.agent_id session (get session c.active) update) c

unfoldable pub end_turn : String → String → TurnTracker → TurnTracker
end_turn session stop c = elim (get session c.active) [
  | none ↦ c
  | some turn ↦
      if turn == ""
      then c
      else tap (turn_completed c.agent_id session turn stop)
          (record c { active = delete session c.active })
]

pub record SessionKey : Type 0 where
  pub thread_id : String
  pub agent_id : String

pub record SessionRecord : Type 0 where
  pub session_id : String
  pub started_at : ℕ

pub record InternalRecord : Type 0 where
  pub value : SessionRecord
  pub agent_id : String

abbrev pub SessionMap : Type 0
SessionMap = Dict InternalRecord

unfoldable pub key_of : SessionKey → String
key_of k = String.◌++◌ k.thread_id (String.◌++◌ "\0" k.agent_id)

unfoldable pub find_session : SessionKey → SessionMap → Option SessionRecord
find_session k m = elim (get (key_of k) m) [ none ↦ none | some r ↦ some r.value ]

unfoldable pub set_session : SessionKey → SessionRecord → SessionMap → SessionMap
set_session k v m = set (key_of k) (record { value = v; agent_id = k.agent_id }) m

unfoldable pub delete_session : SessionKey → SessionMap → SessionMap
delete_session k m = delete (key_of k) m

abbrev pub clear_sessions : SessionMap → SessionMap
clear_sessions m = []

unfoldable pub list_for_agent : String → SessionMap → List SessionRecord
unfolding values
list_for_agent agent m =
    map (λ (r : InternalRecord). r.value)
      (filter (λ (r : InternalRecord). r.agent_id == agent) (values m))
