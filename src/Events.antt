-- ===== src/Events.antt =====
-- The bindings, threads and events that routing reads: packages/transport-matrix/src/router.ts with
-- trigger-freshness.ts and `readHandoff` of handoff.ts. The clock is the argument `now`.
use zooid.Dict.{Dict}
use zooid.Mentions.{Text}
use zooid.Prelude.{
  Bool, List, Option, String, [], any, false, if◌then◌else◌, includes, leb, ltb, none, not, some, ℕ,
  ◌&&◌, ◌-◌, ◌==◌, ◌||◌, ◌∷◌,
}

-- Of the bindings and of a thread's state, the fields that routing and sessions read.
pub record RoomBinding : Type 0 where
  pub alias : String
  pub power_level : Option ℕ

pub data Trigger : Type 0 where
  mention any_message : Trigger

pub record AgentBinding : Type 0 where
  pub name : String
  pub user_id : String
  pub display_name : Option String
  pub rooms : List RoomBinding
  pub trigger : Trigger

pub record ThreadState : Type 0 where
  pub participants : List String
  pub root_mentions : List String
  pub callers : Dict String
  pub handoffs : Dict (List String)

pub record TaskThreadContext : Type 0 where
  pub assignee : String
  pub is_root : Bool

-- `m.relates_to`.
pub record Relation : Type 0 where
  pub rel_type : Option String
  pub event_id : Option String

-- `dev.zooid.trigger`, a field that is no number being none.
pub record TriggerStamp : Type 0 where
  pub name : Option String
  pub fired_at : Option ℕ
  pub ttl_ms : Option ℕ

-- `dev.zooid.handoff` as it comes, a field of another type being none.
pub record RawHandoff : Type 0 where
  pub version : Option ℕ
  pub call_id : Option String
  pub caller : Option String
  pub callee : Option String

pub record HandoffContent : Type 0 where
  pub call_id : String
  pub caller : String
  pub callee : String

pub record Content : Type 0 where
  pub msgtype : Option String
  pub relates_to : Option Relation
  pub trigger_stamp : Option TriggerStamp
  pub mirror : Bool
  pub new_content_mirror : Bool
  pub completion_notice : Bool
  pub handoff : Option RawHandoff
  pub text : Text

pub record Event : Type 0 where
  pub type : String
  pub room_id : Option String
  pub sender : Option String
  pub content : Option Content

-- `a === b` where `b` is a text.
abbrev pub opt_is : Option String → String → Bool
opt_is none s = false
opt_is (some t) s = t == s

abbrev pub media_msgtypes : List String
media_msgtypes = "m.image" ∷ "m.file" ∷ "m.video" ∷ "m.audio" ∷ []

unfoldable pub is_media_msgtype : Option String → Bool
is_media_msgtype none = false
is_media_msgtype (some t) = includes t media_msgtypes

unfoldable pub is_mirror_notice : Option Content → Bool
is_mirror_notice none = false
is_mirror_notice (some c) = c.mirror || c.new_content_mirror

unfoldable pub is_expired_trigger : Option Content → ℕ → Bool
is_expired_trigger none now = false
is_expired_trigger (some c) now = elim c.trigger_stamp [
  | none ↦ false
  | some stamp ↦ elim stamp.fired_at [
    | none ↦ false
    | some fired_at ↦ elim stamp.ttl_ms [ none ↦ false | some ttl ↦ ltb ttl (now - fired_at) ]
  ]
]

abbrev pub version_one : Option ℕ → Bool
version_one none = false
version_one (some n) = leb n 1 && leb 1 n

unfoldable pub read_handoff : Content → Option HandoffContent
read_handoff c = elim c.handoff [
  | none ↦ none
  | some h ↦
      if version_one h.version
      then (elim h.call_id [
        | none ↦ none
        | some call_id ↦ elim h.caller [
          | none ↦ none
          | some caller ↦ elim h.callee [
            | none ↦ none
            | some callee ↦ some (record { call_id = call_id; caller = caller; callee = callee })
          ]
        ]
      ])
      else none
]

-- `!event.content?.msgtype`: absent or empty.
abbrev pub truthy : Option String → Bool
truthy none = false
truthy (some s) = not (s == "")

unfoldable pub inbound_thread_root : Content → Option String
inbound_thread_root c = elim c.relates_to [
  | none ↦ none
  | some r ↦ if opt_is r.rel_type "m.thread" && truthy r.event_id then r.event_id else none
]

-- `a.rooms.some((r) => r.alias === event.room_id)`.
abbrev pub in_room : Option String → AgentBinding → Bool
in_room room a = any (λ r. opt_is room r.alias) a.rooms

-- The guards at the head of `route`: the event is a message that may wake an agent.
unfoldable pub is_routable : ℕ → Event → Content → Bool
unfolding is_media_msgtype is_mirror_notice is_expired_trigger
is_routable now e c =
    e.type == "m.room.message"
    && truthy c.msgtype
    && not (is_media_msgtype c.msgtype)
    && not (is_mirror_notice (some c))
    && not c.completion_notice
    && not (is_expired_trigger (some c) now)
