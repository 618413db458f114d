-- ===== src/Roots.antt =====
-- packages/transport-matrix/src/transport.ts, `resolveThreadRoot`: the event that the thread of a message may
-- start from. What the homeserver answers is the parameter `fetch`: the relation of an event, if the event
-- can be fetched in a room as a user.
pub mod Chains
pub mod Ends
mod Tests
use zooid.Dict.{Dict, get, set}
use zooid.Events.{AgentBinding, Relation, in_room}
use zooid.Inbound.{Message, inbound_rel}
use zooid.Prelude.{
  List, Option, String, [], find, if◌then◌else◌, length, ltb, non_empty, none, some, suc, zero, ℕ,
  ◌==◌, ◌>>=◌, ◌∷◌,
}

abbrev pub seen_event_cap : ℕ
seen_event_cap = 5000

abbrev pub relation_root_max_hops : ℕ
relation_root_max_hops = 8

abbrev pub Fetch : Type 0
Fetch = (room as_user event_id : String) → Option (Option Relation)

-- What a round of the walk finds in a relation.
pub data Next : Type 0 where
  stop : Next
  thread_of : (root : String) → Next
  up_to : (parent : String) → Next

unfoldable pub next : Option Relation → Next
next none = stop
next (some r) = elim (non_empty r.rel_type) [
  | none ↦ stop
  | some type ↦ elim (non_empty r.event_id) [
    | none ↦ stop
    | some parent ↦ if type == "m.thread" then thread_of parent else up_to parent
  ]
]

abbrev pub relation_of : Message → Option Relation
relation_of m = m.event.content >>= λ c. c.relates_to

abbrev first : List AgentBinding → Option AgentBinding
first [] = none
first (a ∷ agents) = some a

-- The room of a message and the agent that reads it.
unfoldable pub reader : List AgentBinding → Message → Option (String × String)
reader agents m = do
  room ← non_empty m.event.room_id
  a ← elim (find (in_room m.event.room_id) agents) [ some a ↦ some a | none ↦ first agents ]
  user_id ← non_empty (some a.user_id)
  some (room, user_id)

abbrev pub drop_first : Dict String → Dict String
drop_first [] = []
drop_first ((id, root) ∷ m) = m

unfoldable pub remember : String → String → Dict String → Dict String
unfolding set
remember id root cache =
    let grown = set id root cache in
    if ltb seen_event_cap (length grown) then drop_first grown else grown

module _ (fetch : Fetch) where
  -- The rounds of the loop, from the event that is the root so far and its relation.
  unfoldable pub walk : (hops : ℕ) → Option (String × String) → String → Option Relation → String
  unfolding next
  walk zero at root rel = root
  walk (suc hops) at root rel = elim (next rel) [
    | stop ↦ root
    | thread_of parent ↦ parent
    | up_to parent ↦
        let further = walk hops at parent in
        elim at [
          | none ↦ root
          | some (room, user_id) ↦ elim (fetch room user_id parent) [
            | none ↦ parent
            | some above ↦ further above
          ]
        ]
  ]

  unfoldable pub resolve_thread_root :
      List AgentBinding → Message → Dict String → Option String × Dict String
  unfolding remember walk reader
  resolve_thread_root agents m cache = elim (non_empty m.event_id) [
    | none ↦ (none, cache)
    | some id ↦ elim (inbound_rel m) [
      | some root ↦ (some root, cache)
      | none ↦ elim (non_empty (get id cache)) [
        | some root ↦ (some root, cache)
        | none ↦
            let root = walk relation_root_max_hops (reader agents m) id (relation_of m) in
            (some root, remember id root cache)
      ]
    ]
  ]
