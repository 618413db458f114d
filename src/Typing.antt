-- ===== src/Typing.antt =====
-- packages/transport-matrix/src/typing-registry.ts, `createTypingRegistry`. The calls of the wire stand
-- in `wire` in the order in which they are queued; a key's queue makes them in that order, one after
-- another, and passes over one that fails. `tick` is the callback of a slot's interval.
pub mod Step
pub mod Slots
pub mod Raises
pub mod Marks
pub mod Wires
mod Tests
use Prim.Native.String
use zooid.Dict.{Dict, delete, get, insert, remove, set}
use zooid.Prelude.{
  Bool, List, String, [], default, false, if◌then◌else◌, includes, length, ltb, none, not, some,
  true, ℕ, ◌&&◌, ◌++◌, ◌+◌, ◌-◌, ◌∷◌,
}
use zooid.Texts.{eqb}

pub record Slot : Type 0 where
  pub room_id : String
  pub user_id : String
  pub live : List String
  pub working : List String
  pub refresh : Bool

pub data Wire : Type 0 where
  set_typing : (room_id user_id : String) (typing : Bool) → Wire
  set_presence : (user_id : String) (online : Bool) → Wire

pub record TypingRegistry : Type 0 where
  pub slots : Dict Slot
  pub working_rooms : Dict ℕ
  pub wire : List Wire

unfoldable pub init : TypingRegistry
init = record { slots = []; working_rooms = []; wire = [] }

unfoldable pub slot_key : String → String → String
slot_key room user = String.◌++◌ room (String.◌++◌ "\0" user)

abbrev pub put : String → Slot → TypingRegistry → TypingRegistry
put k s c = record c { slots = set k s c.slots }

abbrev pub send : Wire → TypingRegistry → TypingRegistry
send w c = record c { wire = c.wire ++ w ∷ [] }

unfoldable pub raise : String → Slot → TypingRegistry → TypingRegistry
raise k s c =
    let n = default (get s.user_id c.working_rooms) 0 + 1 in
    let c' = send (set_typing s.room_id s.user_id true) (put k (record s { refresh = true }) c) in
    let c'' = record c' { working_rooms = set s.user_id n c.working_rooms } in
    if eqb n 1 then send (set_presence s.user_id false) c'' else c''

unfoldable pub lower : String → Slot → TypingRegistry → TypingRegistry
lower k s c =
    let n = default (get s.user_id c.working_rooms) 1 - 1 in
    let c' = send (set_typing s.room_id s.user_id false) (put k (record s { refresh = false }) c) in
    if ltb 0 n
    then record c' { working_rooms = set s.user_id n c.working_rooms }
    else send (set_presence s.user_id true)
        (record c' { working_rooms = delete s.user_id c.working_rooms })

unfoldable pub mark_working : String → Slot → String → TypingRegistry → TypingRegistry
unfolding raise
mark_working k s session c =
    let s' : Slot = record s { working = insert session s.working } in
    if includes session s.working
    then put k s c
    else if eqb (length s'.working) 1
    then raise k s' c
    else put k s' c

unfoldable pub unmark_working : String → Slot → String → TypingRegistry → TypingRegistry
unfolding lower
unmark_working k s session c =
    let s' : Slot = record s { working = remove session s.working } in
    if not (includes session s.working)
    then put k s c
    else if eqb (length s'.working) 0
    then lower k s' c
    else put k s' c

-- The slot of an agent in a room, made if there is none.
abbrev pub slot_of : String → String → TypingRegistry → Slot
slot_of room user c = elim (get (slot_key room user) c.slots) [
  | none ↦ record { room_id = room; user_id = user; live = []; working = []; refresh = false }
  | some s ↦ s
]

unfoldable pub enter : String → String → String → TypingRegistry → TypingRegistry
unfolding mark_working
enter room user session c =
    let s = slot_of room user c in
    mark_working (slot_key room user) (record s { live = insert session s.live }) session c

-- The slot goes with its last live turn.
abbrev pub forget : String → Slot → TypingRegistry → TypingRegistry
forget k s c = if eqb (length s.live) 0 then record c { slots = delete k c.slots } else c

unfoldable pub exit : String → String → String → TypingRegistry → TypingRegistry
unfolding unmark_working
exit room user session c =
    let k = slot_key room user in
    elim (get k c.slots) [
      | none ↦ c
      | some s ↦
          if includes session s.live
          then (let s' : Slot = record s { live = remove session s.live } in
              forget k s' (unmark_working k s' session c))
          else c
    ]

unfoldable pub pause : String → String → String → TypingRegistry → TypingRegistry
unfolding unmark_working
pause room user session c =
    let k = slot_key room user in
    elim (get k c.slots) [ none ↦ c | some s ↦ unmark_working k s session c ]

unfoldable pub resume : String → String → String → TypingRegistry → TypingRegistry
unfolding mark_working
resume room user session c =
    let k = slot_key room user in
    elim (get k c.slots) [
      | none ↦ c
      | some s ↦ if includes session s.live then mark_working k s session c else c
    ]

abbrev pub is_working : Slot → Bool
is_working s = ltb 0 (length s.working)

unfoldable pub is_typing : String → String → TypingRegistry → Bool
is_typing room user c = elim (get (slot_key room user) c.slots) [
  | none ↦ false
  | some s ↦ is_working s
]

-- The interval of a slot: it runs while `refresh` is set.
unfoldable pub tick : String → TypingRegistry → TypingRegistry
tick k c = elim (get k c.slots) [
  | none ↦ c
  | some s ↦ if s.refresh && is_working s then send (set_typing s.room_id s.user_id true) c else c
]
