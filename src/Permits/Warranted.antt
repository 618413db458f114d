-- ===== src/Permits/Warranted.antt =====
-- packages/transport-matrix/src/transport.ts: which approvals a stock client gives.
-- The approvals of a thread: none, one, or more.
use zooid.Answers.{MatrixEvent, related}
use zooid.Commands.{ApprovalCommand}
use zooid.Dict.{Dict, get}
use zooid.Json.{Json}
use zooid.Permits.{ApprovalMeta, Site, World, from_bot, in_place}
use zooid.Permits.Decided.{Decided, SameBooks}
use zooid.Prelude.{String, [], false, some, true, ◌∷◌, ◌≡◌}

data Listed (xs : Dict ApprovalMeta) : Type 0 where
  nothing : xs ≡ [] → Listed xs
  single : (id : String) (meta : ApprovalMeta) → xs ≡ (id, meta) ∷ [] → Listed xs
  several : (a b : String × ApprovalMeta) (rest : Dict ApprovalMeta) → xs ≡ a ∷ b ∷ rest → Listed xs

module _ {N : Type 0} (site : Site) where
  -- A person's event in the room of an approval, and in its thread if it is in one.
  pub record Placed (evt : MatrixEvent N) (w : World) (id : String) : Type 0 where
    pub meta : ApprovalMeta
    pub known : get id w.metas ≡ some meta
    pub placed : in_place evt.room_id (related "m.thread" evt.content) meta ≡ true
    pub by_person : from_bot site evt ≡ false

  -- The approvals are as they were, or the event of a person, in its place, asks for a command on an
  -- approval, and that is what happens.
  pub data Warranted (evt : MatrixEvent N) (Asks : String → ApprovalCommand → Type 0) (w w' : World)
      : Type 0 where
    unchanged : SameBooks w w' → Warranted evt Asks w w'
    warranted :
        (id : String) (command : ApprovalCommand)
        → Asks id command
        → Placed evt w id
        → Decided id command w w'
        → Warranted evt Asks w w'
