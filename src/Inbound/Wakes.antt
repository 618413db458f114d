-- ===== src/Inbound/Wakes.antt =====
-- packages/transport-matrix/src/transport.ts: which turns a message queues.
use zooid.Events.{AgentBinding, ThreadState}
use zooid.Inbound.{Desk, Message, Office, TurnInput, adopt_start, heal, note_poster}
use zooid.Inbound.Chosen.{CalleeOnly, NoReturn}
use zooid.Inbound.Dispatch.{context}
use zooid.Prelude.{All, List, Option, String, some, ◌++◌, ◌≡◌}
use zooid.Router.Routes.{MayWake}
use zooid.Tasks.{TaskRecord}

module _ (o : Office) (m : Message) where
  -- What a queued turn owes to the message, at the desk before routing.
  pub record Wakes (promoted : Option String) (rec : Option TaskRecord) (d : Desk) (t : TurnInput)
      : Type 0 where
    pub may : MayWake m.event (context m rec) t.agent
    pub callee : CalleeOnly o m (context m rec) d t.agent
    pub no_return : NoReturn o m promoted d t.agent
    pub in_thread : promoted ≡ some t.thread_root
    pub in_event_room : m.event.room_id ≡ some t.room_id

  abbrev Chosen : Option String → Option TaskRecord → Desk → AgentBinding → Type 0
  Chosen promoted rec d a =
      (MayWake m.event (context m rec) a × CalleeOnly o m (context m rec) d a)
      × NoReturn o m promoted d a

  -- The turns that are queued after those of `d`.
  abbrev pub Adds : Option String → Option TaskRecord → Desk → Desk → Type 0
  Adds promoted rec d d' =
      (ts : List TurnInput) × (d'.queued ≡ d.queued ++ ts) × All (Wakes promoted rec d) ts

  -- The desk at which a message is routed.
  abbrev pub routed_at : Option ThreadState → Desk → Desk
  routed_at rebuilt d = note_poster o m (adopt_start m (heal o m rebuilt d))
