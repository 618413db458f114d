-- ===== src/Returns.antt =====
-- packages/transport-matrix/src/pending-returns.ts: returns of handoffs, held until the callee's turn
-- is over. The calls of `onRelease` are the entries of `released`, oldest first. A timer is the delay
-- with which it was armed; a timer that is cleared never fires.
pub mod Step
pub mod Timers
pub mod Releases
pub mod History
pub mod Threads
pub mod Marked
pub mod Interrupted
pub mod Turns
mod Tests
use Prim.Native.String
use zooid.Dict.{Dict, delete, get, has, keys, set, values}
use zooid.Events.{AgentBinding}
use zooid.Prelude.{
  Bool, List, Option, String, [], any, default, false, if◌then◌else◌, ltb, none, not, some, true, ℕ,
  ◌&&◌, ◌++◌, ◌+◌, ◌-◌, ◌==◌, ◌||◌, ◌∷◌,
}
use zooid.Texts.{ends_with, trim}

pub record ReleasedReturn : Type 0 where
  pub callee : String
  pub room_id : String
  pub thread_root : String
  pub targets : List AgentBinding
  pub caller_session_key : Option String
  pub text : String

pub record PendingReturn : Type 0 where
  pub callee : String
  pub room_id : String
  pub thread_root : String
  pub targets : Dict AgentBinding
  pub caller_session_key : Option String
  pub text : String
  pub delegated : Bool
  pub waiting : Bool
  pub interrupted : Bool
  pub remote : Bool
  pub timer : Option ℕ

pub record PendingReturns : Type 0 where
  pub grace_ms : ℕ
  pub remote_grace_ms : Option ℕ
  pub pending : Dict PendingReturn
  pub running : Dict ℕ
  pub released : List ReleasedReturn

unfoldable pub init : ℕ → Option ℕ → PendingReturns
init grace remote = record {
  grace_ms = grace;
  remote_grace_ms = remote;
  pending = [];
  running = [];
  released = [];
}

unfoldable pub key : String → String → String
key agent root = String.◌++◌ agent (String.◌++◌ "::" root)

abbrev pub add_targets : List AgentBinding → Dict AgentBinding → Dict AgentBinding
add_targets [] m = m
add_targets (t ∷ ts) m = add_targets ts (set t.name t m)

abbrev pub fresh :
    String → String → String → List AgentBinding → Bool → Option String → PendingReturn
fresh callee root room targets remote session = record {
  callee = callee;
  room_id = room;
  thread_root = root;
  targets = add_targets targets [];
  caller_session_key = session;
  text = "";
  delegated = false;
  waiting = false;
  interrupted = false;
  remote = remote;
  timer = none;
}

abbrev pub disarm : PendingReturn → PendingReturn
disarm p = record p { timer = none }

abbrev pub delay : PendingReturns → PendingReturn → ℕ
delay c p = if p.remote then default c.remote_grace_ms c.grace_ms else c.grace_ms

-- What `arm` makes of an entry.
abbrev pub armed : PendingReturns → String → PendingReturn → PendingReturn
armed c k p = record p { timer = if p.waiting || has k c.running then none else some (delay c p) }

abbrev pub put : String → PendingReturn → PendingReturns → PendingReturns
put k p c = record c { pending = set k p c.pending }

unfoldable pub arm : String → PendingReturns → PendingReturns
arm k c = elim (get k c.pending) [ none ↦ c | some p ↦ put k (armed c k p) c ]

abbrev pub released_of : PendingReturn → ReleasedReturn
released_of p = record {
  callee = p.callee;
  room_id = p.room_id;
  thread_root = p.thread_root;
  targets = values p.targets;
  caller_session_key = p.caller_session_key;
  text = p.text;
}

unfoldable pub release : String → PendingReturns → PendingReturns
release k c = elim (get k c.pending) [
  | none ↦ c
  | some p ↦ record c { pending = delete k c.pending; released = c.released ++ released_of p ∷ [] }
]

unfoldable pub drop : String → PendingReturns → PendingReturns
drop k c = record c { pending = delete k c.pending }

unfoldable pub has_pending : String → String → PendingReturns → Bool
unfolding key
has_pending callee root c = has (key callee root) c.pending

unfoldable pub open_call :
    String → String → String → AgentBinding → Bool → Option String → PendingReturns → PendingReturns
unfolding drop
open_call callee root room caller remote session c =
    let k = key callee root in
    put k (fresh callee root room (caller ∷ []) remote session) (drop k c)

-- The entry that `hold` arms.
abbrev pub held :
    String
    → String
    → String
    → List AgentBinding
    → Option String
    → Bool
    → Option PendingReturn
    → PendingReturn
held callee root room targets body remote old =
    let p : PendingReturn = elim old [
      | none ↦ fresh callee root room targets remote none
      | some q ↦ record q { remote = q.remote || remote }
    ] in
    record p {
      targets = add_targets targets p.targets;
      text = elim body [ none ↦ p.text | some b ↦ if trim b == "" then p.text else trim b ];
      waiting = false;
    }

unfoldable pub hold :
    String
    → String
    → String
    → List AgentBinding
    → Option String
    → Bool
    → PendingReturns
    → PendingReturns
unfolding arm
hold callee root room targets body remote c =
    let k = key callee root in
    arm k (put k (held callee root room targets body remote (get k c.pending)) c)

unfoldable pub mark_delegated : String → String → PendingReturns → PendingReturns
mark_delegated callee root c =
    let k = key callee root in
    elim (get k c.pending) [ none ↦ c | some p ↦ put k (record p { delegated = true }) c ]

unfoldable pub activity : String → String → PendingReturns → PendingReturns
unfolding arm
activity callee root c =
    let k = key callee root in
    elim (get k c.pending) [ none ↦ c | some p ↦ elim p.timer [ none ↦ c | some ms ↦ arm k c ] ]

unfoldable pub turn_started : String → String → PendingReturns → PendingReturns
turn_started agent root c =
    let k = key agent root in
    let c' = record c { running = set k (default (get k c.running) 0 + 1) c.running } in
    elim (get k c.pending) [
      | none ↦ c'
      | some p ↦ put k (record p { waiting = false; timer = none }) c'
    ]

unfoldable pub turn_finished : String → String → PendingReturns → PendingReturns
unfolding arm
turn_finished agent root c =
    let k = key agent root in
    let n = default (get k c.running) 1 - 1 in
    arm k (record c { running = if ltb 0 n then set k n c.running else delete k c.running })

unfoldable pub turn_ended : String → String → PendingReturns → PendingReturns
unfolding release
turn_ended callee root c =
    let k = key callee root in
    elim (get k c.pending) [
      | none ↦ c
      | some p ↦
          if p.delegated && not p.interrupted
          then put k (record p { delegated = false; waiting = true; text = ""; timer = none }) c
          else release k c
    ]

-- Whether a turn of the thread is running.
unfoldable pub any_running : String → PendingReturns → Bool
unfolding ends_with keys
any_running root c = any (λ k. ends_with k (String.◌++◌ "::" root)) (keys c.running)

abbrev pub interrupt_one : String → PendingReturns → PendingReturns
interrupt_one k c = elim (get k c.pending) [
  | none ↦ c
  | some p ↦ if has k c.running then put k (record p { interrupted = true }) c else c
]

-- The loop of `interrupt` over a snapshot of the entries.
unfoldable pub interrupt_all : Bool → String → Dict PendingReturn → PendingReturns → PendingReturns
unfolding release
interrupt_all busy root [] c = c
interrupt_all busy root ((k, p) ∷ es) c =
    interrupt_all busy root es
      (if p.thread_root == root then (if busy then interrupt_one k c else release k c) else c)

unfoldable pub interrupt : String → PendingReturns → PendingReturns
unfolding any_running interrupt_all
interrupt root c = interrupt_all (any_running root c) root c.pending c

unfoldable pub drop_all : String → Dict PendingReturn → PendingReturns → PendingReturns
unfolding drop
drop_all root [] c = c
drop_all root ((k, p) ∷ es) c = drop_all root es (if p.thread_root == root then drop k c else c)

unfoldable pub drop_thread : String → PendingReturns → PendingReturns
unfolding drop_all
drop_thread root c = drop_all root c.pending c

-- The callback of an entry's timer.
unfoldable pub timer_fires : String → PendingReturns → PendingReturns
unfolding release
timer_fires k c = elim (get k c.pending) [
  | none ↦ c
  | some p ↦ elim p.timer [ none ↦ c | some ms ↦ release k c ]
]
