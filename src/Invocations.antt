-- ===== src/Invocations.antt =====
-- packages/transport-matrix/src/invocation-registry.ts, `InvocationRegistry`: the calls in flight inside
-- tasks. The id that `open` draws is an argument.
pub mod Ancestors
pub mod Lifecycle
mod Tests
use zooid.Dict.{Dict, get, insert, set, values}
use zooid.Prelude.{
  Bool, List, Option, String, [], false, filter, if◌then◌else◌, includes, length, map, non_empty,
  none, not, some, suc, true, zero, ℕ, ◌&&◌, ◌==◌, ◌∷◌,
}

pub data InvocationState : Type 0 where
  outstanding returned cancelled : InvocationState

pub record InvocationRecord : Type 0 where
  pub invocation_id : String
  pub task_id : String
  pub caller_agent : String
  pub caller_session_key : String
  pub callee_agent : String
  pub call_id : Option String
  pub call_event_id : Option String
  pub callee_session_key : Option String
  pub state : InvocationState

pub record InvocationRegistry : Type 0 where
  pub records : Dict InvocationRecord
  pub by_callee : Dict String
  pub by_event : Dict String
  pub by_call : Dict String

unfoldable pub init : InvocationRegistry
init = record { records = []; by_callee = []; by_event = []; by_call = [] }

abbrev pub is_outstanding : InvocationState → Bool
is_outstanding outstanding = true
is_outstanding _ = false

abbrev pub put : String → InvocationRecord → InvocationRegistry → InvocationRegistry
put id r c = record c { records = set id r c.records }

-- The input's own id and state are not read.
unfoldable pub open_call : String → InvocationRecord → InvocationRegistry → InvocationRegistry
open_call id input c =
    let r : InvocationRecord = record input { invocation_id = id; state = outstanding } in
    record (put id r c) {
      by_call = elim (non_empty r.call_id) [ none ↦ c.by_call | some call ↦ set call id c.by_call ];
    }

unfoldable pub attach_call_event :
    String → String → String → InvocationRegistry → InvocationRegistry
attach_call_event id event_id session c = elim (get id c.records) [
  | none ↦ c
  | some r ↦
      record (put id (record r { call_event_id = some event_id; callee_session_key = some session })
        c) { by_event = set event_id id c.by_event; by_callee = set session id c.by_callee }
]

-- `id ? this.records.get(id) : undefined`, for an id found in a map.
abbrev pub find_record : Option String → InvocationRegistry → Option InvocationRecord
find_record o c = elim (non_empty o) [ none ↦ none | some id ↦ get id c.records ]

unfoldable pub by_call_event : String → InvocationRegistry → Option InvocationRecord
by_call_event event_id c = find_record (get event_id c.by_event) c

unfoldable pub by_call_id : String → InvocationRegistry → Option InvocationRecord
by_call_id call c = find_record (get call c.by_call) c

unfoldable pub for_callee_session : String → InvocationRegistry → Option InvocationRecord
for_callee_session session c = find_record (get session c.by_callee) c

unfoldable pub outstanding_for : String → InvocationRegistry → List InvocationRecord
unfolding values
outstanding_for session c =
    filter (λ r. is_outstanding r.state && r.caller_session_key == session) (values c.records)

abbrev pub in_task : String → InvocationRecord → Bool
in_task task r = is_outstanding r.state && r.task_id == task

unfoldable pub outstanding_for_task : String → InvocationRegistry → List InvocationRecord
unfolding values
outstanding_for_task task c = filter (in_task task) (values c.records)

unfoldable pub resolve : String → InvocationRegistry → InvocationRegistry × Option InvocationRecord
resolve id c = elim (get id c.records) [
  | none ↦ (c, none)
  | some r ↦
      if is_outstanding r.state
      then (put id (record r { state = returned }) c, some (record r { state = returned }))
      else (c, none)
]

-- What the loop of `cancelForTask` makes of a record, and of the records.
abbrev pub cancel_one : String → InvocationRecord → InvocationRecord
cancel_one task r = if in_task task r then record r { state = cancelled } else r

unfoldable pub cancel_all : String → Dict InvocationRecord → Dict InvocationRecord
cancel_all task [] = []
cancel_all task ((id, r) ∷ m) = (id, cancel_one task r) ∷ cancel_all task m

unfoldable pub cancel_for_task :
    String → InvocationRegistry → InvocationRegistry × List InvocationRecord
unfolding cancel_all outstanding_for_task
cancel_for_task task c = (
  record c { records = cancel_all task c.records },
  map (cancel_one task) (outstanding_for_task task c),
)

-- The loop of `ancestorAgents` on fuel, none where the fuel runs out.
unfoldable pub ancestors : ℕ → InvocationRegistry → String → List String → Option (List String)
unfolding for_callee_session insert
ancestors zero c cursor seen = none
ancestors (suc fuel) c cursor seen = elim (for_callee_session cursor c) [
  | none ↦ some []
  | some r ↦
      let rest = ancestors fuel c r.caller_session_key (insert r.caller_session_key seen) in
      if not (is_outstanding r.state)
      then some []
      else if includes r.caller_session_key seen
      then some (r.caller_agent ∷ [])
      else elim rest [ none ↦ none | some agents ↦ some (r.caller_agent ∷ agents) ]
]

-- A round for each session that was called, and two more, are enough.
unfoldable pub ancestor_agents : String → InvocationRegistry → Option (List String)
unfolding ancestors
ancestor_agents session c = ancestors (suc (suc (length c.by_callee))) c session (session ∷ [])

unfoldable pub is_outstanding_ancestor : String → String → InvocationRegistry → Option Bool
unfolding ancestor_agents
is_outstanding_ancestor session agent c = elim (ancestor_agents session c) [
  | none ↦ none
  | some agents ↦ some (includes agent agents)
]
