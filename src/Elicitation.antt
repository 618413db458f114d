-- ===== src/Elicitation.antt =====
-- packages/core/src/elicitation-correlator.ts: form requests of agents to a human, and their answers.
-- Random ids are arguments; promises, listeners and emitted events are the entries of `log`, oldest
-- first. A schema, an answer's content and metadata are passed on unread, as texts.
pub mod Step
pub mod Valid
pub mod Bounded
pub mod Settles
pub mod Known
pub mod History
pub mod Keys
mod Tests
use zooid.Dict.{Dict, count, delete, get, set, values}
use zooid.Prelude.{
  Bool, List, Option, String, [], default, false, if◌then◌else◌, includes, length, ltb, non_empty,
  none, some, suc, true, ℕ, ◌&&◌, ◌++◌, ◌==◌, ◌∷◌,
}

pub data ElicitationStatus : Type 0 where
  accepted declined cancelled interrupted : ElicitationStatus

-- `'pending' | ElicitationStatus`.
pub data State : Type 0 where
  pending : State
  closed : ElicitationStatus → State

pub data ElicitationResponse : Type 0 where
  accept : (content : String) → ElicitationResponse
  decline : ElicitationResponse
  cancel : ElicitationResponse

pub record PendingElicitation : Type 0 where
  pub request_id : String
  pub agent_name : String
  pub session_id : String
  pub session_key : String
  pub room_id : String
  pub thread_root : String
  pub tool_call_id : Option String
  pub message : String
  pub requested_schema : String
  pub meta : Option String
  pub request_event_id : Option String
  pub state : State

pub record ElicitationResolution : Type 0 where
  pub request : PendingElicitation
  pub status : ElicitationStatus
  pub responded_by : Option String
  pub response_event_id : Option String
  pub reason : Option String
  pub content : Option String

pub record RegisterElicitationInput : Type 0 where
  pub agent_name : String
  pub session_id : String
  pub session_key : String
  pub room_id : String
  pub thread_root : String
  pub tool_call_id : Option String
  pub message : String
  pub requested_schema : String
  pub meta : Option String
  pub aborted : Bool

pub data Effect : Type 0 where
  listening detached : (request_id : String) → Effect
  resolved_promise : (request_id : String) → ElicitationResponse → Effect
  rejected_promise : (request_id error : String) → Effect
  resolved : ElicitationResolution → Effect

pub record ElicitationCorrelator : Type 0 where
  pub entries : Dict PendingElicitation
  pub terminal_order : List String
  pub terminal_cap : ℕ
  pub log : List Effect

unfoldable pub init : Option ℕ → ElicitationCorrelator
init cap = record { entries = []; terminal_order = []; terminal_cap = default cap 500; log = [] }

-- `STATUS`.
abbrev pub status_of : ElicitationResponse → ElicitationStatus
status_of (accept content) = accepted
status_of decline = declined
status_of cancel = cancelled

abbrev pub is_pending_state : State → Bool
is_pending_state pending = true
is_pending_state (closed s) = false

abbrev pub is_pending : PendingElicitation → Bool
is_pending e = is_pending_state e.state

-- The private `pending`.
abbrev pub find_pending : String → ElicitationCorrelator → Option PendingElicitation
find_pending id c = elim (get id c.entries) [
  | none ↦ none
  | some e ↦ if is_pending e then some e else none
]

-- The loop of `finish` that drops the oldest terminal records.
unfoldable pub evict :
    ℕ → List String → Dict PendingElicitation → List String × Dict PendingElicitation
evict cap [] m = ([], m)
evict cap (i ∷ order) m =
    if ltb cap (length (i ∷ order)) then evict cap order (delete i m) else (i ∷ order, m)

abbrev pub close : PendingElicitation → ElicitationStatus → PendingElicitation
close e status = record e { state = closed status }

unfoldable pub finish :
    PendingElicitation → ElicitationStatus → ElicitationCorrelator → ElicitationCorrelator
unfolding evict
finish e status c =
    let (order, entries) =
      evict c.terminal_cap (c.terminal_order ++ e.request_id ∷ [])
        (set e.request_id (close e status) c.entries) in
    record {
      entries = entries;
      terminal_order = order;
      terminal_cap = c.terminal_cap;
      log = c.log ++ detached e.request_id ∷ [];
    }

abbrev pub say : List Effect → ElicitationCorrelator → ElicitationCorrelator
say l c = record c { log = c.log ++ l }

unfoldable pub settle :
    String
    → ElicitationResponse
    → (responded_by response_event_id : Option String) → ElicitationCorrelator
    → ElicitationCorrelator × Bool
settle id response by event c = elim (find_pending id c) [
  | none ↦ (c, false)
  | some e ↦ (
    say
        (resolved_promise e.request_id response
          ∷ resolved (record {
            request = close e (status_of response);
            status = status_of response;
            responded_by = non_empty by;
            response_event_id = non_empty event;
            reason = none;
            content = elim response [ accept x ↦ some x | decline ↦ none | cancel ↦ none ];
          })
          ∷ [])
        (finish e (status_of response) c),
    true,
  )
]

unfoldable pub cancel_request :
    String → String → ElicitationCorrelator → ElicitationCorrelator × Bool
cancel_request id reason c = elim (find_pending id c) [
  | none ↦ (c, false)
  | some e ↦ (
    say
        (resolved_promise e.request_id cancel
          ∷ resolved (record {
            request = close e cancelled;
            status = cancelled;
            responded_by = none;
            response_event_id = none;
            reason = some reason;
            content = none;
          })
          ∷ [])
        (finish e cancelled c),
    true,
  )
]

unfoldable pub fail : String → String → ElicitationCorrelator → ElicitationCorrelator × Bool
fail id err c = elim (find_pending id c) [
  | none ↦ (c, false)
  | some e ↦ (say (rejected_promise e.request_id err ∷ []) (finish e cancelled c), true)
]

-- The record that `register` stores.
abbrev pub record_of : String → RegisterElicitationInput → PendingElicitation
record_of id input = record {
  request_id = id;
  agent_name = input.agent_name;
  session_id = input.session_id;
  session_key = input.session_key;
  room_id = input.room_id;
  thread_root = input.thread_root;
  tool_call_id = non_empty input.tool_call_id;
  message = input.message;
  requested_schema = input.requested_schema;
  meta = input.meta;
  request_event_id = none;
  state = pending;
}

unfoldable pub register :
    String → RegisterElicitationInput → ElicitationCorrelator → ElicitationCorrelator
unfolding cancel_request
register id input c =
    let stored = record c { entries = set id (record_of id input) c.entries } in
    if input.aborted
    then (cancel_request id "agent_cancelled" stored).0
    else say (listening id ∷ []) stored

unfoldable pub attach_request_event :
    String → String → ElicitationCorrelator → ElicitationCorrelator
attach_request_event id event c = elim (get id c.entries) [
  | none ↦ c
  | some e ↦ record c { entries = set id (record e { request_event_id = some event }) c.entries }
]

-- The loops of `cancelSession` and `cancelFor` over a snapshot of the entries, with the number of
-- records that they cancelled.
unfoldable pub cancel_where :
    (PendingElicitation → Bool)
    → String
    → List PendingElicitation
    → ElicitationCorrelator
    → ElicitationCorrelator × ℕ
cancel_where p reason [] c = (c, 0)
cancel_where p reason (e ∷ es) c =
    let (c', done) = (if p e then cancel_request e.request_id reason c else (c, false)) in
    let (c'', n) = cancel_where p reason es c' in (c'', (if done then suc n else n))

abbrev pub in_session : String → PendingElicitation → Bool
in_session s e = e.session_id == s

unfoldable pub cancel_session : String → String → ElicitationCorrelator → ElicitationCorrelator × ℕ
unfolding cancel_where
cancel_session s reason c = cancel_where (in_session s) reason (values c.entries) c

abbrev pub has_key : List String → PendingElicitation → Bool
has_key ks e = includes e.session_key ks

unfoldable pub cancel_for : List String → ElicitationCorrelator → ElicitationCorrelator
unfolding cancel_where
cancel_for ks c = (cancel_where (has_key ks) "task_closed" (values c.entries) c).0

abbrev pub count_where : (PendingElicitation → Bool) → ElicitationCorrelator → ℕ
count_where p c = count (λ e. is_pending e && p e) c.entries

abbrev pub count_for_session : String → ElicitationCorrelator → ℕ
count_for_session s = count_where (λ e. e.session_id == s)

abbrev pub count_for : String → ElicitationCorrelator → ℕ
count_for k = count_where (λ e. e.session_key == k)
