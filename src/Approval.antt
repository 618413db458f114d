-- ===== src/Approval.antt =====
-- packages/core/src/approval-correlator.ts: approval requests of agents and their decisions. Random
-- ids are arguments, event listeners and promises are the entries of `log`, oldest first.
pub mod Step
pub mod Invariant
pub mod Settles
pub mod Session
mod Tests
use zooid.Dict.{Dict, delete, get, insert, remove, set}
use zooid.Prelude.{
  Bool, List, Option, String, [], default, false, if◌then◌else◌, length, ltb, none, some, true, ℕ,
  ◌++◌, ◌==◌, ◌∷◌,
}

pub record ApprovalOption : Type 0 where
  pub option_id : String
  pub name : String
  pub kind : String

-- `ApprovalRequest`; the tool's input is passed on unread.
pub record ApprovalRequest : Type 0 where
  pub tool_call_id : String
  pub tool_kind : Option String
  pub tool_title : Option String
  pub tool_input : Option String
  pub options : List ApprovalOption

pub data ApprovalDecision : Type 0 where
  allow : (option_id : String) → ApprovalDecision
  cancel : ApprovalDecision

pub record RegisteredApproval : Type 0 where
  pub approval_id : String
  pub agent_name : String
  pub session_id : String
  pub request : ApprovalRequest

-- `PendingEntry`; `timer` is the delay of the armed timeout.
pub record PendingEntry : Type 0 where
  pub approval : RegisteredApproval
  pub open approval use *
  pub timer : Option ℕ

pub data Effect : Type 0 where
  registered : RegisteredApproval → Effect
  cleared_timer : (approval_id : String) → Effect
  settled_promise : (approval_id : String) → ApprovalDecision → Effect
  resolved : (approval_id session_id agent_name : String) → ApprovalDecision → Effect
  timeout : (approval_id session_id agent_name : String) → Effect

pub record ApprovalCorrelator : Type 0 where
  pub pending : Dict PendingEntry
  pub by_session : Dict (List String)
  pub log : List Effect

unfoldable pub empty : ApprovalCorrelator
empty = record { pending = []; by_session = []; log = [] }

abbrev pub to_public : PendingEntry → RegisteredApproval
to_public e = e.approval

-- `opts.timeoutMs && opts.timeoutMs > 0`.
abbrev pub timer_of : Option ℕ → Option ℕ
timer_of none = none
timer_of (some ms) = if ltb 0 ms then some ms else none

-- The ids of a session, none where the session has no set.
abbrev pub ids_of : String → ApprovalCorrelator → List String
ids_of s c = default (get s c.by_session) []

-- The entry that `register` builds.
abbrev pub entry_of : String → String → String → ApprovalRequest → Option ℕ → PendingEntry
entry_of approval_id agent_name session_id req timeout_ms = record {
  approval = record {
    approval_id = approval_id;
    agent_name = agent_name;
    session_id = session_id;
    request = req;
  };
  timer = timer_of timeout_ms;
}

unfoldable pub register :
    String
    → String
    → String
    → ApprovalRequest
    → Option ℕ
    → ApprovalCorrelator
    → ApprovalCorrelator × RegisteredApproval
register approval_id agent_name session_id req timeout_ms c =
    let entry = entry_of approval_id agent_name session_id req timeout_ms in
    (
      record {
        pending = set approval_id entry c.pending;
        by_session = set session_id (insert approval_id (ids_of session_id c)) c.by_session;
        log = c.log ++ registered (to_public entry) ∷ [];
      },
      to_public entry,
    )

-- `clearTimeout`, where a timer is armed.
abbrev pub clear : PendingEntry → List Effect
clear e = elim e.timer [ none ↦ [] | some ms ↦ cleared_timer e.approval_id ∷ [] ]

-- `this.bySession.get(sessionId)?.delete(approvalId)`.
abbrev pub unlink : String → String → Dict (List String) → Dict (List String)
unlink session_id approval_id m = elim (get session_id m) [
  | none ↦ m
  | some ids ↦ set session_id (remove approval_id ids) m
]

unfoldable pub settle : PendingEntry → ApprovalDecision → ApprovalCorrelator → ApprovalCorrelator
settle e d c = record {
  pending = delete e.approval_id c.pending;
  by_session = unlink e.session_id e.approval_id c.by_session;
  log =
      c.log
      ++ (clear e
          ++ settled_promise e.approval_id d
            ∷ resolved e.approval_id e.session_id e.agent_name d
            ∷ []);
}

-- The timer's callback. A timer that is cleared or was never armed does not call it.
unfoldable pub timer_fires : String → ApprovalCorrelator → ApprovalCorrelator
timer_fires approval_id c = elim (get approval_id c.pending) [
  | none ↦ c
  | some e ↦ elim e.timer [
    | none ↦ c
    | some ms ↦
        let done = settle e cancel c in
        record done { log = done.log ++ timeout approval_id e.session_id e.agent_name ∷ [] }
  ]
]

unfoldable pub resolve :
    String → String → ApprovalDecision → ApprovalCorrelator → ApprovalCorrelator × Bool
resolve session_id approval_id d c = elim (get approval_id c.pending) [
  | none ↦ (c, false)
  | some e ↦ if e.session_id == session_id then (settle e d c, true) else (c, false)
]

unfoldable pub resolve_by_id :
    String → ApprovalDecision → ApprovalCorrelator → ApprovalCorrelator × Bool
resolve_by_id approval_id d c = elim (get approval_id c.pending) [
  | none ↦ (c, false)
  | some e ↦ (settle e d c, true)
]

unfoldable pub get_public : String → ApprovalCorrelator → Option RegisteredApproval
get_public approval_id c = elim (get approval_id c.pending) [
  | none ↦ none
  | some e ↦ some (to_public e)
]

-- One round of the loop of `cancelSession`.
unfoldable pub cancel_one : String → ApprovalCorrelator → ApprovalCorrelator
cancel_one id c = elim (get id c.pending) [ none ↦ c | some e ↦ settle e cancel c ]

unfoldable pub cancel_all : List String → ApprovalCorrelator → ApprovalCorrelator
unfolding cancel_one
cancel_all [] c = c
cancel_all (id ∷ ids) c = cancel_all ids (cancel_one id c)

unfoldable pub cancel_session : String → ApprovalCorrelator → ApprovalCorrelator
cancel_session session_id c = elim (get session_id c.by_session) [
  | none ↦ c
  | some ids ↦
      let done = cancel_all ids c in record done { by_session = delete session_id done.by_session }
]

unfoldable pub pending_of : List String → ApprovalCorrelator → List RegisteredApproval
pending_of [] c = []
pending_of (id ∷ ids) c = elim (get id c.pending) [
  | none ↦ pending_of ids c
  | some e ↦ to_public e ∷ pending_of ids c
]

unfoldable pub list_pending : String → ApprovalCorrelator → List RegisteredApproval
unfolding pending_of
list_pending session_id c = pending_of (ids_of session_id c) c

unfoldable pub size : ApprovalCorrelator → ℕ
size c = length c.pending
