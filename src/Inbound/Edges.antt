-- ===== src/Inbound/Edges.antt =====
-- packages/transport-matrix/src/transport.ts: acyclic call graphs under single writes.
-- The call graph of every thread.
use mathlib.Core.Path.{subst}
use zooid.Calls.Walk.{Acyclic, Up, would_cycle_callers_iff}
use zooid.Dict.{Dict, get, set}
use zooid.Dict.Laws.{get-set}
use zooid.Events.{AgentBinding, HandoffContent, TaskThreadContext, ThreadState}
use zooid.Inbound.{Desk, Message, adopt_start, empty_state}
use zooid.Inbound.Dispatch.{enqueue, is_new_edge, root_assignee}
use zooid.Prelude.{
  List, Option, Option-cases, String, String-cases, [], arith, default, eq_iff, false, inl, inr,
  none, not, refl, some, true, ◌&&◌, ◌==◌, ◌≡◌,
}
use zooid.Tasks.{TaskRecord}

abbrev pub Forests : Dict ThreadState → Type 0
Forests m = (root : String) (st : ThreadState) → get root m ≡ some st → Acyclic st.callers

pub set-Forests :
    (root : String) (st : ThreadState) (m : Dict ThreadState)
    → Acyclic st.callers
    → Forests m
    → Forests (set root st m)
set-Forests root st m forest rest k x h = elim (String-cases root k) [
  | inl same ↦
      let mine : some st ≡ some x = rw (get-set k root st m, (eq_iff root k).1 same) at h in
      subst (λ o. Acyclic (default o st).callers) mine forest
  | inr other ↦ rest k x (rw (get-set k root st m, other) at h)
]

pub Acyclic-empty : Acyclic []
unfolding get
Acyclic-empty a p e u = absurd (let b : none ≡ some p = e in cc)

pub default-Acyclic :
    (root : String) (m : Dict ThreadState)
    → Forests m
    → Acyclic (default (get root m) empty_state).callers
default-Acyclic root m f = elim (Option-cases (get root m)) [
  | inl gone ↦ rw gone Acyclic-empty
  | inr (st, found) ↦ rw found (f root st found)
]

-- A recorded edge's caller is not below its callee.
pub new_edge-apart :
    (h : HandoffContent) (st : ThreadState)
    → Acyclic st.callers
    → is_new_edge h st ≡ true
    → ¬ Up st.callers h.caller h.callee
unfolding is_new_edge
new_edge-apart h st acyclic new up =
    let closes = (would_cycle_callers_iff st.callers h.callee h.caller acyclic).1 up in
    let open_one : not (h.callee == h.caller) && false ≡ true = rw closes at new in ground arith

pub root_assignee-callers :
    (task : Option TaskThreadContext) (st : ThreadState)
    → (root_assignee task st).callers ≡ st.callers
root_assignee-callers none st = refl
root_assignee-callers (some t) st = ground arith

pub adopt_start_states :
    (m : Message) (d : Desk) → (adopt_start m d).thread_states ≡ d.thread_states
unfolding adopt_start
adopt_start_states m d = ground arith

pub enqueue_states :
    (m : Message) (promoted : Option String) (task : Option TaskThreadContext)
    (rec : Option TaskRecord) (woken : List AgentBinding) (d : Desk)
    → (enqueue m promoted task rec woken d).thread_states ≡ d.thread_states
unfolding enqueue
enqueue_states m promoted task rec woken d = ground arith
