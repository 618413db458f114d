-- ===== src/Inbound/Queue.antt =====
-- packages/transport-matrix/src/transport.ts: the steps before the queueing leave the queue alone.
use zooid.Dict.{get}
use zooid.Events.{AgentBinding, HandoffContent, TaskThreadContext, ThreadState}
use zooid.Inbound.{
  Desk, Message, Office, adopt_start, empty_state, gate, heal, hold_returns, in_task_thread,
  note_poster,
}
use zooid.Inbound.Dispatch.{
  call_edge, is_empty_list, is_new_edge, is_task_root, note_mentions, record_edge, record_thread,
}
use zooid.Prelude.{
  Bool-cases, List, Option, Option-cases, String, arith, default, if◌then◌else◌, inl, inr, is_some,
  non_empty, none, not, refl, some, ◌&&◌, ◌≡◌,
}

module _ (o : Office) (m : Message) where
  pub record_edge_queued :
      (h : Option HandoffContent) (root : String) (task : Option TaskThreadContext)
      (st : ThreadState) (d : Desk)
      → (record_edge o h root task m st d).queued ≡ d.queued
  unfolding record_edge
  record_edge_queued none root task st d = refl
  record_edge_queued (some h) root task st d = elim (Bool-cases (is_new_edge h st)) [
    | inl new ↦ rw new refl
    | inr old ↦ rw old refl
  ]

  pub record_thread_queued :
      (promoted : Option String) (task : Option TaskThreadContext) (woken : List AgentBinding)
      (d : Desk)
      → (record_thread o m promoted task woken d).0.queued ≡ d.queued
  unfolding record_thread
  record_thread_queued none task woken d = refl
  record_thread_queued (some root) task woken d =
      let st = default (get root d.thread_states) empty_state in
      elim (Bool-cases (is_empty_list woken && not (is_some (call_edge m)))) [
        | inl idle ↦ rw idle refl
        | inr busy ↦ elim (Bool-cases (is_task_root task)) [
          | inl first ↦ rw (busy, first) refl
          | inr later ↦ elim (Option-cases (note_mentions o m st)) [
            | inl throws ↦ rw (busy, later, throws) refl
            | inr (st', noted) ↦
                rw (busy, later, noted) (record_edge_queued (call_edge m) root task st' d)
          ]
        ]
      ]

  pub gate_queued :
      (task : Option TaskThreadContext) (matches : List AgentBinding) (d : Desk)
      → (gate o m task matches d).0.queued ≡ d.queued
  unfolding gate
  gate_queued task matches d =
      elim (Option-cases (if in_task_thread o m task then non_empty m.event_id else none)) [
        | inl free ↦ rw (free, gate) refl
        | inr (id, guarded) ↦ rw (guarded, gate) refl
      ]

  pub hold_queued :
      (promoted : Option String) (matches : List AgentBinding) (d : Desk)
      → (hold_returns o m promoted matches d).0.queued ≡ d.queued
  unfolding hold_returns
  hold_queued promoted matches d = ground arith

  pub heal_queued :
      (rebuilt : Option ThreadState) (d : Desk) → (heal o m rebuilt d).queued ≡ d.queued
  unfolding heal
  heal_queued rebuilt d = ground arith

  pub adopt_start_queued : (d : Desk) → (adopt_start m d).queued ≡ d.queued
  unfolding adopt_start
  adopt_start_queued d = ground arith

  pub note_poster_queued : (d : Desk) → (note_poster o m d).queued ≡ d.queued
  unfolding note_poster
  note_poster_queued d = ground arith
