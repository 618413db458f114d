-- ===== src/Inbound/Recorded.antt =====
-- packages/transport-matrix/src/transport.ts, `handleInboundEvent`: what it records of a message's call in the
-- state of the message's thread.
use mathlib.Core.Path.{subst}
use zooid.Dict.{get, set}
use zooid.Dict.Laws.{get-set, get-set_self}
use zooid.Events.{AgentBinding, TaskThreadContext, ThreadState, opt_is}
use zooid.Inbound.{
  Desk, Message, Office, adopt_start, empty_state, gate, heal, hold_returns, inbound_rel,
  is_message, is_remote_agent, msgtype_of, note_poster, open_task,
}
use zooid.Inbound.Dispatch.{
  call_edge, context, dispatch, enqueue, is_empty_list, is_new_edge, is_task_root, note_mentions,
  record_edge, record_thread, settle_matches,
}
use zooid.Inbound.Edges.{adopt_start_states, enqueue_states}
use zooid.Inbound.Forest.{gate_states, hold_states}
use zooid.Inbound.Graphs.{SameGraph, live_edge, live_edge-same, note_mentions-graph}
use zooid.Prelude.{
  Bool-cases, List, Option, Option-cases, String, String-cases, [], ap, arith, default, false, inl,
  inr, is_some, last, non_empty, not, refl, some, sym, true, ◌&&◌, ◌++◌, ◌∙◌, ◌∷◌, ◌≡◌,
}
use zooid.Router.{route}
use zooid.Tasks.{TaskRecord}

-- The state that the handler finds of a thread: what is stored, or a fresh one.
abbrev pub state_at : String → Desk → ThreadState
state_at root d = default (get root d.thread_states) empty_state

state_at-same :
    (root : String) (d e : Desk)
    → d.thread_states ≡ e.thread_states
    → state_at root d ≡ state_at root e
state_at-same root d e h = ap (λ s. default (get root s) empty_state) h

module _ (o : Office) (root : String) where
  recorded :
      (task : Option TaskThreadContext) (m : Message) (s : ThreadState) (d : Desk)
      → (record_edge o (call_edge m) root task m s d).thread_states
        ≡ set root (live_edge m s) d.thread_states
  unfolding record_edge
  recorded task m s d = elim (Option-cases (call_edge m)) [
    | inl gone ↦ rw (gone, live_edge) refl
    | inr (h, made) ↦ elim (Bool-cases (is_new_edge h s)) [
      | inl new ↦ rw (made, live_edge, new) refl
      | inr old ↦ rw (made, live_edge, old) refl
    ]
  ]

  poster-graph :
      (k : String) (st : ThreadState) (p : List String) (d : Desk)
      → get k d.thread_states ≡ some st
      → SameGraph
          (state_at root
            (record d { thread_states = set k (record st { participants = p }) d.thread_states }))
          (state_at root d)
  poster-graph k st p d known = elim (String-cases k root) [
    | inl same ↦
        rw
          (
            same,
            get-set_self root (record st { participants = p }) d.thread_states,
            subst (λ x. get x d.thread_states ≡ some st) same known,
          )
          (refl, refl)
    | inr other ↦
        rw (get-set root k (record st { participants = p }) d.thread_states, other) (refl, refl)
  ]

  note_poster-graph :
      (m : Message) (d : Desk) → SameGraph (state_at root (note_poster o m d)) (state_at root d)
  unfolding note_poster
  note_poster-graph m d = elim (Option-cases (inbound_rel m)) [
    | inl gone ↦ rw (gone, note_poster) (refl, refl)
    | inr (k, found) ↦ elim (Option-cases (get k d.thread_states)) [
      | inl gone ↦ rw (found, note_poster, gone) (refl, refl)
      | inr (st, known) ↦ elim (Option-cases (non_empty m.event.sender)) [
        | inl unsent ↦ rw (found, note_poster, known, unsent) (refl, refl)
        | inr (s, sent) ↦
            elim (Bool-cases (
              is_message m
              && is_remote_agent o s (msgtype_of m)
              && not (opt_is (last st.participants) s))) [
                | inl posts ↦
                    rw (found, note_poster, known, sent, posts)
                      (poster-graph k st (st.participants ++ s ∷ []) d known)
                | inr silent_one ↦ rw (found, note_poster, known, sent, silent_one) (refl, refl)
              ]
      ]
    ]
  ]

  record_thread-graph :
      (m : Message) (task : Option TaskThreadContext) (woken : List AgentBinding) (d : Desk)
      → is_task_root task ≡ false
      → (record_thread o m (some root) task woken d).1 ≡ true
      → SameGraph
          (state_at root (record_thread o m (some root) task woken d).0)
          (live_edge m (state_at root d))
  unfolding record_thread
  record_thread-graph m task woken d later on =
      let st : ThreadState = state_at root d in
      elim (Bool-cases (is_empty_list woken && not (is_some (call_edge m)))) [
        | inl idle ↦ elim (Option-cases (call_edge m)) [
          | inl bare ↦ rw (idle, bare, live_edge) (refl, refl)
          | inr (h, made) ↦ absurd (ground (arith, made))
        ]
        | inr busy ↦ elim (Option-cases (note_mentions o m st)) [
          | inl throws ↦ absurd (let e : false ≡ true = rw (busy, later, throws) at on in cc)
          | inr (st', noted) ↦
              let n = note_mentions-graph o m st noted in
              let kept : state_at root (record_edge o (call_edge m) root task m st' d)
                  ≡ live_edge m st' =
                rw (recorded task m st' d, get-set_self root (live_edge m st') d.thread_states)
                  refl in
              rw (busy, later, noted) (rw kept (live_edge-same m st' st n))
        ]
      ]

  settle_matches-graph :
      (m : Message) (rec : Option TaskRecord) (matches : List AgentBinding) (d : Desk)
      → is_task_root (context m rec) ≡ false
      → (settle_matches o m (some root) rec matches d).1 ≡ true
      → SameGraph
          (state_at root (settle_matches o m (some root) rec matches d).0)
          (live_edge m (state_at root d))
  unfolding settle_matches
  settle_matches-graph m rec matches d later on =
      let task = context m rec in
      let called_for = gate o m task matches d in
      let held_back = hold_returns o m (some root) called_for.1 called_for.0 in
      let same =
        hold_states o m (some root) called_for.1 called_for.0 ∙ gate_states o m task matches d in
      elim (Bool-cases (record_thread o m (some root) task held_back.1 held_back.0).1) [
        | inr off ↦ absurd (let e : false ≡ true = rw off at on in cc)
        | inl went ↦
            let written = (record_thread o m (some root) task held_back.1 held_back.0).0 in
            let g = record_thread-graph m task held_back.1 held_back.0 later went in
            let queued =
              state_at-same root (enqueue m (some root) task rec held_back.1 written) written
                (enqueue_states m (some root) task rec held_back.1 written) in
            rw went (
              subst (λ x. SameGraph x (live_edge m (state_at root d))) (sym queued)
                (subst (λ x. SameGraph (state_at root written) (live_edge m x))
                  (state_at-same root held_back.0 d same) g))
      ]

  -- A message that is no result and not the first of a task's thread, and on which the handler does
  -- not throw, leaves in its thread the call that it makes.
  pub dispatch-graph :
      (m : Message) (rebuilt : Option ThreadState) (d : Desk)
      → m.has_result ≡ false
      → is_task_root (context m (open_task (some root) (adopt_start m (heal o m rebuilt d))))
        ≡ false
      → (dispatch o m (some root) rebuilt d).1 ≡ true
      → SameGraph
          (state_at root (dispatch o m (some root) rebuilt d).0)
          (live_edge m (state_at root (heal o m rebuilt d)))
  unfolding dispatch
  dispatch-graph m rebuilt d plain later on =
      let d1 = adopt_start m (heal o m rebuilt d) in
      let rec = open_task (some root) d1 in
      let d2 = note_poster o m d1 in
      elim (Option-cases
        (route o.decode o.now m.event o.agents d2.thread_states (context m rec) o.known)) [
          | inl throws ↦ absurd (let e : false ≡ true = rw (plain, throws) at on in cc)
          | inr (matches, routed) ↦
              let g = settle_matches-graph m rec matches d2 later (rw (plain, routed) at on) in
              let p = note_poster-graph m d1 in
              let l = live_edge-same m (state_at root d2) (state_at root d1) p in
              let e =
                state_at-same root d1 (heal o m rebuilt d)
                  (adopt_start_states m (heal o m rebuilt d)) in
              rw (plain, routed, sym e) (g.0 ∙ l.0, g.1 ∙ l.1)
        ]
