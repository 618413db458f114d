-- ===== src/Inbound/Restarts.antt =====
-- packages/transport-matrix/src/transport.ts: the call graph that `rebuildThreadState` makes is the one that the
-- handler had recorded.
use mathlib.Core.Path.{subst}
use zooid.Calls.Walk.{Acyclic}
use zooid.Events.{ThreadState, is_mirror_notice}
use zooid.Inbound.{Desk, Message, Office, adopt_start, empty_state, heal, open_task}
use zooid.Inbound.Dispatch.{context, dispatch, is_task_root, note_mentions}
use zooid.Inbound.Edges.{Acyclic-empty, Forests}
use zooid.Inbound.Forest.{dispatch-Forests}
use zooid.Inbound.Graphs.{
  Plain, SameGraph, add_all-graph, live_all, live_edge, live_edge-same, note_mentions-graph,
  seed_all-live, seed_edge-callers,
}
use zooid.Inbound.Rebuild.{add_all, reader_in, rebuild_thread_state, seed_all, seed_edge, with_root}
use zooid.Inbound.Recorded.{dispatch-graph, state_at}
use zooid.Prelude.{
  All, Bool-cases, List, Option, Option-cases, String, [], ap, bind_some, default, false, inl, inr,
  none, refl, some, sym, true, ◌∙◌, ◌∷◌, ◌≡◌, ◌⊎◌,
}
use zooid.Returns.{fresh}

module _ (o : Office) where
  seed_all-callers :
      (ms : List Message) (s : ThreadState) {st : ThreadState}
      → Acyclic s.callers
      → seed_all o ms s ≡ some st
      → Acyclic st.callers
  unfolding seed_all
  seed_all-callers [] s forest h = subst (λ x. Acyclic (default x s).callers) h forest
  seed_all-callers (m ∷ ms) s {st = st} forest h =
      elim (Bool-cases (is_mirror_notice m.event.content)) [
        | inl mirror ↦ seed_all-callers ms s forest (rw (seed_all, mirror) at h)
        | inr shown ↦ elim (Option-cases (note_mentions o m s)) [
          | inl throws ↦ absurd (let b : none ≡ some st = rw (seed_all, shown, throws) at h in cc)
          | inr (s', noted) ↦
              let n = note_mentions-graph o m s noted in
              seed_all-callers ms (seed_edge m s')
                (seed_edge-callers m s' (subst Acyclic (sym n.0) forest))
                (rw (seed_all, shown, noted) at h)
        ]
      ]

  -- The states that a rebuild gives: the empty one, or what both loops make.
  rebuild-cases :
      (room : String) (root : Option Message) (thread : List Message) {st : ThreadState}
      → rebuild_thread_state o room root thread ≡ some st
      → (st ≡ empty_state)
        ⊎ ((s : ThreadState) × (seed_all o (with_root o root thread) empty_state ≡ some s)
            × (add_all o thread s ≡ st))
  unfolding rebuild_thread_state
  rebuild-cases room root thread {st = st} h = elim (Option-cases (reader_in room o.agents)) [
    | inl nobody_reads ↦
        inl (ap (λ x. default x empty_state) (sym (rw (nobody_reads, rebuild_thread_state) at h)))
    | inr (u, reads) ↦
        let (s, seeded, made) =
          bind_some (seed_all o (with_root o root thread) empty_state)
            (λ st. some (add_all o thread st)) (rw (reads, rebuild_thread_state) at h) in
        inr (s, seeded, ap (λ x. default x st) made)
  ]

  rebuild-Acyclic :
      (room : String) (root : Option Message) (thread : List Message) (st : ThreadState)
      → rebuild_thread_state o room root thread ≡ some st
      → Acyclic st.callers
  rebuild-Acyclic room root thread st h = elim (rebuild-cases room root thread h) [
    | inl bare ↦ rw bare Acyclic-empty
    | inr (s, seeded, made) ↦
        let g = add_all-graph o thread s in
        rw (← made, g.0)
          (seed_all-callers (with_root o root thread) empty_state Acyclic-empty seeded)
  ]

  -- After a restart the handler heals a thread with the state that is rebuilt from its events: whatever
  -- the events are, if the call graph of every thread is acyclic before the message, it is after.
  pub restart-Forests :
      (m : Message) (promoted : Option String) (room : String) (root : Option Message)
      (thread : List Message) (d : Desk)
      → Forests d.thread_states
      → Forests (dispatch o m promoted (rebuild_thread_state o room root thread) d).0.thread_states
  restart-Forests m promoted room root thread d f =
      dispatch-Forests o m promoted (rebuild_thread_state o room root thread) d
        (rebuild-Acyclic room root thread) f

  -- The handler takes the messages of a thread, one after the other: each is no thread result and not
  -- the first of a task's thread, its healing brings no call, and the handler does not throw on it. In
  -- between whatever else happens leaves the calls of the thread as they are.
  pub data Handles (root : String) : List Message → Desk → Desk → Type 0 where
    over : (d : Desk) → Handles root [] d d
    elsewhere :
        (ms : List Message) (d e d' : Desk)
        → SameGraph (state_at root e) (state_at root d)
        → Handles root ms e d'
        → Handles root ms d d'
    takes :
        (m : Message) (ms : List Message) (rebuilt : Option ThreadState) (d d' : Desk)
        → SameGraph (state_at root (heal o m rebuilt d)) (state_at root d)
        → m.has_result ≡ false
        → is_task_root (context m (open_task (some root) (adopt_start m (heal o m rebuilt d))))
          ≡ false
        → (dispatch o m (some root) rebuilt d).1 ≡ true
        → Handles root ms (dispatch o m (some root) rebuilt d).0 d'
        → Handles root (m ∷ ms) d d'

  handles-live :
      (root : String) (ms : List Message) (d d' : Desk) (t : ThreadState)
      → Handles root ms d d'
      → SameGraph (state_at root d) t
      → SameGraph (state_at root d') (live_all ms t)
  handles-live root _ _ _ t (over d) g = g
  handles-live root _ _ _ t (elsewhere ms d e d' same rest) g =
      handles-live root ms e d' t rest (same.0 ∙ g.0, same.1 ∙ g.1)
  handles-live root _ _ _ t (takes m ms rebuilt d d' healed plain later on rest) g =
      let made = dispatch-graph o root m rebuilt d plain later on in
      let l =
        live_edge-same m (state_at root (heal o m rebuilt d)) t (healed.0 ∙ g.0, healed.1 ∙ g.1) in
      handles-live root ms (dispatch o m (some root) rebuilt d).0 d' (live_edge m t) rest
        (made.0 ∙ l.0, made.1 ∙ l.1)

  -- A thread has no call when its first message comes, and the handler takes its messages one after
  -- the other, each no thread result, not the first of a task's thread, without throwing and with no
  -- call brought by a healing; what happens in between leaves the thread's calls alone. Then, where an
  -- agent can read the room and the messages are no display mirrors, the state that is rebuilt from
  -- them after a restart has the callers and the arcs that the handler had recorded in the end.
  pub rebuild-SameGraph :
      (id room user_id : String) (root : Option Message) (thread : List Message) (st : ThreadState)
      (d d' : Desk)
      → reader_in room o.agents ≡ some user_id
      → All Plain (with_root o root thread)
      → SameGraph (state_at id d) empty_state
      → Handles id (with_root o root thread) d d'
      → rebuild_thread_state o room root thread ≡ some st
      → SameGraph st (state_at id d')
  unfolding rebuild_thread_state
  rebuild-SameGraph id room user_id root thread st d d' reads plain fresh handled h =
      let (s, seeded, made) =
        bind_some (seed_all o (with_root o root thread) empty_state)
          (λ st. some (add_all o thread st)) (rw (reads, rebuild_thread_state) at h) in
      let g = add_all-graph o thread s in
      let seeds =
        seed_all-live o (with_root o root thread) empty_state empty_state plain (refl, refl)
          seeded in
      let live = handles-live id (with_root o root thread) d d' empty_state handled fresh in
      let same = ap (λ x. default x st) made in
      (
        ap (λ x. x.callers) (sym same) ∙ (g.0 ∙ seeds.0) ∙ sym live.0,
        ap (λ x. x.handoffs) (sym same) ∙ (g.1 ∙ seeds.1) ∙ sym live.1,
      )
