-- ===== src/Inbound/Forest.antt =====
-- packages/transport-matrix/src/transport.ts: whatever message comes, the call graph of each thread stays a forest.
use mathlib.Core.Path.{subst}
use zooid.Calls.{with_call}
use zooid.Calls.CallGraph.{set-Acyclic}
use zooid.Calls.Walk.{Acyclic}
use zooid.Dict.{get, has}
use zooid.Events.{AgentBinding, HandoffContent, TaskThreadContext, ThreadState, opt_is, truthy}
use zooid.Inbound.{
  Desk, Message, Office, adopt_start, empty_state, gate, heal, hold_returns, in_task_thread,
  inbound_rel, is_message, is_remote_agent, msgtype_of, note_poster, open_task,
}
use zooid.Inbound.Dispatch.{
  call_edge, context, dispatch, is_empty_list, is_new_edge, is_task_root, note_mentions,
  record_edge, record_thread, root_assignee, sent_by_agent, settle_matches,
}
use zooid.Inbound.Edges.{
  Forests, adopt_start_states, default-Acyclic, enqueue_states, new_edge-apart,
  root_assignee-callers, set-Forests,
}
use zooid.Mentions.{extract_mentions}
use zooid.Prelude.{
  Bool-cases, List, Option, Option-cases, String, [], ap, arith, default, if◌then◌else◌, inl, inr,
  is_some, last, non_empty, none, not, refl, some, sym, ◌&&◌, ◌++◌, ◌∙◌, ◌∷◌, ◌≡◌,
}
use zooid.Router.{route}
use zooid.Router.Samples.{agent}
use zooid.Tasks.{TaskRecord}

module _ (o : Office) where
  heal-Forests :
      (m : Message) (rebuilt : Option ThreadState) (d : Desk)
      → ((st : ThreadState) → rebuilt ≡ some st → Acyclic st.callers)
      → Forests d.thread_states
      → Forests (heal o m rebuilt d).thread_states
  unfolding heal
  heal-Forests m rebuilt d r f = elim (Option-cases (inbound_rel m)) [
    | inl gone ↦ rw (gone, heal) f
    | inr (root, found) ↦
        elim (Bool-cases
          (is_message m && not (has root d.thread_states) && truthy m.event.room_id)) [
            | inr no_need ↦ rw (found, heal, no_need) f
            | inl needed ↦ elim (Option-cases rebuilt) [
              | inl failed ↦ rw (found, heal, needed, failed) f
              | inr (st, made) ↦
                  rw (found, heal, needed, made) (set-Forests root st d.thread_states (r st made) f)
            ]
          ]
  ]

  note_poster-Forests :
      (m : Message) (d : Desk) → Forests d.thread_states → Forests (note_poster o m d).thread_states
  unfolding note_poster
  note_poster-Forests m d f = elim (Option-cases (inbound_rel m)) [
    | inl gone ↦ rw (gone, note_poster) f
    | inr (root, found) ↦ elim (Option-cases (get root d.thread_states)) [
      | inl gone ↦ rw (found, note_poster, gone) f
      | inr (st, known) ↦ elim (Option-cases (non_empty m.event.sender)) [
        | inl unsent ↦ rw (found, note_poster, known, unsent) f
        | inr (s, sent) ↦
            elim (Bool-cases (
              is_message m
              && is_remote_agent o s (msgtype_of m)
              && not (opt_is (last st.participants) s))) [
                | inl posts ↦
                    rw (found, note_poster, known, sent, posts)
                      (set-Forests root (record st { participants = st.participants ++ s ∷ [] })
                        d.thread_states (f root st known) f)
                | inr silent_one ↦ rw (found, note_poster, known, sent, silent_one) f
              ]
      ]
    ]
  ]

  record_edge-Forests :
      (h : Option HandoffContent) (root : String) (task : Option TaskThreadContext) (m : Message)
      (st : ThreadState) (d : Desk)
      → Acyclic st.callers
      → Forests d.thread_states
      → Forests (record_edge o h root task m st d).thread_states
  unfolding record_edge
  record_edge-Forests none root task m st d forest f = set-Forests root st d.thread_states forest f
  record_edge-Forests (some h) root task m st d forest f = elim (Bool-cases (is_new_edge h st)) [
    | inr old ↦ rw old (set-Forests root st d.thread_states forest f)
    | inl new ↦ rw new (
        set-Forests root (with_call h m.event_id st) d.thread_states
          (set-Acyclic st.callers h.callee h.caller (new_edge-apart h st forest new) forest) f)
  ]

  note_mentions-callers :
      (m : Message) (st : ThreadState) {st' : ThreadState}
      → note_mentions o m st ≡ some st'
      → st'.callers ≡ st.callers
  unfolding note_mentions
  note_mentions-callers m st {st' = st'} h = elim (Bool-cases (sent_by_agent o m)) [
    | inl agent ↦ ap (λ x. (default x st).callers) (sym (rw agent at h))
    | inr human ↦ elim (Option-cases m.event.content) [
      | inl bare ↦ ap (λ x. (default x st).callers) (sym (rw (human, bare) at h))
      | inr (c, full) ↦ elim (Option-cases (extract_mentions o.decode c.text)) [
        | inl throws ↦ absurd (let b : none ≡ some st' = rw (human, full, throws) at h in cc)
        | inr (mentions, read) ↦
            ap (λ x. (default x st).callers) (sym (rw (human, full, read) at h))
      ]
    ]
  ]

  record_thread-Forests :
      (m : Message) (promoted : Option String) (task : Option TaskThreadContext)
      (woken : List AgentBinding) (d : Desk)
      → Forests d.thread_states
      → Forests (record_thread o m promoted task woken d).0.thread_states
  unfolding record_thread
  record_thread-Forests m none task woken d f = f
  record_thread-Forests m (some root) task woken d f =
      let st = default (get root d.thread_states) empty_state in
      let before = default-Acyclic root d.thread_states f in
      elim (Bool-cases (is_empty_list woken && not (is_some (call_edge m)))) [
        | inl idle ↦ rw idle f
        | inr busy ↦ elim (Bool-cases (is_task_root task)) [
          | inl first ↦
              rw (busy, first)
                (set-Forests root (root_assignee task st) d.thread_states
                  (rw (root_assignee-callers task st) before) f)
          | inr later ↦ elim (Option-cases (note_mentions o m st)) [
            | inl throws ↦ rw (busy, later, throws) (set-Forests root st d.thread_states before f)
            | inr (st', noted) ↦
                rw (busy, later, noted)
                  (record_edge-Forests (call_edge m) root task m st' d
                    (rw (note_mentions-callers m st noted) before) f)
          ]
        ]
      ]

  pub gate_states :
      (m : Message) (task : Option TaskThreadContext) (matches : List AgentBinding) (d : Desk)
      → (gate o m task matches d).0.thread_states ≡ d.thread_states
  unfolding gate
  gate_states m task matches d =
      elim (Option-cases (if in_task_thread o m task then non_empty m.event_id else none)) [
        | inl free ↦ rw (free, gate) refl
        | inr (id, guarded) ↦ rw (guarded, gate) refl
      ]

  pub hold_states :
      (m : Message) (promoted : Option String) (matches : List AgentBinding) (d : Desk)
      → (hold_returns o m promoted matches d).0.thread_states ≡ d.thread_states
  unfolding hold_returns
  hold_states m promoted matches d = ground arith

  settle_matches-Forests :
      (m : Message) (promoted : Option String) (rec : Option TaskRecord)
      (matches : List AgentBinding) (d : Desk)
      → Forests d.thread_states
      → Forests (settle_matches o m promoted rec matches d).0.thread_states
  unfolding settle_matches
  settle_matches-Forests m promoted rec matches d f =
      let task = context m rec in
      let called_for = gate o m task matches d in
      let held_back = hold_returns o m promoted called_for.1 called_for.0 in
      let same = hold_states m promoted called_for.1 called_for.0 ∙ gate_states m task matches d in
      let recorded =
        record_thread-Forests m promoted task held_back.1 held_back.0
          (subst Forests (sym same) f) in
      elim (Bool-cases (record_thread o m promoted task held_back.1 held_back.0).1) [
        | inl on ↦ rw on (
            subst Forests
              (sym (
                enqueue_states m promoted task rec held_back.1
                  (record_thread o m promoted task held_back.1 held_back.0).0))
              recorded)
        | inr off ↦ rw off recorded
      ]

  -- Whatever event comes, with whatever promoted root: if the call graph of every thread is acyclic,
  -- and that of a rebuilt state is, then after the handler the call graph of every thread is acyclic,
  -- so that the walks along it end. This holds also where the handler throws on the way.
  pub dispatch-Forests :
      (m : Message) (promoted : Option String) (rebuilt : Option ThreadState) (d : Desk)
      → ((st : ThreadState) → rebuilt ≡ some st → Acyclic st.callers)
      → Forests d.thread_states
      → Forests (dispatch o m promoted rebuilt d).0.thread_states
  unfolding dispatch
  dispatch-Forests m promoted rebuilt d r f =
      let d1 = adopt_start m (heal o m rebuilt d) in
      let f1 : Forests d1.thread_states =
        subst Forests (sym (adopt_start_states m (heal o m rebuilt d)))
          (heal-Forests m rebuilt d r f) in
      let rec = open_task promoted d1 in
      let d2 = note_poster o m d1 in
      let f2 = note_poster-Forests m d1 f1 in
      elim (Bool-cases m.has_result) [
        | inl result ↦ rw result f1
        | inr plain ↦
            elim (Option-cases
              (route o.decode o.now m.event o.agents d2.thread_states (context m rec) o.known)) [
                | inl throws ↦ rw (plain, throws) f2
                | inr (matches, routed) ↦
                    rw (plain, routed) (settle_matches-Forests m promoted rec matches d2 f2)
              ]
      ]
