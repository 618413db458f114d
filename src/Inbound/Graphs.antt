-- ===== src/Inbound/Graphs.antt =====
-- packages/transport-matrix/src/transport.ts: what the handler and `rebuildThreadState` record of a thread's calls.
-- What the handler records of a message's call in a thread's state.
use zooid.Calls.{with_call, would_cycle_callers}
use zooid.Calls.CallGraph.{set-Acyclic}
use zooid.Calls.Walk.{Acyclic}
use zooid.Dict.{get, insert, set}
use zooid.Events.{HandoffContent, ThreadState, is_mirror_notice, opt_is, read_handoff}
use zooid.Inbound.{Message, Office, is_message}
use zooid.Inbound.Dispatch.{call_edge, is_new_edge, note_mentions, sent_by_agent}
use zooid.Inbound.Edges.{new_edge-apart}
use zooid.Inbound.Rebuild.{add_all, add_participant, seed_all, seed_edge}
use zooid.Mentions.{extract_mentions}
use zooid.Prelude.{
  All, Bool-cases, List, Option, Option-cases, String, [], ap, arith, default, false, if◌then◌else◌,
  inl, inr, none, not, refl, some, sym, true, ◌&&◌, ◌==◌, ◌>>=◌, ◌∙◌, ◌∷◌, ◌≡◌,
}
use zooid.Router.Samples.{agent}

abbrev pub live_edge : Message → ThreadState → ThreadState
live_edge m st = elim (call_edge m) [
  | none ↦ st
  | some h ↦ if is_new_edge h st then with_call h m.event_id st else st
]

abbrev pub live_all : List Message → ThreadState → ThreadState
live_all [] st = st
live_all (m ∷ ms) st = live_all ms (live_edge m st)

-- The callers and the arcs of two states.
abbrev pub SameGraph : ThreadState → ThreadState → Type 0
SameGraph s t = (s.callers ≡ t.callers) × (s.handoffs ≡ t.handoffs)

-- A message that is no display mirror.
abbrev pub Plain : Message → Type 0
Plain m = (is_message m ≡ true) × (is_mirror_notice m.event.content ≡ false)

is_new_edge-same :
    (h : HandoffContent) (s t : ThreadState) → SameGraph s t → is_new_edge h s ≡ is_new_edge h t
unfolding is_new_edge
is_new_edge-same h s t g =
    ap
      (λ c.
        not (h.callee == h.caller)
        && elim (would_cycle_callers c h.callee h.caller) [ none ↦ false | some b ↦ not b ])
      g.0

with_call-same :
    (h : HandoffContent) (id : Option String) (s t : ThreadState)
    → SameGraph s t
    → SameGraph (with_call h id s) (with_call h id t)
with_call-same h none s t g = (ap (set h.callee h.caller) g.0, g.1)
with_call-same h (some id) s t g = (
  ap (set h.callee h.caller) g.0,
  ap (λ x. if id == "" then x else set h.callee (insert id (default (get h.callee x) [])) x) g.1,
)

pub live_edge-same :
    (m : Message) (s t : ThreadState) → SameGraph s t → SameGraph (live_edge m s) (live_edge m t)
live_edge-same m s t g = elim (Option-cases (call_edge m)) [
  | inl none_made ↦ rw (none_made, live_edge) g
  | inr (h, made) ↦ elim (Bool-cases (is_new_edge h s)) [
    | inl new ↦
        rw (made, live_edge, new, sym (is_new_edge-same h s t g) ∙ new)
          (with_call-same h m.event_id s t g)
    | inr old ↦ rw (made, live_edge, old, sym (is_new_edge-same h s t g) ∙ old) g
  ]
]

-- For a message both conditions on an edge are the same.
seed_edge-live :
    (m : Message) (st : ThreadState) → is_message m ≡ true → seed_edge m st ≡ live_edge m st
unfolding seed_edge call_edge
seed_edge-live m st message = elim (Option-cases (m.event.content >>= read_handoff)) [
  | inl bare ↦ rw (bare, seed_edge, call_edge, live_edge) refl
  | inr (h, reads) ↦ elim (Bool-cases (opt_is m.event.sender h.caller)) [
    | inl own ↦ rw (reads, seed_edge, live_edge, call_edge, message, own) refl
    | inr forged ↦ rw (reads, seed_edge, live_edge, call_edge, message, forged) refl
  ]
]

pub seed_edge-callers :
    (m : Message) (st : ThreadState) → Acyclic st.callers → Acyclic (seed_edge m st).callers
unfolding seed_edge
seed_edge-callers m st forest = elim (Option-cases (m.event.content >>= read_handoff)) [
  | inl bare ↦ rw (bare, seed_edge) forest
  | inr (h, reads) ↦ elim (Bool-cases (opt_is m.event.sender h.caller && is_new_edge h st)) [
    | inl new ↦
        rw (reads, seed_edge, new)
          (set-Acyclic st.callers h.callee h.caller (new_edge-apart h st forest (ground arith))
            forest)
    | inr old ↦ rw (reads, seed_edge, old) forest
  ]
]

module _ (o : Office) where
  pub note_mentions-graph :
      (m : Message) (s : ThreadState) {s' : ThreadState}
      → note_mentions o m s ≡ some s'
      → SameGraph s' s
  unfolding note_mentions
  note_mentions-graph m s {s' = s'} h = elim (Bool-cases (sent_by_agent o m)) [
    | inl agent ↦
        let e = rw agent at h in
        (ap (λ x. (default x s).callers) (sym e), ap (λ x. (default x s).handoffs) (sym e))
    | inr human ↦ elim (Option-cases m.event.content) [
      | inl bare ↦
          let e = rw (human, bare) at h in
          (ap (λ x. (default x s).callers) (sym e), ap (λ x. (default x s).handoffs) (sym e))
      | inr (c, full) ↦ elim (Option-cases (extract_mentions o.decode c.text)) [
        | inl throws ↦ absurd (let b : none ≡ some s' = rw (human, full, throws) at h in cc)
        | inr (mentions, read) ↦
            let e = rw (human, full, read) at h in
            (ap (λ x. (default x s).callers) (sym e), ap (λ x. (default x s).handoffs) (sym e))
      ]
    ]
  ]

  pub seed_all-live :
      (ms : List Message) (s t : ThreadState) {st : ThreadState}
      → All Plain ms
      → SameGraph s t
      → seed_all o ms s ≡ some st
      → SameGraph st (live_all ms t)
  unfolding seed_all
  seed_all-live [] s t plain g h = (
    ap (λ x. (default x s).callers) (sym h) ∙ g.0,
    ap (λ x. (default x s).handoffs) (sym h) ∙ g.1,
  )
  seed_all-live (m ∷ ms) s t {st = st} (p, plain) g h = elim (Option-cases (note_mentions o m s)) [
    | inl throws ↦ absurd (let b : none ≡ some st = rw (seed_all, p.1, throws) at h in cc)
    | inr (s', noted) ↦
        let n = note_mentions-graph m s noted in
        let both : SameGraph s' t = (n.0 ∙ g.0, n.1 ∙ g.1) in
        seed_all-live ms (seed_edge m s') (live_edge m t) plain
          (rw (seed_edge-live m s' p.0) (live_edge-same m s' t both))
          (rw (seed_all, p.1, noted) at h)
  ]

  pub add_all-graph : (ms : List Message) (s : ThreadState) → SameGraph (add_all o ms s) s
  unfolding add_all
  add_all-graph [] s = (refl, refl)
  add_all-graph (m ∷ ms) s =
      let rest =
        add_all-graph ms (if is_mirror_notice m.event.content then s else add_participant o m s) in
      ground (arith)
