-- ===== src/Router/Directions.antt =====
-- Ordinary threads: agents wake agents only by calls and returns, humans follow up with one agent.
use mathlib.Core.Path.{subst}
use zooid.Calls.Walk.{Acyclic, Up}
use zooid.Dict.{Dict, get}
use zooid.Events.{
  AgentBinding, Content, Event, HandoffContent, ThreadState, Trigger, any_message,
  inbound_thread_root, mention, read_handoff,
}
use zooid.Prelude.{
  All, Bool-cases, List, Option, Option-cases, String, arith, eq_iff, inl, inr, none, refl, some,
  true, ℕ, ◌≡◌, ◌⊎◌,
}
use zooid.Router.{
  Facts, calls_back, chooses, facts, handoff_calls, is_return_route, route, sender_is_agent,
  thread_state,
}
use zooid.Router.Routes.{All-filter, filtered, route-Answer, silent}
use zooid.Router.Samples.{agent, agents}

-- Why an agent is woken by another agent's message: it listens to everything, it is called by the
-- sender's handoff, or it called the sender, and then the sender is not above it in the call graph.
abbrev pub WokenByAgent : Content → Dict ThreadState → String → AgentBinding → Type 0
WokenByAgent c states s a =
    (a.trigger ≡ any_message)
    ⊎ ((h : HandoffContent) × (read_handoff c ≡ some h) × (h.caller ≡ s) × (h.callee ≡ a.user_id))
    ⊎ ((st : ThreadState) × (thread_state c states ≡ some st)
        × (get s st.callers ≡ some a.user_id)
        × (¬ Up st.callers a.user_id s))

calls_back-edge :
    (s : String) (a : AgentBinding) (st : ThreadState)
    → calls_back (some s) a st ≡ true
    → get s st.callers ≡ some a.user_id
calls_back-edge s a st h = elim (Option-cases (get s st.callers)) [
  | inl gone ↦ absurd (ground arith)
  | inr (u, e) ↦ ground (arith, eq_iff u a.user_id)
]

handoff_calls-fields :
    (s : String) (a : AgentBinding) (x : Option HandoffContent)
    → handoff_calls (some s) a x ≡ true
    → (h : HandoffContent) × (x ≡ some h) × (h.caller ≡ s) × (h.callee ≡ a.user_id)
handoff_calls-fields s a none h = absurd (ground arith)
handoff_calls-fields s a (some x) h =
    (x, refl, ground (arith, eq_iff s x.caller), ground (arith, eq_iff x.callee a.user_id))

mention-cases : (t : Trigger) → (t ≡ any_message) ⊎ (t ≡ mention)
mention-cases mention = inr refl
mention-cases any_message = inl refl

chooses-WokenByAgent :
    (f : Facts) (e : Event) (a : AgentBinding) (s : String)
    → e.sender ≡ some s
    → f.from_agent ≡ true
    → chooses none f e a ≡ true
    → (a.trigger ≡ any_message)
      ⊎ (handoff_calls (some s) a f.handoff ≡ true)
      ⊎ ((st : ThreadState) × (f.state ≡ some st) × (calls_back (some s) a st ≡ true))
unfolding chooses is_return_route
chooses-WokenByAgent f e a s hs agent h = elim (mention-cases a.trigger) [
  | inl all ↦ inl all
  | inr only ↦ elim (Option-cases f.state) [
    | inl gone ↦ inr (inl (ground arith))
    | inr (st, found) ↦ elim (Bool-cases (handoff_calls (some s) a f.handoff)) [
      | inl called ↦ inr (inl called)
      | inr uncalled ↦ inr (inr (st, found, ground arith))
    ]
  ]
]

thread_state-get :
    (c : Content) (states : Dict ThreadState) (st : ThreadState)
    → thread_state c states ≡ some st
    → (r : String) × (get r states ≡ some st)
unfolding thread_state
thread_state-get c states st h = elim (Option-cases (inbound_thread_root c)) [
  | inl gone ↦ absurd (ground arith)
  | inr (r, e) ↦ (r, ground arith)
]

facts-WokenByAgent :
    (e : Event) (c : Content) (agents : List AgentBinding) (states : Dict ThreadState)
    (known ms : List String) (s : String) (a : AgentBinding)
    → ((r : String) (st : ThreadState) → get r states ≡ some st → Acyclic st.callers)
    → e.sender ≡ some s
    → sender_is_agent e c agents known ≡ true
    → chooses none (facts e c agents states known ms) e a ≡ true
    → WokenByAgent c states s a
unfolding facts
facts-WokenByAgent e c agents states known ms s a acyclic hs agent h =
    elim (chooses-WokenByAgent (facts e c agents states known ms) e a s hs agent h) [
      | inl all ↦ inl all
      | inr (inl called) ↦ inr (inl (handoff_calls-fields s a (read_handoff c) called))
      | inr (inr (st, found, back)) ↦
          let (r, stored) = thread_state-get c states st found in
          let edge = calls_back-edge s a st back in
          inr (inr (st, found, edge, acyclic r st stored s a.user_id edge))
    ]

-- In an ordinary thread an agent's message wakes an agent bound by mentions only if the message is a
-- handoff of its sender to that agent, or that agent called the sender. With acyclic call graphs the
-- latter lies strictly above the sender, so that a chain of returns never comes back to it.
pub route-WokenByAgent :
    (decode : String → Option String) (now : ℕ) (e : Event) (c : Content)
    (agents : List AgentBinding) (states : Dict ThreadState) (known : List String) (s : String)
    (out : List AgentBinding)
    → ((r : String) (st : ThreadState) → get r states ≡ some st → Acyclic st.callers)
    → e.content ≡ some c
    → e.sender ≡ some s
    → sender_is_agent e c agents known ≡ true
    → route decode now e agents states none known ≡ some out
    → All (WokenByAgent c states s) out
route-WokenByAgent decode now e c agents states known s out acyclic hc hs agent h =
    elim (route-Answer decode now e agents states none known out h) [
      | silent none_woken ↦ rw none_woken tt
      | filtered c' ms hc' hm on same ↦
          let e' : c' ≡ c = ground arith in
          rw same (
            All-filter (WokenByAgent c states s) _ agents (λ a ha.
              facts-WokenByAgent e c agents states known ms s a acyclic hs agent
                (subst (λ x. chooses none (facts e x agents states known ms) e a ≡ true) e' ha)))
    ]
