-- ===== src/Invocations/Ancestors.antt =====
-- The walk of `ancestorAgents` ends, whatever the calls are.
use zooid.Dict.{get, insert}
use zooid.Dict.Remaining.{remaining, remaining-insert-lt, remaining-le}
use zooid.Invocations.{
  InvocationRegistry, ancestor_agents, ancestors, for_callee_session, is_outstanding,
}
use zooid.Prelude.{
  Bool-cases, List, Option-cases, String, [], arith, includes, inl, inr, length, none, refl, some,
  suc, zero, ℕ, ◌<◌, ◌∷◌, ◌≡◌,
}

ancestors-top :
    (fuel : ℕ) (c : InvocationRegistry) (cursor : String) (seen : List String)
    → for_callee_session cursor c ≡ none
    → ancestors (suc fuel) c cursor seen ≡ some []
unfolding ancestors
ancestors-top fuel c cursor seen h = rw (h, ancestors) refl

-- A session that leads to no record has no entry that counts.
for_callee_session-none :
    (c : InvocationRegistry) (session : String)
    → get session c.by_callee ≡ none
    → for_callee_session session c ≡ none
unfolding for_callee_session
for_callee_session-none c session h = ground arith

-- The sessions that were called and that the walk has not passed bound its rounds.
ancestors_total :
    (fuel : ℕ) (c : InvocationRegistry) (cursor : String) (seen : List String)
    → suc (remaining seen c.by_callee) < fuel
    → (agents : List String) × (ancestors fuel c cursor seen ≡ some agents)
unfolding ancestors
ancestors_total zero c cursor seen h = absurd (omega arith)
ancestors_total (suc zero) c cursor seen h = absurd (omega arith)
ancestors_total (suc (suc fuel)) c cursor seen h =
    elim (Option-cases (for_callee_session cursor c)) [
      | inl top ↦ ([], ancestors-top (suc fuel) c cursor seen top)
      | inr (r, found) ↦ elim (Bool-cases (is_outstanding r.state)) [
        | inr over ↦ ([], rw (found, ancestors, over) refl)
        | inl open_still ↦
            let next = r.caller_session_key in
            elim (Bool-cases (includes next seen)) [
              | inl again ↦ (r.caller_agent ∷ [], rw (found, ancestors, open_still, again) refl)
              | inr new ↦ elim (Option-cases (get next c.by_callee)) [
                | inl gone ↦
                    let last_round =
                      ancestors-top fuel c next (insert next seen)
                        (for_callee_session-none c next gone) in
                    (r.caller_agent ∷ [], rw (found, ancestors, open_still, new, last_round) refl)
                | inr (id, called) ↦
                    let (agents, rest) =
                      ancestors_total (suc fuel) c next (insert next seen)
                        (omega (arith, remaining-insert-lt next id seen c.by_callee called new)) in
                    (r.caller_agent ∷ agents, rw (found, ancestors, open_still, new, rest) refl)
              ]
            ]
      ]
    ]

-- `ancestorAgents` always answers, also where the recorded calls form a cycle.
pub ancestor_agents_total :
    (session : String) (c : InvocationRegistry)
    → (agents : List String) × (ancestor_agents session c ≡ some agents)
unfolding ancestor_agents
ancestor_agents_total session c =
    ancestors_total (suc (suc (length c.by_callee))) c session (session ∷ [])
      (omega (arith, remaining-le (session ∷ []) c.by_callee))
