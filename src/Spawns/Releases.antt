-- ===== src/Spawns/Releases.antt =====
-- The end of a session.
use zooid.Dict.{Dict, get}
use zooid.Dict.Laws.{Unique, get-delete_self}
use zooid.Prelude.{
  Option-cases, String, ap, arith, inl, inr, non_empty, non_empty-some, none, refl, some, ◌∙◌, ◌≡◌,
  ◌≢◌,
}
use zooid.Spawns.{SpawnRegistry, drop_value, key, release, release_session}
use zooid.Spawns.Isolation.{Isolated, get-drop_value}

-- A released spawn stands in no map of spawn ids.
drop_value-gone : (k id : String) (m : Dict String) → Unique m → get k (drop_value id m) ≢ some id
drop_value-gone k id m u h = (get-drop_value k id id m u h).1 refl

-- Ending a session releases its spawn: the spawn is bound no more, no session of the protocol leads to
-- it, and the agent's session has none until it registers again.
release_session-get :
    (agent session id : String) (c : SpawnRegistry)
    → Isolated c
    → (release_session agent session c).1 ≡ some id
    → let c' = (release_session agent session c).0 in
      (get id c'.bindings ≡ none)
      × ((acp : String) → get acp c'.by_acp_session ≢ some id)
      × (get (key agent session) c'.by_agent_session ≡ none)
unfolding release_session release
release_session-get agent session id c v h =
    elim (Option-cases (non_empty (get (key agent session) c.by_agent_session))) [
      | inl gone ↦ absurd (ground arith)
      | inr (j, found) ↦
          let e : j ≡ id = ground arith in
          let at = non_empty-some (get (key agent session) c.by_agent_session) found in
          let at' : get (key agent session) c.by_agent_session ≡ some id = at ∙ ap some e in
          rw (found, release_session, e)
            (
              get-delete_self id c.bindings,
              λ acp hit. drop_value-gone acp id c.by_acp_session v.acps hit,
              elim (Option-cases (get (key agent session) (drop_value id c.by_agent_session))) [
                | inl none_left ↦ none_left
                | inr (w, kept) ↦
                    let (old, other) =
                      get-drop_value (key agent session) id w c.by_agent_session v.agents kept in
                    absurd (ground arith)
              ],
            )
    ]
