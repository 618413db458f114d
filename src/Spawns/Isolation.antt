-- ===== src/Spawns/Isolation.antt =====
-- A session owns its spawn alone.
use zooid.Dict.{Dict, get, has}
use zooid.Dict.Laws.{Unique, get-delete, get-set, get-set_self, set-Unique}
use zooid.Prelude.{
  List, Option-cases, String, String-cases, [], arith, eq_iff, inl, inr, non_empty, non_empty-some,
  none, refl, some, true, ◌∷◌, ◌≡◌, ◌≢◌,
}
use zooid.Spawns.{
  SpawnBinding, SpawnInput, SpawnRegistry, bind, drop_value, init, key, key_of, link_session,
  register, release, release_session,
}
use zooid.Spawns.Step.{
  AllFresh, Call, Fresh, links, registers, releases, releases_session, run, step,
}

-- A spawn is bound, under its own id, for the session of a key.
abbrev pub Bound : String → String → SpawnRegistry → Type 0
Bound k id c =
    (b : SpawnBinding) × (get id c.bindings ≡ some b) × (b.spawn_id ≡ id) × (key_of b.input ≡ k)

-- The spawn of an agent's session is bound for that session, so that no two sessions share one; a
-- session of the protocol leads to a spawn that is bound.
pub record Isolated (c : SpawnRegistry) : Type 0 where
  pub owned : (k id : String) → get k c.by_agent_session ≡ some id → Bound k id c
  pub linked : (acp id : String) → get acp c.by_acp_session ≡ some id → has id c.bindings ≡ true
  pub agents : Unique c.by_agent_session
  pub acps : Unique c.by_acp_session

pub get-drop_value :
    (k id v : String) (m : Dict String)
    → Unique m
    → get k (drop_value id m) ≡ some v
    → (get k m ≡ some v) × (v ≢ id)
unfolding get drop_value
get-drop_value k id v [] u h = absurd (ground arith)
get-drop_value k id v ((j, w) ∷ m) u h = elim (String-cases j k) [
  | inl same ↦ elim (String-cases w id) [
    | inl gone ↦ absurd (ground (arith, eq_iff w id, eq_iff j k, get-drop_value k id v m u.1))
    | inr stays ↦ (ground (arith, eq_iff j k), λ e. ground (arith, eq_iff w id, eq_iff j k))
  ]
  | inr other ↦
      let rest = get-drop_value k id v m u.1 (ground arith) in (ground (arith, rest.0), rest.1)
]

get-drop_none : (k id : String) (m : Dict String) → get k m ≡ none → get k (drop_value id m) ≡ none
unfolding get drop_value
get-drop_none k id [] h = refl
get-drop_none k id ((j, w) ∷ m) h = ground (arith, get-drop_none k id m)

drop_value-Unique : (id : String) (m : Dict String) → Unique m → Unique (drop_value id m)
unfolding drop_value
drop_value-Unique id [] u = tt
drop_value-Unique id ((j, w) ∷ m) u =
    ground (arith, drop_value-Unique id m u.1, get-drop_none j id m u.0)

bind-owned :
    (id k j : String) (i : SpawnInput) (c : SpawnRegistry)
    → (id ≡ j → key_of i ≡ k)
    → Bound k j c
    → Bound k j (bind id i c)
bind-owned id k j i c own (b, h, e, at) = elim (String-cases id j) [
  | inl same ↦ (
    record { spawn_id = id; input = i },
    ground (arith, get-set j id (record { spawn_id = id; input = i }) c.bindings, eq_iff id j),
    same,
    own same,
  )
  | inr other ↦
      (b, ground (arith, get-set j id (record { spawn_id = id; input = i }) c.bindings), e, at)
]

bind-linked :
    (id j : String) (i : SpawnInput) (c : SpawnRegistry)
    → has j c.bindings ≡ true
    → has j (bind id i c).bindings ≡ true
bind-linked id j i c h =
    ground (arith, get-set j id (record { spawn_id = id; input = i }) c.bindings)

register-Isolated :
    (new : String) (i : SpawnInput) (c : SpawnRegistry)
    → get new c.bindings ≡ none
    → Isolated c
    → Isolated (register new i c).0
unfolding register
register-Isolated new i c fresh v =
    elim (Option-cases (non_empty (get (key_of i) c.by_agent_session))) [
      | inr (existing, found) ↦
          let at = non_empty-some (get (key_of i) c.by_agent_session) found in
          let (b, h, e, own) = v.owned (key_of i) existing at in
          rw (found, register)
            (record {
              owned = λ k id hk.
                  bind-owned existing k id i c
                    (λ same.
                      let (b', h', e', own') = v.owned k id hk in
                      ground (arith, eq_iff existing id))
                    (v.owned k id hk);
              linked = λ acp id ha. bind-linked existing id i c (v.linked acp id ha);
              agents = v.agents;
              acps = v.acps;
            })
      | inl gone ↦
          rw (gone, register)
            (record {
              owned = λ k id hk. elim (String-cases (key_of i) k) [
                | inl same ↦
                    let e : new ≡ id =
                      ground
                        (arith, get-set k (key_of i) new c.by_agent_session, eq_iff (key_of i) k) in
                    (
                      record { spawn_id = new; input = i },
                      rw (← e) (get-set_self new (record { spawn_id = new; input = i }) c.bindings),
                      e,
                      same,
                    )
                | inr other ↦
                    let hk' : get k c.by_agent_session ≡ some id =
                      ground (arith, get-set k (key_of i) new c.by_agent_session) in
                    let (b, h, e, own) = v.owned k id hk' in
                    bind-owned new k id i c (λ same. absurd (ground (arith, eq_iff new id)))
                      (b, h, e, own)
              ];
              linked = λ acp id ha. bind-linked new id i c (v.linked acp id ha);
              agents = set-Unique (key_of i) new c.by_agent_session v.agents;
              acps = v.acps;
            })
    ]

release-Isolated : (id : String) (c : SpawnRegistry) → Isolated c → Isolated (release id c)
unfolding release
release-Isolated id c v = record {
  owned = λ k j hk.
      let (at, other) = get-drop_value k id j c.by_agent_session v.agents hk in
      let (b, h, e, own) = v.owned k j at in
      (b, ground (arith, get-delete j id c.bindings, eq_iff id j), e, own);
  linked = λ acp j ha.
      let (at, other) = get-drop_value acp id j c.by_acp_session v.acps ha in
      ground (arith, v.linked acp j at, get-delete j id c.bindings, eq_iff id j);
  agents = drop_value-Unique id c.by_agent_session v.agents;
  acps = drop_value-Unique id c.by_acp_session v.acps;
}

release_session-Isolated :
    (agent session : String) (c : SpawnRegistry)
    → Isolated c
    → Isolated (release_session agent session c).0
unfolding release_session
release_session-Isolated agent session c v =
    elim (Option-cases (non_empty (get (key agent session) c.by_agent_session))) [
      | inl gone ↦ rw (gone, release_session) v
      | inr (id, found) ↦ rw (found, release_session) (release-Isolated id c v)
    ]

link_session-Isolated :
    (agent session acp : String) (c : SpawnRegistry)
    → Isolated c
    → Isolated (link_session agent session acp c)
unfolding link_session
link_session-Isolated agent session acp c v =
    elim (Option-cases (non_empty (get (key agent session) c.by_agent_session))) [
      | inl gone ↦ rw (gone, link_session) v
      | inr (id, found) ↦
          let at = non_empty-some (get (key agent session) c.by_agent_session) found in
          let (b, h, e, own) = v.owned (key agent session) id at in
          rw (found, link_session)
            (record {
              owned = v.owned;
              linked = λ other j ha. elim (String-cases acp other) [
                | inl same ↦ ground (arith, get-set other acp id c.by_acp_session, eq_iff acp other)
                | inr differs ↦
                    v.linked other j (ground (arith, get-set other acp id c.by_acp_session))
              ];
              agents = v.agents;
              acps = set-Unique acp id c.by_acp_session v.acps;
            })
    ]

step-Isolated : (x : Call) (c : SpawnRegistry) → Fresh x c → Isolated c → Isolated (step x c)
unfolding step
step-Isolated (registers new i) c fresh v = register-Isolated new i c fresh v
step-Isolated (releases id) c fresh v = release-Isolated id c v
step-Isolated (releases_session a s) c fresh v = release_session-Isolated a s c v
step-Isolated (links a s acp) c fresh v = link_session-Isolated a s acp c v

run_from-Isolated :
    (xs : List Call) (c : SpawnRegistry) → AllFresh xs c → Isolated c → Isolated (run xs c)
unfolding run
run_from-Isolated [] c fresh v = v
run_from-Isolated (x ∷ xs) c fresh v =
    run_from-Isolated xs (step x c) fresh.1 (step-Isolated x c fresh.0 v)

-- In every history that draws fresh uuids, the spawn of an agent's session is bound under its own id
-- for that very session, and a linked session of the protocol leads to a spawn that is bound.
pub run-Isolated : (xs : List Call) → AllFresh xs init → Isolated (run xs init)
unfolding init get
run-Isolated xs fresh = run_from-Isolated xs init fresh (record {
  owned = λ k id h. absurd (ground arith);
  linked = λ acp id h. absurd (ground arith);
  agents = tt;
  acps = tt;
})
