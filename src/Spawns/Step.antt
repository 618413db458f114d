-- ===== src/Spawns/Step.antt =====
-- The calls of the registry as one step function, and histories of calls.
use zooid.Dict.{get}
use zooid.Prelude.{List, String, [], none, ◌∷◌, ◌≡◌}
use zooid.Spawns.{SpawnInput, SpawnRegistry, link_session, register, release, release_session}

pub data Call : Type 0 where
  registers : (new : String) → SpawnInput → Call
  releases : (id : String) → Call
  releases_session : (agent session : String) → Call
  links : (agent session acp : String) → Call

unfoldable pub step : Call → SpawnRegistry → SpawnRegistry
step (registers new i) c = (register new i c).0
step (releases id) c = release id c
step (releases_session a s) c = (release_session a s c).0
step (links a s acp) c = link_session a s acp c

unfoldable pub run : List Call → SpawnRegistry → SpawnRegistry
unfolding step
run [] c = c
run (x ∷ xs) c = run xs (step x c)

-- A uuid is drawn that no binding has.
abbrev pub Fresh : Call → SpawnRegistry → Type 0
Fresh (registers new i) c = get new c.bindings ≡ none
Fresh _ c = Unit

abbrev pub AllFresh : List Call → SpawnRegistry → Type 0
AllFresh [] c = Unit
AllFresh (x ∷ xs) c = Fresh x c × AllFresh xs (step x c)
