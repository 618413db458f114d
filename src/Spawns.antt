-- ===== src/Spawns.antt =====
-- packages/context-mcp/src/spawn-registry.ts, `SpawnRegistry`: which MCP server a session owns. The uuid
-- of a new spawn is an argument. The provider and the task actions are objects that the registry hands
-- on; a binding names its provider.
pub mod Step
pub mod Isolation
pub mod Releases
mod Tests
use Prim.Native.String
use zooid.Dict.{Dict, delete, get, set}
use zooid.Prelude.{
  Option, String, [], default, if◌then◌else◌, non_empty, none, some, ◌++◌, ◌==◌, ◌∷◌,
}

pub record ThreadRef : Type 0 where
  pub channel_id : String
  pub thread_id : String

-- What `register` is given.
pub record SpawnInput : Type 0 where
  pub agent_name : String
  pub thread_ref : ThreadRef
  pub provider : String
  pub session_key : Option String

pub record SpawnBinding : Type 0 where
  pub spawn_id : String
  pub input : SpawnInput

pub record SpawnRegistry : Type 0 where
  pub bindings : Dict SpawnBinding
  pub by_agent_session : Dict String
  pub by_acp_session : Dict String

unfoldable pub init : SpawnRegistry
init = record { bindings = []; by_agent_session = []; by_acp_session = [] }

unfoldable pub key : String → String → String
key agent session = String.◌++◌ agent (String.◌++◌ "::" session)

-- The key under which an input is registered.
abbrev pub key_of : SpawnInput → String
key_of i = key i.agent_name (default i.session_key i.thread_ref.thread_id)

abbrev pub bind : String → SpawnInput → SpawnRegistry → SpawnRegistry
bind id i c = record c { bindings = set id (record { spawn_id = id; input = i }) c.bindings }

unfoldable pub register : String → SpawnInput → SpawnRegistry → SpawnRegistry × String
register new i c = elim (non_empty (get (key_of i) c.by_agent_session)) [
  | some existing ↦ (bind existing i c, existing)
  | none ↦ (record (bind new i c) { by_agent_session = set (key_of i) new c.by_agent_session }, new)
]

-- The loops of `release` over a map of spawn ids.
unfoldable pub drop_value : String → Dict String → Dict String
drop_value id [] = []
drop_value id ((k, v) ∷ m) = if v == id then drop_value id m else (k, v) ∷ drop_value id m

unfoldable pub release : String → SpawnRegistry → SpawnRegistry
unfolding drop_value
release id c = record {
  bindings = delete id c.bindings;
  by_agent_session = drop_value id c.by_agent_session;
  by_acp_session = drop_value id c.by_acp_session;
}

unfoldable pub release_session : String → String → SpawnRegistry → SpawnRegistry × Option String
unfolding release
release_session agent session c = elim (non_empty (get (key agent session) c.by_agent_session)) [
  | none ↦ (c, none)
  | some id ↦ (release id c, some id)
]

unfoldable pub link_session : String → String → String → SpawnRegistry → SpawnRegistry
link_session agent session acp c = elim (non_empty (get (key agent session) c.by_agent_session)) [
  | none ↦ c
  | some id ↦ record c { by_acp_session = set acp id c.by_acp_session }
]

unfoldable pub get_by_acp_session : String → SpawnRegistry → Option SpawnBinding
get_by_acp_session acp c = elim (non_empty (get acp c.by_acp_session)) [
  | none ↦ none
  | some id ↦ get id c.bindings
]
