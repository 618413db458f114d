-- ===== src/Handoffs.antt =====
-- packages/transport-matrix/src/handoff.ts, `resolveHandoffTarget`, and `checkDelegable` of
-- task-dispatch.ts: whom an agent may call. A refusal holds what its text is made of; the text itself,
-- with the labels sorted and joined, is left out.
pub mod Targets
mod Tests
use Prim.Native.String
use Prim.Native.Char.{code}
use zooid.Events.{AgentBinding}
use zooid.Prelude.{
  Bool, List, Option, String, [], any, false, filter, find, if◌then◌else◌, includes, map, none,
  some, ◌&&◌, ◌++◌, ◌==◌, ◌||◌, ◌∷◌,
}
use zooid.Texts.{eqb, trim}

pub record HandoffCandidate : Type 0 where
  pub user_id : String
  pub name : String
  pub workstation : Option String
  pub rooms : List String

pub data Reason : Type 0 where
  unknown_agent : (query : String) (roster : List String) → Reason
  ambiguous_agent : (query : String) (hits : List String) → Reason
  not_in_room : (label : String) (roster : List String) → Reason

pub data HandoffResolution : Type 0 where
  ok : HandoffCandidate → HandoffResolution
  refused : Reason → HandoffResolution

unfoldable pub label : HandoffCandidate → String
label c = elim c.workstation [
  | none ↦ c.name
  | some w ↦ if w == "" then c.name else String.◌++◌ w (String.◌++◌ "." c.name)
]

-- `q.startsWith('@')`, and `q.replace(/^@/, '')`.
unfoldable pub starts_with_at : String → Bool
starts_with_at String.[] = false
starts_with_at (String.◌∷◌ c s) = eqb (code c) b'@'

unfoldable pub strip_at : String → String
strip_at String.[] = ""
strip_at (String.◌∷◌ c s) = if eqb (code c) b'@' then s else String.◌∷◌ c s

-- `q.includes(':')`.
unfoldable pub has_colon : String → Bool
has_colon String.[] = false
has_colon (String.◌∷◌ c s) = eqb (code c) b':' || has_colon s

abbrev pub is_mxid : String → Bool
is_mxid q = starts_with_at q && has_colon q

abbrev pub or_else : List HandoffCandidate → List HandoffCandidate → List HandoffCandidate
or_else [] ys = ys
or_else (x ∷ xs) ys = x ∷ xs

unfoldable pub hits_of : String → List HandoffCandidate → List HandoffCandidate
unfolding starts_with_at has_colon strip_at label
hits_of q cs =
    if is_mxid q
    then filter (λ c. c.user_id == q) cs
    else or_else (filter (λ c. label c == strip_at q) cs) (filter (λ c. c.name == strip_at q) cs)

-- The labels of the candidates in a room.
abbrev pub roster_of : String → List HandoffCandidate → List String
roster_of room cs = map label (filter (λ (c : HandoffCandidate). includes room c.rooms) cs)

abbrev pub settle_on : String → String → List String → List HandoffCandidate → HandoffResolution
settle_on q room roster [] = refused (unknown_agent q roster)
settle_on q room roster (t ∷ []) =
    if includes room t.rooms then ok t else refused (not_in_room (label t) roster)
settle_on q room roster (t ∷ u ∷ hits) = refused (ambiguous_agent q (map label (t ∷ u ∷ hits)))

unfoldable pub resolve_handoff_target : String → String → List HandoffCandidate → HandoffResolution
unfolding hits_of trim
resolve_handoff_target agent room cs =
    let q = trim agent in settle_on q room (roster_of room cs) (hits_of q cs)

pub data Admission : Type 0 where
  admitted : Admission
  unknown : (agent : String) → Admission
  outside : (agent : String) → Admission

unfoldable pub check_delegable : String → String → List AgentBinding → Admission
check_delegable agent room bindings = elim (find (λ (b : AgentBinding). b.name == agent) bindings) [
  | none ↦ unknown agent
  | some b ↦ if any (λ r. r.alias == room) b.rooms then admitted else outside agent
]
