-- ===== src/Roots/Tests.antt =====
-- A reply to an edit of a message, with and without the homeserver's answer.
use zooid.Dict.{get}
use zooid.Events.{Relation, inbound_thread_root}
use zooid.Inbound.{Message}
use zooid.Prelude.{
  Option, String, [], ap, arith, default, false, if◌then◌else◌, none, refl, some, sym, ◌==◌, ◌∷◌,
  ◌≡◌,
}
use zooid.Roots.{Fetch, next, reader, resolve_thread_root}
use zooid.Roots.Chains.{Above, Traced, resolve-Traced}
use zooid.Roots.Ends.{above, free, resolve-Ends}
use zooid.Router.Samples.{agents, reply, says}

abbrev relation : String → String → Relation
relation type id = record { rel_type = some type; event_id = some id }

abbrev home : String → Option Relation
home id =
    if id == "$reply"
    then some (relation "m.reference" "$edit")
    else if id == "$edit"
    then some (relation "m.replace" "$first")
    else none

abbrev answering : Fetch
answering room user_id id = some (home id)

abbrev silent : Fetch
silent room user_id id = none

abbrev message : Message
message = record {
  event =
      says "@ana:h"
        (record (reply none "go on") { relates_to = some (relation "m.reference" "$edit") });
  event_id = some "$reply";
  start_attempt = none;
  has_result = false;
  body = none;
}

-- A failed fetch leaves the parent as the root, and it is remembered.
roots :
    (resolve_thread_root answering agents message [] ≡ (some "$first", ("$reply", "$first") ∷ []))
    × (resolve_thread_root silent agents message [] ≡ (some "$edit", ("$reply", "$edit") ∷ []))
    × ((resolve_thread_root answering agents message (("$reply", "$edit") ∷ [])).0 ≡ some "$edit")
unfolding resolve_thread_root get inbound_thread_root
roots = (refl, refl, refl)

resolve-Traced_example :
    ((root : String)
      → (resolve_thread_root answering agents message []).0 ≡ some root
      → (id : String) × (some "$reply" ≡ some id) × Above home id root)
    × Traced home (resolve_thread_root answering agents message []).1
unfolding get
resolve-Traced_example =
    resolve-Traced home answering (λ room user_id id r h. ap (λ o. default o none) (sym h)) agents
      message [] (λ id h. rw (← ap (λ o. default o "") h) refl)
      (record {
        unique = tt;
        above = λ id root h. absurd (let e : none ≡ some root = h in cc);
        bounded = omega arith;
      })

resolve-Ends_example : (resolve_thread_root answering agents message []).0 ≡ some "$first"
unfolding next get reader
resolve-Ends_example =
    resolve-Ends home answering "!r" "@planner:h" (λ id. refl) agents message [] "$reply" "$first" 2
      refl refl refl refl
      (above "$reply" "$edit" "$first" 1 refl
        (above "$edit" "$first" "$first" 0 refl (free "$first" refl)))
      (omega arith)
