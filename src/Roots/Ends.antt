-- ===== src/Roots/Ends.antt =====
-- packages/transport-matrix/src/transport.ts, `resolveThreadRoot`: the answer where the homeserver gives its own.
use zooid.Dict.{Dict, get}
use zooid.Events.{AgentBinding, Relation}
use zooid.Inbound.{Message, inbound_rel}
use zooid.Prelude.{
  List, Option, Option-cases, String, ap, arith, inl, inr, non_empty, none, refl, some, suc, sym,
  zero, ℕ, ◌<◌, ◌∙◌, ◌≡◌,
}
use zooid.Roots.{
  Fetch, next, reader, relation_of, relation_root_max_hops, resolve_thread_root, stop, thread_of,
  up_to, walk,
}
use zooid.Roots.Chains.{inbound-next}
use zooid.Router.Samples.{agents}

-- The end of the way up: a message without a relation, or the root of a thread, so many rounds above.
pub data Ends (home : String → Option Relation) : (event root : String) (rounds : ℕ) → Type 0 where
  free : (id : String) → next (home id) ≡ stop → Ends home id id 0
  in_thread : (id root : String) → next (home id) ≡ thread_of root → Ends home id root 0
  above :
      (id parent root : String) (n : ℕ)
      → next (home id) ≡ up_to parent
      → Ends home parent root n
      → Ends home id root (suc n)

module _ (home : String → Option Relation) (fetch : Fetch) (room user_id : String)
    (answers : (id : String) → fetch room user_id id ≡ some (home id)) where
  walk-Ends :
      (hops : ℕ) (id root : String) (n : ℕ)
      → Ends home id root n
      → n < hops
      → walk fetch hops (some (room, user_id)) id (home id) ≡ root
  unfolding walk
  walk-Ends zero id root n e few = absurd (omega arith)
  walk-Ends (suc hops) _ _ _ (free id done) few = rw (done, walk) refl
  walk-Ends (suc hops) _ _ _ (in_thread id root there_is) few = rw (there_is, walk) refl
  walk-Ends (suc hops) _ _ _ (above id parent root n up e) few =
      rw (up, walk, answers parent) (walk-Ends hops parent root n e (omega arith))

  -- A message with an id, whose relation the homeserver keeps, which the cache does not know: where an
  -- agent can read the room and every event is answered, the root is the end of the way up, a message
  -- without a relation or the root of a thread, if it is less than eight rounds above.
  pub resolve-Ends :
      (agents : List AgentBinding) (m : Message) (cache : Dict String) (id root : String) (n : ℕ)
      → non_empty m.event_id ≡ some id
      → home id ≡ relation_of m
      → get id cache ≡ none
      → reader agents m ≡ some (room, user_id)
      → Ends home id root n
      → n < relation_root_max_hops
      → (resolve_thread_root fetch agents m cache).0 ≡ some root
  unfolding resolve_thread_root
  resolve-Ends agents m cache id root n named own fresh reads e few =
      let end = walk-Ends relation_root_max_hops id root n e few in
      elim (Option-cases (inbound_rel m)) [
        | inl outside ↦ rw (named, resolve_thread_root, outside, fresh, reads, ← own) (ap some end)
        | inr (r, inside) ↦
            let up : next (home id) ≡ thread_of r = rw (own, inbound-next m r inside) refl in
            let ends_there =
              walk-Ends relation_root_max_hops id r 0 (in_thread id r up) (omega arith) in
            rw (named, resolve_thread_root, inside) (ap some (sym ends_there ∙ end))
      ]
