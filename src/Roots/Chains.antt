-- ===== src/Roots/Chains.antt =====
-- packages/transport-matrix/src/transport.ts, `resolveThreadRoot`: where the answers lie, and the size of the cache.
use mathlib.Core.Path.{subst}
use zooid.Dict.{Dict, get, set}
use zooid.Dict.Laws.{Unique, get-set, set-Unique}
use zooid.Events.{AgentBinding, Relation, inbound_thread_root, opt_is, truthy}
use zooid.Inbound.{Message, inbound_rel}
use zooid.Prelude.{
  Bool-cases, List, Option, Option-cases, String, [], ap, arith, bind_some, default, eq_iff, false,
  if_some, inl, inr, length, ltb, non_empty, non_empty-some, none, refl, some, suc, true, zero, ℕ,
  ◌&&◌, ◌==◌, ◌∷◌, ◌≡◌, ◌≤◌, ◌⊎◌,
}
use zooid.Roots.{
  Fetch, Next, drop_first, next, reader, relation_of, relation_root_max_hops, remember,
  resolve_thread_root, seen_event_cap, stop, thread_of, up_to, walk,
}

-- The events above an event, by the relations that the homeserver keeps. A thread's root ends them.
pub data Above (home : String → Option Relation) : (event root : String) → Type 0 where
  itself : (id : String) → Above home id id
  thread : (id root : String) → next (home id) ≡ thread_of root → Above home id root
  further :
      (id parent root : String)
      → next (home id) ≡ up_to parent
      → Above home parent root
      → Above home id root

-- The homeserver answers an event's relation or fails, and never gives another.
abbrev pub Honest : (String → Option Relation) → Fetch → Type 0
Honest home fetch =
    (room user_id id : String) (r : Option Relation) → fetch room user_id id ≡ some r → r ≡ home id

-- What is remembered of an event lies above it, and no more is remembered than the cap.
pub record Traced (home : String → Option Relation) (cache : Dict String) : Type 0 where
  pub unique : Unique cache
  pub above : (id root : String) → get id cache ≡ some root → Above home id root
  pub bounded : length cache ≤ seen_event_cap

Next-cases :
    (x : Next)
    → (x ≡ stop)
      ⊎ (((root : String) × (x ≡ thread_of root)) ⊎ ((parent : String) × (x ≡ up_to parent)))
Next-cases stop = inl refl
Next-cases (thread_of root) = inr (inl (root, refl))
Next-cases (up_to parent) = inr (inr (parent, refl))

length-set-le : (k root : String) (m : Dict String) → length (set k root m) ≤ suc (length m)
unfolding set
length-set-le k root [] = omega arith
length-set-le k root ((j, x) ∷ m) = ground (arith, length-set-le k root m)

drop_first-Unique : (m : Dict String) → Unique m → Unique (drop_first m)
drop_first-Unique [] u = tt
drop_first-Unique ((id, root) ∷ m) u = u.1

get-drop_first :
    (id root : String) (m : Dict String)
    → Unique m
    → get id (drop_first m) ≡ some root
    → get id m ≡ some root
unfolding get
get-drop_first id root [] u h = h
get-drop_first id root ((j, x) ∷ m) u h = ground (arith, eq_iff j id)

next-thread :
    (t e : Option String) (root : String)
    → (opt_is t "m.thread" && truthy e) ≡ true
    → e ≡ some root
    → next (some (record { rel_type = t; event_id = e })) ≡ thread_of root
unfolding next
next-thread none e root passed target = absurd (ground arith)
next-thread (some type) none root passed target = absurd (ground arith)
next-thread (some type) (some x) root passed target =
    let is_thread : (type == "m.thread") ≡ true = ground arith in
    let real : (x == "") ≡ false = ground arith in
    let named : (type == "") ≡ false = rw ((eq_iff type "m.thread").0 is_thread) refl in
    rw (named, next, real, is_thread) (ap thread_of (ap (λ o. default o x) target))

-- A message in a thread.
pub inbound-next :
    (m : Message) (root : String)
    → inbound_rel m ≡ some root
    → next (relation_of m) ≡ thread_of root
unfolding inbound_thread_root
inbound-next m root h =
    let (c, has_content, h) = bind_some m.event.content _ h in
    elim (Option-cases c.relates_to) [
      | inl gone ↦ absurd (let e : none ≡ some root = rw (inbound_thread_root, gone) at h in cc)
      | inr (r, related) ↦
          let (passed, target) =
            if_some (opt_is r.rel_type "m.thread" && truthy r.event_id) r.event_id
              (rw (inbound_thread_root, related) at h) in
          rw (has_content, related) (next-thread r.rel_type r.event_id root passed target)
    ]

drop_first-le : (m : Dict String) (n : ℕ) → length m ≤ suc n → length (drop_first m) ≤ n
drop_first-le [] n h = omega arith
drop_first-le (p ∷ m) n h = omega arith

set-Above :
    (home : String → Option Relation) (id root : String) (cache : Dict String)
    → Above home id root
    → ((j r : String) → get j cache ≡ some r → Above home j r)
    → (j r : String) → get j (set id root cache) ≡ some r
    → Above home j r
set-Above home id root cache mine others j r h = elim (Bool-cases (id == j)) [
  | inl same ↦
      let e : some root ≡ some r = rw (get-set j id root cache, same) at h in
      subst (λ x. Above home x r) ((eq_iff id j).0 same)
        (subst (Above home id) (ap (λ o. default o r) e) mine)
  | inr other ↦ others j r (rw (get-set j id root cache, other) at h)
]

remember-Traced :
    (home : String → Option Relation) (id root : String) (cache : Dict String)
    → Above home id root
    → Traced home cache
    → Traced home (remember id root cache)
unfolding remember
remember-Traced home id root cache here_above t =
    let grown = set id root cache in
    let all_above = set-Above home id root cache here_above t.above in
    elim (Bool-cases (ltb seen_event_cap (length grown))) [
      | inl full ↦
          rw (full, remember)
            (record {
              unique = drop_first-Unique grown (set-Unique id root cache t.unique);
              above = λ j r h.
                  all_above j r (get-drop_first j r grown (set-Unique id root cache t.unique) h);
              bounded = drop_first-le grown seen_event_cap (
                  let longer = length-set-le id root cache in let short = t.bounded in omega arith);
            })
      | inr fits ↦
          rw (fits, remember)
            (record {
              unique = set-Unique id root cache t.unique;
              above = all_above;
              bounded = ground arith;
            })
    ]

module _ (home : String → Option Relation) (fetch : Fetch) (honest : Honest home fetch) where
  walk-Above :
      (hops : ℕ) (at : Option (String × String)) (id : String)
      → Above home id (walk fetch hops at id (home id))
  unfolding walk
  walk-Above zero at id = itself id
  walk-Above (suc hops) at id = elim (Next-cases (next (home id))) [
    | inl done ↦ rw (done, walk) (itself id)
    | inr (inl (root, in_thread)) ↦ rw (in_thread, walk) (thread id root in_thread)
    | inr (inr (parent, up)) ↦
        rw (up, walk)
          (elim (Option-cases at) [
            | inl blind ↦ rw (blind) (itself id)
            | inr ((room, user_id), sees) ↦ elim (Option-cases (fetch room user_id parent)) [
              | inl failed ↦ rw (sees, failed) (further id parent parent up (itself parent))
              | inr (r, got) ↦
                  rw (sees, got, honest room user_id parent r got)
                    (further id parent (walk fetch hops at parent (home parent)) up
                      (walk-Above hops at parent))
            ]
          ])
  ]

  -- Whatever the homeserver answers or fails to answer, and for any bindings: the root of a message is the
  -- message itself, or lies above it by the relations that the homeserver keeps, and a thread's root ends
  -- the way up. What the cache holds stays so, and it never holds more than its cap. The relation that
  -- the message carries is the one that the homeserver keeps of it.
  pub resolve-Traced :
      (agents : List AgentBinding) (m : Message) (cache : Dict String)
      → ((id : String) → m.event_id ≡ some id → home id ≡ relation_of m)
      → Traced home cache
      → ((root : String)
          → (resolve_thread_root fetch agents m cache).0 ≡ some root
          → (id : String) × (m.event_id ≡ some id) × Above home id root)
        × Traced home (resolve_thread_root fetch agents m cache).1
  unfolding resolve_thread_root
  resolve-Traced agents m cache own t = elim (Option-cases (non_empty m.event_id)) [
    | inl nameless ↦
        rw (nameless, resolve_thread_root)
          (λ root h. absurd (let e : none ≡ some root = h in cc), t)
    | inr (id, named) ↦
        let mine = own id (non_empty-some m.event_id named) in
        let found : (x : String)
            → Above home id x
            → (root : String) → some x ≡ some root
            → (i : String) × (m.event_id ≡ some i) × Above home i root =
          λ x a root e. (
            id,
            non_empty-some m.event_id named,
            subst (Above home id) (ap (λ o. default o x) e) a,
          ) in
        elim (Option-cases (inbound_rel m)) [
          | inr (root, inside) ↦
              rw (named, resolve_thread_root, inside)
                (found root (thread id root (rw mine (inbound-next m root inside))), t)
          | inl outside ↦ elim (Option-cases (non_empty (get id cache))) [
            | inr (root, cached) ↦
                rw (named, resolve_thread_root, outside, cached)
                  (found root (t.above id root (non_empty-some (get id cache) cached)), t)
            | inl fresh ↦
                let root = walk fetch relation_root_max_hops (reader agents m) id (relation_of m) in
                let up : Above home id root =
                  rw (← mine) (walk-Above relation_root_max_hops (reader agents m) id) in
                rw (named, resolve_thread_root, outside, fresh)
                  (found root up, remember-Traced home id root cache up t)
          ]
        ]
  ]
