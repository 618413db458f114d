-- ===== src/Inbound/Chosen.antt =====
-- packages/transport-matrix/src/transport.ts: the agents that the task's gate and the held returns leave.
use mathlib.Core.Path.{subst}
use zooid.Dict.{get}
use zooid.Events.{AgentBinding, TaskThreadContext}
use zooid.Inbound.{
  Desk, Message, Office, called, gate, hold_returns, in_task_thread, is_agent_id, is_message,
  parties,
}
use zooid.Invocations.{InvocationRecord}
use zooid.Prelude.{
  All, All-filter_and, All-weaken, Bool, Bool-cases, List, Option, Option-cases, String, [], ap,
  arith, bind_some, default, false, filter, if_some, if◌then◌else◌, inl, inr, non_empty, none, not,
  refl, some, sym, true, ◌==◌, ◌∙◌, ◌∷◌, ◌≡◌, ◌⊎◌,
}
use zooid.Router.{is_return_route}

module _ (o : Office) (m : Message) where
  -- In the thread of an open task an agent's message wakes only the callee of its invocation.
  abbrev pub CalleeOnly : Option TaskThreadContext → Desk → AgentBinding → Type 0
  CalleeOnly task d a =
      (id : String)
      → (if in_task_thread o m task then non_empty m.event_id else none) ≡ some id
      → (r : InvocationRecord) × ((called m id d.invocations).1 ≡ some r)
        × ((a.name == r.callee_agent) ≡ true)

  -- An agent's message does not wake an agent to which it returns.
  abbrev pub NoReturn : Option String → Desk → AgentBinding → Type 0
  NoReturn promoted d a =
      (root room s : String)
      → promoted ≡ some root
      → is_message m ≡ true
      → non_empty m.event.room_id ≡ some room
      → non_empty m.event.sender ≡ some s
      → is_agent_id o s ≡ true
      → is_return_route m.event a (get root d.thread_states) ≡ false

  pub gate-CalleeOnly :
      (P : AgentBinding → Type 0) (task : Option TaskThreadContext) (matches : List AgentBinding)
      (d : Desk)
      → All P matches
      → All (λ a. P a × CalleeOnly task d a) (gate o m task matches d).1
  unfolding gate
  gate-CalleeOnly P task matches d h =
      elim (Option-cases (if in_task_thread o m task then non_empty m.event_id else none)) [
        | inl free ↦
            rw (free, gate)
              (All-weaken P _ matches
                (λ a pa. (pa, λ id e. absurd (let b : none ≡ some id = e in cc))) h)
        | inr (id, guarded) ↦ elim (Option-cases (called m id d.invocations).1) [
          | inl gone ↦ rw (guarded, gate, gone) tt
          | inr (r, found) ↦
              rw (guarded, gate, found)
                (All-weaken _ _ (filter (λ a. a.name == r.callee_agent) matches)
                  (λ a pa. (
                    pa.0,
                    λ i e. (
                      r,
                      subst (λ o. (called m (default o id) d.invocations).1 ≡ some r) e found,
                      pa.1,
                    ),
                  ))
                  (All-filter_and P (λ a. a.name == r.callee_agent) matches h))
        ]
      ]

  none_returning :
      (P : AgentBinding → Type 0) (p : AgentBinding → Bool) (xs : List AgentBinding)
      → filter p xs ≡ []
      → All P xs
      → All (λ a. P a × (p a ≡ false)) xs
  none_returning P p [] e h = tt
  none_returning P p (x ∷ xs) e h = elim (Bool-cases (p x)) [
    | inl hit ↦ absurd (let b : x ∷ filter p xs ≡ [] = rw hit at e in cc)
    | inr miss ↦ ((h.0, miss), none_returning P p xs (rw miss at e) h.1)
  ]

  parties-none :
      (promoted : Option String) (root room s : String)
      → parties o m promoted ≡ none
      → promoted ≡ some root
      → is_message m ≡ true
      → non_empty m.event.room_id ≡ some room
      → non_empty m.event.sender ≡ some s
      → is_agent_id o s ≡ true
      → ⊥
  unfolding parties
  parties-none promoted root room s gone rooted posted inside sent agent =
      let e : ◌≡◌ {A = Option (String × String × String)} (some (root, room, s)) none =
        rw (parties, posted, rooted, inside, sent, agent) at gone in
      cc

  Matches-cases :
      (xs : List AgentBinding)
      → (xs ≡ []) ⊎ ((a : AgentBinding) × (bs : List AgentBinding) × (xs ≡ a ∷ bs))
  Matches-cases [] = inl refl
  Matches-cases (a ∷ bs) = inr (a, bs, refl)

  abbrev root_of : String → Option (String × String × String) → String
  root_of root none = root
  root_of root (some (r, x, y)) = r

  parties-root :
      (promoted : Option String) {root room s : String}
      → parties o m promoted ≡ some (root, room, s)
      → promoted ≡ some root
  unfolding parties
  parties-root promoted {root} {room} {s} h =
      let (r, some_root, h) = bind_some (if is_message m then promoted else none) _ h in
      let (x, inside, h) = bind_some (non_empty m.event.room_id) _ h in
      let (y, sent, h) = bind_some (non_empty m.event.sender) _ h in
      let (agent, same) = if_some (is_agent_id o y) _ h in
      (if_some (is_message m) promoted some_root).1 ∙ ap (λ z. some (root_of root z)) same

  pub hold-NoReturn :
      (P : AgentBinding → Type 0) (promoted : Option String) (matches : List AgentBinding)
      (d : Desk)
      → All P matches
      → All (λ a. P a × NoReturn promoted d a) (hold_returns o m promoted matches d).1
  unfolding hold_returns
  hold-NoReturn P promoted matches d h = elim (Option-cases (parties o m promoted)) [
    | inl gone ↦
        rw (gone, hold_returns)
          (All-weaken P _ matches
            (λ a pa. (
              pa,
              λ root room s rooted posted inside sent agent.
                  absurd (parties-none promoted root room s gone rooted posted inside sent agent),
            ))
            h)
    | inr ((root, room, s), found) ↦
        let returning : AgentBinding → Bool =
          λ a. is_return_route m.event a (get root d.thread_states) in
        let rooted = parties-root promoted found in
        let stays : (a : AgentBinding) → P a × (returning a ≡ false) → P a × NoReturn promoted d a =
          λ a pa. (
            pa.0,
            λ r rm y same posted inside sent agent.
                subst
                  (λ z. is_return_route m.event a (get (default z root) d.thread_states) ≡ false)
                  (sym rooted ∙ same) pa.1,
          ) in
        elim (Matches-cases (filter returning matches)) [
          | inl idle ↦
              rw (found, hold_returns, idle)
                (All-weaken _ _ matches stays (none_returning P returning matches idle h))
          | inr (a, bs, some_held) ↦
              rw (found, hold_returns, some_held)
                (All-weaken _ _ (filter (λ a. not (returning a)) matches)
                  (λ a pa. stays a (pa.0, ground arith))
                  (All-filter_and P (λ a. not (returning a)) matches h))
        ]
  ]
