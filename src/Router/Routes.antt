-- ===== src/Router/Routes.antt =====
-- Whom `route` wakes.
use zooid.Dict.{Dict}
use zooid.Events.{
  AgentBinding, Content, Event, TaskThreadContext, ThreadState, in_room, is_routable, opt_is,
}
use zooid.Mentions.{Text, extract_mentions}
use zooid.Prelude.{
  All, Bool, Bool-cases, List, Option, Option-cases, String, [], arith, eq_iff, false, filter,
  if◌then◌else◌, inl, inr, none, refl, some, true, ℕ, ◌∷◌, ◌≡◌, ◌≢◌, ◌⊎◌,
}
use zooid.Router.{Facts, addresses_agent, chooses, facts, is_return_route, route, sender_is_agent}

module _ (decode : String → Option String) (now : ℕ) (e : Event) (agents : List AgentBinding)
    (states : Dict ThreadState) (task : Option TaskThreadContext) (known : List String) where
  -- What an answer of `route` is made of.
  pub data Answer (out : List AgentBinding) : Type 0 where
    silent : out ≡ [] → Answer out
    filtered :
        (c : Content) (mentions : List String)
        → e.content ≡ some c
        → extract_mentions decode c.text ≡ some mentions
        → is_routable now e c ≡ true
        → out ≡ filter (chooses task (facts e c agents states known mentions) e) agents
        → Answer out

  pub route-Answer :
      (out : List AgentBinding)
      → route decode now e agents states task known ≡ some out
      → Answer out
  unfolding route
  route-Answer out h = elim (Option-cases e.content) [
    | inl absent ↦ silent (ground arith)
    | inr (c, hc) ↦ elim (Bool-cases (is_routable now e c)) [
      | inr off ↦ silent (ground arith)
      | inl on ↦ elim (Option-cases (extract_mentions decode c.text)) [
        | inl throws ↦ absurd (ground arith)
        | inr (mentions, hm) ↦ filtered c mentions hc hm on (ground arith)
      ]
    ]
  ]

pub All-filter :
    (P : AgentBinding → Type 0) (p : AgentBinding → Bool) (xs : List AgentBinding)
    → ((a : AgentBinding) → p a ≡ true → P a)
    → All P (filter p xs)
All-filter P p [] h = tt
All-filter P p (x ∷ xs) h = elim (Bool-cases (p x)) [
  | inl hit ↦ rw hit (h x hit, All-filter P p xs h)
  | inr miss ↦ rw miss (All-filter P p xs h)
]

-- An agent is woken only in a room to which it is bound; outside the root message of a task it is
-- never woken by its own event.
abbrev pub MayWake : Event → Option TaskThreadContext → AgentBinding → Type 0
MayWake e task a =
    (in_room e.room_id a ≡ true)
    × ((e.sender ≢ some a.user_id)
        ⊎ ((t : TaskThreadContext) × (task ≡ some t) × (t.is_root ≡ true) × (a.name ≡ t.assignee)))

not_own : (sender : Option String) (id : String) → opt_is sender id ≡ false → sender ≢ some id
not_own none id h e = cc
not_own (some s) id h e = ground (arith, eq_iff s id)

chooses-MayWake :
    (task : Option TaskThreadContext) (f : Facts) (e : Event) (a : AgentBinding)
    → chooses task f e a ≡ true
    → MayWake e task a
unfolding chooses
chooses-MayWake none f e a h = (ground arith, inl (not_own e.sender a.user_id (ground arith)))
chooses-MayWake (some t) f e a h = elim (Bool-cases t.is_root) [
  | inl root ↦ (ground arith, inr (t, refl, root, ground (arith, eq_iff a.name t.assignee)))
  | inr inner ↦ (ground arith, inl (not_own e.sender a.user_id (ground arith)))
]

-- Every agent that `route` wakes is bound to the event's room, and is not the sender of the event,
-- unless the event is the root message of a task and the agent its assignee.
pub route-MayWake :
    (decode : String → Option String) (now : ℕ) (e : Event) (agents : List AgentBinding)
    (states : Dict ThreadState) (task : Option TaskThreadContext) (known : List String)
    (out : List AgentBinding)
    → route decode now e agents states task known ≡ some out
    → All (MayWake e task) out
route-MayWake decode now e agents states task known out h =
    elim (route-Answer decode now e agents states task known out h) [
      | silent none_woken ↦ rw none_woken tt
      | filtered c mentions hc hm on same ↦
          rw same (All-filter (MayWake e task) _ agents (λ a ha. chooses-MayWake task _ e a ha))
    ]

-- The event with another text.
abbrev pub reworded : Event → Content → Text → Event
reworded e c t = record e { content = some (record c { text = t }) }

chooses_reworded :
    (task : Option TaskThreadContext) (f : Facts) (ms : List String) (b : Bool) (e : Event)
    (x : Option Content) (a : AgentBinding)
    → f.from_agent ≡ true
    → chooses task (record f { mentions = ms; addressed = b }) (record e { content = x }) a
      ≡ chooses task f e a
unfolding chooses is_return_route
chooses_reworded none f ms b e x a h = elim (Option-cases f.state) [
  | inl gone ↦ ground arith
  | inr (st, found) ↦ ground arith
]
chooses_reworded (some t) f ms b e x a h = ground arith

pub filter_ext :
    (p q : AgentBinding → Bool) (xs : List AgentBinding)
    → ((a : AgentBinding) → p a ≡ q a)
    → filter p xs ≡ filter q xs
filter_ext p q [] h = refl
filter_ext p q (x ∷ xs) h = ground (arith, h x, filter_ext p q xs h)

-- What `route` answers where the mentions are known.
pub route_value :
    (decode : String → Option String) (now : ℕ) (e : Event) (c : Content)
    (agents : List AgentBinding) (states : Dict ThreadState) (task : Option TaskThreadContext)
    (known ms : List String)
    → e.content ≡ some c
    → extract_mentions decode c.text ≡ some ms
    → route decode now e agents states task known
      ≡ some (
          if is_routable now e c
          then filter (chooses task (facts e c agents states known ms) e) agents
          else [])
unfolding route
route_value decode now e c agents states task known ms hc hm = ground arith

facts-reworded :
    (e : Event) (c : Content) (t : Text) (agents : List AgentBinding) (states : Dict ThreadState)
    (known ms ms' : List String)
    → facts (reworded e c t) (record c { text = t }) agents states known ms'
      ≡ record (facts e c agents states known ms) {
        mentions = ms';
        addressed = addresses_agent (reworded e c t) (record c { text = t }) agents known ms';
      }
unfolding facts
facts-reworded e c t agents states known ms ms' = refl

is_routable-reworded :
    (now : ℕ) (e : Event) (c : Content) (t : Text)
    → is_routable now (reworded e c t) (record c { text = t }) ≡ is_routable now e c
unfolding is_routable
is_routable-reworded now e c t = refl

filter-reworded :
    (e : Event) (c : Content) (t : Text) (agents : List AgentBinding) (states : Dict ThreadState)
    (task : Option TaskThreadContext) (known ms ms' : List String)
    → sender_is_agent e c agents known ≡ true
    → filter
        (chooses task
          (facts (reworded e c t) (record c { text = t }) agents states known ms')
          (reworded e c t))
        agents
      ≡ filter (chooses task (facts e c agents states known ms) e) agents
filter-reworded e c t agents states task known ms ms' agent =
    rw (facts-reworded e c t agents states known ms ms') (
      filter_ext _ _ agents (λ a.
        chooses_reworded task (facts e c agents states known ms) ms' _ e _ a
          (unfold facts in agent)))

-- Whom an agent's message wakes does not depend on its text: not on its body, its formatted body or
-- its mentions, as long as neither text makes the decoding of links throw.
pub route_agent_prose :
    (decode : String → Option String) (now : ℕ) (e : Event) (c : Content) (t : Text)
    (agents : List AgentBinding) (states : Dict ThreadState) (task : Option TaskThreadContext)
    (known : List String) (ms ms' : List String)
    → e.content ≡ some c
    → sender_is_agent e c agents known ≡ true
    → extract_mentions decode c.text ≡ some ms
    → extract_mentions decode t ≡ some ms'
    → route decode now (reworded e c t) agents states task known
      ≡ route decode now e agents states task known
route_agent_prose decode now e c t agents states task known ms ms' hc agent hm hm' = rw (
  route_value decode now e c agents states task known ms hc hm,
  route_value decode now (reworded e c t) (record c { text = t }) agents states task known ms' refl
      hm',
  is_routable-reworded now e c t,
  filter-reworded e c t agents states task known ms ms' agent,
)
