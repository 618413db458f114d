-- ===== src/Delegation/Causes.antt =====
-- packages/transport-matrix/src/transport.ts, `handoff`: why a handoff is turned down before its post.
use mathlib.Core.Path.{subst}
use zooid.Calls.{would_cycle_callers}
use zooid.Calls.Walk.{Acyclic, Up, would_cycle_callers_iff}
use zooid.Delegation.{
  Board, Caller, Refusal, Staff, already_open, already_waiting, binding_for, busy,
  handoff_candidates, is_local, no_prompt, open_task, post_failed, remote_in_task, self,
  unknown_caller, unresolved, vet_target, waits_on,
}
use zooid.Dict.{get}
use zooid.Events.{AgentBinding, ThreadState}
use zooid.Handoffs.{HandoffCandidate, ok, refused, resolve_handoff_target}
use zooid.Prelude.{
  Bool, Option, Option-cases, String, ap, arith, default, eq_iff, false, if◌then◌else◌, inl, inr,
  is_some, none, not, refl, some, true, ◌&&◌, ◌==◌, ◌∙◌, ◌≡◌, ◌⊎◌,
}
use zooid.Texts.{trim}

-- The caller is known, the query names an agent, and the two are so.
abbrev Between : Staff → Caller → String → (AgentBinding → HandoffCandidate → Type 0) → Type 0
Between s c query P =
    (me : AgentBinding) × (t : HandoffCandidate) × (binding_for s c.agent_name ≡ some me)
    × (resolve_handoff_target query c.channel_id (handoff_candidates s) ≡ ok t)
    × P me t

-- What a refusal before the post says; none of them says that the post failed.
abbrev pub Cause : Staff → Caller → (query prompt : String) → Board → Refusal → Type 0
Cause s c query prompt b unknown_caller = binding_for s c.agent_name ≡ none
Cause s c query prompt b no_prompt = trim prompt ≡ ""
Cause s c query prompt b (unresolved why) =
    resolve_handoff_target query c.channel_id (handoff_candidates s) ≡ refused why
Cause s c query prompt b self = Between s c query (λ me t. t.user_id ≡ me.user_id)
Cause s c query prompt b already_waiting = Between s c query (λ me t.
    (st : ThreadState) × (get c.thread_root b.thread_states ≡ some st)
    × Up st.callers me.user_id t.user_id)
Cause s c query prompt b remote_in_task =
    Between s c query (λ me t. (is_some (open_task c b) ≡ true) × (is_local s t.user_id ≡ false))
Cause s c query prompt b already_open = Between s c query (λ me t. busy c me.user_id b ≡ true)
Cause s c query prompt b post_failed = ⊥

-- A check that fails, or the ones after it.
failed_or :
    (test : Bool) (r why : Refusal) (rest : Option Refusal)
    → (if test then some r else rest) ≡ some why
    → ((test ≡ true) × (r ≡ why)) ⊎ (rest ≡ some why)
failed_or true r why rest h = inl (refl, ap (λ o. default o r) h)
failed_or false r why rest h = inr h

-- Who waits for the caller stands above it.
waits_on-Up :
    (c : Caller) (target who : String) (b : Board)
    → ((st : ThreadState) → get c.thread_root b.thread_states ≡ some st → Acyclic st.callers)
    → waits_on c target who b ≡ true
    → (st : ThreadState) × (get c.thread_root b.thread_states ≡ some st) × Up st.callers who target
unfolding waits_on
waits_on-Up c target who b acyclic h = elim (Option-cases (get c.thread_root b.thread_states)) [
  | inl gone ↦ absurd (let e : false ≡ true = rw (gone, waits_on) at h in cc)
  | inr (st, found) ↦ elim (Option-cases (would_cycle_callers st.callers target who)) [
    | inl lost ↦ absurd (let e : false ≡ true = rw (found, waits_on, lost) at h in cc)
    | inr (w, walked) ↦
        let closes : w ≡ true = rw (found, waits_on, walked) at h in
        (
          st,
          found,
          (would_cycle_callers_iff st.callers target who (acyclic st found)).0
              (walked ∙ ap some closes),
        )
  ]
]

pub vetted-Cause :
    (s : Staff) (c : Caller) (query prompt : String) (me : AgentBinding) (t : HandoffCandidate)
    (b : Board) (why : Refusal)
    → ((st : ThreadState) → get c.thread_root b.thread_states ≡ some st → Acyclic st.callers)
    → binding_for s c.agent_name ≡ some me
    → resolve_handoff_target query c.channel_id (handoff_candidates s) ≡ ok t
    → vet_target s c me t b ≡ some why
    → Cause s c query prompt b why
unfolding vet_target
vetted-Cause s c query prompt me t b why acyclic known found h =
    let C : Refusal → Type 0 = Cause s c query prompt b in
    elim (failed_or (t.user_id == me.user_id) self why _ h) [
      | inl (yes_so, it) ↦ subst C it (me, t, known, found, (eq_iff t.user_id me.user_id).0 yes_so)
      | inr h ↦ elim (failed_or (waits_on c t.user_id me.user_id b) already_waiting why _ h) [
        | inl (yes_so, it) ↦
            subst C it (me, t, known, found, waits_on-Up c t.user_id me.user_id b acyclic yes_so)
        | inr h ↦
            elim (failed_or (is_some (open_task c b) && not (is_local s t.user_id)) remote_in_task
              why _ h) [
                | inl (yes_so, it) ↦ subst C it (me, t, known, found, (ground arith, ground arith))
                | inr h ↦ elim (failed_or (busy c me.user_id b) already_open why none h) [
                  | inl (yes_so, it) ↦ subst C it (me, t, known, found, yes_so)
                  | inr gone ↦ absurd (cc)
                ]
              ]
      ]
    ]
