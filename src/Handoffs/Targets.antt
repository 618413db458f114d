-- ===== src/Handoffs/Targets.antt =====
-- The target of a handoff is the one candidate that is meant.
use zooid.Handoffs.{
  HandoffCandidate, hits_of, is_mxid, label, ok, or_else, resolve_handoff_target, roster_of,
  settle_on, strip_at,
}
use zooid.Prelude.{
  All, Bool, Bool-cases, List, String, [], ap, arith, false, filter, includes, inl, inr, refl, true,
  ◌==◌, ◌∷◌, ◌≡◌, ◌⊎◌,
}
use zooid.Texts.{trim}

abbrev pub Among : HandoffCandidate → List HandoffCandidate → Type 0
Among t [] = ⊥
Among t (c ∷ cs) = (c ≡ t) ⊎ Among t cs

-- A test picks one candidate.
abbrev pub Only : (HandoffCandidate → Bool) → HandoffCandidate → List HandoffCandidate → Type 0
Only p t cs = Among t cs × (p t ≡ true) × All (λ c. p c ≡ true → c ≡ t) cs

filter_none :
    (p : HandoffCandidate → Bool) (cs : List HandoffCandidate)
    → filter p cs ≡ []
    → All (λ c. p c ≡ false) cs
filter_none p [] h = tt
filter_none p (c ∷ cs) h = elim (Bool-cases (p c)) [
  | inl hit ↦ absurd (ground arith)
  | inr miss ↦ (miss, filter_none p cs (ground arith))
]

All-only :
    (p : HandoffCandidate → Bool) (t : HandoffCandidate) (cs : List HandoffCandidate)
    → All (λ c. p c ≡ false) cs
    → All (λ c. p c ≡ true → c ≡ t) cs
All-only p t [] h = tt
All-only p t (c ∷ cs) h = (λ hit. absurd (ground arith), All-only p t cs h.1)

filter-Only :
    (p : HandoffCandidate → Bool) (t : HandoffCandidate) (cs : List HandoffCandidate)
    → filter p cs ≡ t ∷ []
    → Only p t cs
filter-Only p t [] h = absurd (ground arith)
filter-Only p t (c ∷ cs) h = elim (Bool-cases (p c)) [
  | inl hit ↦
      let h' : c ∷ filter p cs ≡ t ∷ [] = ground arith in
      let e : c ≡ t = ground arith in
      let rest : filter p cs ≡ [] = ground arith in
      (inl e, ground arith, (λ again. e, All-only p t cs (filter_none p cs rest)))
  | inr miss ↦
      let (among, holds, only) = filter-Only p t cs (ground arith) in
      (inr among, holds, (λ hit. absurd (ground arith), only))
]

or_else-one :
    (xs ys : List HandoffCandidate) (t : HandoffCandidate)
    → or_else xs ys ≡ t ∷ []
    → (xs ≡ t ∷ []) ⊎ ((xs ≡ []) × (ys ≡ t ∷ []))
or_else-one [] ys t h = inr (refl, h)
or_else-one (x ∷ xs) ys t h = inl h

settle_on-ok :
    (q room : String) (roster : List String) (hits : List HandoffCandidate) (t : HandoffCandidate)
    → settle_on q room roster hits ≡ ok t
    → (hits ≡ t ∷ []) × (includes room t.rooms ≡ true)
settle_on-ok q room roster [] t h = absurd (ground arith)
settle_on-ok q room roster (x ∷ []) t h = elim (Bool-cases (includes room x.rooms)) [
  | inl inside ↦ let e : x ≡ t = ground arith in (ap (λ y. y ∷ []) e, ground arith)
  | inr out ↦ absurd (ground arith)
]
settle_on-ok q room roster (x ∷ y ∷ hits) t h = absurd (ground arith)

-- What a query means: the candidate of that id, or the one of that label, or, where no candidate has
-- the label, the one of that name.
abbrev pub Meant : String → HandoffCandidate → List HandoffCandidate → Type 0
Meant q t cs =
    ((is_mxid q ≡ true) × Only (λ c. c.user_id == q) t cs)
    ⊎ ((is_mxid q ≡ false) × Only (λ c. label c == strip_at q) t cs)
    ⊎ ((is_mxid q ≡ false)
        × All (λ c. (label c == strip_at q) ≡ false) cs
        × Only (λ c. c.name == strip_at q) t cs)

hits_of-Meant :
    (q : String) (t : HandoffCandidate) (cs : List HandoffCandidate)
    → hits_of q cs ≡ t ∷ []
    → Meant q t cs
unfolding hits_of
hits_of-Meant q t cs h = elim (Bool-cases (is_mxid q)) [
  | inl id ↦ inl (id, filter-Only (λ c. c.user_id == q) t cs (ground arith))
  | inr name ↦ elim (or_else-one _ _ t (rw (name, hits_of) at h)) [
    | inl single ↦ inr (inl (name, filter-Only (λ c. label c == strip_at q) t cs single))
    | inr (none_so, single) ↦ inr (
        inr (
          name,
          filter_none (λ c. label c == strip_at q) cs none_so,
          filter-Only (λ c. c.name == strip_at q) t cs single,
        ))
  ]
]

-- A handoff that is resolved goes to a candidate in the caller's room, and to the only one that the
-- query means: by its full id, else by its label, else, if no candidate has that label, by its name.
pub resolve_handoff_target-Meant :
    (agent room : String) (cs : List HandoffCandidate) (t : HandoffCandidate)
    → resolve_handoff_target agent room cs ≡ ok t
    → (includes room t.rooms ≡ true) × Meant (trim agent) t cs
unfolding resolve_handoff_target
resolve_handoff_target-Meant agent room cs t h =
    let (single, inside) =
      settle_on-ok (trim agent) room (roster_of room cs) (hits_of (trim agent) cs) t h in
    (inside, hits_of-Meant (trim agent) t cs single)
