-- ===== src/Forms/Loops.antt =====
-- packages/core/src/elicitation-schema.ts: what the loops of `validateElicitationContent` leave under each key.
use mathlib.Core.Path.{subst}
use zooid.Dict.{Dict, get, has, set}
use zooid.Dict.Laws.{Unique, get-set}
use zooid.Forms.{Verdict, check_field, check_fields, is_empty, known_fields, look_up}
use zooid.Json.{Json}
use zooid.Prelude.{
  Bool-cases, List, Option, Option-cases, String, String-cases, [], ap, arith, eq_iff,
  if◌then◌else◌, includes, inl, inr, none, not, refl, some, ◌&&◌, ◌==◌, ◌∙◌, ◌∷◌, ◌≡◌,
}
use zooid.Schemas.{Host, Prop, check_value}

-- A dictionary in which nothing is found is empty.
pub empty_of_none {ℓ} : {V : Type ℓ} (m : Dict V) → ((k : String) → get k m ≡ none) → m ≡ []
unfolding get
empty_of_none [] h = refl
empty_of_none ((k, v) ∷ m) h = absurd (let e = h k in ground (arith, eq_iff k k))

module _ {N : Type 0} where
  -- The first loop: a key of the content that is no property is an error.
  abbrev pub unknown : Dict (Prop N) → List String → Dict String → String → Option String
  unknown props ks errors k =
      if includes k ks && not (has k props) then some "unknown field" else get k errors

  pub get-known_fields :
      (props : Dict (Prop N)) (ks : List String) (errors : Dict String) (k : String)
      → get k (known_fields props ks errors) ≡ unknown props ks errors k
  unfolding known_fields
  get-known_fields props [] errors k = refl
  get-known_fields props (j ∷ ks) errors k = elim (Bool-cases (has j props)) [
    | inl known ↦ rw known (elim (String-cases j k) [
      | inl same ↦ rw (← same) (ground (arith, known, get-known_fields props ks errors j))
      | inr other ↦ rw other (get-known_fields props ks errors k)
    ])
    | inr fresh ↦ rw fresh (
        get-known_fields props ks (set j "unknown field" errors) k
        ∙ ground (arith, get-set k j "unknown field" errors, eq_iff j k))
  ]

-- A write of an optional value.
module _ {A : Type 0} where
  abbrev pub written : String → Option A → Dict A → Dict A
  written k none m = m
  written k (some a) m = set k a m

  abbrev pub or_else : Option A → Option A → Option A
  or_else none b = b
  or_else (some a) b = some a

  abbrev pub found_by : {B : Type 0} → (B → Option A) → Option B → Option A
  found_by f none = none
  found_by f (some b) = f b

  get-written :
      (k j : String) (o : Option A) (m : Dict A)
      → get k (written j o m) ≡ (if j == k then or_else o (get k m) else get k m)
  get-written k j none m = ground arith
  get-written k j (some a) m = get-set k j a m

-- One round of a loop that writes an optional value under each key.
get-round :
    {A B : Type 0} (own : String → B → Option A) (k j : String) (p : B) (rest : Dict B)
    (before after result : Dict A)
    → get j rest ≡ none
    → after ≡ written j (own j p) before
    → get k result ≡ or_else (found_by (own k) (get k rest)) (get k after)
    → get k result
      ≡ or_else (found_by (own k) (if j == k then some p else get k rest)) (get k before)
get-round own k j p rest before after result once wrote ends = elim (String-cases j k) [
  | inl same ↦
      let unwritten : get k rest ≡ none = subst (λ i. get i rest ≡ none) same once in
      let own_write : own j p ≡ own k p = ap (λ i. own i p) same in
      ends
      ∙ rw (unwritten, wrote, get-written k j (own j p) before, own_write, (eq_iff j k).1 same) refl
  | inr other ↦ ends ∙ rw (wrote, get-written k j (own j p) before, other) refl
]

module _ {N : Type 0} (host : Host N) (required : List String) (content : Dict (Json N)) where
  -- What a property's own round of the second loop finds.
  abbrev pub own_error : String → Prop N → Option String
  own_error k p =
      if is_empty (look_up k content)
      then (if includes k required then some "required" else none)
      else elim (look_up k content) [ none ↦ none | some v ↦ check_value host p v ]

  abbrev pub own_value : String → Prop N → Option (Json N)
  own_value k p = if is_empty (look_up k content) then none else elim (look_up k content) [
    | none ↦ none
    | some v ↦ elim (check_value host p v) [ none ↦ some v | some e ↦ none ]
  ]

  check_field_writes :
      (k : String) (p : Prop N) (w : Verdict N)
      → ((check_field host required content k p w).errors ≡ written k (own_error k p) w.errors)
        × ((check_field host required content k p w).content ≡ written k (own_value k p) w.content)
  unfolding check_field
  check_field_writes k p w = elim (Bool-cases (is_empty (look_up k content))) [
    | inl e ↦ elim (Bool-cases (includes k required)) [
      | inl r ↦ rw (e, r) (refl, refl)
      | inr r ↦ rw (e, r) (refl, refl)
    ]
    | inr e ↦ elim (Option-cases (look_up k content)) [
      | inl gone ↦ rw (e, gone) (refl, refl)
      | inr (v, found) ↦ elim (Option-cases (check_value host p v)) [
        | inl ok ↦ rw (e, found, ok) (refl, refl)
        | inr (err, bad) ↦ rw (e, found, bad) (refl, refl)
      ]
    ]
  ]

  -- The second loop: under each key the round of its own property, or what was there.
  pub get-check_fields :
      (props : Dict (Prop N))
      → Unique props
      → (w : Verdict N) (k : String)
      → (get k (check_fields host required content props w).errors
          ≡ or_else (found_by (own_error k) (get k props)) (get k w.errors))
        × (get k (check_fields host required content props w).content
            ≡ or_else (found_by (own_value k) (get k props)) (get k w.content))
  unfolding check_fields get
  get-check_fields [] u w k = (refl, refl)
  get-check_fields ((j, p) ∷ props) u w k =
      let w' = check_field host required content j p w in
      let (errors, kept) = get-check_fields props u.1 w' k in
      let (wrote, filled) = check_field_writes j p w in
      (
        get-round own_error k j p props w.errors w'.errors _ u.0 wrote errors,
        get-round own_value k j p props w.content w'.content _ u.0 filled kept,
      )
