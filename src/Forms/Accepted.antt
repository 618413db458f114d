-- ===== src/Forms/Accepted.antt =====
-- packages/core/src/elicitation-schema.ts: `validateElicitationContent` accepts exactly the answers
-- that its schema describes, and passes them on as they came.
use mathlib.Core.Path.{ap₂, subst}
use zooid.Dict.{Dict, get, has, keys}
use zooid.Dict.Laws.{Unique, includes-keys}
use zooid.Forms.{
  ElicitationSchema, Verdict, check_fields, inherited, invalid, is_empty, known_fields, look_up,
  settled, valid, validate_elicitation_content,
}
use zooid.Forms.Loops.{
  empty_of_none, found_by, get-check_fields, get-known_fields, or_else, own_error, own_value,
  unknown,
}
use zooid.Json.{Fields, Json, end, entries, is_obj, obj}
use zooid.Prelude.{
  Bool-cases, List, Option, Option-cases, String, [], ap, arith, default, false, if◌then◌else◌,
  includes, inl, inr, is_some, none, refl, some, sym, true, ◌↔◌, ◌∙◌, ◌∷◌, ◌≡◌, ◌⊎◌,
}
use zooid.Schemas.{Host, Prop, check_value}
use zooid.Schemas.Accepts.{check_value-Fits}
use zooid.Schemas.Fits.{Fits}

module _ {N : Type 0} (host : Host N) where
  -- The answer under a property's key is missing where it may be, or fits.
  abbrev Answers : List String → Dict (Json N) → String → Prop N → Type 0
  Answers required content k p =
      if is_empty (look_up k content)
      then (includes k required ≡ false)
      else ((v : Json N) → look_up k content ≡ some v → Fits host p v)

  -- What the schema describes: no key but its properties', and each property's answer.
  pub record Acceptable (schema : ElicitationSchema N) (content : Dict (Json N)) : Type 0 where
    pub known :
        (k : String)
        → includes k (keys content) ≡ true
        → has k (default schema.properties []) ≡ true
    pub answered :
        (k : String) (p : Prop N)
        → get k (default schema.properties []) ≡ some p
        → Answers (default schema.required []) content k p

Errors_cases :
    (m : Dict String) → (m ≡ []) ⊎ ((e : String × String) × (es : Dict String) × (m ≡ e ∷ es))
Errors_cases [] = inl refl
Errors_cases (e ∷ es) = inr (e, es, refl)

settled-valid :
    {N : Type 0} (w : Verdict N) (out : Dict (Json N))
    → settled w ≡ valid out
    → (w.errors ≡ []) × (w.content ≡ out)
settled-valid w out h = elim (Errors_cases w.errors) [
  | inl none_left ↦ (none_left, let kept : valid w.content ≡ valid out = rw none_left at h in cc)
  | inr (e, es, some_left) ↦
      absurd (let lost : invalid (e ∷ es) ≡ valid out = rw some_left at h in cc)
]

valid-settled : {N : Type 0} (w : Verdict N) → w.errors ≡ [] → settled w ≡ valid w.content
valid-settled w clean = rw clean refl

or_else-none : {A : Type 0} (a b : Option A) → or_else a b ≡ none → (a ≡ none) × (b ≡ none)
or_else-none none b h = (refl, h)
or_else-none (some a) b h = absurd (cc)

or_else-none_right : {A : Type 0} (a : Option A) → or_else a none ≡ a
or_else-none_right none = refl
or_else-none_right (some a) = refl

unknown-none :
    {N : Type 0} (props : Dict (Prop N)) (ks : List String) (k : String)
    → (includes k ks ≡ true → has k props ≡ true)
    → unknown props ks [] k ≡ none
unfolding get
unknown-none props ks k known = elim (Bool-cases (includes k ks)) [
  | inl there_too ↦ rw (there_too, known there_too) refl
  | inr away ↦ rw away refl
]

unknown-known :
    {N : Type 0} (props : Dict (Prop N)) (ks : List String) (k : String)
    → includes k ks ≡ true
    → unknown props ks [] k ≡ none
    → has k props ≡ true
unfolding get
unknown-known props ks k listed clear = elim (Bool-cases (has k props)) [
  | inl known ↦ known
  | inr fresh ↦ absurd (let e : some "unknown field" ≡ none = rw (listed, fresh) at clear in cc)
]

-- An answer that is not empty is there.
answer_there : {N : Type 0} (o : Option (Json N)) → is_empty o ≡ false → (v : Json N) × (o ≡ some v)
unfolding is_empty
answer_there none h = absurd (cc)
answer_there (some v) h = (v, refl)

module _ {N : Type 0} (host : Host N) (required : List String) (content : Dict (Json N))
    (k : String) (p : Prop N) where
  own_error-Answers :
      (own_error host required content k p ≡ none) ↔ Answers host required content k p
  own_error-Answers = elim (Bool-cases (is_empty (look_up k content))) [
    | inl e ↦ rw e (λ h. ground arith, λ h. rw h refl)
    | inr e ↦
        let (v, found) = answer_there (look_up k content) e in
        rw (e, found)
          (
            λ h u same.
                (check_value-Fits host p u).0
                  (subst (λ o. check_value host p (default o v) ≡ none) same h),
            λ h. (check_value-Fits host p v).1 (h v refl),
          )
  ]

  own_value-some :
      (v : Json N)
      → own_error host required content k p ≡ none
      → (own_value host required content k p ≡ some v)
        ↔ ((look_up k content ≡ some v) × (is_empty (some v) ≡ false))
  own_value-some v fine = elim (Bool-cases (is_empty (look_up k content))) [
    | inl e ↦ rw e (
      λ h. absurd (cc),
      λ h.
          let full : is_empty (look_up k content) ≡ false =
            subst (λ o. is_empty o ≡ false) (sym h.0) h.1 in
          absurd (cc),
    )
    | inr e ↦
        let (u, found) = answer_there (look_up k content) e in
        let ok : check_value host p u ≡ none = rw (e, found) at fine in
        rw (e, found, ok) (λ h. (h, subst (λ o. is_empty o ≡ false) (found ∙ h) e), λ h. h.0)
  ]

-- An object's own answer comes first.
look_up-own :
    {N : Type 0} (k : String) (content : Dict (Json N)) (v : Json N)
    → get k content ≡ some v
    → look_up k content ≡ some v
unfolding look_up
look_up-own k content v own = rw (own, look_up) refl

-- What is inherited fits no property.
inherited-unfit :
    {N : Type 0} (host : Host N) (p : Prop N) (v : Json N) → v ≡ obj end → ¬ Fits host p v
inherited-unfit host p _ e (Fits.text s t f) = absurd (cc)
inherited-unfit host p _ e (Fits.integer n t i f) = absurd (cc)
inherited-unfit host p _ e (Fits.number n t f) = absurd (cc)
inherited-unfit host p _ e (Fits.flag b t) = absurd (cc)
inherited-unfit host p _ e (Fits.list ss xs t same f) = absurd (cc)

-- An answer that is there fits.
all-Fits :
    {N : Type 0} (host : Host N) (required : List String) (content : Dict (Json N)) (k : String)
    (p : Prop N) (v : Json N)
    → Answers host required content k p
    → look_up k content ≡ some v
    → is_empty (some v) ≡ false
    → Fits host p v
all-Fits host required content k p v a at full =
    let present : is_empty (look_up k content) ≡ false = rw at full in (rw present at a) v at

own-look_up :
    {N : Type 0} (host : Host N) (p : Prop N) (k : String) (content : Dict (Json N)) (v : Json N)
    → look_up k content ≡ some v
    → Fits host p v
    → get k content ≡ some v
unfolding look_up
own-look_up host p k content v h fits = elim (Option-cases (get k content)) [
  | inr (u, own) ↦ own ∙ (rw (own, look_up) at h)
  | inl gone ↦ elim (Bool-cases (inherited k)) [
    | inr plain ↦ absurd (let e : none ≡ some v = rw (gone, look_up, plain) at h in cc)
    | inl from_object ↦
        let e : some (obj end) ≡ some v = rw (gone, look_up, from_object) at h in
        absurd (inherited-unfit host p v (ap (λ o. default o v) (sym e)) fits)
  ]
]

module _ {N : Type 0} (host : Host N) (schema : ElicitationSchema N) (fs : Fields N)
    (once : Unique (default schema.properties [])) where
  abbrev final : Verdict N
  final =
      check_fields host (default schema.required []) (entries fs) (default schema.properties [])
        (record {
          errors = known_fields (default schema.properties []) (keys (entries fs)) [];
          content = [];
        })

  final_errors :
      (k : String)
      → get k final.errors
        ≡ or_else
            (found_by
              (own_error host (default schema.required []) (entries fs) k)
              (get k (default schema.properties [])))
            (unknown (default schema.properties []) (keys (entries fs)) [] k)
  final_errors k =
      (get-check_fields host _ _ _ once _ k).0
      ∙ rw (get-known_fields (default schema.properties []) (keys (entries fs)) [] k) refl

  no_own :
      Acceptable host schema (entries fs)
      → (k : String)
      → found_by
          (own_error host (default schema.required []) (entries fs) k)
          (get k (default schema.properties []))
        ≡ none
  no_own a k = elim (Option-cases (get k (default schema.properties []))) [
    | inl gone ↦ rw gone refl
    | inr (p, found) ↦ rw found ((own_error-Answers host _ _ k p).1 (a.answered k p found))
  ]

  errors_none : Acceptable host schema (entries fs) → final.errors ≡ []
  errors_none a = empty_of_none final.errors λ k.
      final_errors k
      ∙ ap₂ or_else (no_own a k)
          (unknown-none (default schema.properties []) (keys (entries fs)) k (a.known k))

  own_known :
      final.errors ≡ []
      → (k : String) → includes k (keys (entries fs)) ≡ true
      → has k (default schema.properties []) ≡ true
  unfolding get
  own_known e k given =
      let unseen : get k final.errors ≡ none = ap (get k) e in
      unknown-known (default schema.properties []) (keys (entries fs)) k given
        (or_else-none _ _ (sym (final_errors k) ∙ unseen)).1

  no_own_error :
      final.errors ≡ []
      → (k : String) (p : Prop N) → get k (default schema.properties []) ≡ some p
      → own_error host (default schema.required []) (entries fs) k p ≡ none
  unfolding get
  no_own_error e k p found =
      let unseen : get k final.errors ≡ none = ap (get k) e in
      let own : or_else (own_error host (default schema.required []) (entries fs) k p) _ ≡ none =
        rw found at (sym (final_errors k) ∙ unseen) in
      (or_else-none _ _ own).0

  none_errors : final.errors ≡ [] → Acceptable host schema (entries fs)
  none_errors e = record {
    known = λ k given. own_known e k given;
    answered = λ k p found. (own_error-Answers host _ _ k p).0 (no_own_error e k p found);
  }

  -- Where the keys of the properties are different, an object is accepted exactly if it has no key
  -- but the properties', every required one is answered, and every answer fits its property. What the
  -- object inherits counts as an answer, and fits nothing: a property `constructor` must be answered
  -- even where it is optional.
  pub validate_accepts :
      ((out : Dict (Json N)) × (validate_elicitation_content host schema (obj fs) ≡ valid out))
      ↔ Acceptable host schema (entries fs)
  unfolding validate_elicitation_content is_obj
  validate_accepts = (
    λ h. none_errors (settled-valid final h.0 h.1).0,
    λ a. (final.content, valid-settled final (errors_none a)),
  )

  final_content :
      (k : String)
      → get k final.content
        ≡ found_by
            (own_value host (default schema.required []) (entries fs) k)
            (get k (default schema.properties []))
  unfolding get
  final_content k = (get-check_fields host _ _ _ once _ k).1 ∙ or_else-none_right _

  -- Where the keys of the properties are different, the content that comes out of an accepted object
  -- has under each key the answer that the object has there, unchanged, if it is not empty, and
  -- nothing else.
  pub validate_keeps :
      (out : Dict (Json N))
      → validate_elicitation_content host schema (obj fs) ≡ valid out
      → (k : String) (v : Json N)
      → (get k out ≡ some v) ↔ ((get k (entries fs) ≡ some v) × (is_empty (some v) ≡ false))
  unfolding validate_elicitation_content is_obj
  validate_keeps out h k v =
      let (clean, same) = settled-valid final out h in
      let all = none_errors clean in
      let taken = sym (final_content k) ∙ ap (get k) same in
      elim (Option-cases (get k (default schema.properties []))) [
        | inl gone ↦
            let missing : none ≡ get k out = rw gone at taken in
            (
              λ got. absurd (cc),
              λ given.
                  let known = all.known k (includes-keys k (entries fs) ∙ ap is_some given.0) in
                  let bad : false ≡ true = rw gone at known in absurd (cc),
            )
        | inr (p, found) ↦
            let own = own_value-some host _ (entries fs) k p v (no_own_error clean k p found) in
            let mine : own_value host (default schema.required []) (entries fs) k p ≡ get k out =
              rw found at taken in
            (
              λ got.
                  let (at, full) = own.0 (mine ∙ got) in
                  (
                    own-look_up host p k (entries fs) v at
                        (all-Fits host _ (entries fs) k p v (all.answered k p found) at full),
                    full,
                  ),
              λ given. sym mine ∙ own.1 (look_up-own k (entries fs) v given.0, given.1),
            )
      ]
