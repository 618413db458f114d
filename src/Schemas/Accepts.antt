-- ===== src/Schemas/Accepts.antt =====
-- packages/core/src/elicitation-schema.ts: `checkValue` finds no error exactly in a value that fits.
-- A type's own branch.
use zooid.Json.{Json, arr, bool, elements, is_array, items_of, null, num, obj, str}
use zooid.Prelude.{
  Bool, Bool-cases, List, Option-cases, String, false, inl, inr, none, not, refl, some, true, ◌&&◌,
  ◌↔◌, ◌≡◌,
}
use zooid.Schemas.{
  Host, Prop, all_texts, check_array, check_boolean, check_number, check_string, check_value,
  is_type,
}
use zooid.Schemas.Checks.{
  all_texts-items_of, check_items-Fits, check_number-Fits, check_text-Fits, is_type_other,
  items_of-all_texts, not-false,
}
use zooid.Schemas.Fits.{Fits, ItemsFit, NumberFits}

module _ {N : Type 0} (host : Host N) (p : Prop N) where
  string-Fits :
      (v : Json N) → is_type "string" p ≡ true → check_string host p v ≡ none → Fits host p v
  unfolding check_string
  string-Fits (str s) t h = Fits.text s t ((check_text-Fits host p s).0 h)
  string-Fits null t h = absurd (cc)
  string-Fits (bool b) t h = absurd (cc)
  string-Fits (num n) t h = absurd (cc)
  string-Fits (arr a) t h = absurd (cc)
  string-Fits (obj o) t h = absurd (cc)

  number-Fits :
      (integral : Bool) (v : Json N)
      → check_number host p integral (some v) ≡ none
      → (n : N) × (v ≡ num n) × (integral && not (host.is_integer n) ≡ false) × NumberFits host p n
  unfolding check_number
  number-Fits integral (num n) h =
      let (i, f) = (check_number-Fits host p integral n).0 h in (n, refl, i, f)
  number-Fits integral null h = absurd (cc)
  number-Fits integral (bool b) h = absurd (cc)
  number-Fits integral (str s) h = absurd (cc)
  number-Fits integral (arr a) h = absurd (cc)
  number-Fits integral (obj o) h = absurd (cc)

  flag-Fits : (v : Json N) → is_type "boolean" p ≡ true → check_boolean v ≡ none → Fits host p v
  unfolding check_boolean
  flag-Fits (bool b) t h = Fits.flag b t
  flag-Fits null t h = absurd (cc)
  flag-Fits (num n) t h = absurd (cc)
  flag-Fits (str s) t h = absurd (cc)
  flag-Fits (arr a) t h = absurd (cc)
  flag-Fits (obj o) t h = absurd (cc)

  array-Fits : (v : Json N) → is_type "array" p ≡ true → check_array host p v ≡ none → Fits host p v
  unfolding check_array is_array
  array-Fits (arr xs) t h = elim (Option-cases (all_texts (elements xs))) [
    | inl gone ↦
        absurd (let e : some "must be a list of choices" ≡ none = rw (gone, check_array) at h in cc)
    | inr (ss, found) ↦
        Fits.list ss xs t (items_of-all_texts xs found)
          ((check_items-Fits host p ss).0 (rw (found, check_array) at h))
  ]
  array-Fits null t h = absurd (cc)
  array-Fits (bool b) t h = absurd (cc)
  array-Fits (num n) t h = absurd (cc)
  array-Fits (str s) t h = absurd (cc)
  array-Fits (obj o) t h = absurd (cc)

  -- No error means that the value fits.
  sound : (v : Json N) → check_value host p v ≡ none → Fits host p v
  unfolding check_value
  sound v h = elim (Bool-cases (is_type "string" p)) [
    | inl t ↦ string-Fits v t (rw t at h)
    | inr t0 ↦ elim (Bool-cases (is_type "integer" p)) [
      | inl t ↦
          let (n, e, i, f) = number-Fits true v (rw (t0, t) at h) in
          rw e (Fits.integer n t (not-false _ i) f)
      | inr t1 ↦ elim (Bool-cases (is_type "number" p)) [
        | inl t ↦
            let (n, e, i, f) = number-Fits false v (rw (t0, t1, t) at h) in rw e (Fits.number n t f)
        | inr t2 ↦ elim (Bool-cases (is_type "boolean" p)) [
          | inl t ↦ flag-Fits v t (rw (t0, t1, t2, t) at h)
          | inr t3 ↦ elim (Bool-cases (is_type "array" p)) [
            | inl t ↦ array-Fits v t (rw (t0, t1, t2, t3, t) at h)
            | inr t4 ↦
                absurd
                  (let e : some "unsupported field" ≡ none = rw (t0, t1, t2, t3, t4) at h in cc)
          ]
        ]
      ]
    ]
  ]

  listed_items :
      (ss : List String) → ItemsFit host p ss → check_array host p (arr (items_of ss)) ≡ none
  unfolding check_array is_array
  listed_items ss f = rw (all_texts-items_of N ss, check_array) ((check_items-Fits host p ss).1 f)

  complete : {v : Json N} → Fits host p v → check_value host p v ≡ none
  unfolding check_value check_boolean
  complete (Fits.text s t f) = rw (t, check_string) ((check_text-Fits host p s).1 f)
  complete (Fits.integer n t i f) =
      rw (is_type_other "integer" "string" p t refl, t)
        ((check_number-Fits host p true n).1 (rw i refl, f))
  complete (Fits.number n t f) =
      rw (is_type_other "number" "string" p t refl, is_type_other "number" "integer" p t refl, t)
        ((check_number-Fits host p false n).1 (refl, f))
  complete (Fits.flag b t) =
      rw
        (
          is_type_other "boolean" "string" p t refl,
          is_type_other "boolean" "integer" p t refl,
          is_type_other "boolean" "number" p t refl,
          t,
          check_boolean,
        )
        refl
  complete (Fits.list ss xs t e f) =
      rw
        (
          is_type_other "array" "string" p t refl,
          is_type_other "array" "integer" p t refl,
          is_type_other "array" "number" p t refl,
          is_type_other "array" "boolean" p t refl,
          t,
          e,
        )
        (listed_items ss f)

  -- `checkValue` accepts exactly the values that fit the property, whatever the engine's numbers,
  -- expressions and dates: a text among the choices, within the lengths, of the pattern and the
  -- format; a finite number within the limits, without a fraction where the type is `integer`; a
  -- Boolean; a list of texts among the items' choices, each once, within the counts.
  pub check_value-Fits : (v : Json N) → (check_value host p v ≡ none) ↔ Fits host p v
  check_value-Fits v = (sound v, complete)
