-- ===== src/Forms/Tests.antt =====
-- Answers to a sample form, and the theorems at it.
use zooid.Dict.{Dict, get, set}
use zooid.Dict.Laws.{Unique}
use zooid.Forms.{
  ElicitationSchema, invalid, is_empty, unsupported_schema_reasons, valid,
  validate_elicitation_content,
}
use zooid.Forms.Accepted.{Acceptable, validate_accepts, validate_keeps}
use zooid.Json.{Fields, Json, arr, cons, elements, end, entries, field, nil, num, obj, str}
use zooid.Prelude.{[], default, false, none, refl, some, ℕ, ◌↔◌, ◌∷◌, ◌≡◌}
use zooid.Schemas.Samples.{colour, nat_host, short_text}
use zooid.Texts.{units}

abbrev form : ElicitationSchema ℕ
form = record {
  properties = some (("colour", colour) ∷ ("note", short_text) ∷ []);
  required = some ("colour" ∷ []);
}

abbrev answers : Fields ℕ
answers = field "colour" (str "red") (field "note" (str "") end)

form_once : Unique (default form.properties [])
unfolding get
form_once = (refl, (refl, tt))

kept_answer :
    validate_elicitation_content nat_host form (obj answers) ≡ valid (("colour", str "red") ∷ [])
unfolding validate_elicitation_content get elements set
kept_answer = refl

refused_answer :
    validate_elicitation_content nat_host form
      (obj (field "size" (num 3) (field "note" (str "four") end)))
    ≡ invalid (
        ("size", "unknown field")
        ∷ ("colour", "required")
        ∷ ("note", "must be at least 5 characters")
        ∷ [])
unfolding validate_elicitation_content get elements set units
refused_answer = refl

-- A property that is optional, and that every object inherits.
abbrev inherited_form : ElicitationSchema ℕ
inherited_form = record { properties = some (("constructor", colour) ∷ []); required = none }

inherited_answer :
    validate_elicitation_content nat_host inherited_form (obj end)
    ≡ invalid (("constructor", "must be text") ∷ [])
unfolding validate_elicitation_content get elements set
inherited_answer = refl

unsupported_form :
    unsupported_schema_reasons nat_host (
      obj (
        field "properties"
          (obj (field "a" (obj (field "type" (str "object") end)) end))
          (field "required" (arr (cons (str "b") nil)) end)))
    ≡ "properties.a: unsupported type \"value\"" ∷ "required: \"value\" is not a property" ∷ []
unfolding unsupported_schema_reasons get elements entries
unsupported_form = refl

validate_accepts_example :
    ((out : Dict (Json ℕ)) × (validate_elicitation_content nat_host form (obj answers) ≡ valid out))
    ↔ Acceptable nat_host form (entries answers)
validate_accepts_example = validate_accepts nat_host form answers form_once

validate_keeps_example :
    (get {V = Json ℕ} "colour" (("colour", str "red") ∷ []) ≡ some (str "red")) ↔ (
      (get "colour" (entries answers) ≡ some (str "red"))
      × (is_empty {N = ℕ} (some (str "red")) ≡ false))
validate_keeps_example =
    validate_keeps nat_host form answers form_once (("colour", str "red") ∷ []) kept_answer "colour"
      (str "red")
