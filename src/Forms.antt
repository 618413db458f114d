-- ===== src/Forms.antt =====
-- packages/core/src/elicitation-schema.ts: which schemas a form can show, and which answers a schema
-- accepts.
pub mod Loops
pub mod Accepted
mod Tests
use zooid.Dict.{Dict, get, has, keys, set}
use zooid.Json.{Json, arr, as_text, end, is_array, is_obj, nil, null, obj, str}
use zooid.Prelude.{
  Bool, List, Option, String, [], default, false, if◌then◌else◌, includes, is_some, none, not, some,
  true, ◌++◌, ◌==◌, ◌||◌, ◌∷◌,
}
use zooid.Schemas.{Host, Prop, check_value, format_test, is_type, item_choices_of}
use zooid.Texts.{concat}

pub record ElicitationSchema (N : Type 0) : Type 0 where
  pub properties : Option (Dict (Prop N))
  pub required : Option (List String)

pub data ElicitationValidation (N : Type 0) : Type 0 where
  valid : (content : Dict (Json N)) → ElicitationValidation N
  invalid : (errors : Dict String) → ElicitationValidation N

-- The errors and the content that the loops fill.
pub record Verdict (N : Type 0) : Type 0 where
  pub errors : Dict String
  pub content : Dict (Json N)

-- The properties that every plain object inherits from `Object.prototype`.
unfoldable pub inherited : String → Bool
inherited key = includes key (
    "constructor" ∷ "hasOwnProperty" ∷ "isPrototypeOf" ∷ "propertyIsEnumerable" ∷ "toLocaleString"
    ∷ "toString" ∷ "valueOf" ∷ "__defineGetter__" ∷ "__defineSetter__" ∷ "__lookupGetter__"
    ∷ "__lookupSetter__" ∷ "__proto__" ∷ [])

module _ {N : Type 0} where
  -- `undefined`, `null`, the empty text and the empty list are no answer.
  unfoldable pub is_empty : Option (Json N) → Bool
  is_empty none = true
  is_empty (some null) = true
  is_empty (some (str s)) = s == ""
  is_empty (some (arr nil)) = true
  is_empty (some _) = false

  unfoldable pub known_fields : Dict (Prop N) → List String → Dict String → Dict String
  known_fields props [] errors = errors
  known_fields props (k ∷ ks) errors =
      known_fields props ks (if has k props then errors else set k "unknown field" errors)

  abbrev pub settled : Verdict N → ElicitationValidation N
  settled w = elim w.errors [ [] ↦ valid w.content | _ ↦ invalid w.errors ]

-- `Object.hasOwn(FORMAT, f)`.
module _ {N : Type 0} where
  -- `content[key]`. What is inherited is a function or an object; `checkValue` treats both as it does an
  -- object.
  unfoldable pub look_up : String → Dict (Json N) → Option (Json N)
  unfolding inherited
  look_up key content = elim (get key content) [
    | some v ↦ some v
    | none ↦ if inherited key then some (obj end) else none
  ]

module _ {N : Type 0} (host : Host N) where
  abbrev unknown_format : Option String → Bool
  unknown_format none = false
  unknown_format (some f) = not (is_some (format_test host f))

  abbrev invalid_pattern : Option String → Bool
  invalid_pattern none = false
  invalid_pattern (some pattern) = not (is_some (host.reg_exp pattern))

  abbrev pub is_scalar : Prop N → Bool
  is_scalar p =
      is_type "string" p || is_type "number" p || is_type "integer" p || is_type "boolean" p

  unfoldable pub type_reasons : String → Prop N → List String
  unfolding is_type item_choices_of
  type_reasons key p =
      if is_scalar p
      then []
      else if is_type "array" p
      then (if is_some (item_choices_of p)
          then []
          else concat ("properties." ∷ key ∷ ": unsupported multi-select items" ∷ []) ∷ [])
      else concat (
          "properties."
          ∷ key
          ∷ ": unsupported type \""
          ∷ host.show_value (get "type" p)
          ∷ "\""
          ∷ [])
        ∷ []

  unfoldable pub property_reasons : String → Prop N → List String
  unfolding type_reasons format_test
  property_reasons key p =
      type_reasons key p
      ++ ((if unknown_format (as_text (get "format" p))
            then concat (
                "properties."
                ∷ key
                ∷ ": unsupported format \""
                ∷ default (as_text (get "format" p)) ""
                ∷ "\""
                ∷ [])
              ∷ []
            else [])
          ++ (if invalid_pattern (as_text (get "pattern" p))
              then concat ("properties." ∷ key ∷ ": invalid pattern" ∷ []) ∷ []
              else []))

  unfoldable pub properties_reasons : Dict (Json N) → List String
  unfolding property_reasons is_obj
  properties_reasons [] = []
  properties_reasons ((key, raw) ∷ props) =
      property_reasons key (default (is_obj raw) []) ++ properties_reasons props

  abbrev pub names_property : Dict (Json N) → Option String → Bool
  names_property props none = false
  names_property props (some r) = has r props

  unfoldable pub required_reasons : Dict (Json N) → List (Json N) → List String
  required_reasons props [] = []
  required_reasons props (r ∷ rs) =
      if names_property props (as_text (some r))
      then required_reasons props rs
      else concat ("required: \"" ∷ host.show_value (some r) ∷ "\" is not a property" ∷ [])
        ∷ required_reasons props rs

  -- `schema.type !== undefined && schema.type !== 'object'`.
  abbrev pub other_type : Option (Json N) → Bool
  other_type none = false
  other_type (some (str t)) = not (t == "object")
  other_type (some _) = true

  -- `schema.properties ?? {}`: `null` counts as absent.
  abbrev pub properties_of : Option (Json N) → Option (Dict (Json N))
  properties_of none = some []
  properties_of (some null) = some []
  properties_of (some v) = is_obj v

  unfoldable pub unsupported_schema_reasons : Json N → List String
  unfolding properties_reasons required_reasons is_obj is_array
  unsupported_schema_reasons v = elim (is_obj v) [
    | none ↦ "root: type must be \"object\"" ∷ []
    | some schema ↦
        if other_type (get "type" schema)
        then "root: type must be \"object\"" ∷ []
        else elim (properties_of (get "properties" schema)) [
          | none ↦ "root: properties must be an object" ∷ []
          | some props ↦
              properties_reasons props
              ++ required_reasons props (default (is_array (get "required" schema)) [])
        ]
  ]

  unfoldable pub check_field : List String → Dict (Json N) → String → Prop N → Verdict N → Verdict N
  unfolding check_value is_empty look_up
  check_field required content key p w =
      if is_empty (look_up key content)
      then (if includes key required then record w { errors = set key "required" w.errors } else w)
      else elim (look_up key content) [
        | none ↦ w
        | some v ↦ elim (check_value host p v) [
          | some err ↦ record w { errors = set key err w.errors }
          | none ↦ record w { content = set key v w.content }
        ]
      ]

  unfoldable pub check_fields : List String → Dict (Json N) → Dict (Prop N) → Verdict N → Verdict N
  unfolding check_field
  check_fields required content [] w = w
  check_fields required content ((key, p) ∷ props) w =
      check_fields required content props (check_field required content key p w)

  unfoldable pub validate_elicitation_content :
      ElicitationSchema N → Json N → ElicitationValidation N
  unfolding check_fields known_fields keys is_obj
  validate_elicitation_content schema v = elim (is_obj v) [
    | none ↦ invalid (("_", "content must be an object") ∷ [])
    | some content ↦
        let props : Dict (Prop N) = default schema.properties [] in
        settled (
          check_fields (default schema.required []) content props
            (record { errors = known_fields props (keys content) []; content = [] }))
  ]
