-- ===== src/Schemas.antt =====
-- packages/core/src/elicitation-schema.ts: the choices that a property
-- offers, and which values it accepts. The engine's numbers, regular expressions, URLs and dates are `Host`.
pub mod Fits
pub mod Checks
pub mod Accepts
pub mod Samples
mod Tests
use zooid.Dict.{Dict, get}
use zooid.Formats.{follows, has_code, is_email}
use zooid.Json.{Json, as_number, as_text, bool, is_array, is_obj, texts}
use zooid.Prelude.{
  Bool, List, Option, String, [], any, default, false, if◌then◌else◌, includes, length, none, not,
  some, true, ℕ, ◌&&◌, ◌==◌, ◌||◌, ◌∷◌,
}
use zooid.Texts.{concat, join, units}

-- What JavaScript's engine gives: the numbers, `RegExp`, `URL.canParse`, `Date.parse` and
-- `String`.
pub record Host (N : Type 0) : Type 0 where
  pub lt : N → N → Bool
  pub is_finite : N → Bool
  pub is_integer : N → Bool
  pub of_count : ℕ → N
  pub show : N → String
  pub show_value : Option (Json N) → String
  pub reg_exp : String → Option (String → Bool)
  pub can_parse : String → Bool
  pub is_date : String → Bool

abbrev pub Prop : Type 0 → Type 0
Prop N = Dict (Json N)

abbrev pub misses : Option (List String) → String → Bool
misses none v = false
misses (some choices) v = not (includes v choices)

-- `new Set(v).size !== v.length`.
unfoldable pub repeats : List String → Bool
repeats [] = false
repeats (s ∷ ss) = includes s ss || repeats ss

module _ {N : Type 0} where
  abbrev const_of : Option (Dict (Json N)) → Option String
  const_of none = none
  const_of (some o) = as_text (get "const" o)

  unfoldable pub consts : List (Json N) → List String
  unfolding is_obj
  consts [] = []
  consts (x ∷ xs) = elim (const_of (is_obj x)) [ none ↦ consts xs | some s ↦ s ∷ consts xs ]

  unfoldable pub choices_of : Prop N → Option (List String)
  unfolding consts texts is_array
  choices_of p = elim (is_array (get "enum" p)) [
    | some xs ↦ some (texts xs)
    | none ↦ elim (is_array (get "oneOf" p)) [ some xs ↦ some (consts xs) | none ↦ none ]
  ]

  -- The object under a key, if it is one.
  abbrev pub object_at : Option (Json N) → Option (Dict (Json N))
  object_at none = none
  object_at (some v) = is_obj v

  unfoldable pub is_type : String → Prop N → Bool
  is_type t p = elim (as_text (get "type" p)) [ none ↦ false | some s ↦ s == t ]

  abbrev item_enum : Prop N → Option (List String)
  item_enum items = elim (is_array (get "enum" items)) [
    | some xs ↦ if is_type "string" items then some (texts xs) else none
    | none ↦ none
  ]

  unfoldable pub item_choices_of : Prop N → Option (List String)
  unfolding consts texts is_array is_type is_obj
  item_choices_of p = elim (object_at (get "items" p)) [
    | none ↦ none
    | some items ↦ elim (is_array (get "anyOf" items)) [
      | some xs ↦ some (consts xs)
      | none ↦ item_enum items
    ]
  ]

  -- `v` where every element is a text.
  unfoldable pub all_texts : List (Json N) → Option (List String)
  all_texts [] = some []
  all_texts (x ∷ xs) = elim (as_text (some x)) [
    | none ↦ none
    | some s ↦ elim (all_texts xs) [ none ↦ none | some ss ↦ some (s ∷ ss) ]
  ]

  -- The elements of a list of texts.
  abbrev pub as_texts : Option (Json N) → Option (List String)
  as_texts v = elim (is_array v) [ none ↦ none | some xs ↦ all_texts xs ]

  unfoldable pub check_boolean : Json N → Option String
  check_boolean (bool b) = none
  check_boolean _ = some "must be true or false"

module _ {N : Type 0} (host : Host N) where
  -- `FORMAT`. A name of `Object.prototype` is not met here: `unsupportedSchemaReasons` turns it away.
  unfoldable pub format_test : String → Option (String → Bool)
  unfolding is_email follows has_code
  format_test f =
      if f == "email"
      then some is_email
      else if f == "uri"
      then some host.can_parse
      else if f == "date"
      then some (λ v. follows "dddd-dd-dd" v && host.is_date v)
      else if f == "date-time"
      then some (λ v. has_code b'T' v && host.is_date v)
      else none

  -- `typeof m === 'number' && v < m`, and `v > m`.
  abbrev pub under : Option N → N → Bool
  under none v = false
  under (some m) v = host.lt v m

  abbrev pub over : Option N → N → Bool
  over none v = false
  over (some m) v = host.lt m v

  abbrev shown : Option N → String
  shown none = ""
  shown (some m) = host.show m

  -- An invalid pattern accepts nothing.
  abbrev tested : Option (String → Bool) → String → Bool
  tested none v = false
  tested (some test) v = test v

  abbrev pub breaks_pattern : Option String → String → Bool
  breaks_pattern none v = false
  breaks_pattern (some pattern) v = not (tested (host.reg_exp pattern) v)

  abbrev refused_by : Option (String → Bool) → String → Bool
  refused_by none v = false
  refused_by (some test) v = not (test v)

  abbrev pub breaks_format : Option String → String → Bool
  breaks_format none v = false
  breaks_format (some f) v = refused_by (format_test f) v

  unfoldable pub check_text : Prop N → String → Option String
  unfolding choices_of format_test units join
  check_text p v =
      let size = host.of_count (units v) in
      if misses (choices_of p) v
      then some (concat ("must be one of: " ∷ join ", " (default (choices_of p) []) ∷ []))
      else if under (as_number (get "minLength" p)) size
      then some (
          concat ("must be at least " ∷ shown (as_number (get "minLength" p)) ∷ " characters" ∷ []))
      else if over (as_number (get "maxLength" p)) size
      then some
          (concat ("must be at most " ∷ shown (as_number (get "maxLength" p)) ∷ " characters" ∷ []))
      else if breaks_pattern (as_text (get "pattern" p)) v
      then some "has the wrong format"
      else if breaks_format (as_text (get "format" p)) v
      then some (concat ("must be a valid " ∷ default (as_text (get "format" p)) "" ∷ []))
      else none

  unfoldable pub check_number : Prop N → (whole : Bool) → Option (Json N) → Option String
  check_number p whole v =
      let label : String = if whole then "must be an integer" else "must be a number" in
      elim (as_number v) [
        | none ↦ some label
        | some n ↦
            if not (host.is_finite n)
            then some label
            else if whole && not (host.is_integer n)
            then some label
            else if under (as_number (get "minimum" p)) n
            then some (concat ("must be ≥ " ∷ shown (as_number (get "minimum" p)) ∷ []))
            else if over (as_number (get "maximum" p)) n
            then some (concat ("must be ≤ " ∷ shown (as_number (get "maximum" p)) ∷ []))
            else none
      ]

  unfoldable pub check_items : Prop N → List String → Option String
  unfolding item_choices_of join repeats
  check_items p v =
      let choices : List String = default (item_choices_of p) [] in
      let size = host.of_count (length v) in
      if any (λ x. not (includes x choices)) v
      then some (concat ("must only contain: " ∷ join ", " choices ∷ []))
      else if repeats v
      then some "must not repeat a choice"
      else if under (as_number (get "minItems" p)) size
      then some (concat ("choose at least " ∷ shown (as_number (get "minItems" p)) ∷ []))
      else if over (as_number (get "maxItems" p)) size
      then some (concat ("choose at most " ∷ shown (as_number (get "maxItems" p)) ∷ []))
      else none

  unfoldable pub check_string : Prop N → Json N → Option String
  unfolding check_text
  check_string p v = elim (as_text (some v)) [
    | none ↦ some "must be text"
    | some s ↦ check_text p s
  ]

  unfoldable pub check_array : Prop N → Json N → Option String
  unfolding check_items all_texts is_array
  check_array p v = elim (as_texts (some v)) [
    | none ↦ some "must be a list of choices"
    | some ss ↦ check_items p ss
  ]

  unfoldable pub check_value : Prop N → Json N → Option String
  unfolding check_string check_number check_array is_type
  check_value p v =
      if is_type "string" p
      then check_string p v
      else if is_type "integer" p
      then check_number p true (some v)
      else if is_type "number" p
      then check_number p false (some v)
      else if is_type "boolean" p
      then check_boolean v
      else if is_type "array" p
      then check_array p v
      else some "unsupported field"
