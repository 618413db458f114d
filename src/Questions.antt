-- ===== src/Questions.antt =====
-- packages/transport-matrix/src/elicitation-commands.ts, and the reading of an answer's event from
-- elicitation-events.ts: from an interaction of a client to a form's answer. `JSON.parse` is the
-- argument `parse_json`. A regular expression is a scanner over the text.
pub mod Choices
pub mod Samples
mod Tests
use Prim.Native.Char.{code}
use zooid.Commands.{blank, normalise_reaction_key, starts_with, strip_word, token}
use zooid.Dict.{Dict, get}
use zooid.Forms.{ElicitationSchema}
use zooid.Json.{Json, arr, as_text, is_obj, items_of, str}
use zooid.Prelude.{
  Bool, List, Option, String, [], default, false, filter, if◌then◌else◌, includes, leb, length, ltb,
  map, none, not, some, ℕ, ◌&&◌, ◌==◌, ◌||◌, ◌∷◌,
}
use zooid.Schemas.{Prop, choices_of}
use zooid.Texts.{eqb, is_space, trim, trim_start}

pub data ElicitationAction : Type 0 where
  answer decline cancel : ElicitationAction

pub record ParsedElicitationCommand : Type 0 where
  pub action : ElicitationAction
  pub request_id : String
  pub value : Option String

-- A run of `\S`, and what follows it.
unfoldable pub word : String → String × String
unfolding is_space
word String.[] = ("", "")
word (String.◌∷◌ c s) =
    let (w, rest) = word s in
    if is_space (code c) then ("", String.◌∷◌ c s) else (String.◌∷◌ c w, rest)

-- `\s+` at the head of a text.
unfoldable pub spaced : String → Bool
unfolding is_space
spaced String.[] = false
spaced (String.◌∷◌ c s) = is_space (code c)

-- The last character of a text of two or more.
unfoldable pub last_of_many : String → Option String
last_of_many String.[] = none
last_of_many (String.◌∷◌ c String.[]) = none
last_of_many (String.◌∷◌ c (String.◌∷◌ d String.[])) = some (String.◌∷◌ d "")
last_of_many (String.◌∷◌ c (String.◌∷◌ d (String.◌∷◌ e s))) =
    last_of_many (String.◌∷◌ d (String.◌∷◌ e s))

-- `\s+([\s\S]+?)\s*$`: after white space the text without its end's; of white space alone, the last
-- character, if another comes before it.
unfoldable pub value_after : String → Option String
unfolding spaced trim last_of_many
value_after s =
    if not (spaced s) then none else if trim s == "" then last_of_many s else some (trim s)

-- `ANSWER_RE` after its word.
unfoldable pub answer_after : String → Option ParsedElicitationCommand
unfolding word spaced trim_start value_after
answer_after s =
    if not (spaced s)
    then none
    else let (id, rest) = word (trim_start s) in
      if id == "" then none else elim (value_after rest) [
        | none ↦ none
        | some v ↦ some (record { action = answer; request_id = id; value = some v })
      ]

-- `DECISION_RE` after its word.
unfoldable pub decision_after : ElicitationAction → String → Option ParsedElicitationCommand
unfolding word spaced trim_start blank
decision_after action s =
    if not (spaced s)
    then none
    else let (id, rest) = word (trim_start s) in
      if id == ""
      then none
      else if blank rest
      then some (record { action = action; request_id = id; value = none })
      else none

abbrev else_decision : String → Option ParsedElicitationCommand
else_decision s = elim (strip_word "decline" s) [
  | some rest ↦ decision_after decline rest
  | none ↦ elim (strip_word "cancel" s) [ some rest ↦ decision_after cancel rest | none ↦ none ]
]

unfoldable pub parse_elicitation_command : String → Option ParsedElicitationCommand
unfolding answer_after decision_after strip_word trim_start
parse_elicitation_command body =
    let s = trim_start body in
    elim (strip_word "answer" s) [ some rest ↦ answer_after rest | none ↦ else_decision s ]

abbrev is_hex : ℕ → Bool
is_hex c = leb b'0' c && leb c b'9' || leb b'a' c && leb c b'f' || leb b'A' c && leb c b'F'

-- A shape of hexadecimal digits (`x`) and other characters that stand for themselves.
unfoldable pub has_shape : String → String → Bool
has_shape String.[] s = s == ""
has_shape (String.◌∷◌ p ps) String.[] = false
has_shape (String.◌∷◌ p ps) (String.◌∷◌ c s) =
    (if eqb (code p) b'x' then is_hex (code c) else eqb (code p) (code c)) && has_shape ps s

unfoldable pub is_elicitation_request_id : String → Bool
unfolding has_shape
is_elicitation_request_id token = has_shape "xxxxxxxx-xxxx-xxxx-xxxx-xxxxxxxxxxxx" token

pub record ElicitationField : Type 0 where
  pub name : String
  pub type : String
  pub required : Bool
  pub choices : Option (List String)

pub record EnumField : Type 0 where
  pub name : String
  pub choices : List String

pub data ElicitationAnswerResult (N : Type 0) : Type 0 where
  content : (answers : Dict (Json N)) → ElicitationAnswerResult N
  unreadable : (error : String) → ElicitationAnswerResult N

-- `type === 'string' && choices` of one to nine.
abbrev pub enum_of : ElicitationField → Option EnumField
enum_of f =
    if f.type == "string"
    then (elim f.choices [
      | none ↦ none
      | some cs ↦
          if ltb (length cs) 1 || ltb 9 (length cs)
          then none
          else some (record { name = f.name; choices = cs })
    ])
    else none

module _ {N : Type 0} where
  unfoldable pub fields_of : List String → Dict (Prop N) → List ElicitationField
  unfolding choices_of
  fields_of required [] = []
  fields_of required ((name, p) ∷ props) =
      record {
        name = name;
        type = default (as_text (get "type" p)) "unknown";
        required = includes name required;
        choices = choices_of p;
      }
      ∷ fields_of required props

  unfoldable pub elicitation_fields : ElicitationSchema N → List ElicitationField
  unfolding fields_of
  elicitation_fields schema = fields_of (default schema.required []) (default schema.properties [])

  unfoldable pub single_enum_field : ElicitationSchema N → Option EnumField
  unfolding elicitation_fields
  single_enum_field schema = elim (elicitation_fields schema) [
    | [] ↦ none
    | f ∷ fs ↦ elim fs [ [] ↦ enum_of f | _ ↦ none ]
  ]

-- The pieces of a text between its commas.
unfoldable pub commas : String → List String
commas String.[] = "" ∷ []
commas (String.◌∷◌ c s) = elim (commas s) [
  | [] ↦ []
  | piece ∷ pieces ↦ if eqb (code c) b',' then "" ∷ piece ∷ pieces else String.◌∷◌ c piece ∷ pieces
]

module _ {N : Type 0} (parse_json : String → Option (Json N)) where
  unfoldable pub coerce_scalar : String → String → Json N
  coerce_scalar raw type =
      if type == "number" || type == "integer" || type == "boolean"
      then default (parse_json raw) (str raw)
      else str raw

  abbrev object_answer : String → ElicitationAnswerResult N
  object_answer trimmed = elim (parse_json trimmed) [
    | none ↦ unreadable "could not parse the JSON answer"
    | some v ↦ elim (is_obj v) [
      | none ↦ unreadable "the JSON answer must be an object"
      | some o ↦ content o
    ]
  ]

  abbrev field_answer : ElicitationField → String → ElicitationAnswerResult N
  field_answer f trimmed =
      if f.type == "array"
      then content
          ((f.name, arr (items_of (filter (λ v. not (v == "")) (map trim (commas trimmed))))) ∷ [])
      else content ((f.name, coerce_scalar trimmed f.type) ∷ [])

  unfoldable pub content_from_answer : ElicitationSchema N → String → ElicitationAnswerResult N
  unfolding elicitation_fields coerce_scalar trim is_obj commas starts_with
  content_from_answer schema raw =
      let trimmed = trim raw in
      if starts_with "{" trimmed then object_answer trimmed else elim (elicitation_fields schema) [
        | [] ↦ unreadable "this question takes no fields"
        | f ∷ fs ↦ elim fs [
          | [] ↦ field_answer f trimmed
          | _ ↦
              unreadable
                "this form has multiple fields — answer with JSON, e.g. {\"field\":\"value\"}"
        ]
      ]

-- `KEYCAP_REACTIONS`, by the digit before U+20E3.
abbrev keycap : String → Option ℕ
keycap key =
    if key == "1⃣"
    then some 0
    else if key == "2⃣"
    then some 1
    else if key == "3⃣"
    then some 2
    else if key == "4⃣"
    then some 3
    else if key == "5⃣"
    then some 4
    else if key == "6⃣"
    then some 5
    else if key == "7⃣"
    then some 6
    else if key == "8⃣"
    then some 7
    else if key == "9⃣"
    then some 8
    else none

unfoldable pub reaction_index : Option String → Option ℕ
unfolding normalise_reaction_key
reaction_index key = keycap (normalise_reaction_key (default key ""))
