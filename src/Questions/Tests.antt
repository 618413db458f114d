-- ===== src/Questions/Tests.antt =====
-- Commands and reactions, and the theorem at a sample form.
use zooid.Dict.{Dict, get}
use zooid.Forms.{valid, validate_elicitation_content}
use zooid.Json.{Json, arr, cons, elements, end, field, nil, obj, str}
use zooid.Prelude.{[], none, not, refl, some, true, ℕ, ◌&&◌, ◌∷◌, ◌≡◌}
use zooid.Questions.{
  ElicitationAnswerResult, answer, content_from_answer, decline, is_elicitation_request_id,
  parse_elicitation_command, reaction_index, single_enum_field,
}
use zooid.Questions.Choices.{IsPlain, choice_accepted}
use zooid.Questions.Samples.{colour_field, one_colour}
use zooid.Schemas.Fits.{here, there}
use zooid.Schemas.Samples.{colour, nat_host}

read_answer :
    parse_elicitation_command " Answer q1  red, blue "
    ≡ some (record { action = answer; request_id = "q1"; value = some "red, blue" })
unfolding parse_elicitation_command
read_answer = refl

read_decline :
    parse_elicitation_command "decline q1"
    ≡ some (record { action = decline; request_id = "q1"; value = none })
unfolding parse_elicitation_command
read_decline = refl

read_prose : parse_elicitation_command "answering q1 red" ≡ none
unfolding parse_elicitation_command
read_prose = refl

-- The value of white space alone is its last character.
read_blank :
    parse_elicitation_command "answer q1   "
    ≡ some (record { action = answer; request_id = "q1"; value = some " " })
unfolding parse_elicitation_command
read_blank = refl

read_id :
    is_elicitation_request_id "0aB1c2d3-0000-1111-2222-0123456789ab"
      && not (is_elicitation_request_id "question")
    ≡ true
unfolding is_elicitation_request_id
read_id = refl

read_keycap : reaction_index (some "3\u{fe0f}⃣") ≡ some 2
unfolding reaction_index
read_keycap = refl

read_list :
    content_from_answer {N = ℕ}
      (λ s. none)
      (record { properties = some (("c", ("type", str "array") ∷ []) ∷ []); required = none })
      " a, ,b "
    ≡ ElicitationAnswerResult.content (("c", arr (cons (str "a") (cons (str "b") nil))) ∷ [])
unfolding content_from_answer get
read_list = refl

colour_single : single_enum_field one_colour ≡ some colour_field
unfolding single_enum_field get elements
colour_single = refl

colour-IsPlain : IsPlain colour
unfolding get
colour-IsPlain = record { no_min = refl; no_max = refl; no_pattern = refl; no_format = refl }

choice_accepted_example :
    (out : Dict (Json ℕ)) × (validate_elicitation_content nat_host one_colour
        (obj (field "colour" (str "blue") end))
      ≡ valid out)
    × (get "colour" out ≡ some (str "blue"))
choice_accepted_example =
    choice_accepted nat_host none "colour" colour colour_field "blue" colour_single colour-IsPlain
      (there here) refl
