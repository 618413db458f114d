-- ===== src/Answers/Tests.antt =====
-- A question in a thread, answers to it by the three ways, and the theorem at them.
use zooid.Answers.{
  MatrixEvent, Site, World, handle_elicitation_response, invalid_answer, rejected_event,
}
use zooid.Answers.Stock.{handle_elicitation_reaction, maybe_handle_elicitation_message}
use zooid.Answers.Warranted.{ByCommand, ByReaction, ByReply, Warranted, answers-Warranted}
use zooid.Dict.{Dict, get, set}
use zooid.Elicitation.{
  ElicitationCorrelator, RegisterElicitationInput, State, accepted, attach_request_event, closed,
  declined, evict, finish, init, pending, register, settle,
}
use zooid.Elicitation.Bounded.{init-Sound, step-Sound}
use zooid.Elicitation.Step.{attaches, registers, step}
use zooid.Elicitation.Valid.{Valid}
use zooid.Json.{Json, as_text, elements, end, field, obj, str}
use zooid.Prelude.{
  List, Option, String, [], default, false, none, refl, some, ℕ, ◌==◌, ◌>>=◌, ◌∷◌, ◌≡◌,
}
use zooid.Questions.Samples.{colour_field, one_colour}
use zooid.Schemas.Samples.{nat_host}
use zooid.Texts.{units}

abbrev site : Site ℕ
site = record {
  host = nat_host;
  parse_json = λ s. none;
  schema_of = λ s. one_colour;
  dump = λ m. default (as_text (get "colour" m)) "";
  is_agent = λ s. s == "@bot:x";
  binding_for = λ a. some "@bot:x";
  first_agent_for_room = λ r. some "@bot:x";
}

abbrev id : String
id = "0aB1c2d3-0000-1111-2222-0123456789ab"

abbrev question : RegisterElicitationInput
question = record {
  agent_name = "coder";
  session_id = "s1";
  session_key = "k1";
  room_id = "!r";
  thread_root = "$t";
  tool_call_id = none;
  message = "Which colour?";
  requested_schema = "{}";
  meta = none;
  aborted = false;
}

abbrev asked : ElicitationCorrelator
asked = step (attaches id "$q") (step (registers id question) (init none))

abbrev world : World
world = record {
  elicitations = asked;
  by_event = ("$q", id) ∷ [];
  metas =
      (
        id,
        record {
          room_id = "!r";
          thread_root = "$t";
          as_user_id = "@bot:x";
          base_body = "Which colour?";
          notice_event_id = none;
          reaction = some colour_field;
        },
      )
      ∷ [];
  sent = [];
}

abbrev from : String → Dict (Json ℕ) → MatrixEvent ℕ
from sender c = record {
  event_id = some "$e";
  room_id = some "!r";
  sender = some sender;
  content = c;
}

abbrev reaction : String → MatrixEvent ℕ
reaction sender = from sender (
    (
      "m.relates_to",
      obj (
          field "rel_type" (str "m.annotation")
            (field "event_id" (str "$q") (field "key" (str "2⃣") end))),
    )
    ∷ [])

abbrev in_thread : Dict (Json ℕ) → Dict (Json ℕ)
in_thread c =
    ("m.relates_to", obj (field "rel_type" (str "m.thread") (field "event_id" (str "$t") end))) ∷ c

abbrev state_of : World → Option State
state_of w = get id w.elicitations.entries >>= λ e. some e.state

abbrev here_too : Option (List String)
here_too = some ("@u:x" ∷ "@bot:x" ∷ [])

reaction_state :
    state_of (handle_elicitation_reaction site (reaction "@u:x") here_too world world world).0
    ≡ some (closed accepted)
unfolding handle_elicitation_reaction get elements settle finish step register attach_request_event
    init set
reaction_state = refl

-- An agent's reaction, and a stranger's.
reaction_refused :
    state_of (handle_elicitation_reaction site (reaction "@bot:x") here_too world world world).0
    ≡ some pending
unfolding handle_elicitation_reaction get elements step register attach_request_event init set
reaction_refused = refl

reaction_stranger :
    state_of (handle_elicitation_reaction site (reaction "@v:x") here_too world world world).0
    ≡ some pending
unfolding handle_elicitation_reaction get elements step register attach_request_event init set
reaction_stranger = refl

decline_state :
    state_of
      (maybe_handle_elicitation_message site
        (from "@u:x"
          (in_thread (("body", str "decline 0aB1c2d3-0000-1111-2222-0123456789ab") ∷ [])))
        here_too
        world
        world
        world).0
    ≡ some (closed declined)
unfolding maybe_handle_elicitation_message get elements settle finish evict step register
    attach_request_event init set
decline_state = refl

abbrev response : MatrixEvent ℕ
response = from "@u:x" (
    in_thread (
      ("request_id", str "0aB1c2d3-0000-1111-2222-0123456789ab")
      ∷ ("request_event_id", str "$q")
      ∷ ("action", str "accept")
      ∷ ("content", obj (field "colour" (str "green") end))
      ∷ []))

invalid_sent :
    (handle_elicitation_response site response here_too world world).sent
    ≡ rejected_event "@bot:x" "!r" id "$e" invalid_answer
        (("colour", "must be one of: red, blue") ∷ [])
      ∷ []
unfolding handle_elicitation_response get elements step register attach_request_event init set units
invalid_sent = refl

world_Valid : Valid world.elicitations
unfolding init get
world_Valid =
    let registered = step-Sound (registers id question) (init none) refl (init-Sound none) in
    (step-Sound (attaches id "$q") (step (registers id question) (init none)) tt registered).valid

answers-Warranted_example :
    Warranted site response here_too world
      (ByReply site response)
      world
      (handle_elicitation_response site response here_too world world)
    × Warranted site response here_too world
        (ByReaction site response world)
        world
        (handle_elicitation_reaction site response here_too world world world).0
    × Warranted site response here_too world
        (ByCommand site response)
        world
        (maybe_handle_elicitation_message site response here_too world world world).0
answers-Warranted_example = answers-Warranted site response here_too world world world world_Valid
