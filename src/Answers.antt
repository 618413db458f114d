-- ===== src/Answers.antt =====
-- packages/transport-matrix/src/transport.ts, the handlers of answers to elicitations, with
-- `parseElicitationResponse` of elicitation-events.ts. An answer waits for the members of the room:
-- what is read before the wait comes from the worlds `before` and `checked`, and what follows it
-- acts on `after`, which whatever else ran in between has made. What the correlator keeps as texts
-- is read by `schema_of` and written by `dump`.
pub mod Stock
pub mod Kept
pub mod Eligible
pub mod Replies
pub mod Warranted
mod Tests
use zooid.Dict.{Dict, delete, get}
use zooid.Elicitation.{
  ElicitationCorrelator, ElicitationResponse, PendingElicitation, accept, find_pending, settle,
}
use zooid.Events.{opt_is, truthy}
use zooid.Forms.{ElicitationSchema, invalid, valid, validate_elicitation_content}
use zooid.Json.{Json, as_text, end, obj}
use zooid.Prelude.{
  Bool, List, Option, String, [], default, false, if◌then◌else◌, includes, inl, inr, is_some, map,
  non_empty, none, not, some, ◌&&◌, ◌++◌, ◌==◌, ◌>>=◌, ◌∷◌, ◌⊎◌,
}
use zooid.Questions.{EnumField}
use zooid.Schemas.{Host, object_at}
use zooid.Texts.{concat, join}

pub record MatrixEvent (N : Type 0) : Type 0 where
  pub event_id : Option String
  pub room_id : Option String
  pub sender : Option String
  pub content : Dict (Json N)

-- What the handlers are given by the rest of the transport.
pub record Site (N : Type 0) : Type 0 where
  pub host : Host N
  pub parse_json : String → Option (Json N)
  pub schema_of : String → ElicitationSchema N
  pub dump : Dict (Json N) → String
  pub is_agent : String → Bool
  pub binding_for : (agent_name : String) → Option String
  pub first_agent_for_room : String → Option String

pub record ElicitationMeta : Type 0 where
  pub room_id : String
  pub thread_root : String
  pub as_user_id : String
  pub base_body : String
  pub notice_event_id : Option String
  pub reaction : Option EnumField

pub data Reason : Type 0 where
  invalid_answer stale : Reason

pub data Sent : Type 0 where
  rejected_event :
      (as_user_id room_id request_id response_event_id : String)
      → Reason
      → (errors : Dict String) → Sent
  info_notice :
      (as_user_id room_id : String) → (thread_root : Option String) → (body : String) → Sent
  notice_edit : (as_user_id room_id notice_event_id body : String) → Sent

pub record World : Type 0 where
  pub elicitations : ElicitationCorrelator
  pub by_event : Dict String
  pub metas : Dict ElicitationMeta
  pub sent : List Sent

pub data Reply (N : Type 0) : Type 0 where
  accepting : Json N → Reply N
  declining cancelling : Reply N

pub record ParsedElicitationResponse (N : Type 0) : Type 0 where
  pub request_id : String
  pub request_event_id : String
  pub reply : Reply N
  pub thread_root : String

-- `Object.hasOwn(joined, sender)`; a failed check lets nobody answer.
abbrev pub is_member : Option (List String) → String → Bool
is_member none sender = false
is_member (some joined) sender = includes sender joined

abbrev pub is_open : String → ElicitationCorrelator → Bool
is_open id c = is_some (find_pending id c)

module _ {N : Type 0} where
  -- `m.relates_to` of a type, with its target.
  unfoldable pub related : String → Dict (Json N) → Option String
  related rel_type c = elim (object_at (get "m.relates_to" c)) [
    | none ↦ none
    | some rel ↦
        if opt_is (as_text (get "rel_type" rel)) rel_type
        then non_empty (as_text (get "event_id" rel))
        else none
  ]

  unfoldable pub reply_of : Dict (Json N) → Option (Reply N)
  reply_of c = elim (as_text (get "action" c)) [
    | none ↦ none
    | some a ↦
        if a == "accept"
        then some (accepting (default (get "content" c) (obj end)))
        else if a == "decline"
        then some declining
        else if a == "cancel"
        then some cancelling
        else none
  ]

  unfoldable pub parse_elicitation_response : Dict (Json N) → Option (ParsedElicitationResponse N)
  unfolding related reply_of
  parse_elicitation_response c = do
    root ← related "m.thread" c
    id ← as_text (get "request_id" c)
    event ← as_text (get "request_event_id" c)
    reply ← reply_of c
    some (record { request_id = id; request_event_id = event; reply = reply; thread_root = root })

-- `forgetApproval` and `forgetElicitation` walk their map of events.
unfoldable pub forget_events : String → Dict String → Dict String
forget_events id [] = []
forget_events id ((event, i) ∷ m) =
    if i == id then forget_events id m else (event, i) ∷ forget_events id m

unfoldable pub forget_elicitation : String → World → World
unfolding forget_events
forget_elicitation id w = record w {
  metas = delete id w.metas;
  by_event = forget_events id w.by_event;
}

-- `formatElicitationErrors`.
unfoldable pub format_elicitation_errors : Dict String → String
unfolding join
format_elicitation_errors errors = join "; " (map (λ e. concat (e.0 ∷ ": " ∷ e.1 ∷ [])) errors)

module _ {N : Type 0} (site : Site N) where
  abbrev pub post : Sent → World → World
  post s w = record w { sent = w.sent ++ s ∷ [] }

  unfoldable pub send_elicitation_rejected :
      PendingElicitation → String → Reason → Dict String → World → World
  send_elicitation_rejected r response_event_id reason errors w =
      elim (site.binding_for r.agent_name) [
        | none ↦ w
        | some user_id ↦
            post (rejected_event user_id r.room_id r.request_id response_event_id reason errors) w
      ]

  unfoldable pub edit_elicitation_notice : String → String → World → World
  edit_elicitation_notice id suffix w = elim (get id w.metas) [
    | none ↦ w
    | some m ↦ elim m.notice_event_id [
      | none ↦ w
      | some notice ↦
          if notice == ""
          then w
          else post
              (notice_edit m.as_user_id m.room_id notice
                (concat (m.base_body ∷ "\n\n" ∷ suffix ∷ [])))
              w
    ]
  ]

  unfoldable pub post_elicitation_info : Option String → Option String → String → World → World
  post_elicitation_info room thread_root body w =
      if not (truthy room) then w else elim (site.first_agent_for_room (default room "")) [
        | none ↦ w
        | some user_id ↦ post (info_notice user_id (default room "") thread_root body) w
      ]

  -- The response that a reply stands for, or the errors of its content.
  unfoldable pub read_reply : PendingElicitation → Reply N → Dict String ⊎ ElicitationResponse
  unfolding validate_elicitation_content
  read_reply r (accepting v) =
      elim (validate_elicitation_content site.host (site.schema_of r.requested_schema) v) [
        | invalid errors ↦ inl errors
        | valid out ↦ inr (accept (site.dump out))
      ]
  read_reply r declining = inr ElicitationResponse.decline
  read_reply r cancelling = inr ElicitationResponse.cancel

  -- `!elicitations.settle(…)`: the first eligible response wins, and the rest are stale.
  unfoldable pub settle_or_stale :
      PendingElicitation
      → ElicitationResponse
      → (sender event_id : String) → (lost : World → World) → World
      → World
  unfolding settle send_elicitation_rejected
  settle_or_stale r response sender event_id lost w =
      let (c, won) = settle r.request_id response (some sender) (some event_id) w.elicitations in
      if won
      then record w { elicitations = c }
      else lost (send_elicitation_rejected r event_id stale [] w)

  -- `handleElicitationResponse` after the check of membership.
  unfoldable pub conclude_response :
      PendingElicitation → Reply N → (sender event_id : String) → World → World
  unfolding settle_or_stale send_elicitation_rejected read_reply
  conclude_response r reply sender event_id w =
      if not (is_open r.request_id w.elicitations)
      then send_elicitation_rejected r event_id stale [] w
      else elim (read_reply r reply) [
        | inl errors ↦
            if is_open r.request_id w.elicitations
            then send_elicitation_rejected r event_id invalid_answer errors w
            else send_elicitation_rejected r event_id stale [] w
        | inr response ↦ settle_or_stale r response sender event_id (λ w. w) w
      ]

  abbrev pub concerns : PendingElicitation → String → ParsedElicitationResponse N → Bool
  concerns r room_id p =
      r.room_id == room_id
      && r.thread_root == p.thread_root
      && opt_is r.request_event_id p.request_event_id

  abbrev pub may_answer : Option (List String) → PendingElicitation → String → Bool
  may_answer joined r sender = is_some (site.binding_for r.agent_name) && is_member joined sender

  -- What the handler reads before it waits: the record, the reply, the sender and the event.
  unfoldable pub eligible_response :
      MatrixEvent N
      → Option (List String)
      → World
      → Option (PendingElicitation × Reply N × String × String)
  unfolding parse_elicitation_response
  eligible_response evt joined before = do
    p ← parse_elicitation_response evt.content
    sender ← non_empty evt.sender
    event_id ← non_empty evt.event_id
    room_id ← non_empty evt.room_id
    if site.is_agent sender
        then none
        else get p.request_id before.elicitations.entries >>= λ r.
            if concerns r room_id p && may_answer joined r sender
            then some (r, p.reply, sender, event_id)
            else none

  unfoldable pub handle_elicitation_response :
      MatrixEvent N → Option (List String) → (before after : World) → World
  unfolding eligible_response conclude_response
  handle_elicitation_response evt joined before after = elim (eligible_response evt joined before) [
    | none ↦ after
    | some (r, reply, sender, event_id) ↦ conclude_response r reply sender event_id after
  ]
