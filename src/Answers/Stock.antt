-- ===== src/Answers/Stock.antt =====
-- packages/transport-matrix/src/transport.ts: answers to elicitations from a stock client, by a reaction
-- or by a command in the thread. A command is looked up in `before`, the guard reads `checked`, and
-- what follows the wait for the members acts on `after`.
use zooid.Answers.{
  ElicitationMeta, MatrixEvent, Site, World, edit_elicitation_notice, format_elicitation_errors,
  invalid_answer, is_open, may_answer, post_elicitation_info, related, send_elicitation_rejected,
  stale,
}
use zooid.Dict.{Dict, get}
use zooid.Elicitation.{ElicitationResponse, PendingElicitation, accept, settle}
use zooid.Events.{opt_is, truthy}
use zooid.Forms.{invalid, valid, validate_elicitation_content}
use zooid.Json.{Json, as_text, coalesce, end, field, fields_from, obj, str}
use zooid.Prelude.{
  Bool, List, Option, String, [], default, false, if◌then◌else◌, non_empty, none, not, some, suc,
  true, zero, ℕ, ◌&&◌, ◌>>=◌, ◌∷◌,
}
use zooid.Questions.{
  ElicitationAnswerResult, ParsedElicitationCommand, answer, cancel, content_from_answer, decline,
  is_elicitation_request_id, parse_elicitation_command, reaction_index, unreadable,
}
use zooid.Schemas.{object_at}
use zooid.Texts.{concat}

module _ {N : Type 0} (site : Site N) where
  abbrev pub in_scope :
      MatrixEvent N → Option (List String) → PendingElicitation → ElicitationMeta → String → Bool
  in_scope evt joined r m sender =
      opt_is evt.room_id r.room_id
      && opt_is evt.room_id m.room_id
      && may_answer site joined r sender

  unfoldable pub guard_elicitation_answer :
      MatrixEvent N → String → Option (List String) → World → Option (PendingElicitation × String)
  guard_elicitation_answer evt id joined checked = do
    sender ← non_empty evt.sender
    r ← (if site.is_agent sender then none else get id checked.elicitations.entries)
    m ← get id checked.metas
    (if in_scope evt joined r m sender then some (r, sender) else none)

  unfoldable pub finish_elicitation :
      MatrixEvent N → String → PendingElicitation → ElicitationResponse → World → World
  unfolding send_elicitation_rejected edit_elicitation_notice settle
  finish_elicitation evt id r response w =
      let late : World =
        edit_elicitation_notice site id "This question is no longer open."
          (send_elicitation_rejected site r (default evt.event_id "") stale [] w) in
      if not (truthy evt.event_id)
      then w
      else if not (is_open id w.elicitations)
      then late
      else let (c, won) = settle id response evt.sender evt.event_id w.elicitations in
        if won then record w { elicitations = c } else late

  unfoldable pub reject_elicitation_invalid :
      String → PendingElicitation → String → Dict String → String → World → World
  unfolding send_elicitation_rejected edit_elicitation_notice
  reject_elicitation_invalid id r event_id errors suffix w =
      if is_open id w.elicitations
      then edit_elicitation_notice site id suffix
          (send_elicitation_rejected site r event_id invalid_answer errors w)
      else send_elicitation_rejected site r event_id stale [] w

  -- The end of both handlers: the content is validated, and settles the question or is rejected.
  unfoldable pub submit : MatrixEvent N → String → PendingElicitation → Json N → World → World
  unfolding finish_elicitation reject_elicitation_invalid validate_elicitation_content
  submit evt id r v w =
      elim (validate_elicitation_content site.host (site.schema_of r.requested_schema) v) [
        | invalid errors ↦
            reject_elicitation_invalid id r (default evt.event_id "") errors
              (concat ("⚠\u{fe0f} " ∷ format_elicitation_errors errors ∷ [])) w
        | valid out ↦ finish_elicitation evt id r (accept (site.dump out)) w
      ]

  abbrev pub from_agent : MatrixEvent N → Bool
  from_agent evt = elim (non_empty evt.sender) [ none ↦ false | some s ↦ site.is_agent s ]

  abbrev pub choice_at : ℕ → List String → Option String
  choice_at i [] = none
  choice_at zero (c ∷ cs) = some c
  choice_at (suc i) (c ∷ cs) = choice_at i cs

  -- What a reaction answers: the question, the field and the choice.
  unfoldable pub reaction_target : MatrixEvent N → World → Option (String × String × String)
  unfolding related reaction_index
  reaction_target evt before = do
    target ← related "m.annotation" evt.content
    rel ← object_at (get "m.relates_to" evt.content)
    i ← reaction_index (as_text (coalesce (get "key" evt.content) (get "key" rel)))
    id ← (if from_agent evt then none else non_empty (get target before.by_event))
    m ← get id before.metas
    f ← m.reaction
    choice ←
        (if opt_is evt.room_id m.room_id && truthy evt.event_id
          then choice_at i f.choices
          else none)
    some (id, f.name, choice)

  unfoldable pub handle_elicitation_reaction :
      MatrixEvent N → Option (List String) → (before checked after : World) → World × Bool
  unfolding reaction_target guard_elicitation_answer submit
  handle_elicitation_reaction evt joined before checked after = elim (reaction_target evt before) [
    | none ↦ (after, false)
    | some (id, name, choice) ↦ elim (guard_elicitation_answer evt id joined checked) [
      | none ↦ (after, true)
      | some (r, sender) ↦ (submit evt id r (obj (field name (str choice) end)) after, true)
    ]
  ]

  abbrev answer_or_reject :
      MatrixEvent N → String → PendingElicitation → ElicitationAnswerResult N → World → World
  answer_or_reject evt id r (unreadable error) w =
      reject_elicitation_invalid id r (default evt.event_id "") (("_", error) ∷ [])
        (concat ("⚠\u{fe0f} " ∷ error ∷ [])) w
  answer_or_reject evt id r (ElicitationAnswerResult.content answers) w =
      submit evt id r (obj (fields_from answers)) w

  unfoldable pub perform :
      MatrixEvent N → ParsedElicitationCommand → PendingElicitation → World → World
  unfolding finish_elicitation content_from_answer submit reject_elicitation_invalid
  perform evt command r w = elim command.action [
    | answer ↦
        answer_or_reject evt command.request_id r
          (content_from_answer site.parse_json (site.schema_of r.requested_schema)
            (default command.value ""))
          w
    | decline ↦ finish_elicitation evt command.request_id r ElicitationResponse.decline w
    | cancel ↦ finish_elicitation evt command.request_id r ElicitationResponse.cancel w
  ]

  -- The command that a message holds: only a token of an id's shape counts, and no agent's.
  unfoldable pub command_of : MatrixEvent N → Option ParsedElicitationCommand
  unfolding parse_elicitation_command is_elicitation_request_id
  command_of evt = do
    command ←
        (if truthy evt.event_id
          then parse_elicitation_command (default (as_text (get "body" evt.content)) "")
          else none)
    if is_elicitation_request_id command.request_id && not (from_agent evt)
        then some command
        else none

  unfoldable pub guarded_command :
      MatrixEvent N
      → ParsedElicitationCommand
      → Option (List String)
      → PendingElicitation
      → (before checked after : World) → World
  unfolding related guard_elicitation_answer perform post_elicitation_info send_elicitation_rejected
  guarded_command evt command joined r before checked after =
      if not (opt_is evt.room_id r.room_id && opt_is (related "m.thread" evt.content) r.thread_root)
      then post_elicitation_info site evt.room_id (related "m.thread" evt.content)
          (concat (
            "Question `" ∷ command.request_id
            ∷ "` is not open in this thread — reply in the question's thread." ∷ []))
          after
      else elim (get command.request_id before.metas) [
        | none ↦ send_elicitation_rejected site r (default evt.event_id "") stale [] after
        | some m ↦ elim (guard_elicitation_answer evt command.request_id joined checked) [
          | none ↦ after
          | some (guarded, sender) ↦ perform evt command guarded after
        ]
      ]

  unfoldable pub maybe_handle_elicitation_message :
      MatrixEvent N → Option (List String) → (before checked after : World) → World × Bool
  unfolding command_of guarded_command post_elicitation_info related
  maybe_handle_elicitation_message evt joined before checked after = elim (command_of evt) [
    | none ↦ (after, false)
    | some command ↦ elim (get command.request_id before.elicitations.entries) [
      | none ↦ (
        post_elicitation_info site evt.room_id (related "m.thread" evt.content)
            (concat ("No open question `" ∷ command.request_id ∷ "`." ∷ [])) after,
        true,
      )
      | some r ↦ (guarded_command evt command joined r before checked after, true)
    ]
  ]
