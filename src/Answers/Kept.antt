-- ===== src/Answers/Kept.antt =====
-- packages/transport-matrix/src/transport.ts: what posts and edits leave alone, and how a handler settles a question.
use zooid.Answers.{
  MatrixEvent, Reason, Reply, Site, World, accepting, cancelling, declining,
  edit_elicitation_notice, format_elicitation_errors, invalid_answer, is_open,
  post_elicitation_info, send_elicitation_rejected, stale,
}
use zooid.Answers.Stock.{finish_elicitation, perform, reject_elicitation_invalid, submit}
use zooid.Dict.{Dict}
use zooid.Elicitation.{
  ElicitationCorrelator, ElicitationResponse, PendingElicitation, accept, settle,
}
use zooid.Events.{truthy}
use zooid.Forms.{ElicitationValidation, invalid, valid, validate_elicitation_content}
use zooid.Json.{Json, fields_from, obj}
use zooid.Prelude.{
  Bool-cases, Option, Option-cases, String, [], arith, default, inl, inr, refl, true, ◌∙◌, ◌∷◌, ◌≡◌,
  ◌⊎◌,
}
use zooid.Questions.{
  ElicitationAction, ElicitationAnswerResult, ParsedElicitationCommand, answer, cancel,
  content_from_answer, decline, unreadable,
}
use zooid.Texts.{concat}

-- The questions are as they were, or an open one is settled by a response of a kind, under the name
-- and the event that are given.
pub data Settled (id : String) (by event : Option String) (Meets : ElicitationResponse → Type 0)
    (w w' : World) : Type 0 where
  kept : w'.elicitations ≡ w.elicitations → Settled id by event Meets w w'
  settled_by :
      (response : ElicitationResponse)
      → Meets response
      → is_open id w.elicitations ≡ true
      → w'.elicitations ≡ (settle id response by event w.elicitations).0
      → Settled id by event Meets w w'

pub settle_wins :
    (id : String) (response : ElicitationResponse) (by event : Option String)
    (c : ElicitationCorrelator)
    → (settle id response by event c).1 ≡ is_open id c
unfolding settle
settle_wins id response by event c = ground arith

module _ {N : Type 0} (site : Site N) where
  pub send_rejected_kept :
      (r : PendingElicitation) (e : String) (why : Reason) (errors : Dict String) (w : World)
      → (send_elicitation_rejected site r e why errors w).elicitations ≡ w.elicitations
  unfolding send_elicitation_rejected
  send_rejected_kept r e why errors w = elim (Option-cases (site.binding_for r.agent_name)) [
    | inl gone ↦ rw (gone, send_elicitation_rejected) refl
    | inr (u, found) ↦ rw (found, send_elicitation_rejected) refl
  ]

  edit_notice_kept :
      (id suffix : String) (w : World)
      → (edit_elicitation_notice site id suffix w).elicitations ≡ w.elicitations
  unfolding edit_elicitation_notice
  edit_notice_kept id suffix w = ground arith

  pub info_kept :
      (room thread_root : Option String) (body : String) (w : World)
      → (post_elicitation_info site room thread_root body w).elicitations ≡ w.elicitations
  unfolding post_elicitation_info
  info_kept room thread_root body w = ground arith

  -- The response accepts a content that the question's schema lets out.
  abbrev pub Accepts : PendingElicitation → Json N → ElicitationResponse → Type 0
  Accepts r v response =
      (out : Dict (Json N)) × (validate_elicitation_content site.host
          (site.schema_of r.requested_schema) v
        ≡ valid out)
      × (response ≡ accept (site.dump out))

  -- The response that a reply of the Zooid client stands for.
  abbrev pub Replied : PendingElicitation → Reply N → ElicitationResponse → Type 0
  Replied r (accepting v) response = Accepts r v response
  Replied r declining response = response ≡ ElicitationResponse.decline
  Replied r cancelling response = response ≡ ElicitationResponse.cancel

  -- The response that a command with an action and a value stands for.
  abbrev pub Commanded :
      PendingElicitation → ElicitationAction → Option String → ElicitationResponse → Type 0
  Commanded r answer value response =
      (answers : Dict (Json N)) × (content_from_answer site.parse_json
          (site.schema_of r.requested_schema) (default value "")
        ≡ ElicitationAnswerResult.content answers)
      × Accepts r (obj (fields_from answers)) response
  Commanded r decline value response = response ≡ ElicitationResponse.decline
  Commanded r cancel value response = response ≡ ElicitationResponse.cancel

  late_kept :
      (id suffix : String) (r : PendingElicitation) (e : String) (why : Reason)
      (errors : Dict String) (w : World)
      → (edit_elicitation_notice site id suffix
          (send_elicitation_rejected site r e why errors w)).elicitations
        ≡ w.elicitations
  late_kept id suffix r e why errors w =
      edit_notice_kept id suffix (send_elicitation_rejected site r e why errors w)
      ∙ send_rejected_kept r e why errors w

  reject_invalid_kept :
      (id : String) (r : PendingElicitation) (e : String) (errors : Dict String) (suffix : String)
      (w : World)
      → (reject_elicitation_invalid site id r e errors suffix w).elicitations ≡ w.elicitations
  unfolding reject_elicitation_invalid
  reject_invalid_kept id r e errors suffix w = elim (Bool-cases (is_open id w.elicitations)) [
    | inl opened ↦ rw opened (late_kept id suffix r e invalid_answer errors w)
    | inr shut ↦ rw shut (send_rejected_kept r e stale [] w)
  ]

  finish-Settled :
      (evt : MatrixEvent N) (id : String) (r : PendingElicitation) (response : ElicitationResponse)
      (w : World) (Meets : ElicitationResponse → Type 0)
      → Meets response
      → Settled id evt.sender evt.event_id Meets w (finish_elicitation site evt id r response w)
  unfolding finish_elicitation
  finish-Settled evt id r response w Meets meets = elim (Bool-cases (truthy evt.event_id)) [
    | inr none_there ↦ rw none_there (Settled.kept refl)
    | inl there_is ↦ elim (Bool-cases (is_open id w.elicitations)) [
      | inr shut ↦
          rw (there_is, shut)
            (Settled.kept (
              late_kept id "This question is no longer open." r (default evt.event_id "") stale []
                w))
      | inl opened ↦
          rw
            (
              there_is,
              opened,
              settle_wins id response evt.sender evt.event_id w.elicitations ∙ opened,
            )
            (Settled.settled_by response meets opened refl)
    ]
  ]

  pub Validation-cases :
      (x : ElicitationValidation N)
      → ((errors : Dict String) × (x ≡ invalid errors)) ⊎ ((out : Dict (Json N)) × (x ≡ valid out))
  Validation-cases (invalid errors) = inl (errors, refl)
  Validation-cases (valid out) = inr (out, refl)

  pub submit-Settled :
      (evt : MatrixEvent N) (id : String) (r : PendingElicitation) (v : Json N) (w : World)
      (Meets : ElicitationResponse → Type 0)
      → ((response : ElicitationResponse) → Accepts r v response → Meets response)
      → Settled id evt.sender evt.event_id Meets w (submit site evt id r v w)
  unfolding submit
  submit-Settled evt id r v w Meets fits =
      elim (Validation-cases
        (validate_elicitation_content site.host (site.schema_of r.requested_schema) v)) [
          | inl (errors, unfit) ↦
              rw (unfit, submit)
                (Settled.kept (
                  reject_invalid_kept id r (default evt.event_id "") errors
                    (concat ("⚠\u{fe0f} " ∷ format_elicitation_errors errors ∷ [])) w))
          | inr (out, passed) ↦
              rw (passed, submit)
                (finish-Settled evt id r (accept (site.dump out)) w Meets
                  (fits (accept (site.dump out)) (out, passed, refl)))
        ]

  Answer-cases :
      (x : ElicitationAnswerResult N)
      → ((error : String) × (x ≡ unreadable error))
        ⊎ ((answers : Dict (Json N)) × (x ≡ ElicitationAnswerResult.content answers))
  Answer-cases (unreadable error) = inl (error, refl)
  Answer-cases (ElicitationAnswerResult.content answers) = inr (answers, refl)

  by_action :
      (evt : MatrixEvent N) (action : ElicitationAction) (id : String) (value : Option String)
      (r : PendingElicitation) (w : World) (Meets : ElicitationResponse → Type 0)
      → ((response : ElicitationResponse) → Commanded r action value response → Meets response)
      → Settled id evt.sender evt.event_id Meets w
          (perform site evt (record { action = action; request_id = id; value = value }) r w)
  unfolding perform
  by_action evt answer id value r w Meets fits =
      elim (Answer-cases (
        content_from_answer site.parse_json (site.schema_of r.requested_schema)
          (default value ""))) [
            | inl (error, bad) ↦
                rw (bad, perform)
                  (Settled.kept (
                    reject_invalid_kept id r (default evt.event_id "") (("_", error) ∷ [])
                      (concat ("⚠\u{fe0f} " ∷ error ∷ [])) w))
            | inr (answers, good) ↦
                rw (good, perform)
                  (submit-Settled evt id r (obj (fields_from answers)) w Meets
                    (λ response h. fits response (answers, good, h)))
          ]
  by_action evt decline id value r w Meets fits =
      finish-Settled evt id r ElicitationResponse.decline w Meets (fits _ refl)
  by_action evt cancel id value r w Meets fits =
      finish-Settled evt id r ElicitationResponse.cancel w Meets (fits _ refl)

  pub perform-Settled :
      (evt : MatrixEvent N) (command : ParsedElicitationCommand) (r : PendingElicitation)
      (w : World) (Meets : ElicitationResponse → Type 0)
      → ((response : ElicitationResponse)
          → Commanded r command.action command.value response
          → Meets response)
      → Settled command.request_id evt.sender evt.event_id Meets w (perform site evt command r w)
  perform-Settled evt command r w Meets fits =
      by_action evt command.action command.request_id command.value r w Meets fits
