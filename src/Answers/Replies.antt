-- ===== src/Answers/Replies.antt =====
-- packages/transport-matrix/src/transport.ts, `handleElicitationResponse`: what a reply settles.
use mathlib.Core.Path.{ap₂}
use zooid.Answers.{
  Reply, Site, World, accepting, cancelling, conclude_response, declining, invalid_answer, is_open,
  read_reply, settle_or_stale, stale,
}
use zooid.Answers.Kept.{
  Replied, Settled, Validation-cases, kept, send_rejected_kept, settle_wins, settled_by,
}
use zooid.Dict.{Dict}
use zooid.Elicitation.{ElicitationResponse, PendingElicitation, accept, settle}
use zooid.Forms.{validate_elicitation_content}
use zooid.Prelude.{Bool-cases, Option, String, [], ap, inl, inr, refl, some, sym, ◌∙◌, ◌≡◌, ◌⊎◌}

abbrev answer_part : ElicitationResponse → Dict String ⊎ ElicitationResponse → ElicitationResponse
answer_part d (inl errors) = d
answer_part d (inr y) = y

-- The same settlement, where the names are given otherwise and the kind of responses is a wider one.
pub settled_as :
    {id : String} {by by' event event' : Option String} {M M' : ElicitationResponse → Type 0}
    {w w' : World}
    → by ≡ by'
    → event ≡ event'
    → ((response : ElicitationResponse) → M response → M' response)
    → Settled id by event M w w'
    → Settled id by' event' M' w w'
settled_as e f wide (kept k) = Settled.kept k
settled_as {id} {w = w} e f wide (settled_by response meets opened is_it) =
    Settled.settled_by response (wide response meets) opened
      (is_it ∙ ap₂ (λ b x. (settle id response b x w.elicitations).0) e f)

module _ {N : Type 0} (site : Site N) where
  read_reply-Replied :
      (r : PendingElicitation) (reply : Reply N) {response : ElicitationResponse}
      → read_reply site r reply ≡ inr response
      → Replied site r reply response
  unfolding read_reply
  read_reply-Replied r (accepting v) {response} h =
      elim (Validation-cases site
        (validate_elicitation_content site.host (site.schema_of r.requested_schema) v)) [
          | inl (errors, unfit) ↦
              absurd (let e : inl errors ≡ inr response = rw (unfit, read_reply) at h in cc)
          | inr (out, passed) ↦
              let e : inr (accept (site.dump out)) ≡ inr response = rw (passed, read_reply) at h in
              (out, passed, sym (ap (λ x. answer_part (accept (site.dump out)) x) e))
        ]
  read_reply-Replied r declining h = sym (ap (λ x. answer_part ElicitationResponse.decline x) h)
  read_reply-Replied r cancelling h = sym (ap (λ x. answer_part ElicitationResponse.decline x) h)

  Reply-cases :
      (x : Dict String ⊎ ElicitationResponse)
      → ((errors : Dict String) × (x ≡ inl errors)) ⊎ ((y : ElicitationResponse) × (x ≡ inr y))
  Reply-cases (inl errors) = inl (errors, refl)
  Reply-cases (inr y) = inr (y, refl)

  pub conclude-Settled :
      (r : PendingElicitation) (reply : Reply N) (sender event_id : String) (w : World)
      → Settled r.request_id
          (some sender)
          (some event_id)
          (Replied site r reply)
          w
          (conclude_response site r reply sender event_id w)
  unfolding conclude_response settle_or_stale
  conclude-Settled r reply sender event_id w =
      elim (Bool-cases (is_open r.request_id w.elicitations)) [
        | inr shut ↦
            rw (shut, conclude_response)
              (Settled.kept (send_rejected_kept site r event_id stale [] w))
        | inl opened ↦ elim (Reply-cases (read_reply site r reply)) [
          | inl (errors, bad) ↦
              rw (opened, conclude_response, bad, opened)
                (Settled.kept (send_rejected_kept site r event_id invalid_answer errors w))
          | inr (response, good) ↦
              rw
                (
                  opened,
                  conclude_response,
                  good,
                  settle_or_stale,
                  settle_wins r.request_id response (some sender) (some event_id) w.elicitations
                      ∙ opened,
                )
                (Settled.settled_by response (read_reply-Replied r reply good) opened refl)
        ]
      ]
