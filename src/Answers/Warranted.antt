-- ===== src/Answers/Warranted.antt =====
-- packages/transport-matrix/src/transport.ts: which answers to an elicitation settle it.
use mathlib.Core.Path.{subst}
use zooid.Answers.{
  MatrixEvent, ParsedElicitationResponse, Site, World, eligible_response,
  handle_elicitation_response, parse_elicitation_response, related,
}
use zooid.Answers.Eligible.{
  Eligible, Reacts, command_of-some, eligible_response-Responds, guard-Eligible,
  reaction_target-Reacts,
}
use zooid.Answers.Kept.{
  Accepts, Commanded, Replied, Settled, info_kept, perform-Settled, send_rejected_kept,
  submit-Settled,
}
use zooid.Answers.Replies.{conclude-Settled, settled_as}
use zooid.Answers.Stock.{
  command_of, guard_elicitation_answer, guarded_command, handle_elicitation_reaction,
  maybe_handle_elicitation_message, reaction_target,
}
use zooid.Dict.{get}
use zooid.Elicitation.{ElicitationResponse, PendingElicitation}
use zooid.Elicitation.Valid.{Valid}
use zooid.Events.{opt_is}
use zooid.Json.{as_text, end, field, obj, str}
use zooid.Prelude.{
  Bool-cases, List, Option, Option-cases, String, [], default, inl, inr, refl, some, sym, ◌&&◌, ◌∷◌,
  ◌≡◌,
}
use zooid.Questions.{ParsedElicitationCommand, parse_elicitation_command}
use zooid.Texts.{concat}

module _ {N : Type 0} (site : Site N) where
  -- What the event of the Zooid client asks: the question that it names, and what its reply stands for.
  abbrev pub ByReply : MatrixEvent N → String → PendingElicitation → ElicitationResponse → Type 0
  ByReply evt id r response =
      (p : ParsedElicitationResponse N) × (parse_elicitation_response evt.content ≡ some p)
      × (p.request_id ≡ id)
      × Replied site r p.reply response

  -- What a reaction asks: the question whose event it annotates, and the choice of its key.
  abbrev pub ByReaction :
      MatrixEvent N → World → String → PendingElicitation → ElicitationResponse → Type 0
  ByReaction evt before id r response =
      (name choice : String) × Reacts site evt before id name choice
      × Accepts site r (obj (field name (str choice) end)) response

  -- What a command asks: the question that the message names, and the command's action and value.
  abbrev pub ByCommand : MatrixEvent N → String → PendingElicitation → ElicitationResponse → Type 0
  ByCommand evt id r response =
      (command : ParsedElicitationCommand) × (parse_elicitation_command
          (default (as_text (get "body" evt.content)) "")
        ≡ some command)
      × (command.request_id ≡ id)
      × Commanded site r command.action command.value response

  -- The questions are as they were, or an event of an eligible sender settles the open question that
  -- it asks by what it asks, under its own sender and id.
  pub data Warranted (evt : MatrixEvent N) (joined : Option (List String)) (seen : World)
      (Asks : String → PendingElicitation → ElicitationResponse → Type 0) (w w' : World)
      : Type 0 where
    unchanged : w'.elicitations ≡ w.elicitations → Warranted evt joined seen Asks w w'
    warranted :
        (id : String) (r : PendingElicitation)
        → Eligible site evt joined seen id r
        → Settled id evt.sender evt.event_id (Asks id r) w w'
        → Warranted evt joined seen Asks w w'

  reaction-Warranted :
      (evt : MatrixEvent N) (joined : Option (List String)) (before checked after : World)
      → Warranted evt joined checked
          (ByReaction evt before)
          after
          (handle_elicitation_reaction site evt joined before checked after).0
  unfolding handle_elicitation_reaction
  reaction-Warranted evt joined before checked after =
      elim (Option-cases (reaction_target site evt before)) [
        | inl gone ↦ rw (gone, handle_elicitation_reaction) (Warranted.unchanged refl)
        | inr ((id, name, choice), found) ↦
            elim (Option-cases (guard_elicitation_answer site evt id joined checked)) [
              | inl refused_by_guard ↦
                  rw (found, handle_elicitation_reaction, refused_by_guard)
                    (Warranted.unchanged refl)
              | inr ((r, sender), guarded) ↦
                  rw (found, handle_elicitation_reaction, guarded)
                    (Warranted.warranted id r
                      (guard-Eligible site evt id joined checked r sender guarded)
                      (submit-Settled site evt id r (obj (field name (str choice) end)) after
                        (ByReaction evt before id r)
                        (λ response h. (
                          name,
                          choice,
                          reaction_target-Reacts site evt before id name choice found,
                          h,
                        ))))
            ]
      ]

  command-Warranted :
      (evt : MatrixEvent N) (command : ParsedElicitationCommand) (joined : Option (List String))
      (r : PendingElicitation) (before checked after : World)
      → command_of site evt ≡ some command
      → Warranted evt joined checked
          (ByCommand evt)
          after
          (guarded_command site evt command joined r before checked after)
  unfolding guarded_command
  command-Warranted evt command joined r before checked after is_it =
      elim (Bool-cases
        (opt_is evt.room_id r.room_id && opt_is (related "m.thread" evt.content) r.thread_root)) [
          | inr away ↦
              rw (away, guarded_command)
                (Warranted.unchanged (
                  info_kept site evt.room_id (related "m.thread" evt.content)
                    (concat (
                      "Question `" ∷ command.request_id
                      ∷ "` is not open in this thread — reply in the question's thread." ∷ []))
                    after))
          | inl here_too ↦ elim (Option-cases (get command.request_id before.metas)) [
            | inl gone ↦
                rw (here_too, guarded_command, gone)
                  (Warranted.unchanged (send_rejected_kept site r _ _ _ after))
            | inr (m, found) ↦
                elim (Option-cases
                  (guard_elicitation_answer site evt command.request_id joined checked)) [
                    | inl refused_by_guard ↦
                        rw (here_too, guarded_command, found, refused_by_guard)
                          (Warranted.unchanged refl)
                    | inr ((q, sender), guarded) ↦
                        rw (here_too, guarded_command, found, guarded)
                          (Warranted.warranted command.request_id q
                            (guard-Eligible site evt command.request_id joined checked q sender
                              guarded)
                            (perform-Settled site evt command q after
                              (ByCommand evt command.request_id q)
                              (λ response h.
                                (command, command_of-some site evt command is_it, refl, h))))
                  ]
          ]
        ]

  message-Warranted :
      (evt : MatrixEvent N) (joined : Option (List String)) (before checked after : World)
      → Warranted evt joined checked
          (ByCommand evt)
          after
          (maybe_handle_elicitation_message site evt joined before checked after).0
  unfolding maybe_handle_elicitation_message
  message-Warranted evt joined before checked after = elim (Option-cases (command_of site evt)) [
    | inl gone ↦ rw (gone, maybe_handle_elicitation_message) (Warranted.unchanged refl)
    | inr (command, found) ↦
        elim (Option-cases (get command.request_id before.elicitations.entries)) [
          | inl unknown_id ↦
              rw (found, maybe_handle_elicitation_message, unknown_id)
                (Warranted.unchanged (
                  info_kept site evt.room_id (related "m.thread" evt.content)
                    (concat ("No open question `" ∷ command.request_id ∷ "`." ∷ [])) after))
          | inr (r, known) ↦
              rw (found, maybe_handle_elicitation_message, known)
                (command-Warranted evt command joined r before checked after found)
        ]
  ]

  response-Warranted :
      (evt : MatrixEvent N) (joined : Option (List String)) (before after : World)
      → Valid before.elicitations
      → Warranted evt joined before
          (ByReply evt)
          after
          (handle_elicitation_response site evt joined before after)
  unfolding handle_elicitation_response
  response-Warranted evt joined before after v =
      elim (Option-cases (eligible_response site evt joined before)) [
        | inl gone ↦ rw (gone, handle_elicitation_response) (Warranted.unchanged refl)
        | inr ((r, reply, sender, event_id), found) ↦
            let it =
              eligible_response-Responds site evt joined before r reply sender event_id v found in
            rw (found, handle_elicitation_response)
              (Warranted.warranted r.request_id r it.eligible (
                settled_as (sym it.sender_is) (sym it.event_is)
                  (λ response h. (
                    it.response,
                    it.parsed,
                    it.names,
                    subst (λ x. Replied site r x response) (sym it.says) h,
                  ))
                  (conclude-Settled site r reply sender event_id after)))
      ]

  -- Whatever runs between the look-up of a question, the check of the members and the end of a
  -- handler: each of the three handlers of answers leaves the questions as they are, or settles one
  -- that is still open, under the sender and the id of its event. The sender is no agent and was a
  -- member at the check, and the event is of the question's room. It is the question that the event
  -- asks: the one that the Zooid client's event names, the one whose event a reaction annotates, the
  -- one that a command names. And it is settled as the event asks: by a decline or a cancellation
  -- if that is what it says, or else by what the question's schema lets out of the content it gives,
  -- which for a reaction is the choice of its key. For the Zooid client's event, the entries of the
  -- correlator stand under their own ids.
  pub answers-Warranted :
      (evt : MatrixEvent N) (joined : Option (List String)) (before checked after : World)
      → Valid before.elicitations
      → Warranted evt joined before
          (ByReply evt)
          after
          (handle_elicitation_response site evt joined before after)
        × Warranted evt joined checked
            (ByReaction evt before)
            after
            (handle_elicitation_reaction site evt joined before checked after).0
        × Warranted evt joined checked
            (ByCommand evt)
            after
            (maybe_handle_elicitation_message site evt joined before checked after).0
  answers-Warranted evt joined before checked after v = (
    response-Warranted evt joined before after v,
    reaction-Warranted evt joined before checked after,
    message-Warranted evt joined before checked after,
  )
