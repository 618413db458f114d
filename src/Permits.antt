-- ===== src/Permits.antt =====
-- packages/transport-matrix/src/transport.ts: approvals from a stock client, by a reaction on the request's
-- event or by a message. A handler settles the approval before it waits for anything, so that one world
-- goes in and one comes out; `posted` are the notices.
pub mod Asked
pub mod Decided
pub mod Warranted
mod Tests
use zooid.Answers.{MatrixEvent, forget_events, related}
use zooid.Approval.{ApprovalCorrelator, ApprovalDecision, get_public, resolve_by_id}
use zooid.Commands.{
  ApprovalCommand, approve, decision_for_command, deny, ok, parse_approval_command,
  reaction_command, refused, token,
}
use zooid.Dict.{Dict, delete, get}
use zooid.Events.{opt_is}
use zooid.Json.{as_text, coalesce}
use zooid.Prelude.{
  Bool, List, Option, String, [], default, false, if◌then◌else◌, length, non_empty, none, not, some,
  true, ◌&&◌, ◌++◌, ◌==◌, ◌>>=◌, ◌∷◌,
}
use zooid.Questions.{has_shape}
use zooid.Schemas.{object_at}
use zooid.Texts.{concat, decimal, decimal_on}

-- Where an approval lives.
pub record ApprovalMeta : Type 0 where
  pub room_id : String
  pub thread_root : String
  pub as_user_id : String

pub record Notice : Type 0 where
  pub room_id : String
  pub as_user_id : String
  pub thread_root : Option String
  pub body : String

pub record World : Type 0 where
  pub approvals : ApprovalCorrelator
  pub by_event : Dict String
  pub metas : Dict ApprovalMeta
  pub posted : List Notice

-- `ourBotUserIds` and `firstAgentUserIdForRoom`.
pub record Site : Type 0 where
  pub is_bot : String → Bool
  pub first_agent_for_room : String → Option String

pub data Outcome : Type 0 where
  done : Outcome
  already_resolved : Outcome
  undecided : (reason : String) → Outcome

unfoldable pub forget_approval : String → World → World
unfolding forget_events
forget_approval id w = record w {
  metas = delete id w.metas;
  by_event = forget_events id w.by_event;
}

-- `resolveById`, whose event `resolved` calls `forgetApproval`.
unfoldable pub settle_approval : String → ApprovalDecision → World → World × Bool
unfolding resolve_by_id forget_approval
settle_approval id decision w =
    let (c, won) = resolve_by_id id decision w.approvals in
    (if won then forget_approval id (record w { approvals = c }) else w, won)

unfoldable pub resolve_approval_command : String → ApprovalCommand → World → World × Outcome
unfolding settle_approval decision_for_command get_public
resolve_approval_command id command w = elim (get_public id w.approvals) [
  | none ↦ (w, already_resolved)
  | some approval ↦ elim (decision_for_command command approval.request.options) [
    | refused reason ↦ (w, undecided reason)
    | ok decision ↦
        let (w', won) = settle_approval id decision w in
        (w', if won then done else already_resolved)
  ]
]

abbrev pub command_word : ApprovalCommand → String
command_word approve = "approve"
command_word deny = "deny"

abbrev pub past_word : ApprovalCommand → String
past_word approve = "granted"
past_word deny = "denied"

unfoldable pub approval_outcome_notice : String → ApprovalCommand → Outcome → String
approval_outcome_notice id command done = concat ("✅ Approval " ∷ past_word command ∷ "." ∷ [])
approval_outcome_notice id command (undecided reason) =
    concat ("Could not " ∷ command_word command ∷ " approval " ∷ id ∷ ": " ∷ reason ∷ "." ∷ [])
approval_outcome_notice id command already_resolved =
    concat ("Approval " ∷ id ∷ " was already resolved." ∷ [])

abbrev pub poster : Site → String → Option String → Option String
poster site room (some user_id) = some user_id
poster site room none = site.first_agent_for_room room

unfoldable pub post_approval_notice :
    Site → (room thread_root as_user_id : Option String) → String → World → World
post_approval_notice site room thread_root as_user_id body w = elim (non_empty room) [
  | none ↦ w
  | some r ↦ elim (non_empty (poster site r as_user_id)) [
    | none ↦ w
    | some user_id ↦ record w {
      posted =
          w.posted
          ++ record {
            room_id = r;
            as_user_id = user_id;
            thread_root = non_empty thread_root;
            body = body;
          }
            ∷ [];
    }
  ]
]

unfoldable pub apply_approval_command :
    Site → String → ApprovalCommand → ApprovalMeta → World → World
unfolding resolve_approval_command post_approval_notice approval_outcome_notice
apply_approval_command site id command meta w =
    let (w', outcome) = resolve_approval_command id command w in
    post_approval_notice site (some meta.room_id) (some meta.thread_root) (some meta.as_user_id)
      (approval_outcome_notice id command outcome) w'

unfoldable pub is_approval_id : String → Bool
unfolding has_shape
is_approval_id token = has_shape "xxxxxxxx-xxxx-xxxx-xxxx-xxxxxxxxxxxx" token

-- The approvals of a room's thread.
unfoldable pub candidates_in : Option String → String → Dict ApprovalMeta → Dict ApprovalMeta
candidates_in room root [] = []
candidates_in room root ((id, m) ∷ ms) =
    if opt_is room m.room_id && m.thread_root == root
    then (id, m) ∷ candidates_in room root ms
    else candidates_in room root ms

-- Whether a message in a thread, or in none, is in the place of an approval.
abbrev pub in_place : Option String → Option String → ApprovalMeta → Bool
in_place room thread_root meta =
    opt_is room meta.room_id
    && elim thread_root [ none ↦ true | some root ↦ meta.thread_root == root ]

module _ {N : Type 0} (site : Site) where
  abbrev pub from_bot : MatrixEvent N → Bool
  from_bot evt = elim (non_empty evt.sender) [ none ↦ false | some s ↦ site.is_bot s ]

  -- What a reaction decides: the approval, its place and the command.
  unfoldable pub reaction_target :
      MatrixEvent N → World → Option (String × ApprovalMeta × ApprovalCommand)
  unfolding related reaction_command
  reaction_target evt w = do
    target ← related "m.annotation" evt.content
    rel ← object_at (get "m.relates_to" evt.content)
    command ← reaction_command (as_text (coalesce (get "key" evt.content) (get "key" rel)))
    id ← (if from_bot evt then none else non_empty (get target w.by_event))
    meta ← get id w.metas
    (if opt_is evt.room_id meta.room_id then some (id, meta, command) else none)

  unfoldable pub handle_approval_reaction : MatrixEvent N → World → World × Bool
  unfolding reaction_target apply_approval_command
  handle_approval_reaction evt w = elim (reaction_target evt w) [
    | none ↦ (w, false)
    | some (id, meta, command) ↦ (apply_approval_command site id command meta w, true)
  ]

  unfoldable pub command_with_id :
      MatrixEvent N → Option String → String → ApprovalCommand → World → World × Bool
  unfolding is_approval_id post_approval_notice apply_approval_command
  command_with_id evt thread_root id command w =
      if not (is_approval_id id) then (w, false) else elim (get id w.metas) [
        | none ↦ (
          post_approval_notice site evt.room_id thread_root none
              (concat ("No pending approval `" ∷ id ∷ "`." ∷ [])) w,
          true,
        )
        | some meta ↦
            if in_place evt.room_id thread_root meta
            then (apply_approval_command site id command meta w, true)
            else (
              post_approval_notice site evt.room_id thread_root none
                  (concat ("Approval `" ∷ id ∷ "` is not pending in this thread." ∷ [])) w,
              true,
            )
      ]

  -- A bare word stands for the one approval that is pending in its thread.
  unfoldable pub bare_command :
      MatrixEvent N → Option String → ApprovalCommand → World → World × Bool
  unfolding candidates_in decimal_on post_approval_notice apply_approval_command
  bare_command evt none command w = (w, false)
  bare_command evt (some root) command w = elim (candidates_in evt.room_id root w.metas) [
    | [] ↦ (w, false)
    | (id, meta) ∷ [] ↦ (apply_approval_command site id command meta w, true)
    | a ∷ b ∷ rest ↦ (
      post_approval_notice site evt.room_id (some root) none
          (concat (
            decimal (length (a ∷ b ∷ rest))
            ∷ " approvals are pending here — include the id: "
            ∷ "`approve <id>` or `deny <id>`."
            ∷ []))
          w,
      true,
    )
  ]

  unfoldable pub maybe_handle_approval_message : MatrixEvent N → World → World × Bool
  unfolding parse_approval_command related command_with_id bare_command
  maybe_handle_approval_message evt w =
      elim (parse_approval_command (default (as_text (get "body" evt.content)) "")) [
        | none ↦ (w, false)
        | some parsed ↦ if from_bot evt then (w, false) else elim (non_empty parsed.approval_id) [
          | some id ↦ command_with_id evt (related "m.thread" evt.content) id parsed.command w
          | none ↦ bare_command evt (related "m.thread" evt.content) parsed.command w
        ]
      ]
