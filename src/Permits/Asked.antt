-- ===== src/Permits/Asked.antt =====
-- packages/transport-matrix/src/approval-commands.ts: which approval a person's event names, and what it
-- says of it.
use Prim.Native.Char.{code}
use zooid.Answers.{MatrixEvent, related}
use zooid.Commands.{
  ApprovalCommand, ParsedApprovalCommand, after_word, approve, blank, deny, normalise_reaction_key,
  parse_approval_command, reaction_command, strip_word, token,
}
use zooid.Dict.{Dict, get}
use zooid.Json.{Json, as_text, coalesce}
use zooid.Permits.{ApprovalMeta, World, candidates_in}
use zooid.Prelude.{
  Bool-cases, Option, Option-cases, String, [], ap, arith, default, eq_iff, inl, inr, non_empty,
  none, refl, some, sym, ◌==◌, ◌∷◌, ◌≡◌,
}
use zooid.Questions.{spaced}
use zooid.Schemas.{object_at}
use zooid.Texts.{is_space, trim_start}

-- The key of a reaction that stands for a command, and the word of a message that does.
abbrev pub thumb : ApprovalCommand → String
thumb approve = "👍"
thumb deny = "👎"

abbrev pub spoken : ApprovalCommand → String
spoken approve = "approve"
spoken deny = "deny"

after_word-command :
    (command : ApprovalCommand) (s : String) (p : ParsedApprovalCommand)
    → after_word command s ≡ some p
    → p.command ≡ command
unfolding after_word
after_word-command command String.[] p h = ground arith
after_word-command command (String.◌∷◌ c s) p h = elim (Bool-cases (blank (String.◌∷◌ c s))) [
  | inl bare ↦ ground arith
  | inr more ↦ elim (Bool-cases (is_space (code c))) [
    | inr prose ↦ absurd (ground arith)
    | inl spaced ↦ elim (Option-cases (token (trim_start s))) [
      | inl gone ↦ absurd (ground arith)
      | inr (id, found) ↦ ground arith
    ]
  ]
]

-- A message that is a command starts with the command's word.
pub parse-spoken :
    (body : String) (p : ParsedApprovalCommand)
    → parse_approval_command body ≡ some p
    → (rest : String) × (strip_word (spoken p.command) (trim_start body) ≡ some rest)
unfolding parse_approval_command
parse-spoken body p h = elim (Option-cases (strip_word "approve" (trim_start body))) [
  | inr (rest, said) ↦
      let named : p.command ≡ approve =
        after_word-command approve rest p (rw (said, parse_approval_command) at h) in
      (rest, rw named said)
  | inl other ↦ elim (Option-cases (strip_word "deny" (trim_start body))) [
    | inl prose ↦
        absurd (let e : none ≡ some p = rw (other, parse_approval_command, prose) at h in cc)
    | inr (rest, said) ↦
        let named : p.command ≡ deny =
          after_word-command deny rest p (rw (other, parse_approval_command, said) at h) in
        (rest, rw named said)
  ]
]

pub reaction_command-thumb :
    (o : Option String) (command : ApprovalCommand)
    → reaction_command o ≡ some command
    → (key : String) × (o ≡ some key) × (normalise_reaction_key key ≡ thumb command)
unfolding reaction_command
reaction_command-thumb none command h = absurd (cc)
reaction_command-thumb (some key) command h =
    elim (Bool-cases (normalise_reaction_key key == "👍")) [
      | inl up ↦
          let e : some approve ≡ some command = rw (up, reaction_command) at h in
          let named : approve ≡ command = ap (λ o. default o approve) e in
          (key, refl, rw (sym named) ((eq_iff (normalise_reaction_key key) "👍").0 up))
      | inr other ↦ elim (Bool-cases (normalise_reaction_key key == "👎")) [
        | inl down ↦
            let e : some deny ≡ some command = rw (other, reaction_command, down) at h in
            let named : deny ≡ command = ap (λ o. default o deny) e in
            (key, refl, rw (sym named) ((eq_iff (normalise_reaction_key key) "👎").0 down))
        | inr prose ↦
            absurd (let e : none ≡ some command = rw (other, reaction_command, prose) at h in cc)
      ]
    ]

-- A reaction to the event under which an approval was remembered, with the thumb of the command.
pub record ByKey {N : Type 0} (evt : MatrixEvent N) (w : World) (id : String)
    (command : ApprovalCommand) : Type 0 where
  pub target : String
  pub relation : Dict (Json N)
  pub key : String
  pub annotates : related "m.annotation" evt.content ≡ some target
  pub remembered : get target w.by_event ≡ some id
  pub related_by : object_at (get "m.relates_to" evt.content) ≡ some relation
  pub keyed : as_text (coalesce (get "key" evt.content) (get "key" relation)) ≡ some key
  pub thumbed : normalise_reaction_key key ≡ thumb command

-- Which approval a command means: the one whose id it gives, or without an id the only one of its thread.
pub data Names {N : Type 0} (evt : MatrixEvent N) (w : World) (given : Option String) (id : String)
    : Type 0 where
  by_id : given ≡ some id → Names evt w given id
  alone :
      (root : String) (meta : ApprovalMeta)
      → non_empty given ≡ none
      → related "m.thread" evt.content ≡ some root
      → candidates_in evt.room_id root w.metas ≡ (id, meta) ∷ []
      → Names evt w given id

-- A message that starts with the command's word and means the approval.
pub record ByWord {N : Type 0} (evt : MatrixEvent N) (w : World) (id : String)
    (command : ApprovalCommand) : Type 0 where
  pub rest : String
  pub given : Option String
  pub says :
      strip_word (spoken command) (trim_start (default (as_text (get "body" evt.content)) ""))
      ≡ some rest
  pub parsed :
      parse_approval_command (default (as_text (get "body" evt.content)) "")
      ≡ some (record { command = command; approval_id = given })
  pub names : Names evt w given id
