-- ===== src/Commands.antt =====
-- packages/transport-matrix/src/approval-commands.ts: an approval's decision from a message or a reaction
-- of a stock client. A regular expression is a scanner over the text.
pub mod Decisions
mod Tests
use Prim.Native.String
use Prim.Native.Char.{code}
use zooid.Approval.{ApprovalDecision, ApprovalOption, allow, cancel}
use zooid.Prelude.{
  Bool, List, Option, String, [], false, filter, find, if◌then◌else◌, leb, none, some, true, ℕ,
  ◌&&◌, ◌+◌, ◌==◌, ◌||◌, ◌∷◌,
}
use zooid.Texts.{eqb, is_space, trim_start}

pub data ApprovalCommand : Type 0 where
  approve deny : ApprovalCommand

-- `PRESENTATION_MODIFIER_RE`.
unfoldable pub is_modifier : ℕ → Bool
is_modifier c = eqb c 65038 || eqb c 65039 || eqb c 8205 || leb 127995 c && leb c 127999

-- `normaliseReactionKey` of a text; any other key gives the empty text.
unfoldable pub normalise_reaction_key : String → String
unfolding is_modifier
normalise_reaction_key String.[] = ""
normalise_reaction_key (String.◌∷◌ c s) =
    if is_modifier (code c)
    then normalise_reaction_key s
    else String.◌∷◌ c (normalise_reaction_key s)

unfoldable pub reaction_command : Option String → Option ApprovalCommand
unfolding normalise_reaction_key
reaction_command none = none
reaction_command (some key) =
    let normalised = normalise_reaction_key key in
    if normalised == "👍" then some approve else if normalised == "👎" then some deny else none

pub record ParsedApprovalCommand : Type 0 where
  pub command : ApprovalCommand
  pub approval_id : Option String

-- A letter of a lower-case word, in either case.
abbrev pub same_letter : ℕ → ℕ → Bool
same_letter p c = eqb p c || eqb p (c + 32) && leb b'A' c && leb c b'Z'

-- The text after a word, in either case.
unfoldable pub strip_word : String → String → Option String
strip_word String.[] s = some s
strip_word (String.◌∷◌ p ps) String.[] = none
strip_word (String.◌∷◌ p ps) (String.◌∷◌ c s) =
    if same_letter (code p) (code c) then strip_word ps s else none

-- `(?:\s+(\S+))?\s*$` after the command's word: an id that ends at white space or at the end.
unfoldable pub blank : String → Bool
unfolding is_space
blank String.[] = true
blank (String.◌∷◌ c s) = is_space (code c) && blank s

unfoldable pub token : String → Option String
unfolding is_space blank
token String.[] = some ""
token (String.◌∷◌ c s) =
    let tail = token s in
    if is_space (code c)
    then (if blank s then some "" else none)
    else (elim tail [ none ↦ none | some t ↦ some (String.◌∷◌ c t) ])

unfoldable pub after_word : ApprovalCommand → String → Option ParsedApprovalCommand
unfolding token blank trim_start is_space
after_word command String.[] = some (record { command = command; approval_id = none })
after_word command (String.◌∷◌ c s) =
    if blank (String.◌∷◌ c s)
    then some (record { command = command; approval_id = none })
    else if is_space (code c)
    then (elim (token (trim_start s)) [
      | none ↦ none
      | some id ↦ some (record { command = command; approval_id = some id })
    ])
    else none

unfoldable pub parse_approval_command : String → Option ParsedApprovalCommand
unfolding after_word strip_word trim_start
parse_approval_command body =
    let s = trim_start body in
    elim (strip_word "approve" s) [
      | some rest ↦ after_word approve rest
      | none ↦ elim (strip_word "deny" s) [ none ↦ none | some rest ↦ after_word deny rest ]
    ]

pub data DecisionResolution : Type 0 where
  ok : ApprovalDecision → DecisionResolution
  refused : (reason : String) → DecisionResolution

unfoldable pub starts_with : String → String → Bool
starts_with String.[] s = true
starts_with (String.◌∷◌ p ps) String.[] = false
starts_with (String.◌∷◌ p ps) (String.◌∷◌ c s) = eqb (code p) (code c) && starts_with ps s

abbrev pub head_option : List ApprovalOption → Option ApprovalOption
head_option [] = none
head_option (o ∷ os) = some o

unfoldable pub pick : String → String → List ApprovalOption → Option ApprovalOption
unfolding starts_with
pick prefix preferred options =
    let found = filter (λ (o : ApprovalOption). starts_with prefix o.kind) options in
    elim (find (λ (o : ApprovalOption). o.kind == preferred) found) [
      | some o ↦ some o
      | none ↦ head_option found
    ]

-- A request with a single option has an unambiguous answer.
abbrev pub approve_single : List ApprovalOption → DecisionResolution
approve_single (o ∷ []) = ok (allow o.option_id)
approve_single _ = refused "this request offers no \"allow\" option"

unfoldable pub decision_for_command : ApprovalCommand → List ApprovalOption → DecisionResolution
unfolding pick
decision_for_command approve options = elim (pick "allow" "allow_once" options) [
  | some o ↦ ok (allow o.option_id)
  | none ↦ approve_single options
]
decision_for_command deny options = elim (pick "reject" "reject_once" options) [
  | some o ↦ ok (allow o.option_id)
  | none ↦ ok cancel
]
