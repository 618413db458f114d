-- ===== src/Mentions.antt =====
-- packages/transport-matrix/src/mentions.ts, `extractMentions`. A regular expression is a scanner over
-- the text. `decode` is the engine's `decodeURIComponent`, none where that throws a `URIError`.
mod Tests
use Prim.Native.String
use Prim.Native.Char.{code}
use zooid.Dict.{insert}
use zooid.Prelude.{
  Bool, List, Option, String, [], if◌then◌else◌, leb, none, not, some, suc, zero, ℕ, ◌&&◌, ◌++◌,
  ◌==◌, ◌||◌, ◌∷◌,
}
use zooid.Texts.{eqb, is_space}

-- The characters before and after the colon in `RAW_USER_RE`.
abbrev is_alnum : ℕ → Bool
is_alnum c = leb b'A' c && leb c b'Z' || leb b'a' c && leb c b'z' || leb b'0' c && leb c b'9'

unfoldable pub is_local : ℕ → Bool
is_local c =
    is_alnum c || eqb c b'.' || eqb c b'_' || eqb c b'-' || eqb c b'=' || eqb c b'/' || eqb c b'+'

unfoldable pub is_server : ℕ → Bool
is_server c = is_alnum c || eqb c b'.' || eqb c b'-'

-- The characters of `[^"<>\s]`.
unfoldable pub is_href : ℕ → Bool
unfolding is_space
is_href c = not (eqb c 34 || eqb c b'<' || eqb c b'>' || is_space c)

-- The longest run of characters that pass a test, and what follows it.
unfoldable pub span : (ℕ → Bool) → String → String × String
span p String.[] = ("", "")
span p (String.◌∷◌ c s) =
    let (run, rest) = span p s in
    if p (code c) then (String.◌∷◌ c run, rest) else ("", String.◌∷◌ c s)

-- `RAW_USER_RE` at the start of a text: `@`, a local part, `:`, a server.
unfoldable pub after_colon : String → String → Option (String × String)
unfolding span is_server
after_colon name (String.[]) = none
after_colon name (String.◌∷◌ c s) =
    let (server, rest) = span is_server s in
    if eqb (code c) b':' && not (name == "") && not (server == "")
    then some (String.◌++◌ "@" (String.◌++◌ name (String.◌++◌ ":" server)), rest)
    else none

unfoldable pub raw_user_at : String → Option (String × String)
unfolding span is_local after_colon
raw_user_at String.[] = none
raw_user_at (String.◌∷◌ c s) =
    let (name, rest) = span is_local s in if eqb (code c) b'@' then after_colon name rest else none

-- The text after a prefix.
unfoldable pub strip_prefix : String → String → Option String
strip_prefix String.[] s = some s
strip_prefix (String.◌∷◌ p ps) String.[] = none
strip_prefix (String.◌∷◌ p ps) (String.◌∷◌ c s) =
    if eqb (code p) (code c) then strip_prefix ps s else none

-- `@` and a run of `[^"<>\s]`, at the start of a text.
unfoldable pub href_user : String → Option (String × String)
unfolding span is_href
href_user String.[] = none
href_user (String.◌∷◌ c s) =
    let (run, rest) = span is_href s in
    if eqb (code c) b'@' && not (run == "") then some (String.◌∷◌ c run, rest) else none

-- `MATRIX_TO_RE` at the start of a text; the match is its first group.
unfoldable pub matrix_to_at : String → Option (String × String)
unfolding strip_prefix href_user
matrix_to_at s = elim (strip_prefix "https://matrix.to/#/" s) [
  | none ↦ none
  | some rest ↦ href_user rest
]

-- `matchAll`: the matches from left to right, each from where the last one ended. A match takes at
-- least one character, so a text's length is fuel enough.
unfoldable pub match_all : (String → Option (String × String)) → ℕ → String → List String
match_all at zero s = []
match_all at (suc n) String.[] = []
match_all at (suc n) (String.◌∷◌ c s) = elim (at (String.◌∷◌ c s)) [
  | none ↦ match_all at n s
  | some (m, rest) ↦ m ∷ match_all at n rest
]

unfoldable pub size : String → ℕ
size String.[] = 0
size (String.◌∷◌ c s) = suc (size s)

abbrev pub insert_all : List String → List String → List String
insert_all [] out = out
insert_all (m ∷ ms) out = insert_all ms (insert m out)

-- The loop over the matches in the formatted body.
unfoldable pub decode_all :
    (String → Option String) → List String → List String → Option (List String)
decode_all decode [] out = some out
decode_all decode (m ∷ ms) out = elim (decode m) [
  | none ↦ none
  | some id ↦ decode_all decode ms (insert id out)
]

-- The parts of an event's content that are read. An absent `m.mentions` or `user_ids` is `[]`.
pub record Text : Type 0 where
  pub user_ids : List String
  pub body : Option String
  pub formatted_body : Option String

abbrev body_mentions : Option String → List String → List String
body_mentions none out = out
body_mentions (some b) [] = insert_all (match_all raw_user_at (size b) b) []
body_mentions (some b) (m ∷ out) = m ∷ out

abbrev formatted_mentions :
    (String → Option String) → Option String → List String → Option (List String)
formatted_mentions decode none out = some out
formatted_mentions decode (some f) out = decode_all decode (match_all matrix_to_at (size f) f) out

unfoldable pub extract_mentions : (String → Option String) → Text → Option (List String)
unfolding decode_all match_all size raw_user_at matrix_to_at insert
extract_mentions decode t =
    elim (formatted_mentions decode t.formatted_body (insert_all t.user_ids [])) [
      | none ↦ none
      | some out ↦ some (body_mentions t.body out)
    ]
