-- ===== src/Formats.antt =====
-- packages/core/src/elicitation-schema.ts: the regular expressions of the formats, as scanners.
use Prim.Native.Char.{code}
use zooid.Prelude.{Bool, String, false, if◌then◌else◌, leb, not, true, ℕ, ◌&&◌, ◌==◌, ◌||◌}
use zooid.Texts.{eqb, is_space}

-- `/^[^\s@]+@[^\s@]+\.[^\s@]+$/`, from its end: the text after the first `@` has a dot inside.
unfoldable pub plain_char : ℕ → Bool
unfolding is_space
plain_char c = not (is_space c || eqb c b'@')

unfoldable pub all_plain : String → Bool
unfolding plain_char
all_plain String.[] = true
all_plain (String.◌∷◌ c s) = plain_char (code c) && all_plain s

-- A dot with something after it.
unfoldable pub dot_inside : String → Bool
dot_inside String.[] = false
dot_inside (String.◌∷◌ c s) = eqb (code c) b'.' && not (s == "") || dot_inside s

abbrev rest_of : String → String
rest_of String.[] = ""
rest_of (String.◌∷◌ c s) = s

unfoldable pub domain : String → Bool
unfolding all_plain dot_inside
domain s = all_plain s && dot_inside (rest_of s)

-- `seen`: whether the local part has begun.
unfoldable pub email_from : Bool → String → Bool
unfolding domain plain_char
email_from seen String.[] = false
email_from seen (String.◌∷◌ c s) =
    let later = email_from true s in
    if eqb (code c) b'@' then seen && domain s else plain_char (code c) && later

unfoldable pub is_email : String → Bool
unfolding email_from
is_email s = email_from false s

abbrev is_digit : ℕ → Bool
is_digit c = leb b'0' c && leb c b'9'

-- A pattern of digits (`d`) and other characters that stand for themselves.
unfoldable pub follows : String → String → Bool
follows String.[] s = s == ""
follows (String.◌∷◌ p ps) String.[] = false
follows (String.◌∷◌ p ps) (String.◌∷◌ c s) =
    (if eqb (code p) b'd' then is_digit (code c) else eqb (code p) (code c)) && follows ps s

unfoldable pub has_code : ℕ → String → Bool
has_code n String.[] = false
has_code n (String.◌∷◌ c s) = eqb (code c) n || has_code n s
