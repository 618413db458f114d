-- ===== src/Texts.antt =====
-- The methods of JavaScript's texts that the program calls.
use Prim.Native.String
use Prim.Native.Char.{code}
use zooid.Prelude.{
  Bool, List, String, [], if◌then◌else◌, leb, suc, zero, ℕ, ◌%◌, ◌&&◌, ◌+◌, ◌/◌, ◌==◌, ◌||◌, ◌∷◌,
}

abbrev pub eqb : ℕ → ℕ → Bool
eqb a b = leb a b && leb b a

-- White space, of `\s` and of `trim`.
unfoldable pub is_space : ℕ → Bool
is_space c =
    leb 9 c && leb c 13
    || eqb c 32
    || eqb c 160
    || eqb c 5760
    || leb 8192 c && leb c 8202
    || eqb c 8232
    || eqb c 8233
    || eqb c 8239
    || eqb c 8287
    || eqb c 12288
    || eqb c 65279

unfoldable pub trim_start : String → String
unfolding is_space
trim_start String.[] = ""
trim_start (String.◌∷◌ c s) = if is_space (code c) then trim_start s else String.◌∷◌ c s

unfoldable pub trim_end : String → String
unfolding is_space
trim_end String.[] = ""
trim_end (String.◌∷◌ c s) =
    let rest = trim_end s in if rest == "" && is_space (code c) then "" else String.◌∷◌ c rest

unfoldable pub trim : String → String
unfolding trim_start trim_end
trim s = trim_end (trim_start s)

unfoldable pub ends_with : String → String → Bool
ends_with String.[] t = t == ""
ends_with (String.◌∷◌ c s) t = String.◌∷◌ c s == t || ends_with s t

-- `s.length` counts UTF-16 units: a character past the first plane has two.
unfoldable pub units : String → ℕ
units String.[] = 0
units (String.◌∷◌ c s) = (if leb 65536 (code c) then 2 else 1) + units s

-- A template literal, by its parts.
abbrev pub concat : List String → String
concat [] = ""
concat (s ∷ parts) = String.◌++◌ s (concat parts)

-- `parts.join(between)`.
unfoldable pub join : String → List String → String
join between [] = ""
join between (s ∷ []) = s
join between (s ∷ t ∷ parts) = concat (s ∷ between ∷ join between (t ∷ parts) ∷ [])

abbrev digit : ℕ → List String → String
digit n [] = ""
digit zero (d ∷ ds) = d
digit (suc n) (d ∷ ds) = digit n ds

abbrev digits : List String
digits = "0" ∷ "1" ∷ "2" ∷ "3" ∷ "4" ∷ "5" ∷ "6" ∷ "7" ∷ "8" ∷ "9" ∷ []

-- A count in a template literal; each round takes a digit, so that the count itself is fuel enough.
unfoldable pub decimal_on : (fuel : ℕ) → ℕ → String → String
decimal_on zero n out = out
decimal_on (suc fuel) n out =
    let longer = String.◌++◌ (digit (n % 10) digits) out in
    let rest = decimal_on fuel (n / 10) longer in if leb n 9 then longer else rest

abbrev pub decimal : ℕ → String
decimal n = decimal_on (suc n) n ""
