-- ===== src/Schemas/Samples.antt =====
-- A host over the natural numbers, and a property and a form of it, for the tests.
use zooid.Json.{arr, cons, nil, num, str}
use zooid.Prelude.{[], if◌then◌else◌, ltb, none, some, true, ℕ, ◌==◌, ◌∷◌}
use zooid.Schemas.{Host, Prop}
use zooid.Texts.{eqb}

abbrev pub nat_host : Host ℕ
nat_host = record {
  lt = ltb;
  is_finite = λ n. true;
  is_integer = λ n. true;
  of_count = λ n. n;
  show = λ n. if eqb n 5 then "5" else "?";
  show_value = λ v. "value";
  reg_exp = λ r. if r == "^m" then some (λ s. true) else none;
  can_parse = λ s. true;
  is_date = λ s. true;
}

abbrev pub colour : Prop ℕ
colour = ("type", str "string") ∷ ("enum", arr (cons (str "red") (cons (str "blue") nil))) ∷ []

abbrev pub short_text : Prop ℕ
short_text = ("type", str "string") ∷ ("minLength", num 5) ∷ []
