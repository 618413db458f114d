-- ===== src/Questions/Choices.antt =====
-- packages/transport-matrix/src/elicitation-commands.ts: the choices that a reaction can answer are answers that
-- the form accepts.
use mathlib.Core.Path.{subst}
use zooid.Dict.{Dict, get, keys}
use zooid.Forms.{ElicitationSchema, is_empty, look_up, valid, validate_elicitation_content}
use zooid.Forms.Accepted.{Acceptable, validate_accepts, validate_keeps}
use zooid.Json.{Fields, Json, as_number, as_text, end, entries, field, obj, str}
use zooid.Prelude.{
  List, Option, Option-cases, String, String-cases, [], ap, arith, default, eq_iff, eq_refl, false,
  if_some, includes, inl, inr, length, ltb, none, refl, some, sym, true, unless_some, ◌==◌, ◌||◌,
  ◌∙◌, ◌∷◌, ◌≡◌,
}
use zooid.Questions.{
  ElicitationField, EnumField, elicitation_fields, enum_of, fields_of, single_enum_field,
}
use zooid.Schemas.{Host, Prop, choices_of, is_type}
use zooid.Schemas.Fits.{Fits, Listed, TextFits}

-- The only constraint on the field's texts is its list of choices.
pub record IsPlain {N : Type 0} (p : Prop N) : Type 0 where
  pub no_min : as_number (get "minLength" p) ≡ none
  pub no_max : as_number (get "maxLength" p) ≡ none
  pub no_pattern : as_text (get "pattern" p) ≡ none
  pub no_format : as_text (get "format" p) ≡ none

module _ {N : Type 0} (host : Host N) where
  plain-TextFits :
      (p : Prop N) (cs : List String) (c : String)
      → IsPlain p
      → choices_of p ≡ some cs
      → Listed c cs
      → TextFits host p c
  plain-TextFits p cs c plain offered listed = record {
    chosen = λ ds e. subst (Listed c) (ap (λ o. default o cs) (sym offered ∙ e)) listed;
    sized = record {
      above = λ m e. absurd (let b : none ≡ some m = sym plain.no_min ∙ e in cc);
      below = λ m e. absurd (let b : none ≡ some m = sym plain.no_max ∙ e in cc);
    };
    matched = λ r e. absurd (let b : none ≡ some r = sym plain.no_pattern ∙ e in cc);
    formatted = λ f test e. absurd (let b : none ≡ some f = sym plain.no_format ∙ e in cc);
  }

enum_of-some :
    (g : ElicitationField) (f : EnumField)
    → enum_of g ≡ some f
    → (g.name ≡ f.name) × (g.choices ≡ some f.choices) × ((g.type == "string") ≡ true)
enum_of-some g f h =
    let (typed, h) = if_some (g.type == "string") _ h in
    elim (Option-cases g.choices) [
      | inl gone ↦ absurd (let b : none ≡ some f = rw gone at h in cc)
      | inr (cs, found) ↦
          let (few, same) =
            unless_some (ltb (length cs) 1 || ltb 9 (length cs)) _ (rw found at h) in
          let whole = ap (λ o. default o f) same in
          (ap (λ e. e.name) whole, found ∙ ap (λ e. some e.choices) whole, typed)
    ]

typed_string :
    {N : Type 0} (p : Prop N)
    → (default (as_text (get "type" p)) "unknown" == "string") ≡ true
    → is_type "string" p ≡ true
unfolding is_type
typed_string p h = elim (Option-cases (as_text (get "type" p))) [
  | inl gone ↦ absurd (let b : false ≡ true = rw gone at h in cc)
  | inr (t, found) ↦ rw (found, is_type) (rw found at h)
]

module _ {N : Type 0} (host : Host N) (required : Option (List String)) (name : String) (p : Prop N)
    (f : EnumField) (c : String) where
  abbrev form : ElicitationSchema N
  form = record { properties = some ((name, p) ∷ []); required = required }

  answer_Acceptable :
      single_enum_field form ≡ some f
      → IsPlain p
      → Listed c f.choices
      → (c == "") ≡ false
      → Acceptable host form (entries (field f.name (str c) end))
  unfolding single_enum_field elicitation_fields fields_of entries keys get is_empty look_up
  answer_Acceptable single plain listed full =
      let (named, offered, typed) =
        enum_of-some
          (record {
            name = name;
            type = default (as_text (get "type" p)) "unknown";
            required = includes name (default required []);
            choices = choices_of p;
          })
          f single in
      let fits =
        Fits.text c (typed_string p typed)
          (plain-TextFits host p f.choices c plain offered listed) in
      record {
        known = λ k given. ground (arith, given, named, eq_iff name k, eq_iff f.name k);
        answered = λ k q found. elim (String-cases name k) [
          | inr other ↦ absurd (let b : none ≡ some q = rw other at found in cc)
          | inl same ↦
              let mine : some p ≡ some q = rw ((eq_iff name k).1 same) at found in
              rw (look_up, (eq_iff f.name k).1 (sym named ∙ same), full)
                λ v h.
                  subst (λ o. Fits host q (default o (str c))) h
                    (subst (λ o. Fits host (default o p) (str c)) mine fits)
        ];
      }

  -- A choice of the single field that reactions can answer, where its only constraint is the list of
  -- choices, is accepted by the form, unless the choice is the empty text; and the content that
  -- comes out has the choice under the field.
  pub choice_accepted :
      single_enum_field form ≡ some f
      → IsPlain p
      → Listed c f.choices
      → (c == "") ≡ false
      → (out : Dict (Json N)) × (validate_elicitation_content host form
            (obj (field f.name (str c) end))
          ≡ valid out)
        × (get f.name out ≡ some (str c))
  unfolding get entries is_empty
  choice_accepted single plain listed full =
      let fs : Fields N = field f.name (str c) end in
      let stored : get f.name (entries fs) ≡ some (str c) = rw (eq_refl f.name) refl in
      let (out, accepted) =
        (validate_accepts host form fs (refl, tt)).1 (answer_Acceptable single plain listed full) in
      (
        out,
        accepted,
        (validate_keeps host form fs (refl, tt) out accepted f.name (str c)).1 (stored, full),
      )
