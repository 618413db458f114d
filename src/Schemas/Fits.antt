-- ===== src/Schemas/Fits.antt =====
-- packages/core/src/elicitation-schema.ts: the values that fit a property, described by rules, are the
-- ones that `checkValue` accepts.
use zooid.Dict.{get}
use zooid.Json.{Items, Json, arr, as_number, as_text, bool, items_of, num, str}
use zooid.Prelude.{
  Bool, Distinct, List, Option, String, [], default, false, length, some, true, ◌∷◌, ◌≡◌,
}
use zooid.Schemas.{Host, Prop, choices_of, format_test, is_type, item_choices_of}
use zooid.Texts.{units}

pub data Listed (s : String) : List String → Type 0 where
  here : {ss : List String} → Listed s (s ∷ ss)
  there : {x : String} {ss : List String} → Listed s ss → Listed s (x ∷ ss)

module _ {N : Type 0} (host : Host N) where
  -- A size or a number lies within the optional limits.
  pub record Within (low high : Option N) (n : N) : Type 0 where
    pub above : (m : N) → low ≡ some m → host.lt n m ≡ false
    pub below : (m : N) → high ≡ some m → host.lt m n ≡ false

  pub record TextFits (p : Prop N) (s : String) : Type 0 where
    pub chosen : (cs : List String) → choices_of p ≡ some cs → Listed s cs
    pub sized :
        Within
          (as_number (get "minLength" p))
          (as_number (get "maxLength" p))
          (host.of_count (units s))
    pub matched :
        (r : String)
        → as_text (get "pattern" p) ≡ some r
        → (test : String → Bool) × (host.reg_exp r ≡ some test) × (test s ≡ true)
    pub formatted :
        (f : String) (test : String → Bool)
        → as_text (get "format" p) ≡ some f
        → format_test host f ≡ some test
        → test s ≡ true

  pub record NumberFits (p : Prop N) (n : N) : Type 0 where
    pub finite : host.is_finite n ≡ true
    pub ranged : Within (as_number (get "minimum" p)) (as_number (get "maximum" p)) n

  pub record ItemsFit (p : Prop N) (ss : List String) : Type 0 where
    pub offered : (s : String) → Listed s ss → Listed s (default (item_choices_of p) [])
    pub distinct : Distinct ss
    pub counted :
        Within
          (as_number (get "minItems" p))
          (as_number (get "maxItems" p))
          (host.of_count (length ss))

  pub data Fits (p : Prop N) : Json N → Type 0 where
    text : (s : String) → is_type "string" p ≡ true → TextFits p s → Fits p (str s)
    integer :
        (n : N)
        → is_type "integer" p ≡ true
        → host.is_integer n ≡ true
        → NumberFits p n
        → Fits p (num n)
    number : (n : N) → is_type "number" p ≡ true → NumberFits p n → Fits p (num n)
    flag : (b : Bool) → is_type "boolean" p ≡ true → Fits p (bool b)
    list :
        (ss : List String) (xs : Items N)
        → is_type "array" p ≡ true
        → xs ≡ items_of ss
        → ItemsFit p ss
        → Fits p (arr xs)
