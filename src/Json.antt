-- ===== src/Json.antt =====
-- The values that `unknown` stands for where packages/core/src/elicitation-schema.ts and
-- packages/transport-matrix/src read parsed JSON. The type of the numbers is a parameter: the
-- model computes with no floating point.
use zooid.Dict.{Dict}
use zooid.Prelude.{Bool, List, Option, String, [], none, some, ◌∷◌}

mutual
  pub data Json (N : Type 0) : Type 0 where
    null : Json N
    bool : Bool → Json N
    num : N → Json N
    str : String → Json N
    arr : Items N → Json N
    obj : Fields N → Json N

  pub data Items (N : Type 0) : Type 0 where
    nil : Items N
    cons : Json N → Items N → Items N

  pub data Fields (N : Type 0) : Type 0 where
    end : Fields N
    field : String → Json N → Fields N → Fields N

module _ {N : Type 0} where
  unfoldable pub elements : Items N → List (Json N)
  elements nil = []
  elements (cons x xs) = x ∷ elements xs

  -- `Object.entries`.
  unfoldable pub entries : Fields N → Dict (Json N)
  entries end = []
  entries (field k v fs) = (k, v) ∷ entries fs

  -- `isObj`, with what an object holds.
  unfoldable pub is_obj : Json N → Option (Dict (Json N))
  unfolding entries
  is_obj (obj fs) = some (entries fs)
  is_obj _ = none

  -- `Array.isArray`, with the elements.
  unfoldable pub is_array : Option (Json N) → Option (List (Json N))
  unfolding elements
  is_array (some (arr xs)) = some (elements xs)
  is_array _ = none

  -- `typeof v === 'string'`, with the text.
  abbrev pub as_text : Option (Json N) → Option String
  as_text (some (str s)) = some s
  as_text _ = none

  -- `typeof v === 'number'`, with the number.
  abbrev pub as_number : Option (Json N) → Option N
  as_number (some (num n)) = some n
  as_number _ = none

  -- `x ?? y`.
  abbrev pub coalesce : Option (Json N) → Option (Json N) → Option (Json N)
  coalesce none y = y
  coalesce (some null) y = y
  coalesce (some v) y = some v

  -- `filter((x): x is string => typeof x === 'string')`.
  unfoldable pub texts : List (Json N) → List String
  texts [] = []
  texts (x ∷ xs) = elim (as_text (some x)) [ none ↦ texts xs | some s ↦ s ∷ texts xs ]

  -- A list of texts.
  abbrev pub items_of : List String → Items N
  items_of [] = nil
  items_of (s ∷ ss) = cons (str s) (items_of ss)

  -- An object with given entries.
  abbrev pub fields_from : Dict (Json N) → Fields N
  fields_from [] = end
  fields_from ((k, v) ∷ m) = field k v (fields_from m)
