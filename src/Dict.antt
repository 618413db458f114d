-- ===== src/Dict.antt =====
-- `Map` and `Set` of JavaScript with text keys: entries in the order of their insertion. A write to
-- a key that is there keeps its place.
pub mod Laws
pub mod Count
pub mod Remaining
use zooid.Prelude.{
  ℕ, zero, suc, ◌+◌, String, Bool, true, false, ◌&&◌, ◌||◌, Option, none, some, List, [], ◌∷◌, ◌==◌,
  if◌then◌else◌, is_some,
}

abbrev pub Dict {ℓ} : Type ℓ → Type ℓ
Dict V = List (String × V)

module _ {ℓ} {V : Type ℓ} where
  unfoldable pub get : String → Dict V → Option V
  get k [] = none
  get k ((j, v) ∷ m) = if j == k then some v else get k m

  abbrev pub has : String → Dict V → Bool
  has k m = is_some (get k m)

  unfoldable pub set : String → V → Dict V → Dict V
  set k v [] = (k, v) ∷ []
  set k v ((j, w) ∷ m) = if j == k then (j, v) ∷ m else (j, w) ∷ set k v m

  unfoldable pub delete : String → Dict V → Dict V
  delete k [] = []
  delete k ((j, v) ∷ m) = if j == k then delete k m else (j, v) ∷ delete k m

  unfoldable pub keys : Dict V → List String
  keys [] = []
  keys ((j, v) ∷ m) = j ∷ keys m

  unfoldable pub values : Dict V → List V
  values [] = []
  values ((j, v) ∷ m) = v ∷ values m

  -- How many values pass a test.
  unfoldable pub count : (V → Bool) → Dict V → ℕ
  count p [] = 0
  count p ((j, v) ∷ m) = if p v then suc (count p m) else count p m

-- A `Set` of texts, in the order of insertion.
unfoldable pub insert : String → List String → List String
insert k [] = k ∷ []
insert k (j ∷ s) = if j == k then j ∷ s else j ∷ insert k s

unfoldable pub remove : String → List String → List String
remove k [] = []
remove k (j ∷ s) = if j == k then remove k s else j ∷ remove k s
