-- ===== src/Prelude/Lists.antt =====
-- Lists measured by native numbers, and the searches of `Array.prototype`.
use Prim.Native.Nat.{ℕ, suc, ◌+◌}
use Prim.Native.String.{String}
use mathlib.Core.Path.{◌≡◌, refl}
use mathlib.Core.Bool.{Bool, true, false, ◌||◌}
use mathlib.Core.Option.{Option, none, some}
use mathlib.Core.List.{List, [], ◌∷◌, ◌++◌}
use native.Mathlib.Omega.{arith}
use text.Mathlib.Text.{◌==◌}
use text.Mathlib.TextEquality.{eq_iff}
use zooid.Prelude.Tests.{if◌then◌else◌, Bool-cases}
use mathlib.Core.Logic.{inl, inr}

module _ {ℓ} {A : Type ℓ} where
  abbrev pub length : List A → ℕ
  length [] = 0
  length (x ∷ xs) = suc (length xs)

  pub length-append : (xs ys : List A) → length (xs ++ ys) ≡ length xs + length ys
  length-append [] ys = omega arith
  length-append (x ∷ xs) ys = omega (arith, length-append xs ys)

  -- `xs.some(p)`.
  abbrev pub any : (A → Bool) → List A → Bool
  any p [] = false
  any p (x ∷ xs) = p x || any p xs

  -- `xs.filter(p)`.
  abbrev pub filter : (A → Bool) → List A → List A
  filter p [] = []
  filter p (x ∷ xs) = if p x then x ∷ filter p xs else filter p xs

  -- `xs.find(p)`.
  abbrev pub find : (A → Bool) → List A → Option A
  find p [] = none
  find p (x ∷ xs) = if p x then some x else find p xs

  -- `xs.at(-1)`.
  abbrev pub last : List A → Option A
  last [] = none
  last (x ∷ []) = some x
  last (x ∷ y ∷ ys) = last (y ∷ ys)

  abbrev pub All {κ} : (A → Type κ) → List A → Type κ
  All P [] = Unit
  All P (x ∷ xs) = P x × All P xs

-- `xs.includes(s)`.
abbrev pub includes : String → List String → Bool
includes s [] = false
includes s (x ∷ xs) = x == s || includes s xs

pub includes-append :
    (s : String) (xs ys : List String) → includes s (xs ++ ys) ≡ (includes s xs || includes s ys)
includes-append s [] ys = refl
includes-append s (x ∷ xs) ys = ground (arith, includes-append s xs ys)

-- No text stands twice in the list.
abbrev pub Distinct : List String → Type 0
Distinct [] = Unit
Distinct (s ∷ xs) = (includes s xs ≡ false) × Distinct xs

pub Distinct-concat :
    (xs : List String) (s : String) → Distinct xs → includes s xs ≡ false → Distinct (xs ++ s ∷ [])
Distinct-concat [] s d h = (refl, tt)
Distinct-concat (x ∷ xs) s d h = (
  ground (arith, includes-append x xs (s ∷ []), eq_iff s x, eq_iff x s),
  Distinct-concat xs s d.1 (ground arith),
)

-- What holds of every element holds of the ones that a test keeps, with the test.
pub All-filter_and {ℓ κ} :
    {A : Type ℓ} (P : A → Type κ) (p : A → Bool) (xs : List A)
    → All P xs
    → All (λ a. P a × (p a ≡ true)) (filter p xs)
All-filter_and P p [] h = tt
All-filter_and P p (x ∷ xs) h = elim (Bool-cases (p x)) [
  | inl hit ↦ rw hit ((h.0, hit), All-filter_and P p xs h.1)
  | inr miss ↦ rw miss (All-filter_and P p xs h.1)
]

pub All-weaken {ℓ κ ι} :
    {A : Type ℓ} (P : A → Type κ) (Q : A → Type ι) (xs : List A)
    → ((a : A) → P a → Q a)
    → All P xs
    → All Q xs
All-weaken P Q [] f h = tt
All-weaken P Q (x ∷ xs) f h = (f x h.0, All-weaken P Q xs f h.1)
