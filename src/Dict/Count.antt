-- ===== src/Dict/Count.antt =====
-- How many entries pass a test, before and after a write.
use zooid.Prelude.{
  ℕ, ◌+◌, ◌≤◌, String, ◌≡◌, refl, Bool, true, false, none, some, [], ◌∷◌, arith, eq_iff, eq_refl,
}
use zooid.Dict.{Dict, get, set, delete, count}
use zooid.Dict.Laws.{Unique}

abbrev pub one : Bool → ℕ
one true = 1
one false = 0

module _ {ℓ} {V : Type ℓ} (p : V → Bool) where
  pub count-set-some :
      (k : String) (v w : V) (m : Dict V)
      → get k m ≡ some w
      → count p (set k v m) + one (p w) ≡ count p m + one (p v)
  unfolding get set count
  count-set-some k v w [] h = ground arith
  count-set-some k v w ((j, x) ∷ m) h = ground (arith, count-set-some k v w m, eq_iff j k)

  pub count-set-none :
      (k : String) (v : V) (m : Dict V)
      → get k m ≡ none
      → count p (set k v m) ≡ count p m + one (p v)
  unfolding get set count
  count-set-none k v [] h = ground arith
  count-set-none k v ((j, x) ∷ m) h = ground (arith, count-set-none k v m)

  pub count-delete-le : (k : String) (m : Dict V) → count p (delete k m) ≤ count p m
  unfolding delete count
  count-delete-le k [] = omega arith
  count-delete-le k ((j, x) ∷ m) = ground (arith, count-delete-le k m)

  pub count-delete-none :
      (k : String) (m : Dict V) → get k m ≡ none → count p (delete k m) ≡ count p m
  unfolding get delete count
  count-delete-none k [] h = refl
  count-delete-none k ((j, x) ∷ m) h = ground (arith, count-delete-none k m)

  pub count-delete :
      (k : String) (w : V) (m : Dict V)
      → Unique m
      → get k m ≡ some w
      → count p (delete k m) + one (p w) ≡ count p m
  unfolding get delete count
  count-delete k w [] u h = ground arith
  count-delete k w ((j, x) ∷ m) u h =
      ground (arith, count-delete k w m u.1, eq_iff j k, count-delete-none k m)

  -- No entry passes a test that no lookup passes.
  pub count-zero :
      (m : Dict V)
      → Unique m
      → ((k : String) (v : V) → get k m ≡ some v → p v ≡ false)
      → count p m ≡ 0
  unfolding get count
  count-zero [] u h = refl
  count-zero ((j, x) ∷ m) u h =
      ground
        (arith, h j x, eq_refl j, count-zero m u.1 (λ k v e. h k v (ground (arith, eq_iff j k))))
