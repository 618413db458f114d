-- ===== src/Dict/Laws.antt =====
-- Lookups after writes.
use zooid.Dict.{Dict, delete, get, has, insert, keys, remove, set}
use zooid.Prelude.{
  List, String, [], arith, eq_iff, eq_refl, if◌then◌else◌, includes, none, not, refl, some, ◌&&◌,
  ◌==◌, ◌||◌, ◌∷◌, ◌≡◌,
}

module _ {ℓ} {V : Type ℓ} where
  pub get-set :
      (j k : String) (v : V) (m : Dict V) → get j (set k v m) ≡ (if k == j then some v else get j m)
  unfolding get set
  get-set j k v [] = refl
  get-set j k v ((i, w) ∷ m) = ground (arith, eq_iff k j, eq_iff i k, eq_iff i j, get-set j k v m)

  pub get-delete :
      (j k : String) (m : Dict V) → get j (delete k m) ≡ (if k == j then none else get j m)
  unfolding get delete
  get-delete j k [] = ground arith
  get-delete j k ((i, w) ∷ m) = ground (arith, eq_iff k j, eq_iff i k, eq_iff i j, get-delete j k m)

  pub get-set_self : (k : String) (v : V) (m : Dict V) → get k (set k v m) ≡ some v
  get-set_self k v m = simp (get-set, eq_refl)

  pub get-delete_self : (k : String) (m : Dict V) → get k (delete k m) ≡ none
  get-delete_self k m = simp (get-delete, eq_refl)

  pub includes-keys : (k : String) (m : Dict V) → includes k (keys m) ≡ has k m
  unfolding keys get
  includes-keys k [] = refl
  includes-keys k ((j, v) ∷ m) = ground (arith, includes-keys k m)

  -- A key is stored once.
  abbrev pub Unique : Dict V → Type ℓ
  Unique [] = Unit
  Unique ((k, v) ∷ m) = (get k m ≡ none) × Unique m

  pub set-Unique : (k : String) (v : V) (m : Dict V) → Unique m → Unique (set k v m)
  unfolding set get
  set-Unique k v [] u = (refl, tt)
  set-Unique k v ((j, w) ∷ m) u =
      ground (arith, set-Unique k v m u.1, get-set j k v m, eq_iff j k, eq_iff k j)

  pub delete-Unique : (k : String) (m : Dict V) → Unique m → Unique (delete k m)
  unfolding delete
  delete-Unique k [] u = tt
  delete-Unique k ((j, w) ∷ m) u =
      ground (arith, delete-Unique k m u.1, get-delete j k m, eq_iff k j)

module _ (j k : String) where
  pub includes-insert : (s : List String) → includes j (insert k s) ≡ (k == j || includes j s)
  unfolding insert
  includes-insert [] = refl
  includes-insert (i ∷ s) = ground (arith, includes-insert s, eq_iff i k, eq_iff i j, eq_iff k j)

  pub includes-remove : (s : List String) → includes j (remove k s) ≡ (not (k == j) && includes j s)
  unfolding remove
  includes-remove [] = ground arith
  includes-remove (i ∷ s) = ground (arith, includes-remove s, eq_iff i k, eq_iff i j, eq_iff k j)
