-- ===== src/Dict/Remaining.antt =====
-- A measure for walks that never pass a key twice.
use zooid.Dict.{Dict, get, insert}
use zooid.Dict.Laws.{includes-insert}
use zooid.Prelude.{
  List, String, [], arith, eq_iff, false, if◌then◌else◌, includes, length, some, suc, ℕ, ◌<◌, ◌∷◌,
  ◌≡◌, ◌≤◌,
}

-- The entries whose key is not among the seen ones.
unfoldable pub remaining : List String → Dict String → ℕ
remaining seen [] = 0
remaining seen ((k, v) ∷ m) = if includes k seen then remaining seen m else suc (remaining seen m)

pub remaining-le : (seen : List String) (m : Dict String) → remaining seen m ≤ length m
unfolding remaining
remaining-le seen [] = omega arith
remaining-le seen ((k, v) ∷ m) = ground (arith, remaining-le seen m)

remaining-insert-le :
    (s : String) (seen : List String) (m : Dict String)
    → remaining (insert s seen) m ≤ remaining seen m
unfolding remaining
remaining-insert-le s seen [] = omega arith
remaining-insert-le s seen ((k, v) ∷ m) =
    ground (arith, remaining-insert-le s seen m, includes-insert k s seen)

-- Seeing a key that has an entry leaves fewer.
pub remaining-insert-lt :
    (s p : String) (seen : List String) (m : Dict String)
    → get s m ≡ some p
    → includes s seen ≡ false
    → remaining (insert s seen) m < remaining seen m
unfolding remaining get
remaining-insert-lt s p seen [] h new = absurd (ground arith)
remaining-insert-lt s p seen ((k, v) ∷ m) h new = ground (
  arith,
  remaining-insert-lt s p seen m,
  remaining-insert-le s seen m,
  includes-insert k s seen,
  eq_iff k s,
)
