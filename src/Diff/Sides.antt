-- ===== src/Diff/Sides.antt =====
-- An edit script spells the old lines and the new ones.
use mathlib.Core.List.{append-nil}
use zooid.Diff.{DiffLine, add, ctx, del, edit_script, lcs, line, walk}
use zooid.Prelude.{
  Bool-cases, List, String, [], ap, arith, eq_iff, inl, inr, leb, length, ltb, map, refl, ◌++◌, ◌+◌,
  ◌==◌, ◌∙◌, ◌∷◌, ◌≡◌,
}

-- The lines of the old side, of the new side, and of both.
abbrev pub old_of : List DiffLine → List String
old_of [] = []
old_of (l ∷ ls) = elim l.kind [
  | ctx ↦ l.text ∷ old_of ls
  | del ↦ l.text ∷ old_of ls
  | add ↦ old_of ls
]

abbrev pub new_of : List DiffLine → List String
new_of [] = []
new_of (l ∷ ls) = elim l.kind [
  | ctx ↦ l.text ∷ new_of ls
  | del ↦ new_of ls
  | add ↦ l.text ∷ new_of ls
]

abbrev pub Spells : List DiffLine → List String → List String → Type 0
Spells ls olds news = (old_of ls ≡ olds) × (new_of ls ≡ news)

adds-Spells : (ys : List String) → Spells (map (line add) ys) [] ys
adds-Spells [] = (refl, refl)
adds-Spells (y ∷ ys) = let (a, b) = adds-Spells ys in (a, ap (λ l. y ∷ l) b)

dels-Spells :
    (xs : List String) (ls : List DiffLine) (olds news : List String)
    → Spells ls olds news
    → Spells (map (line del) xs ++ ls) (xs ++ olds) news
dels-Spells [] ls olds news h = h
dels-Spells (x ∷ xs) ls olds news h =
    let (a, b) = dels-Spells xs ls olds news h in (ap (λ l. x ∷ l) a, b)

only_dels-Spells : (xs : List String) → Spells (map (line del) xs) xs []
only_dels-Spells [] = (refl, refl)
only_dels-Spells (x ∷ xs) = let (a, b) = only_dels-Spells xs in (ap (λ l. x ∷ l) a, b)

walk-Spells : (xs ys : List String) → Spells (walk xs ys) xs ys
unfolding walk
walk-Spells [] ys = adds-Spells ys
walk-Spells (x ∷ xs) [] = only_dels-Spells (x ∷ xs)
walk-Spells (x ∷ xs) (y ∷ ys) = elim (Bool-cases (x == y)) [
  | inl same ↦
      let (a, b) = walk-Spells xs ys in
      rw (same, walk) (ap (λ l. x ∷ l) a, ground (arith, eq_iff x y))
  | inr other ↦ elim (Bool-cases (leb (lcs (x ∷ xs) ys) (lcs xs (y ∷ ys)))) [
    | inl down ↦
        let (a, b) = walk-Spells xs (y ∷ ys) in rw (other, down, walk) (ap (λ l. x ∷ l) a, b)
    | inr right ↦
        let (a, b) = walk-Spells (x ∷ xs) ys in rw (other, right, walk) (a, ap (λ l. y ∷ l) b)
  ]
]

-- An edit script spells both texts: its kept and removed lines are the old lines in order, its kept and
-- added lines the new ones, also where the texts are too long for the table.
pub edit_script-Spells : (olds news : List String) → Spells (edit_script olds news) olds news
unfolding edit_script
edit_script-Spells [] news = adds-Spells news
edit_script-Spells (x ∷ xs) [] = only_dels-Spells (x ∷ xs)
edit_script-Spells (x ∷ xs) (y ∷ ys) =
    elim (Bool-cases (ltb 4000 (length (x ∷ xs) + length (y ∷ ys)))) [
      | inl long ↦
          let (a, b) =
            dels-Spells (x ∷ xs) (map (line add) (y ∷ ys)) [] (y ∷ ys) (adds-Spells (y ∷ ys)) in
          rw (long, edit_script) (a ∙ append-nil (x ∷ xs), b)
      | inr short ↦ rw (short, edit_script) (walk-Spells (x ∷ xs) (y ∷ ys))
    ]
