-- ===== src/Diff/Shortest.antt =====
-- An edit script keeps as many lines as it can.
use zooid.Diff.{DiffLine, add, ctx, del, edit_script, lcs, line, max, rest, row_of, table, walk}
use zooid.Prelude.{
  Bool-cases, List, String, [], ap, arith, eq_iff, if◌then◌else◌, inl, inr, leb, length, ltb, map,
  refl, suc, sym, ℕ, ◌+◌, ◌==◌, ◌∙◌, ◌∷◌, ◌≡◌, ◌≤◌, ◌⊎◌,
}

-- How many lines a script keeps.
abbrev pub kept : List DiffLine → ℕ
kept [] = 0
kept (l ∷ ls) = elim l.kind [ ctx ↦ suc (kept ls) | del ↦ kept ls | add ↦ kept ls ]

-- A text is a part of another, with lines left out.
abbrev pub Sub : List String → List String → Type 0
Sub [] xs = Unit
Sub (z ∷ zs) [] = ⊥
Sub (z ∷ zs) (x ∷ xs) = ((z ≡ x) × Sub zs xs) ⊎ Sub (z ∷ zs) xs

Sub-tail : (z : String) (zs xs : List String) → Sub (z ∷ zs) xs → Sub zs xs
Sub-tail z zs [] s = absurd s
Sub-tail z [] (x ∷ xs) s = tt
Sub-tail z (w ∷ zs) (x ∷ xs) (inl (e, s)) = inr s
Sub-tail z (w ∷ zs) (x ∷ xs) (inr s) = inr (Sub-tail z (w ∷ zs) xs s)

rest-table :
    (xs : List String) (y : String) (ys : List String) → rest (table xs (y ∷ ys)) ≡ table xs ys
unfolding table
rest-table [] y ys = refl
rest-table (x ∷ xs) y ys = ap (row_of x ys) (rest-table xs y ys)

-- The table's recurrence.
lcs-cons :
    (x : String) (xs : List String) (y : String) (ys : List String)
    → lcs (x ∷ xs) (y ∷ ys)
      ≡ (if x == y then suc (lcs xs ys) else max (lcs xs (y ∷ ys)) (lcs (x ∷ xs) ys))
unfolding lcs
lcs-cons x xs y ys = rw (rest-table xs y ys, table, row_of) refl

lcs-none : (ys : List String) → lcs [] ys ≡ 0
unfolding lcs
lcs-none [] = refl
lcs-none (y ∷ ys) = refl

kept-adds : (ys : List String) → kept (map (line add) ys) ≡ 0
kept-adds [] = refl
kept-adds (y ∷ ys) = kept-adds ys

kept-dels : (xs : List String) → kept (map (line del) xs) ≡ 0
kept-dels [] = refl
kept-dels (x ∷ xs) = kept-dels xs

kept-walk : (xs ys : List String) → kept (walk xs ys) ≡ lcs xs ys
unfolding walk lcs
kept-walk [] ys = kept-adds ys ∙ sym (lcs-none ys)
kept-walk (x ∷ xs) [] = kept-dels xs
kept-walk (x ∷ xs) (y ∷ ys) = elim (Bool-cases (x == y)) [
  | inl same ↦ rw (same, walk) (ground (arith, kept-walk xs ys, lcs-cons x xs y ys))
  | inr other ↦ elim (Bool-cases (leb (lcs (x ∷ xs) ys) (lcs xs (y ∷ ys)))) [
    | inl down ↦ rw (other, down, walk) (ground (arith, kept-walk xs (y ∷ ys), lcs-cons x xs y ys))
    | inr right ↦
        rw (other, right, walk) (ground (arith, kept-walk (x ∷ xs) ys, lcs-cons x xs y ys))
  ]
]

-- No common part is longer than the table's number.
lcs_bounds : (zs xs ys : List String) → Sub zs xs → Sub zs ys → length zs ≤ lcs xs ys
lcs_bounds [] xs ys s t = omega arith
lcs_bounds (z ∷ zs) [] ys s t = absurd s
lcs_bounds (z ∷ zs) (x ∷ xs) [] s t = absurd t
lcs_bounds (z ∷ zs) (x ∷ xs) (y ∷ ys) s t = elim (Bool-cases (x == y)) [
  | inl same ↦
      let s' : Sub zs xs = elim s [ inl (e, u) ↦ u | inr u ↦ Sub-tail z zs xs u ] in
      let t' : Sub zs ys = elim t [ inl (e, u) ↦ u | inr u ↦ Sub-tail z zs ys u ] in
      ground (arith, lcs-cons x xs y ys, lcs_bounds zs xs ys s' t')
  | inr other ↦ elim s [
    | inr u ↦ ground (arith, lcs-cons x xs y ys, lcs_bounds (z ∷ zs) xs (y ∷ ys) u t)
    | inl (e, u) ↦ elim t [
      | inr v ↦ ground (arith, lcs-cons x xs y ys, lcs_bounds (z ∷ zs) (x ∷ xs) ys (inl (e, u)) v)
      | inl (e', v) ↦ absurd (ground (arith, eq_iff x y))
    ]
  ]
]

-- The edit script of texts that fit the table is a shortest one: no text that is a part of both the old
-- and the new one has more lines than the script keeps.
pub edit_script_shortest :
    (zs olds news : List String)
    → length olds + length news ≤ 4000
    → Sub zs olds
    → Sub zs news
    → length zs ≤ kept (edit_script olds news)
unfolding edit_script
edit_script_shortest [] olds news fits s t = omega arith
edit_script_shortest (z ∷ zs) [] news fits s t = absurd s
edit_script_shortest (z ∷ zs) (x ∷ xs) [] fits s t = absurd t
edit_script_shortest (z ∷ zs) (x ∷ xs) (y ∷ ys) fits s t =
    elim (Bool-cases (ltb 4000 (length (x ∷ xs) + length (y ∷ ys)))) [
      | inl long ↦ absurd (ground arith)
      | inr short ↦
          rw (short, edit_script)
            (omega (arith, kept-walk (x ∷ xs) (y ∷ ys), lcs_bounds (z ∷ zs) (x ∷ xs) (y ∷ ys) s t))
    ]
