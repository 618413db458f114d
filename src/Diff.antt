-- ===== src/Diff.antt =====
-- packages/transport-matrix/src/unified-diff.ts, `editScript`: the lines that an edit keeps, removes and
-- adds. A row of the table of longest common subsequences is the list of its numbers.
pub mod Sides
pub mod Shortest
pub mod Hunks
pub mod Capped
pub mod Clusters
mod Tests
use zooid.Prelude.{
  List, String, [], false, if◌then◌else◌, leb, length, ltb, map, suc, true, ℕ, ◌++◌, ◌+◌, ◌==◌, ◌∷◌,
}

pub data Kind : Type 0 where
  ctx del add : Kind

pub record DiffLine : Type 0 where
  pub kind : Kind
  pub text : String

abbrev pub line : Kind → String → DiffLine
line k s = record { kind = k; text = s }

-- `row[j]`, zero past its end.
abbrev pub first : List ℕ → ℕ
first [] = 0
first (n ∷ ns) = n

abbrev pub rest : List ℕ → List ℕ
rest [] = []
rest (n ∷ ns) = ns

abbrev pub max : ℕ → ℕ → ℕ
max a b = if ltb a b then b else a

-- The row of `x` over the row below it, which both run over the suffixes of the new lines.
unfoldable pub row_of : String → List String → List ℕ → List ℕ
row_of x [] below = 0 ∷ []
row_of x (y ∷ ys) below =
    let right = row_of x ys (rest below) in
    (if x == y then suc (first (rest below)) else max (first below) (first right)) ∷ right

unfoldable pub zeros : List String → List ℕ
zeros [] = 0 ∷ []
zeros (y ∷ ys) = 0 ∷ zeros ys

-- The table's row at a suffix of the old lines.
unfoldable pub table : List String → List String → List ℕ
unfolding row_of zeros
table [] ys = zeros ys
table (x ∷ xs) ys = row_of x ys (table xs ys)

-- The table's number at two suffixes.
unfoldable pub lcs : List String → List String → ℕ
unfolding table
lcs xs ys = first (table xs ys)

-- The walk through the table.
unfoldable pub walk : List String → List String → List DiffLine
unfolding lcs
walk [] ys = map (line add) ys
walk (x ∷ xs) [] = map (line del) (x ∷ xs)
walk (x ∷ xs) (y ∷ ys) = elim (x == y) [
  | true ↦ line ctx x ∷ walk xs ys
  | false ↦ elim (leb (lcs (x ∷ xs) ys) (lcs xs (y ∷ ys))) [
    | true ↦ line del x ∷ walk xs (y ∷ ys)
    | false ↦ line add y ∷ walk (x ∷ xs) ys
  ]
]

abbrev pub coarse : List String → List String → List DiffLine
coarse olds news = map (line del) olds ++ map (line add) news

-- `LCS_MAX_LINES` is 4000.
unfoldable pub edit_script : List String → List String → List DiffLine
unfolding walk
edit_script [] news = map (line add) news
edit_script (x ∷ xs) [] = map (line del) (x ∷ xs)
edit_script (x ∷ xs) (y ∷ ys) =
    if ltb 4000 (length (x ∷ xs) + length (y ∷ ys))
    then coarse (x ∷ xs) (y ∷ ys)
    else walk (x ∷ xs) (y ∷ ys)
