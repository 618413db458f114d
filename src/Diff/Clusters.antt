-- ===== src/Diff/Clusters.antt =====
-- packages/transport-matrix/src/unified-diff.ts, `unifiedDiff`: how the changed lines are clustered into hunks.
use zooid.Diff.{DiffLine}
use zooid.Diff.Hunks.{clusters, clusters_from, context, is_changed}
use zooid.Prelude.{
  Bool, Bool-cases, List, [], arith, false, inl, inr, leb, none, some, suc, true, zero, ℕ, ◌&&◌,
  ◌+◌, ◌-◌, ◌<◌, ◌||◌, ◌∷◌, ◌≡◌, ◌≤◌,
}

abbrev pub changed_at : ℕ → List DiffLine → Bool
changed_at n [] = false
changed_at zero (l ∷ ls) = is_changed l
changed_at (suc n) (l ∷ ls) = changed_at n ls

abbrev pub inside : ℕ → List (ℕ × ℕ) → Bool
inside j [] = false
inside j ((a, b) ∷ cs) = leb a j && leb j b || inside j cs

-- Clusters in order, which start no earlier than a line, with more than their context between them.
abbrev pub Apart : ℕ → List (ℕ × ℕ) → Type 0
Apart least [] = Unit
Apart least ((a, b) ∷ cs) = (least ≤ a) × (a ≤ b) × Apart (b + context + 1 + context + 1) cs

some-Apart :
    (ls : List DiffLine) (i a b least : ℕ)
    → least ≤ a
    → a ≤ b
    → b < i
    → Apart least (clusters_from ls i (some (a, b)))
unfolding clusters_from
some-Apart [] i a b least low wide old = (low, wide, tt)
some-Apart (l ∷ ls) i a b least low wide old = elim (Bool-cases (is_changed l)) [
  | inr same_line ↦
      rw (same_line, clusters_from) (some-Apart ls (suc i) a b least low wide (omega arith))
  | inl changed ↦ elim (Bool-cases (leb (i - b) (context + context + 1))) [
    | inl near ↦
        rw (changed, clusters_from, near)
          (some-Apart ls (suc i) a i least low (omega arith) (omega arith))
    | inr far ↦
        rw (changed, clusters_from, far)
          (
            low,
            wide,
            some-Apart ls (suc i) i i (b + context + 1 + context + 1) (ground arith) (omega arith)
                (omega arith),
          )
  ]
]

none-Apart : (ls : List DiffLine) (i least : ℕ) → least ≤ i → Apart least (clusters_from ls i none)
unfolding clusters_from
none-Apart [] i least low = tt
none-Apart (l ∷ ls) i least low = elim (Bool-cases (is_changed l)) [
  | inr same_line ↦ rw (same_line, clusters_from) (none-Apart ls (suc i) least (omega arith))
  | inl changed ↦
      rw (changed, clusters_from) (some-Apart ls (suc i) i i least low (omega arith) (omega arith))
]

open_inside :
    (ls : List DiffLine) (i a b j : ℕ)
    → a ≤ j
    → j ≤ b
    → b < i
    → inside j (clusters_from ls i (some (a, b))) ≡ true
unfolding clusters_from
open_inside [] i a b j low high old = ground arith
open_inside (l ∷ ls) i a b j low high old = ground (
  arith,
  open_inside ls (suc i) a b j low high (omega arith),
  open_inside ls (suc i) a i j low (omega arith) (omega arith),
)

line_kept :
    (ls : List DiffLine) (i a b n j : ℕ)
    → b < i
    → a ≤ b
    → j ≡ i + n
    → changed_at n ls ≡ true
    → inside j (clusters_from ls i (some (a, b))) ≡ true
unfolding clusters_from
line_kept [] i a b n j old wide at_line h = absurd (ground arith)
line_kept (l ∷ ls) i a b zero j old wide at_line h = ground (
  arith,
  open_inside ls (suc i) a i j (omega arith) (omega arith) (omega arith),
  open_inside ls (suc i) i i j (omega arith) (omega arith) (omega arith),
)
line_kept (l ∷ ls) i a b (suc n) j old wide at_line h = ground (
  arith,
  line_kept ls (suc i) a b n j (omega arith) wide (omega arith) h,
  line_kept ls (suc i) a i n j (omega arith) (omega arith) (omega arith) h,
  line_kept ls (suc i) i i n j (omega arith) (omega arith) (omega arith) h,
)

line_found :
    (ls : List DiffLine) (i n j : ℕ)
    → j ≡ i + n
    → changed_at n ls ≡ true
    → inside j (clusters_from ls i none) ≡ true
unfolding clusters_from
line_found [] i n j at_line h = absurd (ground arith)
line_found (l ∷ ls) i zero j at_line h =
    ground (arith, open_inside ls (suc i) i i j (omega arith) (omega arith) (omega arith))
line_found (l ∷ ls) i (suc n) j at_line h = ground (
  arith,
  line_found ls (suc i) n j (omega arith) h,
  line_kept ls (suc i) i i n j (omega arith) (omega arith) (omega arith) h,
)

-- The hunks of an edit script cover it and do not overlap: every added or removed line is inside a
-- cluster, and the clusters are in order with so much between two that not even the lines of context
-- behind the first and before the second meet.
pub clusters-Apart :
    (script : List DiffLine)
    → Apart 0 (clusters script)
      × ((n : ℕ) → changed_at n script ≡ true → inside n (clusters script) ≡ true)
clusters-Apart script =
    (none-Apart script 0 0 (omega arith), λ n h. line_found script 0 n n (omega arith) h)
