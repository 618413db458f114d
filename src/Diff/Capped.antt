-- ===== src/Diff/Capped.antt =====
-- packages/transport-matrix/src/unified-diff.ts, `capDiff`: what is left of the hunks, and its size.
use mathlib.Core.List.{append_assoc}
use mathlib.Core.Path.{subst}
use zooid.Diff.Hunks.{
  cap_diff, cap_hunks, diff_max, excerpt, excerpt_marker, fitting, more, size_of, total,
}
use zooid.Prelude.{
  Bool, Bool-cases, List, String, [], ap, arith, false, inl, inr, leb, length, length-append, ltb,
  refl, suc, sym, true, ℕ, ◌++◌, ◌+◌, ◌-◌, ◌||◌, ◌∙◌, ◌∷◌, ◌≡◌, ◌≤◌, ◌⊎◌,
}
use zooid.Texts.{join, units}

abbrev pub flat : List (String × List String) → List String
flat [] = []
flat ((h, b) ∷ hs) = (h ∷ b) ++ flat hs

abbrev pub lines_of : List (String × List String) → List (List String)
lines_of [] = []
lines_of ((h, b) ∷ hs) = (h ∷ b) ∷ lines_of hs

abbrev pub some_whole : List (String × List String) → Bool
some_whole [] = false
some_whole (h ∷ hs) = true

-- Below a whole hunk, lines without their header stand under the marker.
abbrev pub Headed : Bool → List String → List String → Type 0
Headed true mark keeps = (mark ≡ excerpt_marker ∷ []) ⊎ ((mark ≡ []) × (keeps ≡ []))
Headed false mark keeps = mark ≡ []

-- All hunks, within the budget; or some whole hunks and the first lines of the next, within the budget,
-- then the number of the lines that are left out, headers included.
pub data Capped (above : Bool) (used : ℕ) (hs : List (String × List String)) (out : List String)
    : Type 0 where
  complete : out ≡ flat hs → used + size_of (flat hs) ≤ diff_max → Capped above used hs out
  cut :
      (fits later : List (String × List String)) (header : String)
      (body mark keeps gone : List String) (n : ℕ)
      → hs ≡ fits ++ (header, body) ∷ later
      → body ≡ keeps ++ gone
      → out ≡ flat fits ++ (mark ++ (keeps ++ more n ∷ []))
      → length keeps + n ≡ suc (length body) + total (lines_of later)
      → used + (size_of (flat fits) + (size_of mark + size_of keeps)) ≤ diff_max
      → Headed (above || some_whole fits) mark keeps
      → Capped above used hs out

size_of-append : (xs ys : List String) → size_of (xs ++ ys) ≡ size_of xs + size_of ys
unfolding size_of
size_of-append [] ys = omega arith
size_of-append (x ∷ xs) ys = omega (arith, size_of-append xs ys)

-- The lines that fit begin the hunk, and fit.
fitting_fits :
    (used : ℕ) (ls : List String)
    → used ≤ diff_max
    → (gone : List String) × (ls ≡ fitting used ls ++ gone)
      × (used + size_of (fitting used ls) ≤ diff_max)
unfolding fitting size_of
fitting_fits used [] small = ([], refl, omega arith)
fitting_fits used (l ∷ ls) small = elim (Bool-cases (ltb diff_max (used + units l + 1))) [
  | inl over ↦ rw (over, fitting) (l ∷ ls, refl, omega arith)
  | inr fits ↦
      let small' : used + (units l + 1) ≤ diff_max = ground arith in
      let (gone, split, size) = fitting_fits (used + (units l + 1)) ls small' in
      rw (fits, fitting) (gone, ap (λ r. l ∷ r) split, omega arith)
]

length-fitting :
    (used : ℕ) (ls gone : List String)
    → ls ≡ fitting used ls ++ gone
    → length (fitting used ls) ≤ length ls
length-fitting used ls gone split =
    let whole = ap length split in let both = length-append (fitting used ls) gone in omega arith

-- The hunk that straddles the budget.
excerpt-Capped :
    (above : Bool) (used : ℕ) (header : String) (body : List String)
    (later : List (String × List String))
    → used ≤ diff_max
    → Capped above used
        ((header, body) ∷ later)
        (excerpt above used (header ∷ body) (lines_of later))
unfolding excerpt size_of
excerpt-Capped false used header body later small =
    let (gone, split, size) = fitting_fits used body small in
    let short = length-fitting used body gone split in
    Capped.cut [] later header body [] (fitting used body) gone
      (length (header ∷ body) - length (fitting used body) + total (lines_of later)) refl split refl
      (omega arith) (omega arith) refl
excerpt-Capped true used header body later small =
    elim (Bool-cases (ltb diff_max (used + units excerpt_marker + 1))) [
      | inl over ↦
          rw (over, excerpt)
            (Capped.cut [] later header body [] [] body
              (length (header ∷ body) + total (lines_of later)) refl refl refl (omega arith)
              (omega arith) (inr (refl, refl)))
      | inr fits ↦
          let small' : used + (units excerpt_marker + 1) ≤ diff_max = ground arith in
          let (gone, split, size) = fitting_fits (used + (units excerpt_marker + 1)) body small' in
          let short = length-fitting (used + (units excerpt_marker + 1)) body gone split in
          rw (fits, excerpt)
            (Capped.cut [] later header body (excerpt_marker ∷ [])
              (fitting (used + (units excerpt_marker + 1)) body) gone
              (length (header ∷ body)
                - length (fitting (used + (units excerpt_marker + 1)) body)
                + total (lines_of later))
              refl split refl (omega arith) (omega arith) (inl refl))
    ]

above_now : (a x : Bool) → ((a || true) || x) ≡ (a || true)
above_now true x = refl
above_now false x = refl

-- A whole hunk above what is capped.
extend :
    (above : Bool) (used : ℕ) (h : String) (b : List String) (hs : List (String × List String))
    (out : List String)
    → Capped (above || true) (used + size_of (h ∷ b)) hs out
    → Capped above used ((h, b) ∷ hs) ((h ∷ b) ++ out)
extend above used h b hs out (complete whole size) =
    let sizes = size_of-append (h ∷ b) (flat hs) in
    Capped.complete (ap (λ o. (h ∷ b) ++ o) whole) (omega arith)
extend above used h b hs out
      (cut fits later header body mark keeps gone n split begun whole counts size headed) =
    let sizes = size_of-append (h ∷ b) (flat fits) in
    Capped.cut ((h, b) ∷ fits) later header body mark keeps gone n (ap (λ o. (h, b) ∷ o) split)
      begun
      (ap (λ o. (h ∷ b) ++ o) whole
        ∙ sym (append_assoc (h ∷ b) (flat fits) (mark ++ (keeps ++ more n ∷ []))))
      counts (omega arith)
      (subst (λ a. Headed a mark keeps) (above_now above (some_whole fits)) headed)

cap_hunks-Capped :
    (above : Bool) (used : ℕ) (hs : List (String × List String))
    → used ≤ diff_max
    → Capped above used hs (cap_hunks above used (lines_of hs))
unfolding cap_hunks size_of
cap_hunks-Capped above used [] small = Capped.complete refl (omega arith)
cap_hunks-Capped above used ((h, b) ∷ hs) small =
    elim (Bool-cases (leb (used + size_of (h ∷ b)) diff_max)) [
      | inr over ↦ rw (over, cap_hunks) (excerpt-Capped above used h b hs small)
      | inl fits ↦
          rw (fits, cap_hunks)
            (extend above used h b hs
              (cap_hunks (above || true) (used + size_of (h ∷ b)) (lines_of hs))
              (cap_hunks-Capped (above || true) (used + size_of (h ∷ b)) hs (ground arith)))
    ]

-- A diff whose header lines fit in the budget is printed whole, within the budget, or is cut: some whole
-- hunks, then the first lines of the next, together within the budget, then the exact number of the
-- lines that are left out. Lines without their hunk's header that stand below a whole hunk stand under
-- the marker of an excerpt, so that no header stands above lines it does not count.
pub cap_diff-Capped :
    (header : List String) (hs : List (String × List String))
    → size_of header ≤ diff_max
    → (out : List String) × (cap_diff header (lines_of hs) ≡ join "\n" (header ++ out))
      × Capped false (size_of header) hs out
unfolding cap_diff
cap_diff-Capped header hs small = (
  cap_hunks false (size_of header) (lines_of hs),
  refl,
  cap_hunks-Capped false (size_of header) hs small,
)
