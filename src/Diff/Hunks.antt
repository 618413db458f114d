-- ===== src/Diff/Hunks.antt =====
-- packages/transport-matrix/src/unified-diff.ts: `unifiedDiff`, the hunks of an edit script and their text,
-- and `capDiff`, which cuts it to its budget.
use Prim.Native.String
use Prim.Native.Char.{code}
use zooid.Diff.{DiffLine, add, ctx, del, edit_script}
use zooid.Prelude.{
  Bool, List, Option, String, [], any, default, false, filter, if◌then◌else◌, leb, length, ltb, map,
  none, not, some, suc, true, zero, ℕ, ◌&&◌, ◌++◌, ◌+◌, ◌-◌, ◌==◌, ◌||◌, ◌∷◌,
}
use zooid.Texts.{concat, decimal, decimal_on, eqb, join, units}

abbrev pub context : ℕ
context = 3

abbrev pub diff_max : ℕ
diff_max = 1200

abbrev push : String → List String → List String
push c [] = c ∷ []
push c (l ∷ ls) = String.◌++◌ c l ∷ ls

unfoldable pub split_text : String → List String
split_text String.[] = "" ∷ []
split_text (String.◌∷◌ c s) =
    let lines = split_text s in
    if eqb (code c) 10 then "" ∷ lines else push (String.◌∷◌ c String.[]) lines

abbrev pub drop_trailing : List String → List String
drop_trailing [] = []
drop_trailing (l ∷ []) = if l == "" then [] else l ∷ []
drop_trailing (l ∷ k ∷ ls) = l ∷ drop_trailing (k ∷ ls)

unfoldable pub split_lines : String → List String
unfolding split_text
split_lines s = drop_trailing (split_text s)

abbrev pub is_changed : DiffLine → Bool
is_changed l = elim l.kind [ ctx ↦ false | del ↦ true | add ↦ true ]

abbrev pub on_old : DiffLine → Bool
on_old l = elim l.kind [ ctx ↦ true | del ↦ true | add ↦ false ]

abbrev pub on_new : DiffLine → Bool
on_new l = elim l.kind [ ctx ↦ true | del ↦ false | add ↦ true ]

abbrev pub take : ℕ → List DiffLine → List DiffLine
take zero ls = []
take (suc n) [] = []
take (suc n) (l ∷ ls) = l ∷ take n ls

abbrev pub drop : ℕ → List DiffLine → List DiffLine
drop zero ls = ls
drop (suc n) [] = []
drop (suc n) (l ∷ ls) = drop n ls

-- The loop over the script at a line's index, with the last cluster, which a near change still extends.
unfoldable pub clusters_from : List DiffLine → ℕ → Option (ℕ × ℕ) → List (ℕ × ℕ)
clusters_from [] i none = []
clusters_from [] i (some c) = c ∷ []
clusters_from (l ∷ ls) i none =
    clusters_from ls (suc i) (if is_changed l then some (i, i) else none)
clusters_from (l ∷ ls) i (some (a, b)) =
    let kept = clusters_from ls (suc i) (some (a, b)) in
    let wider = clusters_from ls (suc i) (some (a, i)) in
    let fresh = clusters_from ls (suc i) (some (i, i)) in
    if not (is_changed l)
    then kept
    else if leb (i - b) (context + context + 1)
    then wider
    else (a, b) ∷ fresh

abbrev pub clusters : List DiffLine → List (ℕ × ℕ)
clusters script = clusters_from script 0 none

unfoldable pub hunk_range : ℕ → ℕ → String
unfolding decimal_on
hunk_range before lines =
    if eqb lines 0
    then concat (decimal before ∷ ",0" ∷ [])
    else if eqb lines 1
    then decimal (suc before)
    else concat (decimal (suc before) ∷ "," ∷ decimal lines ∷ [])

abbrev pub marked : DiffLine → String
marked l = String.◌++◌ (elim l.kind [ del ↦ "-" | add ↦ "+" | ctx ↦ " " ]) l.text

abbrev pub count_of : (DiffLine → Bool) → List DiffLine → ℕ
count_of p ls = length (filter p ls)

-- The lines of a cluster with its context; the numbers before a line are counts of the lines before it.
unfoldable pub body_of : List DiffLine → ℕ × ℕ → List DiffLine
body_of script (a, b) = take (b + context + 1 - (a - context)) (drop (a - context) script)

unfoldable pub hunk_of : List DiffLine → ℕ × ℕ → List String
unfolding body_of hunk_range
hunk_of script c =
    let body = body_of script c in
    let before = take (c.0 - context) script in
    concat (
      "@@ -"
      ∷ hunk_range (count_of on_old before) (count_of on_old body)
      ∷ " +"
      ∷ hunk_range (count_of on_new before) (count_of on_new body)
      ∷ " @@"
      ∷ [])
    ∷ map marked body

unfoldable pub size_of : List String → ℕ
unfolding units
size_of [] = 0
size_of (l ∷ ls) = units l + 1 + size_of ls

unfoldable pub total : List (List String) → ℕ
total [] = 0
total (h ∷ hs) = length h + total hs

abbrev pub excerpt_marker : String
excerpt_marker = "… excerpt of the next hunk"

abbrev pub more : ℕ → String
more n = concat ("… +" ∷ decimal n ∷ " more diff lines" ∷ [])

-- The lines that fit, up to the first that does not.
unfoldable pub fitting : ℕ → List String → List String
unfolding units
fitting used [] = []
fitting used (l ∷ ls) =
    let later = fitting (used + (units l + 1)) ls in
    if ltb diff_max (used + units l + 1) then [] else l ∷ later

abbrev pub tail_of : List String → List String
tail_of [] = []
tail_of (l ∷ ls) = ls

-- The hunk that straddles the budget, without its header.
unfoldable pub excerpt : Bool → ℕ → List String → List (List String) → List String
unfolding fitting total decimal_on
excerpt true used hunk later =
    if ltb diff_max (used + units excerpt_marker + 1)
    then more (length hunk + total later) ∷ []
    else let kept = fitting (used + (units excerpt_marker + 1)) (tail_of hunk) in
      excerpt_marker ∷ kept ++ more (length hunk - length kept + total later) ∷ []
excerpt false used hunk later =
    let kept = fitting used (tail_of hunk) in
    kept ++ more (length hunk - length kept + total later) ∷ []

abbrev pub is_empty : List String → Bool
is_empty [] = true
is_empty (l ∷ ls) = false

-- The loop, with whether a whole hunk stands above.
unfoldable pub cap_hunks : Bool → ℕ → List (List String) → List String
unfolding excerpt size_of
cap_hunks above used [] = []
cap_hunks above used (h ∷ hs) =
    let later = cap_hunks (above || not (is_empty h)) (used + size_of h) hs in
    if leb (used + size_of h) diff_max then h ++ later else excerpt above used h hs

unfoldable pub cap_diff : List String → List (List String) → String
unfolding cap_hunks
cap_diff header hunks = join "\n" (header ++ cap_hunks false (size_of header) hunks)

abbrev pub same : Option String → String → Bool
same none s = false
same (some t) s = t == s

unfoldable pub unified_diff : Option String → Option String → String → Option String
unfolding cap_diff hunk_of clusters_from split_lines edit_script
unified_diff path old_text new_text =
    let before : List String = elim old_text [ none ↦ [] | some t ↦ split_lines t ] in
    let after = split_lines new_text in
    let name = default path "file" in
    let script = edit_script before after in
    let old_name : String = elim old_text [
      | none ↦ "/dev/null"
      | some t ↦ concat ("a/" ∷ name ∷ [])
    ] in
    let header : List String =
      concat ("--- " ∷ old_name ∷ []) ∷ concat ("+++ b/" ∷ name ∷ []) ∷ [] in
    if same old_text new_text || is_empty before && is_empty after || not (any is_changed script)
    then none
    else some (cap_diff header (map (hunk_of script) (clusters script)))
