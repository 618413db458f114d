-- ===== src/Diff/Tests.antt =====
-- An edit of three lines.
use zooid.Diff.{add, ctx, del, edit_script, line}
use zooid.Diff.Capped.{Capped, cap_diff-Capped, lines_of}
use zooid.Diff.Clusters.{Apart, changed_at, clusters-Apart, inside}
use zooid.Diff.Hunks.{cap_diff, clusters, size_of, unified_diff}
use zooid.Diff.Shortest.{edit_script_shortest, kept}
use zooid.Diff.Sides.{Spells, edit_script-Spells}
use zooid.Prelude.{
  List, String, [], arith, false, inl, inr, length, none, refl, some, true, ℕ, ◌++◌, ◌∷◌, ◌≡◌, ◌≤◌,
}
use zooid.Texts.{join}

abbrev olds : List String
olds = "a" ∷ "b" ∷ "c" ∷ []

abbrev news : List String
news = "a" ∷ "x" ∷ "c" ∷ []

abbrev common : List String
common = "a" ∷ "c" ∷ []

scripted : edit_script olds news ≡ line ctx "a" ∷ line del "b" ∷ line add "x" ∷ line ctx "c" ∷ []
unfolding edit_script
scripted = refl

edit_script-Spells_example : Spells (edit_script olds news) olds news
edit_script-Spells_example = edit_script-Spells olds news

edit_script_shortest_example : length common ≤ kept (edit_script olds news)
edit_script_shortest_example =
    edit_script_shortest common olds news (omega arith) (inl (refl, inr (inl (refl, tt))))
      (inl (refl, inr (inl (refl, tt))))

printed :
    (unified_diff (some "f") (some "a\nb\n") "a\nx\n"
      ≡ some "--- a/f\n+++ b/f\n@@ -1,2 +1,2 @@\n a\n-b\n+x")
    × (unified_diff none none "a" ≡ some "--- /dev/null\n+++ b/file\n@@ -0,0 +1 @@\n+a")
    × (unified_diff none (some "a") "a" ≡ none)
unfolding unified_diff join
printed = (refl, refl, refl)

abbrev header : List String
header = "--- a/f" ∷ "+++ b/f" ∷ []

abbrev hunks : List (String × List String)
hunks = ("@@ -1 +1 @@", "-b" ∷ "+x" ∷ []) ∷ []

cap_diff-Capped_example :
    (out : List String) × (cap_diff header (lines_of hunks) ≡ join "\n" (header ++ out))
    × Capped false (size_of header) hunks out
unfolding size_of
cap_diff-Capped_example = cap_diff-Capped header hunks (omega arith)

clusters-Apart_example :
    Apart 0 (clusters (edit_script olds news))
    × ((n : ℕ)
        → changed_at n (edit_script olds news) ≡ true
        → inside n (clusters (edit_script olds news)) ≡ true)
clusters-Apart_example = clusters-Apart (edit_script olds news)
