-- ===== src/Tasks/Summaries.antt =====
-- packages/core/src/task-registry.ts, `recordSummary`: the first summary of a task stands.
use zooid.Dict.{get}
use zooid.Dict.Laws.{get-set_self}
use zooid.Prelude.{
  All, Bool, List, Option-cases, String, arith, eq_refl, false, inl, inr, not, refl, some, true, ℕ,
  ◌==◌, ◌≡◌,
}
use zooid.Tasks.{TaskRegistry, record_summary}
use zooid.Tasks.Bound.{Sound, record_summary-Sound}
use zooid.Tasks.Kept.{Kept, Stable, run-Kept}
use zooid.Tasks.Step.{Call, Orderly, abandons, clears, run}

abbrev pub spares_summary : String → Call → Bool
spares_summary id (abandons i) = not (i == id)
spares_summary id (clears i) = not (i == id)
spares_summary id _ = true

summary-Stable : (id s : String) → Stable (λ r. r.summary ≡ some s) (spares_summary id) id
summary-Stable id s = record {
  abandoned = ground (arith, eq_refl id);
  cleared = λ spared r has_it. absurd (ground (arith, eq_refl id));
  marked = λ r waits has_it. has_it;
  opened = λ r root c live has_it. has_it;
  recorded = λ r t unset has_it. absurd (ground arith);
  finished = λ r now live has_it. has_it;
}

record_summary-get :
    (id s : String) (c : TaskRegistry)
    → (record_summary id s c).1 ≡ true
    → Kept (λ r. r.summary ≡ some s) id (record_summary id s c).0
unfolding record_summary
record_summary-get id s c h = elim (Option-cases (get id c.tasks)) [
  | inl gone ↦ absurd (ground arith)
  | inr (r, found) ↦ elim (Option-cases r.summary) [
    | inl unset ↦
        rw (found, record_summary, unset)
          (record r { summary = some s }, get-set_self id _ c.tasks, refl)
    | inr (t, set_before) ↦ absurd (ground arith)
  ]
]

-- In a registry whose tasks stand under their own ids and with no more of them open in a room than its
-- bound, a summary that is recorded for a task stands: whatever calls follow, provided that they draw
-- every id once, call `activate` on no closed task, and neither abandon this task nor clear its
-- summary, the task has that summary, and recording another one changes nothing and answers
-- `already_recorded`.
pub record_summary_first :
    (m : ℕ) (id s t : String) (xs : List Call) (c : TaskRegistry)
    → Sound m c
    → (record_summary id s c).1 ≡ true
    → Orderly xs (record_summary id s c).0
    → All (λ x. spares_summary id x ≡ true) xs
    → let c' = run xs (record_summary id s c).0 in
      Kept (λ r. r.summary ≡ some s) id c' × (record_summary id t c' ≡ (c', false))
unfolding record_summary
record_summary_first m id s t xs c v fresh ok spared =
    let (x, found, has_it) =
      run-Kept (λ r. r.summary ≡ some s) id (spares_summary id) (summary-Stable id s) m xs _
        (record_summary-Sound m id s c v) ok spared (record_summary-get id s c fresh) in
    ((x, found, has_it), rw (found, record_summary, has_it) refl)
