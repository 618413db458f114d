-- ===== src/Tasks/Tests.antt =====
-- A registry with a bound of one task for each room, and the theorems at its runs.
use zooid.Dict.{count, get, keys, set, values}
use zooid.Prelude.{
  All, List, [], false, filter, map, none, refl, some, true, ◌++◌, ◌↔◌, ◌∷◌, ◌≡◌, ◌≤◌,
}
use zooid.Tasks.{
  Reservation, TaskRecord, TaskRegistry, activate, adopt, bump_generation, caller, close, closed_at,
  enclosing_task_for_root, generation_key, generation_of, init, is_interrupted, open_count,
  open_task_for, opened, record_summary, reserve, restore, saved_rows,
}
use zooid.Tasks.Bound.{run-open_count-le, started-Sound}
use zooid.Tasks.Generations.{activate-generation_of, bumped}
use zooid.Tasks.Kept.{Kept}
use zooid.Tasks.Restore.{Back, restore-Back}
use zooid.Tasks.Step.{Call, Orderly, adopts, bumps, closes, records, reserves, run, started, step}
use zooid.Tasks.Summaries.{record_summary_first}

abbrev order : Reservation
order = record {
  room_id = "!r";
  assignee = "coder";
  notify = caller;
  parent = record {
    agent = "planner";
    thread_root = "$t";
    session_key = "$t";
    generation = 0;
    task_thread_generation = none;
  };
}

-- A row that another run left open, and the registry that starts from it.
abbrev row : TaskRecord
row = record {
  task_id = "t0";
  attempt_id = "t0";
  room_id = "!r";
  assignee = "coder";
  notify = caller;
  parent = order.parent;
  phase = opened;
  thread_root = some "$old";
  summary = none;
  run_id = some "run0";
  closed_at = none;
}

abbrev first : TaskRegistry
first = started 7 (row ∷ []) (some 1) none true "run1"

abbrev calls : List Call
calls =
    reserves "t1" order
    ∷ reserves "t2" order
    ∷ adopts "t1" "$new"
    ∷ records "t1" "done"
    ∷ records "t1" "really"
    ∷ bumps "planner" "$new"
    ∷ closes 9 "t1"
    ∷ []

-- The second reservation is refused; the second summary is not taken.
calls_result :
    (keys (run calls first).tasks ≡ "t0" ∷ "t1" ∷ [])
    × (map (λ (r : TaskRecord). r.summary) (values (run calls first).tasks)
        ≡ none ∷ some "done" ∷ [])
    × (open_count "!r" (run calls first) ≡ 0)
    × (open_task_for "coder" "$new" (run calls first) ≡ none)
    × (enclosing_task_for_root "$old" first ≡ none)
unfolding run restore init reserve adopt record_summary bump_generation close open_task_for
    enclosing_task_for_root get set keys values count
calls_result = (refl, refl, refl, refl, refl)

-- Of two closed tasks, the journal keeps the one closed last.
journal :
    map
      (λ (r : TaskRecord). r.task_id)
      (saved_rows (record (run (calls ++ reserves "t3" order ∷ []) first) { max_closed = 1 }))
    ≡ "t3" ∷ "t1" ∷ []
unfolding saved_rows run restore init reserve adopt record_summary bump_generation close get set
    values count
journal = refl

calls-Orderly : Orderly calls first
unfolding step restore init reserve adopt record_summary get set count
calls-Orderly = (refl, (refl, (tt, (tt, (tt, (tt, (tt, tt)))))))

run-open_count-le_example : open_count "!r" (run calls first) ≤ 1
run-open_count-le_example =
    run-open_count-le 7 (row ∷ []) (some 1) none true "run1" "!r" calls (refl, tt) calls-Orderly

-- The old task is closed by the start.
abbrev old : TaskRecord
old = closed_at 7 row

record_summary_first_example :
    Kept
      (λ r. r.summary ≡ some "done")
      "t0"
      (run (closes 9 "t0" ∷ []) (record_summary "t0" "done" first).0)
    × (record_summary "t0" "really" (run (closes 9 "t0" ∷ []) (record_summary "t0" "done" first).0)
        ≡ (run (closes 9 "t0" ∷ []) (record_summary "t0" "done" first).0, false))
unfolding restore init get set record_summary
record_summary_first_example =
    record_summary_first 1 "t0" "done" "really" (closes 9 "t0" ∷ []) first
      (started-Sound 7 (row ∷ []) (some 1) none true "run1" (refl, tt)) refl (tt, tt) (refl, tt)

activate-generation_of_example :
    (x : TaskRecord) × (get "t0" (activate "t0" "$old" first).tasks ≡ some x)
    × ((x.parent.task_thread_generation
          ≡ some (
              generation_of x.parent.agent "$old"
                (run (bumps "planner" "$old" ∷ []) (activate "t0" "$old" first))))
        ↔ (bumped (generation_key old.parent.agent "$old") (bumps "planner" "$old" ∷ []) ≡ 0))
unfolding restore init get set
activate-generation_of_example =
    activate-generation_of "t0" "$old" old (bumps "planner" "$old" ∷ []) first refl

restore-Back_example :
    All (Back 7 "run1" (started 7 (row ∷ []) (some 1) none true "run1")) (row ∷ [])
    × ((restore 7 (row ∷ []) (init (some 1) none true "run1")).1
        ≡ map (closed_at 7) (filter (is_interrupted "run1") (row ∷ [])))
restore-Back_example = restore-Back 7 (row ∷ []) (some 1) none "run1" (refl, tt) (refl, tt)
