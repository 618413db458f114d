-- ===== src/Tasks/Restore.antt =====
-- A start of the daemon from the journal of earlier runs.
use zooid.Dict.{get}
use zooid.Dict.Laws.{get-set, get-set_self}
use zooid.Prelude.{
  All, Distinct, List, Option, Option-cases, String, [], arith, eq_iff, eq_refl, false, filter,
  if◌then◌else◌, includes, inl, inr, map, non_empty, none, refl, some, true, ℕ, ◌==◌, ◌∙◌, ◌∷◌, ◌≡◌,
  ◌≢◌,
}
use zooid.Tasks.{
  TaskRecord, TaskRegistry, closed_at, init, is_interrupted, restore, restore_all, restore_one,
  restored, save, task_for_root,
}
use zooid.Tasks.Step.{started}

-- The roots that rows name.
abbrev pub roots : List TaskRecord → List String
roots [] = []
roots (row ∷ rows) = elim (non_empty row.thread_root) [
  | none ↦ roots rows
  | some root ↦ root ∷ roots rows
]

-- A row is back: its task is in the registry, closed if another run left it open, and it is found by
-- the root of its thread.
pub record Back (now : ℕ) (run_id : String) (c : TaskRegistry) (row : TaskRecord) : Type 0 where
  pub stored : get row.task_id c.tasks ≡ some (restored now run_id row)
  pub rooted :
      (root : String)
      → non_empty row.thread_root ≡ some root
      → row.task_id ≢ ""
      → task_for_root root c ≡ some (restored now run_id row)

restore_all-get :
    (now : ℕ) (k : String) (rows : List TaskRecord) (c : TaskRegistry)
    → includes k (map (λ (r : TaskRecord). r.task_id) rows) ≡ false
    → get k (restore_all now rows c).tasks ≡ get k c.tasks
unfolding restore_all
restore_all-get now k [] c h = refl
restore_all-get now k (row ∷ rows) c h =
    restore_all-get now k rows (restore_one now row c) (ground arith)
    ∙ ground (arith, get-set k row.task_id (restored now c.run_id row) c.tasks)

restore_one-by_root :
    (now : ℕ) (k : String) (row : TaskRecord) (c : TaskRegistry)
    → get k (restore_one now row c).by_root ≡ elim (non_empty row.thread_root) [
      | none ↦ get k c.by_root
      | some root ↦ if root == k then some row.task_id else get k c.by_root
    ]
restore_one-by_root now k row c = elim (Option-cases (non_empty row.thread_root)) [
  | inl gone ↦ ground arith
  | inr (root, e) ↦ ground (arith, get-set k root row.task_id c.by_root)
]

restore_all-by_root :
    (now : ℕ) (k : String) (rows : List TaskRecord) (c : TaskRegistry)
    → includes k (roots rows) ≡ false
    → get k (restore_all now rows c).by_root ≡ get k c.by_root
unfolding restore_all
restore_all-by_root now k [] c h = refl
restore_all-by_root now k (row ∷ rows) c h = elim (Option-cases (non_empty row.thread_root)) [
  | inl gone ↦
      restore_all-by_root now k rows (restore_one now row c) (ground arith)
      ∙ ground (arith, restore_one-by_root now k row c)
  | inr (root, e) ↦
      restore_all-by_root now k rows (restore_one now row c) (ground arith)
      ∙ ground (arith, restore_one-by_root now k row c)
]

restore_first-Back :
    (now : ℕ) (row : TaskRecord) (rows : List TaskRecord) (c : TaskRegistry)
    → includes row.task_id (map (λ (r : TaskRecord). r.task_id) rows) ≡ false
    → ((root : String) → non_empty row.thread_root ≡ some root → includes root (roots rows) ≡ false)
    → Back now c.run_id (restore_all now rows (restore_one now row c)) row
unfolding task_for_root
restore_first-Back now row rows c new fresh_root =
    let kept : get row.task_id (restore_all now rows (restore_one now row c)).tasks
        ≡ some (restored now c.run_id row) =
      restore_all-get now row.task_id rows (restore_one now row c) new
      ∙ get-set_self row.task_id (restored now c.run_id row) c.tasks in
    record {
      stored = kept;
      rooted = λ root e named.
          let at : get root (restore_all now rows (restore_one now row c)).by_root
              ≡ some row.task_id =
            restore_all-by_root now root rows (restore_one now row c) (fresh_root root e)
            ∙ ground (arith, restore_one-by_root now root row c, eq_refl root) in
          ground (arith, kept, at, eq_iff row.task_id "");
    }

restore_all-Back :
    (now : ℕ) (rows : List TaskRecord) (c : TaskRegistry)
    → Distinct (map (λ (r : TaskRecord). r.task_id) rows)
    → Distinct (roots rows)
    → All (Back now c.run_id (restore_all now rows c)) rows
unfolding restore_all
restore_all-Back now [] c d e = tt
restore_all-Back now (row ∷ rows) c d e = elim (Option-cases (non_empty row.thread_root)) [
  | inl gone ↦ (
    restore_first-Back now row rows c d.0 (λ root h. absurd (ground arith)),
    restore_all-Back now rows (restore_one now row c) d.1 (ground arith),
  )
  | inr (root, at) ↦
      let e' : Distinct (root ∷ roots rows) = ground arith in
      (
        restore_first-Back now row rows c d.0 (λ s h. ground arith),
        restore_all-Back now rows (restore_one now row c) d.1 e'.1,
      )
]

-- The journal does not bear on it.
Back-saved :
    (now : ℕ) (run_id : String) (c : TaskRegistry) (rows : List TaskRecord)
    → All (Back now run_id c) rows
    → All (Back now run_id (save c)) rows
unfolding task_for_root
Back-saved now run_id c [] h = tt
Back-saved now run_id c (row ∷ rows) h = (
  record { stored = h.0.stored; rooted = λ root e named. h.0.rooted root e named },
  Back-saved now run_id c rows h.1,
)

-- After a start from a journal in which no task and no root stands twice, every row is back: its task
-- is stored, closed if another run left it open, and found by its thread's root. The tasks that
-- `restore` reports are those that another run left open, and it reports them closed.
pub restore-Back :
    (now : ℕ) (rows : List TaskRecord) (max max_closed : Option ℕ) (run_id : String)
    → Distinct (map (λ (r : TaskRecord). r.task_id) rows)
    → Distinct (roots rows)
    → All (Back now run_id (started now rows max max_closed true run_id)) rows
      × ((restore now rows (init max max_closed true run_id)).1
          ≡ map (closed_at now) (filter (is_interrupted run_id) rows))
unfolding restore init task_for_root
restore-Back now rows max max_closed run_id d e = (
  Back-saved now run_id (restore_all now rows (init max max_closed true run_id)) rows
      (restore_all-Back now rows (init max max_closed true run_id) d e),
  refl,
)
