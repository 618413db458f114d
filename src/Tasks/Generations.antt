-- ===== src/Tasks/Generations.antt =====
-- Session generations, which tell a wake from before a `/clear`.
use zooid.Dict.{get}
use zooid.Dict.Count.{one}
use zooid.Dict.Laws.{get-set, get-set_self}
use zooid.Prelude.{
  List, Option-cases, String, [], ap, arith, default, eq_iff, inl, inr, refl, some, suc, ℕ, ◌+◌,
  ◌==◌, ◌↔◌, ◌∷◌, ◌≡◌,
}
use zooid.Tasks.{
  TaskRecord, TaskRegistry, abandon, activate, activated, adopt, bump_generation, clear_summary,
  close, generation_key, generation_of, mark_uncertain, record_summary, reserve,
}
use zooid.Tasks.Step.{
  Call, abandons, activates, adopts, bumps, clears, closes, marks, records, reserves, run, step,
}

abbrev bump_of : String → Call → ℕ
bump_of k (bumps a s) = one (generation_key a s == k)
bump_of k _ = 0

-- How often a history clears the session of a key.
abbrev pub bumped : String → List Call → ℕ
bumped k [] = 0
bumped k (x ∷ xs) = bump_of k x + bumped k xs

abbrev at_key : String → TaskRegistry → ℕ
at_key k c = default (get k c.generations) 0

-- All calls but `bump_generation` leave the generations as they are.
activate-generations :
    (id root : String) (c : TaskRegistry) → (activate id root c).generations ≡ c.generations
unfolding activate
activate-generations id root c = elim (Option-cases (get id c.tasks)) [
  | inl gone ↦ ground arith
  | inr (r, found) ↦ ground arith
]

adopt-generations :
    (id root : String) (c : TaskRegistry) → (adopt id root c).generations ≡ c.generations
unfolding adopt
adopt-generations id root c = elim (Option-cases (get id c.tasks)) [
  | inl gone ↦ ground arith
  | inr (r, found) ↦ ground (arith, activate-generations r.task_id root c)
]

step-at_key :
    (k : String) (x : Call) (c : TaskRegistry) → at_key k (step x c) ≡ at_key k c + bump_of k x
unfolding step reserve abandon mark_uncertain record_summary clear_summary close bump_generation
    generation_of
step-at_key k (reserves id r) c = ground arith
step-at_key k (activates id root) c = ground (arith, activate-generations id root c)
step-at_key k (abandons id) c = omega arith
step-at_key k (marks id) c = elim (Option-cases (get id c.tasks)) [
  | inl gone ↦ ground arith
  | inr (r, found) ↦ ground arith
]
step-at_key k (adopts id root) c = ground (arith, adopt-generations id root c)
step-at_key k (records id s) c = elim (Option-cases (get id c.tasks)) [
  | inl gone ↦ ground arith
  | inr (r, found) ↦ elim (Option-cases r.summary) [
    | inl unset ↦ ground arith
    | inr (t, set_before) ↦ ground arith
  ]
]
step-at_key k (clears id) c = elim (Option-cases (get id c.tasks)) [
  | inl gone ↦ ground arith
  | inr (r, found) ↦ ground arith
]
step-at_key k (closes now id) c = elim (Option-cases (get id c.tasks)) [
  | inl gone ↦ ground arith
  | inr (r, found) ↦ ground arith
]
step-at_key k (bumps a s) c = ground (
  arith,
  get-set k (generation_key a s) (suc (at_key (generation_key a s) c)) c.generations,
  eq_iff (generation_key a s) k,
)

run-at_key :
    (k : String) (xs : List Call) (c : TaskRegistry)
    → at_key k (run xs c) ≡ at_key k c + bumped k xs
unfolding run
run-at_key k [] c = omega arith
run-at_key k (x ∷ xs) c = omega (arith, run-at_key k xs (step x c), step-at_key k x c)

-- The generation of the caller's session in the task's thread, which `activate` records with the task,
-- is the current one after a history exactly if that session was not cleared in the history.
pub activate-generation_of :
    (id root : String) (r : TaskRecord) (xs : List Call) (c : TaskRegistry)
    → get id c.tasks ≡ some r
    → (x : TaskRecord) × (get id (activate id root c).tasks ≡ some x)
      × ((x.parent.task_thread_generation
            ≡ some (generation_of x.parent.agent root (run xs (activate id root c))))
          ↔ (bumped (generation_key r.parent.agent root) xs ≡ 0))
unfolding activate generation_of
activate-generation_of id root r xs c found =
    let k = generation_key r.parent.agent root in
    let later = run-at_key k xs (activate id root c) in
    let now : at_key k (activate id root c) ≡ at_key k c =
      rw (activate-generations id root c) refl in
    (
      activated root r c,
      rw (found, activate) (get-set_self id (activated root r c) c.tasks),
      (λ h. ground (arith, later, now), λ h. ap some (omega (arith, later, now))),
    )
