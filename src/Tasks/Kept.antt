-- ===== src/Tasks/Kept.antt =====
-- What a history keeps of a task: that it is closed, and its summary.
use mathlib.Core.Path.{subst}
use zooid.Dict.{get}
use zooid.Dict.Laws.{get-delete, get-set}
use zooid.Prelude.{
  All, Bool, Bool-cases, List, Option-cases, String, String-cases, [], arith, eq_iff, false, inl,
  inr, leb, none, some, true, ℕ, ◌||◌, ◌∷◌, ◌≡◌,
}
use zooid.Tasks.{
  Reservation, TaskRecord, TaskRegistry, abandon, activate, activated, adopt, bump_generation,
  clear_summary, close, closed_at, elsewhere, is_closed, is_reserved, mark_uncertain, open_count,
  put, record_summary, reserve, reserved_of, uncertain,
}
use zooid.Tasks.Bound.{Sound, step-Sound}
use zooid.Tasks.Step.{
  Allowed, Call, Orderly, abandons, activates, adopts, bumps, clears, closes, marks, records,
  reserves, run, step,
}

-- The task of an id is there, and has a property.
abbrev pub Kept : (TaskRecord → Type 0) → String → TaskRegistry → Type 0
Kept P id c = (r : TaskRecord) × (get id c.tasks ≡ some r) × P r

-- What a call may do to a task that has the property, if the history spares the task.
pub record Stable (P : TaskRecord → Type 0) (spare : Call → Bool) (id : String) : Type 0 where
  pub abandoned : spare (abandons id) ≡ false
  pub cleared : spare (clears id) ≡ true → (r : TaskRecord) → P r → P (record r { summary = none })
  pub marked :
      (r : TaskRecord) → is_reserved r.phase ≡ true → P r → P (record r { phase = uncertain })
  pub opened :
      (r : TaskRecord) (root : String) (c : TaskRegistry)
      → is_closed r.phase ≡ false
      → P r
      → P (activated root r c)
  pub recorded :
      (r : TaskRecord) (s : String) → r.summary ≡ none → P r → P (record r { summary = some s })
  pub finished : (r : TaskRecord) (now : ℕ) → is_closed r.phase ≡ false → P r → P (closed_at now r)

module _ (P : TaskRecord → Type 0) (id : String) where
  put_found-Kept :
      (i : String) (r x : TaskRecord) (c : TaskRegistry)
      → get i c.tasks ≡ some x
      → ((i ≡ id) → P x → P r)
      → Kept P id c
      → Kept P id (put i r c)
  put_found-Kept i r x c found keep (y, h, py) = elim (String-cases i id) [
    | inl same ↦ (
      r,
      ground (arith, get-set id i r c.tasks, eq_iff i id),
      keep same (subst P (ground arith) py),
    )
    | inr other ↦ (y, ground (arith, get-set id i r c.tasks), py)
  ]

  reserve-Kept :
      (i : String) (r : Reservation) (c : TaskRegistry)
      → get i c.tasks ≡ none
      → Kept P id c
      → Kept P id (reserve i r c).0
  unfolding reserve
  reserve-Kept i r c new (y, h, py) = elim (Bool-cases (leb c.max (open_count r.room_id c))) [
    | inl full ↦ rw (full, reserve) (y, h, py)
    | inr room_left ↦
        rw (room_left, reserve)
          (y, ground (arith, get-set id i (reserved_of i r c) c.tasks, eq_iff i id), py)
  ]

  module _ (spare : Call → Bool) (ok : Stable P spare id) where
    activate-Kept :
        (i root : String) (c : TaskRegistry)
        → ((r : TaskRecord) → get i c.tasks ≡ some r → is_closed r.phase ≡ false)
        → Kept P id c
        → Kept P id (activate i root c)
    unfolding activate
    activate-Kept i root c live k = elim (Option-cases (get i c.tasks)) [
      | inl gone ↦ rw (gone, activate) k
      | inr (r, found) ↦
          rw (found, activate)
            (put_found-Kept i (activated root r c) r c found
              (λ same pr. ok.opened r root c (live r found) pr) k)
    ]

    abandon-Kept :
        (i : String) (c : TaskRegistry)
        → spare (abandons i) ≡ true
        → Kept P id c
        → Kept P id (abandon i c)
    unfolding abandon
    abandon-Kept i c spared (y, h, py) = elim (String-cases i id) [
      | inl same ↦ absurd (ground (arith, ok.abandoned))
      | inr other ↦ (y, ground (arith, get-delete id i c.tasks), py)
    ]

    mark_uncertain-Kept :
        (i : String) (c : TaskRegistry) → Kept P id c → Kept P id (mark_uncertain i c)
    unfolding mark_uncertain
    mark_uncertain-Kept i c k = elim (Option-cases (get i c.tasks)) [
      | inl gone ↦ rw (gone, mark_uncertain) k
      | inr (r, found) ↦ elim (Bool-cases (is_reserved r.phase)) [
        | inl waits ↦
            rw (found, mark_uncertain, waits)
              (put_found-Kept i _ r c found (λ same pr. ok.marked r waits pr) k)
        | inr other ↦ rw (found, mark_uncertain, other) k
      ]
    ]

    adopt-Kept :
        (i root : String) (c : TaskRegistry)
        → ((j : String) (r : TaskRecord) → get j c.tasks ≡ some r → r.task_id ≡ j)
        → Kept P id c
        → Kept P id (adopt i root c)
    unfolding adopt
    adopt-Kept i root c keyed k = elim (Option-cases (get i c.tasks)) [
      | inl gone ↦ rw (gone, adopt) k
      | inr (r, found) ↦ elim (Bool-cases (is_closed r.phase || elsewhere root r.thread_root)) [
        | inl stays ↦ rw (found, adopt, stays) k
        | inr free ↦
            rw (found, adopt, free)
              (activate-Kept r.task_id root c (λ x h. ground (arith, keyed i r found)) k)
      ]
    ]

    record_summary-Kept :
        (i s : String) (c : TaskRegistry) → Kept P id c → Kept P id (record_summary i s c).0
    unfolding record_summary
    record_summary-Kept i s c k = elim (Option-cases (get i c.tasks)) [
      | inl gone ↦ rw (gone, record_summary) k
      | inr (r, found) ↦ elim (Option-cases r.summary) [
        | inl unset ↦
            rw (found, record_summary, unset)
              (put_found-Kept i _ r c found (λ same pr. ok.recorded r s unset pr) k)
        | inr (t, set_before) ↦ rw (found, record_summary, set_before) k
      ]
    ]

    clear_summary-Kept :
        (i : String) (c : TaskRegistry)
        → spare (clears i) ≡ true
        → Kept P id c
        → Kept P id (clear_summary i c)
    unfolding clear_summary
    clear_summary-Kept i c spared k = elim (Option-cases (get i c.tasks)) [
      | inl gone ↦ rw (gone, clear_summary) k
      | inr (r, found) ↦
          rw (found, clear_summary)
            (put_found-Kept i _ r c found
              (λ same pr. ok.cleared (subst (λ j. spare (clears j) ≡ true) same spared) r pr) k)
    ]

    close-Kept :
        (now : ℕ) (i : String) (c : TaskRegistry) → Kept P id c → Kept P id (close now i c).0
    unfolding close
    close-Kept now i c k = elim (Option-cases (get i c.tasks)) [
      | inl gone ↦ rw (gone, close) k
      | inr (r, found) ↦ elim (Bool-cases (is_closed r.phase)) [
        | inl over ↦ rw (found, close, over) k
        | inr live ↦
            rw (found, close, live)
              (put_found-Kept i _ r c found (λ same pr. ok.finished r now live pr) k)
      ]
    ]

    step-Kept :
        (x : Call) (c : TaskRegistry)
        → ((j : String) (r : TaskRecord) → get j c.tasks ≡ some r → r.task_id ≡ j)
        → Allowed x c
        → spare x ≡ true
        → Kept P id c
        → Kept P id (step x c)
    unfolding step bump_generation
    step-Kept (reserves i r) c keyed allowed spared k = reserve-Kept i r c allowed k
    step-Kept (activates i root) c keyed allowed spared k = activate-Kept i root c allowed k
    step-Kept (abandons i) c keyed allowed spared k = abandon-Kept i c spared k
    step-Kept (marks i) c keyed allowed spared k = mark_uncertain-Kept i c k
    step-Kept (adopts i root) c keyed allowed spared k = adopt-Kept i root c keyed k
    step-Kept (records i s) c keyed allowed spared k = record_summary-Kept i s c k
    step-Kept (clears i) c keyed allowed spared k = clear_summary-Kept i c spared k
    step-Kept (closes now i) c keyed allowed spared k = close-Kept now i c k
    step-Kept (bumps a s) c keyed allowed spared k = k

    pub run-Kept :
        (m : ℕ) (xs : List Call) (c : TaskRegistry)
        → Sound m c
        → Orderly xs c
        → All (λ x. spare x ≡ true) xs
        → Kept P id c
        → Kept P id (run xs c)
    unfolding run
    run-Kept m [] c v allowed spared k = k
    run-Kept m (x ∷ xs) c v allowed spared k =
        run-Kept m xs (step x c) (step-Sound m x c allowed.0 v) allowed.1 spared.1
          (step-Kept x c v.keyed allowed.0 spared.0 k)
