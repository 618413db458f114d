-- ===== src/Invocations/Lifecycle.antt =====
-- An invocation that is over stays over.
use mathlib.Core.Path.{subst}
use zooid.Dict.{Dict, get, values}
use zooid.Dict.Laws.{get-set, get-set_self}
use zooid.Invocations.{
  InvocationRecord, InvocationRegistry, attach_call_event, cancel_all, cancel_for_task, cancel_one,
  in_task, is_outstanding, open_call, outstanding, outstanding_for_task, put, resolve, returned,
}
use zooid.Prelude.{
  All, Bool, Bool-cases, List, Option-cases, String, String-cases, [], ap, arith, default, eq_iff,
  false, filter, if◌then◌else◌, inl, inr, none, not, refl, some, true, ◌==◌, ◌∷◌, ◌≡◌,
}

pub data Call : Type 0 where
  opens : (id : String) → InvocationRecord → Call
  attaches : (id event_id session : String) → Call
  resolves : (id : String) → Call
  cancels_task : (task : String) → Call

unfoldable pub step : Call → InvocationRegistry → InvocationRegistry
step (opens id r) c = open_call id r c
step (attaches id event_id session) c = attach_call_event id event_id session c
step (resolves id) c = (resolve id c).0
step (cancels_task task) c = (cancel_for_task task c).0

unfoldable pub run : List Call → InvocationRegistry → InvocationRegistry
unfolding step
run [] c = c
run (x ∷ xs) c = run xs (step x c)

-- No call is opened under the id.
abbrev pub spares : String → Call → Bool
spares id (opens i r) = not (i == id)
spares id _ = true

-- The invocation of an id is over.
abbrev pub Over : String → InvocationRegistry → Type 0
Over id c = (r : InvocationRecord) × (get id c.records ≡ some r) × (is_outstanding r.state ≡ false)

put-Over :
    (id i : String) (r x : InvocationRecord) (c : InvocationRegistry)
    → get i c.records ≡ some x
    → (is_outstanding x.state ≡ false → is_outstanding r.state ≡ false)
    → Over id c
    → Over id (put i r c)
put-Over id i r x c found keep (y, h, over) = elim (String-cases i id) [
  | inl same ↦
      (r, ground (arith, get-set id i r c.records, eq_iff i id), keep (ground (arith, eq_iff i id)))
  | inr other ↦ (y, ground (arith, get-set id i r c.records), over)
]

get-cancel_all :
    (task id : String) (r : InvocationRecord) (m : Dict InvocationRecord)
    → get id m ≡ some r
    → get id (cancel_all task m) ≡ some (cancel_one task r)
unfolding get cancel_all
get-cancel_all task id r [] h = absurd (ground arith)
get-cancel_all task id r ((j, x) ∷ m) h = ground (arith, get-cancel_all task id r m, eq_iff j id)

step-Over :
    (id : String) (x : Call) (c : InvocationRegistry)
    → spares id x ≡ true
    → Over id c
    → Over id (step x c)
unfolding step open_call attach_call_event resolve cancel_for_task
step-Over id (opens i r) c spared (y, h, over) = (
  y,
  ground (arith, get-set id i (record r { invocation_id = i; state = outstanding }) c.records),
  over,
)
step-Over id (attaches i event_id session) c spared v = elim (Option-cases (get i c.records)) [
  | inl gone ↦ rw (gone, attach_call_event) v
  | inr (r, found) ↦ rw (found, attach_call_event) (put-Over id i _ r c found (λ over. over) v)
]
step-Over id (resolves i) c spared v = elim (Option-cases (get i c.records)) [
  | inl gone ↦ rw (gone, step, resolve) v
  | inr (r, found) ↦ elim (Bool-cases (is_outstanding r.state)) [
    | inl on ↦ rw (found, step, resolve, on) (put-Over id i _ r c found (λ over. refl) v)
    | inr off ↦ rw (found, step, resolve, off) v
  ]
]
step-Over id (cancels_task task) c spared (y, h, over) =
    (cancel_one task y, get-cancel_all task id y c.records h, ground arith)

run-Over :
    (id : String) (xs : List Call) (c : InvocationRegistry)
    → All (λ x. spares id x ≡ true) xs
    → Over id c
    → Over id (run xs c)
unfolding run
run-Over id [] c spared v = v
run-Over id (x ∷ xs) c spared v = run-Over id xs (step x c) spared.1 (step-Over id x c spared.0 v)

resolve-Over :
    (id : String) (r : InvocationRecord) (c : InvocationRegistry)
    → (resolve id c).1 ≡ some r
    → Over id (resolve id c).0
unfolding resolve
resolve-Over id r c h = elim (Option-cases (get id c.records)) [
  | inl gone ↦ absurd (ground arith)
  | inr (x, found) ↦ elim (Bool-cases (is_outstanding x.state)) [
    | inr off ↦ absurd (ground arith)
    | inl on ↦
        rw (found, resolve, on) (record x { state = returned }, get-set_self id _ c.records, refl)
  ]
]

-- What is resolved is not outstanding.
pub resolve_closes :
    (id : String) (c : InvocationRegistry) (x : InvocationRecord)
    → get id (resolve id c).0.records ≡ some x
    → is_outstanding x.state ≡ false
unfolding resolve
resolve_closes id c x h = elim (Option-cases (get id c.records)) [
  | inl gone ↦ absurd (let e : none ≡ some x = rw (gone, resolve, gone) at h in cc)
  | inr (r, found) ↦ elim (Bool-cases (is_outstanding r.state)) [
    | inr off ↦
        let e : some r ≡ some x = rw (found, resolve, off, found) at h in
        subst (λ y. is_outstanding y.state ≡ false) (ap (λ o. default o r) e) off
    | inl on ↦
        let y : InvocationRecord = record r { state = returned } in
        let e : some y ≡ some x = rw (found, resolve, on, get-set_self id y c.records) at h in
        subst (λ z. is_outstanding z.state ≡ false) (ap (λ o. default o y) e) refl
  ]
]

-- An invocation returns once: after it is resolved, and whatever calls follow that do not draw its id
-- again, resolving it changes nothing and gives no record.
pub resolve_once :
    (id : String) (r : InvocationRecord) (xs : List Call) (c : InvocationRegistry)
    → (resolve id c).1 ≡ some r
    → All (λ x. spares id x ≡ true) xs
    → resolve id (run xs (resolve id c).0) ≡ (run xs (resolve id c).0, none)
unfolding resolve
resolve_once id r xs c h spared =
    let (x, found, over) = run-Over id xs (resolve id c).0 spared (resolve-Over id r c h) in
    rw (found, resolve, over) refl

filter-cancel_all :
    (task other : String) (m : Dict InvocationRecord)
    → filter (in_task other) (values (cancel_all task m))
      ≡ (if task == other then [] else filter (in_task other) (values m))
unfolding cancel_all values
filter-cancel_all task other [] = ground arith
filter-cancel_all task other ((j, x) ∷ m) = ground (
  arith,
  filter-cancel_all task other m,
  eq_iff x.task_id task,
  eq_iff x.task_id other,
  eq_iff task other,
)

-- Cancelling a task's invocations leaves none of them outstanding, and the other tasks' as they were.
cancel_for_task-outstanding :
    (task other : String) (c : InvocationRegistry)
    → outstanding_for_task other (cancel_for_task task c).0
      ≡ (if task == other then [] else outstanding_for_task other c)
unfolding outstanding_for_task cancel_for_task
cancel_for_task-outstanding task other c = filter-cancel_all task other c.records
