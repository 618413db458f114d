-- ===== src/Tasks/Bound.antt =====
-- The bound on the open tasks of a room.
use zooid.Dict.{Dict, count, get}
use zooid.Dict.Count.{count-delete-le, count-set-none, count-set-some, one}
use zooid.Dict.Laws.{get-delete, get-set}
use zooid.Prelude.{
  All, Bool, Bool-cases, List, Option, Option-cases, String, [], arith, default, eq_iff, false,
  if◌then◌else◌, inl, inr, leb, none, refl, some, true, ℕ, ◌+◌, ◌||◌, ◌∙◌, ◌∷◌, ◌≡◌, ◌≤◌,
}
use zooid.Tasks.{
  Reservation, TaskRecord, TaskRegistry, abandon, activate, activated, adopt, bump_generation,
  clear_summary, close, counts, elsewhere, init, is_closed, is_reserved, mark_uncertain, open_count,
  put, record_summary, reserve, reserved_of, restore, restore_all, restore_one, restored, save,
}
use zooid.Tasks.Step.{
  Allowed, Call, Foreign, Orderly, abandons, activates, adopts, bumps, clears, closes, marks,
  records, reserves, run, started, step,
}

-- Tasks are stored under their ids, and no more than the limit of them are open in a room.
pub record Sound (m : ℕ) (c : TaskRegistry) : Type 0 where
  pub keyed : (id : String) (r : TaskRecord) → get id c.tasks ≡ some r → r.task_id ≡ id
  pub limit : c.max ≡ m
  pub bounded : (room : String) → open_count room c ≤ m

-- How much the task of an id counts in a room.
abbrev counted : String → String → TaskRegistry → ℕ
counted room id c = elim (get id c.tasks) [ none ↦ 0 | some r ↦ one (counts room r) ]

open_count-put :
    (room id : String) (r : TaskRecord) (c : TaskRegistry)
    → open_count room (put id r c) + counted room id c ≡ open_count room c + one (counts room r)
open_count-put room id r c = elim (Option-cases (get id c.tasks)) [
  | inl gone ↦ rw (gone, counted) (omega (arith, count-set-none (counts room) id r c.tasks gone))
  | inr (x, found) ↦ rw (found, counted) (count-set-some (counts room) id r x c.tasks found)
]

restored-closed :
    (now : ℕ) (run_id : String) (row : TaskRecord)
    → Foreign run_id row
    → is_closed (restored now run_id row).phase ≡ true
restored-closed now run_id row h = ground arith

module _ (m : ℕ) where
  put-Sound :
      (id : String) (r : TaskRecord) (c : TaskRegistry)
      → r.task_id ≡ id
      → ((room : String) → one (counts room r) ≤ counted room id c)
      → Sound m c
      → Sound m (put id r c)
  put-Sound id r c own least v = record {
    limit = v.limit;
    keyed = λ j x h. ground (arith, get-set j id r c.tasks, v.keyed j x, eq_iff id j);
    bounded = λ room. omega (arith, open_count-put room id r c, least room, v.bounded room);
  }

  put_found-Sound :
      (id : String) (r x : TaskRecord) (c : TaskRegistry)
      → get id c.tasks ≡ some x
      → r.task_id ≡ x.task_id
      → ((room : String) → one (counts room r) ≤ one (counts room x))
      → Sound m c
      → Sound m (put id r c)
  put_found-Sound id r x c found own least v =
      put-Sound id r c (own ∙ v.keyed id x found) (λ room. rw (found, counted) (least room)) v

  -- Neither the journal nor the index of roots bears on the bound.
  reindex-Sound :
      (roots : Dict String) (gens : Dict ℕ) (l : List (List TaskRecord)) (c : TaskRegistry)
      → Sound m c
      → Sound m (record c { by_root = roots; generations = gens; saved = l })
  reindex-Sound roots gens l c v = record { limit = v.limit; keyed = v.keyed; bounded = v.bounded }

  save-Sound : (c : TaskRegistry) → Sound m c → Sound m (save c)
  save-Sound c v = record { limit = v.limit; keyed = v.keyed; bounded = v.bounded }

  reserve-Sound :
      (id : String) (r : Reservation) (c : TaskRegistry)
      → get id c.tasks ≡ none
      → Sound m c
      → Sound m (reserve id r c).0
  unfolding reserve
  reserve-Sound id r c new v = elim (Bool-cases (leb c.max (open_count r.room_id c))) [
    | inl full ↦ rw (full, reserve) v
    | inr room_left ↦
        let x = reserved_of id r c in
        rw (room_left, reserve)
          (record {
            limit = v.limit;
            keyed = λ j y h. ground (arith, get-set j id x c.tasks, v.keyed j y, eq_iff id j);
            bounded = λ room. ground (
              arith,
              count-set-none (counts room) id x c.tasks new,
              v.bounded room,
              eq_iff r.room_id room,
            );
          })
  ]

  activate-Sound :
      (id root : String) (c : TaskRegistry)
      → ((r : TaskRecord) → get id c.tasks ≡ some r → is_closed r.phase ≡ false)
      → Sound m c
      → Sound m (activate id root c)
  unfolding activate
  activate-Sound id root c live v = elim (Option-cases (get id c.tasks)) [
    | inl gone ↦ rw (gone, activate) v
    | inr (r, found) ↦
        rw (found, activate)
          (save-Sound _ (
            reindex-Sound _ _ _ _ (
              put_found-Sound id (activated root r c) r c found refl
                (λ room. ground (arith, live r found)) v)))
  ]

  abandon-Sound : (id : String) (c : TaskRegistry) → Sound m c → Sound m (abandon id c)
  unfolding abandon
  abandon-Sound id c v = record {
    limit = v.limit;
    keyed = λ j x h. v.keyed j x (ground (arith, get-delete j id c.tasks));
    bounded = λ room. omega (arith, count-delete-le (counts room) id c.tasks, v.bounded room);
  }

  mark_uncertain-Sound :
      (id : String) (c : TaskRegistry) → Sound m c → Sound m (mark_uncertain id c)
  unfolding mark_uncertain
  mark_uncertain-Sound id c v = elim (Option-cases (get id c.tasks)) [
    | inl gone ↦ rw (gone, mark_uncertain) (save-Sound c v)
    | inr (r, found) ↦ elim (Bool-cases (is_reserved r.phase)) [
      | inl waits ↦
          rw (found, mark_uncertain, waits)
            (save-Sound _ (put_found-Sound id _ r c found refl (λ room. ground arith) v))
      | inr other ↦ rw (found, mark_uncertain, other) (save-Sound c v)
    ]
  ]

  adopt-Sound : (id root : String) (c : TaskRegistry) → Sound m c → Sound m (adopt id root c)
  unfolding adopt
  adopt-Sound id root c v = elim (Option-cases (get id c.tasks)) [
    | inl gone ↦ rw (gone, adopt) v
    | inr (r, found) ↦ elim (Bool-cases (is_closed r.phase || elsewhere root r.thread_root)) [
      | inl kept ↦ rw (found, adopt, kept) v
      | inr free ↦
          rw (found, adopt, free)
            (activate-Sound r.task_id root c (λ x h. ground (arith, v.keyed id r found)) v)
    ]
  ]

  pub record_summary-Sound :
      (id s : String) (c : TaskRegistry) → Sound m c → Sound m (record_summary id s c).0
  unfolding record_summary
  record_summary-Sound id s c v = elim (Option-cases (get id c.tasks)) [
    | inl gone ↦ rw (gone, record_summary) v
    | inr (r, found) ↦ elim (Option-cases r.summary) [
      | inl unset ↦
          rw (found, record_summary, unset)
            (save-Sound _ (put_found-Sound id _ r c found refl (λ room. ground arith) v))
      | inr (t, set_before) ↦ rw (found, record_summary, set_before) v
    ]
  ]

  clear_summary-Sound : (id : String) (c : TaskRegistry) → Sound m c → Sound m (clear_summary id c)
  unfolding clear_summary
  clear_summary-Sound id c v = elim (Option-cases (get id c.tasks)) [
    | inl gone ↦ rw (gone, clear_summary) (save-Sound c v)
    | inr (r, found) ↦
        rw (found, clear_summary)
          (save-Sound _ (put_found-Sound id _ r c found refl (λ room. ground arith) v))
  ]

  close-Sound : (now : ℕ) (id : String) (c : TaskRegistry) → Sound m c → Sound m (close now id c).0
  unfolding close
  close-Sound now id c v = elim (Option-cases (get id c.tasks)) [
    | inl gone ↦ rw (gone, close) v
    | inr (r, found) ↦ elim (Bool-cases (is_closed r.phase)) [
      | inl over ↦ rw (found, close, over) v
      | inr live ↦
          rw (found, close, live)
            (save-Sound _ (put_found-Sound id _ r c found refl (λ room. ground arith) v))
    ]
  ]

  pub step-Sound : (x : Call) (c : TaskRegistry) → Allowed x c → Sound m c → Sound m (step x c)
  unfolding step bump_generation
  step-Sound (reserves id r) c ok v = reserve-Sound id r c ok v
  step-Sound (activates id root) c ok v = activate-Sound id root c ok v
  step-Sound (abandons id) c ok v = abandon-Sound id c v
  step-Sound (marks id) c ok v = mark_uncertain-Sound id c v
  step-Sound (adopts id root) c ok v = adopt-Sound id root c v
  step-Sound (records id s) c ok v = record_summary-Sound id s c v
  step-Sound (clears id) c ok v = clear_summary-Sound id c v
  step-Sound (closes now id) c ok v = close-Sound now id c v
  step-Sound (bumps a s) c ok v = record { limit = v.limit; keyed = v.keyed; bounded = v.bounded }

  restore_all-Sound :
      (now : ℕ) (rows : List TaskRecord) (c : TaskRegistry)
      → All (Foreign c.run_id) rows
      → Sound m c
      → Sound m (restore_all now rows c)
  unfolding restore_all
  restore_all-Sound now [] c h v = v
  restore_all-Sound now (row ∷ rows) c h v =
      restore_all-Sound now rows (restore_one now row c) h.1 (
        reindex-Sound _ _ _ _ (
          put-Sound row.task_id (restored now c.run_id row) c (ground arith)
            (λ room. ground (arith, restored-closed now c.run_id row h.0)) v))

  run-Sound : (xs : List Call) (c : TaskRegistry) → Orderly xs c → Sound m c → Sound m (run xs c)
  unfolding run
  run-Sound [] c ok v = v
  run-Sound (x ∷ xs) c ok v = run-Sound xs (step x c) ok.1 (step-Sound x c ok.0 v)

pub started-Sound :
    (now : ℕ) (rows : List TaskRecord) (max max_closed : Option ℕ) (journal : Bool)
    (run_id : String)
    → All (Foreign run_id) rows
    → Sound (default max 5) (started now rows max max_closed journal run_id)
unfolding restore init get count
started-Sound now rows max max_closed journal run_id h = save-Sound _ _ (
    restore_all-Sound _ now (if journal then rows else []) (init max max_closed journal run_id)
      (elim (Bool-cases journal) [ inl on ↦ rw on h | inr off ↦ rw off tt ])
      (record {
        limit = refl;
        keyed = λ id r e. absurd (ground arith);
        bounded = λ room. omega arith;
      }))

-- However the rooms' tasks are reserved, adopted, abandoned and closed after a start from a journal of
-- other runs, a room never has more open tasks than the bound, 5 unless set: provided each id is drawn
-- once and `activate` is called on no closed task.
pub run-open_count-le :
    (now : ℕ) (rows : List TaskRecord) (max max_closed : Option ℕ) (journal : Bool)
    (run_id room : String) (xs : List Call)
    → All (Foreign run_id) rows
    → Orderly xs (started now rows max max_closed journal run_id)
    → open_count room (run xs (started now rows max max_closed journal run_id)) ≤ default max 5
run-open_count-le now rows max max_closed journal run_id room xs foreign ok =
    (run-Sound (default max 5) xs _ ok
        (started-Sound now rows max max_closed journal run_id foreign)).bounded
      room
