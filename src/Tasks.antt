-- ===== src/Tasks.antt =====
-- packages/transport-matrix/src/task-registry.ts, `TaskRegistry`. The id that `reserve` draws and the
-- clock are arguments; a time is its milliseconds. The calls of the journal's `save` are the entries of
-- `saved`, oldest first; the rows that `load` returns are an argument of `restore`.
pub mod Step
pub mod Bound
pub mod Kept
pub mod Summaries
pub mod Restore
pub mod Generations
mod Tests
use Prim.Native.String
use zooid.Dict.{Dict, count, delete, get, set, values}
use zooid.Prelude.{
  Bool, List, Option, String, [], default, false, filter, if◌then◌else◌, leb, map, non_empty, none,
  not, some, suc, true, zero, ℕ, ◌&&◌, ◌++◌, ◌==◌, ◌||◌, ◌∷◌,
}

-- The phase `open` is `opened`.
pub data TaskPhase : Type 0 where
  reserved uncertain opened closed : TaskPhase

pub data Notify : Type 0 where
  caller nobody : Notify

pub record Parent : Type 0 where
  pub agent : String
  pub thread_root : String
  pub session_key : String
  pub generation : ℕ
  pub task_thread_generation : Option ℕ

pub record TaskRecord : Type 0 where
  pub task_id : String
  pub attempt_id : String
  pub room_id : String
  pub assignee : String
  pub notify : Notify
  pub parent : Parent
  pub phase : TaskPhase
  pub thread_root : Option String
  pub summary : Option String
  pub run_id : Option String
  pub closed_at : Option ℕ

-- What `reserve` is given.
pub record Reservation : Type 0 where
  pub room_id : String
  pub assignee : String
  pub notify : Notify
  pub parent : Parent

pub record TaskRegistry : Type 0 where
  pub tasks : Dict TaskRecord
  pub by_root : Dict String
  pub generations : Dict ℕ
  pub max : ℕ
  pub max_closed : ℕ
  pub run_id : String
  pub has_journal : Bool
  pub saved : List (List TaskRecord)

unfoldable pub init : Option ℕ → Option ℕ → Bool → String → TaskRegistry
init max max_closed journal run = record {
  tasks = [];
  by_root = [];
  generations = [];
  max = default max 5;
  max_closed = default max_closed 500;
  run_id = run;
  has_journal = journal;
  saved = [];
}

abbrev pub is_closed : TaskPhase → Bool
is_closed closed = true
is_closed _ = false

abbrev pub is_open : TaskPhase → Bool
is_open opened = true
is_open _ = false

abbrev pub is_reserved : TaskPhase → Bool
is_reserved reserved = true
is_reserved _ = false

-- The rank of `closedAt ?? ''`.
abbrev pub stamp : TaskRecord → ℕ
stamp r = elim r.closed_at [ none ↦ 0 | some t ↦ suc t ]

-- The stable sort of `save`, latest first.
abbrev pub place : TaskRecord → List TaskRecord → List TaskRecord
place r [] = r ∷ []
place r (x ∷ xs) = if leb (stamp x) (stamp r) then r ∷ x ∷ xs else x ∷ place r xs

unfoldable pub latest_first : List TaskRecord → List TaskRecord
latest_first [] = []
latest_first (r ∷ rs) = place r (latest_first rs)

abbrev pub take : ℕ → List TaskRecord → List TaskRecord
take zero rs = []
take (suc n) [] = []
take (suc n) (r ∷ rs) = r ∷ take n rs

-- The rows that `save` hands to the journal.
unfoldable pub saved_rows : TaskRegistry → List TaskRecord
unfolding values latest_first
saved_rows c =
    let rows =
      map (λ (r : TaskRecord). record r { run_id = some (default r.run_id c.run_id) })
        (values c.tasks) in
    filter (λ r. not (is_closed r.phase)) rows
    ++ take c.max_closed (latest_first (filter (λ r. is_closed r.phase) rows))

abbrev pub save : TaskRegistry → TaskRegistry
save c = record c { saved = if c.has_journal then c.saved ++ saved_rows c ∷ [] else c.saved }

-- Whether a record counts against the bound of a room.
abbrev pub counts : String → TaskRecord → Bool
counts room r = r.room_id == room && not (is_closed r.phase)

abbrev pub open_count : String → TaskRegistry → ℕ
open_count room c = count (counts room) c.tasks

abbrev pub reserved_of : String → Reservation → TaskRegistry → TaskRecord
reserved_of id r c = record {
  task_id = id;
  attempt_id = id;
  room_id = r.room_id;
  assignee = r.assignee;
  notify = r.notify;
  parent = r.parent;
  phase = reserved;
  thread_root = none;
  summary = none;
  run_id = some c.run_id;
  closed_at = none;
}

abbrev pub put : String → TaskRecord → TaskRegistry → TaskRegistry
put id r c = record c { tasks = set id r c.tasks }

unfoldable pub reserve : String → Reservation → TaskRegistry → TaskRegistry × Option TaskRecord
reserve id r c =
    if leb c.max (open_count r.room_id c)
    then (c, none)
    else (save (put id (reserved_of id r c) c), some (reserved_of id r c))

unfoldable pub generation_key : String → String → String
generation_key agent session = String.◌++◌ agent (String.◌++◌ "::" session)

unfoldable pub generation_of : String → String → TaskRegistry → ℕ
generation_of agent session c = default (get (generation_key agent session) c.generations) 0

-- The record that `activate` leaves.
abbrev pub activated : String → TaskRecord → TaskRegistry → TaskRecord
activated root r c = record r {
  phase = opened;
  thread_root = some root;
  parent = record (r.parent) {
    task_thread_generation = some (generation_of r.parent.agent root c);
  };
}

unfoldable pub activate : String → String → TaskRegistry → TaskRegistry
activate id root c = elim (get id c.tasks) [
  | none ↦ c
  | some r ↦ save (record (put id (activated root r c) c) { by_root = set root id c.by_root })
]

unfoldable pub abandon : String → TaskRegistry → TaskRegistry
abandon id c = save (record c { tasks = delete id c.tasks })

unfoldable pub mark_uncertain : String → TaskRegistry → TaskRegistry
mark_uncertain id c = elim (get id c.tasks) [
  | none ↦ save c
  | some r ↦
      if is_reserved r.phase then save (put id (record r { phase = uncertain }) c) else save c
]

-- `r.threadRoot && r.threadRoot !== threadRoot`.
abbrev pub elsewhere : String → Option String → Bool
elsewhere root none = false
elsewhere root (some s) = not (s == "") && not (s == root)

-- The record that `adopt` returns, which its caller does not read, is left out.
unfoldable pub adopt : String → String → TaskRegistry → TaskRegistry
unfolding activate
adopt id root c = elim (get id c.tasks) [
  | none ↦ c
  | some r ↦
      if is_closed r.phase || elsewhere root r.thread_root then c else activate r.task_id root c
]

unfoldable pub task_for_root : String → TaskRegistry → Option TaskRecord
task_for_root root c = elim (get root c.by_root) [
  | none ↦ none
  | some id ↦ if id == "" then none else get id c.tasks
]

unfoldable pub enclosing_task_for_root : String → TaskRegistry → Option TaskRecord
unfolding task_for_root
enclosing_task_for_root root c = elim (task_for_root root c) [
  | none ↦ none
  | some r ↦ if is_open r.phase then some r else none
]

unfoldable pub open_task_for : String → String → TaskRegistry → Option TaskRecord
unfolding task_for_root
open_task_for agent root c = elim (task_for_root root c) [
  | none ↦ none
  | some r ↦ if is_open r.phase && r.assignee == agent then some r else none
]

-- True for `recorded`.
unfoldable pub record_summary : String → String → TaskRegistry → TaskRegistry × Bool
record_summary id s c = elim (get id c.tasks) [
  | none ↦ (c, false)
  | some r ↦ elim r.summary [
    | none ↦ (save (put id (record r { summary = some s }) c), true)
    | some t ↦ (c, false)
  ]
]

unfoldable pub clear_summary : String → TaskRegistry → TaskRegistry
clear_summary id c = elim (get id c.tasks) [
  | none ↦ save c
  | some r ↦ save (put id (record r { summary = none }) c)
]

abbrev pub closed_at : ℕ → TaskRecord → TaskRecord
closed_at now r = record r { phase = closed; closed_at = some now }

unfoldable pub close : ℕ → String → TaskRegistry → TaskRegistry × Bool
close now id c = elim (get id c.tasks) [
  | none ↦ (c, false)
  | some r ↦ if is_closed r.phase then (c, false) else (save (put id (closed_at now r) c), true)
]

-- A row of another run that is not closed.
abbrev pub is_interrupted : String → TaskRecord → Bool
is_interrupted run row =
    not (is_closed row.phase) && not (elim row.run_id [ none ↦ false | some r ↦ r == run ])

abbrev pub restored : ℕ → String → TaskRecord → TaskRecord
restored now run row = if is_interrupted run row then closed_at now row else row

-- The round of the loop of `restore` for a row.
abbrev pub restore_one : ℕ → TaskRecord → TaskRegistry → TaskRegistry
restore_one now row c = record (put row.task_id (restored now c.run_id row) c) {
  by_root = elim (non_empty row.thread_root) [
    | none ↦ c.by_root
    | some root ↦ set root row.task_id c.by_root
  ];
}

unfoldable pub restore_all : ℕ → List TaskRecord → TaskRegistry → TaskRegistry
restore_all now [] c = c
restore_all now (row ∷ rows) c = restore_all now rows (restore_one now row c)

-- The clock is read once for all rows, where the source reads it for each.
unfoldable pub restore : ℕ → List TaskRecord → TaskRegistry → TaskRegistry × List TaskRecord
unfolding restore_all
restore now loaded c =
    let rows = if c.has_journal then loaded else [] in
    (save (restore_all now rows c), map (closed_at now) (filter (is_interrupted c.run_id) rows))

unfoldable pub bump_generation : String → String → TaskRegistry → TaskRegistry
unfolding generation_of
bump_generation agent session c = record c {
  generations =
      set (generation_key agent session) (suc (generation_of agent session c)) c.generations;
}
