-- ===== src/Tasks/Step.antt =====
-- The calls of the registry as one step function, and histories of calls after a start of the daemon.
use zooid.Dict.{get}
use zooid.Prelude.{Bool, List, Option, String, [], false, none, some, ℕ, ◌==◌, ◌∷◌, ◌≡◌}
use zooid.Tasks.{
  Reservation, TaskRecord, TaskRegistry, abandon, activate, adopt, bump_generation, clear_summary,
  close, init, is_closed, mark_uncertain, record_summary, reserve, restore,
}

pub data Call : Type 0 where
  reserves : (id : String) → Reservation → Call
  activates : (id root : String) → Call
  abandons : (id : String) → Call
  marks : (id : String) → Call
  adopts : (id root : String) → Call
  records : (id summary : String) → Call
  clears : (id : String) → Call
  closes : (now : ℕ) → (id : String) → Call
  bumps : (agent session : String) → Call

unfoldable pub step : Call → TaskRegistry → TaskRegistry
step (reserves id r) c = (reserve id r c).0
step (activates id root) c = activate id root c
step (abandons id) c = abandon id c
step (marks id) c = mark_uncertain id c
step (adopts id root) c = adopt id root c
step (records id s) c = (record_summary id s c).0
step (clears id) c = clear_summary id c
step (closes now id) c = (close now id c).0
step (bumps a s) c = bump_generation a s c

unfoldable pub run : List Call → TaskRegistry → TaskRegistry
unfolding step
run [] c = c
run (x ∷ xs) c = run xs (step x c)

-- The registry that a daemon starts with, from the rows of its journal.
abbrev pub started : ℕ → List TaskRecord → Option ℕ → Option ℕ → Bool → String → TaskRegistry
started now rows max max_closed journal run_id =
    (restore now rows (init max max_closed journal run_id)).0

-- A row that another run wrote.
abbrev pub Foreign : String → TaskRecord → Type 0
Foreign run_id row = elim row.run_id [ none ↦ false | some r ↦ r == run_id ] ≡ false

-- An id is drawn once, and `activate` is called on no closed task.
abbrev pub Allowed : Call → TaskRegistry → Type 0
Allowed (reserves id r) c = get id c.tasks ≡ none
Allowed (activates id root) c =
    (r : TaskRecord) → get id c.tasks ≡ some r → is_closed r.phase ≡ false
Allowed _ c = Unit

abbrev pub Orderly : List Call → TaskRegistry → Type 0
Orderly [] c = Unit
Orderly (x ∷ xs) c = Allowed x c × Orderly xs (step x c)
