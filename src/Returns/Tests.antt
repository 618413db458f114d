-- ===== src/Returns/Tests.antt =====
-- Runs of the component, and its theorems at them.
use zooid.Dict.{delete, get, has, set, values}
use zooid.Dict.Count.{one}
use zooid.Events.{AgentBinding, mention}
use zooid.Prelude.{List, [], arith, eq_iff, false, none, refl, some, true, ◌+◌, ◌∷◌, ◌≡◌, ◌≢◌, ◌≤◌}
use zooid.Returns.{
  PendingReturns, any_running, fresh, hold, init, interrupt, key, open_call, timer_fires,
  turn_ended, turn_finished, turn_started,
}
use zooid.Returns.History.{brought, run-Keyed, run-releases-le}
use zooid.Returns.Interrupted.{Releases, interrupted_turn_ends}
use zooid.Returns.Releases.{Keyed, releases}
use zooid.Returns.Step.{Call, ends, finishes, fires, holds, marks, opens, run, starts}
use zooid.Returns.Timers.{Timed, run-Timed}
use zooid.Texts.{trim}

abbrev planner : AgentBinding
planner = record {
  name = "planner";
  user_id = "@planner:h";
  display_name = none;
  rooms = [];
  trigger = mention;
}

abbrev empty : PendingReturns
empty = init 100 none

empty-Keyed : Keyed empty
unfolding init get
empty-Keyed = record { keyed = λ k p h. absurd (ground arith); unique = tt }

abbrev opening : List Call
opening = opens "coder" "$t" "!r" planner false (some "$t") ∷ starts "coder" "$t" ∷ []

-- The coder was called, and its turn is running.
abbrev working : PendingReturns
working = run opening empty

working-Keyed : Keyed working
working-Keyed = run-Keyed opening empty empty-Keyed

-- It answers; its turn ends.
abbrev calls : List Call
calls =
    opens "coder" "$t" "!r" planner false (some "$t")
    ∷ starts "coder" "$t"
    ∷ holds "coder" "$t" "!r" (planner ∷ []) (some " done ") false
    ∷ ends "coder" "$t"
    ∷ finishes "coder" "$t"
    ∷ fires "coder::$t"
    ∷ []

calls_released :
    (run calls empty).released
    ≡ record {
      callee = "coder";
      room_id = "!r";
      thread_root = "$t";
      targets = planner ∷ [];
      caller_session_key = some "$t";
      text = "done";
    }
      ∷ []
unfolding run init open_call turn_started hold turn_ended turn_finished timer_fires key get set
    delete values any_running trim
calls_released = refl

run-Timed_example : Timed (run calls (init 100 none))
run-Timed_example = run-Timed calls 100 none

run-releases-le_example :
    releases "coder::$t" (run calls (init 100 none)).released
      + one (has "coder::$t" (run calls (init 100 none)).pending)
    ≤ brought "coder::$t" calls
run-releases-le_example = run-releases-le "coder::$t" calls 100 none

-- The coder was called by an agent of another process, and no turn of it runs here.
abbrev away : PendingReturns
away = run (opens "coder" "$t" "!r" planner true none ∷ []) empty

away-Keyed : Keyed away
away-Keyed = run-Keyed _ empty empty-Keyed

-- The coder's return while its turn is running.
-- The callee is interrupted, delegates all the same, and its turn ends.
interrupted_turn_ends_example :
    let c = run (marks "coder" "$t" ∷ finishes "coder" "$t" ∷ []) (interrupt "$t" working) in
    Releases
      (fresh "coder" "$t" "!r" (planner ∷ []) false (some "$t"))
      (key "coder" "$t")
      c
      (turn_ended "coder" "$t" c)
unfolding run open_call turn_started init any_running key get set delete
interrupted_turn_ends_example =
    interrupted_turn_ends "coder" "$t" (fresh "coder" "$t" "!r" (planner ∷ []) false (some "$t"))
      (marks "coder" "$t" ∷ finishes "coder" "$t" ∷ []) working working-Keyed refl refl refl refl
      (refl, (refl, tt))

said : trim " done " ≢ ""
unfolding trim
said h = let e : "done" ≡ "" = h in ground (arith, eq_iff "done" "")
