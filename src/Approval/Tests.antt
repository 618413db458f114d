-- ===== src/Approval/Tests.antt =====
-- Runs of the correlator, and its theorems at them.
use zooid.Approval.{
  ApprovalCorrelator, ApprovalRequest, allow, cancel, cancel_all, cancel_session, cleared_timer,
  empty, entry_of, register, registered, resolve, resolve_by_id, resolved, settle, settled_promise,
  timer_fires,
}
use zooid.Approval.Invariant.{IsIndexed}
use zooid.Approval.Session.{step-IsIndexed}
use zooid.Approval.Settles.{empty-IsIndexed, run_settles_once, settlements}
use zooid.Approval.Step.{Call, cancels, fires, registers, resolves, resolves_by_id, run, step}
use zooid.Dict.{delete, get, has, insert, remove, set}
use zooid.Dict.Count.{one}
use zooid.Prelude.{List, [], none, refl, some, ◌+◌, ◌∷◌, ◌≡◌}

abbrev bash_request : ApprovalRequest
bash_request = record {
  tool_call_id = "call";
  tool_kind = some "execute";
  tool_title = none;
  tool_input = none;
  options = [];
}

abbrev calls : List Call
calls =
    registers "a1" "coder" "s1" bash_request (some 60)
    ∷ registers "a2" "coder" "s2" bash_request none
    ∷ resolves_by_id "a1" (allow "once")
    ∷ fires "a1"
    ∷ cancels "s2"
    ∷ resolves "s2" "a2" cancel
    ∷ []

calls_log :
    (run calls empty).log
    ≡ registered (entry_of "a1" "coder" "s1" bash_request none).approval
      ∷ registered (entry_of "a2" "coder" "s2" bash_request none).approval
      ∷ cleared_timer "a1"
      ∷ settled_promise "a1" (allow "once")
      ∷ resolved "a1" "s1" "coder" (allow "once")
      ∷ settled_promise "a2" cancel
      ∷ resolved "a2" "s2" "coder" cancel
      ∷ []
unfolding run empty register timer_fires resolve resolve_by_id cancel_session cancel_all settle get
    set delete insert remove
calls_log = refl

abbrev one_pending : ApprovalCorrelator
one_pending = step (registers "a1" "coder" "s1" bash_request (some 60)) empty

one_pending-IsIndexed : IsIndexed one_pending
unfolding empty get
one_pending-IsIndexed =
    step-IsIndexed (registers "a1" "coder" "s1" bash_request (some 60)) empty refl empty-IsIndexed

run_settles_once_example :
    settlements "a1" (run calls empty).log + one (has "a1" (run calls empty).pending) ≡ 1
run_settles_once_example = run_settles_once "a1" calls (refl, (refl, tt))
