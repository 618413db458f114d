-- ===== src/Returns/History.antt =====
-- Whole histories: a return is released at most once for each call or message that brought it.
use zooid.Dict.{get, has}
use zooid.Dict.Count.{one}
use zooid.Dict.Laws.{get-set, set-Unique}
use zooid.Events.{AgentBinding}
use zooid.Prelude.{
  Bool, List, Option, Option-cases, String, [], arith, eq_iff, inl, inr, refl, ℕ, ◌+◌, ◌==◌, ◌∷◌,
  ◌≡◌, ◌≤◌,
}
use zooid.Returns.{
  PendingReturn, PendingReturns, any_running, drop, drop_thread, fresh, held, hold, init, interrupt,
  key, open_call, put,
}
use zooid.Returns.Releases.{
  Keyed, Settles, accounted, activity-Settles, arm-Settles, drop-Settles, drop_all-Settles,
  interrupt_all-Settles, mark_delegated-Settles, releases, timer_fires-Settles, turn_ended-Settles,
  turn_finished-Settles, turn_started-Settles,
}
use zooid.Returns.Step.{
  Call, acts, drops, ends, finishes, fires, holds, interrupts, marks, opens, run, starts, step,
}

-- The key of the return that a call of the component may bring.
abbrev brings : String → Call → ℕ
brings k (opens a r room b remote s) = one (key a r == k)
brings k (holds a r room bs body remote) = one (key a r == k)
brings k _ = 0

-- How many calls of a history may bring a return of a key.
abbrev pub brought : String → List Call → ℕ
brought k [] = 0
brought k (x ∷ xs) = brings k x + brought k xs

record Adds (k : String) (n : ℕ) (c c' : PendingReturns) : Type 0 where
  keys_kept : Keyed c'
  at_most : accounted k c' ≤ accounted k c + n

Settles-Adds : (k : String) {c c' : PendingReturns} → Settles c c' → Adds k 0 c c'
Settles-Adds k s = record { keys_kept = s.keys_kept; at_most = omega (arith, s.no_more k) }

-- A return put under its own key.
put-Adds :
    (k i : String) (p : PendingReturn) (c : PendingReturns)
    → key p.callee p.thread_root ≡ i
    → Keyed c
    → Adds k (one (i == k)) c (put i p c)
put-Adds k i p c own v = record {
  keys_kept = record {
    keyed = λ j x hx. ground (arith, get-set j i p c.pending, v.keyed j x, eq_iff i j);
    unique = set-Unique i p c.pending v.unique;
  };
  at_most = ground (arith, get-set k i p c.pending);
}

open_call-Adds :
    (k a r room : String) (b : AgentBinding) (remote : Bool) (s : Option String)
    (c : PendingReturns)
    → Keyed c
    → Adds k (one (key a r == k)) c (open_call a r room b remote s c)
unfolding open_call
open_call-Adds k a r room b remote s c v =
    let first = drop-Settles (key a r) c v in
    let second =
      put-Adds k (key a r) (fresh a r room (b ∷ []) remote s) (drop (key a r) c) refl
        first.keys_kept in
    record {
      keys_kept = second.keys_kept;
      at_most = omega (arith, second.at_most, first.no_more k);
    }

held-key :
    (a r room : String) (bs : List AgentBinding) (body : Option String) (remote : Bool)
    (c : PendingReturns)
    → Keyed c
    → let p = held a r room bs body remote (get (key a r) c.pending) in
      key p.callee p.thread_root ≡ key a r
held-key a r room bs body remote c v = elim (Option-cases (get (key a r) c.pending)) [
  | inl gone ↦ rw gone
  | inr (p, found) ↦ rw found (v.keyed (key a r) p found)
]

hold-Adds :
    (k a r room : String) (bs : List AgentBinding) (body : Option String) (remote : Bool)
    (c : PendingReturns)
    → Keyed c
    → Adds k (one (key a r == k)) c (hold a r room bs body remote c)
unfolding hold
hold-Adds k a r room bs body remote c v =
    let p = held a r room bs body remote (get (key a r) c.pending) in
    let first = put-Adds k (key a r) p c (held-key a r room bs body remote c v) v in
    let second = arm-Settles (key a r) (put (key a r) p c) first.keys_kept in
    record {
      keys_kept = second.keys_kept;
      at_most = omega (arith, first.at_most, second.no_more k);
    }

step-Adds :
    (k : String) (x : Call) (c : PendingReturns) → Keyed c → Adds k (brings k x) c (step x c)
unfolding step interrupt drop_thread
step-Adds k (opens a r room b remote s) c v = open_call-Adds k a r room b remote s c v
step-Adds k (holds a r room bs body remote) c v = hold-Adds k a r room bs body remote c v
step-Adds k (marks a r) c v = Settles-Adds k (mark_delegated-Settles a r c v)
step-Adds k (acts a r) c v = Settles-Adds k (activity-Settles a r c v)
step-Adds k (starts a r) c v = Settles-Adds k (turn_started-Settles a r c v)
step-Adds k (finishes a r) c v = Settles-Adds k (turn_finished-Settles a r c v)
step-Adds k (ends a r) c v = Settles-Adds k (turn_ended-Settles a r c v)
step-Adds k (interrupts r) c v =
    Settles-Adds k (interrupt_all-Settles (any_running r c) r c.pending c v)
step-Adds k (drops r) c v = Settles-Adds k (drop_all-Settles r c.pending c v)
step-Adds k (fires i) c v = Settles-Adds k (timer_fires-Settles i c v)

run-Adds :
    (k : String) (xs : List Call) (c : PendingReturns)
    → Keyed c
    → Adds k (brought k xs) c (run xs c)
unfolding run
run-Adds k [] c v = record { keys_kept = v; at_most = omega arith }
run-Adds k (x ∷ xs) c v =
    let first = step-Adds k x c v in
    let rest = run-Adds k xs (step x c) first.keys_kept in
    record { keys_kept = rest.keys_kept; at_most = omega (arith, first.at_most, rest.at_most) }

pub run-Keyed : (xs : List Call) (c : PendingReturns) → Keyed c → Keyed (run xs c)
run-Keyed xs c v = (run-Adds "" xs c v).keys_kept

-- In every history, the releases of a callee's return in a thread, and one more while it is pending,
-- are no more than the calls and held messages that brought a return of that callee there.
pub run-releases-le :
    (k : String) (xs : List Call) (grace : ℕ) (remote : Option ℕ)
    → releases k (run xs (init grace remote)).released
        + one (has k (run xs (init grace remote)).pending)
      ≤ brought k xs
unfolding init get
run-releases-le k xs grace remote = omega (
  arith,
  (run-Adds k xs (init grace remote)
      (record { keyed = λ i p h. absurd (ground arith); unique = tt })).at_most,
)
