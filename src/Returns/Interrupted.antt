-- ===== src/Returns/Interrupted.antt =====
-- packages/transport-matrix/src/pending-returns.ts, `interrupt` and `turnEnded`: what becomes of the return of a
-- callee whose turn is interrupted.
use zooid.Dict.{get, has}
use zooid.Dict.Count.{one}
use zooid.Prelude.{
  All, Bool, List, String, [], arith, eq_iff, eq_refl, false, none, not, refl, some, true, ◌&&◌,
  ◌++◌, ◌==◌, ◌∷◌, ◌≡◌,
}
use zooid.Returns.{
  PendingReturn, PendingReturns, ReleasedReturn, any_running, interrupt, key, release, released_of,
  turn_ended,
}
use zooid.Returns.History.{run-Keyed}
use zooid.Returns.Marked.{
  Marked, acts-Marked, drops-Marked, ends-Marked, finishes-Marked, fires-Marked, hold-Marked,
  interrupts-Marked, marks-Marked, opens-Marked, starts-Marked,
}
use zooid.Returns.Releases.{Keyed}
use zooid.Returns.Step.{
  Call, acts, drops, ends, finishes, fires, holds, interrupts, marks, opens, run, starts, step,
}
use zooid.Returns.Threads.{get-release, interrupt_busy}

-- The calls that leave the entry of a key and its thread to its own turn: no new call under the key, no end
-- of its turn, no timer of it, and no interrupt or reset of the thread.
abbrev pub leaves_to_turn : String → String → Call → Bool
leaves_to_turn k r (opens a s room b remote session) = not (key a s == k)
leaves_to_turn k r (ends a s) = not (key a s == k)
leaves_to_turn k r (interrupts s) = not (s == r)
leaves_to_turn k r (drops s) = not (s == r)
leaves_to_turn k r (fires i) = not (i == k)
leaves_to_turn k r _ = true

step-Marked :
    (p : PendingReturn) (k : String) (x : Call) (c : PendingReturns)
    → Keyed c
    → leaves_to_turn k p.thread_root x ≡ true
    → Marked p k c.pending
    → Marked p k (step x c).pending
unfolding step
step-Marked p k (opens a s room b remote session) c v spared m =
    opens-Marked p k a s room b remote session c (ground arith) m
step-Marked p k (holds a s room bs body remote) c v spared m =
    hold-Marked p k a s room bs body remote c m
step-Marked p k (marks a s) c v spared m = marks-Marked p k a s c m
step-Marked p k (acts a s) c v spared m = acts-Marked p k a s c m
step-Marked p k (starts a s) c v spared m = starts-Marked p k a s c m
step-Marked p k (finishes a s) c v spared m = finishes-Marked p k a s c m
step-Marked p k (ends a s) c v spared m = ends-Marked p k a s c (ground arith) m
step-Marked p k (interrupts s) c v spared m = interrupts-Marked p k s c v (ground arith) m
step-Marked p k (drops s) c v spared m = drops-Marked p k s c v (ground arith) m
step-Marked p k (fires i) c v spared m = fires-Marked p k i c (ground arith) m

run-Marked :
    (p : PendingReturn) (k : String) (xs : List Call) (c : PendingReturns)
    → Keyed c
    → All (λ x. leaves_to_turn k p.thread_root x ≡ true) xs
    → Marked p k c.pending
    → Marked p k (run xs c).pending
unfolding run
run-Marked p k [] c v spared m = m
run-Marked p k (x ∷ xs) c v (one, rest) m =
    run-Marked p k xs (step x c) (run-Keyed (x ∷ []) c v) rest (step-Marked p k x c v one m)

-- What a turn's end releases for an entry of its callee.
abbrev pub Releases : PendingReturn → String → PendingReturns → PendingReturns → Type 0
Releases p k c c' =
    (x : ReleasedReturn) × (c'.released ≡ c.released ++ x ∷ [])
    × (x.callee ≡ p.callee)
    × (x.thread_root ≡ p.thread_root)
    × (x.caller_session_key ≡ p.caller_session_key)
    × (get k c'.pending ≡ none)

ends-Releases :
    (a r : String) (p : PendingReturn) (c : PendingReturns)
    → Marked p (key a r) c.pending
    → Releases p (key a r) c (turn_ended a r c)
unfolding turn_ended
ends-Releases a r p c (q, h, (on, of_callee, of_thread, of_session)) =
    let off : (q.delegated && not q.interrupted) ≡ false = ground arith in
    (
      released_of q,
      rw (h, turn_ended, off, release, h) refl,
      of_callee,
      of_thread,
      of_session,
      rw (h, turn_ended, off)
          (ground (arith, get-release (key a r) (key a r) c, eq_refl (key a r))),
    )

interrupt-Keyed : (r : String) (c : PendingReturns) → Keyed c → Keyed (interrupt r c)
unfolding run step
interrupt-Keyed r c v = run-Keyed (interrupts r ∷ []) c v

-- Let the entries stand under their own keys, and let a callee have an entry of a thread and a turn that
-- runs, by which a turn of the thread runs. When the thread is interrupted, any calls follow that leave
-- the entry to that turn (no new call under its key, no end of its turn, no timer of it, no interrupt or
-- reset of its thread), also ones that delegate or hold more prose, and then the turn ends, then the end
-- releases just one return, that of the callee, in the thread and for the caller's session of the
-- entry, and the entry is gone.
pub interrupted_turn_ends :
    (a r : String) (p : PendingReturn) (xs : List Call) (c : PendingReturns)
    → Keyed c
    → any_running r c ≡ true
    → get (key a r) c.pending ≡ some p
    → p.thread_root ≡ r
    → has (key a r) c.running ≡ true
    → All (λ x. leaves_to_turn (key a r) p.thread_root x ≡ true) xs
    → let c' = run xs (interrupt r c) in Releases p (key a r) c' (turn_ended a r c')
interrupted_turn_ends a r p xs c v busy h own runs spared =
    let (after, kept) = interrupt_busy r (key a r) c v busy in
    let stopped : get (key a r) (interrupt r c).pending ≡ some (record p { interrupted = true }) =
      ground (arith, eq_iff p.thread_root r) in
    ends-Releases a r p (run xs (interrupt r c)) (
      run-Marked p (key a r) xs (interrupt r c) (interrupt-Keyed r c v) spared
        (record p { interrupted = true }, stopped, (refl, refl, refl, refl)))
