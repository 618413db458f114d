-- ===== src/Returns/Timers.antt =====
-- When the fallback timer of a pending return runs.
use zooid.Dict.{Dict, delete, get, has, set}
use zooid.Dict.Laws.{get-delete, get-set}
use zooid.Events.{AgentBinding}
use zooid.Prelude.{
  Bool, Bool-cases, List, Option, Option-cases, String, String-cases, [], arith, default, eq_iff,
  false, inl, inr, is_some, none, not, some, true, ℕ, ◌&&◌, ◌+◌, ◌-◌, ◌==◌, ◌∷◌, ◌≡◌,
}
use zooid.Returns.{
  PendingReturn, PendingReturns, ReleasedReturn, activity, any_running, arm, armed, drop, drop_all,
  drop_thread, held, hold, init, interrupt, interrupt_all, interrupt_one, key, mark_delegated,
  open_call, put, release, timer_fires, turn_ended, turn_finished, turn_started,
}
use zooid.Returns.Step.{
  Call, acts, drops, ends, finishes, fires, holds, interrupts, marks, opens, run, starts, step,
}

abbrev pub Idle : String → PendingReturns → PendingReturn → Type 0
Idle k c p = is_some p.timer ≡ true → (p.waiting ≡ false) × (has k c.running ≡ false)

-- A timer is armed only for a return that waits for no callee of its own, and whose callee has no turn
-- running here.
pub record Timed (c : PendingReturns) : Type 0 where
  pub idle : (k : String) (p : PendingReturn) → get k c.pending ≡ some p → Idle k c p

-- The same but for one key.
abbrev TimedBut : String → PendingReturns → Type 0
TimedBut i c =
    (k : String) (p : PendingReturn) → (i == k) ≡ false → get k c.pending ≡ some p → Idle k c p

put-Timed :
    (i : String) (p : PendingReturn) (c : PendingReturns)
    → TimedBut i c
    → Idle i c p
    → Timed (put i p c)
put-Timed i p c others own = record {
  idle = λ k x hx on. elim (String-cases i k) [
    | inl same ↦ ground (arith, get-set k i p c.pending, eq_iff i k)
    | inr other ↦ others k x other (ground (arith, get-set k i p c.pending)) on
  ];
}

arm-Timed : (i : String) (c : PendingReturns) → TimedBut i c → Timed (arm i c)
unfolding arm
arm-Timed i c others = elim (Option-cases (get i c.pending)) [
  | inl gone ↦
      rw (gone, arm) (record { idle = λ k p hp on. others k p (ground (arith, eq_iff i k)) hp on })
  | inr (p, found) ↦ rw (found, arm) (put-Timed i (armed c i p) c others (λ on. ground arith))
]

delete-Timed :
    (i : String) (c : PendingReturns) (l : List ReleasedReturn)
    → Timed c
    → Timed (record c { pending = delete i c.pending; released = l })
delete-Timed i c l v = record {
  idle = λ k p hp on. v.idle k p (ground (arith, get-delete k i c.pending)) on;
}

release-Timed : (i : String) (c : PendingReturns) → Timed c → Timed (release i c)
unfolding release
release-Timed i c v = elim (Option-cases (get i c.pending)) [
  | inl gone ↦ rw (gone, release) v
  | inr (p, found) ↦ rw (found, release) (delete-Timed i c _ v)
]

drop-Timed : (i : String) (c : PendingReturns) → Timed c → Timed (drop i c)
unfolding drop
drop-Timed i c v = delete-Timed i c c.released v

but : (i : String) (c : PendingReturns) → Timed c → TimedBut i c
but i c v k p other hp = v.idle k p hp

open_call-Timed :
    (a r room : String) (b : AgentBinding) (remote : Bool) (s : Option String) (c : PendingReturns)
    → Timed c
    → Timed (open_call a r room b remote s c)
unfolding open_call
open_call-Timed a r room b remote s c v =
    put-Timed (key a r) _ (drop (key a r) c) (but (key a r) _ (drop-Timed (key a r) c v))
      (λ on. absurd (ground arith))

hold-Timed :
    (a r room : String) (bs : List AgentBinding) (body : Option String) (remote : Bool)
    (c : PendingReturns)
    → Timed c
    → Timed (hold a r room bs body remote c)
unfolding hold
hold-Timed a r room bs body remote c v =
    let i = key a r in
    let p = held a r room bs body remote (get i c.pending) in
    arm-Timed i (put i p c)
      (λ k x other hx on. v.idle k x (ground (arith, get-set k i p c.pending)) on)

mark_delegated-Timed : (a r : String) (c : PendingReturns) → Timed c → Timed (mark_delegated a r c)
unfolding mark_delegated
mark_delegated-Timed a r c v = elim (Option-cases (get (key a r) c.pending)) [
  | inl gone ↦ rw (gone, mark_delegated) v
  | inr (p, found) ↦
      rw (found, mark_delegated)
        (put-Timed (key a r) _ c (but (key a r) c v) (v.idle (key a r) p found))
]

activity-Timed : (a r : String) (c : PendingReturns) → Timed c → Timed (activity a r c)
unfolding activity
activity-Timed a r c v = elim (Option-cases (get (key a r) c.pending)) [
  | inl gone ↦ rw (gone, activity) v
  | inr (p, found) ↦ elim (Option-cases p.timer) [
    | inl off ↦ rw (found, activity, off) v
    | inr (ms, on) ↦ rw (found, activity, on) (arm-Timed (key a r) c (but (key a r) c v))
  ]
]

turn_started-Timed : (a r : String) (c : PendingReturns) → Timed c → Timed (turn_started a r c)
unfolding turn_started
turn_started-Timed a r c v =
    let i = key a r in
    let n = default (get i c.running) 0 + 1 in
    let c' : PendingReturns = record c { running = set i n c.running } in
    let others : TimedBut i c' =
      λ k p other hp on. ground (arith, v.idle k p hp on, get-set k i n c.running) in
    elim (Option-cases (get i c.pending)) [
      | inl gone ↦
          rw (gone, turn_started)
            (record { idle = λ k p hp on. others k p (ground (arith, eq_iff i k)) hp on })
      | inr (p, found) ↦
          rw (found, turn_started)
            (put-Timed i (record p { waiting = false; timer = none }) c' others
              (λ on. absurd (ground arith)))
    ]

turn_finished-Timed : (a r : String) (c : PendingReturns) → Timed c → Timed (turn_finished a r c)
unfolding turn_finished
turn_finished-Timed a r c v =
    let i = key a r in
    let n = default (get i c.running) 1 - 1 in
    arm-Timed i _ (λ k p other hp on.
      ground (arith, v.idle k p hp on, get-set k i n c.running, get-delete k i c.running))

turn_ended-Timed : (a r : String) (c : PendingReturns) → Timed c → Timed (turn_ended a r c)
unfolding turn_ended
turn_ended-Timed a r c v = elim (Option-cases (get (key a r) c.pending)) [
  | inl gone ↦ rw (gone, turn_ended) v
  | inr (p, found) ↦ elim (Bool-cases (p.delegated && not p.interrupted)) [
    | inl waits ↦
        rw (found, turn_ended, waits)
          (put-Timed (key a r) _ c (but (key a r) c v) (λ on. absurd (ground arith)))
    | inr done ↦ rw (found, turn_ended, done) (release-Timed (key a r) c v)
  ]
]

interrupt_one-Timed : (i : String) (c : PendingReturns) → Timed c → Timed (interrupt_one i c)
interrupt_one-Timed i c v = elim (Option-cases (get i c.pending)) [
  | inl gone ↦ rw (gone, interrupt_one) v
  | inr (p, found) ↦ elim (Bool-cases (has i c.running)) [
    | inl runs ↦
        rw (found, interrupt_one, runs)
          (put-Timed i (record p { interrupted = true }) c (but i c v) (v.idle i p found))
    | inr rests ↦ rw (found, interrupt_one, rests) v
  ]
]

interrupt_all-Timed :
    (busy : Bool) (root : String) (es : Dict PendingReturn) (c : PendingReturns)
    → Timed c
    → Timed (interrupt_all busy root es c)
unfolding interrupt_all
interrupt_all-Timed busy root [] c v = v
interrupt_all-Timed busy root ((i, p) ∷ es) c v =
    interrupt_all-Timed busy root es _ (elim (Bool-cases (p.thread_root == root)) [
      | inr other ↦ rw other v
      | inl own ↦ elim (Bool-cases busy) [
        | inl on ↦ rw (own, on) (interrupt_one-Timed i c v)
        | inr off ↦ rw (own, off) (release-Timed i c v)
      ]
    ])

drop_all-Timed :
    (root : String) (es : Dict PendingReturn) (c : PendingReturns)
    → Timed c
    → Timed (drop_all root es c)
unfolding drop_all
drop_all-Timed root [] c v = v
drop_all-Timed root ((i, p) ∷ es) c v = elim (Bool-cases (p.thread_root == root)) [
  | inl own ↦ rw own (drop_all-Timed root es _ (drop-Timed i c v))
  | inr other ↦ rw other (drop_all-Timed root es c v)
]

timer_fires-Timed : (i : String) (c : PendingReturns) → Timed c → Timed (timer_fires i c)
unfolding timer_fires
timer_fires-Timed i c v = elim (Option-cases (get i c.pending)) [
  | inl gone ↦ rw (gone, timer_fires) v
  | inr (p, found) ↦ elim (Option-cases p.timer) [
    | inl off ↦ rw (found, timer_fires, off) v
    | inr (ms, on) ↦ rw (found, timer_fires, on) (release-Timed i c v)
  ]
]

step-Timed : (k : Call) (c : PendingReturns) → Timed c → Timed (step k c)
unfolding step interrupt drop_thread
step-Timed (opens a r room b remote s) c v = open_call-Timed a r room b remote s c v
step-Timed (holds a r room bs body remote) c v = hold-Timed a r room bs body remote c v
step-Timed (marks a r) c v = mark_delegated-Timed a r c v
step-Timed (acts a r) c v = activity-Timed a r c v
step-Timed (starts a r) c v = turn_started-Timed a r c v
step-Timed (finishes a r) c v = turn_finished-Timed a r c v
step-Timed (ends a r) c v = turn_ended-Timed a r c v
step-Timed (interrupts r) c v = interrupt_all-Timed (any_running r c) r c.pending c v
step-Timed (drops r) c v = drop_all-Timed r c.pending c v
step-Timed (fires k) c v = timer_fires-Timed k c v

run_from-Timed : (ks : List Call) (c : PendingReturns) → Timed c → Timed (run ks c)
unfolding run
run_from-Timed [] c v = v
run_from-Timed (k ∷ ks) c v = run_from-Timed ks (step k c) (step-Timed k c v)

-- In every history, a pending return whose timer is armed is not waiting on a call of its own, and its
-- callee has no turn running in this process.
pub run-Timed :
    (ks : List Call) (grace : ℕ) (remote : Option ℕ) → Timed (run ks (init grace remote))
unfolding init get
run-Timed ks grace remote =
    run_from-Timed ks (init grace remote) (record { idle = λ k p h on. absurd (ground arith) })
