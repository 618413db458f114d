-- ===== src/Returns/Releases.antt =====
-- How often a return is released.
use zooid.Dict.{Dict, get, has, set}
use zooid.Dict.Count.{one}
use zooid.Dict.Laws.{Unique, delete-Unique, get-delete, get-set, set-Unique}
use zooid.Prelude.{
  Bool, Bool-cases, List, Option-cases, String, [], arith, default, eq_iff, false, if◌then◌else◌,
  inl, inr, none, not, refl, some, ℕ, ◌&&◌, ◌++◌, ◌+◌, ◌==◌, ◌∷◌, ◌≡◌, ◌≤◌,
}
use zooid.Returns.{
  PendingReturn, PendingReturns, ReleasedReturn, activity, arm, armed, drop, drop_all,
  interrupt_all, interrupt_one, key, mark_delegated, put, release, released_of, timer_fires,
  turn_ended, turn_finished, turn_started,
}

-- The releases of a key.
abbrev pub releases : String → List ReleasedReturn → ℕ
releases k [] = 0
releases k (r ∷ rs) = one (key r.callee r.thread_root == k) + releases k rs

pub releases-append :
    (k : String) (rs ss : List ReleasedReturn)
    → releases k (rs ++ ss) ≡ releases k rs + releases k ss
releases-append k [] ss = omega arith
releases-append k (r ∷ rs) ss = omega (arith, releases-append k rs ss)

-- Each return is stored once, under its callee and thread.
pub record Keyed (c : PendingReturns) : Type 0 where
  pub keyed :
      (k : String) (p : PendingReturn) → get k c.pending ≡ some p → key p.callee p.thread_root ≡ k
  pub unique : Unique c.pending

-- Releases of a key, and one more while its return is pending.
abbrev pub accounted : String → PendingReturns → ℕ
accounted k c = releases k c.released + one (has k c.pending)

-- A step that brings no return: it keeps the keys, and a return is pending, dropped or released once.
pub record Settles (c c' : PendingReturns) : Type 0 where
  pub keys_kept : Keyed c'
  pub no_more : (k : String) → accounted k c' ≤ accounted k c

put-Settles :
    (i : String) (p q : PendingReturn) (c : PendingReturns)
    → get i c.pending ≡ some q
    → p.callee ≡ q.callee
    → p.thread_root ≡ q.thread_root
    → Keyed c
    → Settles c (put i p c)
put-Settles i p q c h a r v = record {
  keys_kept = record {
    keyed =
        λ k x hx. ground (arith, get-set k i p c.pending, v.keyed i q h, v.keyed k x, eq_iff i k);
    unique = set-Unique i p c.pending v.unique;
  };
  no_more = λ k. ground (arith, get-set k i p c.pending, eq_iff i k);
}

same-Settles : (c : PendingReturns) → Keyed c → Settles c c
same-Settles c v = record { keys_kept = v; no_more = λ k. omega arith }

pub arm-Settles : (i : String) (c : PendingReturns) → Keyed c → Settles c (arm i c)
unfolding arm
arm-Settles i c v = elim (Option-cases (get i c.pending)) [
  | inl gone ↦ rw (gone, arm) (same-Settles c v)
  | inr (p, found) ↦ rw (found, arm) (put-Settles i (armed c i p) p c found refl refl v)
]

pub release-Settles : (i : String) (c : PendingReturns) → Keyed c → Settles c (release i c)
unfolding release
release-Settles i c v = elim (Option-cases (get i c.pending)) [
  | inl gone ↦ rw (gone, release) (same-Settles c v)
  | inr (p, found) ↦
      rw (found, release)
        (record {
          keys_kept = record {
            keyed = λ k x hx. v.keyed k x (ground (arith, get-delete k i c.pending));
            unique = delete-Unique i c.pending v.unique;
          };
          no_more = λ k. ground (
            arith,
            get-delete k i c.pending,
            releases-append k c.released (released_of p ∷ []),
            v.keyed i p found,
            eq_iff i k,
          );
        })
]

pub drop-Settles : (i : String) (c : PendingReturns) → Keyed c → Settles c (drop i c)
unfolding drop
drop-Settles i c v = record {
  keys_kept = record {
    keyed = λ k x hx. v.keyed k x (ground (arith, get-delete k i c.pending));
    unique = delete-Unique i c.pending v.unique;
  };
  no_more = λ k. ground (arith, get-delete k i c.pending);
}

Settles-trans : {b c d : PendingReturns} → Settles b c → Settles c d → Settles b d
Settles-trans s t = record {
  keys_kept = t.keys_kept;
  no_more = λ k. omega (arith, t.no_more k, s.no_more k);
}

pub mark_delegated-Settles :
    (a r : String) (c : PendingReturns) → Keyed c → Settles c (mark_delegated a r c)
unfolding mark_delegated
mark_delegated-Settles a r c v = elim (Option-cases (get (key a r) c.pending)) [
  | inl gone ↦ rw (gone, mark_delegated) (same-Settles c v)
  | inr (p, found) ↦ rw (found, mark_delegated) (put-Settles (key a r) _ p c found refl refl v)
]

pub activity-Settles : (a r : String) (c : PendingReturns) → Keyed c → Settles c (activity a r c)
unfolding activity
activity-Settles a r c v = elim (Option-cases (get (key a r) c.pending)) [
  | inl gone ↦ rw (gone, activity) (same-Settles c v)
  | inr (p, found) ↦ elim (Option-cases p.timer) [
    | inl off ↦ rw (found, activity, off) (same-Settles c v)
    | inr (ms, on) ↦ rw (found, activity, on) (arm-Settles (key a r) c v)
  ]
]

-- Only the counts of running turns change.
running-Settles : (c : PendingReturns) (m : Dict ℕ) → Keyed c → Settles c (record c { running = m })
running-Settles c m v = record {
  keys_kept = record { keyed = v.keyed; unique = v.unique };
  no_more = λ k. omega arith;
}

pub turn_started-Settles :
    (a r : String) (c : PendingReturns) → Keyed c → Settles c (turn_started a r c)
unfolding turn_started
turn_started-Settles a r c v =
    let i = key a r in
    let m = set i (default (get i c.running) 0 + 1) c.running in
    let start = running-Settles c m v in
    elim (Option-cases (get i c.pending)) [
      | inl gone ↦ rw (gone, turn_started) start
      | inr (p, found) ↦
          rw (found, turn_started)
            (Settles-trans start (
              put-Settles i (record p { waiting = false; timer = none }) p
                (record c { running = m }) found refl refl start.keys_kept))
    ]

pub turn_finished-Settles :
    (a r : String) (c : PendingReturns) → Keyed c → Settles c (turn_finished a r c)
unfolding turn_finished
turn_finished-Settles a r c v =
    let start = running-Settles c _ v in
    Settles-trans start (arm-Settles (key a r) _ start.keys_kept)

pub turn_ended-Settles :
    (a r : String) (c : PendingReturns) → Keyed c → Settles c (turn_ended a r c)
unfolding turn_ended
turn_ended-Settles a r c v = elim (Option-cases (get (key a r) c.pending)) [
  | inl gone ↦ rw (gone, turn_ended) (same-Settles c v)
  | inr (p, found) ↦ elim (Bool-cases (p.delegated && not p.interrupted)) [
    | inl waits ↦ rw (found, turn_ended, waits) (put-Settles (key a r) _ p c found refl refl v)
    | inr done ↦ rw (found, turn_ended, done) (release-Settles (key a r) c v)
  ]
]

interrupt_one-Settles : (i : String) (c : PendingReturns) → Keyed c → Settles c (interrupt_one i c)
interrupt_one-Settles i c v = elim (Option-cases (get i c.pending)) [
  | inl gone ↦ rw (gone, interrupt_one) (same-Settles c v)
  | inr (p, found) ↦ elim (Bool-cases (has i c.running)) [
    | inl runs ↦ rw (found, interrupt_one, runs) (put-Settles i _ p c found refl refl v)
    | inr rests ↦ rw (found, interrupt_one, rests) (same-Settles c v)
  ]
]

pub interrupt_all-Settles :
    (busy : Bool) (root : String) (es : Dict PendingReturn) (c : PendingReturns)
    → Keyed c
    → Settles c (interrupt_all busy root es c)
unfolding interrupt_all
interrupt_all-Settles busy root [] c v = same-Settles c v
interrupt_all-Settles busy root ((i, p) ∷ es) c v =
    let first : Settles c
        (if p.thread_root == root then (if busy then interrupt_one i c else release i c) else c) =
      elim (Bool-cases (p.thread_root == root)) [
        | inr other ↦ rw other (same-Settles c v)
        | inl own ↦ elim (Bool-cases busy) [
          | inl on ↦ rw (own, on) (interrupt_one-Settles i c v)
          | inr off ↦ rw (own, off) (release-Settles i c v)
        ]
      ] in
    Settles-trans first (interrupt_all-Settles busy root es _ first.keys_kept)

pub drop_all-Settles :
    (root : String) (es : Dict PendingReturn) (c : PendingReturns)
    → Keyed c
    → Settles c (drop_all root es c)
unfolding drop_all
drop_all-Settles root [] c v = same-Settles c v
drop_all-Settles root ((i, p) ∷ es) c v = elim (Bool-cases (p.thread_root == root)) [
  | inl own ↦
      let first = drop-Settles i c v in
      rw (own, drop_all) (Settles-trans first (drop_all-Settles root es _ first.keys_kept))
  | inr other ↦ rw (other, drop_all) (drop_all-Settles root es c v)
]

pub timer_fires-Settles : (i : String) (c : PendingReturns) → Keyed c → Settles c (timer_fires i c)
unfolding timer_fires
timer_fires-Settles i c v = elim (Option-cases (get i c.pending)) [
  | inl gone ↦ rw (gone, timer_fires) (same-Settles c v)
  | inr (p, found) ↦ elim (Option-cases p.timer) [
    | inl off ↦ rw (found, timer_fires, off) (same-Settles c v)
    | inr (ms, on) ↦ rw (found, timer_fires, on) (release-Settles i c v)
  ]
]
