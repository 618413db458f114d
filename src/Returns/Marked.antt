-- ===== src/Returns/Marked.antt =====
-- packages/transport-matrix/src/pending-returns.ts: an interrupted entry under the calls that leave it alone.
use mathlib.Core.Path.{subst}
use zooid.Dict.{Dict, delete, get, set}
use zooid.Dict.Laws.{get-delete, get-set, get-set_self}
use zooid.Events.{AgentBinding}
use zooid.Prelude.{
  Bool, Bool-cases, List, Option, Option-cases, String, String-cases, ap, arith, default, eq_iff,
  false, if◌then◌else◌, inl, inr, ltb, none, not, refl, some, sym, true, ◌&&◌, ◌-◌, ◌==◌, ◌∙◌, ◌≡◌,
}
use zooid.Returns.{
  PendingReturn, PendingReturns, activity, any_running, arm, armed, drop, drop_thread, held, hold,
  interrupt, key, mark_delegated, open_call, put, release, timer_fires, turn_ended, turn_finished,
  turn_started,
}
use zooid.Returns.Releases.{Keyed}
use zooid.Returns.Threads.{drop_thread_lem, get-release, interrupt_busy, interrupt_idle}

-- An entry that is interrupted, and the one it comes from.
abbrev pub Descends : PendingReturn → PendingReturn → Type 0
Descends p q =
    (q.interrupted ≡ true)
    × (q.callee ≡ p.callee)
    × (q.thread_root ≡ p.thread_root)
    × (q.caller_session_key ≡ p.caller_session_key)

-- The entry of a key is interrupted and comes from a given one.
abbrev pub Marked : PendingReturn → String → Dict PendingReturn → Type 0
Marked p k m = (q : PendingReturn) × (get k m ≡ some q) × Descends p q

module _ (p : PendingReturn) (k : String) where
  moved : (m m' : Dict PendingReturn) → get k m' ≡ get k m → Marked p k m → Marked p k m'
  moved m m' same (q, h, d) = (q, same ∙ h, d)

  set-other :
      (i : String) (x : PendingReturn) (m : Dict PendingReturn)
      → (i == k) ≡ false
      → Marked p k m
      → Marked p k (set i x m)
  set-other i x m other v = moved _ _ (ground (arith, get-set k i x m)) v

  set-missing :
      (i : String) (x : PendingReturn) (m : Dict PendingReturn)
      → get i m ≡ none
      → Marked p k m
      → Marked p k (set i x m)
  set-missing i x m gone (q, h, d) = set-other i x m (ground (arith, eq_iff i k)) (q, h, d)

  -- An entry is changed in what does not matter here.
  set-update :
      (i : String) (x y : PendingReturn) (m : Dict PendingReturn)
      → get i m ≡ some x
      → (Descends p x → Descends p y)
      → Marked p k m
      → Marked p k (set i y m)
  set-update i x y m found keeps (q, h, d) = elim (String-cases i k) [
    | inr other ↦ set-other i y m other (q, h, d)
    | inl same ↦
        let e : some x ≡ some q = sym (subst (λ z. get z m ≡ some x) same found) ∙ h in
        let d' = subst (Descends p) (sym (ap (λ o. default o x) e)) d in
        (y, rw same (get-set_self k y m), keeps d')
  ]

  arm-Marked :
      (i : String) (c : PendingReturns) → Marked p k c.pending → Marked p k (arm i c).pending
  unfolding arm
  arm-Marked i c v = elim (Option-cases (get i c.pending)) [
    | inl gone ↦ rw (gone, arm) v
    | inr (x, found) ↦ rw (found, arm) (set-update i x (armed c i x) c.pending found (λ d. d) v)
  ]

  pub hold-Marked :
      (a s room : String) (bs : List AgentBinding) (body : Option String) (remote : Bool)
      (c : PendingReturns)
      → Marked p k c.pending
      → Marked p k (hold a s room bs body remote c).pending
  unfolding hold
  hold-Marked a s room bs body remote c v =
      let i = key a s in
      let x = held a s room bs body remote (get i c.pending) in
      arm-Marked i (put i x c) (elim (Option-cases (get i c.pending)) [
        | inl gone ↦ set-missing i x c.pending gone v
        | inr (y, found) ↦
            subst (λ o. Marked p k (set i (held a s room bs body remote o) c.pending)) (sym found)
              (set-update i y (held a s room bs body remote (some y)) c.pending found (λ d. d) v)
      ])

  pub marks-Marked :
      (a s : String) (c : PendingReturns)
      → Marked p k c.pending
      → Marked p k (mark_delegated a s c).pending
  unfolding mark_delegated
  marks-Marked a s c v = elim (Option-cases (get (key a s) c.pending)) [
    | inl gone ↦ rw (gone, mark_delegated) v
    | inr (x, found) ↦
        rw (found, mark_delegated)
          (set-update (key a s) x (record x { delegated = true }) c.pending found (λ d. d) v)
  ]

  pub acts-Marked :
      (a s : String) (c : PendingReturns)
      → Marked p k c.pending
      → Marked p k (activity a s c).pending
  unfolding activity
  acts-Marked a s c v = elim (Option-cases (get (key a s) c.pending)) [
    | inl gone ↦ rw (gone, activity) v
    | inr (x, found) ↦ elim (Option-cases x.timer) [
      | inl unarmed ↦ rw (found, activity, unarmed) v
      | inr (ms, on) ↦ rw (found, activity, on) (arm-Marked (key a s) c v)
    ]
  ]

  pub starts-Marked :
      (a s : String) (c : PendingReturns)
      → Marked p k c.pending
      → Marked p k (turn_started a s c).pending
  unfolding turn_started
  starts-Marked a s c v = elim (Option-cases (get (key a s) c.pending)) [
    | inl gone ↦ rw (gone, turn_started) v
    | inr (x, found) ↦
        rw (found, turn_started)
          (set-update (key a s) x (record x { waiting = false; timer = none }) c.pending found
            (λ d. d) v)
  ]

  pub finishes-Marked :
      (a s : String) (c : PendingReturns)
      → Marked p k c.pending
      → Marked p k (turn_finished a s c).pending
  unfolding turn_finished
  finishes-Marked a s c v =
      let n = default (get (key a s) c.running) 1 - 1 in
      let m = if ltb 0 n then set (key a s) n c.running else delete (key a s) c.running in
      arm-Marked (key a s) (record c { running = m }) v

  release-other :
      (i : String) (c : PendingReturns)
      → (i == k) ≡ false
      → Marked p k c.pending
      → Marked p k (release i c).pending
  release-other i c other v = moved _ _ (ground (arith, get-release k i c)) v

  pub ends-Marked :
      (a s : String) (c : PendingReturns)
      → (key a s == k) ≡ false
      → Marked p k c.pending
      → Marked p k (turn_ended a s c).pending
  unfolding turn_ended
  ends-Marked a s c other v = elim (Option-cases (get (key a s) c.pending)) [
    | inl gone ↦ rw (gone, turn_ended) v
    | inr (x, found) ↦ elim (Bool-cases (x.delegated && not x.interrupted)) [
      | inl on ↦ rw (found, turn_ended, on) (set-other (key a s) _ c.pending other v)
      | inr off ↦ rw (found, turn_ended, off) (release-other (key a s) c other v)
    ]
  ]

  pub opens-Marked :
      (a s room : String) (b : AgentBinding) (remote : Bool) (session : Option String)
      (c : PendingReturns)
      → (key a s == k) ≡ false
      → Marked p k c.pending
      → Marked p k (open_call a s room b remote session c).pending
  unfolding open_call drop
  opens-Marked a s room b remote session c other v =
      set-other (key a s) _ (delete (key a s) c.pending) other
        (moved _ _ (ground (arith, get-delete k (key a s) c.pending)) v)

  pub fires-Marked :
      (i : String) (c : PendingReturns)
      → (i == k) ≡ false
      → Marked p k c.pending
      → Marked p k (timer_fires i c).pending
  unfolding timer_fires
  fires-Marked i c other v = elim (Option-cases (get i c.pending)) [
    | inl gone ↦ rw (gone, timer_fires) v
    | inr (x, found) ↦ elim (Option-cases x.timer) [
      | inl unarmed ↦ rw (found, timer_fires, unarmed) v
      | inr (ms, on) ↦ rw (found, timer_fires, on) (release-other i c other v)
    ]
  ]

  -- Interrupts and resets of other threads.
  pub interrupts-Marked :
      (s : String) (c : PendingReturns)
      → Keyed c
      → (s == p.thread_root) ≡ false
      → Marked p k c.pending
      → Marked p k (interrupt s c).pending
  interrupts-Marked s c v other (q, h, d) =
      let apart : (q.thread_root == s) ≡ false =
        rw d.2 (ground (arith, eq_iff s p.thread_root, eq_iff p.thread_root s)) in
      elim (Bool-cases (any_running s c)) [
        | inl busy ↦
            let (after, kept) = interrupt_busy s k c v busy in
            moved _ _ (after ∙ rw (h, apart) refl) (q, h, d)
        | inr idle ↦
            let (after, kept) = interrupt_idle s k c v idle in
            moved _ _ (after ∙ rw (h, apart) refl) (q, h, d)
      ]

  pub drops-Marked :
      (s : String) (c : PendingReturns)
      → Keyed c
      → (s == p.thread_root) ≡ false
      → Marked p k c.pending
      → Marked p k (drop_thread s c).pending
  drops-Marked s c v other (q, h, d) =
      let apart : (q.thread_root == s) ≡ false =
        rw d.2 (ground (arith, eq_iff s p.thread_root, eq_iff p.thread_root s)) in
      let (after, kept) = drop_thread_lem s k c v in
      moved _ _ (after ∙ rw (h, apart) refl) (q, h, d)
