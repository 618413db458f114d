-- ===== src/Returns/Threads.antt =====
-- Interrupts, resets and turn ends.
use zooid.Dict.{Dict, get, has}
use zooid.Dict.Count.{one}
use zooid.Dict.Laws.{Unique, get-delete, get-set}
use zooid.Prelude.{
  Bool, Bool-cases, Option, Option-cases, String, [], any, arith, eq_iff, false, if◌then◌else◌, inl,
  inr, is_some, none, not, refl, some, true, ◌&&◌, ◌+◌, ◌==◌, ◌||◌, ◌∙◌, ◌∷◌, ◌≡◌,
}
use zooid.Returns.{
  PendingReturn, PendingReturns, any_running, drop, drop_all, drop_thread, interrupt, interrupt_all,
  interrupt_one, release, released_of,
}
use zooid.Returns.Releases.{Keyed, accounted, release-Settles, releases, releases-append}

-- What is left of an entry when a thread's entries are taken out.
abbrev pub outside : String → Option PendingReturn → Option PendingReturn
outside root none = none
outside root (some p) = if p.thread_root == root then none else some p

-- Whether a snapshot holds an entry of a key in a thread.
abbrev in_thread : String → String → Dict PendingReturn → Bool
in_thread root j es = any (λ (e : String × PendingReturn). e.1.thread_root == root && e.0 == j) es

in_thread-get :
    (root j : String) (es : Dict PendingReturn)
    → Unique es
    → in_thread root j es ≡ elim (get j es) [ none ↦ false | some p ↦ p.thread_root == root ]
unfolding get
in_thread-get root j [] u = refl
in_thread-get root j ((k, p) ∷ es) u = ground (arith, in_thread-get root j es u.1, eq_iff k j)

pub get-release :
    (j i : String) (c : PendingReturns)
    → get j (release i c).pending ≡ (if i == j then none else get j c.pending)
unfolding release
get-release j i c = elim (Option-cases (get i c.pending)) [
  | inl gone ↦ ground (arith, eq_iff i j)
  | inr (p, found) ↦ ground (arith, get-delete j i c.pending)
]

accounted-release :
    (j i : String) (c : PendingReturns) → Keyed c → accounted j (release i c) ≡ accounted j c
unfolding release
accounted-release j i c v = elim (Option-cases (get i c.pending)) [
  | inl gone ↦ rw (gone, release)
  | inr (p, found) ↦ ground (
    arith,
    get-delete j i c.pending,
    releases-append j c.released (released_of p ∷ []),
    v.keyed i p found,
    eq_iff i j,
  )
]

idle_loop :
    (root j : String) (es : Dict PendingReturn) (c : PendingReturns)
    → Keyed c
    → (get j (interrupt_all false root es c).pending
        ≡ (if in_thread root j es then none else get j c.pending))
      × (accounted j (interrupt_all false root es c) ≡ accounted j c)
unfolding interrupt_all
idle_loop root j [] c v = (refl, refl)
idle_loop root j ((k, p) ∷ es) c v = elim (Bool-cases (p.thread_root == root)) [
  | inl own ↦
      let rest = idle_loop root j es (release k c) (release-Settles k c v).keys_kept in
      rw (own, interrupt_all)
        (ground (arith, rest.0, get-release j k c), rest.1 ∙ accounted-release j k c v)
  | inr other ↦ rw (other, interrupt_all) (idle_loop root j es c v)
]

-- An interrupt of a thread in which no turn runs releases every pending return of the thread: none of
-- them stays, none is lost without a release, and the returns of other threads stay as they are.
pub interrupt_idle :
    (root j : String) (c : PendingReturns)
    → Keyed c
    → any_running root c ≡ false
    → (get j (interrupt root c).pending ≡ outside root (get j c.pending))
      × (releases j (interrupt root c).released + one (has j (interrupt root c).pending)
          ≡ releases j c.released + one (has j c.pending))
unfolding interrupt
interrupt_idle root j c v idle =
    let loop = idle_loop root j c.pending c v in
    rw idle (ground (arith, loop.0, in_thread-get root j c.pending v.unique), loop.1)

drop_loop :
    (root j : String) (es : Dict PendingReturn) (c : PendingReturns)
    → (get j (drop_all root es c).pending ≡ (if in_thread root j es then none else get j c.pending))
      × ((drop_all root es c).released ≡ c.released)
unfolding drop_all drop
drop_loop root j [] c = (refl, refl)
drop_loop root j ((k, p) ∷ es) c = elim (Bool-cases (p.thread_root == root)) [
  | inl own ↦
      let rest = drop_loop root j es (drop k c) in
      rw (own, drop_all) (ground (arith, rest.0, get-delete j k c.pending), rest.1)
  | inr other ↦ rw (other, drop_all) (drop_loop root j es c)
]

-- `/clear` takes the pending returns of its thread out, and no other, and releases nothing.
pub drop_thread_lem :
    (root j : String) (c : PendingReturns)
    → Keyed c
    → (get j (drop_thread root c).pending ≡ outside root (get j c.pending))
      × ((drop_thread root c).released ≡ c.released)
unfolding drop_thread
drop_thread_lem root j c v =
    let loop = drop_loop root j c.pending c in
    (ground (arith, loop.0, in_thread-get root j c.pending v.unique), loop.1)

-- What an interrupt makes of an entry whose callee has a turn running.
abbrev pub marked : Bool → Option PendingReturn → Option PendingReturn
marked b none = none
marked b (some p) = some (if b then record p { interrupted = true } else p)

interrupt_one_lem :
    (j i : String) (c : PendingReturns)
    → (get j (interrupt_one i c).pending ≡ marked (i == j && has j c.running) (get j c.pending))
      × ((interrupt_one i c).released ≡ c.released)
      × ((interrupt_one i c).running ≡ c.running)
interrupt_one_lem j i c = elim (Option-cases (get i c.pending)) [
  | inl gone ↦ elim (Option-cases (get j c.pending)) [
    | inl g ↦ rw (gone, interrupt_one) (ground arith, refl, refl)
    | inr (q, g) ↦ rw (gone, interrupt_one) (ground (arith, eq_iff i j), refl, refl)
  ]
  | inr (p, found) ↦ elim (Bool-cases (has i c.running)) [
    | inl runs ↦
        rw (found, interrupt_one, runs)
          (
            ground (arith, get-set j i (record p { interrupted = true }) c.pending, eq_iff i j),
            refl,
            refl,
          )
    | inr rests ↦ elim (Option-cases (get j c.pending)) [
      | inl g ↦ rw (found, interrupt_one, rests) (ground arith, refl, refl)
      | inr (q, g) ↦ rw (found, interrupt_one, rests) (ground (arith, eq_iff i j), refl, refl)
    ]
  ]
]

marked_twice :
    (a b h : Bool) (o : Option PendingReturn)
    → marked (b && h) (marked (a && h) o) ≡ marked ((a || b) && h) o
marked_twice a b h none = refl
marked_twice a b h (some p) = ground arith

busy_loop :
    (root j : String) (es : Dict PendingReturn) (c : PendingReturns)
    → (get j (interrupt_all true root es c).pending
        ≡ marked (in_thread root j es && has j c.running) (get j c.pending))
      × ((interrupt_all true root es c).released ≡ c.released)
unfolding interrupt_all
busy_loop root j [] c = (
  elim (Option-cases (get j c.pending)) [ inl g ↦ ground arith | inr (q, g) ↦ ground arith ],
  refl,
)
busy_loop root j ((k, p) ∷ es) c = elim (Bool-cases (p.thread_root == root)) [
  | inl own ↦
      let rest = busy_loop root j es (interrupt_one k c) in
      let (one_get, one_released, one_running) = interrupt_one_lem j k c in
      rw (own, interrupt_all)
        (
          rest.0
              ∙ rw (one_running, one_get)
                  (marked_twice (k == j) (in_thread root j es) (has j c.running) (get j c.pending)),
          rest.1 ∙ one_released,
        )
  | inr other ↦ rw (other, interrupt_all) (busy_loop root j es c)
]

-- An interrupt of a thread in which a turn runs releases nothing. It marks the pending returns of the
-- thread whose callee has a turn running, and leaves every other one as it was.
pub interrupt_busy :
    (root j : String) (c : PendingReturns)
    → Keyed c
    → any_running root c ≡ true
    → (get j (interrupt root c).pending
        ≡ marked
            (is_some (get j c.pending)
              && not (is_some (outside root (get j c.pending)))
              && has j c.running)
            (get j c.pending))
      × ((interrupt root c).released ≡ c.released)
unfolding interrupt
interrupt_busy root j c v busy =
    let loop = busy_loop root j c.pending c in
    rw busy (ground (arith, loop.0, in_thread-get root j c.pending v.unique), loop.1)
