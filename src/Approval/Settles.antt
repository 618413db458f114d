-- ===== src/Approval/Settles.antt =====
-- How often the promise of an approval is settled.
use zooid.Approval.{
  ApprovalCorrelator, ApprovalDecision, ApprovalRequest, Effect, PendingEntry, cancel, cancel_all,
  cancel_one, cancel_session, clear, cleared_timer, empty, entry_of, register, registered, resolve,
  resolve_by_id, resolved, settle, settled_promise, timeout, timer_fires,
}
use zooid.Approval.Invariant.{IsIndexed, get-settle}
use zooid.Approval.Session.{IsNew, cancel_one-IsIndexed, step-IsIndexed}
use zooid.Approval.Step.{Call, cancels, fires, registers, resolves, resolves_by_id, run, step}
use zooid.Dict.{get, has}
use zooid.Dict.Count.{one}
use zooid.Dict.Laws.{get-set}
use zooid.Prelude.{
  Distinct, List, Option, Option-cases, String, [], arith, eq_iff, eq_refl, false, includes,
  includes-append, inl, inr, none, refl, some, true, ℕ, ◌++◌, ◌+◌, ◌==◌, ◌∙◌, ◌∷◌, ◌≡◌,
}

-- How often the log settles the promise of an approval.
abbrev pub settlements : String → List Effect → ℕ
settlements i [] = 0
settlements i (settled_promise a d ∷ l) = one (a == i) + settlements i l
settlements i (registered a ∷ l) = settlements i l
settlements i (cleared_timer a ∷ l) = settlements i l
settlements i (resolved a s n d ∷ l) = settlements i l
settlements i (timeout a s n ∷ l) = settlements i l

settlements-append :
    (i : String) (l m : List Effect) → settlements i (l ++ m) ≡ settlements i l + settlements i m
settlements-append i [] m = omega arith
settlements-append i (e ∷ l) m = ground (arith, settlements-append i l m)

-- Settlements of an approval, and one more while it is pending.
abbrev pub accounted : String → ApprovalCorrelator → ℕ
accounted i c = settlements i c.log + one (has i c.pending)

settlements-clear :
    (i : String) (e : PendingEntry) (l : List Effect)
    → settlements i (clear e ++ l) ≡ settlements i l
settlements-clear i e l = ground arith

log-settle :
    (j : String) (e : PendingEntry) (d : ApprovalDecision) (c : ApprovalCorrelator)
    → settlements j (settle e d c).log ≡ settlements j c.log + one (e.approval_id == j)
unfolding settle
log-settle j e d c = omega (arith, settlements-append j c.log, settlements-clear j e)

-- Settling moves an approval from pending to settled.
accounted-settle :
    (j i : String) (e : PendingEntry) (d : ApprovalDecision) (c : ApprovalCorrelator)
    → get i c.pending ≡ some e
    → IsIndexed c
    → accounted j (settle e d c) ≡ accounted j c
accounted-settle j i e d c h v =
    ground (arith, log-settle j e d c, get-settle j e d c, v.keyed i e h, eq_iff e.approval_id j)

accounted-timer_fires :
    (j i : String) (c : ApprovalCorrelator)
    → IsIndexed c
    → accounted j (timer_fires i c) ≡ accounted j c
unfolding timer_fires
accounted-timer_fires j i c v = elim (Option-cases (get i c.pending)) [
  | inl e ↦ rw (e, timer_fires)
  | inr (x, e) ↦ ground (
    arith,
    accounted-settle j i x cancel c e v,
    settlements-append j (settle x cancel c).log (timeout i x.session_id x.agent_name ∷ []),
  )
]

accounted-resolve :
    (j s i : String) (d : ApprovalDecision) (c : ApprovalCorrelator)
    → IsIndexed c
    → accounted j (resolve s i d c).0 ≡ accounted j c
unfolding resolve
accounted-resolve j s i d c v = elim (Option-cases (get i c.pending)) [
  | inl e ↦ rw (e, resolve)
  | inr (x, e) ↦ ground (arith, accounted-settle j i x d c e v)
]

accounted-resolve_by_id :
    (j i : String) (d : ApprovalDecision) (c : ApprovalCorrelator)
    → IsIndexed c
    → accounted j (resolve_by_id i d c).0 ≡ accounted j c
unfolding resolve_by_id
accounted-resolve_by_id j i d c v = elim (Option-cases (get i c.pending)) [
  | inl e ↦ rw (e, resolve_by_id)
  | inr (x, e) ↦ ground (arith, accounted-settle j i x d c e v)
]

accounted-cancel_one :
    (j i : String) (c : ApprovalCorrelator)
    → IsIndexed c
    → accounted j (cancel_one i c) ≡ accounted j c
unfolding cancel_one
accounted-cancel_one j i c v = elim (Option-cases (get i c.pending)) [
  | inl e ↦ rw (e, cancel_one)
  | inr (x, e) ↦ ground (arith, accounted-settle j i x cancel c e v)
]

accounted-cancel_all :
    (j : String) (ids : List String) (c : ApprovalCorrelator)
    → IsIndexed c
    → accounted j (cancel_all ids c) ≡ accounted j c
unfolding cancel_all
accounted-cancel_all j [] c v = refl
accounted-cancel_all j (i ∷ ids) c v =
    accounted-cancel_all j ids (cancel_one i c) (cancel_one-IsIndexed i c v)
    ∙ accounted-cancel_one j i c v

accounted-cancel_session :
    (j s : String) (c : ApprovalCorrelator)
    → IsIndexed c
    → accounted j (cancel_session s c) ≡ accounted j c
unfolding cancel_session
accounted-cancel_session j s c v = elim (Option-cases (get s c.by_session)) [
  | inl e ↦ rw (e, cancel_session)
  | inr (ids, e) ↦ rw (e, cancel_session) (accounted-cancel_all j ids c v)
]

accounted-register :
    (j i a s : String) (r : ApprovalRequest) (t : Option ℕ) (c : ApprovalCorrelator)
    → get i c.pending ≡ none
    → accounted j (register i a s r t c).0 ≡ accounted j c + one (i == j)
unfolding register
accounted-register j i a s r t c h = ground (
  arith,
  get-set j i (entry_of i a s r t) c.pending,
  settlements-append j c.log (registered (entry_of i a s r t).approval ∷ []),
  eq_iff i j,
)

-- The id that a call registers.
abbrev new_id : Call → List String
new_id (registers i a s r t) = i ∷ []
new_id (fires i) = []
new_id (resolves s i d) = []
new_id (resolves_by_id i d) = []
new_id (cancels s) = []

abbrev pub new_ids : List Call → List String
new_ids [] = []
new_ids (k ∷ ks) = new_id k ++ new_ids ks

accounted-step :
    (j : String) (k : Call) (c : ApprovalCorrelator)
    → IsNew k c
    → IsIndexed c
    → accounted j (step k c) ≡ accounted j c + one (includes j (new_id k))
unfolding step
accounted-step j (registers i a s r t) c h v = ground (arith, accounted-register j i a s r t c h)
accounted-step j (fires i) c h v = omega (arith, accounted-timer_fires j i c v)
accounted-step j (resolves s i d) c h v = omega (arith, accounted-resolve j s i d c v)
accounted-step j (resolves_by_id i d) c h v = omega (arith, accounted-resolve_by_id j i d c v)
accounted-step j (cancels s) c h v = omega (arith, accounted-cancel_session j s c v)

accounted-IsNew :
    (k : Call) (c : ApprovalCorrelator)
    → ((i : String) → includes i (new_id k) ≡ true → accounted i c ≡ 0)
    → IsNew k c
accounted-IsNew (registers i a s r t) c h = ground (arith, h i, eq_refl i)
accounted-IsNew (fires i) c h = tt
accounted-IsNew (resolves s i d) c h = tt
accounted-IsNew (resolves_by_id i d) c h = tt
accounted-IsNew (cancels s) c h = tt

Distinct-tail : (k : Call) (ids : List String) → Distinct (new_id k ++ ids) → Distinct ids
Distinct-tail (registers i a s r t) ids h = h.1
Distinct-tail (fires i) ids h = h
Distinct-tail (resolves s i d) ids h = h
Distinct-tail (resolves_by_id i d) ids h = h
Distinct-tail (cancels s) ids h = h

Distinct-head :
    (k : Call) (ids : List String) (j : String)
    → Distinct (new_id k ++ ids)
    → includes j ids ≡ true
    → includes j (new_id k) ≡ false
Distinct-head (registers i a s r t) ids j h m = ground (arith, eq_iff i j)
Distinct-head (fires i) ids j h m = refl
Distinct-head (resolves s i d) ids j h m = refl
Distinct-head (resolves_by_id i d) ids j h m = refl
Distinct-head (cancels s) ids j h m = refl

accounted-run :
    (j : String) (ks : List Call) (c : ApprovalCorrelator)
    → Distinct (new_ids ks)
    → ((i : String) → includes i (new_ids ks) ≡ true → accounted i c ≡ 0)
    → IsIndexed c
    → accounted j (run ks c) ≡ accounted j c + one (includes j (new_ids ks))
unfolding run
accounted-run j [] c d h v = omega arith
accounted-run j (k ∷ ks) c d h v =
    let fresh =
      accounted-IsNew k c
        (λ i hi. h i (ground (arith, includes-append i (new_id k) (new_ids ks)))) in
    let rest =
      accounted-run j ks (step k c) (Distinct-tail k (new_ids ks) d)
        (λ i hi. ground (
          arith,
          h i,
          includes-append i (new_id k) (new_ids ks),
          accounted-step i k c fresh v,
          Distinct-head k (new_ids ks) i d hi,
        ))
        (step-IsIndexed k c fresh v) in
    ground (
      arith,
      rest,
      accounted-step j k c fresh v,
      includes-append j (new_id k) (new_ids ks),
      Distinct-head k (new_ids ks) j d,
    )

pub empty-IsIndexed : IsIndexed empty
unfolding empty get
empty-IsIndexed = record {
  keyed = λ i e h. cc;
  listed = λ i e h. cc;
  backed = λ s i h. absurd (ground arith);
}

-- In every history of calls whose registrations bring distinct ids, the settlements of an approval's
-- promise, and one more while the approval is pending, make one if it was registered and none if it
-- was not: a registered approval is pending or has been settled once, never twice.
pub run_settles_once :
    (j : String) (ks : List Call)
    → Distinct (new_ids ks)
    → settlements j (run ks empty).log + one (has j (run ks empty).pending)
      ≡ one (includes j (new_ids ks))
unfolding empty get
run_settles_once j ks d = omega (arith, accounted-run j ks empty d (λ i h. refl) empty-IsIndexed)
