-- ===== src/Approval/Session.antt =====
-- `cancelSession` and `listPending`.
use mathlib.Core.Path.{ap₂}
use zooid.Approval.{
  ApprovalCorrelator, ApprovalDecision, PendingEntry, cancel, cancel_all, cancel_one,
  cancel_session, ids_of, list_pending, pending_of, resolve, resolve_by_id, timer_fires,
}
use zooid.Approval.Invariant.{
  IsIndexed, get-settle, register-IsIndexed, resolve-IsIndexed, resolve_by_id-IsIndexed,
  settle-IsIndexed, timer_fires-IsIndexed,
}
use zooid.Approval.Step.{Call, cancels, fires, registers, resolves, resolves_by_id, step}
use zooid.Dict.{delete, get}
use zooid.Dict.Laws.{get-delete}
use zooid.Prelude.{
  List, Option, Option-cases, String, [], arith, eq_iff, eq_refl, false, if◌then◌else◌, includes,
  inl, inr, map, none, refl, some, true, ◌==◌, ◌∷◌, ◌≡◌, ◌≢◌,
}

pub cancel_one-IsIndexed :
    (i : String) (c : ApprovalCorrelator) → IsIndexed c → IsIndexed (cancel_one i c)
unfolding cancel_one
cancel_one-IsIndexed i c v = elim (Option-cases (get i c.pending)) [
  | inl e ↦ rw (e, cancel_one) v
  | inr (x, e) ↦ rw (e, cancel_one) (settle-IsIndexed i x cancel c e v)
]

cancel_all-IsIndexed :
    (ids : List String) (c : ApprovalCorrelator) → IsIndexed c → IsIndexed (cancel_all ids c)
unfolding cancel_all
cancel_all-IsIndexed [] c v = v
cancel_all-IsIndexed (i ∷ ids) c v =
    cancel_all-IsIndexed ids (cancel_one i c) (cancel_one-IsIndexed i c v)

get-cancel_one :
    (j i : String) (c : ApprovalCorrelator)
    → IsIndexed c
    → get j (cancel_one i c).pending ≡ (if i == j then none else get j c.pending)
unfolding cancel_one
get-cancel_one j i c v = elim (Option-cases (get i c.pending)) [
  | inl e ↦ ground (arith, eq_iff i j)
  | inr (x, e) ↦ ground (arith, get-settle j x cancel c, v.keyed i x e, eq_iff i j)
]

-- The loop of `cancelSession` removes exactly the ids that it is given.
pub get-cancel_all :
    (j : String) (ids : List String) (c : ApprovalCorrelator)
    → IsIndexed c
    → get j (cancel_all ids c).pending ≡ (if includes j ids then none else get j c.pending)
unfolding cancel_all
get-cancel_all j [] c v = refl
get-cancel_all j (i ∷ ids) c v = ground (
  arith,
  get-cancel_all j ids (cancel_one i c) (cancel_one-IsIndexed i c v),
  get-cancel_one j i c v,
)

-- `bySession.delete` of a session none of whose approvals is pending.
drop_session-IsIndexed :
    (s : String) (c : ApprovalCorrelator)
    → ((i : String) (e : PendingEntry) → get i c.pending ≡ some e → e.session_id ≢ s)
    → IsIndexed c
    → IsIndexed (record c { by_session = delete s c.by_session })
drop_session-IsIndexed s c gone v = record {
  keyed = v.keyed;
  listed = λ i e he. ground (
    arith,
    get-delete e.session_id s c.by_session,
    v.listed i e he,
    gone i e he,
    eq_iff s e.session_id,
  );
  backed = λ u i hi. v.backed u i (ground (arith, get-delete u s c.by_session));
}

-- None of a session's approvals stays once the ids in its set are cancelled.
cancel_all_gone :
    (s : String) (ids : List String) (c : ApprovalCorrelator) (i : String) (e : PendingEntry)
    → get s c.by_session ≡ some ids
    → IsIndexed c
    → get i (cancel_all ids c).pending ≡ some e
    → e.session_id ≢ s
cancel_all_gone s ids c i e h v he same = ground (arith, get-cancel_all i ids c v, v.listed i e)

cancel_session-IsIndexed :
    (s : String) (c : ApprovalCorrelator) → IsIndexed c → IsIndexed (cancel_session s c)
unfolding cancel_session
cancel_session-IsIndexed s c v = elim (Option-cases (get s c.by_session)) [
  | inl e ↦ rw (e, cancel_session) v
  | inr (ids, e) ↦
      rw (e, cancel_session)
        (drop_session-IsIndexed s (cancel_all ids c) (λ i x hx. cancel_all_gone s ids c i x e v hx)
          (cancel_all-IsIndexed ids c v))
]

-- What `cancelSession(s)` leaves of an entry.
abbrev pub kept : String → Option PendingEntry → Option PendingEntry
kept s none = none
kept s (some e) = if e.session_id == s then none else some e

-- Cancelling a session removes the pending approvals of that session, all of them and no other.
get-cancel_session :
    (s j : String) (c : ApprovalCorrelator)
    → IsIndexed c
    → get j (cancel_session s c).pending ≡ kept s (get j c.pending)
unfolding cancel_session
get-cancel_session s j c v = elim (Option-cases (get s c.by_session)) [
  | inl e ↦ elim (Option-cases (get j c.pending)) [
    | inl g ↦ ground arith
    | inr (x, g) ↦ ground (arith, v.listed j x g, eq_iff x.session_id s)
  ]
  | inr (ids, e) ↦ elim (Option-cases (get j c.pending)) [
    | inl g ↦ ground (arith, get-cancel_all j ids c v)
    | inr (x, g) ↦
        ground
          (arith, get-cancel_all j ids c v, v.listed j x g, v.backed s j, eq_iff x.session_id s)
  ]
]

pending_of-ids :
    (s : String) (ids : List String) (c : ApprovalCorrelator)
    → ((i : String) → includes i ids ≡ true → includes i (ids_of s c) ≡ true)
    → IsIndexed c
    → map (λ a. a.approval_id) (pending_of ids c) ≡ ids
unfolding pending_of
pending_of-ids s [] c sub v = refl
pending_of-ids s (i ∷ ids) c sub v =
    let (x, hx, hs) = v.backed s i (sub i (ground (arith, eq_refl i))) in
    let rest = pending_of-ids s ids c (λ j hj. sub j (ground arith)) v in
    rw (hx, pending_of) (ap₂ ◌∷◌ (v.keyed i x hx) rest)

-- The pending approvals of a session are listed once each, in the order of their registration.
list_pending-ids :
    (s : String) (c : ApprovalCorrelator)
    → IsIndexed c
    → map (λ a. a.approval_id) (list_pending s c) ≡ ids_of s c
unfolding list_pending
list_pending-ids s c v = pending_of-ids s (ids_of s c) c (λ i h. h) v

-- A call that registers uses an id that is not pending.
abbrev pub IsNew : Call → ApprovalCorrelator → Type 0
IsNew (registers i a s r t) c = get i c.pending ≡ none
IsNew (fires i) c = Unit
IsNew (resolves s i d) c = Unit
IsNew (resolves_by_id i d) c = Unit
IsNew (cancels s) c = Unit

-- Every call of the correlator keeps its two maps in agreement, if a registration brings a new id.
pub step-IsIndexed :
    (k : Call) (c : ApprovalCorrelator) → IsNew k c → IsIndexed c → IsIndexed (step k c)
unfolding step
step-IsIndexed (registers i a s r t) c h v = register-IsIndexed i a s r t c h v
step-IsIndexed (fires i) c h v = timer_fires-IsIndexed i c v
step-IsIndexed (resolves s i d) c h v = resolve-IsIndexed s i d c v
step-IsIndexed (resolves_by_id i d) c h v = resolve_by_id-IsIndexed i d c v
step-IsIndexed (cancels s) c h v = cancel_session-IsIndexed s c v

-- Once a decision is accepted for an approval, each later answer is refused and changes nothing: another
-- decision, with or without the session's id, and the timer.
resolve_by_id_once :
    (i s : String) (d d' : ApprovalDecision) (c c' : ApprovalCorrelator)
    → IsIndexed c
    → resolve_by_id i d c ≡ (c', true)
    → (resolve_by_id i d' c' ≡ (c', false))
      × (resolve s i d' c' ≡ (c', false))
      × (timer_fires i c' ≡ c')
unfolding resolve_by_id resolve timer_fires
resolve_by_id_once i s d d' c c' v h = elim (Option-cases (get i c.pending)) [
  | inl gone ↦ absurd (ground arith)
  | inr (e, found) ↦
      let gone : get i c'.pending ≡ none =
        ground (arith, get-settle i e d c, v.keyed i e found, eq_refl i) in
      (ground arith, ground arith, ground arith)
]
