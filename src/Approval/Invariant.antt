-- ===== src/Approval/Invariant.antt =====
-- The two maps of the correlator agree, and every call keeps them so.
use zooid.Prelude.{
  ℕ, String, ◌≡◌, refl, true, ◌&&◌, ◌||◌, not, Option, none, some, List, [], arith, ◌==◌, eq_iff,
  if◌then◌else◌, default, includes, inl, inr, Option-cases, Bool-cases,
}
use zooid.Dict.{Dict, get, insert, remove}
use zooid.Dict.Laws.{get-set, get-delete, includes-insert, includes-remove}
use zooid.Approval.{
  ApprovalRequest, ApprovalDecision, PendingEntry, ApprovalCorrelator, cancel, Effect, ids_of,
  unlink, entry_of, register, settle, timer_fires, resolve, resolve_by_id,
}

-- Each pending approval is stored under its own id and listed in the set of its session, and a
-- session's set holds ids of its own pending approvals.
pub record IsIndexed (c : ApprovalCorrelator) : Type 0 where
  pub keyed : (i : String) (e : PendingEntry) → get i c.pending ≡ some e → e.approval_id ≡ i
  pub listed :
      (i : String) (e : PendingEntry)
      → get i c.pending ≡ some e
      → includes i (ids_of e.session_id c) ≡ true
  pub backed :
      (s i : String)
      → includes i (ids_of s c) ≡ true
      → (e : PendingEntry) × (get i c.pending ≡ some e) × (e.session_id ≡ s)

module _ (s j : String) where
  ids_of-unlink :
      (t i : String) (m : Dict (List String))
      → includes j (default (get s (unlink t i m)) [])
        ≡ (not (t == s && i == j) && includes j (default (get s m) []))
  ids_of-unlink t i m = elim (Option-cases (get t m)) [
    | inl e ↦ ground (arith, eq_iff t s)
    | inr (ids, e) ↦
        ground (arith, get-set s t (remove i ids) m, includes-remove j i ids, eq_iff t s)
  ]

  ids_of-settle :
      (e : PendingEntry) (d : ApprovalDecision) (c : ApprovalCorrelator)
      → includes j (ids_of s (settle e d c))
        ≡ (not (e.session_id == s && e.approval_id == j) && includes j (ids_of s c))
  unfolding settle
  ids_of-settle e d c = ids_of-unlink e.session_id e.approval_id c.by_session

pub get-settle :
    (j : String) (e : PendingEntry) (d : ApprovalDecision) (c : ApprovalCorrelator)
    → get j (settle e d c).pending ≡ (if e.approval_id == j then none else get j c.pending)
unfolding settle
get-settle j e d c = get-delete j e.approval_id c.pending

-- Settling the entry of a key.
pub settle-IsIndexed :
    (i : String) (e : PendingEntry) (d : ApprovalDecision) (c : ApprovalCorrelator)
    → get i c.pending ≡ some e
    → IsIndexed c
    → IsIndexed (settle e d c)
settle-IsIndexed i e d c h v = record {
  keyed = λ j x hx. ground (arith, get-settle j e d c, v.keyed j x);
  listed = λ j x hx.
      ground (arith, get-settle j e d c, v.listed j x, ids_of-settle x.session_id j e d c);
  backed = λ s j hj.
      let (x, hx, hs) = v.backed s j (ground (arith, ids_of-settle s j e d c)) in
      (
        x,
        ground (
          arith,
          get-settle j e d c,
          ids_of-settle s j e d c,
          v.keyed i e h,
          eq_iff e.approval_id j,
          eq_iff e.session_id s,
        ),
        hs,
      );
}

module _ (i a s : String) (r : ApprovalRequest) (t : Option ℕ) (c : ApprovalCorrelator) where
  get-register :
      (j : String)
      → get j (register i a s r t c).0.pending
        ≡ (if i == j then some (entry_of i a s r t) else get j c.pending)
  unfolding register
  get-register j = get-set j i (entry_of i a s r t) c.pending

  ids_of-register :
      (u j : String)
      → includes j (ids_of u (register i a s r t c).0)
        ≡ (s == u && i == j || includes j (ids_of u c))
  unfolding register
  ids_of-register u j = ground (
    arith,
    get-set u s (insert i (ids_of s c)) c.by_session,
    includes-insert j i (ids_of s c),
    eq_iff s u,
  )

  -- A new id is that of no approval that is pending.
  pub register-IsIndexed : get i c.pending ≡ none → IsIndexed c → IsIndexed (register i a s r t c).0
  register-IsIndexed h v = record {
    keyed = λ j x hx. ground (arith, get-register j, v.keyed j x, eq_iff i j);
    listed = λ j x hx. ground (
      arith,
      get-register j,
      v.listed j x,
      ids_of-register x.session_id j,
      eq_iff i j,
      eq_iff s x.session_id,
    );
    backed = λ u j hj. elim (Bool-cases (i == j)) [
      | inl new ↦ (
        entry_of i a s r t,
        rw (get-register j, new) refl,
        ground (arith, ids_of-register u j, v.backed u i, eq_iff i j, eq_iff s u),
      )
      | inr old ↦
          let (x, hx, hs) = v.backed u j (ground (arith, ids_of-register u j)) in
          (x, ground (arith, get-register j), hs)
    ];
  }

-- The log is not read.
log-IsIndexed :
    (c : ApprovalCorrelator) (l : List Effect) → IsIndexed c → IsIndexed (record c { log = l })
log-IsIndexed c l v = record { keyed = v.keyed; listed = v.listed; backed = v.backed }

pub timer_fires-IsIndexed :
    (i : String) (c : ApprovalCorrelator) → IsIndexed c → IsIndexed (timer_fires i c)
unfolding timer_fires
timer_fires-IsIndexed i c v = elim (Option-cases (get i c.pending)) [
  | inl e ↦ rw (e, timer_fires) v
  | inr (x, e) ↦ elim (Option-cases x.timer) [
    | inl off ↦ rw (e, timer_fires, off) v
    | inr (ms, on) ↦
        rw (e, timer_fires, on)
          (log-IsIndexed (settle x cancel c) _ (settle-IsIndexed i x cancel c e v))
  ]
]

pub resolve-IsIndexed :
    (s i : String) (d : ApprovalDecision) (c : ApprovalCorrelator)
    → IsIndexed c
    → IsIndexed (resolve s i d c).0
unfolding resolve
resolve-IsIndexed s i d c v = elim (Option-cases (get i c.pending)) [
  | inl e ↦ rw (e, resolve) v
  | inr (x, e) ↦ elim (Bool-cases (x.session_id == s)) [
    | inl own ↦ rw (e, resolve, own) (settle-IsIndexed i x d c e v)
    | inr other ↦ rw (e, resolve, other) v
  ]
]

pub resolve_by_id-IsIndexed :
    (i : String) (d : ApprovalDecision) (c : ApprovalCorrelator)
    → IsIndexed c
    → IsIndexed (resolve_by_id i d c).0
unfolding resolve_by_id
resolve_by_id-IsIndexed i d c v = elim (Option-cases (get i c.pending)) [
  | inl e ↦ rw (e, resolve_by_id) v
  | inr (x, e) ↦ rw (e, resolve_by_id) (settle-IsIndexed i x d c e v)
]
