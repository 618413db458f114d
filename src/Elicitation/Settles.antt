-- ===== src/Elicitation/Settles.antt =====
-- How often the promise of a request is settled, and what a history keeps in memory.
use zooid.Dict.{get, set}
use zooid.Dict.Count.{one}
use zooid.Dict.Laws.{get-set}
use zooid.Elicitation.{
  Effect, ElicitationCorrelator, ElicitationResponse, ElicitationStatus, PendingElicitation,
  RegisterElicitationInput, attach_request_event, cancel_request, cancel_where, cancelled, detached,
  fail, find_pending, finish, is_pending, listening, record_of, register, rejected_promise,
  resolved, resolved_promise, say, settle, status_of,
}
use zooid.Elicitation.Bounded.{Pending-cases, Sound, cancel_request-Sound, stored-Sound}
use zooid.Elicitation.Valid.{find_pending-finish}
use zooid.Prelude.{
  Bool, Bool-cases, List, Option, Option-cases, String, [], arith, eq_iff, inl, inr, is_some, none,
  refl, some, true, ℕ, ◌++◌, ◌+◌, ◌==◌, ◌∙◌, ◌∷◌, ◌≡◌,
}

-- How often the log settles the promise of a request, by an answer or by an error.
abbrev pub settlements : String → List Effect → ℕ
settlements i [] = 0
settlements i (resolved_promise a r ∷ l) = one (a == i) + settlements i l
settlements i (rejected_promise a e ∷ l) = one (a == i) + settlements i l
settlements i (listening a ∷ l) = settlements i l
settlements i (detached a ∷ l) = settlements i l
settlements i (resolved r ∷ l) = settlements i l

settlements-append :
    (i : String) (l m : List Effect) → settlements i (l ++ m) ≡ settlements i l + settlements i m
settlements-append i [] m = omega arith
settlements-append i (e ∷ l) m = ground (arith, settlements-append i l m)

-- Settlements of a request, and one more while it is pending.
abbrev pub accounted : String → ElicitationCorrelator → ℕ
accounted i c = settlements i c.log + one (is_some (find_pending i c))

log-finish :
    (j : String) (e : PendingElicitation) (s : ElicitationStatus) (c : ElicitationCorrelator)
    → settlements j (finish e s c).log ≡ settlements j c.log
unfolding finish
log-finish j e s c = omega (arith, settlements-append j c.log (detached e.request_id ∷ []))

-- Finishing a request with one settlement of its promise.
accounted-finish :
    (j i : String) (e : PendingElicitation) (s : ElicitationStatus) (l : List Effect)
    (c : ElicitationCorrelator)
    → settlements j l ≡ one (e.request_id == j)
    → find_pending i c ≡ some e
    → get i c.entries ≡ some e
    → is_pending e ≡ true
    → Sound c
    → accounted j (say l (finish e s c)) ≡ accounted j c
accounted-finish j i e s l c one_more h he on v = ground (
  arith,
  settlements-append j (finish e s c).log l,
  log-finish j e s c,
  find_pending-finish j i e s c he on v.valid,
  v.valid.keyed i e he,
  eq_iff i j,
)

pub accounted-settle :
    (j i : String) (r : ElicitationResponse) (by event : Option String) (c : ElicitationCorrelator)
    → Sound c
    → accounted j (settle i r by event c).0 ≡ accounted j c
unfolding settle
accounted-settle j i r by event c v = elim (Pending-cases i c) [
  | inl h ↦ rw (h, settle)
  | inr (e, h, he, on) ↦
      rw (h, settle) (accounted-finish j i e (status_of r) _ c (omega arith) h he on v)
]

pub accounted-cancel_request :
    (j i reason : String) (c : ElicitationCorrelator)
    → Sound c
    → accounted j (cancel_request i reason c).0 ≡ accounted j c
unfolding cancel_request
accounted-cancel_request j i reason c v = elim (Pending-cases i c) [
  | inl h ↦ rw (h, cancel_request)
  | inr (e, h, he, on) ↦
      rw (h, cancel_request) (accounted-finish j i e cancelled _ c (omega arith) h he on v)
]

pub accounted-fail :
    (j i err : String) (c : ElicitationCorrelator)
    → Sound c
    → accounted j (fail i err c).0 ≡ accounted j c
unfolding fail
accounted-fail j i err c v = elim (Pending-cases i c) [
  | inl h ↦ rw (h, fail)
  | inr (e, h, he, on) ↦ rw (h, fail) (accounted-finish j i e cancelled _ c (omega arith) h he on v)
]

pub accounted-cancel_where :
    (j : String) (p : PendingElicitation → Bool) (reason : String) (es : List PendingElicitation)
    (c : ElicitationCorrelator)
    → Sound c
    → accounted j (cancel_where p reason es c).0 ≡ accounted j c
unfolding cancel_where
accounted-cancel_where j p reason [] c v = refl
accounted-cancel_where j p reason (e ∷ es) c v = elim (Bool-cases (p e)) [
  | inl hit ↦ rw hit (
      accounted-cancel_where j p reason es _ (cancel_request-Sound e.request_id reason c v)
      ∙ accounted-cancel_request j e.request_id reason c v)
  | inr miss ↦ rw miss (accounted-cancel_where j p reason es c v)
]

pub accounted-register :
    (j i : String) (input : RegisterElicitationInput) (c : ElicitationCorrelator)
    → get i c.entries ≡ none
    → Sound c
    → accounted j (register i input c) ≡ accounted j c + one (i == j)
unfolding register
accounted-register j i input c h v =
    let stored = record c { entries = set i (record_of i input) c.entries } in
    ground (
      arith,
      get-set j i (record_of i input) c.entries,
      settlements-append j c.log (listening i ∷ []),
      accounted-cancel_request j i "agent_cancelled" stored (stored-Sound i input c h v),
      eq_iff i j,
    )

pub accounted-attach :
    (j i event : String) (c : ElicitationCorrelator)
    → accounted j (attach_request_event i event c) ≡ accounted j c
unfolding attach_request_event
accounted-attach j i event c = elim (Option-cases (get i c.entries)) [
  | inl h ↦ rw (h, attach_request_event)
  | inr (x, h) ↦
      ground (arith, get-set j i (record x { request_event_id = some event }) c.entries, eq_iff i j)
]
