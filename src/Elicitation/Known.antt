-- ===== src/Elicitation/Known.antt =====
-- The keys that a call may leave in `entries`.
use zooid.Dict.{get, has, set}
use zooid.Dict.Laws.{get-set}
use zooid.Elicitation.{
  ElicitationCorrelator, ElicitationResponse, ElicitationStatus, PendingElicitation,
  RegisterElicitationInput, attach_request_event, cancel_request, cancel_where, cancelled, close,
  fail, finish, is_pending, record_of, register, settle, status_of,
}
use zooid.Elicitation.Bounded.{Pending-cases, Sound, cancel_request-Sound, stored-Sound}
use zooid.Elicitation.Valid.{Valid, get-evict, push-IsValid}
use zooid.Prelude.{
  Bool, Bool-cases, List, Option, Option-cases, String, [], arith, eq_iff, inl, inr, none, some,
  true, ◌++◌, ◌==◌, ◌||◌, ◌∷◌, ◌≡◌,
}

-- No call but a registration stores a new key.
has-finish :
    (j i : String) (e : PendingElicitation) (s : ElicitationStatus) (c : ElicitationCorrelator)
    → get i c.entries ≡ some e
    → is_pending e ≡ true
    → Valid c
    → has j (finish e s c).entries ≡ true
    → has j c.entries ≡ true
unfolding finish
has-finish j i e s c h on v k = ground (
  arith,
  get-evict j c.terminal_cap (c.terminal_order ++ e.request_id ∷ [])
      (set e.request_id (close e s) c.entries)
      (push-IsValid i e s c.terminal_order c.entries h on v),
  get-set j e.request_id (close e s) c.entries,
  v.keyed i e h,
  eq_iff i j,
)

pub has-settle :
    (j i : String) (r : ElicitationResponse) (by event : Option String) (c : ElicitationCorrelator)
    → Sound c
    → has j (settle i r by event c).0.entries ≡ true
    → has j c.entries ≡ true
unfolding settle
has-settle j i r by event c v k = elim (Pending-cases i c) [
  | inl h ↦ rw (h, settle) at k
  | inr (e, h, he, on) ↦ has-finish j i e (status_of r) c he on v.valid (rw (h, settle) at k)
]

pub has-cancel_request :
    (j i reason : String) (c : ElicitationCorrelator)
    → Sound c
    → has j (cancel_request i reason c).0.entries ≡ true
    → has j c.entries ≡ true
unfolding cancel_request
has-cancel_request j i reason c v k = elim (Pending-cases i c) [
  | inl h ↦ rw (h, cancel_request) at k
  | inr (e, h, he, on) ↦ has-finish j i e cancelled c he on v.valid (rw (h, cancel_request) at k)
]

pub has-fail :
    (j i err : String) (c : ElicitationCorrelator)
    → Sound c
    → has j (fail i err c).0.entries ≡ true
    → has j c.entries ≡ true
unfolding fail
has-fail j i err c v k = elim (Pending-cases i c) [
  | inl h ↦ rw (h, fail) at k
  | inr (e, h, he, on) ↦ has-finish j i e cancelled c he on v.valid (rw (h, fail) at k)
]

pub has-cancel_where :
    (j : String) (p : PendingElicitation → Bool) (reason : String) (es : List PendingElicitation)
    (c : ElicitationCorrelator)
    → Sound c
    → has j (cancel_where p reason es c).0.entries ≡ true
    → has j c.entries ≡ true
unfolding cancel_where
has-cancel_where j p reason [] c v k = k
has-cancel_where j p reason (e ∷ es) c v k = elim (Bool-cases (p e)) [
  | inl hit ↦ has-cancel_request j e.request_id reason c v (
      has-cancel_where j p reason es _ (cancel_request-Sound e.request_id reason c v) (rw hit at k))
  | inr miss ↦ has-cancel_where j p reason es c v (rw miss at k)
]

pub has-register :
    (j i : String) (input : RegisterElicitationInput) (c : ElicitationCorrelator)
    → get i c.entries ≡ none
    → Sound c
    → has j (register i input c).entries ≡ true
    → (i == j || has j c.entries) ≡ true
unfolding register
has-register j i input c h v k =
    let stored = record c { entries = set i (record_of i input) c.entries } in
    ground (
      arith,
      get-set j i (record_of i input) c.entries,
      has-cancel_request j i "agent_cancelled" stored (stored-Sound i input c h v),
    )

pub has-attach :
    (j i event : String) (c : ElicitationCorrelator)
    → has j (attach_request_event i event c).entries ≡ true
    → has j c.entries ≡ true
unfolding attach_request_event
has-attach j i event c k = elim (Option-cases (get i c.entries)) [
  | inl h ↦ rw (h, attach_request_event) at k
  | inr (x, h) ↦
      ground (arith, get-set j i (record x { request_event_id = some event }) c.entries, eq_iff i j)
]
