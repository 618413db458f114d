-- ===== src/Elicitation/Keys.antt =====
-- `cancelFor`, `cancelSession` and the counts of pending requests.
use zooid.Dict.{Dict, count, delete, get, set, values}
use zooid.Dict.Count.{count-delete, count-set-some, count-zero, one}
use zooid.Dict.Laws.{Unique}
use zooid.Elicitation.{
  ElicitationCorrelator, ElicitationStatus, PendingElicitation, cancel_for, cancel_request,
  cancel_session, cancel_where, cancelled, close, count_for, count_for_session, count_where, evict,
  find_pending, finish, has_key, in_session, is_pending,
}
use zooid.Elicitation.Bounded.{
  Pending-cases, Sound, cancel_for-Sound, cancel_request-Sound, cancel_where-Sound,
}
use zooid.Elicitation.Valid.{IsValid, evict_one-IsValid, find_pending-finish, push-IsValid}
use zooid.Prelude.{
  All, Bool, Bool-cases, List, Option, String, [], any, arith, eq_iff, eq_refl, false,
  if◌then◌else◌, includes, inl, inr, length, ltb, none, refl, some, true, ℕ, ◌&&◌, ◌++◌, ◌+◌, ◌==◌,
  ◌∙◌, ◌∷◌, ◌≡◌,
}

-- What is left of a pending request when those that pass a test are cancelled.
abbrev pub unless :
    (PendingElicitation → Bool) → Option PendingElicitation → Option PendingElicitation
unless p none = none
unless p (some e) = if p e then none else some e

find_pending-cancel_request :
    (j i reason : String) (c : ElicitationCorrelator)
    → Sound c
    → find_pending j (cancel_request i reason c).0 ≡ (if i == j then none else find_pending j c)
unfolding cancel_request
find_pending-cancel_request j i reason c v = elim (Pending-cases i c) [
  | inl h ↦ rw (h, cancel_request) (ground (arith, eq_iff i j))
  | inr (e, h, he, on) ↦
      rw (h, cancel_request) (find_pending-finish j i e cancelled c he on v.valid)
]

find_pending-cancel_where :
    (j : String) (p : PendingElicitation → Bool) (reason : String) (es : List PendingElicitation)
    (c : ElicitationCorrelator)
    → Sound c
    → find_pending j (cancel_where p reason es c).0
      ≡ (if any (λ e. p e && e.request_id == j) es then none else find_pending j c)
unfolding cancel_where
find_pending-cancel_where j p reason [] c v = refl
find_pending-cancel_where j p reason (e ∷ es) c v = elim (Bool-cases (p e)) [
  | inl hit ↦ rw hit (
      ground (
        arith,
        find_pending-cancel_where j p reason es _ (cancel_request-Sound e.request_id reason c v),
        find_pending-cancel_request j e.request_id reason c v,
      ))
  | inr miss ↦ rw miss (find_pending-cancel_where j p reason es c v)
]

-- Whether the snapshot of the entries holds a request of an id that passes a test.
any-values :
    (j : String) (p : PendingElicitation → Bool) (m : Dict PendingElicitation)
    → Unique m
    → ((i : String) (e : PendingElicitation) → get i m ≡ some e → e.request_id ≡ i)
    → any (λ e. p e && e.request_id == j) (values m)
      ≡ elim (get j m) [ none ↦ false | some e ↦ p e ]
unfolding values get
any-values j p [] u keyed = refl
any-values j p ((i, e) ∷ m) u keyed = ground (
  arith,
  any-values j p m u.1 (λ k x h. keyed k x (ground (arith, eq_iff i k))),
  keyed i e (ground (arith, eq_refl i)),
  eq_iff i j,
)

-- A loop over the snapshot cancels the pending requests that pass the test, and no other.
cancel_values :
    (j : String) (p : PendingElicitation → Bool) (reason : String) (c : ElicitationCorrelator)
    → Sound c
    → find_pending j (cancel_where p reason (values c.entries) c).0 ≡ unless p (find_pending j c)
cancel_values j p reason c v = ground (
  arith,
  find_pending-cancel_where j p reason (values c.entries) c v,
  any-values j p c.entries v.valid.unique v.valid.keyed,
)

-- `cancelFor` cancels the pending requests of the given session keys, all of them and no other.
find_pending-cancel_for :
    (j : String) (ks : List String) (c : ElicitationCorrelator)
    → Sound c
    → find_pending j (cancel_for ks c) ≡ unless (has_key ks) (find_pending j c)
unfolding cancel_for
find_pending-cancel_for j ks c v = cancel_values j (has_key ks) "task_closed" c v

-- A count of the pending requests that pass a test is zero if no pending request does.
count_where-zero :
    (p : PendingElicitation → Bool) (c : ElicitationCorrelator)
    → Sound c
    → ((j : String) (e : PendingElicitation) → find_pending j c ≡ some e → p e ≡ false)
    → count_where p c ≡ 0
count_where-zero p c v h =
    count-zero (λ e. is_pending e && p e) c.entries v.valid.unique (λ j e he. ground (arith, h j e))

-- After `cancelFor` no request is pending under any of the given session keys.
count_for-cancel_for :
    (k : String) (ks : List String) (c : ElicitationCorrelator)
    → Sound c
    → includes k ks ≡ true
    → count_for k (cancel_for ks c) ≡ 0
count_for-cancel_for k ks c v h =
    count_where-zero (λ e. e.session_key == k) (cancel_for ks c) (cancel_for-Sound ks c v)
      (λ j e he. ground (arith, find_pending-cancel_for j ks c v, eq_iff e.session_key k))

abbrev live : (PendingElicitation → Bool) → PendingElicitation → Bool
live p e = is_pending e && p e

-- The dropped records are in no count of pending ones.
count-evict :
    (p : PendingElicitation → Bool) (cap : ℕ) (order : List String) (m : Dict PendingElicitation)
    → IsValid order m
    → count (live p) (evict cap order m).1 ≡ count (live p) m
unfolding evict
count-evict p cap [] m v = refl
count-evict p cap (i ∷ order) m v = elim (Bool-cases (ltb cap (length (i ∷ order)))) [
  | inr fits ↦ rw fits
  | inl over ↦
      let (e, he, off) = v.backed i (ground (arith, eq_refl i)) in
      rw over (
        count-evict p cap order (delete i m) (evict_one-IsValid i order m v)
        ∙ ground (arith, count-delete (live p) i e m v.unique he))
]

count-finish :
    (p : PendingElicitation → Bool) (i : String) (e : PendingElicitation) (s : ElicitationStatus)
    (c : ElicitationCorrelator)
    → get i c.entries ≡ some e
    → is_pending e ≡ true
    → Sound c
    → count_where p (finish e s c) + one (p e) ≡ count_where p c
unfolding finish
count-finish p i e s c h on v = ground (
  arith,
  count-evict p c.terminal_cap (c.terminal_order ++ e.request_id ∷ [])
      (set e.request_id (close e s) c.entries)
      (push-IsValid i e s c.terminal_order c.entries h on v.valid),
  count-set-some (live p) i (close e s) e c.entries h,
  v.valid.keyed i e h,
)

-- One cancelled request leaves the count of those that pass the test, if it is one of them.
count_where-cancel_request :
    (p : PendingElicitation → Bool) (i reason : String) (c : ElicitationCorrelator)
    → Sound c
    → ((e : PendingElicitation) → find_pending i c ≡ some e → p e ≡ true)
    → count_where p (cancel_request i reason c).0 + one (cancel_request i reason c).1
      ≡ count_where p c
unfolding cancel_request
count_where-cancel_request p i reason c v h = elim (Pending-cases i c) [
  | inl e ↦ rw (e, cancel_request) (omega arith)
  | inr (e, hp, he, on) ↦
      rw (hp, cancel_request) (ground (arith, count-finish p i e cancelled c he on v, h e hp))
]

-- A pending request under an id of the snapshot passes the test if the snapshot's does.
abbrev Agrees :
    (PendingElicitation → Bool) → List PendingElicitation → ElicitationCorrelator → Type 0
Agrees p es c =
    All
      (λ e.
        p e ≡ true → (x : PendingElicitation) → find_pending e.request_id c ≡ some x → p x ≡ true)
      es

Agrees-cancel_request :
    (p : PendingElicitation → Bool) (es : List PendingElicitation) (i reason : String)
    (c : ElicitationCorrelator)
    → Sound c
    → Agrees p es c
    → Agrees p es (cancel_request i reason c).0
Agrees-cancel_request p [] i reason c v a = tt
Agrees-cancel_request p (e ∷ es) i reason c v a = (
  λ hit x hx. a.0 hit x (ground (arith, find_pending-cancel_request e.request_id i reason c v)),
  Agrees-cancel_request p es i reason c v a.1,
)

count_where-cancel_where :
    (p : PendingElicitation → Bool) (reason : String) (es : List PendingElicitation)
    (c : ElicitationCorrelator)
    → Sound c
    → Agrees p es c
    → count_where p (cancel_where p reason es c).0 + (cancel_where p reason es c).1
      ≡ count_where p c
unfolding cancel_where
count_where-cancel_where p reason [] c v a = omega arith
count_where-cancel_where p reason (e ∷ es) c v a = elim (Bool-cases (p e)) [
  | inr miss ↦ rw miss (count_where-cancel_where p reason es c v a.1)
  | inl hit ↦ rw hit (
      ground (
        arith,
        count_where-cancel_where p reason es (cancel_request e.request_id reason c).0
            (cancel_request-Sound e.request_id reason c v)
            (Agrees-cancel_request p es e.request_id reason c v a.1),
        count_where-cancel_request p e.request_id reason c v (a.0 hit),
      ))
]

Agrees-values :
    (p : PendingElicitation → Bool) (c : ElicitationCorrelator) (m : Dict PendingElicitation)
    → Unique m
    → ((i : String) (e : PendingElicitation) → get i m ≡ some e → e.request_id ≡ i)
    → ((i : String) (e : PendingElicitation) → get i m ≡ some e → get i c.entries ≡ some e)
    → Agrees p (values m) c
unfolding values get
Agrees-values p c [] u keyed sub = tt
Agrees-values p c ((i, e) ∷ m) u keyed sub = (
  λ hit x hx.
      ground (arith, keyed i e (ground (arith, eq_refl i)), sub i e (ground (arith, eq_refl i))),
  Agrees-values p c m u.1 (λ k x h. keyed k x (ground (arith, eq_iff i k)))
      (λ k x h. sub k x (ground (arith, eq_iff i k))),
)

-- `cancelSession` returns the number of requests that were pending in the session, and leaves none.
cancel_session-count :
    (s reason : String) (c : ElicitationCorrelator)
    → Sound c
    → ((cancel_session s reason c).1 ≡ count_for_session s c)
      × (count_for_session s (cancel_session s reason c).0 ≡ 0)
unfolding cancel_session
cancel_session-count s reason c v =
    let none_left =
      count_where-zero (in_session s) (cancel_session s reason c).0
        (cancel_where-Sound (in_session s) reason (values c.entries) c v)
        (λ j e he. ground (arith, cancel_values j (in_session s) reason c v)) in
    let total =
      count_where-cancel_where (in_session s) reason (values c.entries) c v
        (Agrees-values (in_session s) c c.entries v.valid.unique v.valid.keyed (λ i e h. h)) in
    (omega (arith, total, none_left), none_left)
