-- ===== src/Elicitation/Bounded.antt =====
-- Every call keeps the records well-formed and the terminal ones within the cap.
use zooid.Dict.{count, get, set, values}
use zooid.Dict.Count.{count-set-none, count-set-some}
use zooid.Dict.Laws.{get-set, set-Unique}
use zooid.Elicitation.{
  Effect, ElicitationCorrelator, ElicitationResponse, ElicitationStatus, PendingElicitation,
  RegisterElicitationInput, attach_request_event, cancel_for, cancel_request, cancel_session,
  cancel_where, cancelled, fail, find_pending, finish, has_key, init, is_pending, record_of,
  register, say, settle, status_of,
}
use zooid.Elicitation.Step.{
  Call, aborts, attaches, cancels, cancels_for, cancels_session, fails, registers, settles, step,
}
use zooid.Elicitation.Valid.{Valid, finish-Valid, is_terminal, length-finish}
use zooid.Prelude.{
  Bool, Bool-cases, List, Option, Option-cases, String, [], arith, eq_iff, inl, inr, length, none,
  refl, some, true, ℕ, ◌==◌, ◌∙◌, ◌∷◌, ◌≡◌, ◌≤◌, ◌⊎◌,
}

pub record Sound (c : ElicitationCorrelator) : Type 0 where
  pub valid : Valid c
  pub bounded : length c.terminal_order ≤ c.terminal_cap

pub Pending-cases :
    (i : String) (c : ElicitationCorrelator)
    → (find_pending i c ≡ none)
      ⊎ ((e : PendingElicitation) × (find_pending i c ≡ some e)
          × (get i c.entries ≡ some e)
          × (is_pending e ≡ true))
Pending-cases i c = elim (Option-cases (get i c.entries)) [
  | inl h ↦ inl (ground arith)
  | inr (e, h) ↦ elim (Bool-cases (is_pending e)) [
    | inl on ↦ inr (e, ground arith, h, on)
    | inr off ↦ inl (ground arith)
  ]
]

say-Sound : (l : List Effect) (c : ElicitationCorrelator) → Sound c → Sound (say l c)
say-Sound l c v = record { valid = v.valid; bounded = v.bounded }

finish-Sound :
    (i : String) (e : PendingElicitation) (s : ElicitationStatus) (c : ElicitationCorrelator)
    → get i c.entries ≡ some e
    → is_pending e ≡ true
    → Sound c
    → Sound (finish e s c)
finish-Sound i e s c h on v = record {
  valid = finish-Valid i e s c h on v.valid;
  bounded = length-finish e s c;
}

settle-Sound :
    (i : String) (r : ElicitationResponse) (by event : Option String) (c : ElicitationCorrelator)
    → Sound c
    → Sound (settle i r by event c).0
unfolding settle
settle-Sound i r by event c v = elim (Pending-cases i c) [
  | inl h ↦ rw (h, settle) v
  | inr (e, h, he, on) ↦ rw (h, settle) (say-Sound _ _ (finish-Sound i e (status_of r) c he on v))
]

pub cancel_request-Sound :
    (i reason : String) (c : ElicitationCorrelator) → Sound c → Sound (cancel_request i reason c).0
unfolding cancel_request
cancel_request-Sound i reason c v = elim (Pending-cases i c) [
  | inl h ↦ rw (h, cancel_request) v
  | inr (e, h, he, on) ↦
      rw (h, cancel_request) (say-Sound _ _ (finish-Sound i e cancelled c he on v))
]

fail-Sound : (i err : String) (c : ElicitationCorrelator) → Sound c → Sound (fail i err c).0
unfolding fail
fail-Sound i err c v = elim (Pending-cases i c) [
  | inl h ↦ rw (h, fail) v
  | inr (e, h, he, on) ↦ rw (h, fail) (say-Sound _ _ (finish-Sound i e cancelled c he on v))
]

pub cancel_where-Sound :
    (p : PendingElicitation → Bool) (reason : String) (es : List PendingElicitation)
    (c : ElicitationCorrelator)
    → Sound c
    → Sound (cancel_where p reason es c).0
unfolding cancel_where
cancel_where-Sound p reason [] c v = v
cancel_where-Sound p reason (e ∷ es) c v = elim (Bool-cases (p e)) [
  | inl hit ↦
      rw hit (cancel_where-Sound p reason es _ (cancel_request-Sound e.request_id reason c v))
  | inr miss ↦ rw miss (cancel_where-Sound p reason es c v)
]

count-write :
    (i : String) (e : PendingElicitation) (c : ElicitationCorrelator)
    → ((get i c.entries ≡ none) × (is_pending e ≡ true))
      ⊎ ((x : PendingElicitation) × (get i c.entries ≡ some x) × (is_pending e ≡ is_pending x))
    → count is_terminal (set i e c.entries) ≡ count is_terminal c.entries
count-write i e c (inl (h, on)) = ground (arith, count-set-none is_terminal i e c.entries h)
count-write i e c (inr (x, h, same)) = ground (arith, count-set-some is_terminal i e x c.entries h)

-- A write to an entry that is not terminal before or after.
write-Sound :
    (i : String) (e : PendingElicitation) (c : ElicitationCorrelator)
    → e.request_id ≡ i
    → ((get i c.entries ≡ none) × (is_pending e ≡ true))
      ⊎ ((x : PendingElicitation) × (get i c.entries ≡ some x) × (is_pending e ≡ is_pending x))
    → Sound c
    → Sound (record c { entries = set i e c.entries })
write-Sound i e c same old v = record {
  valid = record {
    keyed = λ j x hx. ground (arith, get-set j i e c.entries, v.valid.keyed j x, eq_iff i j);
    backed = λ j hj.
        let (x, hx, off) = v.valid.backed j hj in
        elim (Bool-cases (i == j)) [
          | inl new ↦ (e, rw (get-set j i e c.entries, new) refl, ground (arith, eq_iff i j))
          | inr other ↦ (x, rw (get-set j i e c.entries, other) hx, off)
        ];
    distinct = v.valid.distinct;
    counted = count-write i e c old ∙ v.valid.counted;
    unique = set-Unique i e c.entries v.valid.unique;
  };
  bounded = v.bounded;
}

pub stored-Sound :
    (i : String) (input : RegisterElicitationInput) (c : ElicitationCorrelator)
    → get i c.entries ≡ none
    → Sound c
    → Sound (record c { entries = set i (record_of i input) c.entries })
stored-Sound i input c h v = write-Sound i (record_of i input) c refl (inl (h, refl)) v

register-Sound :
    (i : String) (input : RegisterElicitationInput) (c : ElicitationCorrelator)
    → get i c.entries ≡ none
    → Sound c
    → Sound (register i input c)
unfolding register
register-Sound i input c h v =
    let stored = stored-Sound i input c h v in
    elim (Bool-cases input.aborted) [
      | inl on ↦ rw on (cancel_request-Sound i "agent_cancelled" _ stored)
      | inr off ↦ rw off (say-Sound _ _ stored)
    ]

attach_request_event-Sound :
    (i event : String) (c : ElicitationCorrelator)
    → Sound c
    → Sound (attach_request_event i event c)
unfolding attach_request_event
attach_request_event-Sound i event c v = elim (Option-cases (get i c.entries)) [
  | inl h ↦ rw (h, attach_request_event) v
  | inr (x, h) ↦
      rw (h, attach_request_event)
        (write-Sound i (record x { request_event_id = some event }) c (v.valid.keyed i x h)
          (inr (x, h, refl)) v)
]

-- A registration brings an id that is not stored.
abbrev pub IsNew : Call → ElicitationCorrelator → Type 0
IsNew (registers i input) c = get i c.entries ≡ none
IsNew _ c = Unit

pub cancel_for-Sound :
    (ks : List String) (c : ElicitationCorrelator) → Sound c → Sound (cancel_for ks c)
unfolding cancel_for
cancel_for-Sound ks c v = cancel_where-Sound (has_key ks) "task_closed" (values c.entries) c v

pub step-Sound : (k : Call) (c : ElicitationCorrelator) → IsNew k c → Sound c → Sound (step k c)
unfolding step cancel_session cancel_for
step-Sound (registers i input) c h v = register-Sound i input c h v
step-Sound (aborts i) c h v = cancel_request-Sound i "agent_cancelled" c v
step-Sound (attaches i event) c h v = attach_request_event-Sound i event c v
step-Sound (settles i r by event) c h v = settle-Sound i r by event c v
step-Sound (cancels i reason) c h v = cancel_request-Sound i reason c v
step-Sound (fails i err) c h v = fail-Sound i err c v
step-Sound (cancels_session s reason) c h v = cancel_where-Sound _ reason (values c.entries) c v
step-Sound (cancels_for ks) c h v = cancel_where-Sound _ "task_closed" (values c.entries) c v

pub init-Sound : (cap : Option ℕ) → Sound (init cap)
unfolding init count get
init-Sound cap = record {
  valid = record {
    keyed = λ i e h. cc;
    backed = λ i h. absurd (ground arith);
    distinct = tt;
    counted = refl;
    unique = tt;
  };
  bounded = omega arith;
}
