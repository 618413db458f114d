-- ===== src/Permits/Decided.antt =====
-- packages/transport-matrix/src/transport.ts, `applyApprovalCommand`: what a command does to an approval.
-- A decision that a command makes: an option of the request that the command means, or, where a denial
-- finds no option that rejects, the cancellation.
use mathlib.Core.Path.{subst}
use zooid.Approval.{
  ApprovalCorrelator, ApprovalDecision, ApprovalOption, PendingEntry, allow, cancel, get_public,
  resolve_by_id, settle,
}
use zooid.Commands.{
  ApprovalCommand, DecisionResolution, approve, approve_single, decision_for_command, deny,
  head_option, ok, pick, refused, starts_with,
}
use zooid.Commands.Decisions.{Meant, decision_for_command-Meant}
use zooid.Dict.{get}
use zooid.Permits.{
  ApprovalMeta, Site, World, apply_approval_command, approval_outcome_notice, forget_approval,
  post_approval_notice, poster, resolve_approval_command, settle_approval,
}
use zooid.Prelude.{
  Bool, List, Option, Option-cases, String, [], any, ap, arith, false, filter, if◌then◌else◌, inl,
  inr, non_empty, none, refl, some, sym, true, ◌∙◌, ◌∷◌, ◌≡◌, ◌⊎◌,
}

abbrev pub Fitting : ApprovalCommand → List ApprovalOption → ApprovalDecision → Type 0
Fitting command options cancel =
    (command ≡ deny) × (any (λ (o : ApprovalOption). starts_with "reject" o.kind) options ≡ false)
Fitting command options (allow id) =
    (o : ApprovalOption) × (o.option_id ≡ id) × Meant command options o

-- The world with an approval settled: its promise has its answer, and nothing is left of it in the maps.
abbrev pub settled_world : String → PendingEntry → ApprovalDecision → World → World
settled_world id e decision w =
    forget_approval id (record w { approvals = settle e decision w.approvals })

-- The approvals and the maps of two worlds are the same.
abbrev pub SameBooks : World → World → Type 0
SameBooks w w' = (w'.approvals ≡ w.approvals) × (w'.by_event ≡ w.by_event) × (w'.metas ≡ w.metas)

-- A request that a command finds no decision for: an approval, where no option allows and there is not
-- just one option.
abbrev pub Undecidable : ApprovalCommand → List ApprovalOption → Type 0
Undecidable command options =
    (command ≡ approve)
    × (any (λ (o : ApprovalOption). starts_with "allow" o.kind) options ≡ false)
    × ¬ ((o : ApprovalOption) × (options ≡ o ∷ []))

-- What a command does to an approval.
pub data Decided (id : String) (command : ApprovalCommand) (w w' : World) : Type 0 where
  gone_before : get id w.approvals.pending ≡ none → SameBooks w w' → Decided id command w w'
  undecided :
      (e : PendingEntry)
      → get id w.approvals.pending ≡ some e
      → Undecidable command e.request.options
      → SameBooks w w'
      → Decided id command w w'
  settles :
      (e : PendingEntry) (decision : ApprovalDecision)
      → get id w.approvals.pending ≡ some e
      → Fitting command e.request.options decision
      → SameBooks (settled_world id e decision w) w'
      → Decided id command w w'

pub post-SameBooks :
    (site : Site) (room thread_root as_user_id : Option String) (body : String) (w : World)
    → SameBooks w (post_approval_notice site room thread_root as_user_id body w)
unfolding post_approval_notice
post-SameBooks site room thread_root as_user_id body w = elim (Option-cases (non_empty room)) [
  | inl gone ↦ rw (gone, post_approval_notice) (refl, refl, refl)
  | inr (r, there_is) ↦ elim (Option-cases (non_empty (poster site r as_user_id))) [
    | inl nobody_there ↦ rw (there_is, post_approval_notice, nobody_there) (refl, refl, refl)
    | inr (u, posts) ↦ rw (there_is, post_approval_notice, posts) (refl, refl, refl)
  ]
]

-- What the post after a command leaves.
abbrev after_notice :
    {id : String} {command : ApprovalCommand} {w v v' : World}
    → SameBooks v v'
    → Decided id command w v
    → Decided id command w v'
after_notice (a, b, c) (gone_before gone (x, y, z)) = Decided.gone_before gone (a ∙ x, b ∙ y, c ∙ z)
after_notice (a, b, c) (undecided e found bad (x, y, z)) =
    Decided.undecided e found bad (a ∙ x, b ∙ y, c ∙ z)
after_notice (a, b, c) (settles e decision found fits (x, y, z)) =
    Decided.settles e decision found fits (a ∙ x, b ∙ y, c ∙ z)

Resolution-cases :
    (x : DecisionResolution)
    → ((reason : String) × (x ≡ refused reason)) ⊎ ((d : ApprovalDecision) × (x ≡ ok d))
Resolution-cases (refused reason) = inl (reason, refl)
Resolution-cases (ok d) = inr (d, refl)

filter-none :
    (p : ApprovalOption → Bool) (xs : List ApprovalOption)
    → head_option (filter p xs) ≡ none
    → any p xs ≡ false
filter-none p [] h = refl
filter-none p (x ∷ xs) h = ground (arith, filter-none p xs)

pick_nothing :
    (prefix preferred : String) (options : List ApprovalOption)
    → pick prefix preferred options ≡ none
    → any (λ (o : ApprovalOption). starts_with prefix o.kind) options ≡ false
unfolding pick
pick_nothing prefix preferred options h =
    let p : ApprovalOption → Bool = λ o. starts_with prefix o.kind in
    filter-none p options (ground arith)

approve_selects : (options : List ApprovalOption) → approve_single options ≡ ok cancel → ⊥
approve_selects [] h = ground arith
approve_selects (o ∷ []) h = ground arith
approve_selects (o ∷ x ∷ xs) h = ground arith

decision-Fitting :
    (command : ApprovalCommand) (options : List ApprovalOption) (d : ApprovalDecision)
    → decision_for_command command options ≡ ok d
    → Fitting command options d
unfolding decision_for_command
decision-Fitting approve options cancel h =
    elim (Option-cases (pick "allow" "allow_once" options)) [
      | inr (o, found) ↦ absurd (ground arith)
      | inl gone ↦ absurd (approve_selects options (rw (gone, decision_for_command) at h))
    ]
decision-Fitting deny options cancel h = elim (Option-cases (pick "reject" "reject_once" options)) [
  | inr (o, found) ↦ absurd (ground arith)
  | inl gone ↦ (refl, pick_nothing "reject" "reject_once" options gone)
]
decision-Fitting command options (allow id) h = decision_for_command-Meant command options id h

refused_single :
    (options : List ApprovalOption) (reason : String)
    → approve_single options ≡ refused reason
    → ¬ ((o : ApprovalOption) × (options ≡ o ∷ []))
refused_single options reason h (o, just) =
    absurd (let e : ok (allow o.option_id) ≡ refused reason = rw just at h in cc)

decision-Undecidable :
    (command : ApprovalCommand) (options : List ApprovalOption) (reason : String)
    → decision_for_command command options ≡ refused reason
    → Undecidable command options
unfolding decision_for_command
decision-Undecidable approve options reason h =
    elim (Option-cases (pick "allow" "allow_once" options)) [
      | inr (o, found) ↦ absurd (ground arith)
      | inl gone ↦ (
        refl,
        pick_nothing "allow" "allow_once" options gone,
        refused_single options reason (rw (gone, decision_for_command) at h),
      )
    ]
decision-Undecidable deny options reason h =
    elim (Option-cases (pick "reject" "reject_once" options)) [
      | inr (o, found) ↦ absurd (ground arith)
      | inl gone ↦ absurd (ground arith)
    ]

resolve_found :
    (id : String) (d : ApprovalDecision) (c : ApprovalCorrelator) (e : PendingEntry)
    → get id c.pending ≡ some e
    → resolve_by_id id d c ≡ (settle e d c, true)
unfolding resolve_by_id
resolve_found id d c e found = rw (found, resolve_by_id) refl

settle_approval_found :
    (id : String) (d : ApprovalDecision) (w : World) (e : PendingEntry)
    → get id w.approvals.pending ≡ some e
    → settle_approval id d w ≡ (settled_world id e d w, true)
unfolding settle_approval
settle_approval_found id d w e found =
    ap
      (λ (p : ApprovalCorrelator × Bool).
        (if p.1 then forget_approval id (record w { approvals = p.0 }) else w, p.1))
      (resolve_found id d w.approvals e found)

resolve-Decided :
    (id : String) (command : ApprovalCommand) (w : World)
    → Decided id command w (resolve_approval_command id command w).0
unfolding resolve_approval_command get_public
resolve-Decided id command w = elim (Option-cases (get id w.approvals.pending)) [
  | inl gone ↦
      rw (gone, resolve_approval_command, get_public) (Decided.gone_before gone (refl, refl, refl))
  | inr (e, found) ↦ elim (Resolution-cases (decision_for_command command e.request.options)) [
    | inl (reason, bad) ↦
        rw (found, resolve_approval_command, get_public, bad)
          (Decided.undecided e found (decision-Undecidable command e.request.options reason bad)
            (refl, refl, refl))
    | inr (d, good) ↦
        rw (found, resolve_approval_command, get_public, good)
          (subst (λ p. Decided id command w p.0) (sym (settle_approval_found id d w e found))
            (Decided.settles e d found (decision-Fitting command e.request.options d good)
              (refl, refl, refl)))
  ]
]

pub apply-Decided :
    (site : Site) (id : String) (command : ApprovalCommand) (meta : ApprovalMeta) (w : World)
    → Decided id command w (apply_approval_command site id command meta w)
unfolding apply_approval_command
apply-Decided site id command meta w =
    after_notice
      (post-SameBooks site (some meta.room_id) (some meta.thread_root) (some meta.as_user_id)
        (approval_outcome_notice id command (resolve_approval_command id command w).1)
        (resolve_approval_command id command w).0)
      (resolve-Decided id command w)
