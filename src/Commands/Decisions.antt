-- ===== src/Commands/Decisions.antt =====
-- A command never selects what it does not mean.
use zooid.Approval.{ApprovalOption, allow}
use zooid.Commands.{
  ApprovalCommand, approve, approve_single, decision_for_command, deny, head_option, ok, pick,
  starts_with,
}
use zooid.Prelude.{
  Bool, Bool-cases, List, Option-cases, String, [], any, arith, eq_iff, false, filter, find, inl,
  inr, none, refl, some, sym, true, ◌&&◌, ◌==◌, ◌∙◌, ◌∷◌, ◌≡◌, ◌⊎◌,
}

abbrev pub Among : ApprovalOption → List ApprovalOption → Type 0
Among o [] = ⊥
Among o (x ∷ xs) = (x ≡ o) ⊎ Among o xs

filter-Among :
    (p : ApprovalOption → Bool) (o : ApprovalOption) (xs : List ApprovalOption)
    → Among o (filter p xs)
    → Among o xs × (p o ≡ true)
filter-Among p o [] h = absurd h
filter-Among p o (x ∷ xs) h = elim (Bool-cases (p x)) [
  | inr miss ↦ let (a, b) = filter-Among p o xs (rw miss at h) in (inr a, b)
  | inl hit ↦
      let h' : Among o (x ∷ filter p xs) = rw hit at h in
      elim h' [
        | inl e ↦ (inl e, rw (← e) hit)
        | inr rest ↦ let (a, b) = filter-Among p o xs rest in (inr a, b)
      ]
]

find-Among :
    (p : ApprovalOption → Bool) (o : ApprovalOption) (xs : List ApprovalOption)
    → find p xs ≡ some o
    → Among o xs × (p o ≡ true)
find-Among p o [] h = absurd (ground arith)
find-Among p o (x ∷ xs) h = elim (Bool-cases (p x)) [
  | inl hit ↦ let e : x ≡ o = ground arith in (inl e, rw (← e) hit)
  | inr miss ↦ let (a, b) = find-Among p o xs (ground arith) in (inr a, b)
]

find-none-any :
    (p : ApprovalOption → Bool) (xs : List ApprovalOption) → find p xs ≡ none → any p xs ≡ false
find-none-any p [] h = refl
find-none-any p (x ∷ xs) h = ground (arith, find-none-any p xs)

head_option-Among :
    (o : ApprovalOption) (xs : List ApprovalOption) → head_option xs ≡ some o → Among o xs
head_option-Among o [] h = absurd (ground arith)
head_option-Among o (x ∷ xs) h = inl (ground arith)

-- An option of the kinds of a prefix, of the preferred kind if such an option is there.
abbrev pub Picked : String → String → List ApprovalOption → ApprovalOption → Type 0
Picked prefix preferred options o =
    Among o options
    × (starts_with prefix o.kind ≡ true)
    × ((o.kind ≡ preferred)
        ⊎ (any (λ (x : ApprovalOption). starts_with prefix x.kind && x.kind == preferred) options
            ≡ false))

any-filter :
    (p q : ApprovalOption → Bool) (xs : List ApprovalOption)
    → any q (filter p xs) ≡ any (λ x. p x && q x) xs
any-filter p q [] = refl
any-filter p q (x ∷ xs) = ground (arith, any-filter p q xs)

pick-Picked :
    (prefix preferred : String) (options : List ApprovalOption) (o : ApprovalOption)
    → pick prefix preferred options ≡ some o
    → Picked prefix preferred options o
unfolding pick
pick-Picked prefix preferred options o h =
    let p : ApprovalOption → Bool = λ x. starts_with prefix x.kind in
    let q : ApprovalOption → Bool = λ x. x.kind == preferred in
    elim (Option-cases (find q (filter p options))) [
      | inr (x, found) ↦
          let e : x ≡ o = ground arith in
          let (in_found, kind) = find-Among q x (filter p options) found in
          let (among, prefixed) = filter-Among p x options in_found in
          rw (← e) (among, prefixed, inl (ground (arith, eq_iff x.kind preferred)))
      | inl missing ↦
          let at : head_option (filter p options) ≡ some o = ground arith in
          let (among, prefixed) =
            filter-Among p o options (head_option-Among o (filter p options) at) in
          (
            among,
            prefixed,
            inr (sym (any-filter p q options) ∙ find-none-any q (filter p options) missing),
          )
    ]

-- An option that a command selects.
abbrev pub Meant : ApprovalCommand → List ApprovalOption → ApprovalOption → Type 0
Meant approve options o = Picked "allow" "allow_once" options o ⊎ (options ≡ o ∷ [])
Meant deny options o = Picked "reject" "reject_once" options o

approve_single-Meant :
    (options : List ApprovalOption) (id : String)
    → approve_single options ≡ ok (allow id)
    → (o : ApprovalOption) × (o.option_id ≡ id) × Meant approve options o
approve_single-Meant [] id h = absurd (ground arith)
approve_single-Meant (o ∷ []) id h = (o, ground arith, inr refl)
approve_single-Meant (o ∷ x ∷ xs) id h = absurd (ground arith)

-- An approval that a command selects is an option of the request: for `approve` one that allows, for
-- `deny` one that rejects, and the one for this once if there is such an option; only a request with a
-- single option is approved by that option, whatever its kind.
pub decision_for_command-Meant :
    (command : ApprovalCommand) (options : List ApprovalOption) (id : String)
    → decision_for_command command options ≡ ok (allow id)
    → (o : ApprovalOption) × (o.option_id ≡ id) × Meant command options o
unfolding decision_for_command
decision_for_command-Meant approve options id h =
    elim (Option-cases (pick "allow" "allow_once" options)) [
      | inr (o, found) ↦ (o, ground arith, inl (pick-Picked "allow" "allow_once" options o found))
      | inl none_so ↦ approve_single-Meant options id (rw (none_so, decision_for_command) at h)
    ]
decision_for_command-Meant deny options id h =
    elim (Option-cases (pick "reject" "reject_once" options)) [
      | inr (o, found) ↦ (o, ground arith, pick-Picked "reject" "reject_once" options o found)
      | inl none_so ↦ absurd (ground arith)
    ]
