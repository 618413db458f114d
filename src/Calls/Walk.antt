-- ===== src/Calls/Walk.antt =====
-- The walk of `wouldCycleCallers` ends, and what its answer means.
use mathlib.Core.Path.{subst}
use zooid.Calls.{walk, would_cycle_callers}
use zooid.Dict.{Dict, get, insert}
use zooid.Dict.Laws.{includes-insert}
use zooid.Dict.Remaining.{remaining, remaining-insert-lt, remaining-le}
use zooid.Prelude.{
  Bool, Bool-cases, List, Option-cases, String, String-cases, [], ap, arith, eq_iff, false,
  includes, inl, inr, length, none, refl, some, suc, sym, true, zero, ℕ, ◌<◌, ◌==◌, ◌||◌, ◌↔◌, ◌∙◌,
  ◌≡◌,
}

-- A caller's caller, and so on up.
pub data Up (m : Dict String) : String → String → Type 0 where
  here : {a b : String} → a ≡ b → Up m a b
  next : {a p b : String} → get a m ≡ some p → Up m p b → Up m a b

walk-none :
    (fuel : ℕ) (m : Dict String) (callee : String) (seen : List String)
    → walk fuel m callee seen none ≡ some false
unfolding walk
walk-none zero m callee seen = refl
walk-none (suc fuel) m callee seen = refl

walk_total :
    (fuel : ℕ) (m : Dict String) (callee : String) (seen : List String) (cursor : String)
    → remaining seen m < fuel
    → (b : Bool) × (walk fuel m callee seen (some cursor) ≡ some b)
unfolding walk
walk_total zero m callee seen cursor h = absurd (omega arith)
walk_total (suc fuel) m callee seen cursor h =
    elim (Bool-cases (cursor == callee || includes cursor seen)) [
      | inl hit ↦ (true, rw hit)
      | inr miss ↦ elim (Option-cases (get cursor m)) [
        | inl top ↦ (false, rw (miss, top) (walk-none fuel m callee (insert cursor seen)))
        | inr (p, e) ↦
            rw (miss, e)
              (walk_total fuel m callee (insert cursor seen) p
                (omega (arith, remaining-insert-lt cursor p seen m e (ground arith))))
      ]
    ]

-- The fuel of `would_cycle_callers` is enough: it always answers.
pub would_cycle_callers_total :
    (m : Dict String) (callee caller : String)
    → (b : Bool) × (would_cycle_callers m callee caller ≡ some b)
unfolding would_cycle_callers
would_cycle_callers_total m callee caller =
    walk_total (suc (length m)) m callee [] caller (omega (arith, remaining-le [] m))

-- A walk that answers no has met no path to the callee.
walk_sound :
    (fuel : ℕ) (m : Dict String) (callee : String) (seen : List String) (cursor : String)
    → walk fuel m callee seen (some cursor) ≡ some false
    → ¬ Up m cursor callee
unfolding walk
walk_sound zero m callee seen cursor h u = cc
walk_sound (suc fuel) m callee seen cursor h (here e) = ground (arith, eq_iff cursor callee)
walk_sound (suc fuel) m callee seen cursor h (next {p = p} e u) =
    walk_sound fuel m callee (insert cursor seen) p (ground arith) u

pub Up-trans : {m : Dict String} {a b c : String} → Up m a b → Up m b c → Up m a c
Up-trans {m} {c = c} (here e) v = subst (λ x. Up m x c) (sym e) v
Up-trans (next e u) v = next e (Up-trans u v)

-- No agent is its own caller's caller, at any distance.
abbrev pub Acyclic : Dict String → Type 0
Acyclic m = (a p : String) → get a m ≡ some p → ¬ Up m p a

-- A walk up an acyclic graph that answers yes has met the callee: `seen` holds agents below the
-- cursor.
walk_complete :
    (fuel : ℕ) (m : Dict String) (callee : String) (seen : List String) (cursor : String)
    → Acyclic m
    → ((s : String) → includes s seen ≡ true → (p : String) × (get s m ≡ some p) × Up m p cursor)
    → walk fuel m callee seen (some cursor) ≡ some true
    → Up m cursor callee
unfolding walk
walk_complete zero m callee seen cursor acyclic below h = cc
walk_complete (suc fuel) m callee seen cursor acyclic below h = elim (String-cases cursor callee) [
  | inl same ↦ here same
  | inr other ↦ elim (Bool-cases (includes cursor seen)) [
    | inl again ↦ let (p, e, u) = below cursor again in absurd (acyclic cursor p e u)
    | inr new ↦ elim (Option-cases (get cursor m)) [
      | inl top ↦ absurd (ground (arith, walk-none fuel m callee (insert cursor seen)))
      | inr (p, e) ↦ next e (
          walk_complete fuel m callee (insert cursor seen) p acyclic
            (λ s hs. elim (String-cases cursor s) [
              | inl same ↦ (p, rw (← same) e, here refl)
              | inr differs ↦
                  let (q, g, u) = below s (ground (arith, includes-insert s cursor seen)) in
                  (q, g, Up-trans u (next e (here refl)))
            ])
            (ground arith))
    ]
  ]
]

-- In an acyclic call graph `wouldCycleCallers` answers yes exactly when the callee is the caller or
-- stands above it: an edge from the callee to the caller would close a cycle.
pub would_cycle_callers_iff :
    (m : Dict String) (callee caller : String)
    → Acyclic m
    → (would_cycle_callers m callee caller ≡ some true) ↔ Up m caller callee
unfolding would_cycle_callers
would_cycle_callers_iff m callee caller acyclic = (
  walk_complete (suc (length m)) m callee [] caller acyclic (λ s h. absurd (ground arith)),
  λ u.
      let (b, h) = would_cycle_callers_total m callee caller in
      elim (Bool-cases b) [
        | inl closes ↦ h ∙ ap some closes
        | inr apart ↦ absurd (walk_sound (suc (length m)) m callee [] caller (h ∙ ap some apart) u)
      ],
)
