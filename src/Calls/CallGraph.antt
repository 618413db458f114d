-- ===== src/Calls/CallGraph.antt =====
-- The call graph of a thread stays a forest, so that returns end.
use mathlib.Core.Path.{subst}
use zooid.Calls.{record_call, with_call}
use zooid.Calls.Walk.{
  Acyclic, Up, Up-trans, here, next, would_cycle_callers_iff, would_cycle_callers_total,
}
use zooid.Dict.{Dict, get, set}
use zooid.Dict.Laws.{get-set}
use zooid.Events.{HandoffContent, ThreadState}
use zooid.Prelude.{
  Bool-cases, Option, String, String-cases, ap, arith, eq_iff, inl, inr, refl, some, sym, ◌∙◌, ◌≡◌,
  ◌⊎◌,
}

-- A path in the graph with the edge from `callee` to `caller` written.
Up-set :
    (m : Dict String) (callee caller : String) {a b : String}
    → Up (set callee caller m) a b
    → Up m a b ⊎ (Up m a callee × Up m caller b)
Up-set m callee caller (here e) = inl (here e)
Up-set m callee caller {a} {b} (next {p = p} e u) = elim (String-cases callee a) [
  | inl new ↦ elim (Up-set m callee caller u) [
    | inl v ↦ inr (
      here (sym new),
      subst (λ x. Up m x b) (ground (arith, get-set a callee caller m, eq_iff callee a)) v,
    )
    | inr (v, w) ↦ inr (here (sym new), w)
  ]
  | inr old ↦
      let e' : get a m ≡ some p = ground (arith, get-set a callee caller m) in
      elim (Up-set m callee caller u) [ inl v ↦ inl (next e' v) | inr (v, w) ↦ inr (next e' v, w) ]
]

pub set-Acyclic :
    (m : Dict String) (callee caller : String)
    → ¬ Up m caller callee
    → Acyclic m
    → Acyclic (set callee caller m)
set-Acyclic m callee caller apart acyclic a p e u = elim (String-cases callee a) [
  | inl new ↦
      let e' : p ≡ caller = ground (arith, get-set a callee caller m, eq_iff callee a) in
      elim (Up-set m callee caller u) [
        | inl v ↦ apart (rw (← e', new) v)
        | inr (v, w) ↦ apart (rw new w)
      ]
  | inr old ↦
      let e' : get a m ≡ some p = ground (arith, get-set a callee caller m) in
      elim (Up-set m callee caller u) [
        | inl v ↦ acyclic a p e' v
        | inr (v, w) ↦ apart (Up-trans w (next e' v))
      ]
]

-- What recording a call leaves: the state as it was if the edge would close a cycle, or else the state
-- with the edge.
abbrev pub Recorded : HandoffContent → Option String → ThreadState → ThreadState → Type 0
Recorded h event_id st st' =
    (Up st.callers h.caller h.callee × (st' ≡ st))
    ⊎ ((¬ Up st.callers h.caller h.callee) × (st' ≡ with_call h event_id st))

record_call-Recorded :
    (h : HandoffContent) (event_id : Option String) (st : ThreadState)
    → Acyclic st.callers
    → (st' : ThreadState) × (record_call h event_id st ≡ some st') × Recorded h event_id st st'
unfolding record_call
record_call-Recorded h event_id st acyclic = elim (String-cases h.callee h.caller) [
  | inl own ↦ (st, ground (arith, eq_iff h.callee h.caller), inl (here (sym own), refl))
  | inr other ↦
      let (yes_if, if_yes) = would_cycle_callers_iff st.callers h.callee h.caller acyclic in
      let (b, e) = would_cycle_callers_total st.callers h.callee h.caller in
      elim (Bool-cases b) [
        | inl closes ↦ (st, ground arith, inl (yes_if (e ∙ ap some closes), refl))
        | inr apart ↦
            (with_call h event_id st, ground arith, inr (λ u. ground (arith, if_yes u), refl))
      ]
]

-- Recording a call always ends. It changes nothing if the callee is the caller or stands above it in
-- the call graph, else it writes the edge and the arc; either way the graph stays acyclic.
pub record_call-Acyclic :
    (h : HandoffContent) (event_id : Option String) (st : ThreadState)
    → Acyclic st.callers
    → (st' : ThreadState) × (record_call h event_id st ≡ some st')
      × Recorded h event_id st st'
      × Acyclic st'.callers
record_call-Acyclic h event_id st acyclic =
    let (st', e, r) = record_call-Recorded h event_id st acyclic in
    let kept : Acyclic st'.callers = elim r [
      | inl (u, same) ↦ rw same acyclic
      | inr (apart, new) ↦ rw new (set-Acyclic st.callers h.callee h.caller apart acyclic)
    ] in
    (st', e, r, kept)
