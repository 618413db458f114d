-- ===== src/Sessions/Taps.antt =====
-- What the events of a session tell of its turns.
use Prim.Native.Char.{code}
use mathlib.Core.List.{append-nil, append_assoc}
use mathlib.Core.Path.{subst}
use zooid.Dict.{Dict, delete, get, set}
use zooid.Dict.Laws.{get-delete, get-set}
use zooid.Prelude.{
  Bool-cases, List, Option, Option-cases, String, [], ap, if◌then◌else◌, inl, inr, none, refl, some,
  sym, ◌++◌, ◌==◌, ◌∙◌, ◌∷◌, ◌≡◌,
}
use zooid.Sessions.{
  TapEvent, TurnTracker, end_turn, error, init, observe_update, session_update, start_turn, tap,
  turn_completed, turn_started,
}

-- The turn of a session that its events leave running.
abbrev pub next_turn : String → Option String → TapEvent → Option String
next_turn s o (turn_started agent session turn prompt) = if session == s then some turn else o
next_turn s o (session_update agent session turn update) = o
next_turn s o (turn_completed agent session turn stop) = if session == s then none else o
next_turn s o (error agent code message) = o

unfoldable pub turn_after : String → Option String → List TapEvent → Option String
turn_after s o [] = o
turn_after s o (e ∷ es) = turn_after s (next_turn s o e) es

-- Updates and ends name the turn that the events before them leave running.
abbrev pub Follows : Option String → TapEvent → Type 0
Follows o (turn_started agent session turn prompt) = Unit
Follows o (session_update agent session turn update) = turn ≡ o
Follows o (turn_completed agent session turn stop) = o ≡ some turn
Follows o (error agent code message) = Unit

abbrev pub session_of : TapEvent → String
session_of (turn_started agent session turn prompt) = session
session_of (session_update agent session turn update) = session
session_of (turn_completed agent session turn stop) = session
session_of (error agent code message) = ""

-- Every event fits the events before it, the earliest of which come with `before`.
abbrev pub Ordered : List TapEvent → List TapEvent → Type 0
Ordered before [] = Unit
Ordered before (e ∷ es) =
    Follows (turn_after (session_of e) none before) e × Ordered (before ++ e ∷ []) es

pub data Call : Type 0 where
  starts : (turn session prompt : String) → Call
  observes : (session update : String) → Call
  ends : (session stop : String) → Call

unfoldable pub step : Call → TurnTracker → TurnTracker
step (starts turn session prompt) c = start_turn turn session prompt c
step (observes session update) c = observe_update session update c
step (ends session stop) c = end_turn session stop c

unfoldable pub run : List Call → TurnTracker → TurnTracker
unfolding step
run [] c = c
run (x ∷ xs) c = run xs (step x c)

turn_after-append :
    (s : String) (o : Option String) (es : List TapEvent) (e : TapEvent)
    → turn_after s o (es ++ e ∷ []) ≡ next_turn s (turn_after s o es) e
unfolding turn_after
turn_after-append s o [] e = refl
turn_after-append s o (x ∷ es) e = turn_after-append s (next_turn s o x) es e

Ordered-append :
    (before es : List TapEvent) (e : TapEvent)
    → Ordered before es
    → Follows (turn_after (session_of e) none (before ++ es)) e
    → Ordered before (es ++ e ∷ [])
Ordered-append before [] e h f =
    (subst (λ l. Follows (turn_after (session_of e) none l) e) (append-nil before) f, tt)
Ordered-append before (x ∷ es) e h f = (
  h.0,
  Ordered-append (before ++ x ∷ []) es e h.1 (
      subst (λ l. Follows (turn_after (session_of e) none l) e)
        (sym (append_assoc before (x ∷ []) es)) f),
)

-- The running turns are the ones that the events tell of.
pub record Told (c : TurnTracker) : Type 0 where
  pub ordered : Ordered [] c.taps
  pub running : (s : String) → turn_after s none c.taps ≡ get s c.active

tap-Told :
    (e : TapEvent) (m : Dict String) (c : TurnTracker)
    → Told c
    → Follows (get (session_of e) c.active) e
    → ((s : String) → next_turn s (get s c.active) e ≡ get s m)
    → Told (tap e (record c { active = m }))
tap-Told e m c v f same = record {
  ordered =
      Ordered-append [] c.taps e v.ordered
        (subst (λ o. Follows o e) (sym (v.running (session_of e))) f);
  running =
      λ s. turn_after-append s none c.taps e ∙ ap (λ o. next_turn s o e) (v.running s) ∙ same s;
}

step-Told : (x : Call) (c : TurnTracker) → Told c → Told (step x c)
unfolding step start_turn observe_update end_turn
step-Told (starts turn session prompt) c v =
    tap-Told (turn_started c.agent_id session turn prompt) (set session turn c.active) c v tt
      (λ s. sym (get-set s session turn c.active))
step-Told (observes session update) c v =
    tap-Told (session_update c.agent_id session (get session c.active) update) c.active c v refl
      (λ s. refl)
step-Told (ends session stop) c v = elim (Option-cases (get session c.active)) [
  | inl gone ↦ rw (gone, step, end_turn) v
  | inr (turn, found) ↦ elim (Bool-cases (turn == "")) [
    | inl unnamed ↦ rw (found, step, end_turn, unnamed) v
    | inr named ↦
        rw (found, step, end_turn, named)
          (tap-Told (turn_completed c.agent_id session turn stop) (delete session c.active) c v
            found (λ s. sym (get-delete s session c.active)))
  ]
]

run_from-Told : (xs : List Call) (c : TurnTracker) → Told c → Told (run xs c)
unfolding run
run_from-Told [] c v = v
run_from-Told (x ∷ xs) c v = run_from-Told xs (step x c) (step-Told x c v)

-- In every history, each event fits the ones before it: an update names the turn that its session has
-- running at that point, if any, and a turn is completed only while it is the running one, so that it is
-- completed once and after its start. The tracker's turns are the ones that the events leave running.
pub run-Told : (xs : List Call) (agent : String) → Told (run xs (init agent))
unfolding init get turn_after
run-Told xs agent = run_from-Told xs (init agent) (record { ordered = tt; running = λ s. refl })
