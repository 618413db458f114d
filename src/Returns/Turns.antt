-- ===== src/Returns/Turns.antt =====
-- What the end of a turn does to a pending return.
use zooid.Dict.{get}
use zooid.Dict.Laws.{get-set_self}
use zooid.Events.{AgentBinding}
use zooid.Prelude.{
  Bool, List, Option, String, [], ap, arith, eq_iff, false, none, not, refl, some, true, ◌&&◌, ◌++◌,
  ◌∙◌, ◌∷◌, ◌≡◌, ◌≢◌,
}
use zooid.Returns.{
  PendingReturn, PendingReturns, ReleasedReturn, arm, armed, held, hold, key, mark_delegated, put,
  release, released_of, turn_ended,
}
use zooid.Texts.{trim}

get-put_self :
    (k : String) (p : PendingReturn) (c : PendingReturns) → get k (put k p c).pending ≡ some p
get-put_self k p c = get-set_self k p c.pending

-- The end of a turn that neither delegated nor waits releases the return.
turn_ended_releases :
    (a r : String) (p : PendingReturn) (c : PendingReturns)
    → get (key a r) c.pending ≡ some p
    → (p.delegated && not p.interrupted) ≡ false
    → (turn_ended a r c).released ≡ c.released ++ released_of p ∷ []
unfolding turn_ended release
turn_ended_releases a r p c h done = ground arith

get-mark_delegated :
    (a r : String) (p : PendingReturn) (c : PendingReturns)
    → get (key a r) c.pending ≡ some p
    → (get (key a r) (mark_delegated a r c).pending ≡ some (record p { delegated = true }))
      × ((mark_delegated a r c).released ≡ c.released)
unfolding mark_delegated
get-mark_delegated a r p c h =
    (ground (arith, get-put_self (key a r) (record p { delegated = true }) c), ground arith)

-- The entry between the callee's turns, while it waits for its own callee.
abbrev waits : PendingReturn → PendingReturn
waits p = record p { delegated = false; waiting = true; text = ""; timer = none }

turn_ended-waits :
    (a r : String) (p : PendingReturn) (c : PendingReturns)
    → get (key a r) c.pending ≡ some p
    → (p.delegated && not p.interrupted) ≡ true
    → (get (key a r) (turn_ended a r c).pending ≡ some (waits p))
      × ((turn_ended a r c).released ≡ c.released)
unfolding turn_ended
turn_ended-waits a r p c h on = (ground (arith, get-put_self (key a r) (waits p) c), ground arith)

get-hold :
    (a r room : String) (ts : List AgentBinding) (b : Option String) (remote : Bool)
    (c : PendingReturns)
    → let k = key a r in
      let p = held a r room ts b remote (get k c.pending) in
      (get k (hold a r room ts b remote c).pending ≡ some (armed (put k p c) k p))
      × ((hold a r room ts b remote c).released ≡ c.released)
unfolding hold arm
get-hold a r room ts b remote c =
    let k = key a r in
    let p = held a r room ts b remote (get k c.pending) in
    let q = armed (put k p c) k p in
    (
      ground (arith, get-put_self k p c, get-put_self k q (put k p c)),
      ground (arith, get-put_self k p c),
    )

-- A callee whose turn delegates releases nothing at its end. When it has posted again and a later turn
-- of it ends, its return is released, with the last prose as the text and for the caller's session
-- that was recorded at the call.
delegated_return :
    (a r room b : String) (ts : List AgentBinding) (remote : Bool) (p : PendingReturn)
    (c : PendingReturns)
    → get (key a r) c.pending ≡ some p
    → p.interrupted ≡ false
    → trim b ≢ ""
    → let c' = turn_ended a r (mark_delegated a r c) in
      (c'.released ≡ c.released)
      × ((x : ReleasedReturn) × ((turn_ended a r (hold a r room ts (some b) remote c')).released
            ≡ c.released ++ x ∷ [])
          × (x.text ≡ trim b)
          × (x.caller_session_key ≡ p.caller_session_key))
delegated_return a r room b ts remote p c h free text =
    let c' = turn_ended a r (mark_delegated a r c) in
    let (mark, mark_released) = get-mark_delegated a r p c h in
    let (rest, rest_released) =
      turn_ended-waits a r (record p { delegated = true }) (mark_delegated a r c) mark
        (ground arith) in
    let q = held a r room ts (some b) remote (some (waits p)) in
    let (at, hold_released) = get-hold a r room ts (some b) remote c' in
    let x = armed (put (key a r) q c') (key a r) q in
    let at' : get (key a r) (hold a r room ts (some b) remote c').pending ≡ some x = ground arith in
    (
      rest_released ∙ mark_released,
      (
        released_of x,
        turn_ended_releases a r x (hold a r room ts (some b) remote c') at' (ground arith)
            ∙ ap (λ l. l ++ released_of x ∷ []) (hold_released ∙ rest_released ∙ mark_released),
        ground (arith, eq_iff (trim b) ""),
        refl,
      ),
    )
