-- ===== src/Typing/Wires.antt =====
-- The wire tells the truth after every history.
use zooid.Dict.{count, delete, get, insert, remove}
use zooid.Dict.Count.{count-delete, count-delete-none}
use zooid.Dict.Laws.{delete-Unique, get-delete, get-set_self, includes-insert, includes-remove}
use zooid.Prelude.{
  Bool-cases, List, Option-cases, String, [], arith, eq_iff, eq_refl, false, includes, inl, inr,
  length, ltb, refl, some, sym, true, ◌&&◌, ◌∙◌, ◌∷◌, ◌≡◌,
}
use zooid.Texts.{eqb}
use zooid.Typing.{
  Slot, TypingRegistry, enter, exit, forget, init, is_working, lower, pause, resume, set_typing,
  slot_key, slot_of, tick, unmark_working,
}
use zooid.Typing.Marks.{empty-length, mark_working-Valid, unmark_working-Valid}
use zooid.Typing.Slots.{Valid, away, away-append, busy_at, busy_for, rooms_of, shown, shown-append}
use zooid.Typing.Step.{Call, enters, exits, pauses, resumes, run, step, ticks}

enter-Valid :
    (room user session : String) (c : TypingRegistry) → Valid c → Valid (enter room user session c)
unfolding enter
enter-Valid room user session c v =
    let k = slot_key room user in
    elim (Option-cases (get k c.slots)) [
      | inl gone ↦
          let s : Slot = record {
            room_id = room;
            user_id = user;
            live = insert session [];
            working = [];
            refresh = false;
          } in
          rw (gone, enter, slot_of)
            (mark_working-Valid k s session c v
              (record { keyed = refl; lives = λ x h. absurd (ground arith); armed = refl })
              (λ o found. absurd (ground arith)) (ground arith)
              (ground (arith, includes-insert session session [], eq_refl session)))
      | inr (s, found) ↦
          let fits = v.slot k s found in
          let s' : Slot = record s { live = insert session s.live } in
          rw (found, enter, slot_of)
            (mark_working-Valid k s' session c v
              (record {
                keyed = fits.keyed;
                lives = λ x h. ground (arith, includes-insert x session s.live, fits.lives x h);
                armed = fits.armed;
              })
              (λ o there. ground arith) (ground arith)
              (ground (arith, includes-insert session session s.live, eq_refl session)))
    ]

-- A slot that rests goes without a trace.
delete-Valid :
    (k : String) (c : TypingRegistry)
    → Valid c
    → busy_at k c ≡ false
    → Valid (record c { slots = delete k c.slots })
delete-Valid k c v rests =
    let c' : TypingRegistry = record c { slots = delete k c.slots } in
    let rooms' : (user : String) → rooms_of user c' ≡ rooms_of user c = λ user.
      elim (Option-cases (get k c.slots)) [
        | inl gone ↦ count-delete-none (busy_for user) k c.slots gone
        | inr (s, found) ↦ ground (arith, count-delete (busy_for user) k s c.slots v.unique found)
      ] in
    record {
      unique = delete-Unique k c.slots v.unique;
      slot = λ j s h. v.slot j s (ground (arith, get-delete j k c.slots));
      rooms = λ user. v.rooms user ∙ sym (rooms' user);
      shows = λ j. ground (arith, v.shows j, get-delete j k c.slots, eq_iff k j);
      absent = λ user. ground (arith, v.absent user, rooms' user);
    }

-- The slot that is left has the live turns of the one that was given.
unmark_working-live :
    (k : String) (s x : Slot) (session : String) (c : TypingRegistry)
    → get k (unmark_working k s session c).slots ≡ some x
    → x.live ≡ s.live
unfolding unmark_working lower
unmark_working-live k s x session c h =
    let s' : Slot = record s { working = remove session s.working } in
    ground (
      arith,
      get-set_self k s c.slots,
      get-set_self k s' c.slots,
      get-set_self k (record s' { refresh = false }) c.slots,
    )

no_turns-rests :
    (live working : List String)
    → ((x : String) → includes x working ≡ true → includes x live ≡ true)
    → live ≡ []
    → ltb 0 (length working) ≡ false
no_turns-rests live [] lives h = refl
no_turns-rests live (j ∷ js) lives h = absurd (ground (arith, lives j (ground (arith, eq_refl j))))

-- A slot without live turns rests.
empty_slot-rests :
    (k : String) (c : TypingRegistry)
    → Valid c
    → ((x : Slot) → get k c.slots ≡ some x → x.live ≡ [])
    → busy_at k c ≡ false
empty_slot-rests k c v none_live = elim (Option-cases (get k c.slots)) [
  | inl gone ↦ ground arith
  | inr (x, found) ↦
      ground (arith, no_turns-rests x.live x.working (v.slot k x found).lives (none_live x found))
]

forget-Valid :
    (k : String) (s : Slot) (c : TypingRegistry)
    → Valid c
    → (s.live ≡ [] → busy_at k c ≡ false)
    → Valid (forget k s c)
forget-Valid k s c v rests = elim (Bool-cases (eqb (length s.live) 0)) [
  | inl none_live ↦
      rw (none_live, forget) (delete-Valid k c v (rests (empty-length s.live none_live)))
  | inr more ↦ rw (more, forget) v
]

exit-Valid :
    (room user session : String) (c : TypingRegistry) → Valid c → Valid (exit room user session c)
unfolding exit
exit-Valid room user session c v =
    let k = slot_key room user in
    elim (Option-cases (get k c.slots)) [
      | inl gone ↦ rw (gone, exit) v
      | inr (s, found) ↦ elim (Bool-cases (includes session s.live)) [
        | inr stale ↦ rw (found, exit, stale) v
        | inl there ↦
            let fits = v.slot k s found in
            let s' : Slot = record s { live = remove session s.live } in
            let c' = unmark_working k s' session c in
            let v' : Valid c' =
              unmark_working-Valid k s' session c v fits.keyed
                (λ x h other. ground (arith, includes-remove x session s.live, fits.lives x h))
                fits.armed (λ o h. ground arith) (ground arith) in
            rw (found, exit, there)
              (forget-Valid k s' c' v' (λ none_live.
                empty_slot-rests k c' v'
                  (λ x h. unmark_working-live k s' x session c h ∙ none_live)))
      ]
    ]

pause-Valid :
    (room user session : String) (c : TypingRegistry) → Valid c → Valid (pause room user session c)
unfolding pause
pause-Valid room user session c v =
    let k = slot_key room user in
    elim (Option-cases (get k c.slots)) [
      | inl gone ↦ rw (gone, pause) v
      | inr (s, found) ↦
          let fits = v.slot k s found in
          rw (found, pause)
            (unmark_working-Valid k s session c v fits.keyed (λ x h other. fits.lives x h)
              fits.armed (λ o h. ground arith) (ground arith))
    ]

resume-Valid :
    (room user session : String) (c : TypingRegistry) → Valid c → Valid (resume room user session c)
unfolding resume
resume-Valid room user session c v =
    let k = slot_key room user in
    elim (Option-cases (get k c.slots)) [
      | inl gone ↦ rw (gone, resume) v
      | inr (s, found) ↦ elim (Bool-cases (includes session s.live)) [
        | inr over ↦ rw (found, resume, over) v
        | inl there ↦
            rw (found, resume, there)
              (mark_working-Valid k s session c v (v.slot k s found) (λ o h. ground arith)
                (ground arith) there)
      ]
    ]

tick-Valid : (k : String) (c : TypingRegistry) → Valid c → Valid (tick k c)
unfolding tick
tick-Valid k c v = elim (Option-cases (get k c.slots)) [
  | inl gone ↦ rw (gone, tick) v
  | inr (s, found) ↦ elim (Bool-cases (s.refresh && is_working s)) [
    | inr rests ↦ rw (found, tick, rests) v
    | inl works ↦
        let fits = v.slot k s found in
        rw (found, tick, works)
          (record {
            unique = v.unique;
            slot = v.slot;
            rooms = v.rooms;
            shows = λ j. ground (
              arith,
              v.shows j,
              fits.keyed,
              eq_iff k j,
              shown-append j false c.wire (set_typing s.room_id s.user_id true),
            );
            absent = λ user. ground (
              arith,
              v.absent user,
              away-append user false c.wire (set_typing s.room_id s.user_id true),
            );
          })
  ]
]

step-Valid : (x : Call) (c : TypingRegistry) → Valid c → Valid (step x c)
unfolding step
step-Valid (enters room user session) c v = enter-Valid room user session c v
step-Valid (exits room user session) c v = exit-Valid room user session c v
step-Valid (pauses room user session) c v = pause-Valid room user session c v
step-Valid (resumes room user session) c v = resume-Valid room user session c v
step-Valid (ticks k) c v = tick-Valid k c v

run_from-Valid : (xs : List Call) (c : TypingRegistry) → Valid c → Valid (run xs c)
unfolding run
run_from-Valid [] c v = v
run_from-Valid (x ∷ xs) c v = run_from-Valid xs (step x c) (step-Valid x c v)

-- In every history of turns and of ticks, a slot's working turns are live, its interval runs exactly
-- while it has one, the calls on the wire leave a room's indicator up for an agent exactly if
-- `isTyping` answers true, and leave an agent unavailable exactly if it works in some room.
pub run-Valid : (xs : List Call) → Valid (run xs init)
unfolding init get count shown away
run-Valid xs = run_from-Valid xs init (record {
  unique = tt;
  slot = λ k s h. absurd (ground arith);
  rooms = λ user. refl;
  shows = λ k. refl;
  absent = λ user. refl;
})
