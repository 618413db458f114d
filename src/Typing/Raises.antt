-- ===== src/Typing/Raises.antt =====
-- The indicator goes up with the first working turn and down with the last.
use zooid.Dict.{get}
use zooid.Dict.Laws.{get-delete, get-set, set-Unique}
use zooid.Prelude.{
  Bool-cases, String, [], arith, default, eq_iff, false, inl, inr, ltb, true, ◌++◌, ◌+◌, ◌-◌, ◌∷◌,
  ◌≡◌,
}
use zooid.Texts.{eqb}
use zooid.Typing.{Slot, TypingRegistry, is_working, lower, raise, set_presence, set_typing}
use zooid.Typing.Slots.{
  Fits, Joins, Valid, away-append, busy_at, busy_at-put, put-Fits, rooms_of-put, shown-append,
}

pub raise-Valid :
    (k : String) (s : Slot) (c : TypingRegistry)
    → Valid c
    → Fits k (record s { refresh = true })
    → Joins k s c
    → busy_at k c ≡ false
    → is_working s ≡ true
    → Valid (raise k s c)
unfolding raise
raise-Valid k s c v fits joins idle works =
    let s' : Slot = record s { refresh = true } in
    let n = default (get s.user_id c.working_rooms) 0 + 1 in
    elim (Bool-cases (eqb n 1)) [
      | inl first ↦
          rw (first, raise)
            (record {
              unique = set-Unique k s' c.slots v.unique;
              slot = put-Fits k s' c v fits;
              rooms = λ user. ground (
                arith,
                rooms_of-put user k s' c joins,
                v.rooms user,
                eq_iff s.user_id user,
                get-set user s.user_id n c.working_rooms,
              );
              shows = λ j. ground (
                arith,
                busy_at-put j k s' c,
                v.shows j,
                eq_iff k j,
                fits.keyed,
                shown-append j false c.wire (set_typing s.room_id s.user_id true),
                shown-append j false (c.wire ++ set_typing s.room_id s.user_id true ∷ [])
                    (set_presence s.user_id false),
              );
              absent = λ user. ground (
                arith,
                rooms_of-put user k s' c joins,
                v.absent user,
                eq_iff s.user_id user,
                away-append user false c.wire (set_typing s.room_id s.user_id true),
                away-append user false (c.wire ++ set_typing s.room_id s.user_id true ∷ [])
                    (set_presence s.user_id false),
              );
            })
      | inr later ↦
          rw (later, raise)
            (record {
              unique = set-Unique k s' c.slots v.unique;
              slot = put-Fits k s' c v fits;
              rooms = λ user. ground (
                arith,
                rooms_of-put user k s' c joins,
                v.rooms user,
                eq_iff s.user_id user,
                get-set user s.user_id n c.working_rooms,
              );
              shows = λ j. ground (
                arith,
                busy_at-put j k s' c,
                v.shows j,
                eq_iff k j,
                fits.keyed,
                shown-append j false c.wire (set_typing s.room_id s.user_id true),
              );
              absent = λ user. ground (
                arith,
                rooms_of-put user k s' c joins,
                v.absent user,
                v.rooms user,
                eq_iff s.user_id user,
                away-append user false c.wire (set_typing s.room_id s.user_id true),
              );
            })
    ]

pub lower-Valid :
    (k : String) (s : Slot) (c : TypingRegistry)
    → Valid c
    → Fits k (record s { refresh = false })
    → Joins k s c
    → busy_at k c ≡ true
    → is_working s ≡ false
    → Valid (lower k s c)
unfolding lower
lower-Valid k s c v fits joins busy rests =
    let s' : Slot = record s { refresh = false } in
    let n = default (get s.user_id c.working_rooms) 1 - 1 in
    elim (Bool-cases (ltb 0 n)) [
      | inl more ↦
          rw (more, lower)
            (record {
              unique = set-Unique k s' c.slots v.unique;
              slot = put-Fits k s' c v fits;
              rooms = λ user. ground (
                arith,
                rooms_of-put user k s' c joins,
                v.rooms user,
                eq_iff s.user_id user,
                get-set user s.user_id n c.working_rooms,
              );
              shows = λ j. ground (
                arith,
                busy_at-put j k s' c,
                v.shows j,
                eq_iff k j,
                fits.keyed,
                shown-append j false c.wire (set_typing s.room_id s.user_id false),
              );
              absent = λ user. ground (
                arith,
                rooms_of-put user k s' c joins,
                v.absent user,
                v.rooms user,
                eq_iff s.user_id user,
                away-append user false c.wire (set_typing s.room_id s.user_id false),
              );
            })
      | inr last_room ↦
          rw (last_room, lower)
            (record {
              unique = set-Unique k s' c.slots v.unique;
              slot = put-Fits k s' c v fits;
              rooms = λ user. ground (
                arith,
                rooms_of-put user k s' c joins,
                v.rooms user,
                eq_iff s.user_id user,
                get-delete user s.user_id c.working_rooms,
              );
              shows = λ j. ground (
                arith,
                busy_at-put j k s' c,
                v.shows j,
                eq_iff k j,
                fits.keyed,
                shown-append j false c.wire (set_typing s.room_id s.user_id false),
                shown-append j false (c.wire ++ set_typing s.room_id s.user_id false ∷ [])
                    (set_presence s.user_id true),
              );
              absent = λ user. ground (
                arith,
                rooms_of-put user k s' c joins,
                v.absent user,
                v.rooms user,
                eq_iff s.user_id user,
                away-append user false c.wire (set_typing s.room_id s.user_id false),
                away-append user false (c.wire ++ set_typing s.room_id s.user_id false ∷ [])
                    (set_presence s.user_id true),
              );
            })
    ]
