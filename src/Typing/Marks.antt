-- ===== src/Typing/Marks.antt =====
-- A turn that starts to work, and one that ceases to.
use zooid.Dict.{insert, remove}
use zooid.Dict.Laws.{includes-insert, includes-remove}
use zooid.Prelude.{
  Bool-cases, List, String, String-cases, [], arith, eq_iff, false, includes, inl, inr, length, ltb,
  refl, suc, true, ◌==◌, ◌∷◌, ◌≡◌,
}
use zooid.Texts.{eqb}
use zooid.Typing.{Slot, TypingRegistry, is_working, mark_working, slot_key, unmark_working}
use zooid.Typing.Raises.{lower-Valid, raise-Valid}
use zooid.Typing.Slots.{Fits, Joins, Valid, busy_at, put-Valid}

length-insert :
    (k : String) (s : List String) → includes k s ≡ false → length (insert k s) ≡ suc (length s)
unfolding insert
length-insert k [] h = refl
length-insert k (j ∷ s) h = ground (arith, length-insert k s)

includes-length : (k : String) (s : List String) → includes k s ≡ true → ltb 0 (length s) ≡ true
includes-length k [] h = absurd (ground arith)
includes-length k (j ∷ s) h = ground arith

-- The working turns are live after a turn is marked.
insert-lives :
    (session : String) (s : Slot)
    → ((x : String) → includes x s.working ≡ true → includes x s.live ≡ true)
    → includes session s.live ≡ true
    → (x : String) → includes x (insert session s.working) ≡ true
    → includes x s.live ≡ true
insert-lives session s lives own x h = elim (String-cases session x) [
  | inl same ↦ rw (← same) own
  | inr other ↦ lives x (ground (arith, includes-insert x session s.working))
]

pub empty-length : (s : List String) → eqb (length s) 0 ≡ true → s ≡ []
empty-length [] h = refl
empty-length (j ∷ s) h = absurd (ground arith)

pub mark_working-Valid :
    (k : String) (s : Slot) (session : String) (c : TypingRegistry)
    → Valid c
    → Fits k s
    → Joins k s c
    → busy_at k c ≡ is_working s
    → includes session s.live ≡ true
    → Valid (mark_working k s session c)
unfolding mark_working
mark_working-Valid k s session c v fits joins same own =
    let s' : Slot = record s { working = insert session s.working } in
    let lives' = insert-lives session s fits.lives own in
    elim (Bool-cases (includes session s.working)) [
      | inl there ↦ rw (there, mark_working) (put-Valid k s c v fits joins same)
      | inr new ↦
          let longer = length-insert session s.working new in
          elim (Bool-cases (eqb (length s'.working) 1)) [
            | inl first ↦
                rw (new, first, mark_working)
                  (raise-Valid k s' c v
                    (record { keyed = fits.keyed; lives = lives'; armed = ground (arith, longer) })
                    joins (ground (arith, longer)) (ground (arith, longer)))
            | inr later ↦
                rw (new, later, mark_working)
                  (put-Valid k s' c v
                    (record {
                      keyed = fits.keyed;
                      lives = lives';
                      armed = ground (arith, longer, fits.armed);
                    })
                    joins (ground (arith, longer)))
          ]
    ]

-- A turn that is no longer working may have ceased to be live.
pub unmark_working-Valid :
    (k : String) (s : Slot) (session : String) (c : TypingRegistry)
    → Valid c
    → slot_key s.room_id s.user_id ≡ k
    → ((x : String)
        → includes x s.working ≡ true
        → (session == x) ≡ false
        → includes x s.live ≡ true)
    → s.refresh ≡ is_working s
    → Joins k s c
    → busy_at k c ≡ is_working s
    → Valid (unmark_working k s session c)
unfolding unmark_working
unmark_working-Valid k s session c v keyed lives armed joins same =
    let s' : Slot = record s { working = remove session s.working } in
    elim (Bool-cases (includes session s.working)) [
      | inr absent ↦
          rw (absent, unmark_working)
            (put-Valid k s c v
              (record {
                keyed = keyed;
                lives = λ x h. lives x h (ground (arith, eq_iff session x));
                armed = armed;
              })
              joins same)
      | inl there ↦
          let works = includes-length session s.working there in
          let lives' : (x : String) → includes x s'.working ≡ true → includes x s.live ≡ true =
            λ x h.
              lives x (ground (arith, includes-remove x session s.working))
                (ground (arith, includes-remove x session s.working)) in
          elim (Bool-cases (eqb (length s'.working) 0)) [
            | inl last_turn ↦
                rw (there, last_turn, unmark_working)
                  (lower-Valid k s' c v
                    (record { keyed = keyed; lives = lives'; armed = ground arith }) joins
                    (ground (arith, works)) (ground arith))
            | inr more ↦
                rw (there, more, unmark_working)
                  (put-Valid k s' c v
                    (record { keyed = keyed; lives = lives'; armed = ground (arith, works) }) joins
                    (ground (arith, works)))
          ]
    ]
