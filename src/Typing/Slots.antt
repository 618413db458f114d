-- ===== src/Typing/Slots.antt =====
-- What holds of the slots and of the wire, and that a slot's change keeps it.
use mathlib.Core.Path.{subst}
use zooid.Dict.{count, get}
use zooid.Dict.Count.{count-set-none, count-set-some, one}
use zooid.Dict.Laws.{Unique, get-set, set-Unique}
use zooid.Prelude.{
  Bool, List, Option-cases, String, String-cases, [], arith, default, eq_iff, false, if◌then◌else◌,
  includes, inl, inr, ltb, none, not, refl, some, true, ℕ, ◌&&◌, ◌++◌, ◌+◌, ◌==◌, ◌∷◌, ◌≡◌,
}
use zooid.Typing.{Slot, TypingRegistry, Wire, is_working, put, set_presence, set_typing, slot_key}

-- Whether the slot of a key has a working turn.
abbrev pub busy_at : String → TypingRegistry → Bool
busy_at k c = elim (get k c.slots) [ none ↦ false | some s ↦ is_working s ]

abbrev pub busy_for : String → Slot → Bool
busy_for user s = s.user_id == user && is_working s

-- The rooms in which an agent has a working turn.
abbrev pub rooms_of : String → TypingRegistry → ℕ
rooms_of user c = count (busy_for user) c.slots

abbrev pub next_shown : String → Bool → Wire → Bool
next_shown k b (set_typing room user on) = if slot_key room user == k then on else b
next_shown k b (set_presence user online) = b

-- What the wire shows after its calls: typing for a key, and whether an agent is unavailable.
unfoldable pub shown : String → Bool → List Wire → Bool
shown k b [] = b
shown k b (w ∷ ws) = shown k (next_shown k b w) ws

abbrev pub next_away : String → Bool → Wire → Bool
next_away user b (set_typing room u on) = b
next_away user b (set_presence u online) = if u == user then not online else b

unfoldable pub away : String → Bool → List Wire → Bool
away user b [] = b
away user b (w ∷ ws) = away user (next_away user b w) ws

pub shown-append :
    (k : String) (b : Bool) (ws : List Wire) (w : Wire)
    → shown k b (ws ++ w ∷ []) ≡ next_shown k (shown k b ws) w
unfolding shown
shown-append k b [] w = refl
shown-append k b (x ∷ ws) w = shown-append k (next_shown k b x) ws w

pub away-append :
    (user : String) (b : Bool) (ws : List Wire) (w : Wire)
    → away user b (ws ++ w ∷ []) ≡ next_away user (away user b ws) w
unfolding away
away-append user b [] w = refl
away-append user b (x ∷ ws) w = away-append user (next_away user b x) ws w

pub record Fits (k : String) (s : Slot) : Type 0 where
  pub keyed : slot_key s.room_id s.user_id ≡ k
  pub lives : (x : String) → includes x s.working ≡ true → includes x s.live ≡ true
  pub armed : s.refresh ≡ is_working s

-- A slot's working turns are live, and its interval runs exactly while there is one; the wire shows
-- typing exactly in the rooms of the working turns, and an agent as unavailable exactly while it has
-- one.
pub record Valid (c : TypingRegistry) : Type 0 where
  pub unique : Unique c.slots
  pub slot : (k : String) (s : Slot) → get k c.slots ≡ some s → Fits k s
  pub rooms : (user : String) → default (get user c.working_rooms) 0 ≡ rooms_of user c
  pub shows : (k : String) → shown k false c.wire ≡ busy_at k c
  pub absent : (user : String) → away user false c.wire ≡ ltb 0 (rooms_of user c)

-- A slot goes where there is none, or one of the same agent.
abbrev pub Joins : String → Slot → TypingRegistry → Type 0
Joins k s c = (o : Slot) → get k c.slots ≡ some o → o.user_id ≡ s.user_id

pub rooms_of-put :
    (user k : String) (s : Slot) (c : TypingRegistry)
    → Joins k s c
    → rooms_of user (put k s c) + one (s.user_id == user && busy_at k c)
      ≡ rooms_of user c + one (s.user_id == user && is_working s)
rooms_of-put user k s c joins = elim (Option-cases (get k c.slots)) [
  | inl gone ↦ ground (arith, count-set-none (busy_for user) k s c.slots gone)
  | inr (o, found) ↦
      ground (arith, count-set-some (busy_for user) k s o c.slots found, joins o found)
]

pub busy_at-put :
    (j k : String) (s : Slot) (c : TypingRegistry)
    → busy_at j (put k s c) ≡ (if k == j then is_working s else busy_at j c)
busy_at-put j k s c = ground (arith, get-set j k s c.slots)

pub put-Fits :
    (k : String) (s : Slot) (c : TypingRegistry)
    → Valid c
    → Fits k s
    → (j : String) (x : Slot) → get j (put k s c).slots ≡ some x
    → Fits j x
put-Fits k s c v fits j x h = elim (String-cases k j) [
  | inl same ↦
      let e : s ≡ x = ground (arith, get-set j k s c.slots, eq_iff k j) in
      subst (λ y. Fits j y) e (subst (λ i. Fits i s) same fits)
  | inr other ↦ v.slot j x (ground (arith, get-set j k s c.slots))
]

pub put-Valid :
    (k : String) (s : Slot) (c : TypingRegistry)
    → Valid c
    → Fits k s
    → Joins k s c
    → busy_at k c ≡ is_working s
    → Valid (put k s c)
put-Valid k s c v fits joins same = record {
  unique = set-Unique k s c.slots v.unique;
  slot = put-Fits k s c v fits;
  rooms = λ user. ground (arith, rooms_of-put user k s c joins, v.rooms user);
  shows = λ j. ground (arith, busy_at-put j k s c, v.shows j, eq_iff k j);
  absent = λ user. ground (arith, rooms_of-put user k s c joins, v.absent user);
}
