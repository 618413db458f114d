-- ===== src/Elicitation/Valid.antt =====
-- Well-formed entries, and that dropping the oldest terminal records keeps them so.
use zooid.Dict.{Dict, count, delete, get, set}
use zooid.Dict.Count.{count-delete, count-set-some}
use zooid.Dict.Laws.{Unique, delete-Unique, get-delete, get-set, set-Unique}
use zooid.Elicitation.{
  ElicitationCorrelator, ElicitationStatus, PendingElicitation, close, evict, find_pending, finish,
  is_pending,
}
use zooid.Prelude.{
  Bool, Bool-cases, Distinct, Distinct-concat, List, String, [], arith, eq_iff, eq_refl, false,
  if◌then◌else◌, includes, includes-append, inl, inr, length, length-append, ltb, none, not, refl,
  some, true, ℕ, ◌++◌, ◌==◌, ◌∷◌, ◌≡◌, ◌≤◌, ◌⊎◌,
}

abbrev pub is_terminal : PendingElicitation → Bool
is_terminal e = not (is_pending e)

-- `order` holds the ids of the terminal records, each once.
pub record IsValid (order : List String) (m : Dict PendingElicitation) : Type 0 where
  pub keyed : (i : String) (e : PendingElicitation) → get i m ≡ some e → e.request_id ≡ i
  pub backed :
      (i : String)
      → includes i order ≡ true
      → (e : PendingElicitation) × (get i m ≡ some e) × (is_pending e ≡ false)
  pub distinct : Distinct order
  pub counted : count is_terminal m ≡ length order
  pub unique : Unique m

-- One round of the loop.
pub evict_one-IsValid :
    (i : String) (order : List String) (m : Dict PendingElicitation)
    → IsValid (i ∷ order) m
    → IsValid order (delete i m)
evict_one-IsValid i order m v =
    let (e, he, off) = v.backed i (ground (arith, eq_refl i)) in
    record {
      keyed = λ j e h. ground (arith, get-delete j i m, v.keyed j e);
      backed = λ j h.
          let (x, hx, xoff) = v.backed j (ground arith) in
          (x, ground (arith, get-delete j i m, eq_iff i j), xoff);
      distinct = v.distinct.1;
      counted = ground (arith, count-delete is_terminal i e m v.unique he, v.counted);
      unique = delete-Unique i m v.unique;
    }

evict-IsValid :
    (cap : ℕ) (order : List String) (m : Dict PendingElicitation)
    → IsValid order m
    → IsValid (evict cap order m).0 (evict cap order m).1
unfolding evict
evict-IsValid cap [] m v = v
evict-IsValid cap (i ∷ order) m v = elim (Bool-cases (ltb cap (length (i ∷ order)))) [
  | inl over ↦ rw over (evict-IsValid cap order (delete i m) (evict_one-IsValid i order m v))
  | inr fits ↦ rw fits v
]

length-evict :
    (cap : ℕ) (order : List String) (m : Dict PendingElicitation)
    → length (evict cap order m).0 ≤ cap
unfolding evict
length-evict cap [] m = omega arith
length-evict cap (i ∷ order) m = ground (arith, length-evict cap order (delete i m))

-- A dropped record is terminal; the others stay as they are.
pub get-evict :
    (j : String) (cap : ℕ) (order : List String) (m : Dict PendingElicitation)
    → IsValid order m
    → (get j (evict cap order m).1 ≡ get j m)
      ⊎ ((get j (evict cap order m).1 ≡ none)
          × ((e : PendingElicitation) × (get j m ≡ some e) × (is_pending e ≡ false)))
unfolding evict
get-evict j cap [] m v = inl refl
get-evict j cap (i ∷ order) m v = elim (Bool-cases (ltb cap (length (i ∷ order)))) [
  | inr fits ↦ rw fits (inl refl)
  | inl over ↦ rw over (
      ground (
        arith,
        get-evict j cap order (delete i m) (evict_one-IsValid i order m v),
        get-delete j i m,
        v.backed i (ground (arith, eq_refl i)),
        eq_iff i j,
      ))
]

-- The entry closed and its id added to the order.
pub push-IsValid :
    (i : String) (e : PendingElicitation) (s : ElicitationStatus) (order : List String)
    (m : Dict PendingElicitation)
    → get i m ≡ some e
    → is_pending e ≡ true
    → IsValid order m
    → IsValid (order ++ e.request_id ∷ []) (set e.request_id (close e s) m)
push-IsValid i e s order m h on v =
    let same = v.keyed i e h in
    record {
      keyed = λ j x hx.
          ground (arith, get-set j e.request_id (close e s) m, v.keyed j x, eq_iff e.request_id j);
      backed = λ j hj. elim (Bool-cases (e.request_id == j)) [
        | inl new ↦ (close e s, rw (get-set j e.request_id (close e s) m, new) refl, refl)
        | inr old ↦
            let (x, hx, off) =
              v.backed j (ground (arith, includes-append j order (e.request_id ∷ []))) in
            (x, rw (get-set j e.request_id (close e s) m, old) hx, off)
      ];
      distinct = Distinct-concat order e.request_id v.distinct (ground (arith, v.backed i));
      counted = ground (
        arith,
        count-set-some is_terminal i (close e s) e m h,
        length-append order (e.request_id ∷ []),
        v.counted,
      );
      unique = set-Unique e.request_id (close e s) m v.unique;
    }

abbrev pub Valid : ElicitationCorrelator → Type 0
Valid c = IsValid c.terminal_order c.entries

pub finish-Valid :
    (i : String) (e : PendingElicitation) (s : ElicitationStatus) (c : ElicitationCorrelator)
    → get i c.entries ≡ some e
    → is_pending e ≡ true
    → Valid c
    → Valid (finish e s c)
unfolding finish
finish-Valid i e s c h on v =
    evict-IsValid c.terminal_cap _ _ (push-IsValid i e s c.terminal_order c.entries h on v)

-- Finishing an entry takes it, and no other, out of the pending ones.
pub find_pending-finish :
    (j i : String) (e : PendingElicitation) (s : ElicitationStatus) (c : ElicitationCorrelator)
    → get i c.entries ≡ some e
    → is_pending e ≡ true
    → Valid c
    → find_pending j (finish e s c) ≡ (if i == j then none else find_pending j c)
unfolding finish
find_pending-finish j i e s c h on v = ground (
  arith,
  get-evict j c.terminal_cap (c.terminal_order ++ e.request_id ∷ [])
      (set e.request_id (close e s) c.entries)
      (push-IsValid i e s c.terminal_order c.entries h on v),
  get-set j e.request_id (close e s) c.entries,
  v.keyed i e h,
  eq_iff i j,
)

pub length-finish :
    (e : PendingElicitation) (s : ElicitationStatus) (c : ElicitationCorrelator)
    → length (finish e s c).terminal_order ≤ (finish e s c).terminal_cap
unfolding finish
length-finish e s c = length-evict c.terminal_cap _ _
