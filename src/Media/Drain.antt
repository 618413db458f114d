-- ===== src/Media/Drain.antt =====
-- What a drain takes, and how much a queue holds.
use zooid.Dict.{get, set}
use zooid.Dict.Laws.{get-delete, get-set}
use zooid.Media.{PendingMediaItem, PendingMediaStore, add, drain, keep, key, queue, shift_over}
use zooid.Prelude.{
  Bool, List, Option, String, [], ap, arith, eq_iff, eq_refl, false, filter, if◌then◌else◌, length,
  not, ◌++◌, ◌==◌, ◌∙◌, ◌∷◌, ◌≡◌, ◌≤◌,
}

abbrev own : String → PendingMediaItem → Bool
own sender i = i.sender == sender

queue-rest :
    (j k : String) (rest : List PendingMediaItem) (c : PendingMediaStore)
    → queue j (keep k rest c) ≡ (if k == j then rest else queue j c)
queue-rest j k [] c = ground (arith, get-delete j k c)
queue-rest j k (x ∷ xs) c = ground (arith, get-set j k (x ∷ xs) c)

filter-filter :
    (s t : String) (xs : List PendingMediaItem)
    → filter (own t) (filter (λ i. not (own s i)) xs) ≡ (if s == t then [] else filter (own t) xs)
filter-filter s t [] = ground arith
filter-filter s t (x ∷ xs) =
    ground (arith, filter-filter s t xs, eq_iff x.sender s, eq_iff x.sender t, eq_iff s t)

-- After a drain, another drain of the same thread finds nothing of the same sender, and all that it
-- would have found of another one; the other threads' queues are as they were.
drain-drain :
    (room : String) (thread : Option String) (s t k : String) (c : PendingMediaStore)
    → ((drain room thread t (drain room thread s c).0).1
        ≡ (if s == t then [] else (drain room thread t c).1))
      × ((key room thread == k) ≡ false → queue k (drain room thread s c).0 ≡ queue k c)
unfolding drain
drain-drain room thread s t k c =
    let i = key room thread in
    let rest = filter (λ x. not (x.sender == s)) (queue i c) in
    (
      ap (filter (own t)) (queue-rest i i rest c ∙ ground (arith, eq_refl i))
          ∙ filter-filter s t (queue i c),
      λ other. queue-rest k i rest c ∙ ground arith,
    )

shift_over-le : (xs : List PendingMediaItem) → length (shift_over xs) ≤ 8
unfolding shift_over
shift_over-le [] = omega arith
shift_over-le (x ∷ xs) = ground (arith, shift_over-le xs)

filter-le :
    (p : PendingMediaItem → Bool) (xs : List PendingMediaItem) → length (filter p xs) ≤ length xs
filter-le p [] = omega arith
filter-le p (x ∷ xs) = ground (arith, filter-le p xs)

pub data Call : Type 0 where
  adds : (room : String) → (thread : Option String) → PendingMediaItem → Call
  drains : (room : String) → (thread : Option String) → (sender : String) → Call

unfoldable pub run : List Call → PendingMediaStore → PendingMediaStore
run [] c = c
run (adds room thread item ∷ xs) c = run xs (add room thread item c)
run (drains room thread sender ∷ xs) c = run xs (drain room thread sender c).0

run_from-le :
    (k : String) (xs : List Call) (c : PendingMediaStore)
    → ((j : String) → length (queue j c) ≤ 8)
    → length (queue k (run xs c)) ≤ 8
unfolding run add drain
run_from-le k [] c h = h k
run_from-le k (adds room thread item ∷ xs) c h =
    let i = key room thread in
    let q = shift_over (queue i c ++ item ∷ []) in
    run_from-le k xs (set i q c)
      (λ j. ground (arith, get-set j i q c, shift_over-le (queue i c ++ item ∷ []), h j))
run_from-le k (drains room thread sender ∷ xs) c h =
    let i = key room thread in
    let rest = filter (λ x. not (x.sender == sender)) (queue i c) in
    run_from-le k xs (drain room thread sender c).0 (λ j. ground (
      arith,
      queue-rest j i rest c,
      filter-le (λ x. not (x.sender == sender)) (queue i c),
      h i,
      h j,
    ))

-- In every history, a queue holds at most 8 items.
run-queue-le : (k : String) (xs : List Call) → length (queue k (run xs [])) ≤ 8
unfolding get
run-queue-le k xs = run_from-le k xs [] (λ j. omega arith)
