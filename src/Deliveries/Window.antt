-- ===== src/Deliveries/Window.antt =====
-- A delivery is refused within its window, and taken again after it.
use zooid.Deliveries.{DeliveryCache, deliver, evict_expired, seen}
use zooid.Dict.{Dict, get, set}
use zooid.Dict.Laws.{Unique, get-set, get-set_self, set-Unique}
use zooid.Prelude.{
  All, Bool-cases, List, Option-cases, String, [], arith, eq_iff, false, inl, inr, ltb, none, refl,
  some, true, ℕ, ◌+◌, ◌<◌, ◌↔◌, ◌∷◌, ◌≡◌, ◌≤◌,
}

get-evict_kept :
    (now expiry : ℕ) (id : String) (m : Dict ℕ)
    → get id m ≡ some expiry
    → now < expiry
    → get id (evict_expired now m) ≡ some expiry
unfolding evict_expired get
get-evict_kept now expiry id [] h lt = absurd (ground arith)
get-evict_kept now expiry id ((k, e) ∷ m) h lt =
    ground (arith, get-evict_kept now expiry id m, eq_iff k id)

get-evict_none :
    (now : ℕ) (id : String) (m : Dict ℕ) → get id m ≡ none → get id (evict_expired now m) ≡ none
unfolding evict_expired get
get-evict_none now id [] h = refl
get-evict_none now id ((k, e) ∷ m) h = ground (arith, get-evict_none now id m)

get-evict_gone :
    (now expiry : ℕ) (id : String) (m : Dict ℕ)
    → Unique m
    → get id m ≡ some expiry
    → expiry ≤ now
    → get id (evict_expired now m) ≡ none
unfolding evict_expired get
get-evict_gone now expiry id [] u h le = refl
get-evict_gone now expiry id ((k, e) ∷ m) u h le =
    ground (arith, get-evict_gone now expiry id m u.1, get-evict_none now id m, eq_iff k id)

evict_expired-Unique : (now : ℕ) (m : Dict ℕ) → Unique m → Unique (evict_expired now m)
unfolding evict_expired
evict_expired-Unique now [] u = tt
evict_expired-Unique now ((k, e) ∷ m) u =
    ground (arith, evict_expired-Unique now m u.1, get-evict_none now k m u.0)

-- The entry of an id: when it goes.
record Until (id : String) (t : ℕ) (c : DeliveryCache) : Type 0 where
  stored : get id c.expiry_by_id ≡ some t
  unique : Unique c.expiry_by_id

seen-Until :
    (t now : ℕ) (id j : String) (c : DeliveryCache)
    → now < t
    → Until id t c
    → Until id t (seen now j c).0
unfolding seen
seen-Until t now id j c early v =
    let m = evict_expired now c.expiry_by_id in
    let kept : get id m ≡ some t = get-evict_kept now t id c.expiry_by_id v.stored early in
    let u : Unique m = evict_expired-Unique now c.expiry_by_id v.unique in
    elim (Option-cases (get j m)) [
      | inl gone ↦
          rw (gone, seen)
            (record {
              stored = ground (arith, get-set id j (now + c.ttl_ms) m, eq_iff j id);
              unique = set-Unique j (now + c.ttl_ms) m u;
            })
      | inr (e, found) ↦ elim (Bool-cases (ltb now e)) [
        | inl lives ↦ rw (found, seen, lives) (record { stored = kept; unique = u })
        | inr over ↦
            rw (found, seen, over)
              (record {
                stored = ground (arith, get-set id j (now + c.ttl_ms) m, eq_iff j id);
                unique = set-Unique j (now + c.ttl_ms) m u;
              })
      ]
    ]

deliver-Until :
    (t : ℕ) (id : String) (xs : List (ℕ × String)) (c : DeliveryCache)
    → All (λ (x : ℕ × String). x.0 < t) xs
    → Until id t c
    → Until id t (deliver xs c)
unfolding deliver
deliver-Until t id [] c early v = v
deliver-Until t id ((now, j) ∷ xs) c early v =
    deliver-Until t id xs (seen now j c).0 early.1 (seen-Until t now id j c early.0 v)

seen_taken :
    (now : ℕ) (id : String) (c : DeliveryCache)
    → Unique c.expiry_by_id
    → (seen now id c).1 ≡ false
    → Until id (now + c.ttl_ms) (seen now id c).0
unfolding seen
seen_taken now id c u taken =
    let m = evict_expired now c.expiry_by_id in
    let v : Until id (now + c.ttl_ms) (record c { expiry_by_id = set id (now + c.ttl_ms) m }) =
      record {
        stored = get-set_self id (now + c.ttl_ms) m;
        unique = set-Unique id (now + c.ttl_ms) m (evict_expired-Unique now c.expiry_by_id u);
      } in
    elim (Option-cases (get id m)) [
      | inl gone ↦ rw (gone, seen) v
      | inr (e, found) ↦ elim (Bool-cases (ltb now e)) [
        | inl lives ↦ absurd (ground arith)
        | inr over ↦ rw (found, seen, over) v
      ]
    ]

-- A delivery that is taken at `t` is refused at `t'`, after other deliveries within its window, exactly
-- if `t'` is before `t + ttl`; a repetition in between does not prolong the window.
pub seen_window :
    (t t' : ℕ) (id : String) (xs : List (ℕ × String)) (c : DeliveryCache)
    → Unique c.expiry_by_id
    → (seen t id c).1 ≡ false
    → All (λ (x : ℕ × String). x.0 < t + c.ttl_ms) xs
    → ((seen t' id (deliver xs (seen t id c).0)).1 ≡ true) ↔ (t' < t + c.ttl_ms)
unfolding seen
seen_window t t' id xs c u taken early =
    let c' = deliver xs (seen t id c).0 in
    let v : Until id (t + c.ttl_ms) c' =
      deliver-Until (t + c.ttl_ms) id xs (seen t id c).0 early (seen_taken t id c u taken) in
    (
      λ h. ground (arith, get-evict_gone t' (t + c.ttl_ms) id c'.expiry_by_id v.unique v.stored),
      λ lt. ground (arith, get-evict_kept t' (t + c.ttl_ms) id c'.expiry_by_id v.stored lt),
    )
