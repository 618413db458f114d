-- ===== src/Deliveries.antt =====
-- packages/cli/src/daemon/delivery-cache.ts, `DeliveryCache`: the ids of webhook deliveries that were
-- taken lately. The clock is the argument `now`.
pub mod Window
mod Tests
use zooid.Dict.{Dict, get, set}
use zooid.Prelude.{
  Bool, List, String, [], false, if◌then◌else◌, leb, length, ltb, none, some, true, ℕ, ◌+◌, ◌∷◌,
}

pub record DeliveryCache : Type 0 where
  pub ttl_ms : ℕ
  pub expiry_by_id : Dict ℕ

unfoldable pub init : ℕ → DeliveryCache
init ttl = record { ttl_ms = ttl; expiry_by_id = [] }

abbrev pub size : DeliveryCache → ℕ
size c = length c.expiry_by_id

-- The entries that `evictExpired` leaves.
unfoldable pub evict_expired : ℕ → Dict ℕ → Dict ℕ
evict_expired now [] = []
evict_expired now ((id, expiry) ∷ m) =
    if leb expiry now then evict_expired now m else (id, expiry) ∷ evict_expired now m

unfoldable pub seen : ℕ → String → DeliveryCache → DeliveryCache × Bool
unfolding evict_expired
seen now id c =
    let m = evict_expired now c.expiry_by_id in
    let fresh : DeliveryCache = record c { expiry_by_id = set id (now + c.ttl_ms) m } in
    elim (get id m) [
      | none ↦ (fresh, false)
      | some expiry ↦
          if ltb now expiry then (record c { expiry_by_id = m }, true) else (fresh, false)
    ]

-- Deliveries as they come, each with its time.
unfoldable pub deliver : List (ℕ × String) → DeliveryCache → DeliveryCache
unfolding seen
deliver [] c = c
deliver ((now, id) ∷ xs) c = deliver xs (seen now id c).0
