-- ===== src/Deliveries/Tests.antt =====
-- Deliveries with a window of ten.
use zooid.Deliveries.{deliver, init, seen, size}
use zooid.Deliveries.Window.{seen_window}
use zooid.Dict.{get, set}
use zooid.Prelude.{[], arith, false, refl, true, ◌+◌, ◌<◌, ◌↔◌, ◌∷◌, ◌≡◌}

seen_results :
    ((seen 12 "t1:a" (deliver ((5, "t1:a") ∷ (7, "t1:a") ∷ []) (init 10))).1 ≡ true)
    × ((seen 15 "t1:a" (deliver ((5, "t1:a") ∷ (7, "t1:a") ∷ []) (init 10))).1 ≡ false)
    × (size (seen 15 "t1:b" (deliver ((5, "t1:a") ∷ []) (init 10))).0 ≡ 1)
unfolding seen deliver init get set
seen_results = (refl, refl, refl)

seen_window_example :
    ((seen 12 "t1:a" (deliver ((7, "t1:b") ∷ []) (seen 5 "t1:a" (init 10)).0)).1 ≡ true)
    ↔ (12 < 5 + 10)
unfolding init seen get
seen_window_example = seen_window 5 12 "t1:a" ((7, "t1:b") ∷ []) (init 10) tt refl (omega arith, tt)
