-- ===== src/Resources/Tests.antt =====
-- Examples of a governor.
use federloom.Prelude.{◌≡◌, refl, arith, [], ◌∷◌, map}
use federloom.Float.{Fixed, pos, fixed_float, num}
use federloom.Resources.{Governor, new_governor, tick, rate}
use federloom.Resources.Slots.{recent}
use federloom.Resources.Window.{charge_all, rate_charges}

abbrev busy : Governor Fixed
busy = charge_all (new_governor (pos 2000)) (1000000000 ∷ 1100000000 ∷ 1200000000 ∷ [])

rate_charges_example :
    (rate busy 1500000000).0
    ≡ num (recent (tick 1500000000) (map tick (1000000000 ∷ 1100000000 ∷ 1200000000 ∷ [])))
rate_charges_example =
    rate_charges (pos 2000) 1000000000 (1100000000 ∷ 1200000000 ∷ []) 1500000000 refl
      (omega arith, (omega arith, tt)) (omega arith)
