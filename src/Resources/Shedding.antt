-- ===== src/Resources/Shedding.antt =====
-- The shed decision: off without a budget, and a hysteresis with one.
use federloom.Prelude.{◌≡◌, true, false, not, arith, if◌then◌else◌}
use federloom.Float.{Float, num, ◌⊗◌, ◌≤?◌}
use federloom.Proto.{Time}
use federloom.Resources.{
  Governor, tick, shed_exit_fraction, advance_locked, rate_locked, charge, shed,
}

module _ {F : Type 0} ⦃f : Float F⦄ (g : Governor F) (now : Time) where
  -- A governor with no positive budget never sheds, and neither a call nor a charge changes it.
  pub shed_disabled :
      (g.max_per_sec ≤? num 0) ≡ true → (shed g now ≡ (false, g)) × (charge g now ≡ g)
  unfolding shed charge
  shed_disabled off = (simp off, simp off)

  -- The rate that the decision looks at, as a call of `Rate` at that time would return it.
  abbrev pub current_rate : F
  current_rate = rate_locked (advance_locked g (tick now))

  -- With a budget the decision turns on when the rate reaches the budget, turns off when it is
  -- down to 0.8 of it, and stays as it was in between; the governor remembers it.
  pub shed_hysteresis :
      (g.max_per_sec ≤? num 0) ≡ false
      → ((shed g now).0 ≡ (
          if g.shedding
          then not (current_rate ≤? (g.max_per_sec ⊗ shed_exit_fraction))
          else (g.max_per_sec ≤? current_rate)))
        × ((shed g now).1.shedding ≡ (shed g now).0)
  unfolding shed advance_locked
  shed_hysteresis on = (ground arith, ground arith)
