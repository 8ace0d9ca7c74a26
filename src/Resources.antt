-- ===== src/Resources.antt =====
-- internal/resources/governor.go: the meter of processed work and its shed decision. The clock is
-- an argument; the mutex makes each method one step.
mod Slots
pub mod Window
pub mod Shedding
mod Tests
use federloom.Prelude.{
  ℕ, zero, suc, ◌+◌, ◌-◌, ◌/◌, ◌%◌, ◌≤◌, Bool, true, false, if◌then◌else◌, leb, List, [], ◌∷◌,
  Option, none, some, get_or, set, replicate,
}
use federloom.Float.{Float, num, ◌⊗◌, ◌⊘◌, ◌≤?◌}
use federloom.Proto.{Time, Duration}

abbrev pub gov_buckets : ℕ
gov_buckets = 10

-- 100 ms
abbrev pub bucket_dur : Duration
bucket_dur = 100000000

abbrev pub shed_exit_fraction : {F : Type 0} ⦃f : Float F⦄ → F
shed_exit_fraction = num 8 ⊘ num 10

-- `last_tick` is `none` where the source has -1: never charged.
pub record Governor (F : Type 0) : Type 0 where
  pub max_per_sec : F
  pub counts : List ℕ
  pub last_tick : Option ℕ
  pub shedding : Bool

abbrev pub tick : Time → ℕ
tick now = now / bucket_dur

-- The loop that zeroes the buckets of the ticks last + 1, …, last + n.
unfoldable pub clear_ticks : List ℕ → ℕ → ℕ → List ℕ
clear_ticks counts last zero = counts
clear_ticks counts last (suc n) = clear_ticks (set counts ((last + 1) % gov_buckets) 0) (last + 1) n

unfoldable pub sum : List ℕ → ℕ
sum [] = 0
sum (c ∷ cs) = c + sum cs

-- `g.counts[t%govBuckets]++`
unfoldable pub bump : List ℕ → ℕ → List ℕ
bump counts t = set counts (t % gov_buckets) (get_or counts (t % gov_buckets) 0 + 1)

module _ {F : Type 0} where
  unfoldable pub advance_locked : Governor F → ℕ → Governor F
  advance_locked g t = elim g.last_tick [
    | none ↦ record g { last_tick = some t }
    | some last ↦ if leb t last then g else record g {
      counts =
          if leb gov_buckets (t - last)
          then replicate gov_buckets 0
          else clear_ticks g.counts last (t - last);
      last_tick = some t;
    }
  ]

  module _ ⦃f : Float F⦄ where
    unfoldable pub new_governor : F → Governor F
    new_governor max_per_sec = record {
      max_per_sec = max_per_sec;
      counts = replicate gov_buckets 0;
      last_tick = none;
      shedding = false;
    }

    unfoldable pub rate_locked : Governor F → F
    rate_locked g = num (sum g.counts)

    -- A budget that is not positive disables the governor.
    unfoldable pub charge : Governor F → Time → Governor F
    unfolding advance_locked bump
    charge g now =
        let advanced = advance_locked g (tick now) in
        if g.max_per_sec ≤? num 0
        then g
        else record advanced { counts = bump advanced.counts (tick now) }

    -- Over the budget it enters shedding, and leaves it only well below.
    unfoldable pub next_shedding : Governor F → Bool
    next_shedding g =
        if g.shedding
        then (if rate_locked g ≤? (g.max_per_sec ⊗ shed_exit_fraction) then false else true)
        else (if g.max_per_sec ≤? rate_locked g then true else false)

    unfoldable pub shed : Governor F → Time → Bool × Governor F
    unfolding next_shedding rate_locked advance_locked
    shed g now =
        let advanced = advance_locked g (tick now) in
        if g.max_per_sec ≤? num 0
        then (false, g)
        else (next_shedding advanced, record advanced { shedding = next_shedding advanced })

    unfoldable pub rate : Governor F → Time → F × Governor F
    unfolding rate_locked advance_locked
    rate g now = let advanced = advance_locked g (tick now) in (rate_locked advanced, advanced)
