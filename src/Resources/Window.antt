-- ===== src/Resources/Window.antt =====
-- The governor's rate is the number of charges in the last ten ticks.
use federloom.Prelude.{
  ℕ, ◌+◌, ◌-◌, ◌≤◌, ◌<◌, ◌≡◌, refl, ap, ◌∙◌, inl, inr, false, Bool-cases, arith, tests, sym, leb,
  List, [], ◌∷◌, map, some, get_or, length,
}
use mathlib.Core.Path.{subst}
use federloom.Float.{Float, num, ◌≤?◌}
use federloom.Proto.{Time}
use federloom.Resources.Slots.{
  recent, in_slot, IsUpTo, IsUpTo-mono, in_slot_over, clear_ticks_lem, length-clear_ticks,
  sum_slots, get_or-replicate, length-bump, bump-slot,
}
use federloom.Resources.{gov_buckets, Governor, tick, advance_locked, new_governor, charge, rate}

regroup : (a b c : ℕ) → a + (b + c) ≡ b + a + c
regroup a b c = omega arith

regroup_last : (a b : ℕ) → a + (b + 0) ≡ b + a
regroup_last a b = omega arith

-- The ticks of the times do not fall, starting from `t`.
abbrev pub IsAscending : ℕ → List Time → Type 0
IsAscending t [] = Unit
IsAscending t (now ∷ rest) = (t ≤ tick now) × IsAscending (tick now) rest

abbrev pub last_tick_of : ℕ → List Time → ℕ
last_tick_of t [] = t
last_tick_of t (now ∷ rest) = last_tick_of (tick now) rest

-- The governor has metered the charges `cs`, and its last advance was to `t`.
record IsWindow {F : Type 0} (g : Governor F) (t : ℕ) (cs : List ℕ) : Type 0 where
  buckets : length g.counts ≡ 10
  advanced : g.last_tick ≡ some t
  up_to : IsUpTo t cs
  slots : (s : ℕ) → s < 10 → get_or g.counts s 0 ≡ in_slot t s cs

module _ {F : Type 0} where
  advance-IsWindow :
      (g : Governor F) (t u : ℕ) (cs : List ℕ)
      → IsWindow g t cs
      → t ≤ u
      → IsWindow (advance_locked g u) u cs
  unfolding advance_locked
  advance-IsWindow g t u cs w h =
      rw (w.advanced, advance_locked)
        (elim (Bool-cases (leb u t)) [
          | inl still ↦ simp still (subst (λ v. IsWindow g v cs) (omega tests) w)
          | inr moved ↦ elim (Bool-cases (leb gov_buckets (u - t))) [
            | inl long ↦
                simp (moved, long)
                  (record {
                    buckets = refl;
                    advanced = refl;
                    up_to = IsUpTo-mono t u cs h w.up_to;
                    slots = λ s k.
                        get_or-replicate 10 s ∙ sym (in_slot_over t u s cs w.up_to (ground arith));
                  })
            | inr short ↦
                simp (moved, short)
                  (record {
                    buckets = length-clear_ticks g.counts t (u - t) ∙ w.buckets;
                    advanced = refl;
                    up_to = IsUpTo-mono t u cs h w.up_to;
                    slots = λ s k.
                        clear_ticks_lem g.counts t (u - t) s cs w.buckets k w.up_to (w.slots s k)
                        ∙ ap (λ v. in_slot v s cs) (omega arith);
                  })
          ]
        ])

  max_per_sec-advance : (g : Governor F) (u : ℕ) → (advance_locked g u).max_per_sec ≡ g.max_per_sec
  unfolding advance_locked
  max_per_sec-advance g u = ground arith

  module _ ⦃f : Float F⦄ where
    -- A charge at a tick that is not earlier joins the history.
    charge-IsWindow :
        (g : Governor F) (now : Time) (cs : List ℕ)
        → (g.max_per_sec ≤? num 0) ≡ false
        → IsWindow (advance_locked g (tick now)) (tick now) cs
        → IsWindow (charge g now) (tick now) (tick now ∷ cs)
          × ((charge g now).max_per_sec ≡ g.max_per_sec)
    unfolding charge
    charge-IsWindow g now cs on v = simp on (
      record {
        buckets = length-bump _ (tick now) ∙ v.buckets;
        advanced = v.advanced;
        up_to = (omega arith, v.up_to);
        slots = λ s k. bump-slot _ (tick now) s cs v.buckets (v.slots s k);
      },
      max_per_sec-advance g (tick now),
    )

    -- The first advance of a governor that was never charged.
    fresh-IsWindow : (max : F) (u : ℕ) → IsWindow (advance_locked (new_governor max) u) u []
    unfolding advance_locked new_governor in_slot
    fresh-IsWindow max u = record {
      buckets = refl;
      advanced = refl;
      up_to = tt;
      slots = λ s k. get_or-replicate 10 s;
    }

    unfoldable pub charge_all : Governor F → List Time → Governor F
    charge_all g [] = g
    charge_all g (now ∷ rest) = charge_all (charge g now) rest

    rate_window :
        (g : Governor F) (t : ℕ) (cs : List ℕ) (times : List Time) (now : Time)
        → (g.max_per_sec ≤? num 0) ≡ false
        → IsWindow g t cs
        → IsAscending t times
        → last_tick_of t times ≤ tick now
        → (rate (charge_all g times) now).0
          ≡ num (recent (tick now) (map tick times) + recent (tick now) cs)
    unfolding rate charge_all recent
    rate_window g t cs [] now on w up end =
        let v = advance-IsWindow g t (tick now) cs w end in
        ap (λ n. num n) (sum_slots _ (tick now) cs v.buckets v.slots ∙ unfold recent in omega arith)
    rate_window g t cs (c ∷ rest) now on w up end =
        let (v, same) = charge-IsWindow g c cs on (advance-IsWindow g t (tick c) cs w up.0) in
        rate_window (charge g c) (tick c) (tick c ∷ cs) rest now (ap (λ m. m ≤? num 0) same ∙ on) v
          up.1 end
        ∙ ap (λ n. num n) (regroup (recent (tick now) (map tick rest)) _ _)

    -- On a governor with a budget, charged at times whose ticks do not fall and read no earlier,
    -- the rate is the number of the charges whose tick is among the last ten.
    pub rate_charges :
        (max : F) (first : Time) (times : List Time) (now : Time)
        → (max ≤? num 0) ≡ false
        → IsAscending (tick first) times
        → last_tick_of (tick first) times ≤ tick now
        → (rate (charge_all (new_governor max) (first ∷ times)) now).0
          ≡ num (recent (tick now) (map tick (first ∷ times)))
    unfolding new_governor charge_all recent
    rate_charges max first times now on up end =
        let (w, same) =
          charge-IsWindow (new_governor max) first [] on (fresh-IsWindow max (tick first)) in
        rate_window (charge (new_governor max) first) (tick first) (tick first ∷ []) times now
          (ap (λ m. m ≤? num 0) same ∙ on) w up end
        ∙ ap (λ n. num n) (regroup_last (recent (tick now) (map tick times)) _)
