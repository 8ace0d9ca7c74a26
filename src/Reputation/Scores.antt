-- ===== src/Reputation/Scores.antt =====
-- Bounds on the scores and the budgets that one observation leaves behind.
use federloom.Prelude.{
  ℕ, zero, suc, inl, inr, Bool, true, false, Bool-cases, if◌then◌else◌, arith, String,
}
use federloom.Float.{Float, IsFloat, InRange, num, ◌⊕◌, ◌⊖◌, ◌⊗◌, ◌⊘◌, ◌<?◌, ◌≼◌}
use federloom.Store.{ScoreRecord}
use federloom.Proto.{Time, Duration}
use federloom.Reputation.{
  Observation, report_weight, weight_for, decay_score, lazily_decayed, contribution, within_budget,
  at_most_100, full_reduction, at_least_0,
}

module _ {F : Type 0} ⦃f : Float F⦄ (L : IsFloat F) where
  pub le_refl_num : (a : ℕ) → num a ≼ f.of_ℕ a
  le_refl_num a = L.num_mono a a (omega arith)

  hundred_finite : f.of_ℕ 100 ≼ f.largest
  hundred_finite = L.num_finite 100 (omega arith)

  pub one_finite : f.of_ℕ 1 ≼ f.largest
  one_finite = L.num_finite 1 (omega arith)

  pub finite_of_score : (x : F) → InRange (num 100) x → x ≼ f.largest
  finite_of_score x h = L.le_trans _ _ _ h.1 hundred_finite

  pub one-InRange : InRange (f.of_ℕ 1) (num 1)
  one-InRange = (L.num_mono 0 1 (omega arith), le_refl_num 1)

  -- A product with a factor in [0, 1] stays in the range of the other factor.
  pub mul-InRange :
      (top x y : F) → top ≼ f.largest → InRange top x → InRange (num 1) y → InRange top (x ⊗ y)
  mul-InRange top x y fin h k =
      let small = L.le_trans _ _ _ h.1 fin in
      (
        L.mul_unit_nonneg x y h.0 small k.0 k.1,
        L.le_trans _ _ _ (L.mul_unit_le x y h.0 small k.0 k.1) h.1,
      )

  pub if-InRange :
      (top x y : F) (b : Bool) → InRange top x → InRange top y → InRange top (if b then x else y)
  if-InRange top x y true h k = h
  if-InRange top x y false h k = k

  pub decay_score-InRange :
      (top s : F) (l n : Time) (h : Duration)
      → top ≼ f.largest
      → InRange top s
      → InRange top (decay_score s l n h)
  unfolding decay_score
  decay_score-InRange top s l n zero fin r = elim (Bool-cases (f.eq s (num 0))) [
    | inl none_left ↦ rw none_left r
    | inr some_left ↦ rw some_left r
  ]
  decay_score-InRange top s l n (suc h) fin r = if-InRange top _ _ _ r (
      mul-InRange top s (f.half_decay _ (suc h)) fin r
        (L.decay_nonneg _ _ (omega arith), L.decay_le_one _ _ (omega arith)))

  pub lazily_decayed-InRange :
      (rec : ScoreRecord F) (n : Time) (h : Duration)
      → InRange (num 100) rec.score
      → InRange (num 100) (lazily_decayed rec n h).score
  unfolding lazily_decayed
  lazily_decayed-InRange rec n h r =
      if-InRange (num 100) _ _ _ r
        (decay_score-InRange (num 100) rec.score rec.last_seen n h hundred_finite r)

  pub lazily_decayed-le :
      (rec : ScoreRecord F) (n : Time) (h : Duration)
      → InRange (num 100) rec.score
      → (lazily_decayed rec n h).score ≼ rec.score
  unfolding lazily_decayed
  lazily_decayed-le rec n h r =
      (if-InRange rec.score _ _ _ same (
        decay_score-InRange rec.score rec.score rec.last_seen n h (finite_of_score rec.score r)
          same)).1
    where
      same : InRange rec.score rec.score
      same = (r.0, L.number_right _ _ r.0)

  weight_for-InRange : (reason : String) → InRange (f.of_ℕ 50) (weight_for reason)
  unfolding weight_for
  weight_for-InRange reason =
      (L.num_mono 0 (report_weight reason) (omega arith), L.num_mono _ 50 (ground arith))

  -- The factors 1 - score/100 and the damping.
  headroom-InRange : (s : F) → InRange (num 100) s → InRange (num 1) (num 1 ⊖ s ⊘ num 100)
  headroom-InRange s h =
      let low = L.div_unit_nonneg s h.0 h.1 in
      let high = L.div_unit_le s h.0 h.1 in
      (
        L.sub_nonneg _ _ low high one_finite,
        L.sub_le _ _ low (L.le_trans _ _ _ high one_finite) one-InRange.0 one_finite,
      )

  module _ (repeat : F) (damps : InRange (num 1) repeat) where
    -- What one report adds before the strangers' cap: at least 0, and at most the weight.
    pub contribution-InRange :
        (r : ScoreRecord F) (obs : Observation F)
        → InRange (num 100) r.score
        → InRange (num 1) obs.trust
        → InRange (num 50) (contribution r obs repeat)
    unfolding contribution
    contribution-InRange r obs h k =
        mul-InRange (num 50) _ _ fin
          (mul-InRange (num 50) _ _ fin
            (rw (L.mul_comm obs.trust (weight_for obs.reason))
              (mul-InRange (num 50) _ _ fin (weight_for-InRange obs.reason) k))
            (headroom-InRange r.score h))
          (if-InRange (num 1) _ _ _ damps one-InRange)
      where
        fin : f.of_ℕ 50 ≼ f.largest
        fin = L.num_finite 50 (omega arith)

    pub full_reduction-InRange :
        (r : ScoreRecord F) (obs : Observation F) (dispute_weight : F)
        → InRange (num 100) r.score
        → InRange (num 1) obs.trust
        → InRange f.largest dispute_weight
        → InRange f.largest (full_reduction r obs dispute_weight repeat)
    unfolding full_reduction
    full_reduction-InRange r obs dispute_weight h k d =
        mul-InRange f.largest _ _ fin
          (mul-InRange f.largest _ _ fin
            (rw (L.mul_comm obs.trust dispute_weight) (mul-InRange f.largest _ _ fin d k))
            (L.div_unit_nonneg _ h.0 h.1, L.div_unit_le _ h.0 h.1))
          (if-InRange (num 1) _ _ _ damps one-InRange)
      where
        fin : f.largest ≼ f.largest
        fin = L.number_right _ _ one_finite

  -- The less of what is left and of an amount.
  least_lem :
      (left amount : F)
      → num 0 ≼ left
      → num 0 ≼ amount
      → let share = if left <? amount then left else amount in
        (num 0 ≼ share) × (share ≼ amount) × (share ≼ left)
  least_lem left amount h k = elim (Bool-cases (left <? amount)) [
    | inl short ↦ rw short (h, L.le_of_lt _ _ short, L.number_right _ _ h)
    | inr long ↦
        let enough = L.le_of_not_lt _ _ (L.number_right _ _ k) (L.number_right _ _ h) long in
        rw long (k, L.number_right _ _ k, enough)
  ]

  module _ (cap : F) (low : num 0 ≼ cap) (fin : cap ≼ f.largest) where
    -- What remains of a budget is not negative, and what is used with it stays below the cap's
    -- successor.
    remaining_lem :
        (used : F)
        → InRange (L.next_up cap) used
        → let left = cap ⊖ used in
          let remaining = if left <? num 0 then num 0 else left in
          (num 0 ≼ remaining) × (used ⊕ remaining ≼ L.next_up cap)
    remaining_lem used h = elim (Bool-cases (cap <? used)) [
      | inl past ↦
          let spent = L.sub_nonpos used cap low fin (L.le_of_lt _ _ past) in
          let number = L.number_right _ _ h.0 in
          elim (Bool-cases ((cap ⊖ used) <? num 0)) [
            | inl under ↦ rw under (
              le_refl_num 0,
              L.le_trans _ _ _ (L.add_zero_le _ _ number (le_refl_num 0) (le_refl_num 0)) h.1,
            )
            | inr above ↦
                let none_left =
                  L.le_of_not_lt _ _ (le_refl_num 0) (L.number_left _ _ spent) above in
                rw above
                  (none_left, L.le_trans _ _ _ (L.add_zero_le _ _ number none_left spent) h.1)
          ]
      | inr within ↦
          let fits = L.le_of_not_lt _ _ (L.number_right _ _ h.0) (L.number_left _ _ fin) within in
          let left_nonneg = L.sub_nonneg used cap h.0 fits fin in
          rw (L.not_lt_of_le _ _ left_nonneg)
            (left_nonneg, L.add-sub-le_next_up used cap h.0 fits fin)
    ]

    -- The budget that is used never passes the cap's successor, whatever the amount asked for.
    pub within_budget_lem :
        (used amount : F)
        → InRange (L.next_up cap) used
        → num 0 ≼ amount
        → (num 0 ≼ within_budget cap used amount)
          × (within_budget cap used amount ≼ amount)
          × (used ⊕ within_budget cap used amount ≼ L.next_up cap)
    unfolding within_budget
    within_budget_lem used amount h k =
        let (nonneg, fits) = remaining_lem used h in
        let (share_nonneg, small, below) = least_lem _ amount nonneg k in
        (
          share_nonneg,
          small,
          L.le_trans _ _ _ (L.add_mono _ _ _ _ h.0 (L.number_right _ _ h.0) share_nonneg below)
              fits,
        )

    pub budget_nonneg : num 0 ≼ L.next_up cap
    budget_nonneg = L.le_trans _ _ _ low (L.le_next_up cap (L.number_left _ _ fin))

  pub at_most_100-InRange : (x : F) → num 0 ≼ x → InRange (num 100) (at_most_100 x)
  unfolding at_most_100
  at_most_100-InRange x h = elim (Bool-cases (num 100 <? x)) [
    | inl over ↦ rw over (L.num_mono 0 100 (omega arith), le_refl_num 100)
    | inr within ↦ rw within (h, L.le_of_not_lt _ _ (L.number_right _ _ h) (le_refl_num 100) within)
  ]

  pub at_most_100-le : (x : F) → num 0 ≼ x → at_most_100 x ≼ x
  unfolding at_most_100
  at_most_100-le x h = elim (Bool-cases (num 100 <? x)) [
    | inl over ↦ rw over (L.le_of_lt _ _ over)
    | inr within ↦ rw within (L.number_right _ _ h)
  ]

  -- To take an amount off a score, and stop at 0, leaves a score that is no higher.
  pub at_least_0_lem :
      (s cut : F)
      → InRange (num 100) s
      → InRange f.largest cut
      → (num 0 ≼ at_least_0 (s ⊖ cut)) × (at_least_0 (s ⊖ cut) ≼ s)
  unfolding at_least_0
  at_least_0_lem s cut h k = elim (Bool-cases ((s ⊖ cut) <? num 0)) [
    | inl under ↦ rw under (le_refl_num 0, h.0)
    | inr above ↦
        rw above (L.le_of_not_lt _ _ (le_refl_num 0) (L.number_left _ _ smaller) above, smaller)
  ]
    where
      smaller : s ⊖ cut ≼ s
      smaller = L.sub_le cut s k.0 k.1 h.0 (finite_of_score s h)
