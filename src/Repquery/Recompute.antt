-- ===== src/Repquery/Recompute.antt =====
-- internal/repquery/recompute.go: what the evidence of another node can do to a score.
use federloom.Prelude.{
  ℕ, zero, suc, ◌+◌, ◌≡◌, refl, sym, inl, inr, Bool, true, false, Bool-cases, if◌then◌else◌, min,
  ltb, arith, String, [],
}
use mathlib.Core.Path.{subst}
use federloom.Float.{Float, IsFloat, InRange, num, ◌⊗◌}
use federloom.Proto.{Time, EvidenceAggregate, is_zero}
use federloom.Store.{ScoreRecord}
use federloom.Reputation.{decay_score}
use federloom.Reputation.Scores.{
  le_refl_num, one_finite, mul-InRange, decay_score-InRange, budget_nonneg,
}
use federloom.Reputation.Invariant.{
  IsWellFormed, IsSound, empty-IsWellFormed, accumulate-IsWellFormed, apply_dispute-IsWellFormed,
}
use federloom.Repquery.{
  Consumer, bucket, rounds, max_weight_scenario, max_evidence_folds, clamped_weight, fold_groups,
  fold_strangers, fold_disputes, folded, clamped_score, record_from_evidence,
}

module _ {F : Type 0} ⦃f : Float F⦄ (L : IsFloat F) where
  clamped_weight-InRange : (x : F) → InRange (f.of_ℕ 1) (clamped_weight x)
  unfolding clamped_weight
  clamped_weight-InRange x = ground (
    arith,
    le_refl_num L 0,
    le_refl_num L 1,
    L.num_mono 0 1 (omega arith),
    L.number_of_eq x,
    L.le_of_not_lt (num 0) x,
    L.le_of_not_lt x (num 1),
    L.not_lt_of_le (num 0) (num 1),
  )

  clamped_score_same : (x : F) → InRange (f.of_ℕ 100) x → clamped_score x ≡ x
  unfolding clamped_score
  clamped_score_same x r = ground (arith, L.not_lt_of_le x (num 100), L.not_lt_of_le (num 0) x)

  one_damps : (cap repeat : F) → IsSound cap repeat → IsSound cap (f.of_ℕ 1)
  one_damps cap repeat s = record {
    cap_range = s.cap_range;
    damps = (L.num_mono 0 1 (omega arith), le_refl_num L 1);
  }

module _ {F : Type 0} ⦃f : Float F⦄ (L : IsFloat F) (itoa : ℕ → String) (c : Consumer F) (at : Time)
    (trust : F) (sound : IsSound c.stranger_cap c.diversity_repeat)
    (fair : InRange (num 1) trust) where
  fold_groups-IsWellFormed :
      (reason : String) (full i n : ℕ) (r : ScoreRecord F)
      → IsWellFormed (L.next_up c.stranger_cap) r
      → IsWellFormed (L.next_up c.stranger_cap) (fold_groups itoa c at trust reason full i n r)
  unfolding fold_groups
  fold_groups-IsWellFormed reason full i zero r w = w
  fold_groups-IsWellFormed reason full i (suc n) r w =
      fold_groups-IsWellFormed reason full (i + 1) n _ (
        accumulate-IsWellFormed L c.half_life c.stranger_cap c.diversity_repeat sound r _ at w fair)

  fold_strangers-IsWellFormed :
      (reason : String) (seen : Bool) (r : ScoreRecord F)
      → IsWellFormed (L.next_up c.stranger_cap) r
      → IsWellFormed (L.next_up c.stranger_cap) (fold_strangers itoa c at trust reason seen r)
  unfolding fold_strangers
  fold_strangers-IsWellFormed reason false r w = w
  fold_strangers-IsWellFormed reason true r w =
      accumulate-IsWellFormed L c.half_life c.stranger_cap (f.of_ℕ 1)
        (one_damps L c.stranger_cap c.diversity_repeat sound) r _ at w fair

  fold_disputes-IsWellFormed :
      (i n : ℕ) (r : ScoreRecord F)
      → InRange f.largest c.dispute_weight
      → IsWellFormed (L.next_up c.stranger_cap) r
      → IsWellFormed (L.next_up c.stranger_cap) (fold_disputes itoa c at trust i n r)
  unfolding fold_disputes
  fold_disputes-IsWellFormed i zero r strong w = w
  fold_disputes-IsWellFormed i (suc n) r strong w =
      fold_disputes-IsWellFormed (i + 1) n _ strong
        (apply_dispute-IsWellFormed L c.half_life c.stranger_cap c.diversity_repeat sound r _ at
          c.dispute_weight w fair strong).0

module _ {F : Type 0} ⦃f : Float F⦄ (L : IsFloat F) (itoa : ℕ → String) (c : Consumer F)
    (sound : IsSound c.stranger_cap c.diversity_repeat)
    (strong : InRange f.largest c.dispute_weight)
    (discounts : InRange (num 1) c.federation_discount) where
  folded-IsWellFormed :
      (ev : EvidenceAggregate F) → IsWellFormed (L.next_up c.stranger_cap) (folded itoa c ev)
  unfolding folded
  folded-IsWellFormed ev =
      let weight = clamped_weight-InRange L ev.evidence_weight in
      let fair : InRange (num 1) (clamped_weight ev.evidence_weight ⊗ c.federation_discount) =
        mul-InRange L (f.of_ℕ 1) _ _ (one_finite L) weight discounts in
      let reason = max_weight_scenario F ev.scenarios in
      let groups = min (rounds (bucket "groups" ev.diversity_buckets)) max_evidence_folds in
      let subnets = rounds (bucket "subnets" ev.diversity_buckets) in
      let full = min groups (if ltb subnets 1 then 1 else subnets) in
      let disputes =
        min (rounds (bucket "dispute_subnets" ev.diversity_buckets)) max_evidence_folds in
      fold_disputes-IsWellFormed L itoa c ev.window_last _ sound fair 0 disputes _ strong (
        fold_strangers-IsWellFormed L itoa c ev.window_last _ sound fair reason ev.strangers_present
          _
          (fold_groups-IsWellFormed L itoa c ev.window_last _ sound fair reason full 0 groups _ (
            empty-IsWellFormed L (L.next_up c.stranger_cap)
              (budget_nonneg L c.stranger_cap sound.cap_range.0 sound.cap_range.1))))

  -- With a stranger cap and a dispute weight that are finite and not negative, and a damping and a
  -- federation discount in [0, 1]: whatever the evidence claims, the record made of it has no
  -- group, no reporter and no corroboration, and a score in [0, 100], which is that of the folded
  -- votes decayed to now, so the last clamp never acts; evidence without a last time scores 0.
  pub record_from_evidence_lem :
      (ev : EvidenceAggregate F) (now : Time)
      → let r = record_from_evidence itoa c ev now in
        (r.groups ≡ [])
        × (r.reporter_ids ≡ [])
        × (r.corroboration ≡ 0)
        × InRange (num 100) r.score
        × (r.score ≡ (
            if is_zero ev.window_last
            then num 0
            else decay_score (folded itoa c ev).score ev.window_last now c.half_life))
  unfolding record_from_evidence
  record_from_evidence_lem ev now = elim (Bool-cases (is_zero ev.window_last)) [
    | inl never ↦
        rw never (refl, refl, refl, (le_refl_num L 0, L.num_mono 0 100 (omega arith)), refl)
    | inr seen ↦
        let range =
          decay_score-InRange L (f.of_ℕ 100) (folded itoa c ev).score ev.window_last now c.half_life
            (L.num_finite 100 (omega arith)) (folded-IsWellFormed ev).score in
        let same = clamped_score_same L _ range in
        rw seen (refl, refl, refl, subst (InRange (num 100)) (sym same) range, same)
  ]
