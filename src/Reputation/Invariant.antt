-- ===== src/Reputation/Invariant.antt =====
-- What holds of a record between two observations, and that reports and disputes keep it.
use federloom.Prelude.{
  ◌≡◌, refl, inl, inr, Bool, true, false, Bool-cases, if◌then◌else◌, arith, List, String, length,
  contains_string, IsDistinct, IsDistinct-append,
}
use federloom.Float.{Float, IsFloat, InRange, num, ◌⊕◌, ◌≼◌}
use federloom.Store.{ScoreRecord, empty_record}
use federloom.Proto.{Time, Duration}
use federloom.Reputation.{
  Observation, add_once, lazily_decayed, contribution, within_budget, granted, full_reduction,
  reduction, accumulate, apply_dispute,
}
use federloom.Reputation.Scores.{
  le_refl_num, if-InRange, lazily_decayed-InRange, lazily_decayed-le, contribution-InRange,
  full_reduction-InRange, within_budget_lem, at_most_100-InRange, at_least_0_lem,
}

-- Scores in [0, 100] and budgets in [0, most], the corroboration count in step with the groups, and
-- each list of the record a set.
pub record IsWellFormed {F : Type 0} ⦃f : Float F⦄ (most : F) (r : ScoreRecord F) : Type 0 where
  pub score : InRange (num 100) r.score
  pub stranger_contrib : InRange most r.stranger_contrib
  pub dispute_contrib : InRange most r.dispute_contrib
  pub corroboration : r.corroboration ≡ length r.groups
  pub groups : IsDistinct r.groups
  pub reporters : IsDistinct r.reporter_ids
  pub reasons : IsDistinct r.reasons
  pub subnets : IsDistinct r.subnets_seen
  pub disputers : IsDistinct r.dispute_subnets_seen

-- The operator's settings: a finite cap that is not negative, and a damping in [0, 1].
pub record IsSound {F : Type 0} ⦃f : Float F⦄ (cap repeat : F) : Type 0 where
  pub cap_range : InRange f.largest cap
  pub damps : InRange (num 1) repeat

pub add_once-IsDistinct :
    (wanted : Bool) (l : List String) (s : String) → IsDistinct l → IsDistinct (add_once wanted l s)
unfolding add_once
add_once-IsDistinct false l s d = d
add_once-IsDistinct true l s d = elim (Bool-cases (contains_string l s)) [
  | inl there ↦ rw there d
  | inr fresh ↦ rw fresh (IsDistinct-append l s d fresh)
]

module _ {F : Type 0} ⦃f : Float F⦄ (L : IsFloat F) where
  pub empty-IsWellFormed : (cap : F) → num 0 ≼ cap → IsWellFormed cap empty_record
  empty-IsWellFormed cap h = record {
    score = (le_refl_num L 0, L.num_mono 0 100 (omega arith));
    stranger_contrib = (le_refl_num L 0, h);
    dispute_contrib = (le_refl_num L 0, h);
    corroboration = refl;
    groups = tt;
    reporters = tt;
    reasons = tt;
    subnets = tt;
    disputers = tt;
  }

  module _ (half_life : Duration) (cap repeat : F) (sound : IsSound cap repeat) where
    pub lazily_decayed-IsWellFormed :
        (r : ScoreRecord F) (now : Time)
        → IsWellFormed (L.next_up cap) r
        → IsWellFormed (L.next_up cap) (lazily_decayed r now half_life)
    unfolding lazily_decayed
    lazily_decayed-IsWellFormed r now w =
        let score = lazily_decayed-InRange L r now half_life w.score in
        record {
          score = score;
          stranger_contrib = w.stranger_contrib;
          dispute_contrib = w.dispute_contrib;
          corroboration = w.corroboration;
          groups = w.groups;
          reporters = w.reporters;
          reasons = w.reasons;
          subnets = w.subnets;
          disputers = w.disputers;
        }

    -- What an amount gets from the strangers' budget, for a report's contribution.
    share :
        (r : ScoreRecord F) (obs : Observation F)
        → IsWellFormed (L.next_up cap) r
        → InRange (num 1) obs.trust
        → (num 0 ≼ within_budget cap r.stranger_contrib (contribution r obs repeat))
          × (within_budget cap r.stranger_contrib (contribution r obs repeat)
              ≼ contribution r obs repeat)
          × (r.stranger_contrib ⊕ within_budget cap r.stranger_contrib (contribution r obs repeat)
              ≼ L.next_up cap)
    share r obs w k =
        within_budget_lem L cap sound.cap_range.0 sound.cap_range.1 r.stranger_contrib _
          w.stranger_contrib (contribution-InRange L repeat sound.damps r obs w.score k).0

    pub granted-InRange :
        (r : ScoreRecord F) (obs : Observation F)
        → IsWellFormed (L.next_up cap) r
        → InRange (num 1) obs.trust
        → InRange (f.of_ℕ 50) (granted r obs cap repeat)
    unfolding granted
    granted-InRange r obs w k =
        let fair = contribution-InRange L repeat sound.damps r obs w.score k in
        let (low, small, _) = share r obs w k in
        if-InRange L (num 50) _ _ obs.anchored fair (low, L.le_trans _ _ _ small fair.1)

    pub stranger_contrib-InRange :
        (r : ScoreRecord F) (obs : Observation F)
        → IsWellFormed (L.next_up cap) r
        → InRange (num 1) obs.trust
        → InRange (L.next_up cap) (
            if obs.anchored
            then r.stranger_contrib
            else r.stranger_contrib ⊕ granted r obs cap repeat)
    unfolding granted
    stranger_contrib-InRange r obs w k = elim (Bool-cases obs.anchored) [
      | inl known ↦ simp known w.stranger_contrib
      | inr stranger ↦
          let (low, _, fits) = share r obs w k in
          simp stranger (L.add_nonneg _ _ w.stranger_contrib.0 low, fits)
    ]

    -- A report by a reporter of trust in [0, 1] keeps the record well formed.
    pub accumulate-IsWellFormed :
        (r : ScoreRecord F) (obs : Observation F) (now : Time)
        → IsWellFormed (L.next_up cap) r
        → InRange (num 1) obs.trust
        → IsWellFormed (L.next_up cap) (accumulate r obs now half_life cap repeat)
    unfolding accumulate
    accumulate-IsWellFormed r obs now w k =
        let d = lazily_decayed r now half_life in
        let wd = lazily_decayed-IsWellFormed r now w in
        record {
          score =
              at_most_100-InRange L _ (L.add_nonneg _ _ wd.score.0 (granted-InRange d obs wd k).0);
          stranger_contrib = stranger_contrib-InRange d obs wd k;
          dispute_contrib = wd.dispute_contrib;
          corroboration = refl;
          groups = add_once-IsDistinct _ d.groups obs.group wd.groups;
          reporters = add_once-IsDistinct true d.reporter_ids obs.reporter_id wd.reporters;
          reasons = add_once-IsDistinct true d.reasons obs.reason wd.reasons;
          subnets = add_once-IsDistinct _ d.subnets_seen obs.subnet wd.subnets;
          disputers = wd.disputers;
        }

    -- The same for a dispute, whose budget is separate.
    dispute_share :
        (r : ScoreRecord F) (obs : Observation F) (weight : F)
        → IsWellFormed (L.next_up cap) r
        → InRange (num 1) obs.trust
        → InRange f.largest weight
        → (num 0 ≼ within_budget cap r.dispute_contrib (full_reduction r obs weight repeat))
          × (within_budget cap r.dispute_contrib (full_reduction r obs weight repeat)
              ≼ full_reduction r obs weight repeat)
          × (r.dispute_contrib
                ⊕ within_budget cap r.dispute_contrib (full_reduction r obs weight repeat)
              ≼ L.next_up cap)
    dispute_share r obs weight w k d =
        within_budget_lem L cap sound.cap_range.0 sound.cap_range.1 r.dispute_contrib _
          w.dispute_contrib (full_reduction-InRange L repeat sound.damps r obs weight w.score k d).0

    reduction-InRange :
        (r : ScoreRecord F) (obs : Observation F) (weight : F)
        → IsWellFormed (L.next_up cap) r
        → InRange (num 1) obs.trust
        → InRange f.largest weight
        → InRange f.largest (reduction r obs weight cap repeat)
    unfolding reduction
    reduction-InRange r obs weight w k d =
        let full = full_reduction-InRange L repeat sound.damps r obs weight w.score k d in
        let (low, small, _) = dispute_share r obs weight w k d in
        if-InRange L f.largest _ _ obs.anchored full (low, L.le_trans _ _ _ small full.1)

    dispute_contrib-InRange :
        (r : ScoreRecord F) (obs : Observation F) (weight : F)
        → IsWellFormed (L.next_up cap) r
        → InRange (num 1) obs.trust
        → InRange f.largest weight
        → InRange (L.next_up cap) (
            if obs.anchored
            then r.dispute_contrib
            else r.dispute_contrib ⊕ reduction r obs weight cap repeat)
    unfolding reduction
    dispute_contrib-InRange r obs weight w k d = elim (Bool-cases obs.anchored) [
      | inl known ↦ simp known w.dispute_contrib
      | inr stranger ↦
          let (low, _, fits) = dispute_share r obs weight w k d in
          simp stranger (L.add_nonneg _ _ w.dispute_contrib.0 low, fits)
    ]

    -- With a stranger cap that is finite and not negative, and a damping of repeats in [0, 1]: a
    -- dispute of trust in [0, 1], with a dispute weight that is finite and not negative, keeps a
    -- well-formed record well formed, and does not raise its score.
    pub apply_dispute-IsWellFormed :
        (r : ScoreRecord F) (obs : Observation F) (now : Time) (weight : F)
        → IsWellFormed (L.next_up cap) r
        → InRange (num 1) obs.trust
        → InRange f.largest weight
        → IsWellFormed (L.next_up cap) (apply_dispute r obs now half_life weight cap repeat)
          × ((apply_dispute r obs now half_life weight cap repeat).score ≼ r.score)
    unfolding apply_dispute
    apply_dispute-IsWellFormed r obs now weight w k c =
        let d = lazily_decayed r now half_life in
        let wd = lazily_decayed-IsWellFormed r now w in
        let (low, lower) =
          at_least_0_lem L d.score (reduction d obs weight cap repeat) wd.score
            (reduction-InRange d obs weight wd k c) in
        (
          record {
            score = (low, L.le_trans _ _ _ lower wd.score.1);
            stranger_contrib = wd.stranger_contrib;
            dispute_contrib = dispute_contrib-InRange d obs weight wd k c;
            corroboration = wd.corroboration;
            groups = wd.groups;
            reporters = wd.reporters;
            reasons = wd.reasons;
            subnets = wd.subnets;
            disputers = add_once-IsDistinct _ d.dispute_subnets_seen obs.subnet wd.disputers;
          },
          L.le_trans _ _ _ lower (lazily_decayed-le L r now half_life w.score),
        )
