-- ===== src/Reputation/History.antt =====
-- Histories: a record after a list of reports or of disputes, each at its time. What strangers
-- can do to a record, and what the anchored groups and subnets of a record stand for.
use federloom.Prelude.{
  ◌≡◌, refl, ap, ◌∙◌, Bool, false, ◌&&◌, ◌||◌, not, arith, List, [], ◌∷◌, String, str_eq, eq_iff,
  length, contains_string, contains_string-append, All,
}
use federloom.Float.{Float, IsFloat, InRange, num, ◌≼◌}
use federloom.Store.{ScoreRecord, empty_record}
use federloom.Proto.{Time, Duration}
use federloom.Reputation.{Observation, add_once, lazily_decayed, accumulate, apply_dispute}
use federloom.Reputation.Scores.{le_refl_num, lazily_decayed-le, at_most_100-le, budget_nonneg}
use federloom.Reputation.Invariant.{
  IsWellFormed, IsSound, empty-IsWellFormed, lazily_decayed-IsWellFormed, granted-InRange,
  accumulate-IsWellFormed, apply_dispute-IsWellFormed,
}

abbrev pub Timed : Type 0 → Type 0
Timed F = Observation F × Time

module _ {F : Type 0} ⦃f : Float F⦄ where
  abbrev pub IsStranger : Timed F → Type 0
  IsStranger o = o.0.anchored ≡ false

  abbrev pub IsTrusted : Timed F → Type 0
  IsTrusted o = InRange (num 1) o.0.trust

  -- Some anchored report of the history carries the group.
  pub is_backed : String → List (Timed F) → Bool
  is_backed g [] = false
  is_backed g (o ∷ os) =
      (o.0.anchored && not (str_eq o.0.group "") && str_eq o.0.group g) || is_backed g os

  -- Some anchored dispute of the history comes from the subnet.
  pub is_disputed : String → List (Timed F) → Bool
  is_disputed s [] = false
  is_disputed s (o ∷ os) =
      (o.0.anchored && not (str_eq o.0.subnet "") && str_eq o.0.subnet s) || is_disputed s os

  module _ (half_life : Duration) (cap repeat : F) where
    pub replay : List (Timed F) → ScoreRecord F → ScoreRecord F
    replay [] r = r
    replay (o ∷ os) r = replay os (accumulate r o.0 o.1 half_life cap repeat)

    pub replay_disputes : F → List (Timed F) → ScoreRecord F → ScoreRecord F
    replay_disputes weight [] r = r
    replay_disputes weight (o ∷ os) r =
        replay_disputes weight os (apply_dispute r o.0 o.1 half_life weight cap repeat)

pub contains-add_once :
    (wanted : Bool) (l : List String) (s g : String)
    → contains_string (add_once wanted l s) g ≡ (contains_string l g || (wanted && str_eq s g))
unfolding add_once
contains-add_once wanted l s g = ground (arith, contains_string-append l (s ∷ []) g, eq_iff s g)

module _ {F : Type 0} ⦃f : Float F⦄ (half_life : Duration) (cap repeat : F) where
  -- A group counts for a record exactly if it did before or an anchored report carries it.
  pub contains-replay :
      (os : List (Timed F)) (r : ScoreRecord F) (g : String)
      → contains_string (replay half_life cap repeat os r).groups g
        ≡ (contains_string r.groups g || is_backed g os)
  unfolding replay is_backed accumulate lazily_decayed
  contains-replay [] r g = ground arith
  contains-replay (o ∷ os) r g = ground (
    arith,
    contains-replay os (accumulate r o.0 o.1 half_life cap repeat) g,
    contains-add_once (o.0.anchored && not (str_eq o.0.group "")) r.groups o.0.group g,
  )

  -- A subnet counts as disputing exactly if it did before or an anchored dispute comes from it.
  pub contains-replay_disputes :
      (weight : F) (os : List (Timed F)) (r : ScoreRecord F) (s : String)
      → contains_string (replay_disputes half_life cap repeat weight os r).dispute_subnets_seen s
        ≡ (contains_string r.dispute_subnets_seen s || is_disputed s os)
  unfolding replay_disputes is_disputed apply_dispute lazily_decayed
  contains-replay_disputes weight [] r s = ground arith
  contains-replay_disputes weight (o ∷ os) r s = ground (
    arith,
    contains-replay_disputes weight os (apply_dispute r o.0 o.1 half_life weight cap repeat) s,
    contains-add_once (o.0.anchored && not (str_eq o.0.subnet "")) r.dispute_subnets_seen o.0.subnet
        s,
  )

module _ {F : Type 0} ⦃f : Float F⦄ (L : IsFloat F) (half_life : Duration) (cap repeat : F)
    (sound : IsSound cap repeat) where
  -- With a stranger cap that is finite and not negative, and a damping of repeats in [0, 1]: any
  -- history of reports by reporters of trust in [0, 1] keeps a well-formed record well formed,
  -- where the strangers' budgets reach at most the float64 that follows the stranger cap.
  pub replay-IsWellFormed :
      (os : List (Timed F)) (r : ScoreRecord F)
      → All IsTrusted os
      → IsWellFormed (L.next_up cap) r
      → IsWellFormed (L.next_up cap) (replay half_life cap repeat os r)
  unfolding replay
  replay-IsWellFormed [] r t w = w
  replay-IsWellFormed (o ∷ os) r t w =
      replay-IsWellFormed os (accumulate r o.0 o.1 half_life cap repeat) t.1
        (accumulate-IsWellFormed L half_life cap repeat sound r o.0 o.1 w t.0)

  -- A record that only strangers have reported: no group, and no more score than they used.
  record IsStrangerOnly (r : ScoreRecord F) : Type 0 where
    well_formed : IsWellFormed (L.next_up cap) r
    budgeted : r.score ≼ r.stranger_contrib
    unbacked : r.groups ≡ []

  accumulate-budgeted :
      (r : ScoreRecord F) (obs : Observation F) (now : Time)
      → obs.anchored ≡ false
      → InRange (num 1) obs.trust
      → IsStrangerOnly r
      → (accumulate r obs now half_life cap repeat).score
        ≼ (accumulate r obs now half_life cap repeat).stranger_contrib
  unfolding accumulate lazily_decayed
  accumulate-budgeted r obs now s k h =
      let d = lazily_decayed r now half_life in
      let wd = lazily_decayed-IsWellFormed L half_life cap repeat sound r now h.well_formed in
      let grant = granted-InRange L half_life cap repeat sound d obs wd k in
      let below =
        L.le_trans _ _ _ (lazily_decayed-le L r now half_life h.well_formed.score) h.budgeted in
      simp s (
        L.le_trans _ _ _ (at_most_100-le L _ (L.add_nonneg _ _ wd.score.0 grant.0)) (
          L.add_mono d.score r.stranger_contrib _ _ wd.score.0 below grant.0
            (L.number_right _ _ grant.0)))

  accumulate-IsStrangerOnly :
      (r : ScoreRecord F) (o : Timed F)
      → IsStranger o
      → IsTrusted o
      → IsStrangerOnly r
      → IsStrangerOnly (accumulate r o.0 o.1 half_life cap repeat)
  unfolding accumulate lazily_decayed add_once
  accumulate-IsStrangerOnly r o s k h = record {
    well_formed = accumulate-IsWellFormed L half_life cap repeat sound r o.0 o.1 h.well_formed k;
    budgeted = accumulate-budgeted r o.0 o.1 s k h;
    unbacked = ground (arith, h.unbacked);
  }

  replay-IsStrangerOnly :
      (os : List (Timed F)) (r : ScoreRecord F)
      → All IsStranger os
      → All IsTrusted os
      → IsStrangerOnly r
      → IsStrangerOnly (replay half_life cap repeat os r)
  unfolding replay
  replay-IsStrangerOnly [] r s t h = h
  replay-IsStrangerOnly (o ∷ os) r s t h =
      replay-IsStrangerOnly os (accumulate r o.0 o.1 half_life cap repeat) s.1 t.1
        (accumulate-IsStrangerOnly r o s.0 t.0 h)

  -- With a stranger cap that is finite and not negative, and a damping of repeats in [0, 1]:
  -- strangers of trust in [0, 1] alone, however many and over however long a time, never bring the
  -- score of an IP that had no record past the float64 that follows the stranger cap, and never
  -- give it a corroboration count.
  pub stranger_score_capped :
      (os : List (Timed F))
      → All IsStranger os
      → All IsTrusted os
      → ((replay half_life cap repeat os empty_record).score ≼ L.next_up cap)
        × ((replay half_life cap repeat os empty_record).corroboration ≡ 0)
  stranger_score_capped os s t =
      let h = replay-IsStrangerOnly os empty_record s t empty_only in
      (
        L.le_trans _ _ _ h.budgeted h.well_formed.stranger_contrib.1,
        h.well_formed.corroboration ∙ ap length h.unbacked,
      )
    where
      empty_only : IsStrangerOnly empty_record
      empty_only = record {
        well_formed =
            empty-IsWellFormed L (L.next_up cap)
              (budget_nonneg L cap sound.cap_range.0 sound.cap_range.1);
        budgeted = le_refl_num L 0;
        unbacked = refl;
      }

  stranger_dispute_subnets :
      (weight : F) (r : ScoreRecord F) (o : Timed F)
      → IsStranger o
      → (apply_dispute r o.0 o.1 half_life weight cap repeat).dispute_subnets_seen
        ≡ r.dispute_subnets_seen
  unfolding apply_dispute lazily_decayed add_once
  stranger_dispute_subnets weight r o s = ground (arith, s)

  -- With a stranger cap that is finite and not negative, and a damping of repeats in [0, 1]: from a
  -- well-formed record on, disputes by strangers of trust in [0, 1], however many, with a dispute
  -- weight that is finite and not negative, never bring the total recorded as taken by strangers
  -- past the float64 that follows the stranger cap, never raise the score, and earn no dispute
  -- diversity.
  pub stranger_disputes_bounded :
      (weight : F) (os : List (Timed F)) (r : ScoreRecord F)
      → InRange f.largest weight
      → All IsStranger os
      → All IsTrusted os
      → IsWellFormed (L.next_up cap) r
      → ((replay_disputes half_life cap repeat weight os r).dispute_contrib ≼ L.next_up cap)
        × ((replay_disputes half_life cap repeat weight os r).score ≼ r.score)
        × ((replay_disputes half_life cap repeat weight os r).dispute_subnets_seen
            ≡ r.dispute_subnets_seen)
  unfolding replay_disputes
  stranger_disputes_bounded weight [] r c s t w =
      (w.dispute_contrib.1, L.number_right _ _ w.score.0, refl)
  stranger_disputes_bounded weight (o ∷ os) r c s t w =
      let (kept, lower) =
        apply_dispute-IsWellFormed L half_life cap repeat sound r o.0 o.1 weight w t.0 c in
      let (capped, below, same) =
        stranger_disputes_bounded weight os (apply_dispute r o.0 o.1 half_life weight cap repeat) c
          s.1 t.1 kept in
      (capped, L.le_trans _ _ _ below lower, same ∙ stranger_dispute_subnets weight r o s.0)
