-- ===== src/Repquery.antt =====
-- internal/repquery: the answers of other nodes. `recompute.go` scores an answer under the asking
-- node's own settings, `aggregate.go` projects a record onto an answer, `responder.go` decides whom
-- to answer, and `resolver.go` reads a score. The streams between nodes are not modelled.
pub mod Querier
pub mod Recompute
mod Tests
use federloom.Prelude.{
  ℕ, zero, suc, ◌+◌, ◌-◌, min, Bool, true, false, if◌then◌else◌, ltb, leb, not, ◌&&◌, ◌||◌, String,
  List, [], ◌∷◌, Option, none, some, Assoc, lookup, length, Result, ok, err,
}
use Prim.Native.String as Text
use federloom.Float.{Float, num, ◌⊗◌, ◌<?◌}
use federloom.Proto.{ℤ, Time, Duration, EvidenceAggregate, is_zero}
use federloom.Store.{ScoreRecord, StoreError, empty_record}
use federloom.Reputation.{Observation, weight_for, decay_score, accumulate, apply_dispute}

abbrev pub max_evidence_folds : ℕ
max_evidence_folds = 64

-- A missing bucket reads as 0.
unfoldable pub bucket : String → Assoc ℤ → ℤ
bucket k m = elim (lookup k m) [ none ↦ ℤ.pos 0 | some n ↦ n ]

-- How often a loop up to a count runs: a count below 0 does nothing.
abbrev pub rounds : ℤ → ℕ
rounds (ℤ.pos n) = n
rounds (ℤ.negsuc n) = 0

-- What the asking node brings: its reputation settings.
pub record Consumer (F : Type 0) : Type 0 where
  pub half_life : Duration
  pub stranger_cap : F
  pub federation_discount : F
  pub diversity_repeat : F
  pub dispute_weight : F

module _ {F : Type 0} ⦃f : Float F⦄ where
  unfoldable pub heavier : String → F → List String → String
  heavier best weight [] = best
  heavier best weight (s ∷ rest) =
      if weight <? weight_for s then heavier s (weight_for s) rest else heavier best weight rest

  -- NaN and what is below 0 count as 0, what is above 1 as 1.
  unfoldable pub clamped_weight : F → F
  clamped_weight x =
      let weight = if not (f.eq x x) || (x <? num 0) then num 0 else x in
      if num 1 <? weight then num 1 else weight

  abbrev vote : String → String → String → F → Bool → Observation F
  vote reason reporter subnet trust anchored = record {
    reason = reason;
    reporter_id = reporter;
    group = if anchored then "fed" else "";
    trust = trust;
    anchored = anchored;
    subnet = subnet;
  }

  unfoldable pub clamped_score : F → F
  clamped_score x =
      let score = if num 100 <? x then num 100 else x in if score <? num 0 then num 0 else score

-- The scenario of the highest weight, the first of those that are equal.
unfoldable pub max_weight_scenario : (F : Type 0) ⦃f : Float F⦄ → List String → String
unfolding heavier
max_weight_scenario F ⦃f⦄ scenarios = heavier "" (f.neg (f.of_ℕ 1)) scenarios

module _ {F : Type 0} ⦃f : Float F⦄ (itoa : ℕ → String) (c : Consumer F) (at : Time)
    (trust : F) where
  -- The votes from `i` on, `n` of them: the first `full` each have a subnet of their own.
  unfoldable pub fold_groups : String → ℕ → ℕ → ℕ → ScoreRecord F → ScoreRecord F
  fold_groups reason full i zero r = r
  fold_groups reason full i (suc n) r = fold_groups reason full (i + 1) n (
      accumulate r
        (vote reason "fed" (if ltb i full then Text.◌++◌ "fed-" (itoa i) else "fed-repeat") trust
          true)
        at c.half_life c.stranger_cap c.diversity_repeat)

  unfoldable pub fold_strangers : String → Bool → ScoreRecord F → ScoreRecord F
  fold_strangers reason false r = r
  fold_strangers reason true r =
      accumulate r (vote reason "fed-stranger" "" trust false) at c.half_life c.stranger_cap (num 1)

  unfoldable pub fold_disputes : ℕ → ℕ → ScoreRecord F → ScoreRecord F
  fold_disputes i zero r = r
  fold_disputes i (suc n) r = fold_disputes (i + 1) n (
      apply_dispute r
        (record (vote "" "fed-dispute" (Text.◌++◌ "fed-d" (itoa i)) trust true) { group = "" }) at
        c.half_life c.dispute_weight c.stranger_cap c.diversity_repeat)

module _ {F : Type 0} ⦃f : Float F⦄ (itoa : ℕ → String) (c : Consumer F) where
  -- The votes that the evidence stands for, folded into an empty record.
  unfoldable pub folded : EvidenceAggregate F → ScoreRecord F
  unfolding bucket max_weight_scenario clamped_weight fold_groups fold_strangers fold_disputes
  folded ev =
      let trust = clamped_weight ev.evidence_weight ⊗ c.federation_discount in
      let reason = max_weight_scenario F ev.scenarios in
      let groups = min (rounds (bucket "groups" ev.diversity_buckets)) max_evidence_folds in
      let subnets = rounds (bucket "subnets" ev.diversity_buckets) in
      let full = min groups (if ltb subnets 1 then 1 else subnets) in
      let disputes =
        min (rounds (bucket "dispute_subnets" ev.diversity_buckets)) max_evidence_folds in
      fold_disputes itoa c ev.window_last trust 0 disputes (
        fold_strangers itoa c ev.window_last trust reason ev.strangers_present
          (fold_groups itoa c ev.window_last trust reason full 0 groups empty_record))

  -- Scores an answer; it carries no group, no reporter and no corroboration.
  unfoldable pub record_from_evidence : EvidenceAggregate F → Time → ScoreRecord F
  unfolding folded clamped_score
  record_from_evidence ev now =
      if is_zero ev.window_last then empty_record else record empty_record {
        score = clamped_score (decay_score (folded ev).score ev.window_last now c.half_life);
        reasons = ev.scenarios;
        first_seen = ev.window_first;
        last_seen = ev.window_last;
      }

module _ {F : Type 0} ⦃f : Float F⦄ where
  -- Counts only: neither the groups nor the reporters themselves.
  unfoldable pub aggregate_from_record : String → ScoreRecord F → EvidenceAggregate F
  aggregate_from_record ip r = record {
    ip = ip;
    scenarios = r.reasons;
    window_first = r.first_seen;
    window_last = r.last_seen;
    diversity_buckets =
        ("groups", ℤ.pos (length r.groups))
        ∷ ("reporters", ℤ.pos (length r.reporter_ids))
        ∷ ("subnets", ℤ.pos (length r.subnets_seen))
        ∷ ("dispute_subnets", ℤ.pos (length r.dispute_subnets_seen))
        ∷ [];
    strangers_present = r.stranger_seen;
    evidence_weight = num 1;
  }

  -- The answer to a request for an IP, `none` if the stream ends without one. The authorizer says
  -- of the peer whether it is blocked and whether it is anchored; the store answers for the IP.
  unfoldable pub respond :
      Option (Bool × Bool)
      → Option String
      → (String → Result StoreError (ScoreRecord F))
      → Option (EvidenceAggregate F)
  unfolding aggregate_from_record
  respond none request get_score = none
  respond (some (blocked, anchored)) request get_score =
      if blocked then none else if not anchored then none else elim request [
        | none ↦ none
        | some ip ↦ elim (get_score ip) [ err m ↦ none | ok r ↦ some (aggregate_from_record ip r) ]
      ]

  -- The record that a lookup gives, and the federated hit that the node is told of, if there is
  -- one. `local` is what the local store answers, `shed` whether the node is over its budget, and
  -- `federated` what the aggregators answer, `none` without a querier or without a hit.
  unfoldable pub resolve_score :
      Result StoreError (ScoreRecord F)
      → Bool
      → Option (ScoreRecord F × ℤ)
      → Result StoreError (ScoreRecord F) × Option (ScoreRecord F × ℤ)
  resolve_score (err m) shed federated = (err m, none)
  resolve_score (ok r) shed federated =
      if not (is_zero r.last_seen)
      then (ok r, none)
      else if shed
      then (ok r, none)
      else elim federated [ none ↦ (ok r, none) | some (r2, subnets) ↦ (ok r2, some (r2, subnets)) ]
