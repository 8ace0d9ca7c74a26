-- ===== src/Reputation.antt =====
-- internal/reputation: the decay, the accumulation of reports and the disputes. Pure functions
-- over a record; the engine that reads and writes a store is in the child Engine.
pub mod Scores
pub mod Invariant
pub mod History
pub mod Engine
mod Tests
use federloom.Prelude.{
  ℕ, ◌-◌, String, Bool, true, false, ◌&&◌, ◌||◌, not, List, [], ◌∷◌, ◌++◌, length, contains_string,
  str_eq, if◌then◌else◌, ◌==◌,
}
use federloom.Float.{Float, num, ◌⊕◌, ◌⊖◌, ◌⊗◌, ◌⊘◌, ◌<?◌}
use federloom.Proto.{Time, Duration, is_zero}
use federloom.Store.{ScoreRecord}

-- One scoring input. An empty subnet is untracked.
pub record Observation (F : Type 0) : Type 0 where
  pub reason : String
  pub reporter_id : String
  pub group : String
  pub trust : F
  pub anchored : Bool
  pub subnet : String

-- The map `reportWeight`.
abbrev report_weight : String → ℕ
report_weight reason =
    if str_eq reason "ssh-auth-success" || str_eq reason "smtp-auth-success"
    then 40
    else if str_eq reason "smtp-spamtrap"
    then 50
    else if str_eq reason "imap-auth-success"
    then 30
    else if str_eq reason "ssh-auth-bruteforce"
        || str_eq reason "ssh-post-auth-command"
        || str_eq reason "smtp-auth-bruteforce"
        || str_eq reason "imap-auth-bruteforce"
        || str_eq reason "pop3-auth-bruteforce"
    then 10
    else 2

-- `containsString` guards each of the record's lists.
unfoldable pub add_once : Bool → List String → String → List String
add_once wanted l s = if wanted && not (contains_string l s) then l ++ s ∷ [] else l

module _ {F : Type 0} ⦃f : Float F⦄ where
  -- 2 is both the weight of the probes that the table lists and of what it does not list.
  unfoldable pub weight_for : String → F
  weight_for reason = num (report_weight reason)

  -- A `now` before `last_seen` counts as no time elapsed: `-` stops at 0.
  unfoldable pub decay_score : F → Time → Time → Duration → F
  decay_score score last_seen now half_life =
      if f.eq score (num 0) || half_life == 0
      then score
      else score ⊗ f.half_decay (now - last_seen) half_life

  -- The record decayed to now, the first step of `Accumulate` and of `ApplyDispute`.
  unfoldable pub lazily_decayed : ScoreRecord F → Time → Duration → ScoreRecord F
  lazily_decayed r now half_life = record r {
    score = if is_zero r.last_seen then r.score else decay_score r.score r.last_seen now half_life;
  }

  abbrev pub is_tracked : Observation F → Bool
  is_tracked obs = not (str_eq obs.subnet "")

  abbrev pub first_from_subnet : ScoreRecord F → Observation F → Bool
  first_from_subnet r obs = is_tracked obs && not (contains_string r.subnets_seen obs.subnet)

  unfoldable pub contribution : ScoreRecord F → Observation F → F → F
  contribution r obs diversity_repeat =
      let div_factor =
        if is_tracked obs && not (first_from_subnet r obs) then diversity_repeat else num 1 in
      obs.trust ⊗ weight_for obs.reason ⊗ (num 1 ⊖ r.score ⊘ num 100) ⊗ div_factor

  -- What the strangers' shared budget leaves of an amount.
  unfoldable pub within_budget : F → F → F → F
  within_budget stranger_cap used amount =
      let left = stranger_cap ⊖ used in
      let remaining = if left <? num 0 then num 0 else left in
      if remaining <? amount then remaining else amount

  unfoldable pub granted : ScoreRecord F → Observation F → F → F → F
  granted r obs stranger_cap diversity_repeat =
      let contrib = contribution r obs diversity_repeat in
      if obs.anchored then contrib else within_budget stranger_cap r.stranger_contrib contrib

  unfoldable pub at_most_100 : F → F
  at_most_100 s = if num 100 <? s then num 100 else s

  unfoldable pub accumulate :
      ScoreRecord F → Observation F → Time → Duration → F → F → ScoreRecord F
  accumulate rec obs now half_life stranger_cap diversity_repeat =
      let r = lazily_decayed rec now half_life in
      let contrib = granted r obs stranger_cap diversity_repeat in
      let groups = add_once (obs.anchored && not (str_eq obs.group "")) r.groups obs.group in
      record r {
        score = at_most_100 (r.score ⊕ contrib);
        stranger_contrib =
            if obs.anchored then r.stranger_contrib else r.stranger_contrib ⊕ contrib;
        stranger_seen = if obs.anchored then r.stranger_seen else true;
        groups = groups;
        corroboration = length groups;
        reporter_ids = add_once true r.reporter_ids obs.reporter_id;
        subnets_seen = add_once (is_tracked obs) r.subnets_seen obs.subnet;
        last_seen = now;
        first_seen = if is_zero r.first_seen then now else r.first_seen;
        reasons = add_once true r.reasons obs.reason;
      }

  -- Only an anchored disputer earns diversity credit.
  abbrev pub first_anchored_subnet : ScoreRecord F → Observation F → Bool
  first_anchored_subnet r obs =
      obs.anchored && is_tracked obs && not (contains_string r.dispute_subnets_seen obs.subnet)

  unfoldable pub full_reduction : ScoreRecord F → Observation F → F → F → F
  full_reduction r obs dispute_weight diversity_repeat =
      let div_factor =
        if obs.anchored && is_tracked obs && not (first_anchored_subnet r obs)
        then diversity_repeat
        else num 1 in
      obs.trust ⊗ dispute_weight ⊗ (r.score ⊘ num 100) ⊗ div_factor

  unfoldable pub reduction : ScoreRecord F → Observation F → F → F → F → F
  reduction r obs dispute_weight stranger_cap diversity_repeat =
      let full = full_reduction r obs dispute_weight diversity_repeat in
      if obs.anchored then full else within_budget stranger_cap r.dispute_contrib full

  unfoldable pub at_least_0 : F → F
  at_least_0 s = if s <? num 0 then num 0 else s

  unfoldable pub apply_dispute :
      ScoreRecord F → Observation F → Time → Duration → F → F → F → ScoreRecord F
  apply_dispute rec obs now half_life dispute_weight stranger_cap diversity_repeat =
      let r = lazily_decayed rec now half_life in
      let cut = reduction r obs dispute_weight stranger_cap diversity_repeat in
      record r {
        score = at_least_0 (r.score ⊖ cut);
        dispute_contrib = if obs.anchored then r.dispute_contrib else r.dispute_contrib ⊕ cut;
        dispute_subnets_seen =
            add_once (obs.anchored && is_tracked obs) r.dispute_subnets_seen obs.subnet;
        last_seen = now;
      }
