-- ===== src/Repquery/Querier.antt =====
-- internal/repquery/querier.go: asks the aggregators, merges their answers by the highest score,
-- and caches the merged answer. The streams are not modelled: an answer is `none` if dialling,
-- sending or decoding fails. The answers stand in the order in which they arrive, those that arrive
-- before the deadline only, each with the time it is read at. A time since is written as a sum, as
-- in the event cache.
pub mod Laws
pub mod Cache
mod Tests
use federloom.Prelude.{
  ℕ, ◌+◌, ◌/◌, Bool, true, false, not, ◌||◌, if◌then◌else◌, ltb, leb, String, List, [], ◌∷◌, Option,
  none, some, Assoc, lookup, insert, evict, length, contains_string, ◌++◌,
}
use federloom.Float.{Float, ◌<?◌}
use federloom.Proto.{ℤ, Time, Duration, EvidenceAggregate, is_zero}
use federloom.Store.{ScoreRecord, empty_record}
use federloom.Repquery.{Consumer, bucket, record_from_evidence}

pub record CacheEntry (F : Type 0) : Type 0 where
  pub entry : ScoreRecord F
  pub subnets : ℤ
  pub found : Bool
  pub at : Time

pub record Querier (F : Type 0) : Type 0 where
  pub cache_ttl : Duration
  -- maxCacheEntries
  pub max_entries : ℕ
  pub consumer : Consumer F
  pub cache : Assoc (CacheEntry F)

-- An answer that came back, and when.
abbrev pub Answer : Type 0 → Type 0
Answer F = Option (EvidenceAggregate F) × Time

-- The reasons already there, and those of a list that are not.
unfoldable pub add_reasons : List String → List String → List String
add_reasons reasons [] = reasons
add_reasons reasons (r ∷ rs) =
    add_reasons (if contains_string reasons r then reasons else reasons ++ r ∷ []) rs

-- What the loop over the answers keeps: the best record, its subnets, and every reason.
pub record Merged (F : Type 0) : Type 0 where
  pub best : ScoreRecord F
  pub best_subnets : ℤ
  pub any : Bool
  pub reasons : List String

-- An answer without a last time means that the aggregator has no record.
unfoldable pub ask : {F : Type 0} → Option (EvidenceAggregate F) → Option (EvidenceAggregate F)
ask none = none
ask (some ev) = if is_zero ev.window_last then none else some ev

module _ {F : Type 0} ⦃f : Float F⦄ where
  unfoldable pub nothing_merged : Merged F
  nothing_merged = record { best = empty_record; best_subnets = ℤ.pos 0; any = false; reasons = [] }

  unfoldable pub merge : Merged F → ScoreRecord F → ℤ → Merged F
  unfolding add_reasons
  merge m rec subnets =
      if is_zero rec.last_seen
      then m
      else let better = not m.any || (m.best.score <? rec.score) in
        record {
          best = if better then rec else m.best;
          best_subnets = if better then subnets else m.best_subnets;
          any = true;
          reasons = add_reasons m.reasons rec.reasons;
        }

module _ {F : Type 0} ⦃f : Float F⦄ (itoa : ℕ → String) where
  unfoldable pub collect : Consumer F → Merged F → List (Answer F) → Merged F
  unfolding ask merge bucket
  collect c m [] = m
  collect c m ((answer, now) ∷ rest) = elim (ask answer) [
    | none ↦ collect c m rest
    | some ev ↦
        collect c
          (merge m (record_from_evidence itoa c ev now) (bucket "subnets" ev.diversity_buckets))
          rest
  ]

  -- The order of the merged reasons stands for the order in which `range` visits the set.
  unfoldable pub fanout : Consumer F → List (Answer F) → ScoreRecord F × ℤ × Bool
  unfolding collect nothing_merged
  fanout c answers =
      let m = collect c nothing_merged answers in
      (if m.any then record m.best { reasons = m.reasons } else m.best, m.best_subnets, m.any)

module _ {F : Type 0} where
  -- A negative answer lives for a fifth of the time.
  unfoldable pub entry_ttl : Duration → CacheEntry F → Duration
  entry_ttl ttl c = if not c.found then ttl / 5 else ttl

  unfoldable pub is_live : Duration → Time → CacheEntry F → Bool
  unfolding entry_ttl
  is_live ttl now c = ltb now (c.at + entry_ttl ttl c)

  unfoldable pub cached : Querier F → String → Time → Option (CacheEntry F)
  unfolding is_live
  cached q ip now = elim (lookup ip q.cache) [
    | none ↦ none
    | some c ↦ if is_live q.cache_ttl now c then some c else none
  ]

  unfoldable pub evict_locked : Querier F → Time → Querier F
  unfolding evict is_live
  evict_locked q now = record q {
    cache = evict (is_live q.cache_ttl now) (λ c. c.at) q.max_entries q.cache;
  }

  -- The second critical section: the answers are merged, now they are cached.
  unfoldable pub store_answer : Querier F → String → Time → ScoreRecord F × ℤ × Bool → Querier F
  unfolding evict_locked
  store_answer q ip now (entry, subnets, found) =
      let roomy = if leb q.max_entries (length q.cache) then evict_locked q now else q in
      record roomy {
        cache =
            insert ip (record { entry = entry; subnets = subnets; found = found; at = now })
              roomy.cache;
      }

module _ {F : Type 0} ⦃f : Float F⦄ (itoa : ℕ → String) where
  -- The answer for an IP, and the querier with it; `then_at` is when the answers are in.
  unfoldable pub query :
      Querier F → String → Time → Time → List (Answer F) → (ScoreRecord F × ℤ × Bool) × Querier F
  unfolding cached fanout store_answer
  query q ip now then_at answers = elim (cached q ip now) [
    | some c ↦ ((c.entry, c.subnets, c.found), q)
    | none ↦
        let merged = fanout itoa q.consumer answers in (merged, store_answer q ip then_at merged)
  ]
