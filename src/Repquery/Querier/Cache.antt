-- ===== src/Repquery/Querier/Cache.antt =====
-- internal/repquery/querier.go: the cache of merged answers.
use federloom.Prelude.{
  ℕ, ◌+◌, ◌/◌, ◌≤◌, ◌<◌, ◌≡◌, refl, inl, inr, Bool, Option-cases, if◌then◌else◌, arith, String,
  List, none, some, IsKeyed, length, length-insert-le, length-evict-lt, lookup, lookup-insert_self,
}
use federloom.Float.{Float}
use federloom.Proto.{ℤ, Time}
use federloom.Store.{ScoreRecord}
use federloom.Repquery.Querier.{
  Answer, Querier, CacheEntry, fanout, entry_ttl, is_live, cached, evict_locked, store_answer,
  query,
}

module _ {F : Type 0} where
  evict_locked-lt :
      (q : Querier F) (now : Time)
      → IsKeyed q.cache
      → 0 < q.max_entries
      → length q.cache ≤ q.max_entries
      → length (evict_locked q now).cache < q.max_entries
  unfolding evict_locked
  evict_locked-lt q now =
      length-evict-lt (is_live q.cache_ttl now) (λ c. c.at) q.max_entries q.cache

  store_answer-le :
      (q : Querier F) (ip : String) (now : Time) (a : ScoreRecord F × ℤ × Bool)
      → IsKeyed q.cache
      → 0 < q.max_entries
      → length q.cache ≤ q.max_entries
      → length (store_answer q ip now a).cache ≤ q.max_entries
  unfolding store_answer
  store_answer-le q ip now (entry, subnets, found) g h k =
      let fresh : CacheEntry F = record {
        entry = entry;
        subnets = subnets;
        found = found;
        at = now;
      } in
      ground (
        arith,
        evict_locked-lt q now g h k,
        length-insert-le ip fresh q.cache,
        length-insert-le ip fresh (evict_locked q now).cache,
      )

  lookup-store_answer :
      (q : Querier F) (ip : String) (now : Time) (entry : ScoreRecord F) (subnets : ℤ)
      (found : Bool)
      → (lookup ip (store_answer q ip now (entry, subnets, found)).cache
          ≡ some (record { entry = entry; subnets = subnets; found = found; at = now }))
        × ((store_answer q ip now (entry, subnets, found)).cache_ttl ≡ q.cache_ttl)
  unfolding store_answer evict_locked
  lookup-store_answer q ip now entry subnets found =
      let fresh : CacheEntry F = record {
        entry = entry;
        subnets = subnets;
        found = found;
        at = now;
      } in
      ground (
        arith,
        lookup-insert_self ip fresh q.cache,
        lookup-insert_self ip fresh (evict_locked q now).cache,
      )

  cached_live :
      (q : Querier F) (ip : String) (now : Time) (c : CacheEntry F)
      → lookup ip q.cache ≡ some c
      → now < c.at + (if c.found then q.cache_ttl else q.cache_ttl / 5)
      → cached q ip now ≡ some c
  unfolding cached is_live entry_ttl
  cached_live q ip now c there soon = ground (arith, there, soon)

  cached-store_answer :
      (q : Querier F) (ip : String) (now later : Time) (a : ScoreRecord F × ℤ × Bool)
      → later < now + (if a.2 then q.cache_ttl else q.cache_ttl / 5)
      → cached (store_answer q ip now a) ip later
        ≡ some (record { entry = a.0; subnets = a.1; found = a.2; at = now })
  cached-store_answer q ip now later (entry, subnets, found) soon =
      let (there, ttl) = lookup-store_answer q ip now entry subnets found in
      cached_live (store_answer q ip now (entry, subnets, found)) ip later _ there (rw ttl soon)

module _ {F : Type 0} ⦃f : Float F⦄ (itoa : ℕ → String) where
  query_miss :
      (q : Querier F) (ip : String) (now then_at : Time) (answers : List (Answer F))
      → cached q ip now ≡ none
      → query itoa q ip now then_at answers ≡ (
        fanout itoa q.consumer answers,
        store_answer q ip then_at (fanout itoa q.consumer answers),
      )
  unfolding query
  query_miss q ip now then_at answers missed = rw (missed, query) refl

  query_hit :
      (q : Querier F) (ip : String) (now then_at : Time) (answers : List (Answer F))
      (c : CacheEntry F)
      → cached q ip now ≡ some c
      → query itoa q ip now then_at answers ≡ ((c.entry, c.subnets, c.found), q)
  unfolding query
  query_hit q ip now then_at answers c hit = rw (hit, query) refl

  -- A querier whose cache has a positive bound, holds no more entries than it and no empty key
  -- keeps to its bound whatever is asked and whatever comes back.
  pub query_bounded :
      (q : Querier F) (ip : String) (now then_at : Time) (answers : List (Answer F))
      → IsKeyed q.cache
      → 0 < q.max_entries
      → length q.cache ≤ q.max_entries
      → length (query itoa q ip now then_at answers).1.cache ≤ q.max_entries
  unfolding query
  query_bounded q ip now then_at answers g h k = elim (Option-cases (cached q ip now)) [
    | inl missed ↦
        rw (length, missed) (store_answer-le q ip then_at (fanout itoa q.consumer answers) g h k)
    | inr (c, hit) ↦ rw (length, hit) k
  ]

  -- An answer that had to be asked for is given again, without asking and without a change to the
  -- querier, as long as its time to live has not passed: the cache's, or a fifth of it for an
  -- answer that found nothing.
  pub query_again :
      (q : Querier F) (ip : String) (now then_at later later_still : Time)
      (answers others : List (Answer F))
      → cached q ip now ≡ none
      → let (best, subnets, found) = fanout itoa q.consumer answers in
        later < then_at + (if found then q.cache_ttl else q.cache_ttl / 5)
        → let (result, after) = query itoa q ip now then_at answers in
          (result ≡ fanout itoa q.consumer answers)
          × (query itoa after ip later later_still others ≡ (result, after))
  query_again q ip now then_at later later_still answers others missed soon =
      rw (query_miss q ip now then_at answers missed) (
        refl,
        query_hit _ ip later later_still others _
            (cached-store_answer q ip then_at later (fanout itoa q.consumer answers) soon),
      )
