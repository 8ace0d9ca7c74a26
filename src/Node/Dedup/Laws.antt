-- ===== src/Node/Dedup/Laws.antt =====
-- The cache stays within its bound, and remembers a key for its time to live.
use federloom.Prelude.{
  ◌+◌, ◌≤◌, ◌<◌, ◌≡◌, refl, ap, true, false, ltb, lt→ltb, arith, String, eq_iff, List, [], ◌∷◌,
  some, lookup, length, All, lookup-insert, lookup-insert_self, length-insert-le, IsKeyed,
  length-evict-lt,
}
use federloom.Proto.{Time}
use federloom.Node.Dedup.{DedupCache, evict_oldest_locked, mark_seen}

-- An eviction at a full cache makes room.
evict-lt :
    (d : DedupCache) (now : Time)
    → IsKeyed d.seen
    → 0 < d.max
    → length d.seen ≤ d.max
    → length (evict_oldest_locked d now).seen < d.max
unfolding evict_oldest_locked
evict-lt d now = length-evict-lt (λ at. ltb now (at + d.ttl)) (λ at. at) d.max d.seen

-- A cache with a positive bound, that holds no more entries than its bound and no empty key, holds
-- no more than its bound after any key is marked.
pub mark_seen_bounded :
    (d : DedupCache) (key : String) (now : Time)
    → IsKeyed d.seen
    → 0 < d.max
    → length d.seen ≤ d.max
    → length (mark_seen d key now).1.seen ≤ d.max
unfolding mark_seen
mark_seen_bounded d key now g h k = ground (
  arith,
  evict-lt d now g h k,
  length-insert-le key now d.seen,
  length-insert-le key now (evict_oldest_locked d now).seen,
)

settings-evict :
    (d : DedupCache) (now : Time)
    → ((evict_oldest_locked d now).ttl ≡ d.ttl) × ((evict_oldest_locked d now).max ≡ d.max)
unfolding evict_oldest_locked
settings-evict d now = (refl, refl)

settings-mark_seen :
    (d : DedupCache) (key : String) (now : Time)
    → ((mark_seen d key now).1.ttl ≡ d.ttl) × ((mark_seen d key now).1.max ≡ d.max)
unfolding mark_seen
settings-mark_seen d key now = ground (arith, settings-evict d now)

mark_seen_new :
    (d : DedupCache) (key : String) (now : Time)
    → (mark_seen d key now).0 ≡ false
    → lookup key (mark_seen d key now).1.seen ≡ some now
unfolding mark_seen
mark_seen_new d key now new = ground (
  arith,
  lookup-insert_self key now d.seen,
  lookup-insert_self key now (evict_oldest_locked d now).seen,
)

mark_seen_known :
    (d : DedupCache) (key : String) (at now : Time)
    → lookup key d.seen ≡ some at
    → now < at + d.ttl
    → mark_seen d key now ≡ (true, d)
unfolding mark_seen
mark_seen_known d key at now there soon = rw (there, mark_seen, lt→ltb now (at + d.ttl) soon)

-- Below the bound, marking any key leaves what is known of an unexpired key.
mark_seen_keeps :
    (d : DedupCache) (key other : String) (at now : Time)
    → lookup key d.seen ≡ some at
    → now < at + d.ttl
    → length d.seen < d.max
    → lookup key (mark_seen d other now).1.seen ≡ some at
unfolding mark_seen
mark_seen_keeps d key other at now there soon room =
    ground (arith, lookup-insert other key now d.seen, eq_iff other key)

length-mark_seen-le :
    (d : DedupCache) (key : String) (now : Time)
    → length d.seen < d.max
    → length (mark_seen d key now).1.seen ≤ length d.seen + 1
unfolding mark_seen
length-mark_seen-le d key now room = ground (arith, length-insert-le key now d.seen)

-- The cache after marking each key of a list at its time.
pub mark_all : DedupCache → List (String × Time) → DedupCache
mark_all d [] = d
mark_all d ((k, t) ∷ rest) = mark_all (mark_seen d k t).1 rest

still_known :
    (d : DedupCache) (key : String) (at later : Time) (others : List (String × Time))
    → lookup key d.seen ≡ some at
    → All (λ o. o.1 < at + d.ttl) others
    → length d.seen + length others ≤ d.max
    → later < at + d.ttl
    → (mark_seen (mark_all d others) key later).0 ≡ true
unfolding mark_all
still_known d key at later [] there soon room last =
    ap (λ r. r.0) (mark_seen_known d key at later there last)
still_known d key at later ((k, t) ∷ rest) there soon room last =
    let (ttl, max) = settings-mark_seen d k t in
    still_known (mark_seen d k t).1 key at later rest
      (mark_seen_keeps d key k at t there soon.0 (omega arith)) (rw ttl soon.1)
      (omega (arith, length-mark_seen-le d k t (omega arith), max)) (omega (arith, ttl))

-- An event key that was new is recognised again whatever keys are marked in between, as long as
-- its time to live has not passed and the cache does not fill up.
pub mark_seen_again :
    (d : DedupCache) (key : String) (now later : Time) (others : List (String × Time))
    → (mark_seen d key now).0 ≡ false
    → All (λ o. o.1 < now + d.ttl) others
    → length d.seen + length others < d.max
    → later < now + d.ttl
    → (mark_seen (mark_all (mark_seen d key now).1 others) key later).0 ≡ true
mark_seen_again d key now later others new soon room last =
    let (ttl, max) = settings-mark_seen d key now in
    still_known (mark_seen d key now).1 key now later others (mark_seen_new d key now new)
      (rw ttl soon) (omega (arith, length-mark_seen-le d key now (omega arith), max))
      (omega (arith, ttl))
