-- ===== src/Node/Dedup/Tests.antt =====
-- Examples of a cache of events.
use federloom.Prelude.{◌≤◌, arith, length}
use federloom.Node.Dedup.{DedupCache, new_dedup_cache, mark_seen}
use federloom.Node.Dedup.Laws.{mark_seen_bounded}

abbrev small : DedupCache
small = new_dedup_cache 3 100

mark_seen_bounded_example : length (mark_seen small "p1|192.0.2.1||t" 10).1.seen ≤ 3
unfolding new_dedup_cache
mark_seen_bounded_example =
    mark_seen_bounded small "p1|192.0.2.1||t" 10 tt (omega arith) (omega arith)
