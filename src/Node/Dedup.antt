-- ===== src/Node/Dedup.antt =====
-- internal/node/dedup.go: the bounded cache of event keys. Its map is an association list whose
-- order stands for the order of `range`; `now.Sub(at) < ttl` is written `now < at + ttl`, which
-- agrees while the difference of two times fits Go's `Duration`.
pub mod Laws
mod Tests
use Prim.Native.String as Text
use federloom.Prelude.{
  ℕ, ◌+◌, Bool, true, false, if◌then◌else◌, ltb, leb, String, str_eq, List, [], ◌∷◌, Option, none,
  some, Assoc, lookup, insert, evict, length,
}
use federloom.Proto.{Time, Duration}

-- `ts.UTC().Format(time.RFC3339Nano)` is the parameter.
unfoldable pub dedup_key : (Time → String) → String → String → String → Time → String
dedup_key format reporter_id ip reason ts =
    Text.◌++◌ reporter_id
      (Text.◌++◌ "|" (Text.◌++◌ ip (Text.◌++◌ "|" (Text.◌++◌ reason (Text.◌++◌ "|" (format ts))))))

pub record DedupCache : Type 0 where
  pub max : ℕ
  pub ttl : Duration
  pub seen : Assoc Time

unfoldable pub new_dedup_cache : ℕ → Duration → DedupCache
new_dedup_cache max ttl = record { max = max; ttl = ttl; seen = [] }

unfoldable pub evict_oldest_locked : DedupCache → Time → DedupCache
unfolding evict
evict_oldest_locked d now = record d {
  seen = evict (λ at. ltb now (at + d.ttl)) (λ at. at) d.max d.seen;
}

abbrev pub is_fresh : Duration → Time → Option Time → Bool
is_fresh ttl now none = false
is_fresh ttl now (some at) = ltb now (at + ttl)

-- Whether the key was already there, and the cache with it.
unfoldable pub mark_seen : DedupCache → String → Time → Bool × DedupCache
mark_seen d key now =
    let roomy = if leb d.max (length d.seen) then evict_oldest_locked d now else d in
    if is_fresh d.ttl now (lookup key d.seen)
    then (true, d)
    else (false, record roomy { seen = insert key now roomy.seen })
