-- ===== src/Repquery/Querier/Tests.antt =====
-- Two aggregators, one of which has nothing, and a cache of two entries.
use mathlib.Core.List.{Memᴰ}
use federloom.Prelude.{
  ℕ, ◌≡◌, refl, true, false, String, List, [], ◌∷◌, none, some, All, contains_string, IsDistinct,
}
use federloom.Float.{Fixed, pos, fixed_float, Fixed-IsFloat, ◌≼◌}
use federloom.Proto.{ℤ, EvidenceAggregate}
use federloom.Store.{empty_record}
use federloom.Repquery.{Consumer, record_from_evidence}
use federloom.Repquery.Querier.{Answer, CacheEntry, Querier, fanout}
use federloom.Repquery.Querier.Laws.{IsOneOf, IsAnonymous, fanout_lem}

abbrev consumer : Consumer Fixed
consumer = record {
  half_life = 1000;
  stranger_cap = pos 20000;
  federation_discount = pos 500;
  diversity_repeat = pos 150;
  dispute_weight = pos 10000;
}

abbrev evidence : EvidenceAggregate Fixed
evidence = record {
  ip = "192.0.2.1";
  scenarios = "ssh-probe" ∷ "ssh-auth-bruteforce" ∷ [];
  window_first = 1000;
  window_last = 2000;
  diversity_buckets = ("groups", ℤ.pos 3) ∷ ("subnets", ℤ.pos 2) ∷ [];
  strangers_present = true;
  evidence_weight = pos 5000;
}

abbrev nothing : EvidenceAggregate Fixed
nothing = record evidence { window_last = 0; scenarios = [] }

abbrev answers : List (Answer Fixed)
answers =
    (some nothing, 2400)
    ∷ (some evidence, 2500)
    ∷ (none, 2600)
    ∷ (some (record evidence { scenarios = "http-probe" ∷ [] }), 2700)
    ∷ []

abbrev digits : ℕ → String
digits n = "n"

fanout_lem_example :
    let (best, subnets, found) = fanout digits consumer answers in
    (found ≡ true)
    × IsOneOf digits consumer answers best.score subnets
    × ((record_from_evidence digits consumer evidence 2500).score ≼ best.score)
    × All (λ s. contains_string best.reasons s ≡ true) ("ssh-probe" ∷ "ssh-auth-bruteforce" ∷ [])
    × IsDistinct best.reasons
    × IsAnonymous best
fanout_lem_example =
    fanout_lem Fixed-IsFloat digits consumer
      (record { cap_range = (refl, refl); damps = (refl, refl) }) (refl, refl) (refl, refl) answers
      evidence 2500 (Memᴰ.tail (Memᴰ.head refl)) refl

abbrev old : CacheEntry Fixed
old = record { entry = empty_record; subnets = ℤ.pos 0; found = false; at = 2000 }

abbrev full : Querier Fixed
full = record {
  cache_ttl = 500;
  max_entries = 2;
  consumer = consumer;
  cache = ("192.0.2.7", old) ∷ ("192.0.2.8", record old { at = 2350 }) ∷ [];
}
