-- ===== src/Repquery/Tests.antt =====
-- An answer of another node, scored with numbers in thousandths.
use federloom.Prelude.{◌≡◌, refl, true, if◌then◌else◌, [], ◌∷◌}
use federloom.Float.{Fixed, pos, fixed_float, Fixed-IsFloat, InRange, num}
use federloom.Proto.{ℤ, EvidenceAggregate, is_zero}
use federloom.Reputation.{decay_score}
use federloom.Repquery.{Consumer, folded, record_from_evidence}
use federloom.Repquery.Recompute.{record_from_evidence_lem}

abbrev consumer : Consumer Fixed
consumer = record {
  half_life = 1000;
  stranger_cap = pos 20000;
  federation_discount = pos 500;
  diversity_repeat = pos 150;
  dispute_weight = pos 10000;
}

abbrev evidence : EvidenceAggregate Fixed
evidence = record {
  ip = "192.0.2.1";
  scenarios = "ssh-probe" ∷ "ssh-auth-bruteforce" ∷ [];
  window_first = 1000;
  window_last = 2000;
  diversity_buckets = ("groups", ℤ.pos 3) ∷ ("subnets", ℤ.pos 2) ∷ [];
  strangers_present = true;
  evidence_weight = pos 5000;
}

record_from_evidence_lem_example :
    let r = record_from_evidence (λ n. "n") consumer evidence 2500 in
    (r.groups ≡ [])
    × (r.reporter_ids ≡ [])
    × (r.corroboration ≡ 0)
    × InRange (num 100) r.score
    × (r.score ≡ (
        if is_zero 2000
        then num 0
        else decay_score (folded (λ n. "n") consumer evidence).score 2000 2500 1000))
record_from_evidence_lem_example =
    record_from_evidence_lem Fixed-IsFloat (λ n. "n") consumer
      (record { cap_range = (refl, refl); damps = (refl, refl) }) (refl, refl) (refl, refl) evidence
      2500
