-- ===== src/Rules/Tests.antt =====
-- Examples of rules and bursts.
use federloom.Prelude.{inl, ◌≡◌, ◌≢◌, refl, true, false, arith, [], ◌∷◌, none, some}
use federloom.Float.{Fixed, pos, fixed_float, Fixed-IsFloat}
use federloom.Proto.{ℤ, Event}
use federloom.Store.{ScoreRecord, empty_record}
use federloom.Rules.{
  Rule, RuleSet, RuleDisk, unparsable, parsed, action_block, action_watch, evaluate_rules,
  decide_action, RuleSet, lint_block_rules,
}
use federloom.Rules.Burst.{
  BurstStore, drop_before, count, record_burst, new_burst_store, count_after_shorter,
}
use federloom.Rules.Evaluation.{first_match, evaluate_rules_lem}
use federloom.Rules.Lint.{lint_clean_no_block}

abbrev probe : Event
probe = record {
  ip = "192.0.2.1";
  reason = "ssh-probe";
  timestamp = 1000;
  reporter_id = "p1";
  signature = [];
  subnet_id = "";
  origin_trace = [];
  vouch = none;
  kind = "";
}

abbrev blocking : Rule Fixed
blocking = record {
  name = "ssh";
  reason = "ssh-*";
  min_score = pos 50000;
  min_corroboration = 1;
  anchored_only = false;
  min_burst = 0;
  burst_window = ℤ.pos 0;
  action = action_block;
}

abbrev bursty : Rule Fixed
bursty = record blocking {
  name = "burst";
  min_score = pos 0;
  min_corroboration = 0;
  min_burst = 2;
  burst_window = ℤ.pos 60;
}

abbrev watching : Rule Fixed
watching = record bursty {
  name = "watch";
  min_burst = 1;
  burst_window = ℤ.pos 30;
  action = action_watch;
}

abbrev strange : ScoreRecord Fixed
strange = record empty_record { score = pos 20000; stranger_seen = true }

abbrev twice : BurstStore
twice =
    record_burst (record_burst new_burst_store "192.0.2.1" "ssh-probe" 900) "192.0.2.1" "ssh-probe"
      990

abbrev rule_set : RuleSet Fixed
rule_set = record {
  rules = blocking ∷ bursty ∷ [];
  path = "rules.yaml";
  last_stat = record { mtime = 1; size = 10 };
  fallback = pos 80000;
  stranger_cap = pos 20000;
  loaded = true;
}

abbrev new_file : RuleDisk Fixed
new_file = record {
  stat = some (record { mtime = 2; size = 12 });
  content = parsed (watching ∷ []);
}

abbrev broken_file : RuleDisk Fixed
broken_file = record new_file { content = unparsable }

evaluate_rules_lem_example :
    (evaluate_rules (bursty ∷ watching ∷ []) probe strange 1000 [] twice).0
    ≡ first_match (bursty ∷ watching ∷ []) probe strange twice 1000
evaluate_rules_lem_example =
    evaluate_rules_lem twice probe 1000 strange (bursty ∷ watching ∷ []) (ℤ.pos 60)
      ((λ h. omega arith), ((λ h. omega arith), tt))

abbrev two_rules : RuleSet Fixed
two_rules = record {
  rules = blocking ∷ bursty ∷ [];
  path = "rules.yaml";
  last_stat = record { mtime = 3; size = 4 };
  fallback = pos 10000;
  stranger_cap = pos 20000;
  loaded = true;
}

lint_clean_no_block_example :
    (decide_action two_rules probe strange new_burst_store 1000).0.0 ≢ action_block
unfolding lint_block_rules new_burst_store
lint_clean_no_block_example =
    lint_clean_no_block Fixed-IsFloat probe 1000 strange (pos 20000) refl refl refl refl two_rules
      new_burst_store refl (inl (λ h. cc)) refl

count_after_shorter_example :
    (count
      (count twice "192.0.2.1" "ssh-probe" (ℤ.pos 50) 1000).1
      "192.0.2.1"
      "ssh-probe"
      (ℤ.pos 200)
      1000).0
    ≡ (count twice "192.0.2.1" "ssh-probe" (ℤ.pos 50) 1000).0
count_after_shorter_example =
    count_after_shorter twice "192.0.2.1" "ssh-probe" (ℤ.pos 50) (ℤ.pos 200) 1000 1000 (omega arith)

-- the eviction shows: the longer window holds both times before the shorter one is counted
twice_counts : (count twice "192.0.2.1" "ssh-probe" (ℤ.pos 200) 1000).0 ≡ 2
unfolding count record_burst new_burst_store drop_before
twice_counts = refl
