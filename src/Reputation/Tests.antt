-- ===== src/Reputation/Tests.antt =====
-- Examples of reports and disputes, with numbers in thousandths.
use federloom.Prelude.{
  ◌≡◌, refl, true, false, if◌then◌else◌, arith, String, str_eq, List, [], ◌∷◌, ok,
}
use federloom.Float.{Fixed, pos, fixed_float, Fixed-IsFloat, ◌≼◌}
use federloom.Store.{ScoreRecord, ScoreStore, IsScoreStore, empty_record}
use federloom.Reputation.{Observation, accumulate, apply_dispute}
use federloom.Reputation.Scores.{budget_nonneg}
use federloom.Reputation.Invariant.{IsWellFormed, IsSound, empty-IsWellFormed}
use federloom.Reputation.History.{
  Timed, replay, replay_disputes, replay-IsWellFormed, stranger_score_capped,
  stranger_disputes_bounded,
}
use federloom.Reputation.Engine.{Engine}

abbrev cap : Fixed
cap = pos 20000

abbrev repeat : Fixed
repeat = pos 150

abbrev settings : IsSound cap repeat
settings = record { cap_range = (refl, refl); damps = (refl, refl) }

abbrev stranger : Observation Fixed
stranger = record {
  reason = "ssh-auth-bruteforce";
  reporter_id = "p1";
  group = "";
  trust = pos 100;
  anchored = false;
  subnet = "s1";
}

abbrev alice : Observation Fixed
alice = record stranger { reporter_id = "p2"; group = "alice"; trust = pos 1000; anchored = true }

abbrev reports : List (Timed Fixed)
reports = (stranger, 1000) ∷ (alice, 2000) ∷ []

abbrev empty : ScoreRecord Fixed
empty = empty_record

abbrev reported : ScoreRecord Fixed
reported = replay 1000 cap repeat reports empty

reported-IsWellFormed : IsWellFormed (Fixed-IsFloat.next_up cap) reported
reported-IsWellFormed =
    replay-IsWellFormed Fixed-IsFloat 1000 cap repeat settings reports empty
      ((refl, refl), ((refl, refl), tt))
      (empty-IsWellFormed Fixed-IsFloat (Fixed-IsFloat.next_up cap)
        (budget_nonneg Fixed-IsFloat cap refl refl))

stranger_score_capped_example :
    ((replay 1000 cap repeat ((stranger, 1000) ∷ (stranger, 1001) ∷ []) empty).score
      ≼ Fixed-IsFloat.next_up cap)
    × ((replay 1000 cap repeat ((stranger, 1000) ∷ (stranger, 1001) ∷ []) empty).corroboration ≡ 0)
stranger_score_capped_example =
    stranger_score_capped Fixed-IsFloat 1000 cap repeat settings
      ((stranger, 1000) ∷ (stranger, 1001) ∷ []) (refl, (refl, tt))
      ((refl, refl), ((refl, refl), tt))

stranger_disputes_bounded_example :
    ((replay_disputes 1000 cap repeat (pos 10000) ((stranger, 3000) ∷ []) reported).dispute_contrib
      ≼ Fixed-IsFloat.next_up cap)
    × ((replay_disputes 1000 cap repeat (pos 10000) ((stranger, 3000) ∷ []) reported).score
        ≼ reported.score)
    × ((replay_disputes 1000 cap repeat
          (pos 10000)
          ((stranger, 3000) ∷ [])
          reported).dispute_subnets_seen
        ≡ reported.dispute_subnets_seen)
stranger_disputes_bounded_example =
    stranger_disputes_bounded Fixed-IsFloat 1000 cap repeat settings (pos 10000)
      ((stranger, 3000) ∷ []) reported (refl, refl) (refl, tt) ((refl, refl), tt)
      reported-IsWellFormed

-- A store that is a function, and never fails.
abbrev memory : ScoreStore Fixed (String → ScoreRecord Fixed)
memory = record {
  get_score = λ s ip. ok (s ip);
  put_score = λ s ip r ttl. ok (λ k. if str_eq ip k then r else s k);
}

abbrev memory-IsScoreStore : IsScoreStore memory
memory-IsScoreStore = record {
  IsSound = λ s. Unit {0};
  put-IsSound = λ s t ip r ttl sound h. tt;
  get-put = λ s t ip other r ttl sound h. ground arith;
}

abbrev engine : Engine Fixed
engine = record {
  half_life = 1000;
  stranger_cap = cap;
  diversity_repeat = repeat;
  dispute_weight = pos 10000;
}

abbrev blank : String → ScoreRecord Fixed
blank ip = empty

-- The store after the report.
abbrev noted : String → ScoreRecord Fixed
noted k = if str_eq "192.0.2.1" k then accumulate empty stranger 1000 1000 cap repeat else blank k

abbrev disputed : String → ScoreRecord Fixed
disputed k =
    if str_eq "192.0.2.1" k
    then apply_dispute empty alice 3000 1000 (pos 10000) cap repeat
    else blank k
