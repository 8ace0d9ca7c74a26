-- ===== src/Rules.antt =====
-- internal/rules/rule.go: the rules, their evaluation with the memo of burst counts, the hot reload
-- of the rule file, and the checks made when it is loaded.
pub mod Burst
pub mod Matching
pub mod Evaluation
pub mod Lint
mod Tests
use Prim.Native.Char.{code}
use Prim.Native.String as Text
use mathlib.Core.Option
use text.Mathlib.Text.{starts_with}
use federloom.Prelude.{
  ℕ, ◌≡◌, Bool, true, false, ◌&&◌, ◌||◌, not, if◌then◌else◌, ltb, leb, ◌==◌, String, str_eq, List,
  [], ◌∷◌, Option, none, some,
}
use federloom.Float.{Float, num, ◌<?◌, ◌≤?◌}
use federloom.Proto.{Time, Duration, Event, ℤ}
use federloom.Store.{ScoreRecord}
use federloom.Rules.Burst.{BurstStore, count}

-- An `Action` is a string, since it is read from the file.
abbrev pub Action : Type 0
Action = String

abbrev pub action_block : Action
action_block = "block"

abbrev pub action_watch : Action
action_watch = "watch"

abbrev pub action_ignore : Action
action_ignore = "ignore"

abbrev pub action_none : Action
action_none = ""

-- The counts are Go's `int`; a negative one is not set, as 0 is not.
pub record Rule (F : Type 0) : Type 0 where
  pub name : String
  pub reason : String
  pub min_score : F
  pub min_corroboration : ℕ
  pub anchored_only : Bool
  pub min_burst : ℕ
  pub burst_window : ℤ
  pub action : Action

-- `strings.TrimSuffix(pattern, "*")`, if the pattern has the suffix.
unfoldable pub strip_star : String → Option String
strip_star Text.[] = none
strip_star (Text.◌∷◌ c Text.[]) = if code c == b'*' then some "" else none
strip_star (Text.◌∷◌ c (Text.◌∷◌ d r)) = Option.map (λ p. Text.◌∷◌ c p) (strip_star (Text.◌∷◌ d r))

unfoldable pub match_reason : String → String → Bool
match_reason pattern reason = elim (strip_star pattern) [
  | some prefix ↦ starts_with reason prefix
  | none ↦ str_eq pattern reason
]

-- `burstCache`: the counts made so far in this evaluation, by reason and window.
abbrev pub BurstCache : Type 0
BurstCache = List ((String × ℤ) × ℕ)

abbrev pub same_window : ℤ → ℤ → Bool
same_window (ℤ.pos v) (ℤ.pos w) = v == w
same_window (ℤ.pos v) (ℤ.negsuc w) = false
same_window (ℤ.negsuc v) (ℤ.pos w) = false
same_window (ℤ.negsuc v) (ℤ.negsuc w) = v == w

unfoldable pub cached : String → ℤ → BurstCache → Option ℕ
cached reason window [] = none
cached reason window (((r, w), n) ∷ cache) =
    if str_eq r reason && same_window w window then some n else cached reason window cache

-- The count from the memo, or a fresh one that is put in it.
unfoldable pub memo_count : Event → ℤ → Time → BurstCache → BurstStore → ℕ × BurstCache × BurstStore
unfolding cached
memo_count e window now cache b = elim (cached e.reason window cache) [
  | some n ↦ (n, cache, b)
  | none ↦
      let (n, b') = count b e.ip e.reason window now in (n, ((e.reason, window), n) ∷ cache, b')
]

module _ {F : Type 0} ⦃f : Float F⦄ where
  -- The conditions of a rule that look at the event and the record alone.
  unfoldable pub record_matches : Rule F → Event → ScoreRecord F → Bool
  record_matches r e rec =
      (str_eq r.reason "" || match_reason r.reason e.reason)
      && not ((num 0 <? r.min_score) && (rec.score <? r.min_score))
      && not (ltb 0 r.min_corroboration && ltb rec.corroboration r.min_corroboration)
      && not (r.anchored_only && rec.stranger_seen)

  -- Whether a rule matches; the burst window is counted only if all else does.
  unfoldable pub try_rule :
      Rule F
      → Event
      → ScoreRecord F
      → Time
      → BurstCache
      → BurstStore
      → Bool × BurstCache × BurstStore
  try_rule r e rec now cache b =
      if not (record_matches r e rec)
      then (false, cache, b)
      else if not (ltb 0 r.min_burst)
      then (true, cache, b)
      else let (n, cache', b') = memo_count e r.burst_window now cache b in
        (leb r.min_burst n, cache', b')

  -- The loop over the rules: the first that matches wins.
  unfoldable pub evaluate_rules :
      List (Rule F)
      → Event
      → ScoreRecord F
      → Time
      → BurstCache
      → BurstStore
      → (Action × String) × BurstStore
  evaluate_rules [] e rec now cache b = ((action_none, ""), b)
  evaluate_rules (r ∷ rs) e rec now cache b =
      let (hit, cache', b') = try_rule r e rec now cache b in
      elim hit [ true ↦ ((r.action, r.name), b') | false ↦ evaluate_rules rs e rec now cache' b' ]

  -- Rules that would misbehave are dropped when the file is loaded.
  abbrev pub is_valid_rule : Rule F → Bool
  is_valid_rule r =
      not (ltb 0 r.min_burst && same_window r.burst_window (ℤ.pos 0))
      && (str_eq r.action action_block
          || str_eq r.action action_watch
          || str_eq r.action action_ignore)

  unfoldable pub validate_rules : List (Rule F) → List (Rule F)
  validate_rules [] = []
  validate_rules (r ∷ rs) =
      let rest = validate_rules rs in if is_valid_rule r then r ∷ rest else rest

  -- The names of the block rules that could fire on the reports of strangers: the warnings.
  unfoldable pub lint_block_rules : List (Rule F) → F → List String
  lint_block_rules [] stranger_cap = []
  lint_block_rules (r ∷ rs) stranger_cap =
      let safe =
        leb 1 r.min_corroboration
        || r.anchored_only
        || leb 1 r.min_burst
        || (stranger_cap <? r.min_score) in
      let rest = lint_block_rules rs stranger_cap in
      if str_eq r.action action_block && not safe then r.name ∷ rest else rest

-- The change signal of a watched file.
pub record FileStat : Type 0 where
  pub mtime : Time
  pub size : ℕ

abbrev pub same_stat : FileStat → FileStat → Bool
same_stat a b = a.mtime == b.mtime && a.size == b.size

-- What reading the rule file gives. The YAML parser is a library: its answer is `parsed` or
-- `unparsable`.
pub data RuleFile (F : Type 0) : Type 0 where
  unreadable : RuleFile F
  unparsable : RuleFile F
  parsed : List (Rule F) → RuleFile F

-- The file system as the rule set sees it: the status of its path, and what reading it gives.
pub record RuleDisk (F : Type 0) : Type 0 where
  pub stat : Option FileStat
  pub content : RuleFile F

pub record RuleSet (F : Type 0) : Type 0 where
  pub rules : List (Rule F)
  pub path : String
  pub last_stat : FileStat
  pub fallback : F
  pub stranger_cap : F
  pub loaded : Bool

module _ {F : Type 0} ⦃f : Float F⦄ where
  -- On a file that cannot be read or parsed the last good rules stay.
  unfoldable pub install : RuleSet F → Option FileStat → RuleFile F → RuleSet F
  install rs stat unreadable = rs
  install rs stat unparsable = rs
  install rs none (parsed loaded) = record rs { rules = validate_rules loaded; loaded = true }
  install rs (some st) (parsed loaded) = record rs {
    rules = validate_rules loaded;
    loaded = true;
    last_stat = st;
  }

  unfoldable pub reload : RuleSet F → RuleDisk F → RuleSet F
  unfolding install
  reload rs disk = if str_eq rs.path "" then rs else install rs disk.stat disk.content

  unfoldable pub maybe_reload : RuleSet F → RuleDisk F → RuleSet F
  maybe_reload rs disk = if str_eq rs.path "" then rs else elim disk.stat [
    | none ↦ rs
    | some cur ↦ if same_stat cur rs.last_stat then rs else reload rs disk
  ]

  -- `Load`, whose advisory log lines are left out.
  unfoldable pub load : String → F → F → RuleDisk F → RuleSet F
  load path fallback_threshold stranger_score_cap disk =
      reload
        (record {
          rules = [];
          path = path;
          last_stat = record { mtime = 0; size = 0 };
          fallback = fallback_threshold;
          stranger_cap = stranger_score_cap;
          loaded = false;
        })
        disk

  -- The decision on the loaded rules; with none, the score alone decides.
  unfoldable pub decide_action :
      RuleSet F → Event → ScoreRecord F → BurstStore → Time → (Action × String) × BurstStore
  decide_action rs e rec b now = elim rs.rules [
    | [] ↦ (if rs.fallback ≤? rec.score then (action_block, "") else (action_none, ""), b)
    | r ∷ rest ↦ evaluate_rules (r ∷ rest) e rec now [] b
  ]

  unfoldable pub evaluate :
      RuleSet F
      → RuleDisk F
      → Event
      → ScoreRecord F
      → BurstStore
      → Time
      → RuleSet F × (Action × String) × BurstStore
  evaluate rs disk e rec b now =
      let rs' = maybe_reload rs disk in
      let (verdict, b') = decide_action rs' e rec b now in (rs', verdict, b')
