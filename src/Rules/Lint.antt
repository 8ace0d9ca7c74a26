-- ===== src/Rules/Lint.antt =====
-- What the checks at load time give: the rules kept are well configured, and a rule set with no
-- warning blocks nobody on the reports of strangers.
use federloom.Prelude.{
  ◌≡◌, ◌≢◌, refl, ◌∙◌, ◌⊎◌, inl, inr, Bool, true, false, ◌||◌, Bool-cases, arith, ltb, leb,
  false≢true, sym, str_eq, eq_iff, eq_refl, List, [], ◌∷◌, Option, none, some, All,
}
use federloom.Float.{Float, IsFloat, num, ◌≼◌, ◌<?◌, ◌≤?◌}
use federloom.Proto.{Time, Event, ℤ}
use federloom.Store.{ScoreRecord}
use federloom.Rules.Burst.{BurstStore, count_idle}
use federloom.Rules.{
  action_none, action_block, Rule, BurstCache, cached, memo_count, record_matches, try_rule,
  evaluate_rules, is_valid_rule, validate_rules, lint_block_rules, RuleSet, RuleDisk, RuleFile,
  unreadable, unparsable, parsed, decide_action, FileStat, install, reload, maybe_reload,
}

List-cases : {A : Type 0} (xs : List A) → (xs ≡ []) ⊎ ((x : A) × (ys : List A) × (xs ≡ x ∷ ys))
List-cases [] = inl refl
List-cases (x ∷ xs) = inr (x, xs, refl)

-- Nothing is recorded for the event's key, and the memo knows no count of it but 0.
record IsIdle (e : Event) (cache : BurstCache) (b : BurstStore) : Type 0 where
  store : b e.ip e.reason ≡ []
  memo : (w : ℤ) → (cached e.reason w cache ≡ none) ⊎ (cached e.reason w cache ≡ some 0)

memo_count-IsIdle :
    (e : Event) (w : ℤ) (now : Time) (cache : BurstCache) (b : BurstStore)
    → IsIdle e cache b
    → ((memo_count e w now cache b).0 ≡ 0)
      × IsIdle e (memo_count e w now cache b).1 (memo_count e w now cache b).2
unfolding memo_count
memo_count-IsIdle e w now cache b idle = elim (idle.memo w) [
  | inl absent ↦
      let (zero_count, still) = count_idle b e.ip e.reason w now idle.store in
      rw (absent, memo_count)
        (
          zero_count,
          record {
            store = still;
            memo = λ v. ground (arith, eq_refl e.reason, zero_count, idle.memo v);
          },
        )
  | inr there ↦ rw (there, memo_count) (refl, idle)
]

module _ {F : Type 0} ⦃f : Float F⦄ (L : IsFloat F) (e : Event) (now : Time) (rec : ScoreRecord F)
    (cap : F) (capped : rec.score ≼ cap) (settled : num 0 ≼ cap) (unbacked : rec.corroboration ≡ 0)
    (strange : rec.stranger_seen ≡ true) where
  -- A block rule with no warning does not match, and any rule leaves the counts idle.
  try_rule-IsIdle :
      (r : Rule F) (cache : BurstCache) (b : BurstStore)
      → IsIdle e cache b
      → IsIdle e (try_rule r e rec now cache b).1 (try_rule r e rec now cache b).2
  unfolding try_rule
  try_rule-IsIdle r cache b idle = elim (Bool-cases (record_matches r e rec)) [
    | inr misses ↦ simp misses idle
    | inl matches ↦ elim (Bool-cases (ltb 0 r.min_burst)) [
      | inr unbursty ↦ simp (matches, unbursty) idle
      | inl bursty ↦
          simp (matches, bursty) ((memo_count-IsIdle e r.burst_window now cache b idle).1)
    ]
  ]

  score_too_low : (r : Rule F) → (cap <? r.min_score) ≡ true → record_matches r e rec ≡ false
  unfolding record_matches
  score_too_low r h = ground (
    arith,
    L.lt_of_le_of_lt (num 0) cap r.min_score settled h,
    L.lt_of_le_of_lt rec.score cap r.min_score capped h,
  )

  abbrev safe : Rule F → Bool
  safe r = leb 1 r.min_corroboration || r.anchored_only || leb 1 r.min_burst || (cap <? r.min_score)

  -- A safe rule that matches the record asks for a burst.
  safe_rule_bursty :
      (r : Rule F) → safe r ≡ true → record_matches r e rec ≡ true → ltb 0 r.min_burst ≡ true
  safe_rule_bursty r h m = elim (Bool-cases (cap <? r.min_score)) [
    | inl high ↦ cc (score_too_low r high)
    | inr low ↦ unfold record_matches in ground arith
  ]

  safe_rule_misses :
      (r : Rule F) (cache : BurstCache) (b : BurstStore)
      → IsIdle e cache b
      → safe r ≡ true
      → (try_rule r e rec now cache b).0 ≡ false
  unfolding try_rule
  safe_rule_misses r cache b idle h = elim (Bool-cases (record_matches r e rec)) [
    | inr misses ↦ simp misses
    | inl matches ↦
        let bursty = safe_rule_bursty r h matches in
        let none_seen = (memo_count-IsIdle e r.burst_window now cache b idle).0 in
        simp (matches, bursty, none_seen) (ground arith)
  ]

  lint_cons :
      (r : Rule F) (rs : List (Rule F))
      → lint_block_rules (r ∷ rs) cap ≡ []
      → (lint_block_rules rs cap ≡ []) × (str_eq r.action action_block ≡ true → safe r ≡ true)
  unfolding lint_block_rules
  lint_cons r rs clean = (ground arith, λ blocks. ground arith)

  evaluate_rules_safe :
      (rs : List (Rule F)) (cache : BurstCache) (b : BurstStore)
      → lint_block_rules rs cap ≡ []
      → IsIdle e cache b
      → (evaluate_rules rs e rec now cache b).0.0 ≢ action_block
  unfolding evaluate_rules
  evaluate_rules_safe [] cache b clean idle =
      λ h. false≢true ((eq_iff action_none action_block).1 h)
  evaluate_rules_safe (r ∷ rs) cache b clean idle =
      let (clean_rest, safe_if_block) = lint_cons r rs clean in
      let rest =
        evaluate_rules_safe rs (try_rule r e rec now cache b).1 (try_rule r e rec now cache b).2
          clean_rest (try_rule-IsIdle r cache b idle) in
      elim (Bool-cases (try_rule r e rec now cache b).0) [
        | inr miss ↦ rw (miss, evaluate_rules) rest
        | inl hit ↦
            rw (hit, evaluate_rules)
              (λ blocks. false≢true (
                sym (safe_rule_misses r cache b idle (safe_if_block ((eq_iff _ _).1 blocks)))
                ∙ hit))
      ]

  rules_no_block :
      (rs : List (Rule F)) (b : BurstStore)
      → lint_block_rules rs cap ≡ []
      → b e.ip e.reason ≡ []
      → (evaluate_rules rs e rec now [] b).0.0 ≢ action_block
  unfolding cached
  rules_no_block rs b clean idle =
      evaluate_rules_safe rs [] b clean (record { store = idle; memo = λ w. inl refl })

  below_fallback : (threshold : F) → (cap <? threshold) ≡ true → (threshold ≤? rec.score) ≡ false
  below_fallback threshold high =
      let low = L.lt_of_le_of_lt rec.score cap threshold capped high in
      ground (arith, low, L.not_lt_of_le threshold rec.score)

  -- With a stranger cap that is not negative: the decision on rules that load with no warning, or
  -- on no rules where the legacy threshold is above the cap, never blocks an IP that only strangers
  -- have reported, whose score is within the cap, with no corroboration, marked as seen by
  -- strangers, and with no burst recorded for the event's IP and reason.
  pub lint_clean_no_block :
      (rs : RuleSet F) (b : BurstStore)
      → lint_block_rules rs.rules cap ≡ []
      → (rs.rules ≢ []) ⊎ ((cap <? rs.fallback) ≡ true)
      → b e.ip e.reason ≡ []
      → (decide_action rs e rec b now).0.0 ≢ action_block
  unfolding decide_action
  lint_clean_no_block rs b clean armed idle = elim (List-cases rs.rules) [
    | inr (r, rest, listed) ↦
        rw (listed, decide_action) (rules_no_block (r ∷ rest) b (rw listed at clean) idle)
    | inl empty ↦ elim armed [
      | inl some_rule ↦ absurd (some_rule empty)
      | inr high ↦
          rw (empty, decide_action, below_fallback rs.fallback high)
            (λ h. false≢true ((eq_iff action_none action_block).1 h))
    ]
  ]

module _ {F : Type 0} ⦃f : Float F⦄ where
  abbrev pub IsValidRule : Rule F → Type 0
  IsValidRule r = is_valid_rule r ≡ true

  validate_rules_valid : (rs : List (Rule F)) → All IsValidRule (validate_rules rs)
  unfolding validate_rules
  validate_rules_valid [] = tt
  validate_rules_valid (r ∷ rs) = elim (Bool-cases (is_valid_rule r)) [
    | inl good ↦ rw (good, validate_rules) (good, validate_rules_valid rs)
    | inr bad ↦ rw (bad, validate_rules) (validate_rules_valid rs)
  ]

  install-valid :
      (rs : RuleSet F) (disk : RuleDisk F)
      → All IsValidRule rs.rules
      → All IsValidRule (install rs disk.stat disk.content).rules
  unfolding install
  install-valid rs disk h = go disk.stat disk.content
    where
      go : (s : Option FileStat) (c : RuleFile F) → All IsValidRule (install rs s c).rules
      go s unreadable = h
      go s unparsable = h
      go none (parsed loaded) = validate_rules_valid loaded
      go (some st) (parsed loaded) = validate_rules_valid loaded

  -- If every rule in force is valid, then whatever the rule file becomes, every rule in force stays
  -- valid: it has a window if it counts bursts, and one of the three known actions.
  pub maybe_reload-valid :
      (rs : RuleSet F) (disk : RuleDisk F)
      → All IsValidRule rs.rules
      → All IsValidRule (maybe_reload rs disk).rules
  unfolding maybe_reload reload
  maybe_reload-valid rs disk h = ground (arith, install-valid rs disk h)

  -- A file that is gone, cannot be read or parsed, or has the status it had when it was last
  -- loaded, leaves the rule set as it was.
  pub maybe_reload_keeps :
      (rs : RuleSet F) (disk : RuleDisk F)
      → (disk.content ≡ unreadable)
        ⊎ (disk.content ≡ unparsable)
        ⊎ (disk.stat ≡ none)
        ⊎ (disk.stat ≡ some rs.last_stat)
      → maybe_reload rs disk ≡ rs
  unfolding maybe_reload reload install
  maybe_reload_keeps rs disk c = ground arith
