-- ===== src/Rules/Evaluation.antt =====
-- The evaluation against its specification: the first rule that holds, by counts of the burst
-- store as it stood before. The memo and the eviction do not show as long as no rule looks back
-- further than a rule above it.
use federloom.Prelude.{
  ℕ, ◌≤◌, ◌<◌, ◌≡◌, refl, ap, ◌∙◌, ◌⊎◌, inl, inr, Bool, true, false, ◌&&◌, ◌||◌, not, Bool-cases,
  if◌then◌else◌, arith, ltb, leb, String, eq_refl, List, [], ◌∷◌, none, some,
}
use federloom.Float.{Float}
use federloom.Proto.{Time, Event, ℤ}
use federloom.Store.{ScoreRecord}
use federloom.Rules.Burst.{BurstStore, cutoff, count, count_after_longer}
use federloom.Rules.{
  Action, action_none, Rule, BurstCache, same_window, cached, memo_count, record_matches, try_rule,
  evaluate_rules,
}

-- That a window is no longer than another one; a negative one starts after now.
abbrev pub IsNoLonger : ℤ → ℤ → Type 0
IsNoLonger (ℤ.pos v) (ℤ.pos w) = v ≤ w
IsNoLonger (ℤ.pos v) (ℤ.negsuc w) = 1 ≤ 0
IsNoLonger (ℤ.negsuc v) (ℤ.pos w) = Unit {0}
IsNoLonger (ℤ.negsuc v) (ℤ.negsuc w) = w ≤ v

same_IsNoLonger : (w : ℤ) → IsNoLonger w w
same_IsNoLonger (ℤ.pos w) = omega arith
same_IsNoLonger (ℤ.negsuc w) = omega arith

IsNoLonger-trans : (u v w : ℤ) → IsNoLonger u v → IsNoLonger v w → IsNoLonger u w
IsNoLonger-trans (ℤ.pos u) (ℤ.pos v) (ℤ.pos w) h k = omega arith
IsNoLonger-trans (ℤ.pos u) (ℤ.pos v) (ℤ.negsuc w) h k = k
IsNoLonger-trans (ℤ.pos u) (ℤ.negsuc v) w h k = absurd (omega arith)
IsNoLonger-trans (ℤ.negsuc u) (ℤ.pos v) (ℤ.pos w) h k = tt
IsNoLonger-trans (ℤ.negsuc u) (ℤ.pos v) (ℤ.negsuc w) h k = absurd (omega arith)
IsNoLonger-trans (ℤ.negsuc u) (ℤ.negsuc v) (ℤ.pos w) h k = tt
IsNoLonger-trans (ℤ.negsuc u) (ℤ.negsuc v) (ℤ.negsuc w) h k = omega arith

cutoff-le : (now : Time) (v w : ℤ) → IsNoLonger v w → cutoff now w ≤ cutoff now v
cutoff-le now (ℤ.pos v) (ℤ.pos w) h = omega arith
cutoff-le now (ℤ.pos v) (ℤ.negsuc w) h = absurd (omega arith)
cutoff-le now (ℤ.negsuc v) (ℤ.pos w) h = omega arith
cutoff-le now (ℤ.negsuc v) (ℤ.negsuc w) h = omega arith

same_window_eq : (v w : ℤ) → same_window v w ≡ true → v ≡ w
same_window_eq (ℤ.pos v) (ℤ.pos w) h = ground arith
same_window_eq (ℤ.pos v) (ℤ.negsuc w) h = cc
same_window_eq (ℤ.negsuc v) (ℤ.pos w) h = cc
same_window_eq (ℤ.negsuc v) (ℤ.negsuc w) h = ground arith

-- The count that the untouched store gives.
abbrev pub true_count : BurstStore → Event → Time → ℤ → ℕ
true_count b e now w = (count b e.ip e.reason w now).0

module _ {F : Type 0} ⦃f : Float F⦄ where
  abbrev pub holds : Rule F → Event → ScoreRecord F → BurstStore → Time → Bool
  holds r e rec b now =
      record_matches r e rec
      && (not (ltb 0 r.min_burst) || leb r.min_burst (true_count b e now r.burst_window))

  -- The specification: first match, no memo, no state.
  unfoldable pub first_match :
      List (Rule F) → Event → ScoreRecord F → BurstStore → Time → Action × String
  first_match [] e rec b now = (action_none, "")
  first_match (r ∷ rs) e rec b now =
      let rest = first_match rs e rec b now in
      if holds r e rec b now then (r.action, r.name) else rest

  -- No burst rule has a longer window than a burst rule above it, or than `top`.
  abbrev pub IsNarrowing : ℤ → List (Rule F) → Type 0
  IsNarrowing top [] = Unit
  IsNarrowing top (r ∷ rs) =
      (0 < r.min_burst → IsNoLonger r.burst_window top)
      × IsNarrowing (if ltb 0 r.min_burst then r.burst_window else top) rs

-- The memo and the store still tell the counts of `b` for windows up to `top`.
record IsFaithful (b : BurstStore) (e : Event) (now : Time) (top : ℤ) (cache : BurstCache)
    (b' : BurstStore) : Type 0 where
  fresh : (w : ℤ) → IsNoLonger w top → true_count b' e now w ≡ true_count b e now w
  memo :
      (w : ℤ)
      → IsNoLonger w top
      → (cached e.reason w cache ≡ none) ⊎ (cached e.reason w cache ≡ some (true_count b e now w))

module _ (b : BurstStore) (e : Event) (now : Time) where
  -- What a memo knows after a count is put in it.
  remembered :
      (e : Event) (w v : ℤ) (cache : BurstCache) (b : BurstStore) (n : ℕ)
      → n ≡ true_count b e now w
      → (cached e.reason v cache ≡ none) ⊎ (cached e.reason v cache ≡ some (true_count b e now v))
      → let later = ((e.reason, w), n) ∷ cache in
        (cached e.reason v later ≡ none) ⊎ (cached e.reason v later ≡ some (true_count b e now v))
  unfolding cached
  remembered e w v cache b n exact before = elim (Bool-cases (same_window w v)) [
    | inr other ↦ rw (cached, eq_refl e.reason, other) before
    | inl same ↦
        let e1 : n ≡ true_count b e now v =
          exact ∙ ap (true_count b e now) (same_window_eq w v same) in
        rw (cached, eq_refl e.reason, same) (inr (ap some e1))
  ]

  -- A count through the memo is the true count, and leaves the memo faithful up to its window.
  memo_count_lem :
      (top w : ℤ) (cache : BurstCache) (b' : BurstStore)
      → IsNoLonger w top
      → IsFaithful b e now top cache b'
      → ((memo_count e w now cache b').0 ≡ true_count b e now w)
        × IsFaithful b e now w (memo_count e w now cache b').1 (memo_count e w now cache b').2
  unfolding memo_count
  memo_count_lem top w cache b' h ok = elim (ok.memo w h) [
    | inl absent ↦
        rw (absent, memo_count)
          (
            ok.fresh w h,
            record {
              fresh = λ v k.
                  count_after_longer b' e.ip e.reason w v now (cutoff-le now v w k)
                  ∙ ok.fresh v (IsNoLonger-trans v w top k h);
              memo = λ v k.
                  remembered e w v cache b (true_count b' e now w) (ok.fresh w h)
                    (ok.memo v (IsNoLonger-trans v w top k h));
            },
          )
    | inr there ↦
        rw (there, memo_count)
          (
            refl,
            record {
              fresh = λ v k. ok.fresh v (IsNoLonger-trans v w top k h);
              memo = λ v k. ok.memo v (IsNoLonger-trans v w top k h);
            },
          )
  ]

  module _ {F : Type 0} ⦃f : Float F⦄ (rec : ScoreRecord F) where
    try_rule_lem :
        (r : Rule F) (top : ℤ) (cache : BurstCache) (b' : BurstStore)
        → (0 < r.min_burst → IsNoLonger r.burst_window top)
        → IsFaithful b e now top cache b'
        → ((try_rule r e rec now cache b').0 ≡ holds r e rec b now)
          × IsFaithful b e now
              (if ltb 0 r.min_burst then r.burst_window else top)
              (try_rule r e rec now cache b').1
              (try_rule r e rec now cache b').2
    unfolding try_rule
    try_rule_lem r top cache b' h ok = elim (Bool-cases (record_matches r e rec)) [
      | inr misses ↦ simp misses (refl, narrower (ltb 0 r.min_burst) refl)
      | inl matches ↦ elim (Bool-cases (ltb 0 r.min_burst)) [
        | inr unbursty ↦ simp (matches, unbursty) (refl, ok)
        | inl bursty ↦
            let (exact, kept) = memo_count_lem top r.burst_window cache b' (h (ground arith)) ok in
            simp (matches, bursty) (ap (leb r.min_burst) exact, kept)
      ]
    ]
      where
        narrower :
            (bursty : Bool)
            → ltb 0 r.min_burst ≡ bursty
            → IsFaithful b e now (if bursty then r.burst_window else top) cache b'
        narrower true g =
            let le = h (ground arith) in
            record {
              fresh = λ v k. ok.fresh v (IsNoLonger-trans v r.burst_window top k le);
              memo = λ v k. ok.memo v (IsNoLonger-trans v r.burst_window top k le);
            }
        narrower false g = ok

    -- The memo and the eviction are invisible: the loop answers as `first_match` does.
    evaluate_rules-first_match :
        (rs : List (Rule F)) (top : ℤ) (cache : BurstCache) (b' : BurstStore)
        → IsNarrowing top rs
        → IsFaithful b e now top cache b'
        → (evaluate_rules rs e rec now cache b').0 ≡ first_match rs e rec b now
    unfolding evaluate_rules first_match
    evaluate_rules-first_match [] top cache b' h ok = refl
    evaluate_rules-first_match (r ∷ rs) top cache b' h ok =
        let (same, kept) = try_rule_lem r top cache b' h.0 ok in
        ground (arith, same, evaluate_rules-first_match rs _ _ _ h.1 kept)

    -- On a fresh memo the loop over the rules returns the action and the name of the first rule
    -- that holds, by the counts of the store as it stood, provided that no rule with a burst
    -- window has a longer window than one above it.
    pub evaluate_rules_lem :
        (rs : List (Rule F)) (top : ℤ)
        → IsNarrowing top rs
        → (evaluate_rules rs e rec now [] b).0 ≡ first_match rs e rec b now
    unfolding cached
    evaluate_rules_lem rs top h =
        evaluate_rules-first_match rs top [] b h
          (record { fresh = λ w k. refl; memo = λ w k. inl refl })
