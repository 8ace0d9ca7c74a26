-- ===== src/Repquery/Querier/Laws.antt =====
-- The merged answer is the highest of those that came back, and the cache of merged answers.
use mathlib.Core.Path.{subst}
use mathlib.Core.List.{Memᴰ}
use federloom.Prelude.{
  ℕ, ◌≡◌, ◌⊎◌, refl, sym, ap, ◌∙◌, inl, inr, true, false, false≢true, not, ◌||◌, Bool-cases,
  Option-cases, arith, String, List, [], ◌∷◌, ◌++◌, Option, none, some, All, contains_string,
  contains_string-append, IsDistinct, IsDistinct-append, eq_refl,
}
use federloom.Float.{Float, IsFloat, InRange, num, ◌≼◌, ◌<?◌}
use federloom.Proto.{ℤ, Time, EvidenceAggregate, is_zero}
use federloom.Store.{ScoreRecord}
use federloom.Reputation.Scores.{le_refl_num}
use federloom.Reputation.Invariant.{IsSound}
use federloom.Repquery.{Consumer, bucket, record_from_evidence}
use federloom.Repquery.Recompute.{record_from_evidence_lem}
use federloom.Repquery.Querier.{
  Answer, Merged, add_reasons, ask, nothing_merged, merge, collect, fanout,
}

All-map :
    {A : Type 0} (P Q : A → Type 0) (xs : List A) → ((x : A) → P x → Q x) → All P xs → All Q xs
All-map P Q [] k h = tt
All-map P Q (x ∷ xs) k h = (k x h.0, All-map P Q xs k h.1)

contains-add_reasons :
    (more reasons : List String) (s : String)
    → contains_string reasons s ≡ true
    → contains_string (add_reasons reasons more) s ≡ true
unfolding add_reasons
contains-add_reasons [] reasons s h = h
contains-add_reasons (r ∷ rs) reasons s h =
    contains-add_reasons rs _ s (ground (arith, h, contains_string-append reasons (r ∷ []) s))

every_reason_is_added :
    (more reasons : List String)
    → All (λ s. contains_string (add_reasons reasons more) s ≡ true) more
unfolding add_reasons
every_reason_is_added [] reasons = tt
every_reason_is_added (r ∷ rs) reasons = (
  contains-add_reasons rs _ r
      (ground (arith, contains_string-append reasons (r ∷ []) r, eq_refl r)),
  every_reason_is_added rs _,
)

add_reasons-IsDistinct :
    (more reasons : List String) → IsDistinct reasons → IsDistinct (add_reasons reasons more)
unfolding add_reasons
add_reasons-IsDistinct [] reasons d = d
add_reasons-IsDistinct (r ∷ rs) reasons d = elim (Bool-cases (contains_string reasons r)) [
  | inl there ↦ rw (there, add_reasons) (add_reasons-IsDistinct rs reasons d)
  | inr new ↦
      rw (new, add_reasons)
        (add_reasons-IsDistinct rs (reasons ++ r ∷ []) (IsDistinct-append reasons r d new))
]

-- A record that tells neither who reported nor how many, with a score in [0, 100].
abbrev pub IsAnonymous : {F : Type 0} ⦃f : Float F⦄ → ScoreRecord F → Type 0
IsAnonymous r =
    (r.groups ≡ []) × (r.reporter_ids ≡ []) × (r.corroboration ≡ 0) × InRange (num 100) r.score

module _ {F : Type 0} ⦃f : Float F⦄ (L : IsFloat F) where
  number_of : (r : ScoreRecord F) → IsAnonymous r → r.score ≼ r.score
  number_of r (groups, reporters, corroboration, range) = L.number_left r.score (num 100) range.1

  -- What the loop has kept accounts for a record.
  abbrev IsCovered : Merged F → ScoreRecord F → Type 0
  IsCovered m rec =
      (m.any ≡ true)
      × (rec.score ≼ m.best.score)
      × All (λ s. contains_string m.reasons s ≡ true) rec.reasons

  abbrev IsSane : Merged F → Type 0
  IsSane m = IsAnonymous m.best × IsDistinct m.reasons

  merge-IsSane :
      (m : Merged F) (rec : ScoreRecord F) (subnets : ℤ)
      → IsSane m
      → IsAnonymous rec
      → IsSane (merge m rec subnets)
  unfolding merge
  merge-IsSane m rec subnets h g =
      let d = add_reasons-IsDistinct rec.reasons m.reasons h.1 in
      elim (Bool-cases (is_zero rec.last_seen)) [
        | inl never ↦ rw (never, merge) h
        | inr seen ↦ elim (Bool-cases (not m.any || (m.best.score <? rec.score))) [
          | inl better ↦ rw (seen, merge, better) (g, d)
          | inr worse ↦ rw (seen, merge, worse) (h.0, d)
        ]
      ]

  merge-IsCovered_new :
      (m : Merged F) (rec : ScoreRecord F) (subnets : ℤ)
      → IsSane m
      → IsAnonymous rec
      → is_zero rec.last_seen ≡ false
      → IsCovered (merge m rec subnets) rec
  unfolding merge
  merge-IsCovered_new m rec subnets h g seen =
      let mine = number_of rec g in
      let theirs = number_of m.best h.0 in
      let said = every_reason_is_added rec.reasons m.reasons in
      elim (Bool-cases (not m.any || (m.best.score <? rec.score))) [
        | inl better ↦ rw (seen, merge, better) (refl, mine, said)
        | inr worse ↦
            rw (seen, merge, worse)
              (
                refl,
                L.le_of_not_lt rec.score m.best.score mine theirs (ground (arith, worse)),
                said,
              )
      ]

  merge-IsCovered_old :
      (m : Merged F) (rec old : ScoreRecord F) (subnets : ℤ)
      → IsCovered m old
      → IsCovered (merge m rec subnets) old
  unfolding merge
  merge-IsCovered_old m rec old subnets (any, lower, said) =
      let still = All-map _ _ old.reasons (contains-add_reasons rec.reasons m.reasons) said in
      elim (Bool-cases (is_zero rec.last_seen)) [
        | inl never ↦ rw (never, merge) (any, lower, said)
        | inr seen ↦ elim (Bool-cases (m.best.score <? rec.score)) [
          | inl better ↦
              rw (seen, merge, any, better)
                (
                  refl,
                  L.le_trans old.score m.best.score rec.score lower (L.le_of_lt _ _ better),
                  still,
                )
          | inr worse ↦ rw (seen, merge, any, worse) (refl, lower, still)
        ]
      ]

module _ {F : Type 0} ⦃f : Float F⦄ (itoa : ℕ → String) (c : Consumer F) where
  -- That a score and a count of subnets are those of one of the answers.
  abbrev pub IsOneOf : List (Answer F) → F → ℤ → Type 0
  IsOneOf answers score subnets =
      (ev : EvidenceAggregate F) × (now : Time) × Memᴰ (some ev, now) answers
      × (score ≡ (record_from_evidence itoa c ev now).score)
      × (subnets ≡ bucket "subnets" ev.diversity_buckets)

module _ {F : Type 0} ⦃f : Float F⦄ (L : IsFloat F) (itoa : ℕ → String) (c : Consumer F)
    (sound : IsSound c.stranger_cap c.diversity_repeat)
    (strong : InRange f.largest c.dispute_weight)
    (discounts : InRange (num 1) c.federation_discount) where
  record-IsAnonymous :
      (ev : EvidenceAggregate F) (now : Time) → IsAnonymous (record_from_evidence itoa c ev now)
  record-IsAnonymous ev now =
      let (groups, reporters, corroboration, range, value) =
        record_from_evidence_lem L itoa c sound strong discounts ev now in
      (groups, reporters, corroboration, range)

  collect-IsSane :
      (answers : List (Answer F)) (m : Merged F) → IsSane L m → IsSane L (collect itoa c m answers)
  unfolding collect
  collect-IsSane [] m h = h
  collect-IsSane ((answer, now) ∷ rest) m h = elim (Option-cases (ask answer)) [
    | inl gone ↦ rw (gone, collect) (collect-IsSane rest m h)
    | inr (ev, came) ↦
        rw (came, collect)
          (collect-IsSane rest _ (merge-IsSane L m _ _ h (record-IsAnonymous ev now)))
  ]

  collect-IsCovered_old :
      (answers : List (Answer F)) (m : Merged F) (old : ScoreRecord F)
      → IsCovered L m old
      → IsCovered L (collect itoa c m answers) old
  unfolding collect
  collect-IsCovered_old [] m old h = h
  collect-IsCovered_old ((answer, now) ∷ rest) m old h = elim (Option-cases (ask answer)) [
    | inl gone ↦ rw (gone, collect) (collect-IsCovered_old rest m old h)
    | inr (ev, came) ↦
        rw (came, collect) (collect-IsCovered_old rest _ old (merge-IsCovered_old L m _ old _ h))
  ]

  of_seen :
      (ev : EvidenceAggregate F) (now : Time)
      → is_zero ev.window_last ≡ false
      → let r = record_from_evidence itoa c ev now in
        (is_zero r.last_seen ≡ false) × (r.reasons ≡ ev.scenarios)
  unfolding record_from_evidence
  of_seen ev now seen = rw seen (seen, refl)

  collect-IsCovered_here :
      (rest : List (Answer F)) (m : Merged F) (ev : EvidenceAggregate F) (now : Time)
      → IsSane L m
      → is_zero ev.window_last ≡ false
      → IsCovered L (collect itoa c m ((some ev, now) ∷ rest)) (record_from_evidence itoa c ev now)
  unfolding collect ask
  collect-IsCovered_here rest m ev now h seen =
      let rec = record_from_evidence itoa c ev now in
      rw (seen, collect)
        (collect-IsCovered_old rest _ rec
          (merge-IsCovered_new L m rec _ h (record-IsAnonymous ev now) (of_seen ev now seen).0))

  collect-IsCovered :
      (answers : List (Answer F)) (m : Merged F) (ev : EvidenceAggregate F) (now : Time)
      → IsSane L m
      → Memᴰ (some ev, now) answers
      → is_zero ev.window_last ≡ false
      → IsCovered L (collect itoa c m answers) (record_from_evidence itoa c ev now)
  unfolding collect
  collect-IsCovered [] m ev now h there seen = elim there [ ]
  collect-IsCovered (a ∷ rest) m ev now h (Memᴰ.head e) seen =
      subst (λ b. IsCovered L (collect itoa c m (b ∷ rest)) (record_from_evidence itoa c ev now)) e
        (collect-IsCovered_here rest m ev now h seen)
  collect-IsCovered ((answer, at) ∷ rest) m ev now h (Memᴰ.tail t) seen =
      elim (Option-cases (ask answer)) [
        | inl gone ↦ rw (gone, collect) (collect-IsCovered rest m ev now h t seen)
        | inr (other, came) ↦
            rw (came, collect)
              (collect-IsCovered rest _ ev now
                (merge-IsSane L m _ _ h (record-IsAnonymous other at)) t seen)
      ]

  some_of_ask :
      (answer : Option (EvidenceAggregate F)) (ev : EvidenceAggregate F)
      → ask answer ≡ some ev
      → answer ≡ some ev
  unfolding ask
  some_of_ask none ev h = cc
  some_of_ask (some e) ev h = ground (arith, h)

  -- Whatever holds of every answer holds of what was merged, if anything was.
  abbrev Attains : (F → ℤ → Type 0) → Merged F → Type 0
  Attains Q m = (m.any ≡ false) ⊎ Q m.best.score m.best_subnets

  merge-Attains :
      (Q : F → ℤ → Type 0) (m : Merged F) (rec : ScoreRecord F) (subnets : ℤ)
      → Attains Q m
      → Q rec.score subnets
      → Attains Q (merge m rec subnets)
  unfolding merge
  merge-Attains Q m rec subnets h q = elim (Bool-cases (is_zero rec.last_seen)) [
    | inl never ↦ rw (never, merge) h
    | inr seen ↦ elim h [
      | inl fresh ↦ rw (seen, merge, fresh) (inr q)
      | inr kept ↦ elim (Bool-cases (not m.any || (m.best.score <? rec.score))) [
        | inl better ↦ rw (seen, merge, better) (inr q)
        | inr worse ↦ rw (seen, merge, worse) (inr kept)
      ]
    ]
  ]

  collect-Attains :
      (Q : F → ℤ → Type 0) (answers : List (Answer F)) (m : Merged F)
      → Attains Q m
      → ((ev : EvidenceAggregate F) (now : Time)
          → Memᴰ (some ev, now) answers
          → Q (record_from_evidence itoa c ev now).score (bucket "subnets" ev.diversity_buckets))
      → Attains Q (collect itoa c m answers)
  unfolding collect
  collect-Attains Q [] m h all = h
  collect-Attains Q ((answer, now) ∷ rest) m h all = elim (Option-cases (ask answer)) [
    | inl gone ↦
        rw (gone, collect) (collect-Attains Q rest m h (λ ev t there. all ev t (Memᴰ.tail there)))
    | inr (ev, came) ↦
        let here = all ev now (Memᴰ.head (ap (λ a. (a, now)) (sym (some_of_ask answer ev came)))) in
        rw (came, collect)
          (collect-Attains Q rest _ (merge-Attains Q m _ _ h here)
            (λ e t there. all e t (Memᴰ.tail there)))
  ]

  -- With a stranger cap and a dispute weight that are finite and not negative, and a damping and a
  -- federation discount in [0, 1]: whenever an answer with a last time is among those that came in
  -- time, the merged record counts as found, its score and its subnets are those of one of the
  -- answers, the answer with a last time scores no higher and has all its scenarios among the
  -- merged reasons, of which none stands twice; the merged record has no group, no reporter and no
  -- corroboration, and a score in [0, 100].
  pub fanout_lem :
      (answers : List (Answer F)) (ev : EvidenceAggregate F) (now : Time)
      → Memᴰ (some ev, now) answers
      → is_zero ev.window_last ≡ false
      → let (best, subnets, found) = fanout itoa c answers in
        (found ≡ true)
        × IsOneOf itoa c answers best.score subnets
        × ((record_from_evidence itoa c ev now).score ≼ best.score)
        × All (λ s. contains_string best.reasons s ≡ true) ev.scenarios
        × IsDistinct best.reasons
        × IsAnonymous best
  unfolding fanout nothing_merged
  fanout_lem answers ev now there seen =
      let empty : IsSane L nothing_merged =
        ((refl, refl, refl, (le_refl_num L 0, L.num_mono 0 100 (omega arith))), tt) in
      let (any, lower, said) = collect-IsCovered answers nothing_merged ev now empty there seen in
      let (anonymous, distinct) = collect-IsSane answers nothing_merged empty in
      let origin =
        collect-Attains (IsOneOf itoa c answers) answers nothing_merged (inl refl)
          (λ e t h. (e, t, h, refl, refl)) in
      let all =
        subst
          (λ rs.
            All (λ s. contains_string (collect itoa c nothing_merged answers).reasons s ≡ true) rs)
          (of_seen ev now seen).1 said in
      elim origin [
        | inl none_found ↦ absurd (false≢true (sym none_found ∙ any))
        | inr from ↦ rw any (refl, from, lower, all, distinct, anonymous)
      ]
