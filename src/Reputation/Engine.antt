-- ===== src/Reputation/Engine.antt =====
-- internal/reputation/engine.go: the engine, which reads a record, applies one observation and
-- writes the record back with three half-lives to live.
use federloom.Prelude.{
  ℕ, ◌*◌, ◌≡◌, sym, ap, ◌∙◌, if◌then◌else◌, arith, String, length, Result, ok, err, ◌>>=◌, wrap,
  str_eq, >>=-eq-ok,
}
use mathlib.Core.Path.{subst}
use federloom.Float.{Float, num}
use federloom.Proto.{Time, Duration, is_zero}
use federloom.Store.{ScoreRecord, StoreError, ScoreStore, IsScoreStore}
use federloom.Reputation.{Observation, decay_score, accumulate, apply_dispute}

pub record Engine (F : Type 0) : Type 0 where
  pub half_life : Duration
  pub stranger_cap : F
  pub diversity_repeat : F
  pub dispute_weight : F

pub data EngineError : Type 0 where
  get_failed put_failed : EngineError

module _ {F S : Type 0} ⦃f : Float F⦄ (store : ScoreStore F S) (e : Engine F) where
  -- Reads the record of an IP, changes it, and writes it back.
  unfoldable pub update :
      S → String → (ScoreRecord F → ScoreRecord F) → Result EngineError (ScoreRecord F × S)
  update s ip change = do
    rec ← wrap get_failed (store.get_score s ip)
    s' ← wrap put_failed (store.put_score s ip (change rec) (3 * e.half_life))
    ok (change rec, s')

  unfoldable pub record_report : S → String → Observation F → Time → Result EngineError (F × S)
  unfolding update
  record_report s ip obs now = do
    (rec, s') ←
        update s ip (λ r. accumulate r obs now e.half_life e.stranger_cap e.diversity_repeat)
    ok (rec.score, s')

  -- Also returns the number of distinct anchored subnets that dispute the IP.
  unfoldable pub record_dispute : S → String → Observation F → Time → Result EngineError (F × ℕ × S)
  unfolding update
  record_dispute s ip obs now = do
    (rec, s') ← update s ip (λ r.
        apply_dispute r obs now e.half_life e.dispute_weight e.stranger_cap e.diversity_repeat)
    ok (rec.score, length rec.dispute_subnets_seen, s')

  -- An IP with no record is left alone.
  unfoldable pub decay : S → String → Time → Result EngineError (F × S)
  decay s ip now = do
    rec ← wrap get_failed (store.get_score s ip)
    let score = decay_score rec.score rec.last_seen now e.half_life
    let stored =
        wrap put_failed (store.put_score s ip (record rec { score = score }) (3 * e.half_life))
    if is_zero rec.last_seen then ok (num 0, s) else do s' ← stored; ok (score, s')

  abbrev pub get_record : S → String → Result StoreError (ScoreRecord F)
  get_record s ip = store.get_score s ip

module _ {F S : Type 0} ⦃f : Float F⦄ (store : ScoreStore F S) (e : Engine F) where
  -- An update that succeeds has written the changed record.
  update_put :
      (s t : S) (ip : String) (change : ScoreRecord F → ScoreRecord F) (r rec : ScoreRecord F)
      → store.get_score s ip ≡ ok r
      → update store e s ip change ≡ ok (rec, t)
      → (rec ≡ change r) × (store.put_score s ip (change r) (3 * e.half_life) ≡ ok t)
  unfolding update
  update_put s t ip change r rec found h = ground arith

  -- A report or a dispute fails exactly if the store fails to read or to write the record.
  pub update_errors :
      (s : S) (ip : String) (change : ScoreRecord F → ScoreRecord F)
      → ((m : StoreError)
          → store.get_score s ip ≡ err m
          → update store e s ip change ≡ err get_failed)
        × ((r : ScoreRecord F) (m : StoreError)
            → store.get_score s ip ≡ ok r
            → store.put_score s ip (change r) (3 * e.half_life) ≡ err m
            → update store e s ip change ≡ err put_failed)
  unfolding update
  update_errors s ip change = (λ m h. simp h, λ r m h k. simp (h, k))

module _ {F S : Type 0} ⦃f : Float F⦄ (store : ScoreStore F S) (laws : IsScoreStore store)
    (e : Engine F) where
  update_lem :
      (s t : S) (ip other : String) (change : ScoreRecord F → ScoreRecord F) (r rec : ScoreRecord F)
      → laws.IsSound s
      → store.get_score s ip ≡ ok r
      → update store e s ip change ≡ ok (rec, t)
      → (laws.IsSound t)
        × (rec ≡ change r)
        × (store.get_score t other
            ≡ (if str_eq ip other then ok (change r) else store.get_score s other))
  update_lem s t ip other change r rec sound found h =
      let (same, put) = update_put store e s t ip change r rec found h in
      (
        laws.put-IsSound s t ip (change r) _ sound put,
        same,
        laws.get-put s t ip other (change r) _ sound put,
      )

  -- On a sound store that has the record `r` for an IP, a report that is recorded leaves a sound
  -- store, in which the record of its IP is `r` with the report folded in by `accumulate`, and
  -- every other record is as before; the score returned is the one stored.
  pub record_report_lem :
      (s t : S) (ip other : String) (obs : Observation F) (now : Time) (score : F)
      (r : ScoreRecord F)
      → laws.IsSound s
      → store.get_score s ip ≡ ok r
      → record_report store e s ip obs now ≡ ok (score, t)
      → (laws.IsSound t)
        × (score ≡ (accumulate r obs now e.half_life e.stranger_cap e.diversity_repeat).score)
        × (store.get_score t other ≡ (
            if str_eq ip other
            then ok (accumulate r obs now e.half_life e.stranger_cap e.diversity_repeat)
            else store.get_score s other))
  unfolding record_report
  record_report_lem s t ip other obs now score r sound found h =
      let ((rec, s'), done, out) = >>=-eq-ok (update store e s ip _) _ h in
      let (kept, same, reads) = update_lem s s' ip other _ r rec sound found done in
      let arrived : s' ≡ t = cc in
      (subst laws.IsSound arrived kept, cc, sym (ap (λ u. store.get_score u other) arrived) ∙ reads)

  -- On a sound store that has the record `r` for an IP, a dispute that is recorded leaves a sound
  -- store, in which the record of its IP is `r` with the dispute applied by `apply_dispute`, and
  -- every other record is as before; the count returned is that of the anchored subnets which the
  -- stored record lists as disputing.
  pub record_dispute_lem :
      (s t : S) (ip other : String) (obs : Observation F) (now : Time) (score : F) (n : ℕ)
      (r : ScoreRecord F)
      → laws.IsSound s
      → store.get_score s ip ≡ ok r
      → record_dispute store e s ip obs now ≡ ok (score, n, t)
      → (laws.IsSound t)
        × (n
            ≡ length
                (apply_dispute r obs now e.half_life e.dispute_weight e.stranger_cap
                  e.diversity_repeat).dispute_subnets_seen)
        × (store.get_score t other ≡ (
            if str_eq ip other
            then ok (
                apply_dispute r obs now e.half_life e.dispute_weight e.stranger_cap
                  e.diversity_repeat)
            else store.get_score s other))
  unfolding record_dispute
  record_dispute_lem s t ip other obs now score n r sound found h =
      let ((rec, s'), done, out) = >>=-eq-ok (update store e s ip _) _ h in
      let (kept, same, reads) = update_lem s s' ip other _ r rec sound found done in
      let arrived : s' ≡ t = cc in
      (subst laws.IsSound arrived kept, cc, sym (ap (λ u. store.get_score u other) arrived) ∙ reads)
