-- ===== src/Rules/Burst.antt =====
-- internal/rules/burst.go: the sliding windows of event times, by IP and reason. A key that is not
-- in the map reads as no times, so the map is a function, and deleting a key stores no times.
use federloom.Prelude.{
  ℕ, ◌+◌, ◌-◌, ◌≤◌, ◌≡◌, refl, ◌&&◌, if◌then◌else◌, arith, ltb, String, str_eq, eq_refl, List, [],
  ◌∷◌, ◌++◌, length,
}
use federloom.Proto.{Time, Duration, ℤ}

abbrev pub BurstStore : Type 0
BurstStore = String → String → List Time

unfoldable pub new_burst_store : BurstStore
new_burst_store ip reason = []

unfoldable pub write : BurstStore → String → String → List Time → BurstStore
write b ip reason ts i r = if str_eq ip i && str_eq reason r then ts else b i r

unfoldable pub record_burst : BurstStore → String → String → Time → BurstStore
unfolding write
record_burst b ip reason now = write b ip reason (b ip reason ++ now ∷ [])

-- The loop that skips the times before the cutoff, up to the first that is not.
unfoldable pub drop_before : Time → List Time → List Time
drop_before cutoff [] = []
drop_before cutoff (t ∷ ts) =
    let rest = drop_before cutoff ts in if ltb t cutoff then rest else t ∷ ts

-- `now.Add(-window)`. No time lies before 0, so a cutoff below it is as good as one at 0; one of a
-- negative window lies after now.
abbrev pub cutoff : Time → ℤ → Time
cutoff now (ℤ.pos w) = now - w
cutoff now (ℤ.negsuc n) = now + n + 1

-- The times that `Count` keeps.
unfoldable pub live_times : BurstStore → String → String → ℤ → Time → List Time
live_times b ip reason window now = drop_before (cutoff now window) (b ip reason)

-- How many events fall in the window, and the store without the times that were skipped.
unfoldable pub count : BurstStore → String → String → ℤ → Time → ℕ × BurstStore
unfolding live_times write
count b ip reason window now = (
  length (live_times b ip reason window now),
  write b ip reason (live_times b ip reason window now),
)

-- To skip up to a cutoff and then up to an earlier one skips no more.
drop_before_earlier :
    (c d : Time) (ts : List Time) → d ≤ c → drop_before d (drop_before c ts) ≡ drop_before c ts
unfolding drop_before
drop_before_earlier c d [] h = refl
drop_before_earlier c d (t ∷ ts) h = ground (arith, drop_before_earlier c d ts h)

-- To skip up to a cutoff and then up to a later one is to skip up to the later one.
drop_before_later :
    (c d : Time) (ts : List Time) → c ≤ d → drop_before d (drop_before c ts) ≡ drop_before d ts
unfolding drop_before
drop_before_later c d [] h = refl
drop_before_later c d (t ∷ ts) h = ground (arith, drop_before_later c d ts h)

-- A count over a shorter window is not disturbed by a count over a longer one.
pub count_after_longer :
    (b : BurstStore) (ip reason : String) (long short : ℤ) (now : Time)
    → cutoff now long ≤ cutoff now short
    → (count (count b ip reason long now).1 ip reason short now).0 ≡ (count b ip reason short now).0
unfolding count
count_after_longer b ip reason long short now h =
    simp (eq_refl, drop_before_later (cutoff now long) (cutoff now short) (b ip reason) h)

-- With nothing recorded for a key every count of it is 0, and nothing comes to be recorded.
pub count_idle :
    (b : BurstStore) (ip reason : String) (w : ℤ) (now : Time)
    → b ip reason ≡ []
    → ((count b ip reason w now).0 ≡ 0) × ((count b ip reason w now).1 ip reason ≡ [])
unfolding count drop_before
count_idle b ip reason w now idle = (simp idle, simp (idle, eq_refl))

-- Counting evicts: after a count over a window, a count over a longer window whose start lies
-- no later sees only what the shorter window kept.
pub count_after_shorter :
    (b : BurstStore) (ip reason : String) (short long : ℤ) (now later : Time)
    → cutoff later long ≤ cutoff now short
    → (count (count b ip reason short now).1 ip reason long later).0
      ≡ (count b ip reason short now).0
unfolding count
count_after_shorter b ip reason short long now later h =
    simp (eq_refl, drop_before_earlier (cutoff now short) (cutoff later long) (b ip reason) h)

-- A count repeated over the same window finds the same number.
pub count-count :
    (b : BurstStore) (ip reason : String) (w : ℤ) (now : Time)
    → (count (count b ip reason w now).1 ip reason w now).0 ≡ (count b ip reason w now).0
count-count b ip reason w now = count_after_shorter b ip reason w w now now (omega arith)

drop_before_last :
    (c now : Time) (ts : List Time) → c ≤ now → 1 ≤ length (drop_before c (ts ++ now ∷ []))
unfolding drop_before
drop_before_last c now [] h = ground arith
drop_before_last c now (t ∷ ts) h = ground (arith, drop_before_last c now ts h)

-- What is recorded now is in every window that ends now and is not negative.
pub count-record_burst :
    (b : BurstStore) (ip reason : String) (w : Duration) (now : Time)
    → 1 ≤ (count (record_burst b ip reason now) ip reason (ℤ.pos w) now).0
unfolding count record_burst
count-record_burst b ip reason w now =
    simp eq_refl (drop_before_last (now - w) now (b ip reason) (omega arith))
