-- ===== src/Store.antt =====
-- internal/store/store.go: the reputation record of one IP, and what the engine asks of a store.
-- The Badger store that answers is in the child Badger.
pub mod Badger
pub mod Whitelist
use federloom.Prelude.{
  ℕ, String, Bool, false, List, [], Result, ok, err, ◌≡◌, str_eq, if◌then◌else◌,
}
use federloom.Float.{Float, num}
use federloom.Proto.{Time, Duration}

pub record ScoreRecord (F : Type 0) : Type 0 where
  pub score : F
  pub corroboration : ℕ
  pub first_seen : Time
  pub last_seen : Time
  pub reasons : List String
  pub reporter_ids : List String
  pub groups : List String
  pub stranger_seen : Bool
  pub stranger_contrib : F
  pub subnets_seen : List String
  pub dispute_subnets_seen : List String
  pub dispute_contrib : F

-- `ScoreRecord{}`
abbrev pub empty_record : {F : Type 0} ⦃f : Float F⦄ → ScoreRecord F
empty_record = record {
  score = num 0;
  corroboration = 0;
  first_seen = 0;
  last_seen = 0;
  reasons = [];
  reporter_ids = [];
  groups = [];
  stranger_seen = false;
  stranger_contrib = num 0;
  subnets_seen = [];
  dispute_subnets_seen = [];
  dispute_contrib = num 0;
}

-- The messages of the errors of a store.
abbrev pub StoreError : Type 0
StoreError = String

-- What the engine uses of a store. A failed write changes nothing.
pub record ScoreStore (F S : Type 0) : Type 0 where
  pub get_score : S → String → Result StoreError (ScoreRecord F)
  pub put_score : S → String → ScoreRecord F → Duration → Result StoreError S

-- What the engine relies on, of the stores that `IsSound` singles out.
pub record IsScoreStore {F S : Type 0} (store : ScoreStore F S) : Type 1 where
  pub IsSound : S → Type 0
  pub put-IsSound :
      (s t : S) (ip : String) (r : ScoreRecord F) (ttl : Duration)
      → IsSound s
      → store.put_score s ip r ttl ≡ ok t
      → IsSound t
  -- a written record is read back, and no other key is disturbed
  pub get-put :
      (s t : S) (ip other : String) (r : ScoreRecord F) (ttl : Duration)
      → IsSound s
      → store.put_score s ip r ttl ≡ ok t
      → store.get_score t other ≡ (if str_eq ip other then ok r else store.get_score s other)
