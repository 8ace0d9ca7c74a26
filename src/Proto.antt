-- ===== src/Proto.antt =====
-- pkg/proto/messages.go: the messages that nodes exchange. A `time.Time` is the number of
-- nanoseconds since Go's zero time, so `IsZero` is the test for 0; a duration is a number of
-- nanoseconds; a byte slice is a list of numbers.
use federloom.Prelude.{ℕ, String, Bool, Option, List, Assoc, ◌==◌}

abbrev pub Time : Type 0
Time = ℕ

abbrev pub Duration : Type 0
Duration = ℕ

abbrev pub Bytes : Type 0
Bytes = List ℕ

abbrev pub is_zero : Time → Bool
is_zero t = t == 0

abbrev pub second : Duration
second = 1000000000

pub record PeerCert : Type 0 where
  pub peer_id : String
  pub person_key : Bytes
  pub valid_until : Time
  pub sig : Bytes

pub record Event : Type 0 where
  pub ip : String
  pub reason : String
  pub timestamp : Time
  pub reporter_id : String
  pub signature : Bytes
  pub subnet_id : String
  pub origin_trace : List String
  pub vouch : Option PeerCert
  pub kind : String

pub record WhitelistEntry : Type 0 where
  pub ip_or_range : String
  pub scope : String
  pub source : String

-- Go's `int` off the wire; `negsuc n` is -(n + 1).
pub data ℤ : Type 0 where
  pos : ℕ → ℤ
  negsuc : ℕ → ℤ

pub record EvidenceAggregate (F : Type 0) : Type 0 where
  pub ip : String
  pub scenarios : List String
  pub window_first : Time
  pub window_last : Time
  pub diversity_buckets : Assoc ℤ
  pub strangers_present : Bool
  pub evidence_weight : F
