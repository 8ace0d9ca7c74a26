-- ===== src/Store/Badger.antt =====
-- internal/store/store.go and bloom.go: the Badger store behind a bloom filter. The database, the
-- filter and the JSON encoding are not the repository's: they are parameters, with the documented
-- facts that the store relies on. An entry's time to live ends between two calls: that is a step of
-- the database's own, `lapse`, after which the key reads as one that is not there.
pub mod Laws
pub mod Refinement
mod Tests
use federloom.Prelude.{
  ◌≡◌, refl, sym, ap, ◌∙◌, ◌⊎◌, inl, inr, Bool, true, false, Bool-cases, if◌then◌else◌, arith,
  String, str_eq, eq_iff, eq_refl, List, [], ◌∷◌, contains_string, keys, Option, none, some,
  Option-cases, Result, ok, err, ◌>>=◌, wrap,
}
use federloom.Float.{Float}
use federloom.Proto.{Bytes, Duration}
use federloom.Store.{ScoreRecord, StoreError, ScoreStore, IsScoreStore, empty_record}

-- github.com/dgraph-io/badger: a transactional map from keys to values. `ok none` is
-- ErrKeyNotFound.
pub record Database (D : Type 0) : Type 0 where
  pub view : D → String → Result StoreError (Option Bytes)
  pub update : D → String → Bytes → Duration → Result StoreError D
  pub remove : D → String → Result StoreError D
  pub entries : D → List (String × Bytes)
  -- the database when the time to live of a key has ended
  pub lapse : D → String → D
  -- what a write leaves until its time to live ends
  pub view-update :
      (d e : D) (k j : String) (v : Bytes) (ttl : Duration)
      → update d k v ttl ≡ ok e
      → view e j ≡ (if str_eq k j then ok (some v) else view d j)
  pub view-lapse :
      (d : D) (k j : String) → view (lapse d k) j ≡ (if str_eq k j then ok none else view d j)
  -- an iteration visits every key that can be read
  pub view-entries :
      (d : D) (k : String) → contains_string (keys (entries d)) k ≡ false → view d k ≡ ok none

-- github.com/bits-and-blooms/bloom: what was added is found.
pub record Filter (B : Type 0) : Type 0 where
  pub add : B → String → B
  pub test : B → String → Bool
  pub test-add_self : (b : B) (k : String) → test (add b k) k ≡ true
  pub test-add : (b : B) (k j : String) → test b j ≡ true → test (add b k) j ≡ true

-- encoding/json on a record: what was encoded is decoded. `none` is an error (of NaN, say).
pub record Encoding (F : Type 0) : Type 0 where
  pub marshal : ScoreRecord F → Option Bytes
  pub unmarshal : Bytes → Option (ScoreRecord F)
  pub unmarshal-marshal :
      (r : ScoreRecord F) (b : Bytes) → marshal r ≡ some b → unmarshal b ≡ some r

pub record BadgerStore (D B : Type 0) : Type 0 where
  pub db : D
  pub bloom : B

-- The record that a value encodes; a key that is not there reads as an empty record.
pub decoded :
    {F : Type 0} ⦃f : Float F⦄ → Encoding F → Option Bytes → Result StoreError (ScoreRecord F)
decoded json none = ok empty_record
decoded json (some v) = elim (json.unmarshal v) [ none ↦ err "store: get" | some rec ↦ ok rec ]

-- `fmt.Errorf("store: get %q: %w", ip, err)`
pub read_error : {A : Type 0} → Result StoreError A → Result StoreError A
read_error = wrap "store: get"

module _ {F D B : Type 0} ⦃f : Float F⦄ (database : Database D) (filter : Filter B)
    (json : Encoding F) where
  pub get_score : BadgerStore D B → String → Result StoreError (ScoreRecord F)
  unfolding decoded read_error
  get_score s ip =
      if filter.test s.bloom ip
      then (do v ← read_error (database.view s.db ip); decoded json v)
      else ok empty_record

  pub put_score :
      BadgerStore D B → String → ScoreRecord F → Duration → Result StoreError (BadgerStore D B)
  put_score s ip rec ttl = elim (json.marshal rec) [
    | none ↦ err "store: marshal"
    | some val ↦ do
      db ← database.update s.db ip val ttl
      ok (record { db = db; bloom = filter.add s.bloom ip })
  ]

  pub delete_score : BadgerStore D B → String → Result StoreError (BadgerStore D B)
  delete_score s ip = do db ← database.remove s.db ip; ok (record s { db = db })

  -- The scan stops at the first value that does not decode, and at the first error of `fn`.
  pub scan_scores :
      {T : Type 0}
      → List (String × Bytes)
      → (String → ScoreRecord F → T → Result StoreError T)
      → T
      → T × Option StoreError
  scan_scores [] fn t = (t, none)
  scan_scores ((ip, val) ∷ rest) fn t = elim (json.unmarshal val) [
    | none ↦ (t, some "store: unmarshal")
    | some rec ↦ elim (fn ip rec t) [ err m ↦ (t, some m) | ok t' ↦ scan_scores rest fn t' ]
  ]

  -- `Open` on an opened database: the filter is rebuilt from the entries, and an error of the
  -- scan is ignored.
  pub open_store : D → B → BadgerStore D B
  unfolding scan_scores
  open_store db fresh = record {
    db = db;
    bloom = (scan_scores (database.entries db) (λ ip rec b. ok (filter.add b ip)) fresh).0;
  }
