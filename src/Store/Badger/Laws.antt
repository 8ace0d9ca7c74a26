-- ===== src/Store/Badger/Laws.antt =====
-- The bloom filter is transparent: behind it the store answers as the database alone would, as
-- long as every stored key was added. A scan that stops at `Open` breaks that.
use federloom.Prelude.{
  ◌≡◌, ◌≢◌, inl, inr, true, false, Bool-cases, if◌then◌else◌, arith, String, str_eq, eq_iff, List,
  [], ◌∷◌, All, contains_string, keys, none, some, Result, ok, ◌>>=◌,
}
use federloom.Float.{Float}
use federloom.Proto.{Bytes, Duration}
use federloom.Store.{ScoreRecord, StoreError, ScoreStore, IsScoreStore, empty_record}
use federloom.Store.Badger.{
  Database, Filter, Encoding, BadgerStore, decoded, read_error, get_score, put_score, scan_scores,
  open_store,
}

module _ {F D B : Type 0} ⦃f : Float F⦄ (database : Database D) (filter : Filter B)
    (json : Encoding F) where
  -- What the filter rejects is not in the database.
  abbrev pub IsWarm : BadgerStore D B → Type 0
  IsWarm s = (k : String) → filter.test s.bloom k ≡ false → database.view s.db k ≡ ok none

  -- On a warm store the filter changes no answer.
  pub get_score_transparent :
      (s : BadgerStore D B) (ip : String)
      → IsWarm s
      → get_score database filter json s ip ≡ (read_error (database.view s.db ip) >>= decoded json)
  unfolding get_score decoded read_error
  get_score_transparent s ip warm = elim (Bool-cases (filter.test s.bloom ip)) [
    | inl maybe ↦ rw maybe
    | inr absent ↦ rw (absent, warm ip absent)
  ]

  module _ (s t : BadgerStore D B) (ip : String) (rec : ScoreRecord F) (ttl : Duration)
      (put : put_score database filter json s ip rec ttl ≡ ok t) where
    -- The parts of a write that succeeded.
    put_parts :
        (v : Bytes) × (json.marshal rec ≡ some v)
        × (database.update s.db ip v ttl ≡ ok t.db)
        × (t.bloom ≡ filter.add s.bloom ip)
    unfolding put_score
    put_parts = ground arith

    pub put-IsWarm : IsWarm s → IsWarm t
    put-IsWarm warm k rejected =
        let (v, _, stored, filtered) = put_parts in
        let kept = filter.test-add s.bloom ip k in
        let added = filter.test-add_self s.bloom ip in
        let reads = database.view-update s.db t.db ip k v ttl stored in
        ground (arith, eq_iff ip k, warm k, kept, added, reads, filtered)

    pub get-put_score :
        (other : String)
        → IsWarm s
        → get_score database filter json t other
          ≡ (if str_eq ip other then ok rec else get_score database filter json s other)
    unfolding get_score decoded read_error
    get-put_score other warm =
        let (v, encoded, stored, filtered) = put_parts in
        let decodes = json.unmarshal-marshal rec v encoded in
        let kept = filter.test-add s.bloom ip other in
        let added = filter.test-add_self s.bloom ip in
        let reads = database.view-update s.db t.db ip other v ttl stored in
        ground (arith, eq_iff ip other, warm other, kept, added, reads, decodes, filtered)

  -- The store when the time to live of a key has ended.
  abbrev pub lapsed_store : BadgerStore D B → String → BadgerStore D B
  lapsed_store s k = record s { db = database.lapse s.db k }

  pub lapse-IsWarm : (s : BadgerStore D B) (k : String) → IsWarm s → IsWarm (lapsed_store s k)
  lapse-IsWarm s k warm j rejected = ground (arith, database.view-lapse s.db k j, warm j rejected)

  pub get_score-lapse :
      (s : BadgerStore D B) (k ip : String)
      → IsWarm s
      → get_score database filter json (lapsed_store s k) ip
        ≡ (if str_eq k ip then ok empty_record else get_score database filter json s ip)
  unfolding get_score decoded read_error
  get_score-lapse s k ip warm =
      let reads = database.view-lapse s.db k ip in ground (arith, reads, warm ip)

  -- The store is what the engine asks for.
  pub badger_store : ScoreStore F (BadgerStore D B)
  badger_store = record {
    get_score = get_score database filter json;
    put_score = put_score database filter json;
  }

  -- A record that was written is read back, no other key is disturbed, and the filter stays warm.
  pub badger-IsScoreStore : IsScoreStore badger_store
  unfolding badger_store
  badger-IsScoreStore = record {
    IsSound = IsWarm;
    put-IsSound = λ s t ip r ttl warm put. put-IsWarm s t ip r ttl put warm;
    get-put = λ s t ip other r ttl warm put. get-put_score s t ip r ttl put other warm;
  }

  abbrev warm_up : String → ScoreRecord F → B → Result StoreError B
  warm_up ip rec b = ok (filter.add b ip)

  abbrev pub Decodes : String × Bytes → Type 0
  Decodes e = json.unmarshal e.1 ≢ none

  scan_keeps :
      (l : List (String × Bytes)) (b : B) (k : String)
      → filter.test b k ≡ true
      → filter.test (scan_scores database filter json l warm_up b).0 k ≡ true
  unfolding scan_scores
  scan_keeps [] b k h = h
  scan_keeps ((ip, val) ∷ rest) b k h =
      ground (arith, scan_keeps rest (filter.add b ip) k (filter.test-add b ip k h))

  scan_adds :
      (l : List (String × Bytes)) (b : B) (k : String)
      → All Decodes l
      → contains_string (keys l) k ≡ true
      → filter.test (scan_scores database filter json l warm_up b).0 k ≡ true
  unfolding scan_scores
  scan_adds [] b k d h = cc
  scan_adds ((ip, val) ∷ rest) b k d h = ground (
    arith,
    d.0,
    eq_iff ip k,
    filter.test-add_self b ip,
    scan_keeps rest (filter.add b ip) k,
    scan_adds rest (filter.add b ip) k d.1,
  )

  -- If every stored value decodes, an opened store is warm.
  pub open_store-IsWarm :
      (db : D) (fresh : B)
      → All Decodes (database.entries db)
      → IsWarm (open_store database filter json db fresh)
  unfolding open_store
  open_store-IsWarm db fresh d k rejected =
      elim (Bool-cases (contains_string (keys (database.entries db)) k)) [
        | inl there ↦ cc (scan_adds (database.entries db) fresh k d there)
        | inr missing ↦ database.view-entries db k missing
      ]
