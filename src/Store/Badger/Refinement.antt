-- ===== src/Store/Badger/Refinement.antt =====
-- The store as a map: what it answers after it was opened, written to, and left for a time.
use federloom.Prelude.{
  ◌≡◌, refl, ◌∙◌, ap, if◌then◌else◌, String, str_eq, List, [], ◌∷◌, Result, ok, ◌>>=◌, All,
}
use federloom.Float.{Float}
use federloom.Proto.{Duration}
use federloom.Store.{ScoreRecord, StoreError, empty_record}
use federloom.Store.Badger.{
  Database, Filter, Encoding, BadgerStore, decoded, read_error, get_score, put_score, open_store,
}
use federloom.Store.Badger.Laws.{
  IsWarm, Decodes, lapsed_store, lapse-IsWarm, get_score-lapse, get_score_transparent, put-IsWarm,
  get-put_score, open_store-IsWarm,
}

-- What happens to a store: a record is written for a key, or the time to live of a key ends.
pub data Change (F : Type 0) : Type 0 where
  wrote : String → ScoreRecord F → Change F
  lapsed : String → Change F

-- The map that the changes so far make of one there was before: the latest change stands first.
abbrev pub after_changes :
    {F : Type 0} ⦃f : Float F⦄
    → List (Change F)
    → (String → Result StoreError (ScoreRecord F))
    → String
    → Result StoreError (ScoreRecord F)
after_changes [] base ip = base ip
after_changes (wrote k r ∷ changes) base ip =
    if str_eq k ip then ok r else after_changes changes base ip
after_changes (lapsed k ∷ changes) base ip =
    if str_eq k ip then ok empty_record else after_changes changes base ip

after_changes_same :
    {F : Type 0} ⦃f : Float F⦄ (changes : List (Change F))
    (a b : String → Result StoreError (ScoreRecord F)) (ip : String)
    → a ip ≡ b ip
    → after_changes changes a ip ≡ after_changes changes b ip
after_changes_same [] a b ip h = h
after_changes_same (wrote k r ∷ changes) a b ip h =
    ap (λ x. if str_eq k ip then ok r else x) (after_changes_same changes a b ip h)
after_changes_same (lapsed k ∷ changes) a b ip h =
    ap (λ x. if str_eq k ip then ok empty_record else x) (after_changes_same changes a b ip h)

module _ {F D B : Type 0} ⦃f : Float F⦄ (database : Database D) (filter : Filter B)
    (json : Encoding F) where
  -- The stores that writes that succeed and ends of a time to live lead to, with these changes.
  pub data Changed (s : BadgerStore D B) : List (Change F) → BadgerStore D B → Type 0 where
    opened : Changed s [] s
    written :
        {changes : List (Change F)} {t u : BadgerStore D B} (ip : String) (r : ScoreRecord F)
        (ttl : Duration)
        → Changed s changes t
        → put_score database filter json t ip r ttl ≡ ok u
        → Changed s (wrote ip r ∷ changes) u
    ended :
        {changes : List (Change F)} {t : BadgerStore D B} (ip : String)
        → Changed s changes t
        → Changed s (lapsed ip ∷ changes) (lapsed_store database filter json t ip)

  -- What a database answers by itself.
  abbrev pub stored : D → String → Result StoreError (ScoreRecord F)
  stored db ip = read_error (database.view db ip) >>= decoded json

  Changed-IsWarm :
      (s t : BadgerStore D B) (changes : List (Change F))
      → Changed s changes t
      → IsWarm database filter json s
      → IsWarm database filter json t
  Changed-IsWarm s t _ opened warm = warm
  Changed-IsWarm s u _ (written {changes} {t} ip r ttl before put) warm =
      put-IsWarm database filter json t u ip r ttl put (Changed-IsWarm s t changes before warm)
  Changed-IsWarm s u _ (ended {changes} {t} ip before) warm =
      lapse-IsWarm database filter json t ip (Changed-IsWarm s t changes before warm)

  get_score-after_changes :
      (s t : BadgerStore D B) (changes : List (Change F)) (ip : String)
      → Changed s changes t
      → IsWarm database filter json s
      → get_score database filter json t ip
        ≡ after_changes changes (get_score database filter json s) ip
  get_score-after_changes s t _ ip opened warm = refl
  get_score-after_changes s u _ ip (written {changes} {t} k r ttl before put) warm =
      get-put_score database filter json t u k r ttl put ip (Changed-IsWarm s t changes before warm)
      ∙ ap (λ x. if str_eq k ip then ok r else x)
          (get_score-after_changes s t changes ip before warm)
  get_score-after_changes s u _ ip (ended {changes} {t} k before) warm =
      get_score-lapse database filter json t k ip (Changed-IsWarm s t changes before warm)
      ∙ ap (λ x. if str_eq k ip then ok empty_record else x)
          (get_score-after_changes s t changes ip before warm)

  -- When every value of a database decodes: however often the store that is opened on it is
  -- written to, for whatever keys, as long as the writes succeed, and whenever the time to live of
  -- a key ends in between, it answers for every key with the record that was written for it last,
  -- or with the empty record if its time to live has ended since then, and for a key of which
  -- neither holds with what the database held when it was opened. The filter is not seen.
  pub get_score-refines :
      (db : D) (fresh : B) (changes : List (Change F)) (t : BadgerStore D B) (ip : String)
      → All (Decodes database filter json) (database.entries db)
      → Changed (open_store database filter json db fresh) changes t
      → get_score database filter json t ip ≡ after_changes changes (stored db) ip
  unfolding open_store
  get_score-refines db fresh changes t ip decodes reached =
      let s = open_store database filter json db fresh in
      let warm = open_store-IsWarm database filter json db fresh decodes in
      get_score-after_changes s t changes ip reached warm
      ∙ after_changes_same changes _ (stored db) ip
          (get_score_transparent database filter json s ip warm)
