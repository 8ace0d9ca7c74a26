-- ===== src/Store/Badger/Tests.antt =====
-- A store with a filter that is a list of keys.
use mathlib.Core.Path.{subst}
use federloom.Prelude.{
  ℕ, ◌≡◌, refl, Bool, true, false, zero, suc, arith, Option, String, eq_refl, List, [], ◌∷◌, none,
  some, Assoc, lookup, insert, delete, str_eq, if◌then◌else◌, lookup-delete, Result, keys,
  contains_string, lookup-insert, ok,
}
use federloom.Float.{Fixed, pos, negsuc, fixed_float}
use federloom.Proto.{Bytes}
use federloom.Store.{ScoreRecord, StoreError, empty_record}
use federloom.Store.Badger.{
  Database, Filter, Encoding, BadgerStore, get_score, put_score, scan_scores, open_store,
}
use federloom.Store.Badger.Refinement.{
  Change, wrote, lapsed, after_changes, stored, opened, written, ended, get_score-refines,
}

lookup_absent :
    (m : Assoc Bytes) (k : String) → contains_string (keys m) k ≡ false → lookup k m ≡ none
unfolding lookup
lookup_absent [] k h = refl
lookup_absent ((j, v) ∷ m) k h = ground (arith, lookup_absent m k)

abbrev viewed : Assoc Bytes → String → Result StoreError (Option Bytes)
viewed m k = ok (lookup k m)

viewed-delete :
    (m : Assoc Bytes) (k j : String)
    → viewed (delete k m) j ≡ (if str_eq k j then ok none else viewed m j)
viewed-delete m k j = ground (arith, lookup-delete k j m)

abbrev memory : Database (Assoc Bytes)
memory = record {
  view = viewed;
  update = λ m k v ttl. ok (insert k v m);
  remove = λ m k. ok (delete k m);
  entries = λ m. m;
  lapse = λ m k. delete k m;
  view-lapse = λ m k j. viewed-delete m k j;
  view-update = λ d e k j v ttl h. ground (arith, lookup-insert k j v d);
  view-entries = λ m k h. ground (arith, lookup_absent m k h);
}

abbrev exact : Filter (List String)
exact = record {
  add = λ b k. k ∷ b;
  test = contains_string;
  test-add_self = λ b k. ground (arith, eq_refl k);
  test-add = λ b k j h. ground arith;
}

-- An encoding of the records that hold no more than a score, a count and two times; no other can be
-- encoded.
abbrev read_plain : Bytes → Option (ScoreRecord Fixed)
read_plain (s ∷ c ∷ a ∷ b ∷ []) =
    some (record empty_record { score = pos s; corroboration = c; first_seen = a; last_seen = b })
read_plain [] = none
read_plain (s ∷ []) = none
read_plain (s ∷ c ∷ []) = none
read_plain (s ∷ c ∷ a ∷ []) = none
read_plain (s ∷ c ∷ a ∷ b ∷ d ∷ e) = none

abbrev no_names : List String → Option Bytes → Option Bytes
no_names [] k = k
no_names (x ∷ xs) k = none

abbrev unseen : Bool → Option Bytes → Option Bytes
unseen false k = k
unseen true k = none

abbrev no_part : Fixed → Option Bytes → Option Bytes
no_part (pos zero) k = k
no_part (pos (suc n)) k = none
no_part (negsuc n) k = none

abbrev write_score : Fixed → ℕ → ℕ → ℕ → Option Bytes
write_score (pos s) c a b = some (s ∷ c ∷ a ∷ b ∷ [])
write_score (negsuc s) c a b = none

abbrev write_plain : ScoreRecord Fixed → Option Bytes
write_plain r = no_names r.reasons (
    no_names r.reporter_ids (
      no_names r.groups (
        unseen r.stranger_seen (
          no_part r.stranger_contrib (
            no_names r.subnets_seen (
              no_names r.dispute_subnets_seen (
                no_part r.dispute_contrib
                  (write_score r.score r.corroboration r.first_seen r.last_seen))))))))

some_inj : {u v : Bytes} → some u ≡ some v → u ≡ v
some_inj h = cc h

read_back :
    (s : Fixed) (c a b : ℕ) (rs ids gs : List String) (seen : Bool) (x : Fixed)
    (ss ds : List String) (y : Fixed) (v : Bytes)
    → let r : ScoreRecord Fixed = record {
      score = s;
      corroboration = c;
      first_seen = a;
      last_seen = b;
      reasons = rs;
      reporter_ids = ids;
      groups = gs;
      stranger_seen = seen;
      stranger_contrib = x;
      subnets_seen = ss;
      dispute_subnets_seen = ds;
      dispute_contrib = y;
    } in
      write_plain r ≡ some v → read_plain v ≡ some r
read_back s c a b (z ∷ rs) ids gs seen x ss ds y v h = cc
read_back s c a b [] (z ∷ ids) gs seen x ss ds y v h = cc
read_back s c a b [] [] (z ∷ gs) seen x ss ds y v h = cc
read_back s c a b [] [] [] true x ss ds y v h = cc
read_back s c a b [] [] [] false (negsuc n) ss ds y v h = cc
read_back s c a b [] [] [] false (pos (suc n)) ss ds y v h = cc
read_back s c a b [] [] [] false (pos zero) (z ∷ ss) ds y v h = cc
read_back s c a b [] [] [] false (pos zero) [] (z ∷ ds) y v h = cc
read_back s c a b [] [] [] false (pos zero) [] [] (negsuc n) v h = cc
read_back s c a b [] [] [] false (pos zero) [] [] (pos (suc n)) v h = cc
read_back (negsuc s) c a b [] [] [] false (pos zero) [] [] (pos zero) v h = cc
read_back (pos s) c a b [] [] [] false (pos zero) [] [] (pos zero) v h =
    subst (λ w. read_plain w ≡ read_plain (s ∷ c ∷ a ∷ b ∷ [])) (some_inj h) refl

abbrev plain : Encoding Fixed
plain = record {
  marshal = write_plain;
  unmarshal = read_plain;
  unmarshal-marshal = λ r v h.
      read_back r.score r.corroboration r.first_seen r.last_seen r.reasons r.reporter_ids r.groups
        r.stranger_seen r.stranger_contrib r.subnets_seen r.dispute_subnets_seen r.dispute_contrib v
        h;
}

abbrev saved : ScoreRecord Fixed
saved = record empty_record { score = pos 7000; corroboration = 1; first_seen = 10; last_seen = 20 }

-- The database holds one record when it is opened; another is written, and then the first one's
-- time to live ends.
abbrev held : Assoc Bytes
held = ("192.0.2.1", 5 ∷ 1 ∷ 2 ∷ 3 ∷ []) ∷ []

abbrev changes : List (Change Fixed)
changes = lapsed "192.0.2.1" ∷ wrote "192.0.2.2" saved ∷ []

abbrev later : BadgerStore (Assoc Bytes) (List String)
later = record {
  db = ("192.0.2.2", 7000 ∷ 1 ∷ 10 ∷ 20 ∷ []) ∷ [];
  bloom = "192.0.2.2" ∷ "192.0.2.1" ∷ [];
}

get_score-refines_example :
    get_score memory exact plain later "192.0.2.2"
    ≡ after_changes changes (stored memory exact plain held) "192.0.2.2"
unfolding open_store scan_scores put_score insert delete
get_score-refines_example =
    get_score-refines memory exact plain held [] changes later "192.0.2.2" ((λ e. cc), tt)
      (ended "192.0.2.1" (written "192.0.2.2" saved 60 opened refl))
