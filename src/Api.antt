-- ===== src/Api.antt =====
-- internal/api: the blocklist, CrowdSec and score endpoints. A request is its parameters: a
-- `min_score` that is missing or does not parse is `none`. What the scan of the store visits is a
-- list; `strings.TrimSpace` and `sort.Slice` are parameters. HTTP and its encodings are not
-- modelled.
pub mod Agreement
pub mod Events
mod Tests
use Prim.Native.String as Text
use Prim.Native.Char.{code}
use text.Mathlib.Text.{starts_with}
use federloom.Prelude.{
  ℕ, Bool, true, false, not, ◌&&◌, ◌||◌, if◌then◌else◌, ◌==◌, String, str_eq, List, [], ◌∷◌, map,
  length, Option, none, some, Assoc, lookup, insert, Result, ok, err,
}
use federloom.Float.{Float, ◌<?◌, ◌≤?◌}
use federloom.Proto.{Time, is_zero}
use federloom.Store.{ScoreRecord, StoreError}
use federloom.Netutil.{Netip, Addr, is4, key_addr}
use federloom.Rules.{strip_star}

abbrev pub Taxonomy : Type 0
Taxonomy = Assoc (List String)

abbrev pub default_taxonomy : Taxonomy
default_taxonomy =
    ("mail", "smtp-*" ∷ "imap-*" ∷ "pop3-*" ∷ [])
    ∷ ("web", "http-*" ∷ [])
    ∷ ("ssh", "ssh-*" ∷ [])
    ∷ []

unfoldable pub merge_taxonomy : Taxonomy → Taxonomy → Taxonomy
unfolding insert
merge_taxonomy merged [] = merged
merge_taxonomy merged ((k, v) ∷ t) = merge_taxonomy (insert k v merged) t

unfoldable pub resolve_taxonomy : Taxonomy → Taxonomy
unfolding merge_taxonomy
resolve_taxonomy t = merge_taxonomy default_taxonomy t

unfoldable pub matches_pattern : String → String → Bool
unfolding strip_star
matches_pattern reason pattern = elim (strip_star pattern) [
  | some prefix ↦ starts_with reason prefix
  | none ↦ str_eq reason pattern
]

unfoldable pub matches_any : String → List String → Bool
unfolding matches_pattern
matches_any reason [] = false
matches_any reason (p ∷ ps) = if matches_pattern reason p then true else matches_any reason ps

unfoldable pub matches_patterns : List String → List String → Bool
unfolding matches_any
matches_patterns [] patterns = false
matches_patterns (r ∷ rs) patterns =
    if matches_any r patterns then true else matches_patterns rs patterns

-- No purpose, and one that the taxonomy does not have, have no patterns.
unfoldable pub purpose_patterns : Taxonomy → String → List String
unfolding lookup
purpose_patterns t purpose =
    if str_eq purpose "" then [] else elim (lookup purpose t) [ none ↦ [] | some ps ↦ ps ]

unfoldable pub split_commas : String → List String
split_commas Text.[] = "" ∷ []
split_commas (Text.◌∷◌ c s) =
    let rest = split_commas s in
    if code c == b','
    then "" ∷ rest
    else elim rest [ [] ↦ Text.◌∷◌ c "" ∷ [] | p ∷ ps ↦ Text.◌∷◌ c p ∷ ps ]

unfoldable pub non_empty : List String → List String
non_empty [] = []
non_empty (p ∷ ps) = let rest = non_empty ps in if str_eq p "" then rest else p ∷ rest

pub record BlocklistFilter (F : Type 0) : Type 0 where
  pub min_score : F
  pub purpose : String
  pub reason_patterns : List String

pub record Server (F : Type 0) : Type 0 where
  pub block_threshold : F
  pub purpose : String
  pub taxonomy : Taxonomy

pub record Query (F : Type 0) : Type 0 where
  pub min_score : Option F
  pub purpose : String
  pub reason : String

pub record BlockEntry (F : Type 0) : Type 0 where
  pub ip : String
  pub score : F
  pub last_seen : Time
  pub reasons : List String

-- What the score endpoint answers: 400, 500, 404, or the record and whether it counts as blocked.
pub data ScoreReply (F : Type 0) : Type 0 where
  bad_request : ScoreReply F
  internal_error : ScoreReply F
  not_found : ScoreReply F
  scored : String → ScoreRecord F → Bool → ScoreReply F

-- An address, or an IPv6 prefix.
unfoldable pub valid_reputation_key : Netip → String → Bool
unfolding key_addr
valid_reputation_key net ip = elim (key_addr net ip) [
  | none ↦ false
  | some addr ↦ elim (net.parse_addr ip) [ some a ↦ true | none ↦ not (is4 addr) ]
]

module _ {F : Type 0} ⦃f : Float F⦄ where
  unfoldable pub parse_blocklist_filter : (String → String) → Server F → Query F → BlocklistFilter F
  unfolding split_commas non_empty
  parse_blocklist_filter trim s q = record {
    min_score = elim q.min_score [ none ↦ s.block_threshold | some v ↦ v ];
    purpose = if str_eq q.purpose "" then s.purpose else q.purpose;
    reason_patterns =
        if str_eq q.reason "" then [] else non_empty (map trim (split_commas q.reason));
  }

  unfoldable pub pass_record : ScoreRecord F → BlocklistFilter F → List String → Bool
  unfolding matches_patterns
  pass_record rec b patterns =
      if is_zero rec.last_seen
      then false
      else if rec.score <? b.min_score
      then false
      else if not (length b.reason_patterns == 0)
      then matches_patterns rec.reasons b.reason_patterns
      else if not (length patterns == 0)
      then matches_patterns rec.reasons patterns
      else true

  -- The patterns of the purpose, which explicit reasons override.
  unfoldable pub patterns_of : Server F → BlocklistFilter F → List String
  unfolding purpose_patterns
  patterns_of s b =
      if (length b.reason_patterns == 0) && not (str_eq b.purpose "")
      then purpose_patterns s.taxonomy b.purpose
      else []

  abbrev entry_of : String → ScoreRecord F → BlockEntry F
  entry_of ip r = record { ip = ip; score = r.score; last_seen = r.last_seen; reasons = r.reasons }

  unfoldable pub passing :
      BlocklistFilter F → List String → List (String × ScoreRecord F) → List (BlockEntry F)
  unfolding pass_record
  passing b patterns [] = []
  passing b patterns ((ip, r) ∷ scan) =
      let rest = passing b patterns scan in
      if pass_record r b patterns then entry_of ip r ∷ rest else rest

  unfoldable pub handle_blocklist :
      (String → String)
      → (List (BlockEntry F) → List (BlockEntry F))
      → Server F
      → Query F
      → List (String × ScoreRecord F)
      → List (BlockEntry F)
  unfolding parse_blocklist_filter patterns_of passing
  handle_blocklist trim sort s q scan =
      let b = parse_blocklist_filter trim s q in sort (passing b (patterns_of s b) scan)

  unfoldable pub valid_passing :
      Netip → BlocklistFilter F → List String → List (String × ScoreRecord F) → List String
  unfolding valid_reputation_key pass_record
  valid_passing net b patterns [] = []
  valid_passing net b patterns ((ip, r) ∷ scan) =
      let rest = valid_passing net b patterns scan in
      if not (valid_reputation_key net ip)
      then rest
      else if pass_record r b patterns
      then ip ∷ rest
      else rest

  unfoldable pub handle_crowdsec_cti :
      (String → String) → Netip → Server F → Query F → List (String × ScoreRecord F) → List String
  unfolding parse_blocklist_filter patterns_of valid_passing
  handle_crowdsec_cti trim net s q scan =
      let b = parse_blocklist_filter trim s q in valid_passing net b (patterns_of s b) scan

  unfoldable pub handle_score :
      Server F → String → (String → Result StoreError (ScoreRecord F)) → ScoreReply F
  handle_score s ip get_score = if str_eq ip "" then bad_request else elim (get_score ip) [
    | err e ↦ internal_error
    | ok r ↦ if is_zero r.last_seen then not_found else scored ip r (s.block_threshold ≤? r.score)
  ]
