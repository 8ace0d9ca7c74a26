-- ===== src/Api/Tests.antt =====
-- A scan of three records, one of which has a key that is no address.
use federloom.Prelude.{
  ◌≡◌, refl, ◌&&◌, if◌then◌else◌, String, str_eq, List, [], ◌∷◌, some, none, contains_string,
}
use federloom.Float.{Fixed, pos, fixed_float}
use federloom.Store.{ScoreRecord, empty_record}
use federloom.Netutil.{Netip, v4}
use federloom.Api.{
  Server, Query, default_taxonomy, handle_blocklist, valid_reputation_key, handle_crowdsec_cti,
}
use federloom.Api.Agreement.{lists_ip, endpoints_agree}

abbrev net : Netip
net = record {
  parse_addr = λ s. if str_eq s "junk" then none else some (v4 7);
  parse_prefix = λ s. none;
  show_addr = λ a. "0.0.0.7";
  show_prefix = λ p. "";
}

abbrev server : Server Fixed
server = record { block_threshold = pos 80000; purpose = "ssh"; taxonomy = default_taxonomy }

abbrev query : Query Fixed
query = record { min_score = none; purpose = ""; reason = "" }

abbrev bad : ScoreRecord Fixed
bad = record empty_record { score = pos 90000; last_seen = 5; reasons = "ssh-probe" ∷ [] }

abbrev scan : List (String × ScoreRecord Fixed)
scan = ("192.0.2.1", bad) ∷ ("junk", bad) ∷ ("192.0.2.2", record bad { score = pos 100 }) ∷ []

endpoints_agree_example :
    contains_string (handle_crowdsec_cti (λ s. s) net server query scan) "junk" ≡ (
      valid_reputation_key net "junk"
      && lists_ip (handle_blocklist (λ s. s) (λ xs. xs) server query scan) "junk")
endpoints_agree_example =
    endpoints_agree (λ s. s) (λ xs. xs) net server query scan "junk" (λ xs. refl)
