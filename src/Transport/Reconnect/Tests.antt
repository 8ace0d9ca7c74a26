-- ===== src/Transport/Reconnect/Tests.antt =====
-- A hub that is restarted.
use federloom.Prelude.{◌≡◌, refl, true, false, String, str_eq, List, [], ◌∷◌, contains_string}
use federloom.Transport.Reconnect.{Host, keep_round}
use federloom.Transport.Reconnect.Laws.{refreshes, outage_ends}

abbrev peers : List String
peers = "me" ∷ "hub" ∷ "other" ∷ []

abbrev down_hub : Host
down_hub = record { self = "me"; is_connected = λ p. str_eq p "other"; connects = λ p. false }

abbrev back_hub : Host
back_hub = record {
  self = "me";
  is_connected = λ p. str_eq p "other";
  connects = λ p. str_eq p "hub";
}

outage_ends_example :
    let lost = (keep_round down_hub peers []).0 in
    (contains_string (keep_round back_hub peers lost).0 "hub" ≡ false)
    × (refreshes (keep_round back_hub peers lost).1 ≡ true)
outage_ends_example = outage_ends down_hub back_hub peers [] "hub" refl refl refl refl refl
