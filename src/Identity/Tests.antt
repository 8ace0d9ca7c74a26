-- ===== src/Identity/Tests.antt =====
-- A vote whose reason a relay changes.
use federloom.Prelude.{◌≡◌, refl, true, [], ◌∷◌, none, some}
use federloom.Proto.{Event}
use federloom.Identity.{Crypto, verify_event_sig}
use federloom.Identity.Messages.{verify_vote_open}

-- Every signature holds.
abbrev trusting : Crypto
trusting = record {
  verify = λ key text sig. true;
  base64 = λ key. "k";
  format = λ t. "t";
  format_nano = λ t. "t";
  key_of_peer = λ p. some (1 ∷ []);
  verify_peer = λ key text sig. true;
  PrivKey = Unit {0};
  sign = λ key text. some (7 ∷ []);
}

abbrev vote : Event
vote = record {
  ip = "192.0.2.1";
  reason = "";
  timestamp = 1000;
  reporter_id = "p1";
  signature = 7 ∷ [];
  subnet_id = "s1";
  origin_trace = "p1" ∷ [];
  vouch = none;
  kind = "vote";
}

verify_vote_open_example :
    verify_event_sig trusting (record vote { reason = "x"; origin_trace = "p2" ∷ []; vouch = none })
    ≡ verify_event_sig trusting vote
verify_vote_open_example = verify_vote_open trusting vote "x" ("p2" ∷ []) none refl
