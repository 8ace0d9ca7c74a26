-- ===== src/Ingest/Crowdsec/Tests.antt =====
-- Two polls of alerts.
use federloom.Prelude.{◌+◌, ◌*◌, ◌≤◌, ◌≡◌, refl, arith, false, true, List, [], ◌∷◌, none, some}
use federloom.Proto.{second}
use federloom.Netutil.{Netip, v4}
use federloom.Ingest.Crowdsec.{
  CrowdSecConfig, CrowdSec, CsAlert, send_alerts, since_seconds, with_machine, needs_refresh,
  fetch_alerts,
}
use federloom.Ingest.Crowdsec.Laws.{since_seconds_covers}

abbrev cfg : CrowdSecConfig
cfg = record {
  lapi_url = "http://lapi";
  api_key = "";
  machine_id = "m";
  machine_password = "p";
  poll_interval = 0;
  enable_decisions = false;
  enable_alerts = true;
}

abbrev net : Netip
net = record {
  parse_addr = λ s. some (v4 7);
  parse_prefix = λ s. none;
  show_addr = λ a. "0.0.0.7";
  show_prefix = λ p. "";
}

abbrev fresh : CrowdSec
fresh = record {
  cfg = cfg;
  self_id = "me";
  startup = true;
  last_alert = 0;
  jwt = "token";
  jwt_expiry = 500000000000;
}

abbrev alerts : List CsAlert
alerts = record { source_ip = "0.0.0.7"; scenario = "x"; start_at = some 900 } ∷ []

since_seconds_covers_example :
    let after = (fetch_alerts net fresh 1000 2000 none (some (200, some alerts)) 5).1 in
    (after.last_alert ≡ 2000)
    × (90000000000 + 9 * second ≤ since_seconds after 90000000000 * second + 2000)
unfolding with_machine needs_refresh send_alerts
since_seconds_covers_example =
    since_seconds_covers net fresh fresh 1000 2000 90000000000 none alerts 5 refl refl refl
      (omega arith)
