-- ===== src/Enforce/Crowdsec/Tests.antt =====
-- A sink without a token.
use federloom.Prelude.{none, some}
use federloom.Enforce.Crowdsec.{
  EnforceConfig, Login, new_crowdsec, post_alert, delete_decisions, alert_of, block_with_duration,
  unblock,
}
use federloom.Enforce.Crowdsec.Laws.{IsTokened, calls-IsTokened}

abbrev cfg : EnforceConfig
cfg = record {
  crowdsec_lapi_url = "http://lapi";
  crowdsec_machine_id = "m";
  crowdsec_machine_password = "p";
  crowdsec_ban_duration = 0;
}

calls-IsTokened_example :
    let s = new_crowdsec cfg 3600 in
    let login : Login = some (200, some ("token", none)) in
    IsTokened s 1000 login
      (λ token. post_alert token (alert_of "192.0.2.1" 60 1000))
      (block_with_duration s "192.0.2.1" 60 1000 login (some 201))
    × IsTokened s 1000 login
        (λ token. delete_decisions token "192.0.2.1")
        (unblock s "192.0.2.1" 1000 login (some 201))
calls-IsTokened_example =
    calls-IsTokened (new_crowdsec cfg 3600) "192.0.2.1" 60 1000 (some (200, some ("token", none)))
      (some 201)
