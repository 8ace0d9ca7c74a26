-- ===== src/Ingest/Crowdsec.antt =====
-- internal/ingest/crowdsec.go: polls a CrowdSec instance for its decisions and alerts. The answers
-- of the HTTP calls, decoded, are arguments; so are the printer of a number, the parser of an RFC
-- 3339 time (an `Option Time` where the code holds a text) and net/netip.
pub mod Laws
mod Tests
use Prim.Native.String as Text
use Prim.Native.Char.{Char, code}
use federloom.Prelude.{
  ℕ, zero, suc, ◌+◌, ◌-◌, ◌/◌, Bool, true, false, not, ◌&&◌, ◌||◌, if◌then◌else◌, ltb, leb, ◌==◌,
  String, str_eq, List, [], ◌∷◌, Option, none, some, Assoc, lookup, Result, ok, err,
}
use federloom.Proto.{Time, Duration, Event, is_zero}
use federloom.Netutil.{Netip, unmap}
use federloom.Ingest.{event_of}

abbrev pub scenario_map : Assoc String
scenario_map =
    ("crowdsecurity/ssh-bf", "ssh-auth-bruteforce")
    ∷ ("crowdsecurity/ssh-slow-bf", "ssh-auth-bruteforce")
    ∷ ("crowdsecurity/ssh-bf-wordpress", "ssh-auth-bruteforce")
    ∷ ("crowdsecurity/http-probing", "http-probe")
    ∷ ("crowdsecurity/http-bf", "http-probe")
    ∷ ("crowdsecurity/smtp-bf", "smtp-auth-bruteforce")
    ∷ []

-- What follows the last '/', `none` without one.
unfoldable pub after_last_slash : String → Option String
after_last_slash Text.[] = none
after_last_slash (Text.◌∷◌ c s) = elim (after_last_slash s) [
  | some r ↦ some r
  | none ↦ if code c == b'/' then some s else none
]

unfoldable pub map_scenario : String → String
unfolding lookup after_last_slash
map_scenario scenario = elim (lookup scenario scenario_map) [
  | some r ↦ r
  | none ↦ elim (after_last_slash scenario) [ some r ↦ r | none ↦ scenario ]
]

pub record CrowdSecConfig : Type 0 where
  pub lapi_url : String
  pub api_key : String
  pub machine_id : String
  pub machine_password : String
  pub poll_interval : Duration
  pub enable_decisions : Bool
  pub enable_alerts : Bool

pub record CrowdSec : Type 0 where
  pub cfg : CrowdSecConfig
  pub self_id : String
  pub startup : Bool
  pub last_alert : Time
  pub jwt : String
  pub jwt_expiry : Time

unfoldable pub new_crowdsec : CrowdSecConfig → String → CrowdSec
new_crowdsec cfg self_id = record {
  cfg = cfg;
  self_id = self_id;
  startup = true;
  last_alert = 0;
  jwt = "";
  jwt_expiry = 0;
}

-- An answer to a request: its status, and its body if that decodes.
abbrev pub Reply : Type 0 → Type 0
Reply A = Option (ℕ × Option A)

unfoldable pub do_request : {A : Type 0} → Reply A → Option A
do_request none = none
do_request (some (status, body)) = if status == 200 then body else none

-- `authenticate`: the token, and its expiry if that parses.
unfoldable pub authenticate : CrowdSec → Time → Reply (String × Option Time) → Option CrowdSec
unfolding do_request
authenticate c now login = elim (do_request login) [
  | none ↦ none
  | some (token, expire) ↦ some (record c {
    jwt = token;
    jwt_expiry = elim expire [ some t ↦ t | none ↦ now + 82800000000000 ];
  })
]

abbrev pub has_machine : CrowdSecConfig → Bool
has_machine cfg = not (str_eq cfg.machine_id "") && not (str_eq cfg.machine_password "")

pub data StartError : Type 0 where
  no_url : StartError
  no_api_key : StartError
  no_machine : StartError
  nothing_enabled : StartError
  initial_auth : StartError

-- The source as the polls find it, with their interval.
unfoldable pub start :
    CrowdSec → Time → Reply (String × Option Time) → Result StartError (CrowdSec × Duration)
unfolding authenticate
start c now login =
    let interval = if leb c.cfg.poll_interval 0 then 30000000000 else c.cfg.poll_interval in
    if str_eq c.cfg.lapi_url ""
    then err no_url
    else if c.cfg.enable_decisions && str_eq c.cfg.api_key ""
    then err no_api_key
    else if c.cfg.enable_alerts && not (has_machine c.cfg)
    then err no_machine
    else if not c.cfg.enable_decisions && not c.cfg.enable_alerts
    then err nothing_enabled
    else if has_machine c.cfg && c.cfg.enable_alerts
    then elim (authenticate c now login) [ none ↦ err initial_auth | some d ↦ ok (d, interval) ]
    else ok (c, interval)

pub record CsDecision : Type 0 where
  pub value : String
  pub kind : String
  pub scenario : String
  pub origin : String

pub record CsAlert : Type 0 where
  pub source_ip : String
  pub scenario : String
  pub start_at : Option Time

unfoldable pub decisions_url : CrowdSec → String
decisions_url c =
    Text.◌++◌ c.cfg.lapi_url
      (Text.◌++◌ "/v1/decisions/stream?startup=" (if c.startup then "true" else "false"))

-- The loop over the new decisions; the channel takes `sends` events before the context is done.
unfoldable pub send_decisions : String → Time → List CsDecision → ℕ → List Event
unfolding event_of map_scenario
send_decisions self_id now [] sends = []
send_decisions self_id now (d ∷ ds) sends =
    let skipped = send_decisions self_id now ds sends in
    if not (str_eq d.kind "ban") || str_eq d.value ""
    then skipped
    else if str_eq d.origin "capi" || str_eq d.origin "lists"
    then skipped
    else elim sends [
      | zero ↦ []
      | suc n ↦
          event_of d.value (map_scenario d.scenario) now self_id ∷ send_decisions self_id now ds n
    ]

-- The new decisions of the stream; the deleted ones are not read.
unfoldable pub fetch_decisions :
    CrowdSec → Time → Reply (List CsDecision) → ℕ → List Event × CrowdSec
unfolding do_request send_decisions
fetch_decisions c now reply sends = elim (do_request reply) [
  | none ↦ ([], c)
  | some new ↦ (send_decisions c.self_id now new sends, record c { startup = false })
]

-- The age that the next request for alerts asks for, in whole seconds.
unfoldable pub since_seconds : CrowdSec → Time → ℕ
since_seconds c now =
    (if is_zero c.last_alert then 86400000000000 else (now - c.last_alert) + 10000000000)
    / 1000000000

unfoldable pub alerts_url : (ℕ → String) → CrowdSec → Time → String
unfolding since_seconds
alerts_url itoa c now =
    Text.◌++◌ c.cfg.lapi_url
      (Text.◌++◌ "/v1/alerts?since=" (Text.◌++◌ (itoa (since_seconds c now)) "s&limit=500"))

-- The token is renewed when there is none, and from five minutes before it expires on.
unfoldable pub needs_refresh : CrowdSec → Time → Bool
needs_refresh c now = str_eq c.jwt "" || ltb c.jwt_expiry (now + 300000000000)

-- The source that the request is made with, `none` if the token cannot be renewed.
unfoldable pub with_machine : CrowdSec → Time → Reply (String × Option Time) → Option CrowdSec
unfolding needs_refresh authenticate
with_machine c now login = if needs_refresh c now then authenticate c now login else some c

module _ (ip : Netip) where
  -- The events, and whether the loop ran to its end.
  unfoldable pub send_alerts : String → Time → List CsAlert → ℕ → List Event × Bool
  unfolding event_of map_scenario
  send_alerts self_id now [] sends = ([], true)
  send_alerts self_id now (a ∷ rest) sends =
      let skipped = send_alerts self_id now rest sends in
      if str_eq a.source_ip "" then skipped else elim (ip.parse_addr a.source_ip) [
        | none ↦ skipped
        | some addr ↦ elim sends [
          | zero ↦ ([], false)
          | suc n ↦
              let (events, done) = send_alerts self_id now rest n in
              let at : Time = elim a.start_at [ some t ↦ t | none ↦ now ] in
              (
                event_of (ip.show_addr (unmap addr)) (map_scenario a.scenario) at self_id ∷ events,
                done,
              )
        ]
      ]

  -- `now` is when the request is made, `poll_time` when the answer is read.
  unfoldable pub fetch_alerts :
      CrowdSec
      → Time
      → Time
      → Reply (String × Option Time)
      → Reply (List CsAlert)
      → ℕ
      → List Event × CrowdSec
  unfolding with_machine do_request send_alerts
  fetch_alerts c now poll_time login reply sends = elim (with_machine c now login) [
    | none ↦ ([], c)
    | some d ↦ elim (do_request reply) [
      | none ↦ ([], d)
      | some alerts ↦
          let (events, done) = send_alerts d.self_id poll_time alerts sends in
          (events, if done then record d { last_alert = poll_time } else d)
    ]
  ]
