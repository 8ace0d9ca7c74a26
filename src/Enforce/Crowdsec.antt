-- ===== src/Enforce/Crowdsec.antt =====
-- internal/enforce/crowdsec.go: the requests that the CrowdSec backend makes. The answers of the
-- HTTP calls are arguments: for a login the decoded token with its expiry, if that parses, for any
-- other request the status; so are the printers of a time, a duration and a query's value. The
-- encoding of a request is not modelled.
pub mod Laws
mod Tests
use Prim.Native.String as Text
use federloom.Prelude.{
  ℕ, ◌+◌, Bool, true, false, not, ◌||◌, ◌&&◌, if◌then◌else◌, ltb, leb, ◌==◌, String, str_eq, List,
  [], ◌∷◌, Option, none, some, Result, ok, err,
}
use federloom.Proto.{Time, Duration}
use federloom.Enforce.{contains_char}

pub record EnforceConfig : Type 0 where
  pub crowdsec_lapi_url : String
  pub crowdsec_machine_id : String
  pub crowdsec_machine_password : String
  pub crowdsec_ban_duration : Duration

pub record CrowdSecSink : Type 0 where
  pub cfg : EnforceConfig
  pub half_life : Duration
  pub jwt : String
  pub jwt_expiry : Time
  pub ban_dur : Duration

unfoldable pub new_crowdsec : EnforceConfig → Duration → CrowdSecSink
new_crowdsec cfg half_life = record {
  cfg = cfg;
  half_life = half_life;
  jwt = "";
  jwt_expiry = 0;
  ban_dur =
      if leb cfg.crowdsec_ban_duration 0
      then if ltb 0 half_life then half_life else 604800000000000
      else cfg.crowdsec_ban_duration;
}

unfoldable pub cs_scope_for : String → String
unfolding contains_char
cs_scope_for value = if contains_char b'/' value then "Range" else "Ip"

pub data SinkError : Type 0 where
  no_url : SinkError
  no_machine : SinkError
  auth_failed : SinkError
  request_failed : SinkError
  bad_status : ℕ → SinkError

-- An answer to a login: the status, and the token with its expiry if the body decodes.
abbrev pub Login : Type 0
Login = Option (ℕ × Option (String × Option Time))

unfoldable pub authenticate : CrowdSecSink → Time → Login → Result SinkError CrowdSecSink
authenticate s now none = err request_failed
authenticate s now (some (status, body)) =
    if not (status == 200) then err (bad_status status) else elim body [
      | none ↦ err auth_failed
      | some (token, expire) ↦ ok (record s {
        jwt = token;
        jwt_expiry = elim expire [ some t ↦ t | none ↦ now + 82800000000000 ];
      })
    ]

unfoldable pub start : CrowdSecSink → Time → Login → Result SinkError CrowdSecSink
unfolding authenticate
start s now login =
    if str_eq s.cfg.crowdsec_lapi_url ""
    then err no_url
    else if str_eq s.cfg.crowdsec_machine_id "" || str_eq s.cfg.crowdsec_machine_password ""
    then err no_machine
    else authenticate s now login

unfoldable pub needs_refresh : CrowdSecSink → Time → Bool
needs_refresh s now = str_eq s.jwt "" || ltb s.jwt_expiry (now + 300000000000)

-- The sink whose token a request carries.
unfoldable pub auth_request : CrowdSecSink → Time → Login → Result SinkError CrowdSecSink
unfolding needs_refresh authenticate
auth_request s now login = if needs_refresh s now then authenticate s now login else ok s

-- The fields of an alert that are not constants.
pub record CsAlert : Type 0 where
  pub duration : Duration
  pub ip : String
  pub scope : String
  pub start_at : Time
  pub stop_at : Time

-- A request with its token.
pub data Request : Type 0 where
  post_alert : String → CsAlert → Request
  delete_decisions : String → String → Request

-- What a call gives: its error if there is one, the sink, and the request if one was made.
abbrev pub Called : Type 0
Called = Result SinkError CrowdSecSink × CrowdSecSink × Option Request

abbrev pub alert_of : String → Duration → Time → CsAlert
alert_of ip dur now = record {
  duration = dur;
  ip = ip;
  scope = cs_scope_for ip;
  start_at = now;
  stop_at = now;
}

-- The end of a call: `also` is the status that counts as success besides 200.
unfoldable pub finish : CrowdSecSink → Request → ℕ → Option ℕ → Called
finish s request also none = (err request_failed, s, some request)
finish s request also (some status) =
    if not (status == 200) && not (status == also)
    then (err (bad_status status), s, some request)
    else (ok s, s, some request)

unfoldable pub block_with_duration :
    CrowdSecSink → String → Duration → Time → Login → Option ℕ → Called
unfolding auth_request cs_scope_for finish
block_with_duration s ip dur now login answer = elim (auth_request s now login) [
  | err e ↦ (err e, s, none)
  | ok d ↦ finish d (post_alert d.jwt (alert_of ip dur now)) 201 answer
]

unfoldable pub block : CrowdSecSink → String → Time → Login → Option ℕ → Called
unfolding block_with_duration
block s ip now login answer = block_with_duration s ip s.ban_dur now login answer

unfoldable pub block_for : CrowdSecSink → String → Duration → Time → Login → Option ℕ → Called
unfolding block block_with_duration
block_for s ip ttl now login answer =
    if leb ttl 0 then block s ip now login answer else block_with_duration s ip ttl now login answer

unfoldable pub unblock : CrowdSecSink → String → Time → Login → Option ℕ → Called
unfolding auth_request finish
unblock s ip now login answer = elim (auth_request s now login) [
  | err e ↦ (err e, s, none)
  | ok d ↦ finish d (delete_decisions d.jwt ip) 204 answer
]
