-- ===== src/Ingest/Opencanary.antt =====
-- internal/ingest/opencanary.go: tails an OpenCanary log of one JSON object a line. The decoder of
-- a line is a parameter.
use federloom.Prelude.{ℕ, if◌then◌else◌, String, str_eq, List, [], ◌∷◌, Option, none, some, ◌==◌}
use federloom.Proto.{Duration, Event}
use federloom.Ingest.Tail.{Tick, tail, tail_start, effective_interval}
use federloom.Ingest.Tail.Lines.{Line}

pub data ℤ : Type 0 where
  pos : ℕ → ℤ
  negsuc : ℕ → ℤ

pub record OpenCanaryEvent : Type 0 where
  pub src_host : String
  pub log_type : ℤ
  pub local_time : String

abbrev pub open_canary_reasons : List (ℕ × String)
open_canary_reasons =
    (2000, "ftp-login-attempt")
    ∷ (2001, "ftp-auth-attempt")
    ∷ (3000, "http-probe")
    ∷ (3001, "http-post-login")
    ∷ (3002, "http-unimplemented")
    ∷ (3003, "http-redirect")
    ∷ (4000, "ssh-new-connection")
    ∷ (4001, "ssh-remote-version")
    ∷ (4002, "ssh-login-attempt")
    ∷ (5000, "smb-file-open")
    ∷ (6001, "telnet-login-attempt")
    ∷ (7001, "http-proxy-login")
    ∷ (8001, "mysql-login-attempt")
    ∷ []

unfoldable pub reason_of : List (ℕ × String) → ℤ → Option String
reason_of [] t = none
reason_of ((n, reason) ∷ reasons) (pos t) =
    if n == t then some reason else reason_of reasons (pos t)
reason_of ((n, reason) ∷ reasons) (negsuc t) = none

pub record OpenCanaryConfig : Type 0 where
  pub poll_interval : Duration

pub record OpenCanary : Type 0 where
  pub cfg : OpenCanaryConfig
  pub self_id : String

unfoldable pub new_opencanary : OpenCanaryConfig → String → OpenCanary
new_opencanary cfg self_id = record { cfg = cfg; self_id = self_id }

module _ (unmarshal : Line → Option OpenCanaryEvent) where
  unfoldable pub opencanary_line : Line → Option (String × String)
  unfolding reason_of
  opencanary_line line = elim (unmarshal line) [
    | none ↦ none
    | some e ↦
        let reason : String = elim (reason_of open_canary_reasons e.log_type) [
          | some r ↦ r
          | none ↦ "opencanary-unknown"
        ] in
        if str_eq e.src_host "" then none else some (e.src_host, reason)
  ]

  unfoldable pub tail_opencanary : OpenCanary → List Tick → List Event
  unfolding tail opencanary_line
  tail_opencanary h ticks = tail opencanary_line h.self_id ticks tail_start

unfoldable pub opencanary_interval : OpenCanary → Duration
unfolding effective_interval
opencanary_interval h = effective_interval h.cfg.poll_interval
