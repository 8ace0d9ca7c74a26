-- ===== src/Ingest/Honeypot.antt =====
-- internal/ingest/honeypot.go: tails a Cowrie log of one JSON object a line. The decoder of a line
-- is a parameter.
use federloom.Prelude.{
  if◌then◌else◌, String, str_eq, List, [], ◌∷◌, Option, none, some, Assoc, lookup,
}
use federloom.Proto.{Duration, Event}
use federloom.Ingest.Tail.{Tick, tail, tail_start, effective_interval}
use federloom.Ingest.Tail.Lines.{Line}

pub record CowrieEvent : Type 0 where
  pub event_id : String
  pub src_ip : String
  pub timestamp : String

abbrev pub cowrie_reasons : Assoc String
cowrie_reasons =
    ("cowrie.login.success", "ssh-auth-success")
    ∷ ("cowrie.login.failed", "ssh-auth-bruteforce")
    ∷ ("cowrie.command.input", "ssh-post-auth-command")
    ∷ ("cowrie.session.connect", "ssh-probe")
    ∷ []

pub record HoneypotConfig : Type 0 where
  pub poll_interval : Duration

pub record Honeypot : Type 0 where
  pub cfg : HoneypotConfig
  pub self_id : String

unfoldable pub new_honeypot : HoneypotConfig → String → Honeypot
new_honeypot cfg self_id = record { cfg = cfg; self_id = self_id }

module _ (unmarshal : Line → Option CowrieEvent) where
  unfoldable pub honeypot_line : Line → Option (String × String)
  unfolding lookup
  honeypot_line line = elim (unmarshal line) [
    | none ↦ none
    | some e ↦
        let reason : String = elim (lookup e.event_id cowrie_reasons) [
          | some r ↦ r
          | none ↦ "ssh-unknown"
        ] in
        if str_eq e.src_ip "" then none else some (e.src_ip, reason)
  ]

  unfoldable pub tail_honeypot : Honeypot → List Tick → List Event
  unfolding tail honeypot_line
  tail_honeypot h ticks = tail honeypot_line h.self_id ticks tail_start

unfoldable pub honeypot_interval : Honeypot → Duration
unfolding effective_interval
honeypot_interval h = effective_interval h.cfg.poll_interval
