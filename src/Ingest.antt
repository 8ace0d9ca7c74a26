-- ===== src/Ingest.antt =====
-- internal/ingest: the sources of a node's own events. Each turns what another program reports
-- into events of the reporter itself; the programs, their files and their output formats are not
-- modelled.
pub mod Crowdsec
pub mod Fail2ban
pub mod Honeypot
pub mod Mailcow
pub mod Opencanary
pub mod Spamtrap
pub mod Tail
use federloom.Prelude.{String, [], none}
use federloom.Proto.{Time, Event}

-- A `proto.Event` with these fields, the others zero.
unfoldable pub event_of : String → String → Time → String → Event
event_of ip reason now self_id = record {
  ip = ip;
  reason = reason;
  timestamp = now;
  reporter_id = self_id;
  signature = [];
  subnet_id = "";
  origin_trace = [];
  vouch = none;
  kind = "";
}
