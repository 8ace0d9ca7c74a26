-- ===== src/Ingest/Mailcow.antt =====
-- internal/ingest/mailcow_logs.go: polls the logs of two containers for failed logins. The engine
-- of the regular expressions, the printer of RFC 3339 times and what `docker logs` prints, split
-- into lines by bufio.Scanner, are parameters or arguments.
pub mod Laws
use Prim.Native.String as Text
use federloom.Prelude.{
  ℕ, zero, suc, ◌-◌, if◌then◌else◌, leb, String, str_eq, List, [], ◌∷◌, ◌++◌, Option, none, some,
  Result, ok, err,
}
use federloom.Proto.{Time, Duration, Event}
use federloom.Ingest.{event_of}

pub record MailcowConfig : Type 0 where
  pub postfix_container : String
  pub dovecot_container : String
  pub poll_interval : Duration

pub record MailcowLogs : Type 0 where
  pub cfg : MailcowConfig
  pub self_id : String

-- `logFetcher`: the lines of a container's log since a time as text.
abbrev pub LogFetcher : Type 0
LogFetcher = String → String → Result String (List String)

-- `FindSubmatch` of Go's regexp for a pattern with one group and with two: what the groups match,
-- `none` where the line does not match.
pub record Regexp : Type 0 where
  pub find_group : String → String → Option String
  pub find_groups : String → String → Option (String × String)

abbrev pub postfix_sasl : String
postfix_sasl = "\\[((?:\\d{1,3}\\.){3}\\d{1,3})\\]: SASL \\S+ authentication failed"

abbrev pub dovecot_auth : String
dovecot_auth =
    "(imap|pop3)-login: Disconnected \\(auth failed[^)]*\\).*?rip=((?:\\d{1,3}\\.){3}\\d{1,3}),"

unfoldable pub new_mailcow : MailcowConfig → String → MailcowLogs
new_mailcow cfg self_id = record {
  cfg = record cfg {
    postfix_container =
        if str_eq cfg.postfix_container ""
        then "mailcowdockerized-postfix-1"
        else cfg.postfix_container;
    dovecot_container =
        if str_eq cfg.dovecot_container ""
        then "mailcowdockerized-dovecot-1"
        else cfg.dovecot_container;
  };
  self_id = self_id;
}

module _ (regexp : Regexp) (m : MailcowLogs) (clock : String → Time) where
  -- The channel takes `sends` events before the context is done. The event of a line carries the
  -- time that `clock` gives for it.
  unfoldable pub scan_postfix : List String → ℕ → List Event
  unfolding event_of
  scan_postfix [] sends = []
  scan_postfix (line ∷ lines) sends = elim (regexp.find_group postfix_sasl line) [
    | none ↦ scan_postfix lines sends
    | some ip ↦ elim sends [
      | zero ↦ []
      | suc n ↦ event_of ip "smtp-auth-bruteforce" (clock line) m.self_id ∷ scan_postfix lines n
    ]
  ]

  unfoldable pub scan_dovecot : List String → ℕ → List Event
  unfolding event_of
  scan_dovecot [] sends = []
  scan_dovecot (line ∷ lines) sends = elim (regexp.find_groups dovecot_auth line) [
    | none ↦ scan_dovecot lines sends
    | some (protocol, ip) ↦ elim sends [
      | zero ↦ []
      | suc n ↦
          event_of ip (Text.◌++◌ protocol "-auth-bruteforce") (clock line) m.self_id
          ∷ scan_dovecot lines n
    ]
  ]

  unfoldable pub poll_postfix : LogFetcher → String → ℕ → List Event
  unfolding scan_postfix
  poll_postfix fetcher since sends = elim (fetcher m.cfg.postfix_container since) [
    | err _ ↦ []
    | ok lines ↦ scan_postfix lines sends
  ]

  unfoldable pub poll_dovecot : LogFetcher → String → ℕ → List Event
  unfolding scan_dovecot
  poll_dovecot fetcher since sends = elim (fetcher m.cfg.dovecot_container since) [
    | err _ ↦ []
    | ok lines ↦ scan_dovecot lines sends
  ]

-- A tick of the poll's timer: its time, the times of its events, what `docker logs` answers then,
-- and how many events of each container the channel takes.
pub record Tick : Type 0 where
  pub now : Time
  pub clock : String → Time
  pub fetcher : LogFetcher
  pub postfix_sends : ℕ
  pub dovecot_sends : ℕ

unfoldable pub interval : MailcowLogs → Duration
interval m = if leb m.cfg.poll_interval 0 then 30000000000 else m.cfg.poll_interval

module _ (regexp : Regexp) (format : Time → String) (m : MailcowLogs) where
  unfoldable pub loop : List Tick → String → List Event
  unfolding poll_postfix poll_dovecot
  loop [] since = []
  loop (t ∷ ticks) since =
      poll_postfix regexp m t.clock t.fetcher since t.postfix_sends
      ++ (poll_dovecot regexp m t.clock t.fetcher since t.dovecot_sends
          ++ loop ticks (format t.now))

  -- The events of the ticks that happen; the first looks back one interval.
  unfoldable pub run : List Tick → Time → List Event
  unfolding loop interval
  run ticks now = loop ticks (format (now - interval m))
