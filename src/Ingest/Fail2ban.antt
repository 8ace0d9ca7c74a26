-- ===== src/Ingest/Fail2ban.antt =====
-- internal/ingest/fail2ban.go: polls fail2ban for the banned addresses. What
-- `fail2ban-client` prints, decoded from JSON, is an argument; a `seen` set is a list of strings.
pub mod Laws
mod Tests
use Prim.Native.String as Text
use text.Mathlib.Text.{starts_with}
use federloom.Prelude.{
  ℕ, zero, suc, Bool, true, false, if◌then◌else◌, String, str_eq, List, [], ◌∷◌, ◌++◌, Option, none,
  some, Assoc, lookup, insert, keys, contains_string, Result, ok, err, leb,
}
use federloom.Proto.{Time, Duration, Event, second}
use federloom.Ingest.{event_of}

abbrev pub builtin_jail_reasons : Assoc String
builtin_jail_reasons =
    ("sshd", "ssh-auth-bruteforce")
    ∷ ("ssh", "ssh-auth-bruteforce")
    ∷ ("postfix", "smtp-auth-bruteforce")
    ∷ ("postfix-sasl", "smtp-auth-bruteforce")
    ∷ ("dovecot", "imap-auth-bruteforce")
    ∷ ("nginx-http-auth", "http-auth-bruteforce")
    ∷ ("apache-auth", "http-auth-bruteforce")
    ∷ ("wordpress", "http-wp-bruteforce")
    ∷ ("recidive", "recidive")
    ∷ []

-- The first that is a prefix wins.
abbrev pub builtin_jail_prefixes : Assoc String
builtin_jail_prefixes =
    ("sshd-", "ssh-auth-bruteforce")
    ∷ ("postfix-", "smtp-auth-bruteforce")
    ∷ ("dovecot-", "imap-auth-bruteforce")
    ∷ ("nginx-", "http-auth-bruteforce")
    ∷ ("apache-", "http-auth-bruteforce")
    ∷ ("wp-", "http-wp-bruteforce")
    ∷ []

pub record Fail2BanConfig : Type 0 where
  pub mode : String
  pub container : String
  pub poll_interval : Duration
  pub jail_reasons : Assoc String

-- How the banned addresses are fetched: `docker exec` in a container, or on the host.
pub data Fetcher : Type 0 where
  docker_banned : String → Fetcher
  local_banned : Fetcher

pub record Fail2Ban : Type 0 where
  pub cfg : Fail2BanConfig
  pub self_id : String
  pub fetcher : Option Fetcher

unfoldable pub new_fail2ban : Fail2BanConfig → String → Fail2Ban
new_fail2ban cfg self_id =
    let container = if str_eq cfg.container "" then "fail2ban" else cfg.container in
    record {
      cfg = record cfg { container = container };
      self_id = self_id;
      fetcher =
          if str_eq cfg.mode ""
          then some (docker_banned container)
          else if str_eq cfg.mode "docker"
          then some (docker_banned container)
          else if str_eq cfg.mode "local"
          then some local_banned
          else none;
    }

-- The interval between two polls, an error for an unknown mode.
unfoldable pub start : Fail2Ban → Result String Duration
start f = elim f.fetcher [
  | none ↦ err "unknown mode"
  | some fetcher ↦ ok (if leb f.cfg.poll_interval 0 then 30000000000 else f.cfg.poll_interval)
]

unfoldable pub first_prefix : Assoc String → String → Option String
first_prefix [] jail = none
first_prefix ((prefix, reason) ∷ rest) jail =
    if starts_with jail prefix then some reason else first_prefix rest jail

-- The operator's reason, else the exact one, else the one of a prefix, else the jail's name.
unfoldable pub resolve_reason : Fail2BanConfig → String → String
unfolding lookup first_prefix
resolve_reason cfg jail = elim (lookup jail cfg.jail_reasons) [
  | some r ↦ r
  | none ↦ elim (lookup jail builtin_jail_reasons) [
    | some r ↦ r
    | none ↦ elim (first_prefix builtin_jail_prefixes jail) [
      | some r ↦ r
      | none ↦ Text.◌++◌ "fail2ban-" jail
    ]
  ]
]

-- The three loops of `parseBanned`: the last jail that bans an address is the one it keeps.
unfoldable pub ban_all : String → List String → Assoc String → Assoc String
ban_all jail [] result = result
ban_all jail (ip ∷ ips) result = ban_all jail ips (insert ip jail result)

unfoldable pub ban_jails : Assoc (List String) → Assoc String → Assoc String
unfolding ban_all
ban_jails [] result = result
ban_jails ((jail, ips) ∷ rest) result = ban_jails rest (ban_all jail ips result)

unfoldable pub parse_banned : List (Assoc (List String)) → Assoc String → Assoc String
unfolding ban_jails
parse_banned [] result = result
parse_banned (jails ∷ raw) result = parse_banned raw (ban_jails jails result)

-- The addresses that are still banned.
unfoldable pub prune : Assoc String → List String → List String
prune current [] = []
prune current (ip ∷ seen) =
    let rest = prune current seen in if contains_string (keys current) ip then ip ∷ rest else rest

-- What a poll sends, the set it leaves, and whether it ran to its end.
pub record Polled : Type 0 where
  pub events : List Event
  pub seen : List String
  pub done : Bool

module _ (f : Fail2Ban) (clock : String → Time) where
  -- The loop over the current bans; the channel takes `sends` events before the context is done.
  -- An event for an address carries the time that `clock` gives for it.
  unfoldable pub emit : Assoc String → List String → ℕ → Polled
  unfolding event_of resolve_reason
  emit [] seen sends = record { events = []; seen = seen; done = true }
  emit ((ip, jail) ∷ rest) seen sends =
      let skipped = emit rest seen sends in
      if contains_string seen ip then skipped else elim sends [
        | zero ↦ record { events = []; seen = seen; done = false }
        | suc n ↦
            let later = emit rest (ip ∷ seen) n in
            record later {
              events = event_of ip (resolve_reason f.cfg jail) (clock ip) f.self_id ∷ later.events;
            }
      ]

  -- A fetch or a parse that fails, `none`, sends nothing.
  unfoldable pub poll : Option (List (Assoc (List String))) → List String → ℕ → Polled
  unfolding emit prune parse_banned
  poll none seen sends = record { events = []; seen = seen; done = false }
  poll (some raw) seen sends =
      let current = parse_banned raw [] in
      let sent = emit current seen sends in
      if sent.done then record sent { seen = prune current sent.seen } else sent

-- A tick of the poll's timer: the times of its events, what was fetched, and what the channel
-- takes.
abbrev pub Tick : Type 0
Tick = (String → Time) × Option (List (Assoc (List String))) × ℕ

-- The events that the ticks that happen send, from an empty set on.
unfoldable pub run : Fail2Ban → List Tick → List String → List Event
unfolding poll
run f [] seen = []
run f ((clock, fetched, sends) ∷ ticks) seen =
    let polled = poll f clock fetched seen sends in polled.events ++ run f ticks polled.seen
