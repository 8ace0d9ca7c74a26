-- ===== src/Ingest/Fail2ban/Tests.antt =====
-- One address stays banned while another is banned and pardoned.
use federloom.Prelude.{
  ◌≡◌, refl, arith, if◌then◌else◌, String, List, [], ◌∷◌, none, some, contains_string, insert,
}
use federloom.Proto.{Time}
use federloom.Ingest.Fail2ban.{Fail2BanConfig, new_fail2ban, run, parse_banned, ban_jails, ban_all}
use federloom.Ingest.Fail2ban.Laws.{count, banned_once}

abbrev cfg : Fail2BanConfig
cfg = record { mode = "local"; container = ""; poll_interval = 0; jail_reasons = [] }

abbrev clock : String → Time
clock ip = 1000

abbrev both : List (List (String × List String))
both = (("sshd", "192.0.2.1" ∷ "192.0.2.2" ∷ []) ∷ []) ∷ []

abbrev one : List (List (String × List String))
one = (("recidive", "192.0.2.1" ∷ []) ∷ []) ∷ []

banned_once_example :
    count "192.0.2.1" (
      run
        (new_fail2ban cfg "me")
        ((clock, some both, 5) ∷ (clock, none, 5) ∷ (clock, some one, 5) ∷ [])
        [])
    ≡ (if contains_string [] "192.0.2.1" then 0 else 1)
unfolding parse_banned ban_jails ban_all insert
banned_once_example =
    banned_once (new_fail2ban cfg "me") "192.0.2.1" clock both 5
      ((clock, none, 5) ∷ (clock, some one, 5) ∷ []) [] refl (omega arith)
      (tt, ((refl, omega arith), tt))
