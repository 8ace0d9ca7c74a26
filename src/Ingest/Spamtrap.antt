-- ===== src/Ingest/Spamtrap.antt =====
-- internal/ingest/spamtrap.go: tails a log of one IPv4 address a line. The text of a line's bytes
-- and net/netip are parameters.
use Prim.Native.String as Text
use Prim.Native.Char.{code}
use text.Mathlib.Text.{starts_with}
use federloom.Prelude.{
  ℕ, Bool, ◌&&◌, ◌||◌, if◌then◌else◌, leb, ◌==◌, String, str_eq, List, Option, none, some,
}
use federloom.Proto.{Duration, Event}
use federloom.Netutil.{Netip, is4}
use federloom.Ingest.Tail.{Tick, tail, tail_start, effective_interval}
use federloom.Ingest.Tail.Lines.{Line}

-- `unicode.IsSpace`
abbrev pub is_space : ℕ → Bool
is_space c =
    (leb 9 c && leb c 13)
    || (c == 32
        || (c == 133
            || (c == 160
                || (c == 5760
                    || ((leb 8192 c && leb c 8202)
                        || (c == 8232
                            || (c == 8233 || (c == 8239 || (c == 8287 || c == 12288)))))))))

abbrev pub trim_left : String → String
trim_left Text.[] = Text.[]
trim_left (Text.◌∷◌ c s) =
    let rest = trim_left s in if is_space (code c) then rest else Text.◌∷◌ c s

abbrev pub trim_right : String → String
trim_right Text.[] = Text.[]
trim_right (Text.◌∷◌ c s) =
    let rest = trim_right s in if is_space (code c) && str_eq rest "" then "" else Text.◌∷◌ c rest

-- `strings.TrimSpace`
unfoldable pub trim_space : String → String
trim_space s = trim_right (trim_left s)

pub record SpamtrapConfig : Type 0 where
  pub poll_interval : Duration

pub record Spamtrap : Type 0 where
  pub cfg : SpamtrapConfig
  pub self_id : String

unfoldable pub new_spamtrap : SpamtrapConfig → String → Spamtrap
new_spamtrap cfg self_id = record { cfg = cfg; self_id = self_id }

module _ (ip : Netip) (text : Line → String) where
  unfoldable pub spamtrap_line : Line → Option (String × String)
  unfolding trim_space
  spamtrap_line raw =
      let line = trim_space (text raw) in
      if str_eq line "" || starts_with line "#" then none else elim (ip.parse_addr line) [
        | none ↦ none
        | some addr ↦ if is4 addr then some (line, "smtp-spamtrap") else none
      ]

  unfoldable pub tail_spamtrap : Spamtrap → List Tick → List Event
  unfolding tail spamtrap_line
  tail_spamtrap s ticks = tail spamtrap_line s.self_id ticks tail_start

unfoldable pub spamtrap_interval : Spamtrap → Duration
unfolding effective_interval
spamtrap_interval s = effective_interval s.cfg.poll_interval
