-- ===== src/Enforce.antt =====
-- internal/enforce: the networks that are never blocked, and the enforcement backends. A backend
-- that runs commands has a log of them: each command with whether it succeeded, the latest first.
-- What a command answers is a parameter, which may depend on all that ran before.
pub mod Crowdsec
pub mod Ipset
pub mod Neverblock
pub mod Nftables
use Prim.Native.String as Text
use Prim.Native.Char.{Char, code}
use federloom.Prelude.{ℕ, Bool, true, false, if◌then◌else◌, ◌==◌, String, List, ◌∷◌}

abbrev pub Command : Type 0
Command = List String

abbrev pub Log : Type 0
Log = List (Command × Bool)

-- The result of a step, and the log with it.
abbrev pub Ran : Type 0
Ran = Bool × Log

abbrev pub exec : (Log → Command → Bool) → Command → Log → Ran
exec answers c log = let ok = answers log c in (ok, (c, ok) ∷ log)

-- `strings.Contains` of one character.
unfoldable pub contains_char : ℕ → String → Bool
contains_char n Text.[] = false
contains_char n (Text.◌∷◌ c s) = if code c == n then true else contains_char n s
