-- ===== src/Enforce/Ipset.antt =====
-- internal/enforce/ipset.go: the commands that the ipset backend runs. What a command answers is a
-- parameter. The deadline of a command is not modelled.
pub mod Start
mod Tests
use Prim.Native.String as Text
use federloom.Prelude.{
  ℕ, ◌/◌, Bool, true, false, not, if◌then◌else◌, leb, ◌==◌, String, str_eq, List, [], ◌∷◌,
}
use federloom.Proto.{Duration}
use federloom.Enforce.{Command, Log, Ran, exec, contains_char}

pub record IpsetSink : Type 0 where
  pub set_name : String
  pub chains : List String

unfoldable pub new_ipset : String → List String → IpsetSink
new_ipset set_name chains = record {
  set_name = if str_eq set_name "" then "federloom" else set_name;
  chains = elim chains [ [] ↦ "DOCKER-USER" ∷ [] | c ∷ cs ↦ c ∷ cs ];
}

abbrev pub set6 : IpsetSink → String
set6 s = Text.◌++◌ s.set_name "6"

abbrev pub create : String → String → String → Command
create set kind family =
    "ipset" ∷ "create" ∷ set ∷ kind ∷ "family" ∷ family ∷ "timeout" ∷ "0" ∷ "-exist" ∷ []

-- The rule of a chain that drops what is in a set: `-C` checks it, `-I` inserts, `-D` deletes it.
abbrev pub rule : String → String → String → String → Command
rule tables action chain set =
    tables ∷ action ∷ chain ∷ "-m" ∷ "set" ∷ "--match-set" ∷ set ∷ "src" ∷ "-j" ∷ "DROP" ∷ []

unfoldable pub ip_set : IpsetSink → String → String
unfolding contains_char
ip_set s ip = if contains_char b':' ip then set6 s else s.set_name

module _ (answers : Log → Command → Bool) where
  unfoldable pub drop_rules : String → String → List String → Log → Log
  drop_rules tables set [] log = log
  drop_rules tables set (chain ∷ chains) log =
      drop_rules tables set chains (exec answers (rule tables "-D" chain set) log).1

  -- Creates a set; if that fails, drops the rules that use an old set, destroys it, and creates
  -- anew.
  unfoldable pub create_set : String → String → String → String → List String → Log → Ran
  unfolding drop_rules
  create_set tables set kind family chains log =
      let first = exec answers (create set kind family) log in
      if first.0
      then first
      else let dropped = drop_rules tables set chains first.1 in
        let destroyed = exec answers ("ipset" ∷ "destroy" ∷ set ∷ []) dropped in
        exec answers (create set kind family) destroyed.1

  unfoldable pub install_rule : String → String → String → Log → Ran
  install_rule tables chain set log =
      let checked = exec answers (rule tables "-C" chain set) log in
      if checked.0 then checked else exec answers (rule tables "-I" chain set) checked.1

  -- A rule for IPv4 that cannot be installed is an error; one for IPv6 is not.
  unfoldable pub install_rules : IpsetSink → List String → Log → Ran
  unfolding install_rule
  install_rules s [] log = (true, log)
  install_rules s (chain ∷ chains) log =
      let four = install_rule "iptables" chain s.set_name log in
      let six = install_rule "ip6tables" chain (set6 s) four.1 in
      let rest = install_rules s chains six.1 in if four.0 then rest else four

  unfoldable pub start : IpsetSink → Log → Ran
  unfolding create_set install_rules
  start s log =
      let four = create_set "iptables" s.set_name "hash:ip" "inet" s.chains log in
      let six = create_set "ip6tables" (set6 s) "hash:net" "inet6" s.chains four.1 in
      if four.0 then install_rules s s.chains six.1 else four

  unfoldable pub block : IpsetSink → String → Log → Ran
  unfolding ip_set
  block s ip log = exec answers ("ipset" ∷ "add" ∷ ip_set s ip ∷ ip ∷ "-exist" ∷ []) log

  -- The time to live is rounded down to whole seconds; `itoa` prints them.
  unfoldable pub block_for : (ℕ → String) → IpsetSink → String → Duration → Log → Ran
  unfolding block ip_set
  block_for itoa s ip ttl log =
      if leb ttl 0
      then block s ip log
      else exec answers
          ("ipset" ∷ "add" ∷ ip_set s ip ∷ ip ∷ "timeout" ∷ itoa (ttl / 1000000000) ∷ "-exist" ∷ [])
          log

  unfoldable pub unblock : IpsetSink → String → Log → Ran
  unfolding ip_set
  unblock s ip log = exec answers ("ipset" ∷ "del" ∷ ip_set s ip ∷ ip ∷ "-exist" ∷ []) log
