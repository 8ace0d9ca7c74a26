-- ===== src/Enforce/Nftables.antt =====
-- internal/enforce/nftables.go: the commands that the nftables backend runs. The deadline of a
-- command is not modelled.
use Prim.Native.String as Text
use federloom.Prelude.{ℕ, ◌/◌, Bool, true, if◌then◌else◌, leb, String, str_eq, List, [], ◌∷◌}
use federloom.Proto.{Duration}
use federloom.Enforce.{Command, Log, Ran, exec, contains_char}

pub record NftablesSink : Type 0 where
  pub set_name : String
  pub hook : String

unfoldable pub new_nftables : String → String → NftablesSink
new_nftables set_name hook = record {
  set_name = if str_eq set_name "" then "blocked" else set_name;
  hook = if str_eq hook "" then "input" else hook;
}

abbrev pub set6 : NftablesSink → String
set6 s = Text.◌++◌ s.set_name "6"

unfoldable pub nft_set : NftablesSink → String → String
unfolding contains_char
nft_set s ip = if contains_char b':' ip then set6 s else s.set_name

abbrev pub start_commands : NftablesSink → List Command
start_commands s =
    ("nft" ∷ "add" ∷ "table" ∷ "inet" ∷ "federloom" ∷ [])
    ∷ ("nft" ∷ "add" ∷ "set" ∷ "inet" ∷ "federloom" ∷ s.set_name
        ∷ "{ type ipv4_addr; flags interval, timeout; }" ∷ [])
    ∷ ("nft"
        ∷ "add"
        ∷ "set"
        ∷ "inet"
        ∷ "federloom"
        ∷ set6 s
        ∷ "{ type ipv6_addr; flags interval, timeout; }"
        ∷ [])
    ∷ ("nft"
        ∷ "add"
        ∷ "chain"
        ∷ "inet"
        ∷ "federloom"
        ∷ s.hook
        ∷ Text.◌++◌ "{ type filter hook " (Text.◌++◌ s.hook " priority 0; }")
        ∷ [])
    ∷ ("nft"
        ∷ "add"
        ∷ "rule"
        ∷ "inet"
        ∷ "federloom"
        ∷ s.hook
        ∷ "ip"
        ∷ "saddr"
        ∷ Text.◌++◌ "@" s.set_name
        ∷ "drop"
        ∷ [])
    ∷ ("nft"
        ∷ "add"
        ∷ "rule"
        ∷ "inet"
        ∷ "federloom"
        ∷ s.hook
        ∷ "ip6"
        ∷ "saddr"
        ∷ Text.◌++◌ "@" (set6 s)
        ∷ "drop"
        ∷ [])
    ∷ []

module _ (answers : Log → Command → Bool) where
  -- What the commands answer is ignored.
  unfoldable pub run_all : List Command → Log → Ran
  run_all [] log = (true, log)
  run_all (c ∷ cs) log = run_all cs (exec answers c log).1

  unfoldable pub start : NftablesSink → Log → Ran
  unfolding run_all
  start s log = run_all (start_commands s) log

  unfoldable pub block : NftablesSink → String → Log → Ran
  unfolding nft_set
  block s ip log =
      exec answers
        ("nft" ∷ "add" ∷ "element" ∷ "inet" ∷ "federloom" ∷ nft_set s ip ∷ "{" ∷ ip ∷ "}" ∷ []) log

  unfoldable pub block_for : (ℕ → String) → NftablesSink → String → Duration → Log → Ran
  unfolding block nft_set
  block_for itoa s ip ttl log =
      if leb ttl 0
      then block s ip log
      else exec answers
          ("nft"
            ∷ "add"
            ∷ "element"
            ∷ "inet"
            ∷ "federloom"
            ∷ nft_set s ip
            ∷ "{"
            ∷ ip
            ∷ "timeout"
            ∷ Text.◌++◌ (itoa (ttl / 1000000000)) "s"
            ∷ "}"
            ∷ [])
          log

  unfoldable pub unblock : NftablesSink → String → Log → Ran
  unfolding nft_set
  unblock s ip log =
      exec answers
        ("nft" ∷ "delete" ∷ "element" ∷ "inet" ∷ "federloom" ∷ nft_set s ip ∷ "{" ∷ ip ∷ "}" ∷ [])
        log
