-- ===== src/Enforce/Ipset/Tests.antt =====
-- A start at which the IPv4 set has to be migrated, and everything for IPv6 fails.
use federloom.Prelude.{refl, true, false, Bool, if◌then◌else◌, str_eq, [], ◌∷◌, All}
use federloom.Enforce.{Command, Log}
use federloom.Enforce.Ipset.{
  IpsetSink, create, start, create_set, drop_rules, install_rules, install_rule,
}
use federloom.Enforce.Ipset.Start.{Succeeded, HasRule, start_lem}

abbrev host : Log → Command → Bool
host [] c = false
host (l ∷ log) [] = false
host (l ∷ log) (program ∷ args) = if str_eq program "ip6tables" then false else true

abbrev sink : IpsetSink
sink = record { set_name = "federloom"; chains = "DOCKER-USER" ∷ "INPUT" ∷ [] }

start_lem_example :
    Succeeded (create "federloom" "hash:ip" "inet") (start host sink []).1
    × All (HasRule "federloom" (start host sink []).1) ("DOCKER-USER" ∷ "INPUT" ∷ [])
unfolding start create_set drop_rules install_rules install_rule
start_lem_example = start_lem host sink [] refl
