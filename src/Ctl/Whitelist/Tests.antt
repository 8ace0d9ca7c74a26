-- ===== src/Ctl/Whitelist/Tests.antt =====
-- An operator whitelists an IPv6 network, then another one, and starts the node.
use federloom.Prelude.{
  ◌≡◌, refl, arith, Bool, true, false, String, List, [], ◌∷◌, none, some, contains_string,
}
use federloom.Float.{Fixed, fixed_float}
use federloom.Netutil.{v6, normalize_ip, key_of, prefix_of, mask, same_network, prefix_contains}
use federloom.Store.{empty_record}
use federloom.Store.Whitelist as Whitelist
use federloom.Store.Whitelist.{missing, load_whitelist, is_listed, drop_entry}
use federloom.Node.{Node}
use federloom.Node.Federated.{materialise_federated}
use federloom.Node.Remote.Backstop.{blocks}
use federloom.Node.Run.{here, after, federated_hit}
use federloom.Node.Start.{Disk, new_node, started}
use federloom.Node.Start.Tests.{letters, letters-IsNetip, world_v6, key, config, disk, cert}
use federloom.Node.Tests.{Scores, loud}
use federloom.Ctl.Whitelist.{
  added, add_entry, remove_entry, cmd_whitelist, whitelist_add, whitelist_remove,
}
use federloom.Ctl.Whitelist.Heeded.{Invocation, after_commands, added_never_blocked}

abbrev network : String
network = letters.show_prefix (record { addr = v6 0 ""; bits = 48 })

abbrev any_text : String → Bool
any_text text = true

abbrev later : List Invocation
later =
    (true, true, add_entry ("x" ∷ []) "shared-vote" "manual")
    ∷ (true, true, remove_entry ("x" ∷ []))
    ∷ []

abbrev edited : Disk Fixed Scores
edited = record disk {
  whitelist =
      after_commands any_text any_text
        ((true, true, add_entry (network ∷ []) "local-only" "manual") ∷ later) missing;
}

abbrev made : Node Fixed Scores
made =
    started world_v6 config none (some cert) (λ k. empty_record)
      (record { ip_or_range = network; scope = "local-only"; source = "manual" } ∷ []) ""

added_never_blocked_example :
    contains_string (blocks (materialise_federated world_v6 made key loud 3).calls) key ≡ false
unfolding cmd_whitelist whitelist_add whitelist_remove Whitelist.add Whitelist.remove is_listed
    drop_entry load_whitelist new_node started normalize_ip key_of prefix_of mask prefix_contains
    same_network
added_never_blocked_example =
    added_never_blocked world_v6 any_text any_text true true network "local-only" "manual" missing
      (added network) later config none edited made (materialise_federated world_v6 made key loud 3)
      "sxxxxx" key (v6 5 "") 64 refl (refl, (refl, tt)) refl letters-IsNetip refl
      (after here (federated_hit world_v6 refl key loud 3)) refl (omega arith, refl) refl refl
