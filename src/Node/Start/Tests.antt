-- ===== src/Node/Start/Tests.antt =====
-- A node made from a configuration and files: its whitelist names an IPv6 network, its certificate
-- is its own, and addresses are written in unary.
use Prim.Native.Char.{Char, char, code}
use Prim.Native.String as Text
use federloom.Prelude.{
  ℕ, zero, suc, ◌≡◌, refl, ap, ◌∙◌, true, false, if◌then◌else◌, ◌==◌, arith, String, List, [], ◌∷◌,
  Option, none, some, ok, is_ok, contains_string,
}
use federloom.Float.{Fixed, pos, fixed_float}
use federloom.Proto.{Bytes, PeerCert, WhitelistEntry}
use federloom.Netutil.{
  Addr, v4, v6, Prefix, Netip, normalize_ip, key_of, prefix_of, mask, same_network, prefix_contains,
}
use federloom.Netutil.Keys.{IsNetip}
use federloom.Store.{empty_record}
use federloom.Store.Whitelist.{entries_of, load_whitelist}
use federloom.Identity.{contains_bar, verify_cert}
use federloom.Enforce.Neverblock.{entry_prefix, new_never_block_list}
use federloom.Node.{World, Node}
use federloom.Node.Federated.{materialise_federated}
use federloom.Node.Remote.Backstop.{blocks}
use federloom.Node.Run.{here, after, federated_hit}
use federloom.Node.Start.{StartConfig, Disk, new_node, started, own_vouch}
use federloom.Node.Start.Laws.{started_never_blocks, own_vouch_lem}
use federloom.Node.Tests.{Scores, world, node, loud}

abbrev mark : Char
mark = char 120 tt

abbrev colon : Char
colon = char 58 tt

abbrev marks : ℕ → String → String
marks zero rest = rest
marks (suc n) rest = Text.◌∷◌ mark (marks n rest)

-- The number of marks that a text begins with, and what follows them.
abbrev read : String → ℕ × String
read Text.[] = (0, "")
read (Text.◌∷◌ c s) =
    let later = read s in if code c == 120 then (suc later.0, later.1) else (0, Text.◌∷◌ c s)

abbrev after_colon : ℕ × String → Option Prefix
after_colon (n, Text.[]) = none
after_colon (n, Text.◌∷◌ c s) = some (record { addr = v6 n ""; bits = (read s).0 })

abbrev tagged : ℕ → ℕ → String → Option Addr
tagged c n s = if c == 112 then none else if c == 115 then some (v6 (read s).0 "") else some (v4 n)

abbrev parse_letters : String → Option Addr
parse_letters Text.[] = some (v4 0)
parse_letters (Text.◌∷◌ c s) = tagged (code c) (read (Text.◌∷◌ c s)).0 s

abbrev parse_prefix_letters : String → Option Prefix
parse_prefix_letters Text.[] = none
parse_prefix_letters (Text.◌∷◌ c s) = if code c == 112 then after_colon (read s) else none

abbrev show_letters : Addr → String
show_letters (v4 n) = marks n ""
show_letters (v6 n zone) = Text.◌∷◌ (char 115 tt) (marks n "")

abbrev number : Addr → ℕ
number (v4 n) = n
number (v6 n zone) = n

-- An IPv4 address is so many marks, an IPv6 one is tagged with an 's' and a prefix with a 'p'.
abbrev pub letters : Netip
letters = record {
  parse_addr = parse_letters;
  parse_prefix = parse_prefix_letters;
  show_addr = show_letters;
  show_prefix =
      λ p. Text.◌∷◌ (char 112 tt) (marks (number p.addr) (Text.◌∷◌ colon (marks p.bits "")));
}

read-marks : (n : ℕ) → read (marks n "") ≡ (n, "")
read-marks zero = refl
read-marks (suc n) = ap (λ r. (suc r.0, r.1)) (read-marks n)

read_back : (n : ℕ) (s : String) → read (marks n (Text.◌∷◌ colon s)) ≡ (n, Text.◌∷◌ colon s)
read_back zero s = refl
read_back (suc n) s = ap (λ r. (suc r.0, r.1)) (read_back n s)

parse-show_v4 : (n : ℕ) → parse_letters (show_letters (v4 n)) ≡ some (v4 n)
parse-show_v4 zero = refl
parse-show_v4 (suc n) = ap (λ r. some (v4 (suc r.0))) (read-marks n)

pub letters-IsNetip : IsNetip letters
letters-IsNetip = record {
  parse-show_v4 = λ n h. parse-show_v4 n;
  parse-show_prefix = λ n bits h k.
      ap after_colon (read_back n (marks bits ""))
      ∙ ap (λ r. some (record { addr = v6 n ""; bits = r.0 })) (read-marks bits);
  prefix-ne-addr = λ p. refl;
}

abbrev pub world_v6 : World Fixed Scores
world_v6 = record world { netip = letters }

abbrev pub key : String
key = letters.show_prefix (record { addr = v6 0 ""; bits = 64 })

abbrev pub config : StartConfig Fixed
config = record {
  cfg = node.cfg;
  half_life = 0;
  block_threshold = pos 50000;
  rules_path = "";
  has_blocked_path = false;
  extra_whitelist = [];
  dispute_weight = pos 0;
  max_events_per_sec = pos 0;
  trust = record {
    anchors_file = "";
    person_key_file = "";
    peer_cert_file = "";
    blocked_peers_file = "";
    anchor_weight = pos 1000;
    stranger_weight = pos 100;
    stranger_score_cap = pos 20000;
    federation_discount = pos 500;
    diversity_repeat_factor = pos 150;
  };
}

abbrev pub zeros : ℕ → Bytes
zeros zero = []
zeros (suc n) = 0 ∷ zeros n

abbrev pub cert : PeerCert
cert = record { peer_id = "p0"; person_key = zeros 32; valid_until = 2000; sig = [] }

-- The whitelist has a /48 around the address.
abbrev pub entries : List WhitelistEntry
entries =
    record {
      ip_or_range = letters.show_prefix (record { addr = v6 0 ""; bits = 48 });
      scope = "local-only";
      source = "manual";
    }
    ∷ []

abbrev pub disk : Disk Fixed Scores
disk = record {
  opened = some (λ k. empty_record);
  whitelist = entries_of entries;
  peer_cert = some cert;
  key_loaded = true;
  observed = true;
}

abbrev made : Node Fixed Scores
made = started world_v6 config (some "p0") (some cert) (λ k. empty_record) entries "p0"

new_node-made : new_node world_v6 config (some "p0") disk ≡ ok made
unfolding new_node load_whitelist
new_node-made = refl

own_vouch_lem_example :
    (is_ok (verify_cert world_v6.crypto cert world_v6.now) ≡ true) × (some "p0" ≡ some cert.peer_id)
unfolding started own_vouch verify_cert contains_bar
own_vouch_lem_example = own_vouch_lem world_v6 config (some "p0") disk made cert new_node-made refl

started_never_blocks_example :
    contains_string (blocks (materialise_federated world_v6 made key loud 3).calls) key ≡ false
unfolding normalize_ip key_of prefix_of mask prefix_contains same_network load_whitelist
    new_never_block_list entry_prefix
started_never_blocks_example =
    started_never_blocks world_v6 config (some "p0") disk made
      (materialise_federated world_v6 made key loud 3) entries "sxxxxx" key (v6 5 "") 64
      letters-IsNetip new_node-made refl (after here (federated_hit world_v6 refl key loud 3)) refl
      (omega arith, refl) refl refl
