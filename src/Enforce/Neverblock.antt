-- ===== src/Enforce/Neverblock.antt =====
-- internal/enforce/neverblock.go.
use federloom.Prelude.{
  Bool, true, false, if◌then◌else◌, String, str_eq, List, [], ◌∷◌, ◌++◌, Option, none, some,
}
use federloom.Netutil.{Addr, Prefix, v4, v6, Netip, unmap, masked, prefix_contains, key_addr}

abbrev pub default_never_block : List String
default_never_block =
    "127.0.0.0/8" ∷ "::1/128" ∷ "10.0.0.0/8" ∷ "172.16.0.0/12" ∷ "192.168.0.0/16" ∷ "100.64.0.0/10"
    ∷ "169.254.0.0/16" ∷ "224.0.0.0/4" ∷ "fc00::/7" ∷ "fe80::/10" ∷ "8.8.8.8/32" ∷ "8.8.4.4/32"
    ∷ "1.1.1.1/32" ∷ "1.0.0.1/32" ∷ "9.9.9.9/32" ∷ "149.112.112.112/32" ∷ []

pub record NeverBlockList : Type 0 where
  pub prefixes : List Prefix

-- A bare address as the prefix of that one host; a zoned address gives none.
unfoldable pub host_prefix : Addr → Option Prefix
host_prefix (v4 n) = some (record { addr = v4 n; bits = 32 })
host_prefix (v6 n zone) =
    if str_eq zone "" then some (record { addr = v6 n zone; bits = 128 }) else none

module _ (ip : Netip) where
  -- One entry of the lists: a prefix, else a bare address; any other text is skipped.
  unfoldable pub entry_prefix : String → Option Prefix
  unfolding host_prefix
  entry_prefix cidr = elim (ip.parse_prefix cidr) [
    | some prefix ↦ some (masked prefix)
    | none ↦ elim (ip.parse_addr cidr) [ some addr ↦ host_prefix (unmap addr) | none ↦ none ]
  ]

  unfoldable pub prefixes_of : List String → List Prefix
  prefixes_of [] = []
  prefixes_of (cidr ∷ rest) =
      let others = prefixes_of rest in
      elim (entry_prefix cidr) [ some p ↦ p ∷ others | none ↦ others ]

  unfoldable pub new_never_block_list : List String → NeverBlockList
  unfolding prefixes_of
  new_never_block_list extra = record { prefixes = prefixes_of (default_never_block ++ extra) }

  unfoldable pub any_contains : List Prefix → Addr → Bool
  any_contains [] a = false
  any_contains (p ∷ ps) a = if prefix_contains p a then true else any_contains ps a

  -- A text that is no address and no prefix is not contained.
  unfoldable pub never_blocked : NeverBlockList → String → Bool
  never_blocked l key = elim (key_addr ip key) [
    | some addr ↦ any_contains l.prefixes addr
    | none ↦ false
  ]
