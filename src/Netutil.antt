-- ===== src/Netutil.antt =====
-- internal/netutil/netutil.go: the reputation key of an address. Go's net/netip is modelled by the
-- value of an address; its parser and printer are parameters.
pub mod Keys
pub mod Masks
use federloom.Prelude.{
  ℕ, ◌-◌, ◌*◌, ◌/◌, ◌%◌, ◌^◌, Bool, true, false, ◌&&◌, if◌then◌else◌, leb, ◌==◌, String, str_eq,
  Option, none, some,
}

-- An address of 32 bits, or of 128 bits with its zone.
pub data Addr : Type 0 where
  v4 : ℕ → Addr
  v6 : ℕ → String → Addr

pub record Prefix : Type 0 where
  pub addr : Addr
  pub bits : ℕ

-- An IPv4-mapped IPv6 address is ::ffff:0:0/96.
abbrev pub is_mapped : ℕ → Bool
is_mapped n = n / 4294967296 == 65535

-- `Addr.Unmap`
abbrev pub unmap : Addr → Addr
unmap (v4 n) = v4 n
unmap (v6 n zone) = if is_mapped n then v4 (n % 4294967296) else v6 n zone

abbrev pub is4 : Addr → Bool
is4 (v4 n) = true
is4 (v6 n zone) = false

abbrev pub width : Addr → ℕ
width (v4 n) = 32
width (v6 n zone) = 128

-- The top `bits` bits of a number of `w` bits.
unfoldable pub mask : ℕ → ℕ → ℕ → ℕ
mask w bits n = n / 2 ^ (w - bits) * 2 ^ (w - bits)

abbrev pub mask_addr : ℕ → Addr → Addr
mask_addr bits (v4 n) = v4 (mask 32 bits n)
mask_addr bits (v6 n zone) = v6 (mask 128 bits n) ""

-- `Prefix.Masked`, which drops the zone.
abbrev pub masked : Prefix → Prefix
masked p = record p { addr = mask_addr p.bits p.addr }

-- `Addr.Prefix`: fails if there are too many bits, and drops the zone.
unfoldable pub prefix_of : Addr → ℕ → Option Prefix
prefix_of a bits =
    if leb bits (width a) then some (record { addr = mask_addr bits a; bits = bits }) else none

-- `Prefix.Contains`: one family, no zone, and the same top bits.
unfoldable pub same_network : ℕ → Addr → Addr → Bool
same_network bits (v4 m) (v4 n) = mask 32 bits m == mask 32 bits n
same_network bits (v4 m) (v6 n zone) = false
same_network bits (v6 m z) (v4 n) = false
same_network bits (v6 m z) (v6 n zone) = str_eq zone "" && mask 128 bits m == mask 128 bits n

unfoldable pub prefix_contains : Prefix → Addr → Bool
unfolding same_network
prefix_contains p a = same_network p.bits p.addr a

-- net/netip's text forms.
pub record Netip : Type 0 where
  pub parse_addr : String → Option Addr
  pub parse_prefix : String → Option Prefix
  pub show_addr : Addr → String
  pub show_prefix : Prefix → String

module _ (ip : Netip) where
  -- The key of an address: IPv4 as it stands, IPv6 masked to the prefix.
  unfoldable pub key_of : Addr → ℕ → Option String
  key_of (v4 n) ipv6_prefix = some (ip.show_addr (v4 n))
  key_of (v6 n zone) ipv6_prefix = elim (prefix_of (v6 n zone) ipv6_prefix) [
    | none ↦ none
    | some p ↦ some (ip.show_prefix (masked p))
  ]

  -- An IPv6 prefix from a peer that normalized already is masked again; an IPv4 prefix is refused.
  unfoldable pub normalize_prefix : Option Prefix → ℕ → Option String
  unfolding key_of
  normalize_prefix none ipv6_prefix = none
  normalize_prefix (some p) ipv6_prefix =
      if is4 (unmap p.addr) then none else key_of (unmap p.addr) ipv6_prefix

  unfoldable pub normalize_ip : String → ℕ → Option String
  unfolding normalize_prefix key_of
  normalize_ip s ipv6_prefix = elim (ip.parse_addr s) [
    | some addr ↦ key_of (unmap addr) ipv6_prefix
    | none ↦ normalize_prefix (ip.parse_prefix s) ipv6_prefix
  ]

  -- The address to test for a key: the address itself, or the base of a prefix.
  unfoldable pub key_addr : String → Option Addr
  key_addr s = elim (ip.parse_addr s) [
    | some a ↦ some (unmap a)
    | none ↦ elim (ip.parse_prefix s) [ some p ↦ some (unmap p.addr) | none ↦ none ]
  ]
