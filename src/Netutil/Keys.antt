-- ===== src/Netutil/Keys.antt =====
-- From an address to its key and back to the address that stands for the key.
use federloom.Prelude.{
  ℕ, ◌^◌, ◌≤◌, ◌<◌, ◌≡◌, refl, sym, ap, ◌∙◌, Bool, true, false, ◌||◌, Bool-cases, inl, inr, leb,
  tests, arith, String, none, some,
}
use federloom.Netutil.{
  Addr, v4, v6, Prefix, Netip, is_mapped, is4, mask, mask_addr, masked, prefix_of, same_network,
  prefix_contains, key_of, key_addr,
}
use federloom.Netutil.Masks.{mask-mask, mask-mapped, mask-le}

-- What net/netip documents of its text forms: printing an address, or an IPv6 prefix, and parsing
-- it gives it back, and no prefix is an address.
pub record IsNetip (ip : Netip) : Type 0 where
  pub parse-show_v4 : (n : ℕ) → n < 2 ^ 32 → ip.parse_addr (ip.show_addr (v4 n)) ≡ some (v4 n)
  pub parse-show_prefix :
      (n bits : ℕ)
      → n < 2 ^ 128
      → bits ≤ 128
      → ip.parse_prefix (ip.show_prefix (record { addr = v6 n ""; bits = bits }))
        ≡ some (record { addr = v6 n ""; bits = bits })
  pub prefix-ne-addr : (p : Prefix) → ip.parse_addr (ip.show_prefix p) ≡ none

-- The address of 32 or 128 bits.
abbrev pub IsAddr : Addr → Type 0
IsAddr (v4 n) = n < 2 ^ 32
IsAddr (v6 n zone) = (n < 2 ^ 128) × (is_mapped n ≡ false)

-- The address that stands for the key of an address.
abbrev pub base_addr : ℕ → Addr → Addr
base_addr pfx (v4 n) = v4 n
base_addr pfx (v6 n zone) = v6 (mask 128 pfx n) ""

module _ (ip : Netip) (laws : IsNetip ip) where
  key_of-v6 :
      (n : ℕ) (zone : String) (pfx : ℕ)
      → leb pfx 128 ≡ true
      → key_of ip (v6 n zone) pfx
        ≡ some (ip.show_prefix (record { addr = v6 (mask 128 pfx n) ""; bits = pfx }))
  unfolding key_of prefix_of
  key_of-v6 n zone pfx fits = ground (arith, fits, mask-mask 128 pfx pfx n)

  key_of-too_long :
      (n : ℕ) (zone : String) (pfx : ℕ) → leb pfx 128 ≡ false → key_of ip (v6 n zone) pfx ≡ none
  unfolding key_of prefix_of
  key_of-too_long n zone pfx long = ground (arith, long)

  key_addr-show_prefix :
      (n bits : ℕ)
      → n < 2 ^ 128
      → bits ≤ 128
      → is_mapped n ≡ false
      → key_addr ip (ip.show_prefix (record { addr = v6 n ""; bits = bits })) ≡ some (v6 n "")
  unfolding key_addr
  key_addr-show_prefix n bits small fits h = ground (
    arith,
    laws.prefix-ne-addr (record { addr = v6 n ""; bits = bits }),
    laws.parse-show_prefix n bits small fits,
    h,
  )

  pub key_addr-key_of :
      (a : Addr) (pfx : ℕ) (key : String)
      → IsAddr a
      → key_of ip a pfx ≡ some key
      → key_addr ip key ≡ some (base_addr pfx a)
  unfolding key_of key_addr
  key_addr-key_of (v4 n) pfx key h e =
      let shown : ip.show_addr (v4 n) ≡ key = cc e in
      rw (← shown, key_addr, laws.parse-show_v4 n h) refl
  key_addr-key_of (v6 n zone) pfx key h e = elim (Bool-cases (leb pfx 128)) [
    | inr long ↦ cc (key_of-too_long n zone pfx long, e)
    | inl fits ↦
        let once = mask 128 pfx n in
        let p : Prefix = record { addr = v6 once ""; bits = pfx } in
        let shown : ip.show_prefix p ≡ key = cc (key_of-v6 n zone pfx fits, e) in
        let small : once < 2 ^ 128 = omega (arith, mask-le 128 pfx n, h.0) in
        ap (key_addr ip) (sym shown)
        ∙ key_addr-show_prefix once pfx small (omega tests) (mask-mapped pfx n h.1)
  ]

-- A network is wide enough for the keys of its addresses: all of IPv4 is, and an IPv6 one whose
-- prefix is not longer than that of the keys.
abbrev pub is_wide : ℕ → Prefix → Bool
is_wide pfx p = is4 p.addr || leb p.bits pfx

same_network-base_addr :
    (bits pfx : ℕ) (net a : Addr)
    → (is4 net || leb bits pfx) ≡ true
    → same_network bits net a ≡ true
    → same_network bits net (base_addr pfx a) ≡ true
unfolding same_network
same_network-base_addr bits pfx (v4 m) (v4 n) wide h = h
same_network-base_addr bits pfx (v4 m) (v6 n zone) wide h = cc
same_network-base_addr bits pfx (v6 m z) (v4 n) wide h = cc
same_network-base_addr bits pfx (v6 m z) (v6 n zone) wide h =
    ground (arith, mask-mask 128 bits pfx n)

pub prefix_contains-base_addr :
    (pfx : ℕ) (p : Prefix) (a : Addr)
    → is_wide pfx p ≡ true
    → prefix_contains p a ≡ true
    → prefix_contains p (base_addr pfx a) ≡ true
unfolding prefix_contains
prefix_contains-base_addr pfx p a wide h = same_network-base_addr p.bits pfx p.addr a wide h

is4-mask_addr : (bits : ℕ) (a : Addr) → is4 (mask_addr bits a) ≡ is4 a
is4-mask_addr bits (v4 n) = refl
is4-mask_addr bits (v6 n zone) = refl

pub is_wide-masked : (pfx : ℕ) (p : Prefix) → is_wide pfx (masked p) ≡ is_wide pfx p
is_wide-masked pfx p = ap (λ b. b || leb p.bits pfx) (is4-mask_addr p.bits p.addr)
