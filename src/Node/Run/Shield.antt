-- ===== src/Node/Run/Shield.antt =====
-- The operator's lists name addresses and networks, and a node blocks keys: what a list shields.
use federloom.Prelude.{
  ℕ, ◌≡◌, refl, ap, ◌∙◌, Bool, true, false, ◌&&◌, ◌||◌, arith, String, str_eq, eq_iff, List, [],
  ◌∷◌, none, some, Option-cases, Bool-cases, inl, inr, contains_string, All,
}
use federloom.Float.{Float}
use federloom.Proto.{WhitelistEntry}
use federloom.Netutil.{
  Addr, v4, v6, Prefix, Netip, unmap, is4, masked, prefix_contains, key_of, normalize_ip, key_addr,
}
use federloom.Netutil.Keys.{
  IsNetip, IsAddr, base_addr, key_addr-key_of, is_wide, prefix_contains-base_addr, is_wide-masked,
}
use federloom.Enforce.Neverblock.{NeverBlockList, any_contains, never_blocked}
use federloom.Store.Whitelist.{same_addr, covers, any_covers, whitelisted}
use federloom.Node.{Node}
use federloom.Node.Run.{Reach}
use federloom.Node.Run.Lists.{lists}
use federloom.Node.Remote.Backstop.{blocks}
use federloom.Node.Run.Exempt.{listed, protected_never_blocked}

both_left : (a b : Bool) → (a && b) ≡ true → a ≡ true
both_left a b h = ground arith

both_right : (a b : Bool) → (a && b) ≡ true → b ≡ true
both_right a b h = ground arith

-- Whether a network of the never-block list that is wide enough has an address.
abbrev pub any_shields : ℕ → List Prefix → Addr → Bool
any_shields pfx [] a = false
any_shields pfx (p ∷ ps) a = (is_wide pfx p && prefix_contains p a) || any_shields pfx ps a

any_contains-base_addr :
    (ip : Netip) (pfx : ℕ) (ps : List Prefix) (a : Addr)
    → any_shields pfx ps a ≡ true
    → any_contains ip ps (base_addr pfx a) ≡ true
unfolding any_contains
any_contains-base_addr ip pfx [] a h = cc
any_contains-base_addr ip pfx (p ∷ ps) a h =
    ground (arith, any_contains-base_addr ip pfx ps a, prefix_contains-base_addr pfx p a)

module _ (ip : Netip) where
  -- Whether an entry of the whitelist is an IPv4 address, or a network that is wide enough, and
  -- covers an address.
  abbrev pub covers_widely : ℕ → String → Addr → Bool
  covers_widely pfx text a = elim (ip.parse_addr text) [
    | some entry ↦ is4 (unmap entry) && same_addr (unmap entry) a
    | none ↦ elim (ip.parse_prefix text) [
      | some p ↦ is_wide pfx p && prefix_contains (masked p) a
      | none ↦ false
    ]
  ]

  abbrev pub any_covers_widely : ℕ → List WhitelistEntry → Addr → Bool
  any_covers_widely pfx [] a = false
  any_covers_widely pfx (e ∷ es) a = covers_widely pfx e.ip_or_range a || any_covers_widely pfx es a

  same_addr-base_addr :
      (pfx : ℕ) (entry a : Addr)
      → (is4 entry && same_addr entry a) ≡ true
      → same_addr entry (base_addr pfx a) ≡ true
  same_addr-base_addr pfx (v4 m) (v4 n) h = h
  same_addr-base_addr pfx (v4 m) (v6 n zone) h = h
  same_addr-base_addr pfx (v6 m z) a h = cc

  covers-base_addr :
      (pfx : ℕ) (text : String) (a : Addr)
      → covers_widely pfx text a ≡ true
      → covers ip text (base_addr pfx a) ≡ true
  unfolding covers
  covers-base_addr pfx text a h = elim (Option-cases (ip.parse_addr text)) [
    | inr (entry, e) ↦
        rw (e, covers) (same_addr-base_addr pfx (unmap entry) a (rw (e, covers_widely) at h))
    | inl other ↦
        let h' = rw (other, covers_widely) at h in
        elim (Option-cases (ip.parse_prefix text)) [
          | inl bad ↦ cc (rw bad at h')
          | inr (p, e) ↦
              let wide = rw e at h' in
              rw (other, covers, e)
                (prefix_contains-base_addr pfx (masked p) a
                  (is_wide-masked pfx p ∙ both_left (is_wide pfx p) _ wide)
                  (both_right (is_wide pfx p) _ wide))
        ]
  ]

  any_covers-base_addr :
      (pfx : ℕ) (es : List WhitelistEntry) (a : Addr)
      → any_covers_widely pfx es a ≡ true
      → any_covers ip es (base_addr pfx a) ≡ true
  unfolding any_covers
  any_covers-base_addr pfx [] a h = cc
  any_covers-base_addr pfx (e ∷ es) a h =
      ground (arith, any_covers-base_addr pfx es a, covers-base_addr pfx e.ip_or_range a)

  -- Whether either of the lists shields an address against blocks of its key.
  abbrev pub shields : ℕ → NeverBlockList × List WhitelistEntry → Addr → Bool
  shields pfx (neverblock, whitelist) a =
      any_shields pfx neverblock.prefixes a || any_covers_widely pfx whitelist a

  listed-key :
      (pfx : ℕ) (l : NeverBlockList) (es : List WhitelistEntry) (a : Addr) (key : String)
      → key_addr ip key ≡ some (base_addr pfx a)
      → shields pfx (l, es) a ≡ true
      → listed ip (l, es) key ≡ true
  unfolding never_blocked whitelisted
  listed-key pfx l es a key e h =
      ground (arith, e, any_contains-base_addr ip pfx l.prefixes a, any_covers-base_addr pfx es a)

  normalized :
      (s key : String) (a : Addr) (pfx : ℕ)
      → ip.parse_addr s ≡ some a
      → normalize_ip ip s pfx ≡ some key
      → key_of ip (unmap a) pfx ≡ some key
  unfolding normalize_ip
  normalized s key a pfx parsed e = ground (arith, parsed, e)

free_of :
    (net : Netip) (l : NeverBlockList × List WhitelistEntry) (key : String) (ips : List String)
    → listed net l key ≡ true
    → All (λ ip. listed net l ip ≡ false) ips
    → contains_string ips key ≡ false
free_of net l key [] h safe = refl
free_of net l key (ip ∷ ips) h safe = elim (Bool-cases (str_eq ip key)) [
  | inl same ↦ let e : ip ≡ key = (eq_iff ip key).0 same in cc (ap (listed net l) e, safe.0, h)
  | inr other ↦ rw other (free_of net l key ips h safe.1)
]

module _ {F S : Type 0} ⦃f : Float F⦄ (net : Netip) where
  -- An address is shielded if the never-block list or the whitelist has a network around it or, for
  -- an IPv4 address, the address itself, where a network of IPv6 must be at least as wide as the
  -- prefix that the keys have. Whatever a node goes through from when it has made no call yet, it
  -- never asks for a block of the key of an address that is shielded, however the address was
  -- written.
  pub shielded_never_blocked :
      (n m : Node F S) (s key : String) (a : Addr) (pfx : ℕ)
      → IsNetip net
      → n.calls ≡ []
      → Reach net n m
      → net.parse_addr s ≡ some a
      → IsAddr (unmap a)
      → normalize_ip net s pfx ≡ some key
      → shields net pfx (lists n) (unmap a) ≡ true
      → contains_string (blocks m.calls) key ≡ false
  shielded_never_blocked n m s key a pfx laws fresh reached parsed valid normal shielded =
      free_of net (lists n) key (blocks m.calls)
        (listed-key net pfx n.neverblock n.whitelist (unmap a) key
          (key_addr-key_of net laws (unmap a) pfx key valid
            (normalized net s key a pfx parsed normal))
          shielded)
        (protected_never_blocked net n m fresh reached).1
