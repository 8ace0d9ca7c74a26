-- ===== src/Node/Start/Laws.antt =====
-- What holds of a node from its start on.
use mathlib.Core.Path.{subst}
use federloom.Prelude.{
  ℕ, ◌≡◌, refl, sym, ap, ◌∙◌, Bool, true, false, Bool-cases, inl, inr, String, str_eq, eq_iff, List,
  [], Option, none, some, ok, Result-cases, is_ok, contains_string,
}
use federloom.Float.{Float}
use federloom.Proto.{Time, PeerCert, WhitelistEntry}
use federloom.Store.Whitelist.{load_whitelist}
use federloom.Netutil.{Addr, unmap, normalize_ip}
use federloom.Netutil.Keys.{IsNetip, IsAddr}
use federloom.Identity.{Crypto, verify_cert}
use federloom.Enforce.Neverblock.{new_never_block_list}
use federloom.Node.{Node, World}
use federloom.Node.Remote.Backstop.{blocks}
use federloom.Node.Run.{Reach}
use federloom.Node.Run.Shield.{shields, shielded_never_blocked}
use federloom.Node.Start.{
  StartConfig, Disk, engine_of, own_vouch, identity_of, opened_store, started, new_node,
}

own_vouch-inv :
    (crypto : Crypto) (read : Option PeerCert) (self_id : String) (now : Time) (cert : PeerCert)
    → own_vouch crypto read self_id now ≡ some cert
    → (is_ok (verify_cert crypto cert now) ≡ true)
      × (str_eq self_id "" ≡ false)
      × (str_eq cert.peer_id self_id ≡ true)
unfolding own_vouch
own_vouch-inv crypto none self_id now cert h = cc
own_vouch-inv crypto (some c) self_id now cert h =
    let Good : PeerCert → Type 0 = λ x.
      (is_ok (verify_cert crypto x now) ≡ true)
      × (str_eq self_id "" ≡ false)
      × (str_eq x.peer_id self_id ≡ true) in
    elim (Bool-cases (is_ok (verify_cert crypto c now))) [
      | inr bad ↦ cc (rw (bad, own_vouch) at h)
      | inl good ↦
          let h1 = rw (good, own_vouch) at h in
          elim (Bool-cases (str_eq self_id "")) [
            | inl absent ↦ cc (rw absent at h1)
            | inr present ↦
                let h2 = rw present at h1 in
                elim (Bool-cases (str_eq c.peer_id self_id)) [
                  | inr other ↦ cc (rw other at h2)
                  | inl same ↦
                      let e : c ≡ cert = cc (rw same at h2) in subst Good e (good, present, same)
                ]
          ]
    ]

identity_of-inv :
    (peer : Option String) (key_loaded : Bool) (self_id id : String)
    → identity_of peer key_loaded ≡ ok self_id
    → str_eq self_id "" ≡ false
    → str_eq id self_id ≡ true
    → peer ≡ some id
identity_of-inv none key_loaded self_id id h present same =
    let e : "" ≡ self_id = cc in cc (sym present ∙ ap (λ s. str_eq s "") (sym e))
identity_of-inv (some p) true self_id id h present same =
    let e : p ≡ self_id = cc in ap some (e ∙ sym ((eq_iff id self_id).0 same))
identity_of-inv (some p) false self_id id h present same = cc

module _ {F S : Type 0} ⦃f : Float F⦄ (w : World F S) where
  -- What New makes of the configuration and the files.
  pub record IsStarted (c : StartConfig F) (peer : Option String) (disk : Disk F S) (n : Node F S)
      : Type 0 where
    pub no_calls : n.calls ≡ []
    pub rep : n.rep ≡ engine_of c
    pub neverblock : n.neverblock ≡ new_never_block_list w.netip c.extra_whitelist
    pub whitelist : load_whitelist disk.whitelist ≡ ok n.whitelist
    pub identity : identity_of peer disk.key_loaded ≡ ok n.self_id
    pub vouch : n.vouch ≡ own_vouch w.crypto disk.peer_cert n.self_id w.now

  pub new_node-IsStarted :
      (c : StartConfig F) (peer : Option String) (disk : Disk F S) (n : Node F S)
      → new_node w c peer disk ≡ ok n
      → IsStarted c peer disk n
  unfolding new_node started
  new_node-IsStarted c peer disk n made = elim (Result-cases (opened_store w disk.opened)) [
    | inl (e, bad) ↦ cc (rw (bad, new_node) at made)
    | inr (s, opened) ↦
        let made1 = rw (opened, new_node) at made in
        elim (Result-cases (load_whitelist disk.whitelist)) [
          | inl (e, bad) ↦ cc (rw bad at made1)
          | inr (es, loaded) ↦
              let made2 = rw loaded at made1 in
              elim (Result-cases (identity_of peer disk.key_loaded)) [
                | inl (e, bad) ↦ cc (rw bad at made2)
                | inr (id, known) ↦
                    let made3 = rw known at made2 in
                    elim (Bool-cases disk.observed) [
                      | inr bad ↦ cc (rw bad at made3)
                      | inl observed ↦
                          let same : started w c peer disk.peer_cert s es id ≡ n =
                            cc (rw observed at made3) in
                          subst (IsStarted c peer disk) same (record {
                            no_calls = refl;
                            rep = refl;
                            neverblock = refl;
                            whitelist = loaded;
                            identity = known;
                            vouch = refl;
                          })
                    ]
              ]
        ]
  ]

  -- From New on: an address is shielded if the built-in networks, those that the configuration adds
  -- to them, or the entries of the whitelist's file have a network around it or, for an IPv4
  -- address, the address itself, where a network of IPv6 must be at least as wide as the prefix
  -- that the keys have. Whatever a node that New makes goes through, it never asks for a block of
  -- the key of an address that is shielded, however the address was written.
  pub started_never_blocks :
      (c : StartConfig F) (peer : Option String) (disk : Disk F S) (n m : Node F S)
      (entries : List WhitelistEntry) (s key : String) (a : Addr) (pfx : ℕ)
      → IsNetip w.netip
      → new_node w c peer disk ≡ ok n
      → load_whitelist disk.whitelist ≡ ok entries
      → Reach w.netip n m
      → w.netip.parse_addr s ≡ some a
      → IsAddr (unmap a)
      → normalize_ip w.netip s pfx ≡ some key
      → shields w.netip pfx (new_never_block_list w.netip c.extra_whitelist, entries) (unmap a)
        ≡ true
      → contains_string (blocks m.calls) key ≡ false
  started_never_blocks c peer disk n m entries s key a pfx laws made loaded reached parsed valid
        normal shielded =
      let h = new_node-IsStarted c peer disk n made in
      let same : n.whitelist ≡ entries = cc (h.whitelist, loaded) in
      shielded_never_blocked w.netip n m s key a pfx laws h.no_calls reached parsed valid normal (
        ap (λ l. shields w.netip pfx (l, n.whitelist) (unmap a)) h.neverblock
        ∙ ap
            (λ es.
              shields w.netip pfx (new_never_block_list w.netip c.extra_whitelist, es) (unmap a))
            same
        ∙ shielded)

  -- A node that New makes vouches for itself with a certificate only if that is verified when it is
  -- made and in the name of the node's own peer ID, which a node without a transport has not.
  pub own_vouch_lem :
      (c : StartConfig F) (peer : Option String) (disk : Disk F S) (n : Node F S) (cert : PeerCert)
      → new_node w c peer disk ≡ ok n
      → n.vouch ≡ some cert
      → (is_ok (verify_cert w.crypto cert w.now) ≡ true) × (peer ≡ some cert.peer_id)
  own_vouch_lem c peer disk n cert made vouched =
      let h = new_node-IsStarted c peer disk n made in
      let v = own_vouch-inv w.crypto disk.peer_cert n.self_id w.now cert (sym h.vouch ∙ vouched) in
      (v.0, identity_of-inv peer disk.key_loaded n.self_id cert.peer_id h.identity v.1 v.2)
