-- ===== src/Ctl/Identity/Laws.antt =====
-- The certificate that `identity init` writes is the one that the node vouches with.
use federloom.Prelude.{
  ◌+◌, ◌<◌, ◌≡◌, refl, sym, ap, ◌∙◌, Bool, true, false, not, ◌&&◌, ◌==◌, Bool-cases, inl, inr,
  arith, ltb, lt→ltb, String, str_eq, eq_refl, some, Option-cases, ok, Result-cases, length,
}
use federloom.Float.{Float}
use federloom.Proto.{Time, PeerCert}
use federloom.Identity.{Crypto, verify_cert, contains_bar}
use federloom.Node.{World, Node}
use federloom.Node.Start.{StartConfig, Disk, new_node, own_vouch, identity_of}
use federloom.Node.Start.Laws.{new_node-IsStarted}
use federloom.Ctl.Identity.{
  certified, PersonKeys, PersonFiles, issue_cert, append_issued_cert, certify, InitArgs,
  identity_init,
}

-- What ed25519 promises: a public key has 32 bytes, and verifies what its private key signs.
pub record IsSigner (crypto : Crypto) (keys : PersonKeys) : Type 0 where
  pub size : (priv : keys.PrivateKey) → length (keys.person_pub priv) ≡ 32
  pub verifies :
      (priv : keys.PrivateKey) (text : String)
      → crypto.verify (keys.person_pub priv) text (keys.sign_message priv text) ≡ true

module _ (crypto : Crypto) (keys : PersonKeys) where
  issue_cert-verified :
      (priv : keys.PrivateKey) (id : String) (until now : Time)
      → IsSigner crypto keys
      → str_eq id "" ≡ false
      → contains_bar id ≡ false
      → now < until
      → verify_cert crypto (issue_cert crypto keys priv id until) now ≡ ok tt
  unfolding verify_cert issue_cert
  issue_cert-verified priv id until now laws present plain early =
      let valid : ltb now until ≡ true = lt→ltb now until early in
      let sized : (length (keys.person_pub priv) == 32) ≡ true =
        let e = laws.size priv in ground arith in
      rw (present, sized, plain, valid, laws.verifies priv _) refl

  append_issued_cert-keeps :
      (saved : Bool) (cert c : PeerCert) (files files' : PersonFiles keys.PrivateKey)
      → append_issued_cert saved cert files ≡ (ok (certified c), files')
      → (c ≡ cert) × (files'.peer_cert ≡ files.peer_cert)
  unfolding append_issued_cert
  append_issued_cert-keeps saved cert c files files' h = elim (Result-cases files.issued) [
    | inl (e, bad) ↦ cc (rw bad at h)
    | inr (certs, read) ↦ elim (Bool-cases saved) [
      | inr fails ↦ cc (rw (read, fails) at h)
      | inl works ↦
          let h1 = rw (read, works) at h in
          let e : ok (certified cert) ≡ ok (certified c) = ap (λ o. o.0) h1 in
          (cc, sym (ap (λ o. o.1.peer_cert) h1))
    ]
  ]

  certify-writes :
      (written saved : Bool) (cert c : PeerCert) (files files' : PersonFiles keys.PrivateKey)
      → certify written saved cert files ≡ (ok (certified c), files')
      → (c ≡ cert) × (files'.peer_cert ≡ some c)
  unfolding certify append_issued_cert
  certify-writes false saved cert c files files' h = cc
  certify-writes true saved cert c files files' h =
      let k =
        append_issued_cert-keeps saved cert c (record files { peer_cert = some cert }) files' h in
      (k.0, k.1 ∙ ap some (sym k.0))

  -- What `identity init` certifies is signed with the key that it made.
  identity_init-writes :
      (args : InitArgs keys.PrivateKey) (id : String) (now : Time)
      (files files' : PersonFiles keys.PrivateKey) (c : PeerCert)
      → args.node ≡ some (some id)
      → identity_init crypto keys args now files ≡ (ok (certified c), files')
      → (priv : keys.PrivateKey) × (c ≡ issue_cert crypto keys priv id (now + args.valid_for))
        × (files'.peer_cert ≡ some c)
  unfolding identity_init certify append_issued_cert
  identity_init-writes args id now files files' c node h = elim (Bool-cases args.config_loaded) [
    | inr bad ↦ cc (rw (bad, identity_init) at h)
    | inl loaded ↦
        let h1 = rw (loaded, identity_init) at h in
        elim (Option-cases files.person_key) [
          | inr (old, there) ↦ cc (rw there at h1)
          | inl fresh ↦
              let h2 = rw fresh at h1 in
              elim (Option-cases args.generated) [
                | inl bad ↦ cc (rw bad at h2)
                | inr (priv, made) ↦
                    let h3 = rw made at h2 in
                    elim (Bool-cases (not (str_eq args.label "") && not args.label_written)) [
                      | inl bad ↦ cc (rw bad at h3)
                      | inr labelled ↦
                          let h4 = rw (labelled, node) at h3 in
                          let k =
                            certify-writes args.cert_written args.issued_saved
                              (issue_cert crypto keys priv id (now + args.valid_for)) c
                              (record files { person_key = some priv }) files' h4 in
                          (priv, k.0, k.1)
                    ]
              ]
        ]
  ]

own_vouch-verified :
    (crypto : Crypto) (c : PeerCert) (id : String) (now : Time)
    → verify_cert crypto c now ≡ ok tt
    → str_eq id "" ≡ false
    → c.peer_id ≡ id
    → own_vouch crypto (some c) id now ≡ some c
unfolding own_vouch
own_vouch-verified crypto c id now good present same =
    let e : str_eq c.peer_id id ≡ true = ap (λ x. str_eq x id) same ∙ eq_refl id in
    rw (own_vouch, good, present, e) refl

identity_of-id :
    (id self_id : String) (key_loaded : Bool)
    → identity_of (some id) key_loaded ≡ ok self_id
    → self_id ≡ id
identity_of-id id self_id true h = cc
identity_of-id id self_id false h = cc

module _ {F S : Type 0} ⦃f : Float F⦄ (w : World F S) (keys : PersonKeys) where
  -- `identity init` reports a certificate for the peer ID of the node's key, which is not empty and
  -- has no bar, and New reads the file that it wrote, for a node with that peer ID and before the
  -- validity ends, where a public key of ed25519 has 32 bytes and verifies what its private key
  -- signs. The node vouches for itself with that certificate, which names it.
  pub identity_init-vouches :
      (args : InitArgs keys.PrivateKey) (id : String) (issued : Time)
      (files files' : PersonFiles keys.PrivateKey) (c : PeerCert) (cfg : StartConfig F)
      (disk : Disk F S) (n : Node F S)
      → IsSigner w.crypto keys
      → args.node ≡ some (some id)
      → str_eq id "" ≡ false
      → contains_bar id ≡ false
      → identity_init w.crypto keys args issued files ≡ (ok (certified c), files')
      → w.now < issued + args.valid_for
      → disk.peer_cert ≡ files'.peer_cert
      → new_node w cfg (some id) disk ≡ ok n
      → (n.vouch ≡ some c) × (c.peer_id ≡ id)
  unfolding issue_cert
  identity_init-vouches args id issued files files' c cfg disk n laws node present plain done early
        same made =
      let h = new_node-IsStarted w cfg (some id) disk n made in
      let (priv, e, written) =
        identity_init-writes w.crypto keys args id issued files files' c node done in
      let self : n.self_id ≡ id = identity_of-id id n.self_id disk.key_loaded h.identity in
      let good : verify_cert w.crypto c w.now ≡ ok tt =
        ap (λ x. verify_cert w.crypto x w.now) e
        ∙ issue_cert-verified w.crypto keys priv id (issued + args.valid_for) w.now laws present
            plain early in
      let named : c.peer_id ≡ id = ap (λ x. x.peer_id) e in
      (
        h.vouch
            ∙ ap (λ p. own_vouch w.crypto p n.self_id w.now) (same ∙ written)
            ∙ ap (λ s. own_vouch w.crypto (some c) s w.now) self
            ∙ own_vouch-verified w.crypto c id w.now good present named,
        named,
      )
