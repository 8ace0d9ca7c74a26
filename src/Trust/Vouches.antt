-- ===== src/Trust/Vouches.antt =====
-- internal/trust/store.go: the certificates that a store keeps, and what they give a peer.
use federloom.Prelude.{
  ◌+◌, ◌≤◌, ◌≡◌, refl, sym, ◌⊎◌, inl, inr, true, false, ◌&&◌, ltb, arith, String, str_eq, eq_iff,
  List, [], ◌∷◌, Option, none, some, Bool-cases, Option-cases, Assoc, lookup, insert, lookup-insert,
  ok, err, is_ok,
}
use mathlib.Core.Path.{subst}
use federloom.Float.{Float}
use federloom.Proto.{Time, PeerCert}
use federloom.Identity.{Crypto, verify_cert, cert_message, encode_pub}
use federloom.Trust.{
  Anchor, expired, FileView, TrustFiles, TrustStore, lives_longer, merge_certs, reload_anchors,
  reload_certs, reload_blocked, maybe_reload, anchor_of, cached_trust,
}

-- The certificate names the peer that it is kept under, and its person signed it.
abbrev pub IsVouch : Crypto → String → PeerCert → Type 0
IsVouch crypto peer c =
    (c.peer_id ≡ peer)
    × (crypto.verify c.person_key (cert_message crypto c.peer_id c.person_key c.valid_until) c.sig
        ≡ true)

abbrev pub HasVouches : Crypto → Assoc PeerCert → Type 0
HasVouches crypto m =
    (peer : String) (c : PeerCert) → lookup peer m ≡ some c → IsVouch crypto peer c

verify_cert-IsVouch :
    (crypto : Crypto) (c : PeerCert) (now : Time)
    → is_ok (verify_cert crypto c now) ≡ true
    → IsVouch crypto c.peer_id c
unfolding verify_cert
verify_cert-IsVouch crypto c now h = (refl, ground arith)

insert-HasVouches :
    (crypto : Crypto) (m : Assoc PeerCert) (c : PeerCert) (now : Time)
    → HasVouches crypto m
    → is_ok (verify_cert crypto c now) ≡ true
    → HasVouches crypto (insert c.peer_id c m)
insert-HasVouches crypto m c now old h peer d found =
    let v = verify_cert-IsVouch crypto c now h in
    let known = old peer d in
    let read = lookup-insert c.peer_id peer c m in
    elim (Bool-cases (str_eq c.peer_id peer)) [
      | inl same ↦
          let both : some c ≡ some d = ground (arith, read) in
          let e : c ≡ d = cc in
          subst (λ x. IsVouch crypto peer x) e ((eq_iff c.peer_id peer).0 same, v.1)
      | inr other ↦ known (ground (arith, read))
    ]

merge_certs-HasVouches :
    (crypto : Crypto) (cs : List PeerCert) (now : Time) (m : Assoc PeerCert)
    → HasVouches crypto m
    → HasVouches crypto (merge_certs crypto cs now m)
unfolding merge_certs
merge_certs-HasVouches crypto [] now m old = old
merge_certs-HasVouches crypto (c ∷ rest) now m old =
    merge_certs-HasVouches crypto rest now _
      (elim (Bool-cases
        (is_ok (verify_cert crypto c now) && lives_longer c.valid_until (lookup c.peer_id m))) [
          | inl h ↦ rw h (insert-HasVouches crypto m c now old (ground arith))
          | inr h ↦ rw h old
        ])

module _ {F : Type 0} ⦃f : Float F⦄ (crypto : Crypto) where
  reload_anchors_certs :
      (file : FileView (Anchor F)) (s : TrustStore F) → (reload_anchors file s).certs ≡ s.certs
  unfolding reload_anchors
  reload_anchors_certs file s = ground arith

  reload_blocked_certs :
      (file : FileView String) (s : TrustStore F) → (reload_blocked crypto file s).certs ≡ s.certs
  unfolding reload_blocked
  reload_blocked_certs file s = ground arith

  pub reload_blocked_anchors :
      (file : FileView String) (s : TrustStore F)
      → (reload_blocked crypto file s).anchors ≡ s.anchors
  unfolding reload_blocked
  reload_blocked_anchors file s = ground arith

  pub reload_certs_anchors :
      (file : FileView PeerCert) (now : Time) (s : TrustStore F)
      → (reload_certs crypto file now s).anchors ≡ s.anchors
  unfolding reload_certs
  reload_certs_anchors file now s = ground arith

  reload_certs-HasVouches :
      (file : FileView PeerCert) (now : Time) (s : TrustStore F)
      → HasVouches crypto s.certs
      → HasVouches crypto (reload_certs crypto file now s).certs
  unfolding reload_certs
  reload_certs-HasVouches file now s old peer c found =
      elim file.content as (λ x. file.content ≡ x → IsVouch crypto peer c) [
        | err m ↦ λ h. old peer c (ground arith)
        | ok cs ↦ λ h.
            let cases : (lookup peer s.certs ≡ some c)
                ⊎ (lookup peer (merge_certs crypto cs now s.certs) ≡ some c) =
              ground arith in
            elim cases [
              | inl p ↦ old peer c p
              | inr p ↦ merge_certs-HasVouches crypto cs now s.certs old peer c p
            ]
      ]
        refl

  -- Reading the files again keeps every cached certificate signed by its person and kept under the
  -- peer that it names.
  pub maybe_reload-HasVouches :
      (files : TrustFiles F) (now : Time) (s : TrustStore F)
      → HasVouches crypto s.certs
      → HasVouches crypto (maybe_reload crypto files now s).certs
  unfolding maybe_reload
  maybe_reload-HasVouches files now s old =
      let s1 : TrustStore F = reload_anchors files.anchors (record s { last_check = now }) in
      let s2 = reload_certs crypto files.certs now s1 in
      let first = reload_anchors_certs files.anchors (record s { last_check = now }) in
      let vouches =
        reload_certs-HasVouches files.certs now s1
          (subst (λ m. HasVouches crypto m) (sym first) old) in
      elim (Bool-cases (s.loaded_once && ltb now (s.last_check + s.reload_every))) [
        | inl h ↦ rw h old
        | inr h ↦
            rw h (
              subst (λ m. HasVouches crypto m) (sym (reload_blocked_certs files.blocked s2))
                vouches)
      ]

  pub cached_trust_lem :
      (now : Time) (s : TrustStore F) (o : Option PeerCert) (weight : F) (group : String)
      → cached_trust crypto now s o ≡ (weight, group, true)
      → (c : PeerCert) × (a : Anchor F) × (o ≡ some c)
        × (now ≤ c.valid_until)
        × (lookup (encode_pub crypto c.person_key) s.anchors ≡ some a)
        × (expired a now ≡ false)
        × (weight ≡ a.weight)
        × (group ≡ a.person)
  unfolding cached_trust anchor_of
  cached_trust_lem now s none weight group h = ground arith
  cached_trust_lem now s (some c) weight group h =
      elim (Option-cases (lookup (encode_pub crypto c.person_key) s.anchors)) [
        | inl none_there ↦ ground arith
        | inr (a, there) ↦
            (c, a, refl, ground arith, there, ground arith, ground arith, ground arith)
      ]
