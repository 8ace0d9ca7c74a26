-- ===== src/Ctl/Trust/Peers.antt =====
-- The commands that undo each other, and what an import and a block lead to.
use mathlib.Core.List.{Memᴰ}
use mathlib.Core.Path.{subst}
use federloom.Prelude.{
  ◌≡◌, refl, sym, inl, inr, ◌⊎◌, true, false, not, if_elim, arith, String, str_eq, eq_refl, List,
  [], ◌∷◌, ◌++◌, map, length, length-append, none, some, ok, All, All-append, contains_string, ◌==◌,
  is_ok,
}
use federloom.Float.{Float}
use federloom.Proto.{Time, Bytes, PeerCert}
use federloom.Identity.{Crypto, encode_pub, same_bytes, verify_cert}
use federloom.Trust.{Anchor}
use federloom.Ctl.Trust.{
  TrustDir, save_anchors, save_blocked, blocked_without, trust_block, trust_unblock, put_anchor,
  upsert_anchor, without_person, trust_remove, trust_add, out_of_range, weight_or, self_added,
  import_certs, replace_last,
}

without_absent :
    (peer : String) (peers : List String)
    → contains_string peers peer ≡ false
    → blocked_without peer (peers ++ peer ∷ []) ≡ peers
unfolding blocked_without
without_absent peer [] h = simp eq_refl
without_absent peer (p ∷ peers) h = ground (arith, without_absent peer peers, h)

shorter :
    (peer : String) (peers : List String) → (length peers == length (peers ++ peer ∷ [])) ≡ false
shorter peer peers = ground (arith, length-append peers (peer ∷ []))

module _ {F : Type 0} where
  -- When the blocked peers can be loaded and a peer is not among them: blocking it and unblocking
  -- it again, both saved, succeeds and leaves the files as they were.
  pub unblock-block :
      (peer : String) (peers : List String) (dir : TrustDir F)
      → dir.blocked ≡ ok peers
      → contains_string peers peer ≡ false
      → trust_unblock (peer ∷ []) (trust_block (peer ∷ []) dir true).1 true
        ≡ (none, record dir { blocked = ok peers })
  unfolding trust_block trust_unblock save_blocked
  unblock-block peer peers dir there absent =
      rw (there, trust_block, absent, without_absent peer peers absent, shorter peer peers) refl

  put_absent :
      (a : Anchor F) (anchors : List (Anchor F))
      → contains_string (map (λ b. b.person) anchors) a.person ≡ false
      → without_person a.person (put_anchor a anchors) ≡ (anchors, true)
  unfolding put_anchor without_person
  put_absent a [] h = simp eq_refl
  put_absent a (b ∷ anchors) h = ground (arith, h, put_absent a anchors)

module _ {F : Type 0} ⦃f : Float F⦄ where
  added :
      (crypto : Crypto) (person label : String) (weight anchor_weight : F) (key : Bytes)
      (anchors : List (Anchor F)) (dir : TrustDir F)
      → dir.anchors ≡ ok anchors
      → out_of_range (weight_or weight anchor_weight) ≡ false
      → trust_add crypto (person ∷ []) label weight anchor_weight (some key) (ok none) dir true ≡ (
        none,
        record dir {
          anchors = ok (
              put_anchor
                (self_added person label (encode_pub crypto key) (weight_or weight anchor_weight))
                anchors);
        },
      )
  unfolding trust_add upsert_anchor save_anchors
  added crypto person label weight top key anchors dir there fair = rw (fair, there) refl

  -- When the anchors can be loaded and no anchor is of a person: adding the person, with a key that
  -- decodes, a weight in range and no person key of one's own, and removing the person again, both
  -- saved, succeeds and leaves the files as they were.
  pub remove-add :
      (crypto : Crypto) (person label : String) (weight anchor_weight : F) (key : Bytes)
      (anchors : List (Anchor F)) (dir : TrustDir F)
      → dir.anchors ≡ ok anchors
      → out_of_range (weight_or weight anchor_weight) ≡ false
      → contains_string (map (λ b. b.person) anchors) person ≡ false
      → trust_remove
          (person ∷ [])
          (trust_add crypto
            (person ∷ [])
            label
            weight
            anchor_weight
            (some key)
            (ok none)
            dir
            true).1
          true
        ≡ (none, record dir { anchors = ok anchors })
  unfolding trust_remove save_anchors
  remove-add crypto person label weight top key anchors dir there fair absent =
      let a = self_added person label (encode_pub crypto key) (weight_or weight top) in
      rw
        (
          added crypto person label weight top key anchors dir there fair,
          put_absent a anchors absent,
        )
        refl

-- What an import keeps or adds: what was there, and certificates of the bundle that verify and that
-- the bundle's own key has signed.
abbrev pub IsFromBundle : Crypto → Bytes → Time → List PeerCert → PeerCert → Type 0
IsFromBundle crypto key now certs c =
    Memᴰ c certs × (same_bytes c.person_key key ≡ true) × (is_ok (verify_cert crypto c now) ≡ true)

module _ (P : PeerCert → Type 0) where
  replace_last-All :
      (c : PeerCert) (existing : List PeerCert)
      → P c
      → All P existing
      → All P (replace_last c existing)
  unfolding replace_last
  replace_last-All c [] new h = tt
  replace_last-All c (e ∷ existing) new h =
      if_elim (All P) (contains_string (map (λ d. d.peer_id) existing) c.peer_id) _ _
        (λ later. (h.0, replace_last-All c existing new h.1))
        (λ last.
          if_elim (All P) (str_eq e.peer_id c.peer_id) _ _ (λ here. (new, h.1))
            (λ other. (h.0, replace_last-All c existing new h.1)))

  import_certs-All :
      (crypto : Crypto) (key : Bytes) (now : Time) (known : List String)
      (certs existing : List PeerCert)
      → ((c : PeerCert) → IsFromBundle crypto key now certs c → P c)
      → All P existing
      → All P (import_certs crypto key now known certs existing)
  unfolding import_certs
  import_certs-All crypto key now known [] existing new h = h
  import_certs-All crypto key now known (c ∷ certs) existing new h =
      import_certs-All crypto key now known certs _
        (λ d (there, mine, good). new d (Memᴰ.tail there, mine, good))
        (if_elim (All P) (not (same_bytes c.person_key key)) _ _ (λ other. h)
          (λ mine.
            if_elim (All P) (not (is_ok (verify_cert crypto c now))) _ _ (λ bad. h)
              (λ good.
                let fresh = new c (Memᴰ.head refl, ground (arith, mine), ground (arith, good)) in
                if_elim (All P) (contains_string known c.peer_id) _ _
                  (λ there. replace_last-All c existing fresh h)
                  (λ absent. All-append P existing (c ∷ []) h (fresh, tt)))))

All-Mem :
    (P : PeerCert → Type 0) (certs : List PeerCert) (c : PeerCert)
    → All P certs
    → Memᴰ c certs
    → P c
All-Mem P [] c h there = elim there [ ]
All-Mem P (d ∷ certs) c h (Memᴰ.head e) = subst P (sym e) h.0
All-Mem P (d ∷ certs) c h (Memᴰ.tail there) = All-Mem P certs c h.1 there

All-of-Mem :
    (P : PeerCert → Type 0) (certs : List PeerCert)
    → ((c : PeerCert) → Memᴰ c certs → P c)
    → All P certs
All-of-Mem P [] h = tt
All-of-Mem P (c ∷ certs) h =
    (h c (Memᴰ.head refl), All-of-Mem P certs (λ d there. h d (Memᴰ.tail there)))

-- Whatever the bundle claims: a certificate that is on file after an import was there before, or is
-- one of the bundle's that verifies at the time and that the key of the bundle has signed.
pub import_certs-IsFromBundle :
    (crypto : Crypto) (key : Bytes) (now : Time) (known : List String)
    (certs existing : List PeerCert) (c : PeerCert)
    → Memᴰ c (import_certs crypto key now known certs existing)
    → Memᴰ c existing ⊎ IsFromBundle crypto key now certs c
import_certs-IsFromBundle crypto key now known certs existing c there =
    let P : PeerCert → Type 0 = λ d. Memᴰ d existing ⊎ IsFromBundle crypto key now certs d in
    All-Mem P (import_certs crypto key now known certs existing) c
      (import_certs-All P crypto key now known certs existing (λ d h. inr h)
        (All-of-Mem P existing (λ d h. inl h)))
      there
