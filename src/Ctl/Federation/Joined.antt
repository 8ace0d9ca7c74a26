-- ===== src/Ctl/Federation/Joined.antt =====
-- From the invitation to the anchor: what one operator invites to, the other joins.
use mathlib.Core.Path.{subst}
use federloom.Prelude.{
  ◌≡◌, refl, ◌∙◌, ap, true, false, if◌then◌else◌, Bool-cases, inl, inr, arith, String, str_eq, List,
  [], ◌∷◌, map, Option, none, some, Option-cases, Result, ok, err, Result-cases, length,
}
use federloom.Float.{Float, num, ◌<?◌}
use federloom.Proto.{Time, Bytes, PeerCert}
use federloom.Identity.{Crypto, encode_pub, decode_pub}
use federloom.Identity.Keys.{decode_pub-encode_pub}
use federloom.Trust.{Anchor}
use federloom.Federation.{
  Invitation, InvitationError, Multiaddr, InvitationJson, InviterKeys, InviterConfig, invitation_of,
  full_addr, new_invitation, write_invitation, read_invitation,
}
use federloom.Ctl.Trust.{
  TrustDir, out_of_range, put_anchor, import_certs, import_into, save_certs, then_anchor,
  upsert_anchor, save_anchors,
}
use federloom.Ctl.Federation.{
  Output, written_to, with_weight, federation_invite, join_weight, joined_anchor, federation_join,
}

-- What is encoded is what is decoded.
abbrev pub Decodes : {F : Type 0} → InvitationJson F → Type 0
Decodes {F} json = (i : Invitation F) (t : String) → json.encode i ≡ some t → json.decode t ≡ some i

written_to-ok :
    (out : Output) (made : Result InvitationError String) (text : String)
    → written_to out made ≡ ok text
    → made ≡ ok text
written_to-ok Output.refused made text h = cc
written_to-ok Output.stdout (err e) text h = cc
written_to-ok Output.stdout (ok t) text h = cc
written_to-ok Output.created (err e) text h = cc
written_to-ok Output.created (ok t) text h = cc

module _ {F : Type 0} ⦃f : Float F⦄ (crypto : Crypto) (fingerprint : Bytes → String) (m : Multiaddr)
    (json : InvitationJson F) where
  -- The weight that an invitation suggests.
  abbrev pub suggestion : F → InviterConfig F → F
  suggestion weight cfg = if num 0 <? weight then weight else cfg.anchor_weight

  -- What an invitation holds.
  record IsInvitationOf (key : Bytes) (certs : List PeerCert) (label : String) (weight : F)
      (inv : Invitation F) : Type 0 where
    version : inv.version ≡ 1
    suggested : inv.federation.suggested_weight ≡ weight
    labelled : inv.trust.label ≡ label
    identity : inv.trust.identity_pubkey ≡ encode_pub crypto key
    listed : inv.trust.certs ≡ certs

  new_invitation-IsInvitationOf :
      (keys : InviterKeys) (cfg : InviterConfig F) (label addr : String) (now : Time) (key : Bytes)
      (certs : List PeerCert) (inv : Invitation F)
      → keys.person ≡ ok key
      → keys.issued ≡ ok certs
      → new_invitation crypto fingerprint m keys cfg label addr now ≡ ok inv
      → IsInvitationOf key certs label cfg.anchor_weight inv
  unfolding new_invitation
  new_invitation-IsInvitationOf keys cfg label addr now key certs inv person issued made =
      elim (Result-cases (full_addr m keys.node_key addr)) [
        | inl (e, bad) ↦ cc (rw (bad, new_invitation) at made)
        | inr (full, good) ↦
            let same : invitation_of crypto fingerprint m cfg label now full key certs ≡ inv =
              cc (rw (good, person, issued, new_invitation) at made) in
            subst (IsInvitationOf key certs label cfg.anchor_weight) same (record {
              version = refl;
              suggested = refl;
              labelled = refl;
              identity = refl;
              listed = refl;
            })
      ]

  with_weight-IsInvitationOf :
      (weight other : F) (key : Bytes) (certs : List PeerCert) (label : String)
      (inv changed : Invitation F)
      → IsInvitationOf key certs label other inv
      → with_weight weight inv ≡ ok changed
      → IsInvitationOf key certs label (if num 0 <? weight then weight else other) changed
  unfolding with_weight
  with_weight-IsInvitationOf weight other key certs label inv changed h made = record {
    version = ground (arith, h.version);
    suggested = ground (arith, h.suggested);
    labelled = ground (arith, h.labelled);
    identity = ground (arith, h.identity);
    listed = ground (arith, h.listed);
  }

  -- What is written for an operator decodes to an invitation of that operator.
  record Written (key : Bytes) (certs : List PeerCert) (label : String) (weight : F) (text : String)
      : Type 0 where
    inv : Invitation F
    reads : read_invitation json text ≡ ok inv
    holds : IsInvitationOf key certs label weight inv

  text-Written :
      (key : Bytes) (certs : List PeerCert) (label : String) (weight : F) (inv : Invitation F)
      (text : String)
      → Decodes json
      → IsInvitationOf key certs label weight inv
      → write_invitation json inv ≡ ok text
      → Written key certs label weight text
  unfolding write_invitation read_invitation
  text-Written key certs label weight inv text codec h made =
      elim (Option-cases (json.encode inv)) [
        | inl bad ↦ cc (rw (bad, write_invitation) at made)
        | inr (t, good) ↦
            let same : t ≡ text = cc (rw (good, write_invitation) at made) in
            record {
              inv = inv;
              reads = rw (codec inv text (good ∙ ap some same), h.version) refl;
              holds = h;
            }
      ]

  invite-Written :
      (keys : InviterKeys) (cfg : InviterConfig F) (addr : String) (weight : F) (label : String)
      (out : Output) (now : Time) (key : Bytes) (certs : List PeerCert) (text : String)
      → Decodes json
      → keys.person ≡ ok key
      → keys.issued ≡ ok certs
      → federation_invite crypto fingerprint m json keys cfg addr weight (some label) out now
        ≡ ok text
      → Written key certs label (suggestion weight cfg) text
  unfolding federation_invite
  invite-Written keys cfg addr weight label out now key certs text codec person issued made =
      elim (Bool-cases (str_eq addr "")) [
        | inl empty ↦ cc (rw (empty, federation_invite) at made)
        | inr given ↦
            let made1 = rw (given, federation_invite) at made in
            elim (Result-cases (new_invitation crypto fingerprint m keys cfg label addr now)) [
              | inl (e, bad) ↦ cc (rw bad at made1)
              | inr (inv, good) ↦
                  let holds =
                    new_invitation-IsInvitationOf keys cfg label addr now key certs inv person
                      issued good in
                  let made2 = rw good at made1 in
                  elim (Result-cases (with_weight weight inv)) [
                    | inl (e, bad) ↦ cc (rw bad at made2)
                    | inr (changed, weighed) ↦
                        text-Written key certs label (suggestion weight cfg) changed text codec
                          (with_weight-IsInvitationOf weight cfg.anchor_weight key certs label inv
                            changed holds weighed)
                          (written_to-ok out (write_invitation json changed) text
                            (rw weighed at made2))
                  ]
            ]
      ]

  imported :
      (key : Bytes) (now : Time) (certs : List PeerCert) (a : Anchor F) (dir : TrustDir F)
      (anchors : List (Anchor F)) (known : List PeerCert)
      → dir.anchors ≡ ok anchors
      → dir.certs ≡ ok known
      → import_into crypto key now certs a dir true true ≡ (
        none,
        record dir {
          anchors = ok (put_anchor a anchors);
          certs = ok (import_certs crypto key now (map (λ c. c.peer_id) known) certs known);
        },
      )
  unfolding import_into save_certs then_anchor upsert_anchor save_anchors
  imported key now certs a dir anchors known there certs_there = rw (there, certs_there) refl

  joined_weight :
      (inv : Invitation F) (unset anchor_weight : F)
      → f.eq unset (num 0) ≡ true
      → (num 0 <? inv.federation.suggested_weight) ≡ true
      → f.eq inv.federation.suggested_weight (num 0) ≡ false
      → join_weight unset inv.federation.suggested_weight anchor_weight
        ≡ inv.federation.suggested_weight
  unfolding join_weight
  joined_weight inv unset anchor_weight zero positive nonzero = rw (zero, positive, nonzero) refl

  join_accepted :
      (inv : Invitation F) (now : Time) (key : Bytes) (text path name : String)
      (decode64 : String → Option Bytes) (weight anchor_weight : F) (dir : TrustDir F)
      → read_invitation json text ≡ ok inv
      → decode_pub decode64 inv.trust.identity_pubkey ≡ some key
      → str_eq name "" ≡ false
      → out_of_range (join_weight weight inv.federation.suggested_weight anchor_weight) ≡ false
      → federation_join crypto json decode64 now
          (path ∷ [])
          name
          weight
          anchor_weight
          (some text)
          (some "yes")
          dir
          true
          true
        ≡ import_into crypto key now inv.trust.certs
            (joined_anchor name
              (join_weight weight inv.federation.suggested_weight anchor_weight)
              inv)
            dir
            true
            true
  unfolding federation_join
  join_accepted inv now key text path name decode64 weight anchor_weight dir reads decodes named
        range =
      ground (arith, reads, decodes, named, range)

  -- An operator writes an invitation with its person's key, and another joins by it, saying yes
  -- and giving a name but no weight: when the weight that the invitation suggests lies in (0, 1],
  -- the key has 32 bytes and its base64 is read back, JSON reads back the invitations that it
  -- writes, the files of the other load and the saves succeed, the other has afterwards exactly the
  -- anchors it had, with the inviter's key put in under that name with the suggested weight, and
  -- the certificates that an import of those that the inviter issued gives.
  pub join_invitation :
      (keys : InviterKeys) (cfg : InviterConfig F) (addr : String) (weight : F) (label : String)
      (out : Output) (made now : Time) (key : Bytes) (certs : List PeerCert)
      (text path name : String) (decode64 : String → Option Bytes) (unset anchor_weight : F)
      (dir : TrustDir F) (anchors : List (Anchor F)) (known : List PeerCert)
      → Decodes json
      → length key ≡ 32
      → decode64 (crypto.base64 key) ≡ some key
      → keys.person ≡ ok key
      → keys.issued ≡ ok certs
      → federation_invite crypto fingerprint m json keys cfg addr weight (some label) out made
        ≡ ok text
      → (num 0 <? suggestion weight cfg) ≡ true
      → out_of_range (suggestion weight cfg) ≡ false
      → f.eq (suggestion weight cfg) (num 0) ≡ false
      → f.eq unset (num 0) ≡ true
      → str_eq name "" ≡ false
      → dir.anchors ≡ ok anchors
      → dir.certs ≡ ok known
      → federation_join crypto json decode64 now
          (path ∷ [])
          name
          unset
          anchor_weight
          (some text)
          (some "yes")
          dir
          true
          true
        ≡ (
          none,
          record dir {
            anchors = ok (
                put_anchor
                  (record {
                    person = name;
                    label = label;
                    identity_pubkey = encode_pub crypto key;
                    weight = suggestion weight cfg;
                    valid_until = 0;
                    source = "federation-join";
                  })
                  anchors);
            certs = ok (import_certs crypto key now (map (λ c. c.peer_id) known) certs known);
          },
        )
  unfolding federation_join
  join_invitation keys cfg addr weight label out made now key certs text path name decode64 unset
        anchor_weight dir anchors known codec size decodes person issued invited positive in_range
        nonzero zero named there certs_there =
      let w =
        invite-Written keys cfg addr weight label out made key certs text codec person issued
          invited in
      let h = w.holds in
      let jw =
        joined_weight w.inv unset anchor_weight zero (rw h.suggested positive)
          (rw h.suggested nonzero) in
      let a : Anchor F = record {
        person = name;
        label = label;
        identity_pubkey = encode_pub crypto key;
        weight = suggestion weight cfg;
        valid_until = 0;
        source = "federation-join";
      } in
      let put : Anchor F =
        joined_anchor name (join_weight unset w.inv.federation.suggested_weight anchor_weight)
          w.inv in
      let same : put ≡ a = unfold joined_anchor in cc (jw, h.suggested, h.labelled, h.identity) in
      join_accepted w.inv now key text path name decode64 unset anchor_weight dir w.reads
        (ap (decode_pub decode64) h.identity
          ∙ decode_pub-encode_pub crypto decode64 key size decodes)
        named (ap out_of_range (jw ∙ h.suggested) ∙ in_range)
      ∙ ap (λ c. import_into crypto key now c put dir true true) h.listed
      ∙ ap (λ b. import_into crypto key now certs b dir true true) same
      ∙ imported key now certs a dir anchors known there certs_there
