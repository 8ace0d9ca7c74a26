-- ===== src/Ctl/Federation/Tests.antt =====
-- Bob invites, Alice joins.
use federloom.Prelude.{
  ℕ, zero, suc, Option, ◌≡◌, refl, Bool, true, false, ◌&&◌, if◌then◌else◌, ◌==◌, arith, String,
  str_eq, eq_iff, List, [], ◌∷◌, none, some, ok,
}
use federloom.Float.{Fixed, pos, negsuc, fixed_float}
use federloom.Proto.{PeerCert, Bytes}
use federloom.Identity.{Crypto, encode_pub, same_bytes}
use federloom.Trust.{Anchor}
use federloom.Federation.{
  Invitation, Multiaddr, InvitationJson, InviterKeys, InviterConfig, full_addr, invitation_of,
  new_invitation, write_invitation,
}
use federloom.Ctl.Trust.{TrustDir, put_anchor, import_certs}
use federloom.Ctl.Federation.{stdout, with_weight, federation_invite, federation_join}
use federloom.Ctl.Federation.Joined.{Decodes, join_invitation}

abbrev bytes : ℕ → Bytes
bytes zero = []
bytes (suc n) = 7 ∷ bytes n

abbrev bob_key : Bytes
bob_key = bytes 32

abbrev decode64 : String → Option Bytes
decode64 s = if str_eq s "k" then some bob_key else none

abbrev trusting : Crypto
trusting = record {
  verify = λ key text sig. true;
  base64 = λ key. if same_bytes key bob_key then "k" else "";
  format = λ t. "t";
  format_nano = λ t. "t";
  key_of_peer = λ peer. some [];
  verify_peer = λ key text sig. true;
  PrivKey = Unit {0};
  sign = λ key text. none;
}

-- An address is its text, and none has a peer ID.
abbrev texts : Multiaddr
texts = record {
  Addr = String;
  new = λ s. some s;
  p2p_value = λ a. "";
  encapsulate = λ a b. a;
  show = λ a. a;
}

abbrev it : Invitation Fixed
it = record {
  version = 1;
  created_at = 5;
  invited_by = "ab12";
  federation = record {
    mode = "open";
    bootstrap_peer = "/ip4/192.0.2.1";
    suggested_weight = pos 900;
  };
  trust = record { person = "bob"; label = "bob"; identity_pubkey = "ed25519:k"; certs = [] };
}

abbrev is_900 : Fixed → Bool
is_900 (pos n) = n == 900
is_900 (negsuc n) = false

abbrev is_empty : List PeerCert → Bool
is_empty [] = true
is_empty (c ∷ cs) = false

abbrev is_it : Invitation Fixed → Bool
is_it i =
    (i.version == 1 && (i.created_at == 5 && str_eq i.invited_by "ab12"))
    && ((str_eq i.federation.mode "open" && str_eq i.federation.bootstrap_peer "/ip4/192.0.2.1")
        && (is_900 i.federation.suggested_weight
            && ((str_eq i.trust.person "bob" && str_eq i.trust.label "bob")
                && (str_eq i.trust.identity_pubkey "ed25519:k" && is_empty i.trust.certs))))

-- A codec of this one invitation.
abbrev json : InvitationJson Fixed
json = record { encode = λ i. if is_it i then some "{}" else none; decode = λ t. some it }

is_900_lem : (w : Fixed) → is_900 w ≡ true → w ≡ pos 900
is_900_lem (pos n) h = ground arith
is_900_lem (negsuc n) h = cc

is_empty_lem : (cs : List PeerCert) → is_empty cs ≡ true → cs ≡ []
is_empty_lem [] h = refl
is_empty_lem (c ∷ cs) h = cc

json-Decodes : Decodes json
json-Decodes i t h = ground (
  arith,
  is_900_lem i.federation.suggested_weight,
  is_empty_lem i.trust.certs,
  eq_iff i.invited_by "ab12",
  eq_iff i.federation.mode "open",
  eq_iff i.federation.bootstrap_peer "/ip4/192.0.2.1",
  eq_iff i.trust.person "bob",
  eq_iff i.trust.label "bob",
  eq_iff i.trust.identity_pubkey "ed25519:k",
)

abbrev keys : InviterKeys
keys = record { node_key = ok (some "12D3"); person = ok bob_key; issued = ok [] }

abbrev settings : InviterConfig Fixed
settings = record { federation_mode = "open"; anchor_weight = pos 500 }

abbrev carol : Anchor Fixed
carol = record {
  person = "carol";
  label = "";
  identity_pubkey = "ed25519:c";
  weight = pos 800;
  valid_until = 0;
  source = "self-added";
}

abbrev theirs : PeerCert
theirs = record { peer_id = "p1"; person_key = []; valid_until = 5000; sig = [] }

abbrev dir : TrustDir Fixed
dir = record { anchors = ok (carol ∷ []); certs = ok (theirs ∷ []); blocked = ok [] }

join_invitation_example :
    federation_join trusting json decode64 20
      ("f" ∷ [])
      "bob"
      (pos 0)
      (pos 300)
      (some "{}")
      (some "yes")
      dir
      true
      true
    ≡ (
      none,
      record dir {
        anchors = ok (
            put_anchor
              (record {
                person = "bob";
                label = "bob";
                identity_pubkey = encode_pub trusting bob_key;
                weight = pos 900;
                valid_until = 0;
                source = "federation-join";
              })
              (carol ∷ []));
        certs = ok (import_certs trusting bob_key 20 ("p1" ∷ []) [] (theirs ∷ []));
      },
    )
unfolding federation_invite full_addr new_invitation invitation_of write_invitation with_weight
    encode_pub same_bytes
join_invitation_example =
    join_invitation trusting (λ key. "ab12") texts json keys settings "/ip4/192.0.2.1" (pos 900)
      "bob" stdout 5 20 bob_key [] "{}" "f" "bob" decode64 (pos 0) (pos 300) dir (carol ∷ [])
      (theirs ∷ []) json-Decodes refl refl refl refl refl refl refl refl refl refl refl refl
