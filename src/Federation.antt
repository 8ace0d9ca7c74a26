-- ===== src/Federation.antt =====
-- internal/federation/invitation.go: the token with which one operator invites another. Multiaddrs,
-- peer IDs, fingerprints, JSON and what loading the key files gives are parameters.
use Prim.Native.String as Text
use federloom.Prelude.{
  ℕ, Bool, true, false, if◌then◌else◌, ◌==◌, String, str_eq, List, Option, none, some, Result, ok,
  err, ◌>>=◌, wrap,
}
use federloom.Proto.{Time, Bytes, PeerCert}
use federloom.Identity.{Crypto, encode_pub}
use federloom.Ctl.Trust.{Bundle}

pub record FedInfo (F : Type 0) : Type 0 where
  pub mode : String
  pub bootstrap_peer : String
  pub suggested_weight : F

pub record Invitation (F : Type 0) : Type 0 where
  pub version : ℕ
  pub created_at : Time
  pub invited_by : String
  pub federation : FedInfo F
  pub trust : Bundle

pub data InvitationError : Type 0 where
  invalid_addr : InvitationError
  addr_with_peer : InvitationError
  no_node_key : InvitationError
  no_peer_id : InvitationError
  no_identity : InvitationError
  bad_person_key : InvitationError
  certs_not_loaded : InvitationError
  not_encoded : InvitationError
  not_decoded : InvitationError
  unsupported_version : InvitationError

-- What the package calls of libraries.
pub record Multiaddr : Type 1 where
  pub Addr : Type 0
  pub new : String → Option Addr
  pub p2p_value : Addr → String
  pub encapsulate : Addr → Addr → Addr
  pub show : Addr → String

pub record InvitationJson (F : Type 0) : Type 0 where
  pub encode : Invitation F → Option String
  pub decode : String → Option (Invitation F)

-- What the key files of the inviting node hold: the peer ID of the node key, if there is one, the
-- public key of the person, with whether a key that is not loaded is one that is not there, and
-- the certificates that the person issued.
pub record InviterKeys : Type 0 where
  pub node_key : Result String (Option String)
  pub person : Result Bool Bytes
  pub issued : Result String (List PeerCert)

-- The settings that an invitation takes from the configuration.
pub record InviterConfig (F : Type 0) : Type 0 where
  pub federation_mode : String
  pub anchor_weight : F

abbrev peer_id : Result String (Option String) → Result InvitationError String
peer_id (err e) = err no_node_key
peer_id (ok none) = err no_peer_id
peer_id (ok (some id)) = ok id

abbrev person_key : Result Bool Bytes → Result InvitationError Bytes
person_key (err true) = err no_identity
person_key (err false) = err bad_person_key
person_key (ok key) = ok key

-- An option as a result.
abbrev pub must : {A : Type 0} → InvitationError → Option A → Result InvitationError A
must e none = err e
must e (some a) = ok a

-- The address with the peer ID of the node.
unfoldable pub full_addr :
    Multiaddr → Result String (Option String) → String → Result InvitationError String
full_addr m node_key transport_addr = do
  ma ← must invalid_addr (m.new transport_addr)
  bare ← if str_eq (m.p2p_value ma) "" then ok ma else err addr_with_peer
  id ← peer_id node_key
  component ← must invalid_addr (m.new (Text.◌++◌ "/p2p/" id))
  ok (m.show (m.encapsulate bare component))

module _ {F : Type 0} (crypto : Crypto) (fingerprint : Bytes → String) (m : Multiaddr) where
  unfoldable pub invitation_of :
      InviterConfig F → String → Time → String → Bytes → List PeerCert → Invitation F
  unfolding encode_pub
  invitation_of cfg label now addr key certs = record {
    version = 1;
    created_at = now;
    invited_by = fingerprint key;
    federation = record {
      mode = cfg.federation_mode;
      bootstrap_peer = addr;
      suggested_weight = cfg.anchor_weight;
    };
    trust = record {
      person = label;
      label = label;
      identity_pubkey = encode_pub crypto key;
      certs = certs;
    };
  }

  unfoldable pub new_invitation :
      InviterKeys → InviterConfig F → String → String → Time → Result InvitationError (Invitation F)
  unfolding full_addr invitation_of
  new_invitation keys cfg label transport_addr now = do
    addr ← full_addr m keys.node_key transport_addr
    key ← person_key keys.person
    certs ← wrap certs_not_loaded keys.issued
    ok (invitation_of cfg label now addr key certs)

module _ {F : Type 0} (json : InvitationJson F) where
  unfoldable pub write_invitation : Invitation F → Result InvitationError String
  write_invitation inv = must not_encoded (json.encode inv)

  unfoldable pub read_invitation : String → Result InvitationError (Invitation F)
  read_invitation text = do
    inv ← must not_decoded (json.decode text)
    if inv.version == 1 then ok inv else err unsupported_version
