-- ===== src/Identity.antt =====
-- internal/identity: the messages that are signed, and the verification of certificates and events.
-- Ed25519, base64, the time formats and libp2p's peer IDs are parameters.
pub mod Messages
pub mod Keys
mod Tests
use Prim.Native.Char.{code}
use Prim.Native.String as Text
use federloom.Prelude.{
  ℕ, ◌≡◌, Bool, true, false, ◌||◌, not, if◌then◌else◌, ltb, leb, ◌==◌, String, str_eq, List, [],
  ◌∷◌, Option, none, some, length, Result, ok, err,
}
use federloom.Proto.{Time, Bytes, PeerCert, Event}

infixr 65 ◌<>◌
abbrev pub ◌<>◌ : String → String → String
a <> b = Text.◌++◌ a b

-- `strings.Contains(s, "|")`
unfoldable pub contains_bar : String → Bool
contains_bar Text.[] = false
contains_bar (Text.◌∷◌ c s) = if code c == b'|' then true else contains_bar s

-- `strings.TrimPrefix`, if the text has the prefix.
unfoldable pub after_prefix : String → String → Option String
after_prefix Text.[] s = some s
after_prefix (Text.◌∷◌ c p) Text.[] = none
after_prefix (Text.◌∷◌ c p) (Text.◌∷◌ d s) = if code c == code d then after_prefix p s else none

-- What the package calls of libraries.
pub record Crypto : Type 1 where
  -- ed25519.Verify(key, message, signature)
  pub verify : Bytes → String → Bytes → Bool
  -- base64.StdEncoding.EncodeToString
  pub base64 : Bytes → String
  -- UTC().Format(time.RFC3339) and UTC().Format(time.RFC3339Nano)
  pub format : Time → String
  pub format_nano : Time → String
  -- peer.Decode and ExtractPublicKey: the key in a peer ID, if it is one
  pub key_of_peer : String → Option Bytes
  -- PubKey.Verify for a key in a peer ID
  pub verify_peer : Bytes → String → Bytes → Bool
  -- priv.Sign
  pub PrivKey : Type 0
  pub sign : PrivKey → String → Option Bytes

abbrev pub public_key_size : ℕ
public_key_size = 32

abbrev sized_key : Option Bytes → Option Bytes
sized_key none = none
sized_key (some raw) = if not (length raw == public_key_size) then none else some raw

-- `decode64` is base64.StdEncoding.DecodeString.
unfoldable pub decode_pub : (String → Option Bytes) → String → Option Bytes
unfolding after_prefix
decode_pub decode64 s = elim (after_prefix "ed25519:" s) [
  | none ↦ none
  | some text ↦ sized_key (decode64 text)
]

-- `bytes.Equal`
unfoldable pub same_bytes : Bytes → Bytes → Bool
same_bytes [] [] = true
same_bytes [] (y ∷ ys) = false
same_bytes (x ∷ xs) [] = false
same_bytes (x ∷ xs) (y ∷ ys) = let rest = same_bytes xs ys in if x == y then rest else false

pub data CertError : Type 0 where
  empty_peer bad_key_length reserved_delimiter expired invalid_signature : CertError

pub data SigError : Type 0 where
  empty_reporter no_signature bad_reporter invalid_event_signature : SigError

pub data SignError : Type 0 where
  sign_failed : SignError

module _ (crypto : Crypto) where
  open crypto use {verify, base64, format, format_nano, key_of_peer, verify_peer, PrivKey, sign}

  unfoldable pub encode_pub : Bytes → String
  encode_pub key = "ed25519:" <> base64 key

  unfoldable pub cert_message : String → Bytes → Time → String
  cert_message peer_id person_key valid_until =
      "federloom-peer-cert-v1|" <> peer_id <> "|" <> base64 person_key <> "|" <> format valid_until

  unfoldable pub verify_cert : PeerCert → Time → Result CertError (Unit {0})
  verify_cert cert now =
      if str_eq cert.peer_id ""
      then err empty_peer
      else if not (length cert.person_key == public_key_size)
      then err bad_key_length
      else if contains_bar cert.peer_id
      then err reserved_delimiter
      else if not (ltb now cert.valid_until)
      then err expired
      else if not (
          verify cert.person_key (cert_message cert.peer_id cert.person_key cert.valid_until)
            cert.sig)
      then err invalid_signature
      else ok tt

  unfoldable pub event_message : Event → String
  event_message e =
      "federloom-event-v2|"
      <> e.ip
      <> "|"
      <> e.reason
      <> "|"
      <> format_nano e.timestamp
      <> "|"
      <> e.reporter_id
      <> "|"
      <> e.subnet_id

  unfoldable pub vote_message : Event → String
  vote_message e =
      "federloom-vote-v2|"
      <> e.ip
      <> "|"
      <> format_nano e.timestamp
      <> "|"
      <> e.reporter_id
      <> "|"
      <> e.subnet_id

  unfoldable pub signed_message : Event → String
  signed_message e = if str_eq e.kind "vote" then vote_message e else event_message e

  unfoldable pub sign_event : Event → PrivKey → Result SignError Event
  sign_event e priv = elim (sign priv (signed_message e)) [
    | none ↦ err sign_failed
    | some sig ↦ ok (record e { signature = sig })
  ]

  unfoldable pub verify_event_sig : Event → Result SigError (Unit {0})
  verify_event_sig e =
      if str_eq e.reporter_id ""
      then err empty_reporter
      else if length e.signature == 0
      then err no_signature
      else elim (key_of_peer e.reporter_id) [
        | none ↦ err bad_reporter
        | some key ↦
            if verify_peer key (signed_message e) e.signature
            then ok tt
            else err invalid_event_signature
      ]
