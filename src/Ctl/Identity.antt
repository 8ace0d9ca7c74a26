-- ===== src/Ctl/Identity.antt =====
-- cmd/federloomctl/identity.go, the commands that issue certificates, with internal/identity's
-- `IssueCert`. Ed25519 is a parameter. Whether a file is written, and what loading a key gives, are
-- arguments, as are the time and a validity that is not negative.
pub mod Laws
mod Tests
use federloom.Prelude.{
  ◌+◌, Bool, true, false, not, ◌&&◌, if◌then◌else◌, String, str_eq, List, [], ◌∷◌, Option, none,
  some, Result, ok, err,
}
use federloom.Proto.{Time, Duration, Bytes, PeerCert}
use federloom.Identity.{Crypto, cert_message}

pub data IdentityError : Type 0 where
  usage no_config key_exists no_key label_not_written bad_peer_id cert_not_written : IdentityError
  issued_not_loaded issued_not_saved : IdentityError

-- What a command reports.
pub data IdentityReport : Type 0 where
  no_node_key : IdentityReport
  certified : PeerCert → IdentityReport

-- What the package calls of ed25519.
pub record PersonKeys : Type 1 where
  pub PrivateKey : Type 0
  pub person_pub : PrivateKey → Bytes
  pub sign_message : PrivateKey → String → Bytes

-- The files of a person.
pub record PersonFiles (P : Type 0) : Type 0 where
  pub person_key : Option P
  pub peer_cert : Option PeerCert
  pub issued : Result String (List PeerCert)

abbrev pub Issued : Type 0 → Type 0
Issued P = Result IdentityError IdentityReport × PersonFiles P

module _ (crypto : Crypto) (keys : PersonKeys) where
  open keys use {PrivateKey, person_pub, sign_message}

  unfoldable pub issue_cert : PrivateKey → String → Time → PeerCert
  issue_cert priv peer_id valid_until = record {
    peer_id = peer_id;
    person_key = person_pub priv;
    valid_until = valid_until;
    sig = sign_message priv (cert_message crypto peer_id (person_pub priv) valid_until);
  }

-- A new certificate of a peer takes the place of the first one that it has.
unfoldable pub put_cert : PeerCert → List PeerCert → List PeerCert
put_cert cert [] = cert ∷ []
put_cert cert (c ∷ certs) =
    let rest = put_cert cert certs in
    if str_eq c.peer_id cert.peer_id then cert ∷ certs else c ∷ rest

module _ {P : Type 0} where
  unfoldable pub append_issued_cert : Bool → PeerCert → PersonFiles P → Issued P
  unfolding put_cert
  append_issued_cert saved cert files = elim files.issued [
    | err e ↦ (err issued_not_loaded, files)
    | ok certs ↦
        if saved
        then (ok (certified cert), record files { issued = ok (put_cert cert certs) })
        else (err issued_not_saved, files)
  ]

  -- The node's own certificate is written, and then entered in the issued ones.
  unfoldable pub certify : Bool → Bool → PeerCert → PersonFiles P → Issued P
  unfolding append_issued_cert
  certify false saved cert files = (err cert_not_written, files)
  certify true saved cert files =
      append_issued_cert saved cert (record files { peer_cert = some cert })

-- `node` is the node's key as loading or creating it gives it, and its peer ID.
pub record InitArgs (P : Type 0) : Type 0 where
  pub config_loaded : Bool
  pub label : String
  pub valid_for : Duration
  pub generated : Option P
  pub label_written : Bool
  pub node : Option (Option String)
  pub cert_written : Bool
  pub issued_saved : Bool

module _ (crypto : Crypto) (keys : PersonKeys) where
  open keys use {PrivateKey}

  abbrev pub self_certify :
      InitArgs PrivateKey → PrivateKey → Time → PersonFiles PrivateKey → Issued PrivateKey
  self_certify args priv now files = elim args.node [
    | none ↦ (ok no_node_key, files)
    | some none ↦ (err bad_peer_id, files)
    | some (some id) ↦
        certify args.cert_written args.issued_saved
          (issue_cert crypto keys priv id (now + args.valid_for)) files
  ]

  unfoldable pub identity_init :
      InitArgs PrivateKey → Time → PersonFiles PrivateKey → Issued PrivateKey
  unfolding issue_cert certify
  identity_init args now files =
      if not args.config_loaded then (err no_config, files) else elim files.person_key [
        | some old ↦ (err key_exists, files)
        | none ↦ elim args.generated [
          | none ↦ (err no_key, files)
          | some priv ↦
              if not (str_eq args.label "") && not args.label_written
              then (err label_not_written, record files { person_key = some priv })
              else self_certify args priv now (record files { person_key = some priv })
        ]
      ]

  -- `decodes` is whether a text is a peer ID.
  unfoldable pub cmd_peer_cert :
      (String → Bool)
      → Bool
      → Duration
      → Bool
      → List String
      → Time
      → PersonFiles PrivateKey
      → Issued PrivateKey
  unfolding issue_cert append_issued_cert
  cmd_peer_cert decodes config_loaded valid_for saved (id ∷ []) now files =
      if not (decodes id)
      then (err bad_peer_id, files)
      else if not config_loaded
      then (err no_config, files)
      else elim files.person_key [
        | none ↦ (err no_key, files)
        | some priv ↦
            append_issued_cert saved (issue_cert crypto keys priv id (now + valid_for)) files
      ]
  cmd_peer_cert decodes config_loaded valid_for saved [] now files = (err usage, files)
  cmd_peer_cert decodes config_loaded valid_for saved (a ∷ b ∷ args) now files = (err usage, files)
