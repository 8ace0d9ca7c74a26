-- ===== src/Ctl/Identity/Tests.antt =====
-- An operator makes an identity on a machine with a node key, and starts the node.
use federloom.Prelude.{ℕ, ◌≡◌, refl, true, arith, [], ◌∷◌, none, some, ok}
use federloom.Float.{Fixed, fixed_float}
use federloom.Proto.{PeerCert}
use federloom.Identity.{contains_bar}
use federloom.Store.{empty_record}
use federloom.Store.Whitelist.{load_whitelist}
use federloom.Node.{Node}
use federloom.Node.Start.{Disk, new_node, started}
use federloom.Node.Start.Tests.{zeros, entries, world_v6, config, disk}
use federloom.Node.Tests.{Scores, crypto}
use federloom.Ctl.Identity.{
  PersonKeys, PersonFiles, InitArgs, issue_cert, put_cert, append_issued_cert, certify,
  identity_init,
}
use federloom.Ctl.Identity.Laws.{IsSigner, identity_init-vouches}

abbrev keys : PersonKeys
keys = record {
  PrivateKey = ℕ;
  person_pub = λ priv. zeros 32;
  sign_message = λ priv text. priv ∷ [];
}

keys-IsSigner : IsSigner crypto keys
keys-IsSigner = record { size = λ priv. refl; verifies = λ priv text. refl }

abbrev args : InitArgs ℕ
args = record {
  config_loaded = true;
  label = "";
  valid_for = 5000;
  generated = some 7;
  label_written = true;
  node = some (some "p0");
  cert_written = true;
  issued_saved = true;
}

abbrev cert : PeerCert
cert = record { peer_id = "p0"; person_key = zeros 32; valid_until = 5900; sig = 7 ∷ [] }

abbrev files : PersonFiles ℕ
files = record { person_key = none; peer_cert = none; issued = ok [] }

abbrev files' : PersonFiles ℕ
files' = record { person_key = some 7; peer_cert = some cert; issued = ok (cert ∷ []) }

abbrev certified_disk : Disk Fixed Scores
certified_disk = record disk { peer_cert = some cert }

abbrev made : Node Fixed Scores
made = started world_v6 config (some "p0") (some cert) (λ k. empty_record) entries "p0"

identity_init-vouches_example : (made.vouch ≡ some cert) × (cert.peer_id ≡ "p0")
unfolding contains_bar identity_init certify append_issued_cert put_cert issue_cert new_node
    load_whitelist
identity_init-vouches_example =
    identity_init-vouches world_v6 keys args "p0" 900 files files' cert config certified_disk made
      keys-IsSigner refl refl refl refl (omega arith) refl refl
