-- ===== src/Trust/Tests.antt =====
-- A peer with a certificate of an anchored person.
use federloom.Prelude.{◌≡◌, ◌≤◌, refl, true, false, arith, eq_iff, [], ◌∷◌, some, lookup, err}
use mathlib.Core.Path.{subst}
use federloom.Float.{Fixed, pos, fixed_float, Fixed-IsFloat, num, ◌<?◌, ◌≼◌}
use federloom.Proto.{PeerCert}
use federloom.Identity.{Crypto, encode_pub}
use federloom.Trust.{
  Anchor, expired, TrustFiles, TrustStore, no_stat, maybe_reload, cached_trust, anchor_of, resolve,
}
use federloom.Trust.Vouches.{IsVouch, HasVouches}
use federloom.Trust.Laws.{HasFairWeights, resolve_anchored}

abbrev trusting : Crypto
trusting = record {
  verify = λ key text sig. true;
  base64 = λ key. "k";
  format = λ t. "t";
  format_nano = λ t. "t";
  key_of_peer = λ p. some (1 ∷ []);
  verify_peer = λ key text sig. true;
  PrivKey = Unit {0};
  sign = λ key text. some (7 ∷ []);
}

abbrev alice : Anchor Fixed
alice = record {
  person = "alice";
  label = "";
  identity_pubkey = "ed25519:k";
  weight = pos 800;
  valid_until = 0;
  source = "";
}

abbrev cert : PeerCert
cert = record { peer_id = "p1"; person_key = []; valid_until = 5000; sig = [] }

abbrev store : TrustStore Fixed
store = record {
  has_blocked_path = true;
  stranger_weight = pos 100;
  reload_every = 10;
  anchors = ("ed25519:k", alice) ∷ [];
  certs = ("p1", cert) ∷ [];
  blocked = "p9" ∷ [];
  last_check = 1000;
  anchors_stat = no_stat;
  certs_stat = no_stat;
  blocked_stat = no_stat;
  loaded_once = true;
}

abbrev broken : TrustFiles Fixed
broken = record {
  anchors = record { stat = some (record { mtime = 3; size = 4 }); content = err "bad" };
  certs = record { stat = some (record { mtime = 3; size = 4 }); content = err "bad" };
  blocked = record { stat = some (record { mtime = 3; size = 4 }); content = err "bad" };
}

store-HasVouches : HasVouches trusting store.certs
unfolding lookup
store-HasVouches peer c found = ground (arith, eq_iff "p1" peer)

store-HasFairWeights : HasFairWeights store.anchors
unfolding lookup
store-HasFairWeights key a found =
    let e : alice ≡ a = ground arith in
    subst (λ x. ((num 0 <? x.weight) ≡ true) × (x.weight ≼ num 1)) e (refl, refl)

resolve_anchored_example :
    HasVouches trusting store.certs
    × HasFairWeights store.anchors
    × ((pos 0 <? pos 800) ≡ true)
    × (pos 800 ≼ pos 1000)
    × ((c : PeerCert) × (a : Anchor Fixed) × IsVouch trusting "p1" c
        × (1005 ≤ c.valid_until)
        × (lookup (encode_pub trusting c.person_key) store.anchors ≡ some a)
        × (expired a 1005 ≡ false)
        × (pos 800 ≡ a.weight)
        × ("alice" ≡ a.person))
unfolding resolve maybe_reload cached_trust anchor_of expired lookup encode_pub
resolve_anchored_example =
    resolve_anchored Fixed-IsFloat trusting broken 1005 "p1" store store (pos 800) "alice"
      store-HasVouches store-HasFairWeights tt refl
