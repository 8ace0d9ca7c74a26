-- ===== src/Ctl/Trust/Tests.antt =====
-- An operator's trust directory with one anchor.
use mathlib.Core.List.{Memᴰ}
use federloom.Prelude.{ℕ, ◌≡◌, refl, ◌⊎◌, arith, true, List, [], ◌∷◌, none, some, ok, err}
use federloom.Float.{Fixed, pos, fixed_float}
use federloom.Proto.{PeerCert}
use federloom.Identity.{Crypto, same_bytes, verify_cert, contains_bar}
use federloom.Trust.{Anchor, TrustFiles, TrustStore, no_stat, stat_changed, is_blocked}
use federloom.Ctl.Trust.{
  TrustDir, Bundle, set, remove, import, after_edits, trust_block, save_blocked, import_certs,
  replace_last,
}
use federloom.Ctl.Trust.Anchors.{HasFairAnchors, after_edits-HasFairAnchors}
use federloom.Ctl.Trust.Peers.{IsFromBundle, import_certs-IsFromBundle}
use federloom.Ctl.Trust.Reloaded.{is_blocked-trust_block}

abbrev trusting : Crypto
trusting = record {
  verify = λ key text sig. true;
  base64 = λ key. "k";
  format = λ t. "t";
  format_nano = λ t. "t";
  key_of_peer = λ peer. some [];
  verify_peer = λ key text sig. true;
  PrivKey = Unit {0};
  sign = λ key text. none;
}

abbrev alice : Anchor Fixed
alice = record {
  person = "alice";
  label = "";
  identity_pubkey = "ed25519:k";
  weight = pos 800;
  valid_until = 0;
  source = "self-added";
}

abbrev key : List ℕ
key =
    1 ∷ 2 ∷ 3 ∷ 4 ∷ 5 ∷ 6 ∷ 7 ∷ 8 ∷ 1 ∷ 2 ∷ 3 ∷ 4 ∷ 5 ∷ 6 ∷ 7 ∷ 8 ∷ 1 ∷ 2 ∷ 3 ∷ 4 ∷ 5 ∷ 6 ∷ 7 ∷ 8
    ∷ 1 ∷ 2 ∷ 3 ∷ 4 ∷ 5 ∷ 6 ∷ 7 ∷ 8 ∷ []

abbrev theirs : PeerCert
theirs = record { peer_id = "p1"; person_key = []; valid_until = 5000; sig = [] }

abbrev ours : PeerCert
ours = record { peer_id = "p1"; person_key = key; valid_until = 9000; sig = [] }

abbrev bundle : Bundle
bundle = record {
  person = "bob";
  label = "b";
  identity_pubkey = "ed25519:k";
  certs = ours ∷ theirs ∷ [];
}

abbrev dir : TrustDir Fixed
dir = record { anchors = ok (alice ∷ []); certs = ok (theirs ∷ []); blocked = ok ("p9" ∷ []) }

after_edits-HasFairAnchors_example : HasFairAnchors (
    after_edits trusting
      (pos 500)
      (set ("alice" ∷ []) (pos 900) "" true
        ∷ import 1000 ("f" ∷ []) "" (pos 2000) (some bundle) (λ b. some key) true true
        ∷ import 1000 ("f" ∷ []) "" (pos 0) (some bundle) (λ b. some key) true true
        ∷ remove ("alice" ∷ []) true
        ∷ [])
      dir)
after_edits-HasFairAnchors_example =
    after_edits-HasFairAnchors trusting (pos 500)
      (set ("alice" ∷ []) (pos 900) "" true
        ∷ import 1000 ("f" ∷ []) "" (pos 2000) (some bundle) (λ b. some key) true true
        ∷ import 1000 ("f" ∷ []) "" (pos 0) (some bundle) (λ b. some key) true true
        ∷ remove ("alice" ∷ []) true
        ∷ [])
      dir (refl, tt)

import_certs-IsFromBundle_example :
    Memᴰ ours (theirs ∷ []) ⊎ IsFromBundle trusting key 1000 (ours ∷ theirs ∷ []) ours
unfolding import_certs replace_last same_bytes verify_cert contains_bar
import_certs-IsFromBundle_example =
    import_certs-IsFromBundle trusting key 1000 ("p1" ∷ []) (ours ∷ theirs ∷ []) (theirs ∷ []) ours
      (Memᴰ.head refl)

abbrev store : TrustStore Fixed
store = record {
  has_blocked_path = true;
  stranger_weight = pos 100;
  reload_every = 10;
  anchors = [];
  certs = [];
  blocked = [];
  last_check = 1000;
  anchors_stat = no_stat;
  certs_stat = no_stat;
  blocked_stat = no_stat;
  loaded_once = true;
}

abbrev files : TrustFiles Fixed
files = record {
  anchors = record { stat = none; content = err "" };
  certs = record { stat = none; content = err "" };
  blocked = record {
    stat = some (record { mtime = 3; size = 4 });
    content = ok ("p9" ∷ "p1" ∷ []);
  };
}

is_blocked-trust_block_example : (is_blocked trusting files 1010 "p1" store).1 ≡ true
unfolding trust_block save_blocked stat_changed
is_blocked-trust_block_example =
    is_blocked-trust_block trusting "p1" ("p9" ∷ []) dir files 1010 store refl refl refl refl
      (omega arith)
