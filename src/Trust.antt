-- ===== src/Trust.antt =====
-- internal/trust: the anchored persons, the certificates of their peers, the blocked peers, and the
-- trust that a peer resolves to. Files are read through a record of what they hold.
pub mod Vouches
pub mod Laws
mod Tests
use federloom.Prelude.{
  ℕ, ◌+◌, ◌*◌, Bool, true, false, ◌&&◌, ◌||◌, not, if◌then◌else◌, ltb, leb, ◌==◌, String, str_eq,
  List, [], ◌∷◌, Option, none, some, Assoc, lookup, insert, Result, ok, err, is_ok, contains_string,
}
use federloom.Float.{Float, num, ◌<?◌, ◌≤?◌}
use federloom.Proto.{Time, Duration, Bytes, PeerCert, is_zero, second}
use federloom.Identity.{Crypto, CertError, verify_cert, encode_pub}

pub record Anchor (F : Type 0) : Type 0 where
  pub person : String
  pub label : String
  pub identity_pubkey : String
  pub weight : F
  pub valid_until : Time
  pub source : String

unfoldable pub expired : {F : Type 0} → Anchor F → Time → Bool
expired a now = not (is_zero a.valid_until) && ltb a.valid_until now

pub record FileStat : Type 0 where
  pub mtime : Time
  pub size : ℕ

-- A file as `statChanged` and the loader see it: its status, `none` if there is no such file, and
-- what reading and decoding it gives, where a missing file is an empty list.
pub record FileView (A : Type 0) : Type 0 where
  pub stat : Option FileStat
  pub content : Result String (List A)

pub record TrustFiles (F : Type 0) : Type 0 where
  pub anchors : FileView (Anchor F)
  pub certs : FileView PeerCert
  pub blocked : FileView String

pub record TrustStore (F : Type 0) : Type 0 where
  pub has_blocked_path : Bool
  pub stranger_weight : F
  pub reload_every : Duration
  pub anchors : Assoc (Anchor F)
  pub certs : Assoc PeerCert
  pub blocked : List String
  pub last_check : Time
  pub anchors_stat : FileStat
  pub certs_stat : FileStat
  pub blocked_stat : FileStat
  pub loaded_once : Bool

abbrev pub no_stat : FileStat
no_stat = record { mtime = 0; size = 0 }

-- A missing file always counts as changed.
unfoldable pub stat_changed : Option FileStat → FileStat → FileStat × Bool
stat_changed none prev = (no_stat, true)
stat_changed (some cur) prev = (cur, not (cur.mtime == prev.mtime) || not (cur.size == prev.size))

-- A certificate from a file replaces a cached one only if it lives longer.
unfoldable pub lives_longer : Time → Option PeerCert → Bool
lives_longer t none = true
lives_longer t (some existing) = ltb existing.valid_until t

unfoldable pub merge_certs : Crypto → List PeerCert → Time → Assoc PeerCert → Assoc PeerCert
unfolding lives_longer
merge_certs crypto [] now m = m
merge_certs crypto (c ∷ rest) now m = merge_certs crypto rest now (
    if is_ok (verify_cert crypto c now) && lives_longer c.valid_until (lookup c.peer_id m)
    then insert c.peer_id c m
    else m)

module _ {F : Type 0} ⦃f : Float F⦄ where
  -- Weights are kept in (0, 1]: an anchor without trust is dropped, and too much trust is cut.
  unfoldable pub keep_anchors : List (Anchor F) → Assoc (Anchor F) → Assoc (Anchor F)
  keep_anchors [] m = m
  keep_anchors (a ∷ rest) m = keep_anchors rest (
      if a.weight ≤? num 0
      then m
      else insert a.identity_pubkey (if num 1 <? a.weight then record a { weight = num 1 } else a)
          m)

  unfoldable pub reload_anchors : FileView (Anchor F) → TrustStore F → TrustStore F
  unfolding stat_changed keep_anchors
  reload_anchors file s =
      let (st, changed) = stat_changed file.stat s.anchors_stat in
      if changed || not s.loaded_once
      then elim file.content [
        | err m ↦ if s.loaded_once then s else record s { anchors = [] }
        | ok anchors ↦ record s { anchors = keep_anchors anchors []; anchors_stat = st }
      ]
      else s

  module _ (crypto : Crypto) where
    unfoldable pub reload_certs : FileView PeerCert → Time → TrustStore F → TrustStore F
    unfolding stat_changed merge_certs
    reload_certs file now s =
        let (st, changed) = stat_changed file.stat s.certs_stat in
        if changed || not s.loaded_once
        then elim file.content [
          | err m ↦ s
          | ok certs ↦ record s { certs = merge_certs crypto certs now s.certs; certs_stat = st }
        ]
        else s

    unfoldable pub reload_blocked : FileView String → TrustStore F → TrustStore F
    unfolding stat_changed
    reload_blocked file s =
        let (st, changed) = stat_changed file.stat s.blocked_stat in
        if s.has_blocked_path && (changed || not s.loaded_once)
        then elim file.content [
          | err m ↦ s
          | ok peers ↦ record s { blocked = peers; blocked_stat = st }
        ]
        else s

    -- A file is read at most once in `reload_every`; what cannot be read changes nothing.
    unfoldable pub maybe_reload : TrustFiles F → Time → TrustStore F → TrustStore F
    unfolding reload_anchors reload_certs reload_blocked
    maybe_reload files now s =
        if s.loaded_once && ltb now (s.last_check + s.reload_every)
        then s
        else record (reload_blocked files.blocked (
            reload_certs files.certs now
              (reload_anchors files.anchors (record s { last_check = now })))) {
                loaded_once = true;
              }

    unfoldable pub new_store : Bool → F → TrustFiles F → Time → TrustStore F
    unfolding maybe_reload
    new_store has_blocked_path stranger files now = maybe_reload files now (record {
      has_blocked_path = has_blocked_path;
      stranger_weight = stranger;
      reload_every = 10 * second;
      anchors = [];
      certs = [];
      blocked = [];
      last_check = 0;
      anchors_stat = no_stat;
      certs_stat = no_stat;
      blocked_stat = no_stat;
      loaded_once = false;
    })

    unfoldable pub add_cert : PeerCert → Time → TrustStore F → Result CertError (TrustStore F)
    unfolding verify_cert
    add_cert cert now s = elim (verify_cert crypto cert now) [
      | err e ↦ err e
      | ok u ↦ ok (record s { certs = insert cert.peer_id cert s.certs })
    ]

    -- The weight, the corroboration group and whether the peer is anchored, by what is cached.
    unfoldable pub anchor_of : Time → TrustStore F → Option (Anchor F) → F × String × Bool
    unfolding expired
    anchor_of now s none = (s.stranger_weight, "", false)
    anchor_of now s (some a) =
        if expired a now then (s.stranger_weight, "", false) else (a.weight, a.person, true)

    unfoldable pub cached_trust : Time → TrustStore F → Option PeerCert → F × String × Bool
    unfolding anchor_of encode_pub
    cached_trust now s none = (s.stranger_weight, "", false)
    cached_trust now s (some cert) =
        if ltb cert.valid_until now
        then (s.stranger_weight, "", false)
        else anchor_of now s (lookup (encode_pub crypto cert.person_key) s.anchors)

    unfoldable pub resolve :
        TrustFiles F → Time → String → TrustStore F → TrustStore F × (F × String × Bool)
    unfolding maybe_reload cached_trust
    resolve files now peer s =
        let s' = maybe_reload files now s in (s', cached_trust now s' (lookup peer s'.certs))

    unfoldable pub is_blocked : TrustFiles F → Time → String → TrustStore F → TrustStore F × Bool
    unfolding maybe_reload
    is_blocked files now peer s =
        let s' = maybe_reload files now s in (s', contains_string s'.blocked peer)
