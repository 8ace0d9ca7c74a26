-- ===== src/Ctl/Trust.antt =====
-- cmd/federloomctl/trust.go: the commands that edit the files of anchors, certificates and blocked
-- peers. A file is what loading it gives; whether a save succeeds is an argument, and one that
-- fails leaves the file as it was. Decoding a public key and the person's own key are arguments.
pub mod Anchors
pub mod Peers
pub mod Reloaded
mod Tests
use federloom.Prelude.{
  ℕ, Bool, true, false, ◌||◌, ◌&&◌, not, if◌then◌else◌, ltb, ◌==◌, String, str_eq, List, [], ◌∷◌,
  ◌++◌, map, Option, none, some, length, Result, ok, err, contains_string, is_ok, Assoc, lookup,
  insert,
}
use federloom.Float.{Float, num, ◌<?◌, ◌≤?◌}
use federloom.Proto.{Time, Bytes, PeerCert}
use federloom.Identity.{Crypto, verify_cert, same_bytes, encode_pub}
use federloom.Trust.{Anchor, expired}

pub data CtlError : Type 0 where
  usage : CtlError
  not_loaded : CtlError
  not_saved : CtlError
  weight_out_of_range : CtlError
  bad_pubkey : CtlError
  unknown_person : CtlError
  no_person_name : CtlError

-- The files of the trust directory, each as loading it gives.
pub record TrustDir (F : Type 0) : Type 0 where
  pub anchors : Result String (List (Anchor F))
  pub certs : Result String (List PeerCert)
  pub blocked : Result String (List String)

-- The error of a command, if it has one, and the files after it.
abbrev pub Command : Type 0 → Type 0
Command F = Option CtlError × TrustDir F

unfoldable pub blocked_without : String → List String → List String
blocked_without peer [] = []
blocked_without peer (p ∷ peers) =
    let rest = blocked_without peer peers in if str_eq p peer then rest else p ∷ rest

-- Whether a certificate of the person is there, and whether one has not expired.
unfoldable pub cert_coverage : List PeerCert → Bytes → Time → Bool × Bool
unfolding same_bytes
cert_coverage [] pub_raw now = (false, false)
cert_coverage (c ∷ certs) pub_raw now =
    let rest = cert_coverage certs pub_raw now in
    if same_bytes c.person_key pub_raw then (true, ltb now c.valid_until || rest.1) else rest

module _ {F : Type 0} where
  unfoldable pub save_anchors : TrustDir F → List (Anchor F) → Bool → Command F
  save_anchors dir anchors true = (none, record dir { anchors = ok anchors })
  save_anchors dir anchors false = (some not_saved, dir)

  unfoldable pub save_certs : TrustDir F → List PeerCert → Bool → Command F
  save_certs dir certs true = (none, record dir { certs = ok certs })
  save_certs dir certs false = (some not_saved, dir)

  unfoldable pub save_blocked : TrustDir F → List String → Bool → Command F
  save_blocked dir peers true = (none, record dir { blocked = ok peers })
  save_blocked dir peers false = (some not_saved, dir)

  unfoldable pub put_anchor : Anchor F → List (Anchor F) → List (Anchor F)
  put_anchor a [] = a ∷ []
  put_anchor a (b ∷ anchors) =
      let rest = put_anchor a anchors in if str_eq b.person a.person then a ∷ anchors else b ∷ rest

  unfoldable pub upsert_anchor : TrustDir F → Anchor F → Bool → Command F
  unfolding save_anchors put_anchor
  upsert_anchor dir a saved = elim dir.anchors [
    | err e ↦ (some not_loaded, dir)
    | ok anchors ↦ save_anchors dir (put_anchor a anchors) saved
  ]

  -- The anchors that are kept, and whether one was removed.
  unfoldable pub without_person : String → List (Anchor F) → List (Anchor F) × Bool
  without_person person [] = ([], false)
  without_person person (a ∷ anchors) =
      let rest = without_person person anchors in
      if str_eq a.person person then (rest.0, true) else (a ∷ rest.0, rest.1)

  unfoldable pub trust_remove : List String → TrustDir F → Bool → Command F
  unfolding without_person save_anchors
  trust_remove (person ∷ []) dir saved = elim dir.anchors [
    | err e ↦ (some not_loaded, dir)
    | ok anchors ↦
        let kept = without_person person anchors in
        if not kept.1 then (some unknown_person, dir) else save_anchors dir kept.0 saved
  ]
  trust_remove [] dir saved = (some usage, dir)
  trust_remove (a ∷ b ∷ args) dir saved = (some usage, dir)

  unfoldable pub trust_block : List String → TrustDir F → Bool → Command F
  unfolding save_blocked
  trust_block (peer ∷ []) dir saved = elim dir.blocked [
    | err e ↦ (some not_loaded, dir)
    | ok peers ↦
        if contains_string peers peer
        then (none, dir)
        else save_blocked dir (peers ++ peer ∷ []) saved
  ]
  trust_block [] dir saved = (some usage, dir)
  trust_block (a ∷ b ∷ args) dir saved = (some usage, dir)

  unfoldable pub trust_unblock : List String → TrustDir F → Bool → Command F
  unfolding blocked_without save_blocked
  trust_unblock (peer ∷ []) dir saved = elim dir.blocked [
    | err e ↦ (some not_loaded, dir)
    | ok peers ↦
        let filtered = blocked_without peer peers in
        if length filtered == length peers then (none, dir) else save_blocked dir filtered saved
  ]
  trust_unblock [] dir saved = (some usage, dir)
  trust_unblock (a ∷ b ∷ args) dir saved = (some usage, dir)

  unfoldable pub anchor_status : Anchor F → List PeerCert → Bytes → Time → String
  unfolding cert_coverage expired
  anchor_status a certs pub_raw now =
      let covered = cert_coverage certs pub_raw now in
      if expired a now
      then "EXPIRED"
      else if covered.1
      then "ok"
      else if covered.0
      then "certs-exp"
      else "no-certs"

module _ {F : Type 0} ⦃f : Float F⦄ where
  abbrev pub out_of_range : F → Bool
  out_of_range w = (w ≤? num 0) || (num 1 <? w)

  abbrev pub weight_or : F → F → F
  weight_or weight anchor_weight = if f.eq weight (num 0) then anchor_weight else weight

  abbrev pub self_added : String → String → String → F → Anchor F
  self_added person label key weight = record {
    person = person;
    label = label;
    identity_pubkey = key;
    weight = weight;
    valid_until = 0;
    source = "self-added";
  }

  -- `decoded` is the key of the flag, `own` the person's own key: an error, none, or the key.
  unfoldable pub trust_add :
      Crypto
      → List String
      → String
      → F
      → F
      → Option Bytes
      → Result String (Option Bytes)
      → TrustDir F
      → Bool
      → Command F
  unfolding upsert_anchor same_bytes encode_pub
  trust_add crypto (person ∷ []) label weight anchor_weight decoded own dir saved =
      let w = weight_or weight anchor_weight in
      if out_of_range w then (some weight_out_of_range, dir) else elim decoded [
        | none ↦ (some bad_pubkey, dir)
        | some key ↦ elim own [
          | err e ↦ (some not_loaded, dir)
          | ok none ↦ upsert_anchor dir (self_added person label (encode_pub crypto key) w) saved
          | ok (some mine) ↦
              if same_bytes mine key
              then (none, dir)
              else upsert_anchor dir (self_added person label (encode_pub crypto key) w) saved
        ]
      ]
  trust_add crypto [] label weight anchor_weight decoded own dir saved = (some usage, dir)
  trust_add crypto (a ∷ b ∷ args) label weight anchor_weight decoded own dir saved =
      (some usage, dir)

  -- A weight below 0 leaves the weight, an empty label the label.
  abbrev pub with_flags : Anchor F → F → String → Anchor F
  with_flags a weight label = record a {
    weight = if num 0 ≤? weight then weight else a.weight;
    label = if str_eq label "" then a.label else label;
  }

  -- The anchors with the first of a person changed: `none` if there is none.
  unfoldable pub set_anchor :
      String → F → String → List (Anchor F) → Option (Result CtlError (List (Anchor F)))
  set_anchor person weight label [] = none
  set_anchor person weight label (a ∷ anchors) =
      let rest = set_anchor person weight label anchors in
      if str_eq a.person person
      then some (
          if (num 0 ≤? weight) && out_of_range weight
          then err weight_out_of_range
          else ok (with_flags a weight label ∷ anchors))
      else elim rest [
        | none ↦ none
        | some (err e) ↦ some (err e)
        | some (ok changed) ↦ some (ok (a ∷ changed))
      ]

  unfoldable pub trust_set : List String → F → String → TrustDir F → Bool → Command F
  unfolding set_anchor save_anchors
  trust_set (person ∷ []) weight label dir saved = elim dir.anchors [
    | err e ↦ (some not_loaded, dir)
    | ok anchors ↦ elim (set_anchor person weight label anchors) [
      | none ↦ (some unknown_person, dir)
      | some (err e) ↦ (some e, dir)
      | some (ok changed) ↦ save_anchors dir changed saved
    ]
  ]
  trust_set [] weight label dir saved = (some usage, dir)
  trust_set (a ∷ b ∷ args) weight label dir saved = (some usage, dir)

-- `existing[i] = c` for the position that `byPeer` has for a peer, the last of the list.
unfoldable pub replace_last : PeerCert → List PeerCert → List PeerCert
replace_last c [] = []
replace_last c (e ∷ certs) =
    let rest = replace_last c certs in
    if contains_string (map (λ d. d.peer_id) certs) c.peer_id
    then e ∷ rest
    else if str_eq e.peer_id c.peer_id
    then c ∷ certs
    else e ∷ rest

-- The loop over the certificates of a bundle. `known` holds the peers of the certificates that were
-- there before it, which the loop does not extend.
unfoldable pub import_certs :
    Crypto → Bytes → Time → List String → List PeerCert → List PeerCert → List PeerCert
unfolding same_bytes verify_cert replace_last
import_certs crypto key now known [] existing = existing
import_certs crypto key now known (c ∷ certs) existing = import_certs crypto key now known certs (
    if not (same_bytes c.person_key key)
    then existing
    else if not (is_ok (verify_cert crypto c now))
    then existing
    else if contains_string known c.peer_id
    then replace_last c existing
    else existing ++ c ∷ [])

pub record Bundle : Type 0 where
  pub person : String
  pub label : String
  pub identity_pubkey : String
  pub certs : List PeerCert

module _ {F : Type 0} where
  unfoldable pub then_anchor : Command F → Anchor F → Bool → Command F
  unfolding upsert_anchor
  then_anchor (some e, dir) a anchored = (some e, dir)
  then_anchor (none, dir) a anchored = upsert_anchor dir a anchored

  -- The end of an import: the certificates and the anchor.
  unfoldable pub import_into :
      Crypto → Bytes → Time → List PeerCert → Anchor F → TrustDir F → Bool → Bool → Command F
  unfolding import_certs save_certs then_anchor
  import_into crypto key now certs a dir saved anchored = elim dir.certs [
    | err e ↦ (some not_loaded, dir)
    | ok existing ↦
        let known = map (λ c. c.peer_id) existing in
        then_anchor (save_certs dir (import_certs crypto key now known certs existing) saved) a
          anchored
  ]

module _ {F : Type 0} ⦃f : Float F⦄ where
  -- The certificates are saved before the anchor is: `saved` and `anchored` are what the two saves
  -- answer. `bundle` is what the file decodes to, `decoded` the key in it.
  unfoldable pub trust_import :
      Crypto
      → Time
      → List String
      → String
      → F
      → F
      → Option Bundle
      → (Bundle → Option Bytes)
      → TrustDir F
      → Bool
      → Bool
      → Command F
  unfolding import_into
  trust_import crypto now (path ∷ []) as_name weight anchor_weight none decode dir saved anchored =
      (some not_loaded, dir)
  trust_import crypto now (path ∷ []) as_name weight anchor_weight (some b) decode dir saved
        anchored =
      let person = if str_eq as_name "" then b.person else as_name in
      let w = weight_or weight anchor_weight in
      elim (decode b) [
        | none ↦ (some bad_pubkey, dir)
        | some key ↦
            if str_eq person ""
            then (some no_person_name, dir)
            else if out_of_range w
            then (some weight_out_of_range, dir)
            else import_into crypto key now b.certs (self_added person b.label b.identity_pubkey w)
                dir saved anchored
      ]
  trust_import crypto now [] as_name weight anchor_weight b decode dir saved anchored =
      (some usage, dir)
  trust_import crypto now (p ∷ q ∷ args) as_name weight anchor_weight b decode dir saved anchored =
      (some usage, dir)

-- `trust add|set|remove|import|block|unblock` with what each reads beside the trust directory.
pub data Edit (F : Type 0) : Type 0 where
  add : List String → String → F → Option Bytes → Result String (Option Bytes) → Bool → Edit F
  set : List String → F → String → Bool → Edit F
  remove : List String → Bool → Edit F
  import :
      Time
      → List String
      → String
      → F
      → Option Bundle
      → (Bundle → Option Bytes)
      → Bool
      → Bool
      → Edit F
  block : List String → Bool → Edit F
  unblock : List String → Bool → Edit F

module _ {F : Type 0} ⦃f : Float F⦄ (crypto : Crypto) (anchor_weight : F) where
  unfoldable pub cmd_trust : Edit F → TrustDir F → Command F
  unfolding trust_add trust_set trust_remove trust_import trust_block trust_unblock
  cmd_trust (add args label weight decoded own saved) dir =
      trust_add crypto args label weight anchor_weight decoded own dir saved
  cmd_trust (set args weight label saved) dir = trust_set args weight label dir saved
  cmd_trust (remove args saved) dir = trust_remove args dir saved
  cmd_trust (import now args as_name weight b decode saved anchored) dir =
      trust_import crypto now args as_name weight anchor_weight b decode dir saved anchored
  cmd_trust (block args saved) dir = trust_block args dir saved
  cmd_trust (unblock args saved) dir = trust_unblock args dir saved

  -- The files after a sequence of commands.
  unfoldable pub after_edits : List (Edit F) → TrustDir F → TrustDir F
  unfolding cmd_trust
  after_edits [] dir = dir
  after_edits (e ∷ edits) dir = after_edits edits (cmd_trust e dir).1
