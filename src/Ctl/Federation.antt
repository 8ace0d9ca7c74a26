-- ===== src/Ctl/Federation.antt =====
-- cmd/federloomctl/federation.go: the commands that write an invitation and that join by one. What
-- the operator answers, the files and the flags are arguments, as for the trust commands.
pub mod Joined
mod Tests
use federloom.Prelude.{
  Bool, true, false, ◌&&◌, not, if◌then◌else◌, String, str_eq, List, [], ◌∷◌, Option, none, some,
  Result, ok, err, ◌>>=◌, wrap,
}
use federloom.Float.{Float, num, ◌<?◌}
use federloom.Proto.{Time, Bytes}
use federloom.Identity.{Crypto, decode_pub}
use federloom.Trust.{Anchor}
use federloom.Federation.{
  FedInfo, Invitation, InvitationError, Multiaddr, InvitationJson, InviterKeys, InviterConfig,
  new_invitation, write_invitation, read_invitation,
}
use federloom.Ctl.Trust.{
  CtlError, usage, not_loaded, weight_out_of_range, bad_pubkey, no_person_name, TrustDir, Command,
  out_of_range, weight_or, import_into,
}

pub data InviteError : Type 0 where
  no_addr : InviteError
  no_label : InviteError
  bad_weight : InviteError
  not_invited : InviteError
  not_created : InviteError

-- Where the invitation is written: to standard output, to a file that can be created, or to one
-- that cannot.
pub data Output : Type 0 where
  stdout created refused : Output

abbrev pub written_to : Output → Result InvitationError String → Result InviteError String
written_to refused text = err not_created
written_to stdout text = wrap not_invited text
written_to created text = wrap not_invited text

abbrev given_label : Option String → Result InviteError String
given_label none = err no_label
given_label (some label) = ok label

module _ {F : Type 0} ⦃f : Float F⦄ where
  -- `--weight`, if it is given, replaces the suggestion of the configuration.
  unfoldable pub with_weight : F → Invitation F → Result InviteError (Invitation F)
  with_weight weight inv =
      if not (num 0 <? weight)
      then ok inv
      else if num 1 <? weight
      then err bad_weight
      else ok (record inv { federation = record inv.federation { suggested_weight = weight } })

  -- The text of the invitation. `label` is the text of the label's file, trimmed.
  unfoldable pub federation_invite :
      Crypto
      → (Bytes → String)
      → Multiaddr
      → InvitationJson F
      → InviterKeys
      → InviterConfig F
      → String
      → F
      → Option String
      → Output
      → Time
      → Result InviteError String
  unfolding new_invitation with_weight write_invitation
  federation_invite crypto fingerprint m json keys cfg addr weight label out now = do
    given ← if str_eq addr "" then err no_addr else ok addr
    name ← given_label label
    inv ← wrap not_invited (new_invitation crypto fingerprint m keys cfg name given now)
    weighed ← with_weight weight inv
    written_to out (write_invitation json weighed)

  -- The weight of the flag, else the one that is suggested if it is above 0, else the configured
  -- one.
  unfoldable pub join_weight : F → F → F → F
  join_weight weight suggested anchor_weight =
      weight_or (if f.eq weight (num 0) && (num 0 <? suggested) then suggested else weight)
        anchor_weight

  unfoldable pub joined_anchor : String → F → Invitation F → Anchor F
  joined_anchor person weight inv = record {
    person = person;
    label = inv.trust.label;
    identity_pubkey = inv.trust.identity_pubkey;
    weight = weight;
    valid_until = 0;
    source = "federation-join";
  }

  -- `file` is the text of the invitation, `decode64` the decoder of base64, `answer` what the
  -- operator types, trimmed, or an error of reading it; `saved` and `anchored` are what the two
  -- saves answer.
  unfoldable pub federation_join :
      Crypto
      → InvitationJson F
      → (String → Option Bytes)
      → Time
      → List String
      → String
      → F
      → F
      → Option String
      → Option String
      → TrustDir F
      → Bool
      → Bool
      → Command F
  unfolding read_invitation join_weight joined_anchor import_into decode_pub
  federation_join crypto json decode64 now (path ∷ []) as_name weight anchor_weight none answer dir
        saved anchored =
      (some not_loaded, dir)
  federation_join crypto json decode64 now (path ∷ []) as_name weight anchor_weight (some text)
        answer dir saved anchored =
      elim (read_invitation json text) [
        | err e ↦ (some not_loaded, dir)
        | ok inv ↦ elim (decode_pub decode64 inv.trust.identity_pubkey) [
          | none ↦ (some bad_pubkey, dir)
          | some key ↦ elim answer [
            | none ↦ (some not_loaded, dir)
            | some said ↦
                let person = if str_eq as_name "" then inv.invited_by else as_name in
                let w = join_weight weight inv.federation.suggested_weight anchor_weight in
                if not (str_eq said "yes")
                then (none, dir)
                else if str_eq person ""
                then (some no_person_name, dir)
                else if out_of_range w
                then (some weight_out_of_range, dir)
                else import_into crypto key now inv.trust.certs (joined_anchor person w inv) dir
                    saved anchored
          ]
        ]
      ]
  federation_join crypto json decode64 now [] as_name weight anchor_weight file answer dir saved
        anchored =
      (some usage, dir)
  federation_join crypto json decode64 now (p ∷ q ∷ args) as_name weight anchor_weight file answer
        dir saved anchored =
      (some usage, dir)
