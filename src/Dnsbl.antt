-- ===== src/Dnsbl.antt =====
-- internal/dnsbl/server.go: answers DNS queries for reversed IPv4 addresses under the zone. A
-- message is its first question; `strings.ToLower`, `dns.Fqdn`, the printer of a score and
-- net/netip are parameters, and so is the store. The sockets and their shutdown are not modelled.
pub mod Names
pub mod Laws
mod Tests
use Prim.Native.String as Text
use Prim.Native.Char.{Char, code}
use federloom.Prelude.{
  ℕ, Bool, true, false, not, if◌then◌else◌, ◌==◌, String, str_eq, List, [], ◌∷◌, ◌++◌, Option, none,
  some, Result, ok, err,
}
use federloom.Float.{Float, num, ◌<?◌}
use federloom.Proto.{is_zero}
use federloom.Store.{ScoreRecord, StoreError}
use federloom.Netutil.{Addr, Netip, unmap, is4}

-- `strings.TrimSuffix` where `strings.HasSuffix` holds, `none` where it does not.
unfoldable pub strip_suffix : String → String → Option String
strip_suffix suffix Text.[] = if str_eq Text.[] suffix then some "" else none
strip_suffix suffix (Text.◌∷◌ c s) =
    let rest = strip_suffix suffix s in
    if str_eq (Text.◌∷◌ c s) suffix
    then some ""
    else elim rest [ none ↦ none | some r ↦ some (Text.◌∷◌ c r) ]

-- A character before the first of the parts.
unfoldable pub cons_part : Char → List String → List String
cons_part c [] = Text.◌∷◌ c "" ∷ []
cons_part c (p ∷ ps) = Text.◌∷◌ c p ∷ ps

-- `strings.Split(s, ".")`
unfoldable pub split_dots : String → List String
unfolding cons_part
split_dots Text.[] = "" ∷ []
split_dots (Text.◌∷◌ c s) =
    let rest = split_dots s in if code c == b'.' then "" ∷ rest else cons_part c rest

-- `strings.Join`
unfoldable pub join : String → List String → String
join sep [] = ""
join sep (p ∷ []) = p
join sep (p ∷ q ∷ ps) = Text.◌++◌ p (Text.◌++◌ sep (join sep (q ∷ ps)))

unfoldable pub reverse_four : List String → Option String
unfolding join
reverse_four (d ∷ c ∷ b ∷ a ∷ []) = some (join "." (a ∷ b ∷ c ∷ d ∷ []))
reverse_four [] = none
reverse_four (a ∷ []) = none
reverse_four (a ∷ b ∷ []) = none
reverse_four (a ∷ b ∷ c ∷ []) = none
reverse_four (a ∷ b ∷ c ∷ d ∷ e ∷ rest) = none

-- The address that a name asks for, `none` if it is not four labels under the zone.
unfoldable pub asked_ip : String → String → Option String
unfolding strip_suffix split_dots reverse_four
asked_ip zone qname = elim (strip_suffix (Text.◌++◌ "." zone) qname) [
  | none ↦ none
  | some reversed ↦ reverse_four (split_dots reversed)
]

pub record DnsblConfig (F : Type 0) : Type 0 where
  pub addr : String
  pub zone : String
  pub min_score : F

-- `zone` is empty where no handler is registered.
pub record Server (F : Type 0) : Type 0 where
  pub cfg : DnsblConfig F
  pub block_threshold : F
  pub zone : String

unfoldable pub new_server :
    {F : Type 0} → (String → String) → (String → String) → DnsblConfig F → F → Server F
new_server fqdn lower cfg block_threshold = record {
  cfg = cfg;
  block_threshold = block_threshold;
  zone = if str_eq cfg.zone "" then "" else fqdn (lower cfg.zone);
}

pub data Qtype : Type 0 where
  a_type : Qtype
  txt_type : Qtype
  other_type : Qtype

pub record Question : Type 0 where
  pub name : String
  pub qtype : Qtype

-- A record of the answer, with its name; its class is IN and its time to live 60.
pub data Rr : Type 0 where
  a_record : String → String → Rr
  txt_record : String → String → Rr

pub data Reply : Type 0 where
  format_error : Reply
  name_error : Reply
  no_error : List Rr → Reply

unfoldable pub answer : Question → String → List Rr
answer q payload = elim q.qtype [
  | a_type ↦ a_record q.name "127.0.0.2" ∷ txt_record q.name payload ∷ []
  | txt_type ↦ txt_record q.name payload ∷ []
  | other_type ↦ []
]

module _ {F : Type 0} ⦃f : Float F⦄ (show_score : F → String) where
  unfoldable pub min_score : Server F → F
  min_score s = if f.eq s.cfg.min_score (num 0) then s.block_threshold else s.cfg.min_score

  unfoldable pub payload : ScoreRecord F → String
  unfolding join
  payload r =
      Text.◌++◌ "score="
        (Text.◌++◌ (show_score r.score) (Text.◌++◌ " reasons=" (join "," r.reasons)))

  -- From the stored record on.
  unfoldable pub reply_record : Server F → Question → Result StoreError (ScoreRecord F) → Reply
  unfolding min_score payload answer
  reply_record s q (err e) = name_error
  reply_record s q (ok r) =
      if is_zero r.last_seen
      then name_error
      else if r.score <? min_score s
      then name_error
      else no_error (answer q (payload r))

  unfoldable pub handle_dns :
      (String → String)
      → Netip
      → Server F
      → (String → Result StoreError (ScoreRecord F))
      → Option Question
      → Reply
  unfolding asked_ip reply_record
  handle_dns lower net s get_score none = format_error
  handle_dns lower net s get_score (some q) = elim (asked_ip s.zone (lower q.name)) [
    | none ↦ name_error
    | some ip ↦ elim (net.parse_addr ip) [
      | none ↦ name_error
      | some addr ↦ if not (is4 (unmap addr)) then name_error else reply_record s q (get_score ip)
    ]
  ]
