-- ===== src/Node.antt =====
-- internal/node/node.go: the state of a node, the environment of one handler, and the calls that it
-- makes. The handlers are in the children Local, Remote, Dispute and Federated.
pub mod Dedup
pub mod Dispute
pub mod Remote
pub mod Local
pub mod Federated
pub mod Run
pub mod Start
pub mod Tests
use federloom.Prelude.{
  ℕ, ◌*◌, Bool, true, false, if◌then◌else◌, ltb, leb, ◌||◌, ◌&&◌, not, ◌==◌, String, str_eq, List,
  [], ◌∷◌, Option, none, some, Result, ok, err, contains_string,
}
use federloom.Float.{Float, num}
use federloom.Proto.{Time, Duration, PeerCert, Event, WhitelistEntry, second}
use federloom.Store.{ScoreRecord, ScoreStore, empty_record}
use federloom.Reputation.Engine.{Engine}
use federloom.Netutil.{Netip}
use federloom.Identity.{Crypto}
use federloom.Trust.{TrustFiles, TrustStore}
use federloom.Rules.{RuleSet, RuleDisk}
use federloom.Rules.Burst.{BurstStore}
use federloom.Resources.{Governor}
use federloom.Enforce.Neverblock.{NeverBlockList, never_blocked}
use federloom.Store.Whitelist.{whitelisted}
use federloom.Node.Dedup.{DedupCache}

abbrev pub max_origin_trace_len : ℕ
max_origin_trace_len = 8

unfoldable pub canonical_subnet : String → String
canonical_subnet s = if str_eq s "" || str_eq s "default" then "" else s

-- internal/config: the settings that the handlers read. A duration or a number that Go would read
-- as negative is 0 here, which the code treats alike.
pub record Config (F : Type 0) : Type 0 where
  pub ipv6_prefix : ℕ
  pub federation_subnet : String
  pub bridge_subnets : List String
  pub federation_discount : F
  pub dispute_unblock_min_subnets : ℕ
  pub federation_materialize : Bool
  pub federation_block_threshold : F
  pub federation_block_min_subnets : ℕ
  pub federation_block_ttl : Duration
  pub unblock_threshold : F

unfoldable pub effective_ipv6_prefix : ℕ → ℕ
effective_ipv6_prefix p = if ltb p 1 || ltb 128 p then 64 else p

unfoldable pub effective_block_ttl : Duration → Duration
effective_block_ttl ttl = if ttl == 0 then 3600 * second else ttl

abbrev canon : String → String
canon s = if str_eq s "default" then "" else s

-- The bridge subnets other than the home subnet.
unfoldable pub foreign_subnets : String → List String → List String
foreign_subnets home [] = []
foreign_subnets home (s ∷ rest) =
    let others = foreign_subnets home rest in if str_eq (canon s) home then others else s ∷ others

unfoldable pub effective_bridge_subnets : {F : Type 0} → Config F → List String
unfolding foreign_subnets
effective_bridge_subnets c = foreign_subnets (canon c.federation_subnet) c.bridge_subnets

-- What a node asks of its enforcement sink and of its transport.
pub data Call : Type 0 where
  block : String → Call
  block_for : String → Duration → Call
  unblock : String → Call
  publish : Event → String → Call

-- What lies outside the node while one handler runs: libraries, files, the answers of the sink and
-- of the swarm, and the clock, which is read once. A block whose outcome only changes what is
-- reported to the operator has no answer here.
pub record World (F S : Type 0) : Type 1 where
  pub netip : Netip
  pub crypto : Crypto
  pub scores : ScoreStore F S
  pub trust_files : TrustFiles F
  pub rule_disk : RuleDisk F
  pub block_for_works : Bool
  pub now : Time
  -- the subnets that the transport has joined
  pub joined : List String

-- `calls` has every call so far, the latest first.
pub record Node (F S : Type 0) : Type 0 where
  pub cfg : Config F
  pub store : S
  pub rep : Engine F
  pub neverblock : NeverBlockList
  pub whitelist : List WhitelistEntry
  pub self_id : String
  pub has_transport : Bool
  pub trust : TrustStore F
  pub vouch : Option PeerCert
  pub rules : RuleSet F
  pub burst : BurstStore
  pub dedup : DedupCache
  pub gov : Governor F
  pub materialised : List String
  pub disputed : List String
  pub calls : List Call

-- A message and who published it where.
pub record ReceivedEvent : Type 0 where
  pub event : Event
  pub from : String
  pub subnet : String

module _ {F S : Type 0} where
  unfoldable pub call : Call → Node F S → Node F S
  call c n = record n { calls = c ∷ n.calls }

  -- The lists that win over every block.
  unfoldable pub exempt : World F S → Node F S → String → Bool
  exempt w n ip = never_blocked w.netip n.neverblock ip || whitelisted w.netip n.whitelist ip

-- The record read for the rules: a read that fails gives the zero record.
unfoldable pub record_or_empty :
    {F : Type 0} ⦃f : Float F⦄ → Result String (ScoreRecord F) → ScoreRecord F
record_or_empty (ok r) = r
record_or_empty (err m) = empty_record
