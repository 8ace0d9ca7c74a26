-- ===== src/Node/Start.antt =====
-- internal/node/node.go, `New`, and the parts of internal/config that it reads: how the settings of
-- an operator make a node. The queriers, the servers and the observer that New makes are not
-- modelled here.
pub mod Settings
pub mod Laws
pub mod Tests
use federloom.Prelude.{
  ℕ, ◌*◌, Bool, true, false, ◌&&◌, not, if◌then◌else◌, ◌==◌, String, str_eq, List, [], ◌∷◌, ◌++◌,
  Option, none, some, Result, ok, err, ◌>>=◌, wrap, is_ok,
}
use federloom.Float.{Float}
use federloom.Proto.{Time, Duration, PeerCert, WhitelistEntry, second}
use federloom.Store.{ScoreRecord}
use federloom.Store.Whitelist.{WhitelistFile, WhitelistError, load_whitelist}
use federloom.Reputation.Engine.{Engine}
use federloom.Netutil.{Netip}
use federloom.Identity.{Crypto, verify_cert}
use federloom.Trust.{TrustFiles, new_store}
use federloom.Rules.{RuleDisk, load}
use federloom.Rules.Burst.{new_burst_store}
use federloom.Resources.{new_governor}
use federloom.Enforce.Neverblock.{new_never_block_list}
use federloom.Enforce.Ipset.{IpsetSink, new_ipset}
use federloom.Enforce.Nftables.{NftablesSink, new_nftables}
use federloom.Enforce.Crowdsec.{CrowdSecSink, new_crowdsec, EnforceConfig}
use federloom.Ingest.Honeypot.{Honeypot, HoneypotConfig, new_honeypot}
use federloom.Ingest.Opencanary.{OpenCanary, OpenCanaryConfig, new_opencanary}
use federloom.Ingest.Crowdsec as IngestCrowdsec
use federloom.Ingest.Mailcow.{MailcowLogs, MailcowConfig, new_mailcow}
use federloom.Ingest.Spamtrap.{Spamtrap, SpamtrapConfig, new_spamtrap}
use federloom.Ingest.Fail2ban.{Fail2Ban, Fail2BanConfig, new_fail2ban}
use federloom.Node.{Config, Node, World}
use federloom.Node.Dedup.{new_dedup_cache}
use federloom.Node.Start.Settings.{
  TrustConfig, effective_diversity_repeat_factor, effective_dispute_weight, effective_chains,
}

pub data NewError : Type 0 where
  store_not_opened whitelist_not_loaded key_not_loaded observer_not_made : NewError

-- Which firewall a node drives.
pub data Sink : Type 0 where
  ipset : IpsetSink → Sink
  nftables : NftablesSink → Sink
  crowdsec : CrowdSecSink → Sink

pub record SinkConfig : Type 0 where
  pub backend : String
  pub set_name : String
  pub chain : String
  pub chains : List String
  pub nft_hook : String
  pub crowdsec_sink : EnforceConfig

unfoldable pub sink_of : SinkConfig → Duration → Sink
unfolding effective_chains new_ipset new_nftables new_crowdsec
sink_of cfg half_life =
    if str_eq cfg.backend "nftables"
    then nftables (new_nftables cfg.set_name cfg.nft_hook)
    else if str_eq cfg.backend "crowdsec"
    then crowdsec (new_crowdsec cfg.crowdsec_sink half_life)
    else ipset (new_ipset cfg.set_name (effective_chains cfg.chains cfg.chain))

pub data Source : Type 0 where
  from_honeypot : Honeypot → Source
  from_opencanary : OpenCanary → Source
  from_crowdsec : IngestCrowdsec.CrowdSec → Source
  from_mailcow : MailcowLogs → Source
  from_spamtrap : Spamtrap → Source
  from_fail2ban : Fail2Ban → Source

-- Each source with whether it is enabled.
pub record IngestConfig : Type 0 where
  pub honeypot : Bool × HoneypotConfig
  pub opencanary : Bool × OpenCanaryConfig
  pub crowdsec : Bool × IngestCrowdsec.CrowdSecConfig
  pub mailcow_logs : Bool × MailcowConfig
  pub spamtrap : Bool × SpamtrapConfig
  pub fail2ban : Bool × Fail2BanConfig

abbrev if_enabled : Bool → Source → List Source
if_enabled enabled source = if enabled then source ∷ [] else []

unfoldable pub sources_of : IngestConfig → String → List Source
sources_of cfg self_id =
    if_enabled cfg.honeypot.0 (from_honeypot (new_honeypot cfg.honeypot.1 self_id))
    ++ (if_enabled cfg.opencanary.0 (from_opencanary (new_opencanary cfg.opencanary.1 self_id))
        ++ (if_enabled cfg.crowdsec.0
              (from_crowdsec (IngestCrowdsec.new_crowdsec cfg.crowdsec.1 self_id))
            ++ (if_enabled cfg.mailcow_logs.0
                  (from_mailcow (new_mailcow cfg.mailcow_logs.1 self_id))
                ++ (if_enabled cfg.spamtrap.0 (from_spamtrap (new_spamtrap cfg.spamtrap.1 self_id))
                    ++ if_enabled cfg.fail2ban.0
                        (from_fail2ban (new_fail2ban cfg.fail2ban.1 self_id))))))

-- The settings that a node keeps, and the others that New reads besides those of the sink and of
-- the sources.
pub record StartConfig (F : Type 0) : Type 0 where
  pub cfg : Config F
  pub half_life : Duration
  pub block_threshold : F
  pub rules_path : String
  pub has_blocked_path : Bool
  pub extra_whitelist : List String
  pub dispute_weight : F
  pub max_events_per_sec : F
  pub trust : TrustConfig F

-- A week, where the configuration has no half-life.
unfoldable pub half_life_or : Duration → Duration
half_life_or d = if d == 0 then 604800 * second else d

module _ {F : Type 0} ⦃f : Float F⦄ where
  unfoldable pub engine_of : StartConfig F → Engine F
  unfolding half_life_or effective_diversity_repeat_factor effective_dispute_weight
  engine_of c = record {
    half_life = half_life_or c.half_life;
    stranger_cap = c.trust.stranger_score_cap;
    diversity_repeat = effective_diversity_repeat_factor c.trust.diversity_repeat_factor;
    dispute_weight = effective_dispute_weight c.dispute_weight;
  }

-- The node's own certificate: `read` is what its file decodes to, if it can be read and decoded.
unfoldable pub own_vouch : Crypto → Option PeerCert → String → Time → Option PeerCert
unfolding verify_cert
own_vouch crypto none self_id now = none
own_vouch crypto (some cert) self_id now =
    if not (is_ok (verify_cert crypto cert now))
    then none
    else if not (str_eq self_id "") && str_eq cert.peer_id self_id
    then some cert
    else none

-- What is on disk when a node is made: the store, if it opens, and the files. `key_loaded` is
-- whether the node's key, which a node with a transport signs with, can be loaded, and `observed`
-- whether the observer can be made.
pub record Disk (F S : Type 0) : Type 0 where
  pub opened : Option S
  pub whitelist : WhitelistFile
  pub peer_cert : Option PeerCert
  pub key_loaded : Bool
  pub observed : Bool

-- The peer ID of the node: a node with a transport needs its key.
abbrev pub identity_of : Option String → Bool → Result NewError String
identity_of none key_loaded = ok ""
identity_of (some id) key_loaded = if key_loaded then ok id else err key_not_loaded

module _ {F S : Type 0} ⦃f : Float F⦄ (w : World F S) where
  abbrev pub opened_store : Option S → Result NewError S
  opened_store none = err store_not_opened
  opened_store (some s) = ok s

  abbrev pub observer : Bool → Result NewError Unit
  observer true = ok tt
  observer false = err observer_not_made

  -- The node of an opened store and a loaded whitelist.
  unfoldable pub started :
      StartConfig F → Option String → Option PeerCert → S → List WhitelistEntry → String → Node F S
  unfolding engine_of own_vouch new_never_block_list new_store load new_burst_store new_dedup_cache
      new_governor
  started c peer peer_cert s whitelist self_id = record {
    cfg = c.cfg;
    store = s;
    rep = engine_of c;
    neverblock = new_never_block_list w.netip c.extra_whitelist;
    whitelist = whitelist;
    self_id = self_id;
    has_transport = elim peer [ none ↦ false | some id ↦ true ];
    trust = new_store w.crypto c.has_blocked_path c.trust.stranger_weight w.trust_files w.now;
    vouch = own_vouch w.crypto peer_cert self_id w.now;
    rules = load c.rules_path c.block_threshold c.trust.stranger_score_cap w.rule_disk;
    burst = new_burst_store;
    dedup = new_dedup_cache 100000 (600 * second);
    gov = new_governor c.max_events_per_sec;
    materialised = [];
    disputed = [];
    calls = [];
  }

  -- `peer` is the peer ID of the transport, if there is one.
  unfoldable pub new_node : StartConfig F → Option String → Disk F S → Result NewError (Node F S)
  unfolding load_whitelist started
  new_node c peer disk = do
    s ← opened_store disk.opened
    whitelist ← wrap whitelist_not_loaded (load_whitelist disk.whitelist)
    self_id ← identity_of peer disk.key_loaded
    made ← observer disk.observed
    ok (started c peer disk.peer_cert s whitelist self_id)
