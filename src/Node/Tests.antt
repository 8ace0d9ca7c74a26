-- ===== src/Node/Tests.antt =====
-- Examples of a node, in a world where every signature holds and every text is one address.
use federloom.Prelude.{
  ◌≡◌, ◌≢◌, ◌⊎◌, refl, sym, ◌∙◌, inl, inr, true, false, if◌then◌else◌, arith, String, str_eq, List,
  [], ◌∷◌, none, some, ok, lookup, All,
}
use federloom.Float.{Fixed, pos, fixed_float}
use federloom.Store.{ScoreRecord, empty_record}
use federloom.Reputation.{add_once, lazily_decayed, apply_dispute}
use federloom.Netutil.{Netip, v4, normalize_ip}
use federloom.Identity.{Crypto, verify_event_sig}
use federloom.Trust.{no_stat}
use federloom.Rules.{unparsable}
use federloom.Rules.Burst.{new_burst_store}
use federloom.Resources.{new_governor}
use federloom.Node.Dedup.{new_dedup_cache}
use federloom.Node.{Node, World, unblock, ReceivedEvent, exempt, effective_ipv6_prefix}
use federloom.Node.Dispute.{process_dispute}
use federloom.Node.Dispute.Sovereignty.{IsOwnUnblock, process_dispute_own, unblocked_stays}
use federloom.Node.Federated.{materialise_federated}
use federloom.Node.Federated.Gate.{IsTimedBlock, materialise_federated_lem}
use federloom.Node.Local.{process_local, run_decay}
use federloom.Node.Run.{here, after, federated_hit, event_received, decay_tick}
use federloom.Node.Run.Lists.{lists}
use federloom.Node.Run.Exempt.{listed, protected_never_blocked}
use federloom.Node.Local.Blocks.{blocks-process_local}
use federloom.Node.Remote.{process_remote}
use federloom.Node.Remote.Backstop.{blocks, IsGuarded, remote_block_backed}
use federloom.Node.Remote.Authentic.{IsIgnored, process_remote_ignores}

abbrev pub Scores : Type 0
Scores = String → ScoreRecord Fixed

abbrev pub crypto : Crypto
crypto = record {
  verify = λ key text sig. true;
  base64 = λ key. "k";
  format = λ t. "t";
  format_nano = λ t. "t";
  key_of_peer = λ p. some (1 ∷ []);
  verify_peer = λ key text sig. true;
  PrivKey = Unit {0};
  sign = λ key text. some (7 ∷ []);
}

abbrev pub netip : Netip
netip = record {
  parse_addr = λ s. some (v4 3221225985);
  parse_prefix = λ s. none;
  show_addr = λ a. "192.0.2.1";
  show_prefix = λ p. "";
}

abbrev pub world : World Fixed Scores
world = record {
  netip = netip;
  crypto = crypto;
  scores = record {
    get_score = λ s ip. ok (s ip);
    put_score = λ s ip r ttl. ok (λ k. if str_eq ip k then r else s k);
  };
  trust_files = record {
    anchors = record { stat = none; content = ok [] };
    certs = record { stat = none; content = ok [] };
    blocked = record { stat = none; content = ok [] };
  };
  rule_disk = record { stat = none; content = unparsable };
  block_for_works = true;
  now = 1000;
  joined = [];
}

abbrev pub node : Node Fixed Scores
node = record {
  cfg = record {
    ipv6_prefix = 64;
    federation_subnet = "s0";
    bridge_subnets = [];
    federation_discount = pos 500;
    dispute_unblock_min_subnets = 0;
    federation_materialize = true;
    federation_block_threshold = pos 80000;
    federation_block_min_subnets = 2;
    federation_block_ttl = 0;
    unblock_threshold = pos 10000;
  };
  store = λ k. empty_record;
  rep = record {
    half_life = 1000;
    stranger_cap = pos 20000;
    diversity_repeat = pos 150;
    dispute_weight = pos 10000;
  };
  neverblock = record { prefixes = [] };
  whitelist = [];
  self_id = "p0";
  has_transport = true;
  trust = record {
    has_blocked_path = true;
    stranger_weight = pos 100;
    reload_every = 10;
    anchors = [];
    certs = [];
    blocked = "p9" ∷ [];
    last_check = 1000;
    anchors_stat = no_stat;
    certs_stat = no_stat;
    blocked_stat = no_stat;
    loaded_once = true;
  };
  vouch = none;
  rules = record {
    rules = [];
    path = "";
    last_stat = record { mtime = 0; size = 0 };
    fallback = pos 0;
    stranger_cap = pos 20000;
    loaded = true;
  };
  burst = new_burst_store;
  dedup = new_dedup_cache 8 100;
  gov = new_governor (pos 0);
  materialised = "192.0.2.1" ∷ [];
  disputed = [];
  calls = [];
}

abbrev report : ReceivedEvent
report = record {
  event = record {
    ip = "192.0.2.1";
    reason = "ssh-probe";
    timestamp = 900;
    reporter_id = "p1";
    signature = [];
    subnet_id = "s1";
    origin_trace = "p1" ∷ [];
    vouch = none;
    kind = "";
  };
  from = "p1";
  subnet = "s0";
}

cons≢nil : {A : Type 0} {x : A} {xs : List A} → x ∷ xs ≢ []
cons≢nil h = ground arith

remote_block_backed_example : IsGuarded world report node (process_remote world node report)
remote_block_backed_example = remote_block_backed world node report

process_remote_ignores_example :
    IsIgnored node (process_remote world node (record report { from = "p9" }))
unfolding verify_event_sig
process_remote_ignores_example =
    process_remote_ignores world node (record report { from = "p9" }) (inr (inl (refl, refl)))

process_dispute_own_example :
    IsOwnUnblock world "192.0.2.1" node
      (process_dispute world node (record report.event { kind = "vote" }))
process_dispute_own_example = process_dispute_own world node (record report.event { kind = "vote" })

vote_unblocks :
    (process_dispute world node (record report.event { kind = "vote" })).calls
    ≡ unblock "192.0.2.1" ∷ []
unfolding process_dispute lookup new_dedup_cache apply_dispute add_once lazily_decayed
vote_unblocks = refl

unblocked_stays_example :
    materialise_federated world
      (process_dispute world node (record report.event { kind = "vote" }))
      "192.0.2.1"
      empty_record
      3
    ≡ process_dispute world node (record report.event { kind = "vote" })
unblocked_stays_example =
    unblocked_stays world world node (record report.event { kind = "vote" }) empty_record 3
      (λ h. cons≢nil (sym vote_unblocks ∙ h))

blocks-process_local_example :
    let m = process_local world (some tt) node report.event in
    (blocks m.calls ≡ blocks node.calls)
    ⊎ ((ip : String) × (normalize_ip netip "192.0.2.1" (effective_ipv6_prefix 64) ≡ some ip)
        × (exempt world node ip ≡ false)
        × (blocks m.calls ≡ ip ∷ blocks node.calls))
blocks-process_local_example = blocks-process_local world (some tt) node report.event

abbrev pub loud : ScoreRecord Fixed
loud = record empty_record { score = pos 90000 }

materialise_federated_lem_example :
    (materialise_federated world node "192.0.2.7" loud 3 ≡ node)
    ⊎ IsTimedBlock world node "192.0.2.7" loud 3
        (materialise_federated world node "192.0.2.7" loud 3)
materialise_federated_lem_example = materialise_federated_lem world node "192.0.2.7" loud 3

protected_never_blocked_example :
    let m =
      run_decay world
        ("192.0.2.7" ∷ [])
        (process_remote world (materialise_federated world node "192.0.2.7" loud 3) report) in
    (lists m ≡ lists node) × All (λ ip. listed netip (lists node) ip ≡ false) (blocks m.calls)
protected_never_blocked_example =
    protected_never_blocked netip node
      (run_decay world ("192.0.2.7" ∷ [])
        (process_remote world (materialise_federated world node "192.0.2.7" loud 3) report))
      refl
      (after
        (after (after here (federated_hit world refl "192.0.2.7" loud 3))
          (event_received world refl report))
        (decay_tick world refl ("192.0.2.7" ∷ [])))
