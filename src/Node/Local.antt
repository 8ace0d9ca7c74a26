-- ===== src/Node/Local.antt =====
-- internal/node/node.go: one event of this node's own sources, `processLocal`, and the periodic
-- decay of every score, `runDecay`.
pub mod Blocks
use federloom.Prelude.{
  Result, true, if◌then◌else◌, String, str_eq, List, [], ◌∷◌, Option, none, some, ok, err,
}
use federloom.Float.{Float, num, ◌<?◌}
use federloom.Proto.{Event}
use federloom.Reputation.{Observation}
use federloom.Reputation.Engine.{EngineError, record_report, get_record, decay}
use federloom.Store.{ScoreRecord}
use federloom.Netutil.{normalize_ip}
use federloom.Identity.{sign_event}
use federloom.Rules.{evaluate}
use federloom.Rules.Burst.{record_burst}
use federloom.Resources.{charge}
use federloom.Node.Dedup.{dedup_key, mark_seen}
use federloom.Node.{
  Node, World, block, unblock, publish, call, exempt, record_or_empty, effective_ipv6_prefix,
}
use federloom.Node.Remote.{is_block}

module _ {F S : Type 0} ⦃f : Float F⦄ (w : World F S) where
  -- What the node adds to its own event: who reports it, its vouch, and its subnet.
  unfoldable pub own_event : Node F S → Event → String → Event
  own_event n e key = record e {
    ip = key;
    reporter_id = n.self_id;
    vouch = n.vouch;
    subnet_id = n.cfg.federation_subnet;
    origin_trace = if str_eq n.self_id "" then e.origin_trace else n.self_id ∷ [];
  }

  -- An event that cannot be signed is kept, unsigned.
  unfoldable pub signed_event : Option w.crypto.PrivKey → Event → Event
  unfolding sign_event
  signed_event none e = e
  signed_event (some key) e = elim (sign_event w.crypto e key) [ ok signed ↦ signed | err m ↦ e ]

  unfoldable pub enforce_local : Node F S → Event → ScoreRecord F → Node F S
  unfolding evaluate call
  enforce_local n e rec =
      let (rules, (action, name), burst) = evaluate n.rules w.rule_disk e rec n.burst w.now in
      let n' = record n { rules = rules; burst = burst } in
      let n'' = if is_block action then call (block e.ip) n' else n' in
      if n.has_transport then call (publish e n.cfg.federation_subnet) n'' else n''

  -- What follows the node's own report: one that could not be recorded ends the handler.
  unfoldable pub after_local : Node F S → Event → Result EngineError (F × S) → Node F S
  unfolding enforce_local record_or_empty
  after_local n e (err m) = n
  after_local n e (ok (score, store)) =
      enforce_local (record n { store = store; burst = record_burst n.burst e.ip e.reason w.now }) e
        (record_or_empty (get_record w.scores n.rep store e.ip))

  -- The node trusts its own report fully, and weighs it without a subnet.
  unfoldable pub score_local : Node F S → Event → Node F S
  unfolding record_report after_local
  score_local n e =
      let obs : Observation F = record {
        reason = e.reason;
        reporter_id = n.self_id;
        group = n.self_id;
        trust = num 1;
        anchored = true;
        subnet = "";
      } in
      after_local n e (record_report w.scores n.rep n.store e.ip obs w.now)

  -- An event whose IP is normalized, unless that IP is exempt.
  unfoldable pub report_local : Option w.crypto.PrivKey → Node F S → Event → String → Node F S
  unfolding exempt own_event signed_event dedup_key mark_seen score_local
  report_local key n e ip =
      let own = signed_event key (own_event n e ip) in
      let (seen, dedup) =
        mark_seen n.dedup
          (dedup_key w.crypto.format_nano own.reporter_id own.ip own.reason own.timestamp) w.now in
      if exempt w n ip then n else score_local (record n { dedup = dedup }) own

  unfoldable pub process_local : Option w.crypto.PrivKey → Node F S → Event → Node F S
  unfolding charge normalize_ip report_local
  process_local key n e =
      let n1 = record n { gov = charge n.gov w.now } in
      elim (normalize_ip w.netip e.ip (effective_ipv6_prefix n.cfg.ipv6_prefix)) [
        | none ↦ n1
        | some ip ↦ report_local key n1 e ip
      ]

  -- Decays one score, and unblocks the IP if it fell below the threshold.
  unfoldable pub decay_one : Node F S → String → Node F S
  unfolding decay call
  decay_one n ip = elim (decay w.scores n.rep n.store ip w.now) [
    | err m ↦ n
    | ok (score, store) ↦
        if score <? n.cfg.unblock_threshold
        then call (unblock ip) (record n { store = store })
        else record n { store = store }
  ]

  -- The scan gives the keys of the store, which are visited in order.
  unfoldable pub run_decay : List String → Node F S → Node F S
  unfolding decay_one
  run_decay [] n = n
  run_decay (ip ∷ rest) n = run_decay rest (decay_one n ip)
