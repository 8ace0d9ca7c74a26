-- ===== src/Node/Remote.antt =====
-- internal/node/node.go: one event of the swarm. `ProcessRemote`, `reemitIfBridge`. What is
-- reported to the operator and to the API's listeners is not modelled.
pub mod Backstop
pub mod Authentic
use federloom.Prelude.{
  ℕ, ◌+◌, Bool, true, false, if◌then◌else◌, ltb, leb, ◌&&◌, ◌||◌, not, ◌==◌, String, str_eq, List,
  [], ◌∷◌, ◌++◌, Option, none, some, Result, ok, err, contains_string, length, get_last?, is_ok,
}
use federloom.Float.{Float, num, ◌⊗◌, ◌⊘◌, ◌<?◌, ◌≤?◌}
use federloom.Proto.{Event}
use federloom.Reputation.{Observation}
use federloom.Reputation.Engine.{EngineError, record_report, get_record}
use federloom.Store.{ScoreRecord}
use federloom.Netutil.{normalize_ip}
use federloom.Identity.{verify_event_sig}
use federloom.Trust.{resolve, is_blocked}
use federloom.Rules.{Action, action_block, evaluate}
use federloom.Rules.Burst.{record_burst}
use federloom.Resources.{charge, shed}
use federloom.Node.Dedup.{dedup_key, mark_seen}
use federloom.Node.{
  Node, World, Call, ReceivedEvent, block, publish, call, exempt, record_or_empty,
  max_origin_trace_len, canonical_subnet, effective_bridge_subnets, effective_ipv6_prefix,
}
use federloom.Node.Dispute.{take_vouch, process_dispute}

-- A relayed event is signed, and its last hop is its publisher.
unfoldable pub is_relay_ok : ReceivedEvent → Bool
is_relay_ok re =
    str_eq re.event.reporter_id re.from
    || (not (length re.event.signature == 0)
        && elim (get_last? re.event.origin_trace) [ none ↦ false | some hop ↦ str_eq hop re.from ])

-- The subnets to publish on again: all but the one that the event came from.
unfoldable pub other_subnets : String → List String → List String
other_subnets from [] = []
other_subnets from (s ∷ rest) =
    let others = other_subnets from rest in if str_eq s from then others else s ∷ others

unfoldable pub is_block : Action → Bool
is_block a = str_eq a action_block

module _ {F S : Type 0} where
  unfoldable pub publish_on : Event → List String → Node F S → Node F S
  unfolding call
  publish_on e [] n = n
  publish_on e (s ∷ rest) n = publish_on e rest (call (publish e s) n)

module _ {F S : Type 0} ⦃f : Float F⦄ (w : World F S) where
  unfoldable pub reemit_if_bridge : Node F S → ReceivedEvent → Node F S
  unfolding publish_on other_subnets shed effective_bridge_subnets
  reemit_if_bridge n re =
      let (full, gov) = shed n.gov w.now in
      let n' = record n { gov = gov } in
      let e = re.event in
      if full
      then n'
      else if not n.has_transport || str_eq n.self_id ""
      then n'
      else if length (effective_bridge_subnets n.cfg) == 0
      then n'
      else if contains_string e.origin_trace n.self_id
      then n'
      else if leb max_origin_trace_len (length e.origin_trace)
      then n'
      else publish_on (record e { origin_trace = e.origin_trace ++ (n.self_id ∷ []) })
          (other_subnets re.subnet w.joined) n'

  -- The weight of a reporter that is not anchored and of another subnet is discounted once.
  unfoldable pub discounted : Node F S → Event → F → Bool → F
  unfolding canonical_subnet
  discounted n e weight anchored =
      let d = n.cfg.federation_discount in
      if not anchored
        && not (str_eq (canonical_subnet e.subnet_id) (canonical_subnet n.cfg.federation_subnet))
      then weight ⊗ (if (d ≤? num 0) || (num 1 <? d) then num 1 ⊘ num 2 else d)
      else weight

  -- The rules decide, but a record without an anchored group blocks nothing.
  unfoldable pub enforce : Node F S → Event → ScoreRecord F → Node F S
  unfolding evaluate call
  enforce n e rec =
      let (rules, (action, name), burst) = evaluate n.rules w.rule_disk e rec n.burst w.now in
      let n' = record n { rules = rules; burst = burst } in
      if is_block action && not (length rec.groups == 0) then call (block e.ip) n' else n'

  -- What follows a report: one that could not be recorded ends the handler; only an anchored
  -- reporter feeds the burst window.
  unfoldable pub after_report :
      Node F S → Event → ReceivedEvent → Bool → Result EngineError (F × S) → Node F S
  unfolding enforce reemit_if_bridge record_or_empty
  after_report n e re anchored (err m) = n
  after_report n e re anchored (ok (score, store)) =
      let n' = record n {
        store = store;
        burst = if anchored then record_burst n.burst e.ip e.reason w.now else n.burst;
      } in
      reemit_if_bridge (enforce n' e (record_or_empty (get_record w.scores n.rep store e.ip))) re

  -- Scores an event that passed every guard.
  unfoldable pub score_event : Node F S → Event → ReceivedEvent → Node F S
  unfolding resolve discounted record_report after_report
  score_event n e re =
      let (trust, (weight, group, anchored)) =
        resolve w.crypto w.trust_files w.now e.reporter_id n.trust in
      let obs : Observation F = record {
        reason = e.reason;
        reporter_id = e.reporter_id;
        group = group;
        trust = discounted n e weight anchored;
        anchored = anchored;
        subnet = e.subnet_id;
      } in
      after_report (record n { trust = trust }) e re anchored
        (record_report w.scores n.rep n.store e.ip obs w.now)

  -- A report whose IP is normalized: loops, long traces, exempt IPs and repeats are dropped.
  unfoldable pub process_report : Node F S → Event → ReceivedEvent → Node F S
  unfolding exempt take_vouch dedup_key mark_seen score_event
  process_report n e re =
      let n' = record n { trust = take_vouch w e.reporter_id e.vouch n.trust } in
      let key = dedup_key w.crypto.format_nano e.reporter_id e.ip e.reason e.timestamp in
      let (seen, dedup) = mark_seen n'.dedup key w.now in
      let n'' = record n' { dedup = dedup } in
      if not (str_eq n.self_id "") && contains_string e.origin_trace n.self_id
      then n
      else if ltb max_origin_trace_len (length e.origin_trace)
      then n
      else if exempt w n e.ip
      then n
      else if seen
      then n''
      else score_event n'' e re

  -- The event with the key of its IP, once its publisher and its signature are accepted.
  unfoldable pub accepted : Node F S → ReceivedEvent → Option Event
  unfolding normalize_ip verify_event_sig
  accepted n re =
      let e = re.event in
      if not (length e.signature == 0) && not (is_ok (verify_event_sig w.crypto e))
      then none
      else elim (normalize_ip w.netip e.ip (effective_ipv6_prefix n.cfg.ipv6_prefix)) [
        | none ↦ none
        | some key ↦ some (record e { ip = key })
      ]

  unfoldable pub dispatch : Node F S → ReceivedEvent → Option Event → Node F S
  unfolding process_dispute process_report
  dispatch n re none = n
  dispatch n re (some e) =
      if str_eq e.kind "vote" then process_dispute w n e else process_report n e re

  unfoldable pub process_remote : Node F S → ReceivedEvent → Node F S
  unfolding charge shed is_relay_ok is_blocked accepted dispatch
  process_remote n re =
      let (full, gov) = shed (charge n.gov w.now) w.now in
      let n1 = record n { gov = gov } in
      let (trust, blocked) = is_blocked w.crypto w.trust_files w.now re.from n1.trust in
      let n2 = record n1 { trust = trust } in
      if str_eq re.from ""
      then n
      else if full
      then n1
      else if not (is_relay_ok re)
      then n1
      else if blocked
      then n2
      else dispatch n2 re (accepted n2 re)
