-- ===== src/Node/Dispute.antt =====
-- internal/node/node.go: disputes. `processDispute`, `maybeUnblockDisputed`, `publishSharedVotes`.
pub mod Sovereignty
use federloom.Prelude.{
  ℕ, Bool, true, false, if◌then◌else◌, ltb, not, String, str_eq, List, [], ◌∷◌, Option, none, some,
  Result, ok, err, contains_string,
}
use federloom.Float.{Float, num}
use federloom.Proto.{Event, PeerCert, WhitelistEntry}
use federloom.Reputation.{Observation}
use federloom.Reputation.Engine.{record_dispute}
use federloom.Identity.{Crypto, sign_event}
use federloom.Trust.{TrustStore, add_cert, resolve}
use federloom.Node.Dedup.{dedup_key, mark_seen}
use federloom.Node.{Node, World, Call, publish, unblock, call}

unfoldable pub drop_string : String → List String → List String
drop_string s [] = []
drop_string s (t ∷ ts) = let rest = drop_string s ts in if str_eq t s then rest else t ∷ rest

module _ {F S : Type 0} ⦃f : Float F⦄ (w : World F S) where
  -- A vouch counts only for the reporter that it names, and only if it verifies.
  unfoldable pub take_vouch : String → Option PeerCert → TrustStore F → TrustStore F
  take_vouch reporter none s = s
  take_vouch reporter (some cert) s =
      if not (str_eq cert.peer_id reporter)
      then s
      else elim (add_cert w.crypto cert w.now s) [ ok s' ↦ s' | err e ↦ s ]

  -- Enough disputing subnets unblock what this node materialised itself, and nothing else.
  unfoldable pub maybe_unblock_disputed : Node F S → String → ℕ → Node F S
  unfolding call drop_string
  maybe_unblock_disputed n ip dispute_subnets =
      let n' = record n {
        disputed = if contains_string n.disputed ip then n.disputed else ip ∷ n.disputed;
        materialised = drop_string ip n.materialised;
      } in
      if ltb dispute_subnets n.cfg.dispute_unblock_min_subnets
      then n
      else if not (contains_string n.materialised ip)
      then n'
      else call (unblock ip) n'

  -- Resolves the trust of the reporter and records its dispute: the number of disputing subnets, or
  -- `none` if the store fails, which changes no record.
  unfoldable pub dispute_by : Node F S → Event → Node F S × Option ℕ
  unfolding record_dispute resolve
  dispute_by n e =
      let (trust, (weight, group, anchored)) =
        resolve w.crypto w.trust_files w.now e.reporter_id n.trust in
      let obs : Observation F = record {
        reason = "";
        reporter_id = e.reporter_id;
        group = "";
        trust = weight;
        anchored = anchored;
        subnet = e.subnet_id;
      } in
      elim (record_dispute w.scores n.rep n.store e.ip obs w.now) [
        | err m ↦ (record n { trust = trust }, none)
        | ok (score, count, store) ↦ (record n { trust = trust; store = store }, some count)
      ]

  unfoldable pub apply_vote : Event → Node F S × Option ℕ → Node F S
  unfolding maybe_unblock_disputed
  apply_vote e (n, none) = n
  apply_vote e (n, some dispute_subnets) = maybe_unblock_disputed n e.ip dispute_subnets

  unfoldable pub process_dispute : Node F S → Event → Node F S
  unfolding take_vouch dispute_by apply_vote dedup_key mark_seen
  process_dispute n e =
      let key = dedup_key w.crypto.format_nano e.reporter_id e.ip e.reason e.timestamp in
      let (seen, dedup) = mark_seen n.dedup key w.now in
      let n' = record n { dedup = dedup } in
      if seen
      then n'
      else apply_vote e
          (dispute_by (record n' { trust = take_vouch e.reporter_id e.vouch n'.trust }) e)

  -- The dispute that a shared-vote entry of the whitelist announces.
  unfoldable pub shared_vote : Node F S → WhitelistEntry → Event
  shared_vote n entry = record {
    ip = entry.ip_or_range;
    reason = "";
    timestamp = w.now;
    reporter_id = n.self_id;
    signature = [];
    subnet_id = n.cfg.federation_subnet;
    origin_trace = [];
    vouch = none;
    kind = "vote";
  }

  -- An entry of another scope stays private; a vote that cannot be signed is skipped.
  unfoldable pub publish_shared_vote : w.crypto.PrivKey → Node F S → WhitelistEntry → Node F S
  unfolding shared_vote call dispute_by sign_event
  publish_shared_vote key n entry =
      if not (str_eq entry.scope "shared-vote")
      then n
      else elim (sign_event w.crypto (shared_vote n entry) key) [
        | err e ↦ n
        | ok v ↦ let (n', count) = dispute_by (call (publish v n.cfg.federation_subnet) n) v in n'
      ]

  unfoldable pub publish_shared_votes_of :
      w.crypto.PrivKey → List WhitelistEntry → Node F S → Node F S
  unfolding publish_shared_vote
  publish_shared_votes_of key [] n = n
  publish_shared_votes_of key (entry ∷ rest) n =
      publish_shared_votes_of key rest (publish_shared_vote key n entry)

  unfoldable pub publish_shared_votes : Option w.crypto.PrivKey → Node F S → Node F S
  unfolding publish_shared_votes_of
  publish_shared_votes none n = n
  publish_shared_votes (some key) n =
      if not n.has_transport then n else publish_shared_votes_of key n.whitelist n
