-- ===== src/Node/Run/Lists.antt =====
-- No handler changes the lists of a node that win over its blocks.
use federloom.Prelude.{
  ℕ, ◌≡◌, refl, ◌∙◌, inl, inr, true, false, Bool-cases, if◌then◌else◌, not, arith, ◌++◌,
  Result-cases, String, str_eq, List, [], ◌∷◌, Option, none, some, Option-cases, Result, ok, err,
  Bool,
}
use federloom.Float.{Float}
use federloom.Proto.{Event, WhitelistEntry}
use federloom.Store.{ScoreRecord}
use federloom.Reputation.Engine.{EngineError}
use federloom.Enforce.Neverblock.{NeverBlockList}
use federloom.Identity.{sign_event}
use federloom.Netutil.{normalize_ip}
use federloom.Resources.{charge, shed}
use federloom.Trust.{resolve, is_blocked}
use federloom.Node.Dedup.{dedup_key, mark_seen}
use federloom.Node.{Node, World, ReceivedEvent, publish, call, exempt, effective_ipv6_prefix}
use federloom.Node.Local.{
  own_event, signed_event, enforce_local, after_local, score_local, report_local, process_local,
  decay_one, run_decay,
}
use federloom.Node.Remote.{
  is_relay_ok, other_subnets, publish_on, reemit_if_bridge, enforce, after_report, score_event,
  process_report, accepted, dispatch, process_remote,
}
use federloom.Node.Dispute.{
  take_vouch, shared_vote, maybe_unblock_disputed, dispute_by, apply_vote, process_dispute,
  publish_shared_vote, publish_shared_votes_of, publish_shared_votes,
}
use federloom.Node.Federated.{materialise_federated}

module _ {F S : Type 0} where
  abbrev pub lists : Node F S → NeverBlockList × List WhitelistEntry
  lists n = (n.neverblock, n.whitelist)

  lists-if :
      (n : Node F S) (c : Bool) (a b : Node F S)
      → lists a ≡ lists n
      → lists b ≡ lists n
      → lists (if c then a else b) ≡ lists n
  lists-if n true a b x y = x
  lists-if n false a b x y = y

  lists-publish_on :
      (e : Event) (subnets : List String) (n : Node F S) → lists (publish_on e subnets n) ≡ lists n
  unfolding publish_on call
  lists-publish_on e [] n = refl
  lists-publish_on e (s ∷ rest) n = lists-publish_on e rest (call (publish e s) n)

module _ {F S : Type 0} ⦃f : Float F⦄ (w : World F S) where
  lists-enforce_local :
      (n : Node F S) (e : Event) (rec : ScoreRecord F) → lists (enforce_local w n e rec) ≡ lists n
  unfolding enforce_local call
  lists-enforce_local n e rec = ground arith

  lists-after_local :
      (n : Node F S) (e : Event) (res : Result EngineError (F × S))
      → lists (after_local w n e res) ≡ lists n
  unfolding after_local
  lists-after_local n e (err m) = refl
  lists-after_local n e (ok (score, store)) = lists-enforce_local _ e _

  lists-report_local :
      (key : Option w.crypto.PrivKey) (n : Node F S) (e : Event) (ip : String)
      → lists (report_local w key n e ip) ≡ lists n
  unfolding report_local score_local
  lists-report_local key n e ip =
      let own = signed_event w key (own_event w n e ip) in
      let (seen, dedup) =
        mark_seen n.dedup
          (dedup_key w.crypto.format_nano own.reporter_id own.ip own.reason own.timestamp) w.now in
      elim (Bool-cases (exempt w n ip)) [
        | inl there ↦ rw there refl
        | inr free ↦ rw free (lists-after_local (record n { dedup = dedup }) own _)
      ]

  pub lists-process_local :
      (key : Option w.crypto.PrivKey) (n : Node F S) (e : Event)
      → lists (process_local w key n e) ≡ lists n
  unfolding process_local
  lists-process_local key n e =
      let n1 = record n { gov = charge n.gov w.now } in
      elim (Option-cases (normalize_ip w.netip e.ip (effective_ipv6_prefix n.cfg.ipv6_prefix))) [
        | inl bad ↦ rw (bad, process_local) refl
        | inr (ip, good) ↦ rw (good, process_local) (lists-report_local key n1 e ip)
      ]

  lists-enforce :
      (n : Node F S) (e : Event) (rec : ScoreRecord F) → lists (enforce w n e rec) ≡ lists n
  unfolding enforce call
  lists-enforce n e rec = ground arith

  lists-reemit : (n : Node F S) (re : ReceivedEvent) → lists (reemit_if_bridge w n re) ≡ lists n
  unfolding reemit_if_bridge
  lists-reemit n re =
      let (full, gov) = shed n.gov w.now in
      let e = re.event in
      ground (
        arith,
        lists-publish_on (record e { origin_trace = e.origin_trace ++ (n.self_id ∷ []) })
            (other_subnets re.subnet w.joined) (record n { gov = gov }),
      )

  lists-after_report :
      (n : Node F S) (e : Event) (re : ReceivedEvent) (anchored : Bool)
      (res : Result EngineError (F × S))
      → lists (after_report w n e re anchored res) ≡ lists n
  unfolding after_report
  lists-after_report n e re anchored (err m) = refl
  lists-after_report n e re anchored (ok (score, store)) = lists-reemit _ re ∙ lists-enforce _ e _

  lists-score_event :
      (n : Node F S) (e : Event) (re : ReceivedEvent) → lists (score_event w n e re) ≡ lists n
  unfolding score_event
  lists-score_event n e re =
      let (trust, t) = resolve w.crypto w.trust_files w.now e.reporter_id n.trust in
      lists-after_report (record n { trust = trust }) e re _ _

  lists-process_report :
      (n : Node F S) (e : Event) (re : ReceivedEvent) → lists (process_report w n e re) ≡ lists n
  unfolding process_report
  lists-process_report n e re =
      let trust = take_vouch w e.reporter_id e.vouch n.trust in
      let key = dedup_key w.crypto.format_nano e.reporter_id e.ip e.reason e.timestamp in
      let (seen, dedup) = mark_seen n.dedup key w.now in
      let scored = lists-score_event (record n { trust = trust; dedup = dedup }) e re in
      ground (arith, scored)

  lists-maybe_unblock :
      (n : Node F S) (ip : String) (k : ℕ) → lists (maybe_unblock_disputed w n ip k) ≡ lists n
  unfolding maybe_unblock_disputed call
  lists-maybe_unblock n ip k = ground arith

  lists-dispute_by : (n : Node F S) (e : Event) → lists (dispute_by w n e).0 ≡ lists n
  unfolding dispute_by
  lists-dispute_by n e = ground arith

  lists-apply_vote : (e : Event) (r : Node F S × Option ℕ) → lists (apply_vote w e r) ≡ lists r.0
  unfolding apply_vote
  lists-apply_vote e (n, none) = refl
  lists-apply_vote e (n, some k) = lists-maybe_unblock n e.ip k

  lists-process_dispute : (n : Node F S) (e : Event) → lists (process_dispute w n e) ≡ lists n
  unfolding process_dispute
  lists-process_dispute n e =
      let key = dedup_key w.crypto.format_nano e.reporter_id e.ip e.reason e.timestamp in
      let (seen, dedup) = mark_seen n.dedup key w.now in
      let n' = record n { dedup = dedup; trust = take_vouch w e.reporter_id e.vouch n.trust } in
      let voted = lists-apply_vote e (dispute_by w n' e) ∙ lists-dispute_by n' e in
      ground (arith, voted)

  lists-dispatch :
      (n : Node F S) (re : ReceivedEvent) (e : Option Event) → lists (dispatch w n re e) ≡ lists n
  unfolding dispatch
  lists-dispatch n re none = refl
  lists-dispatch n re (some e) =
      lists-if n (str_eq e.kind "vote") _ _ (lists-process_dispute n e)
        (lists-process_report n e re)

  pub lists-process_remote :
      (n : Node F S) (re : ReceivedEvent) → lists (process_remote w n re) ≡ lists n
  unfolding process_remote
  lists-process_remote n re =
      let (full, gov) = shed (charge n.gov w.now) w.now in
      let (trust, blocked) = is_blocked w.crypto w.trust_files w.now re.from n.trust in
      let n1 = record n { gov = gov } in
      let n2 = record n1 { trust = trust } in
      let d = dispatch w n2 re (accepted w n2 re) in
      let c3 = if blocked then n2 else d in
      let c2 = if not (is_relay_ok re) then n1 else c3 in
      let c1 = if full then n1 else c2 in
      lists-if n (str_eq re.from "") n c1 refl (
        lists-if n full n1 c2 refl (
          lists-if n (not (is_relay_ok re)) n1 c3 refl
            (lists-if n blocked n2 d refl (lists-dispatch n2 re (accepted w n2 re)))))

  pub lists-materialise :
      (n : Node F S) (ip : String) (rec : ScoreRecord F) (subnets : ℕ)
      → lists (materialise_federated w n ip rec subnets) ≡ lists n
  unfolding materialise_federated call
  lists-materialise n ip rec subnets = ground arith

  lists-decay_one : (n : Node F S) (ip : String) → lists (decay_one w n ip) ≡ lists n
  unfolding decay_one call
  lists-decay_one n ip = ground arith

  pub lists-run_decay : (ips : List String) (n : Node F S) → lists (run_decay w ips n) ≡ lists n
  unfolding run_decay
  lists-run_decay [] n = refl
  lists-run_decay (ip ∷ rest) n = lists-run_decay rest (decay_one w n ip) ∙ lists-decay_one n ip

  lists-publish_shared_vote :
      (key : w.crypto.PrivKey) (n : Node F S) (entry : WhitelistEntry)
      → lists (publish_shared_vote w key n entry) ≡ lists n
  unfolding publish_shared_vote call
  lists-publish_shared_vote key n entry =
      elim (Result-cases (sign_event w.crypto (shared_vote w n entry) key)) [
        | inl (e, failed) ↦
            rw (failed, publish_shared_vote)
              (lists-if n (not (str_eq entry.scope "shared-vote")) n n refl refl)
        | inr (v, signed) ↦
            rw (signed, publish_shared_vote)
              (lists-if n (not (str_eq entry.scope "shared-vote")) n _ refl
                (lists-dispute_by (call (publish v n.cfg.federation_subnet) n) v))
      ]

  lists-publish_shared_votes_of :
      (key : w.crypto.PrivKey) (entries : List WhitelistEntry) (n : Node F S)
      → lists (publish_shared_votes_of w key entries n) ≡ lists n
  unfolding publish_shared_votes_of
  lists-publish_shared_votes_of key [] n = refl
  lists-publish_shared_votes_of key (entry ∷ rest) n =
      lists-publish_shared_votes_of key rest (publish_shared_vote w key n entry)
      ∙ lists-publish_shared_vote key n entry

  pub lists-publish_shared_votes :
      (key : Option w.crypto.PrivKey) (n : Node F S)
      → lists (publish_shared_votes w key n) ≡ lists n
  unfolding publish_shared_votes
  lists-publish_shared_votes none n = refl
  lists-publish_shared_votes (some key) n =
      lists-if n (not n.has_transport) n _ refl (lists-publish_shared_votes_of key n.whitelist n)
