-- ===== src/Node/Remote/Backstop.antt =====
-- internal/node/node.go: what an event of the swarm can make a node block.
use federloom.Prelude.{
  ℕ, Bool, true, false, if◌then◌else◌, not, ◌==◌, ◌≡◌, refl, ap, ◌∙◌, ◌⊎◌, inl, inr, String, str_eq,
  List, [], ◌∷◌, ◌++◌, Option, none, some, Result, ok, err, length, arith, Bool-cases, Option-cases,
}
use federloom.Float.{Float}
use federloom.Proto.{Event}
use federloom.Store.{ScoreRecord}
use federloom.Reputation.Engine.{EngineError}
use federloom.Trust.{resolve, is_blocked}
use federloom.Rules.Burst.{record_burst}
use federloom.Netutil.{normalize_ip}
use federloom.Node.{
  Node, World, Call, ReceivedEvent, block, block_for, unblock, publish, call, exempt,
  record_or_empty, effective_ipv6_prefix,
}
use federloom.Resources.{charge, shed}
use federloom.Node.Dedup.{dedup_key, mark_seen}
use federloom.Node.Dispute.{
  take_vouch, maybe_unblock_disputed, dispute_by, apply_vote, process_dispute,
}
use federloom.Node.Remote.{
  is_relay_ok, other_subnets, publish_on, reemit_if_bridge, enforce, after_report, score_event,
  process_report, accepted, dispatch, process_remote,
}

-- The IPs that calls block, in the order of the calls.
unfoldable pub blocks : List Call → List String
blocks [] = []
blocks (block ip ∷ cs) = ip ∷ blocks cs
blocks (block_for ip ttl ∷ cs) = ip ∷ blocks cs
blocks (unblock ip ∷ cs) = blocks cs
blocks (publish e s ∷ cs) = blocks cs

-- `m` blocks the IPs that `n` does, and has its store.
abbrev IsQuiet : {F S : Type 0} → Node F S → Node F S → Type 0
IsQuiet n m = (blocks m.calls ≡ blocks n.calls) × (m.store ≡ n.store)

module _ {F S : Type 0} where
  publish_on-IsQuiet :
      (e : Event) (subnets : List String) (n : Node F S) → IsQuiet n (publish_on e subnets n)
  unfolding publish_on call blocks
  publish_on-IsQuiet e [] n = (refl, refl)
  publish_on-IsQuiet e (s ∷ rest) n = publish_on-IsQuiet e rest (call (publish e s) n)

module _ {F S : Type 0} ⦃f : Float F⦄ (w : World F S) where
  reemit-IsQuiet : (n : Node F S) (re : ReceivedEvent) → IsQuiet n (reemit_if_bridge w n re)
  unfolding reemit_if_bridge
  reemit-IsQuiet n re =
      let (full, gov) = shed n.gov w.now in
      let e = re.event in
      ground (
        arith,
        publish_on-IsQuiet (record e { origin_trace = e.origin_trace ++ (n.self_id ∷ []) })
            (other_subnets re.subnet w.joined) (record n { gov = gov }),
      )

  maybe_unblock_quiet :
      (n : Node F S) (ip : String) (k : ℕ)
      → blocks (maybe_unblock_disputed w n ip k).calls ≡ blocks n.calls
  unfolding maybe_unblock_disputed call blocks
  maybe_unblock_quiet n ip k = ground arith

  pub dispute_by_quiet :
      (n : Node F S) (e : Event) → let (m, k) = dispute_by w n e in blocks m.calls ≡ blocks n.calls
  unfolding dispute_by
  dispute_by_quiet n e = ground arith

  apply_vote_quiet :
      (e : Event) (n : Node F S) (k : Option ℕ)
      → blocks (apply_vote w e (n, k)).calls ≡ blocks n.calls
  unfolding apply_vote
  apply_vote_quiet e n none = refl
  apply_vote_quiet e n (some k) = maybe_unblock_quiet n e.ip k

  dispute_quiet : (n : Node F S) (e : Event) → blocks (process_dispute w n e).calls ≡ blocks n.calls
  unfolding process_dispute
  dispute_quiet n e =
      let key = dedup_key w.crypto.format_nano e.reporter_id e.ip e.reason e.timestamp in
      let (seen, dedup) = mark_seen n.dedup key w.now in
      let n' = record n { dedup = dedup; trust = take_vouch w e.reporter_id e.vouch n.trust } in
      let (m, k) = dispute_by w n' e in
      let counted = apply_vote_quiet e m k ∙ dispute_by_quiet n' e in ground (arith, counted)

  enforce_cases :
      (n : Node F S) (e : Event) (rec : ScoreRecord F)
      → ((enforce w n e rec).store ≡ n.store)
        × ((blocks (enforce w n e rec).calls ≡ blocks n.calls)
            ⊎ ((blocks (enforce w n e rec).calls ≡ e.ip ∷ blocks n.calls)
                × ((length rec.groups == 0) ≡ false)))
  unfolding enforce call blocks
  enforce_cases n e rec = ground arith

  -- After the handler, `m` has blocked nothing that `n` had not, or one IP more, whose stored
  -- record names an anchored group.
  abbrev pub IsBacked : String → Node F S → Node F S → Type 0
  IsBacked ip n m =
      (blocks m.calls ≡ blocks n.calls)
      ⊎ ((blocks m.calls ≡ ip ∷ blocks n.calls)
          × ((length (record_or_empty (w.scores.get_score m.store ip)).groups == 0) ≡ false))

  enforce-IsBacked :
      (n : Node F S) (e : Event) (re : ReceivedEvent)
      → let rec = record_or_empty (w.scores.get_score n.store e.ip) in
        IsBacked e.ip n (reemit_if_bridge w (enforce w n e rec) re)
  enforce-IsBacked n e re =
      let rec = record_or_empty (w.scores.get_score n.store e.ip) in
      let done = enforce w n e rec in
      let (kept, cases) = enforce_cases n e rec in
      let (calls, store) = reemit-IsQuiet done re in
      let same : w.scores.get_score (reemit_if_bridge w done re).store e.ip
          ≡ w.scores.get_score n.store e.ip =
        ap (λ s. w.scores.get_score s e.ip) (store ∙ kept) in
      elim cases [
        | inl p ↦ inl (calls ∙ p)
        | inr (p, q) ↦ inr (calls ∙ p, ap (λ r. length (record_or_empty r).groups == 0) same ∙ q)
      ]

  after_report-IsBacked :
      (n : Node F S) (e : Event) (re : ReceivedEvent) (anchored : Bool)
      (res : Result EngineError (F × S))
      → IsBacked e.ip n (after_report w n e re anchored res)
  unfolding after_report
  after_report-IsBacked n e re anchored (err m) = inl refl
  after_report-IsBacked n e re anchored (ok (score, store)) =
      enforce-IsBacked
        (record n {
          store = store;
          burst = if anchored then record_burst n.burst e.ip e.reason w.now else n.burst;
        })
        e re

  score_event-IsBacked :
      (n : Node F S) (e : Event) (re : ReceivedEvent) → IsBacked e.ip n (score_event w n e re)
  unfolding score_event
  score_event-IsBacked n e re =
      let (trust, t) = resolve w.crypto w.trust_files w.now e.reporter_id n.trust in
      after_report-IsBacked (record n { trust = trust }) e re _ _

  -- `m` has blocked one IP more than `n`, which is not exempt, and whose stored record names an
  -- anchored group.
  abbrev pub IsBackedBlock : String → Node F S → Node F S → Type 0
  IsBackedBlock ip n m =
      (exempt w n ip ≡ false)
      × (blocks m.calls ≡ ip ∷ blocks n.calls)
      × ((length (record_or_empty (w.scores.get_score m.store ip)).groups == 0) ≡ false)

  process_report_backed :
      (n : Node F S) (e : Event) (re : ReceivedEvent)
      → (blocks (process_report w n e re).calls ≡ blocks n.calls)
        ⊎ IsBackedBlock e.ip n (process_report w n e re)
  unfolding process_report
  process_report_backed n e re =
      let trust = take_vouch w e.reporter_id e.vouch n.trust in
      let key = dedup_key w.crypto.format_nano e.reporter_id e.ip e.reason e.timestamp in
      let (seen, dedup) = mark_seen n.dedup key w.now in
      let scored = score_event-IsBacked (record n { trust = trust; dedup = dedup }) e re in
      ground (arith, scored)

  accepted_ip :
      (n : Node F S) (re : ReceivedEvent) (e : Event)
      → accepted w n re ≡ some e
      → normalize_ip w.netip re.event.ip (effective_ipv6_prefix n.cfg.ipv6_prefix) ≡ some e.ip
  unfolding accepted
  accepted_ip n re e h = ground arith

  -- No block, or a backed block of the IP of the event.
  abbrev pub IsGuarded : ReceivedEvent → Node F S → Node F S → Type 0
  IsGuarded re n m =
      (blocks m.calls ≡ blocks n.calls)
      ⊎ ((ip : String) × (normalize_ip w.netip re.event.ip (effective_ipv6_prefix n.cfg.ipv6_prefix)
            ≡ some ip)
          × IsBackedBlock ip n m)

  IsGuarded-if :
      (re : ReceivedEvent) (n : Node F S) (c : Bool) (a b : Node F S)
      → IsGuarded re n a
      → IsGuarded re n b
      → IsGuarded re n (if c then a else b)
  IsGuarded-if re n true a b x y = x
  IsGuarded-if re n false a b x y = y

  dispatch_backed :
      (n : Node F S) (re : ReceivedEvent) → IsGuarded re n (dispatch w n re (accepted w n re))
  unfolding dispatch
  dispatch_backed n re = elim (Option-cases (accepted w n re)) [
    | inl h ↦ rw h (inl refl)
    | inr (e, h) ↦ rw h (elim (Bool-cases (str_eq e.kind "vote")) [
      | inl v ↦ inl (rw v (dispute_quiet n e))
      | inr v ↦ rw v (elim (process_report_backed n e re) [
        | inl q ↦ inl q
        | inr q ↦ inr (e.ip, accepted_ip n re e h, q)
      ])
    ])
  ]

  -- An event of the swarm blocks at most one IP: its own, normalized, if that IP is on neither list
  -- of exempt IPs and the record stored for it names an anchored group. This holds for whatever
  -- rules are loaded.
  pub remote_block_backed :
      (n : Node F S) (re : ReceivedEvent) → IsGuarded re n (process_remote w n re)
  unfolding process_remote
  remote_block_backed n re =
      let (full, gov) = shed (charge n.gov w.now) w.now in
      let (trust, blocked) = is_blocked w.crypto w.trust_files w.now re.from n.trust in
      let handled = dispatch_backed (record n { gov = gov; trust = trust }) re in
      let n1 = record n { gov = gov } in
      let n2 = record n1 { trust = trust } in
      let d = dispatch w n2 re (accepted w n2 re) in
      let c3 = if blocked then n2 else d in
      let c2 = if not (is_relay_ok re) then n1 else c3 in
      let c1 = if full then n1 else c2 in
      IsGuarded-if re n (str_eq re.from "") n c1 (inl refl) (
        IsGuarded-if re n full n1 c2 (inl refl) (
          IsGuarded-if re n (not (is_relay_ok re)) n1 c3 (inl refl)
            (IsGuarded-if re n blocked n2 d (inl refl) handled)))
