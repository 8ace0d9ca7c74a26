-- ===== src/Node/Local/Blocks.antt =====
-- internal/node/node.go: what an event of the node's own sources can make it block.
use federloom.Prelude.{
  ◌≡◌, refl, ap, ◌∙◌, ◌⊎◌, inl, inr, false, arith, String, ◌∷◌, Option, none, some, Option-cases,
  Bool-cases, Result, ok, err,
}
use federloom.Float.{Float}
use federloom.Proto.{Event}
use federloom.Store.{ScoreRecord}
use federloom.Reputation.Engine.{EngineError}
use federloom.Netutil.{normalize_ip}
use federloom.Identity.{sign_event}
use federloom.Node.{Node, World, call, exempt, effective_ipv6_prefix}
use federloom.Node.Local.{
  own_event, signed_event, enforce_local, after_local, score_local, report_local, process_local,
}
use federloom.Resources.{charge}
use federloom.Node.Dedup.{dedup_key, mark_seen}
use federloom.Node.Remote.Backstop.{blocks}

module _ {F S : Type 0} ⦃f : Float F⦄ (w : World F S) where
  signed_event_ip : (key : Option w.crypto.PrivKey) (e : Event) → (signed_event w key e).ip ≡ e.ip
  unfolding signed_event sign_event
  signed_event_ip none e = refl
  signed_event_ip (some key) e = ground arith

  blocks-enforce_local :
      (n : Node F S) (e : Event) (rec : ScoreRecord F)
      → (blocks (enforce_local w n e rec).calls ≡ blocks n.calls)
        ⊎ (blocks (enforce_local w n e rec).calls ≡ e.ip ∷ blocks n.calls)
  unfolding enforce_local call blocks
  blocks-enforce_local n e rec = ground arith

  blocks-after_local :
      (n : Node F S) (e : Event) (res : Result EngineError (F × S))
      → (blocks (after_local w n e res).calls ≡ blocks n.calls)
        ⊎ (blocks (after_local w n e res).calls ≡ e.ip ∷ blocks n.calls)
  unfolding after_local
  blocks-after_local n e (err m) = inl refl
  blocks-after_local n e (ok (score, store)) = blocks-enforce_local _ e _

  blocks-report_local :
      (key : Option w.crypto.PrivKey) (n : Node F S) (e : Event) (ip : String)
      → (blocks (report_local w key n e ip).calls ≡ blocks n.calls)
        ⊎ ((exempt w n ip ≡ false)
            × (blocks (report_local w key n e ip).calls ≡ ip ∷ blocks n.calls))
  unfolding report_local score_local own_event
  blocks-report_local key n e ip =
      let own = signed_event w key (own_event w n e ip) in
      let same = signed_event_ip key (own_event w n e ip) in
      let (seen, dedup) =
        mark_seen n.dedup
          (dedup_key w.crypto.format_nano own.reporter_id own.ip own.reason own.timestamp) w.now in
      elim (Bool-cases (exempt w n ip)) [
        | inl there ↦ rw there (inl refl)
        | inr free ↦ rw free (elim (blocks-after_local (record n { dedup = dedup }) own _) [
          | inl q ↦ inl q
          | inr q ↦ inr (refl, q ∙ ap (λ x. x ∷ blocks n.calls) same)
        ])
      ]

  -- An event of the node's own sources blocks at most one IP: its own, normalized, if that IP is
  -- on neither list of exempt IPs. This holds for whatever rules are loaded.
  pub blocks-process_local :
      (key : Option w.crypto.PrivKey) (n : Node F S) (e : Event)
      → let m = process_local w key n e in
        (blocks m.calls ≡ blocks n.calls)
        ⊎ ((ip : String) × (normalize_ip w.netip e.ip (effective_ipv6_prefix n.cfg.ipv6_prefix)
              ≡ some ip)
            × (exempt w n ip ≡ false)
            × (blocks m.calls ≡ ip ∷ blocks n.calls))
  unfolding process_local
  blocks-process_local key n e =
      let n1 = record n { gov = charge n.gov w.now } in
      elim (Option-cases (normalize_ip w.netip e.ip (effective_ipv6_prefix n.cfg.ipv6_prefix))) [
        | inl bad ↦ rw (bad, process_local) (inl refl)
        | inr (ip, good) ↦
            rw (good, process_local)
              (elim (blocks-report_local key n1 e ip) [
                | inl q ↦ inl q
                | inr (free, q) ↦ inr (ip, refl, free, q)
              ])
      ]
