-- ===== src/Node/Remote/Authentic.antt =====
-- internal/node/node.go: the events of the swarm that a node ignores.
use federloom.Prelude.{
  ◌≡◌, refl, sym, ap, ◌∙◌, ◌⊎◌, inl, inr, Bool, true, false, if◌then◌else◌, not, arith, str_eq,
  eq_iff, false≢true, is_ok,
}
use federloom.Float.{Float}
use federloom.Identity.{verify_event_sig}
use federloom.Trust.{is_blocked}
use federloom.Resources.{charge, shed}
use federloom.Node.{Node, World, ReceivedEvent}
use federloom.Node.Remote.{is_relay_ok, accepted, dispatch, process_remote}

-- Scores, bursts, repeats and federated blocks are as before, and nothing was asked of the sink or
-- of the swarm.
abbrev pub IsIgnored : {F S : Type 0} → Node F S → Node F S → Type 0
IsIgnored n m =
    (m.store ≡ n.store)
    × (m.burst ≡ n.burst)
    × (m.dedup ≡ n.dedup)
    × (m.materialised ≡ n.materialised)
    × (m.disputed ≡ n.disputed)
    × (m.calls ≡ n.calls)

module _ {F S : Type 0} where
  IsIgnored-if :
      (n : Node F S) (c : Bool) (a b : Node F S)
      → (c ≡ true → IsIgnored n a)
      → (c ≡ false → IsIgnored n b)
      → IsIgnored n (if c then a else b)
  IsIgnored-if n true a b x y = x refl
  IsIgnored-if n false a b x y = y refl

module _ {F S : Type 0} ⦃f : Float F⦄ (w : World F S) where
  dispatch_forged :
      (n : Node F S) (re : ReceivedEvent)
      → str_eq re.event.reporter_id re.from ≡ false
      → is_ok (verify_event_sig w.crypto re.event) ≡ false
      → is_relay_ok re ≡ true
      → dispatch w n re (accepted w n re) ≡ n
  unfolding dispatch accepted is_relay_ok
  dispatch_forged n re other forged relayed = ground arith

  -- Ignored: an event without a verified publisher, one whose publisher is not its reporter and
  -- that carries no valid signature of its reporter, and any event whose publisher is blocked.
  -- Whether the reporter of an event that another peer publishes is blocked is not asked.
  pub process_remote_ignores :
      (n : Node F S) (re : ReceivedEvent)
      → (re.from ≡ "")
        ⊎ ((str_eq re.event.reporter_id re.from ≡ false)
            × (is_ok (verify_event_sig w.crypto re.event) ≡ false))
        ⊎ ((is_blocked w.crypto w.trust_files w.now re.from n.trust).1 ≡ true)
      → IsIgnored n (process_remote w n re)
  unfolding process_remote
  process_remote_ignores n re why =
      let (full, gov) = shed (charge n.gov w.now) w.now in
      let (trust, blocked) = is_blocked w.crypto w.trust_files w.now re.from n.trust in
      let n1 = record n { gov = gov } in
      let n2 = record n1 { trust = trust } in
      let d = dispatch w n2 re (accepted w n2 re) in
      let c3 = if blocked then n2 else d in
      let c2 = if not (is_relay_ok re) then n1 else c3 in
      let c1 = if full then n1 else c2 in
      IsIgnored-if n (str_eq re.from "") n c1 (λ h. (refl, refl, refl, refl, refl, refl))
        (λ from.
          IsIgnored-if n full n1 c2 (λ h. (refl, refl, refl, refl, refl, refl))
            (λ _.
              IsIgnored-if n (not (is_relay_ok re)) n1 c3
                (λ h. (refl, refl, refl, refl, refl, refl))
                (λ relay.
                  IsIgnored-if n blocked n2 d (λ h. (refl, refl, refl, refl, refl, refl))
                    (λ free. elim why [
                      | inl nobody ↦ elim (false≢true (sym from ∙ (eq_iff re.from "").1 nobody)) [ ]
                      | inr (inl (other, forged)) ↦
                          let e = dispatch_forged n2 re other forged (ground arith) in
                          (
                            ap (λ x. x.store) e,
                            ap (λ x. x.burst) e,
                            ap (λ x. x.dedup) e,
                            ap (λ x. x.materialised) e,
                            ap (λ x. x.disputed) e,
                            ap (λ x. x.calls) e,
                          )
                      | inr (inr stop) ↦ elim (false≢true (sym free ∙ stop)) [ ]
                    ]))))
