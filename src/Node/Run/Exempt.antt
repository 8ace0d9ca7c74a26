-- ===== src/Node/Run/Exempt.antt =====
-- Whatever happens to a node, it never blocks an address of its lists.
use mathlib.Core.Path.{subst}
use federloom.Prelude.{
  ℕ, ◌≡◌, refl, ap, if_elim, ◌∙◌, ◌⊎◌, inl, inr, Bool, false, ◌||◌, not, arith, String, str_eq,
  List, [], ◌∷◌, Option, none, some, Result-cases, All,
}
use federloom.Float.{Float}
use federloom.Proto.{WhitelistEntry}
use federloom.Store.{ScoreRecord}
use federloom.Identity.{sign_event}
use federloom.Netutil.{Netip}
use federloom.Enforce.Neverblock.{NeverBlockList, never_blocked}
use federloom.Store.Whitelist.{whitelisted}
use federloom.Node.{Node, World, publish, call, exempt}
use federloom.Node.Local.{decay_one, run_decay}
use federloom.Node.Local.Blocks.{blocks-process_local}
use federloom.Node.Remote.Backstop.{blocks, remote_block_backed, dispute_by_quiet}
use federloom.Node.Dispute.{
  shared_vote, publish_shared_vote, publish_shared_votes_of, publish_shared_votes,
}
use federloom.Node.Federated.{materialise_federated}
use federloom.Node.Federated.Gate.{materialise_federated_lem}
use federloom.Node.Run.{
  Step, own_event_read, event_received, federated_hit, decay_tick, votes_published, Reach, here,
  after,
}
use federloom.Node.Run.Lists.{
  lists, lists-process_local, lists-process_remote, lists-materialise, lists-run_decay,
  lists-publish_shared_votes,
}

-- Whether an address is on either of the lists that win over every block.
abbrev pub listed : Netip → NeverBlockList × List WhitelistEntry → String → Bool
listed net (neverblock, whitelist) ip =
    never_blocked net neverblock ip || whitelisted net whitelist ip

module _ {F S : Type 0} where
  -- `m` has the lists of `n`, and has blocked nothing more, or one address more that is not listed.
  abbrev IsCareful : Netip → Node F S → Node F S → Type 0
  IsCareful net n m =
      (lists m ≡ lists n)
      × ((blocks m.calls ≡ blocks n.calls)
          ⊎ ((ip : String) × (listed net (lists n) ip ≡ false)
              × (blocks m.calls ≡ ip ∷ blocks n.calls)))

module _ {F S : Type 0} ⦃f : Float F⦄ (w : World F S) where
  free_of_both :
      (net : Netip) (n : Node F S) (ip : String)
      → w.netip ≡ net
      → exempt w n ip ≡ false
      → listed net (lists n) ip ≡ false
  unfolding exempt
  free_of_both net n ip same free = subst (λ t. listed t (lists n) ip ≡ false) same free

  blocks-materialise :
      (n : Node F S) (ip : String) (rec : ScoreRecord F) (subnets : ℕ)
      → (blocks (materialise_federated w n ip rec subnets).calls ≡ blocks n.calls)
        ⊎ ((exempt w n ip ≡ false)
            × (blocks (materialise_federated w n ip rec subnets).calls ≡ ip ∷ blocks n.calls))
  unfolding blocks
  blocks-materialise n ip rec subnets = elim (materialise_federated_lem w n ip rec subnets) [
    | inl same ↦ inl (ap (λ m. blocks m.calls) same)
    | inr (asked, allowed, free, agreed, high, many, kept) ↦ inr (free, ap blocks asked)
  ]

  blocks-decay_one : (n : Node F S) (ip : String) → blocks (decay_one w n ip).calls ≡ blocks n.calls
  unfolding decay_one call blocks
  blocks-decay_one n ip = ground arith

  blocks-run_decay :
      (ips : List String) (n : Node F S) → blocks (run_decay w ips n).calls ≡ blocks n.calls
  unfolding run_decay
  blocks-run_decay [] n = refl
  blocks-run_decay (ip ∷ rest) n = blocks-run_decay rest (decay_one w n ip) ∙ blocks-decay_one n ip

  blocks-publish_shared_vote :
      (key : w.crypto.PrivKey) (n : Node F S) (entry : WhitelistEntry)
      → blocks (publish_shared_vote w key n entry).calls ≡ blocks n.calls
  unfolding publish_shared_vote call blocks
  blocks-publish_shared_vote key n entry =
      elim (Result-cases (sign_event w.crypto (shared_vote w n entry) key)) [
        | inl (e, failed) ↦
            rw (failed, publish_shared_vote)
              (if_elim (λ (m : Node F S). blocks m.calls ≡ blocks n.calls)
                (not (str_eq entry.scope "shared-vote")) n n (λ h. refl) (λ h. refl))
        | inr (v, signed) ↦
            rw (signed, publish_shared_vote)
              (if_elim (λ (m : Node F S). blocks m.calls ≡ blocks n.calls)
                (not (str_eq entry.scope "shared-vote")) n _ (λ h. refl)
                (λ h. dispute_by_quiet w (call (publish v n.cfg.federation_subnet) n) v))
      ]

  blocks-publish_shared_votes_of :
      (key : w.crypto.PrivKey) (entries : List WhitelistEntry) (n : Node F S)
      → blocks (publish_shared_votes_of w key entries n).calls ≡ blocks n.calls
  unfolding publish_shared_votes_of
  blocks-publish_shared_votes_of key [] n = refl
  blocks-publish_shared_votes_of key (entry ∷ rest) n =
      blocks-publish_shared_votes_of key rest (publish_shared_vote w key n entry)
      ∙ blocks-publish_shared_vote key n entry

  blocks-publish_shared_votes :
      (key : Option w.crypto.PrivKey) (n : Node F S)
      → blocks (publish_shared_votes w key n).calls ≡ blocks n.calls
  unfolding publish_shared_votes
  blocks-publish_shared_votes none n = refl
  blocks-publish_shared_votes (some key) n =
      if_elim (λ (m : Node F S). blocks m.calls ≡ blocks n.calls) (not n.has_transport) n _
        (λ h. refl) (λ h. blocks-publish_shared_votes_of key n.whitelist n)

module _ {F S : Type 0} ⦃f : Float F⦄ (net : Netip) where
  one_turn : (n m : Node F S) → Step net n m → IsCareful net n m
  one_turn n _ (own_event_read w same key e) = (
    lists-process_local w key n e,
    elim (blocks-process_local w key n e) [
      | inl q ↦ inl q
      | inr (ip, normal, free, q) ↦ inr (ip, free_of_both w net n ip same free, q)
    ],
  )
  one_turn n _ (event_received w same re) = (
    lists-process_remote w n re,
    elim (remote_block_backed w n re) [
      | inl q ↦ inl q
      | inr (ip, normal, backed) ↦ inr (ip, free_of_both w net n ip same backed.0, backed.1)
    ],
  )
  one_turn n _ (federated_hit w same ip rec subnets) = (
    lists-materialise w n ip rec subnets,
    elim (blocks-materialise w n ip rec subnets) [
      | inl q ↦ inl q
      | inr (free, q) ↦ inr (ip, free_of_both w net n ip same free, q)
    ],
  )
  one_turn n _ (decay_tick w same ips) = (lists-run_decay w ips n, inl (blocks-run_decay w ips n))
  one_turn n _ (votes_published w same key) =
      (lists-publish_shared_votes w key n, inl (blocks-publish_shared_votes w key n))

  -- Whatever a node goes through from when it has made no call yet, in whatever order, with
  -- whatever clocks, files, rules, stores, answers of the sink and messages of the swarm: its lists
  -- are those it started with, and no address that it has asked to be blocked, for good or for a
  -- time, is on one of them.
  pub protected_never_blocked :
      (n m : Node F S)
      → n.calls ≡ []
      → Reach net n m
      → (lists m ≡ lists n) × All (λ ip. listed net (lists n) ip ≡ false) (blocks m.calls)
  unfolding blocks
  protected_never_blocked n _ fresh here = (refl, rw (fresh, blocks) tt)
  protected_never_blocked n k fresh (after {m} reached step) =
      let (kept, safe) = protected_never_blocked n m fresh reached in
      let (still, cases) = one_turn m k step in
      (
        still ∙ kept,
        elim cases [
          | inl q ↦ rw q safe
          | inr (ip, free, q) ↦ rw q (subst (λ l. listed net l ip ≡ false) kept free, safe)
        ],
      )
