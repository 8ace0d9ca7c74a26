-- ===== src/Node/Dispute/Sovereignty.antt =====
-- internal/node/node.go: what a dispute of the swarm can make a node unblock.
use federloom.Prelude.{
  ℕ, ◌≡◌, ◌≢◌, refl, ◌⊎◌, inl, inr, Bool, true, false, if◌then◌else◌, arith, String, eq_refl, List,
  [], ◌∷◌, Option, none, some, contains_string,
}
use federloom.Float.{Float}
use federloom.Proto.{Event}
use federloom.Store.{ScoreRecord}
use federloom.Node.{Node, World, unblock, call}
use federloom.Node.Dedup.{dedup_key, mark_seen}
use federloom.Node.Dispute.{
  drop_string, take_vouch, maybe_unblock_disputed, dispute_by, apply_vote, process_dispute,
}
use federloom.Node.Federated.{materialise_federated}

contains-drop_string : (s : String) (l : List String) → contains_string (drop_string s l) s ≡ false
unfolding drop_string
contains-drop_string s [] = refl
contains-drop_string s (t ∷ ts) = ground (arith, contains-drop_string s ts)

module _ {F S : Type 0} ⦃f : Float F⦄ (w : World F S) where
  -- Nothing is asked of the sink, or `m` unblocks `ip`, which `n` had materialised.
  abbrev pub IsOwnUnblock : String → Node F S → Node F S → Type 0
  IsOwnUnblock ip n m =
      (m.calls ≡ n.calls)
      ⊎ ((m.calls ≡ unblock ip ∷ n.calls)
          × (contains_string n.materialised ip ≡ true)
          × (contains_string m.materialised ip ≡ false)
          × (contains_string m.disputed ip ≡ true))

  maybe_unblock_own :
      (n : Node F S) (ip : String) (k : ℕ) → IsOwnUnblock ip n (maybe_unblock_disputed w n ip k)
  unfolding maybe_unblock_disputed call
  maybe_unblock_own n ip k = ground (arith, contains-drop_string ip n.materialised, eq_refl ip)

  dispute_by_keeps :
      (n : Node F S) (e : Event)
      → let (m, k) = dispute_by w n e in
        (m.calls ≡ n.calls) × (m.materialised ≡ n.materialised) × (m.cfg ≡ n.cfg)
  unfolding dispute_by
  dispute_by_keeps n e = ground arith

  apply_vote_own :
      (e : Event) (n m : Node F S) (k : Option ℕ)
      → (m.calls ≡ n.calls) × (m.materialised ≡ n.materialised) × (m.cfg ≡ n.cfg)
      → IsOwnUnblock e.ip n (apply_vote w e (m, k))
  unfolding apply_vote
  apply_vote_own e n m none (same, mat, cfg) = inl same
  apply_vote_own e n m (some k) (same, mat, cfg) =
      let own = maybe_unblock_own m e.ip k in ground (arith, own)

  -- A vote of the swarm asks nothing of the sink but, at most, to unblock the IP of the vote, and
  -- only if this node had materialised a block of that IP; then the IP is no longer listed as
  -- materialised, and is listed as disputed.
  pub process_dispute_own : (n : Node F S) (e : Event) → IsOwnUnblock e.ip n (process_dispute w n e)
  unfolding process_dispute
  process_dispute_own n e =
      let key = dedup_key w.crypto.format_nano e.reporter_id e.ip e.reason e.timestamp in
      let (seen, dedup) = mark_seen n.dedup key w.now in
      let n' = record n { dedup = dedup; trust = take_vouch w e.reporter_id e.vouch n.trust } in
      let (m, k) = dispute_by w n' e in
      let voted = apply_vote_own e n m k (dispute_by_keeps n' e) in ground (arith, voted)

  if_same : {A : Type 0} (c : Bool) (a : A) → (if c then a else a) ≡ a
  if_same true a = refl
  if_same false a = refl

  materialise_disputed :
      (u : World F S) (n : Node F S) (ip : String) (rec : ScoreRecord F) (subnets : ℕ)
      → contains_string n.disputed ip ≡ true
      → materialise_federated u n ip rec subnets ≡ n
  unfolding materialise_federated
  materialise_disputed u n ip rec subnets h = simp (h, if_same) refl

  -- If a vote makes the node ask for an unblock, the IP of the vote is not materialised as blocked
  -- by a federated score after it, whatever the score, its subnets and whatever lies outside the
  -- node then.
  pub unblocked_stays :
      (u : World F S) (n : Node F S) (e : Event) (rec : ScoreRecord F) (subnets : ℕ)
      → (process_dispute w n e).calls ≢ n.calls
      → materialise_federated u (process_dispute w n e) e.ip rec subnets ≡ process_dispute w n e
  unblocked_stays u n e rec subnets asked = elim (process_dispute_own n e) [
    | inl same ↦ elim (asked same) [ ]
    | inr (call, mine, gone, disputed) ↦
        materialise_disputed u (process_dispute w n e) e.ip rec subnets disputed
  ]
