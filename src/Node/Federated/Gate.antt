-- ===== src/Node/Federated/Gate.antt =====
-- internal/node/node.go: when a federated score becomes a block.
use federloom.Prelude.{
  ℕ, ◌≤◌, ◌≡◌, ◌⊎◌, true, false, if◌then◌else◌, arith, ltb-false→le, String, ◌∷◌, contains_string,
  eq_refl,
}
use federloom.Float.{Float, ◌<?◌}
use federloom.Store.{ScoreRecord}
use federloom.Node.{Node, World, block_for, call, exempt, effective_block_ttl}
use federloom.Node.Federated.{materialise_federated}

module _ {F S : Type 0} ⦃f : Float F⦄ (w : World F S) where
  -- `m` asks for one timed block more than `n`, of an IP that passes every guard.
  abbrev pub IsTimedBlock : Node F S → String → ScoreRecord F → ℕ → Node F S → Type 0
  IsTimedBlock n ip rec subnets m =
      (m.calls ≡ block_for ip (effective_block_ttl n.cfg.federation_block_ttl) ∷ n.calls)
      × (n.cfg.federation_materialize ≡ true)
      × (exempt w n ip ≡ false)
      × (contains_string n.disputed ip ≡ false)
      × ((rec.score <? n.cfg.federation_block_threshold) ≡ false)
      × (n.cfg.federation_block_min_subnets ≤ subnets)
      × (contains_string m.materialised ip
          ≡ (if w.block_for_works then true else contains_string n.materialised ip))

  -- A federated score either changes nothing, or asks for one timed block of its IP; that happens
  -- only if the operator allows it, the IP is on neither list of exempt IPs and not disputed, and
  -- the score and the number of subnets reach their floors; then the IP is listed as materialised
  -- exactly if the sink took the block or it was listed before.
  pub materialise_federated_lem :
      (n : Node F S) (ip : String) (rec : ScoreRecord F) (subnets : ℕ)
      → (materialise_federated w n ip rec subnets ≡ n)
        ⊎ IsTimedBlock n ip rec subnets (materialise_federated w n ip rec subnets)
  unfolding materialise_federated call
  materialise_federated_lem n ip rec subnets =
      ground (arith, eq_refl ip, ltb-false→le subnets n.cfg.federation_block_min_subnets)
