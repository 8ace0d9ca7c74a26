-- ===== src/Node/Federated.antt =====
-- internal/node/node.go: `materialiseFederated`, the block that a federated score may cause. The
-- count of subnets is one that is not negative.
pub mod Gate
use federloom.Prelude.{ℕ, if◌then◌else◌, ltb, not, ◌||◌, String, ◌∷◌, contains_string}
use federloom.Float.{Float, ◌<?◌}
use federloom.Store.{ScoreRecord}
use federloom.Node.{Node, World, block_for, call, exempt, effective_block_ttl}

module _ {F S : Type 0} ⦃f : Float F⦄ (w : World F S) where
  unfoldable pub materialise_federated : Node F S → String → ScoreRecord F → ℕ → Node F S
  unfolding exempt call effective_block_ttl
  materialise_federated n ip rec subnets =
      let n' = call (block_for ip (effective_block_ttl n.cfg.federation_block_ttl)) n in
      if not n.cfg.federation_materialize
      then n
      else if exempt w n ip
      then n
      else if (rec.score <? n.cfg.federation_block_threshold)
          || ltb subnets n.cfg.federation_block_min_subnets
      then n
      else if contains_string n.disputed ip
      then n
      else if not w.block_for_works
      then n'
      else record n' {
        materialised =
            if contains_string n.materialised ip then n.materialised else ip ∷ n.materialised;
      }
