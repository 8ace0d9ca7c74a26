-- ===== src/Node/Run.antt =====
-- internal/node/node.go: the life of a node. `Run` reads the events of the node's own sources,
-- those of the swarm and the ticks of its decay one at a time, after the shared votes are
-- published; the resolver reports a federated score. Here each is a step, in any order, and each
-- step has an environment of its own, in which only the library of IP addresses is the same at
-- every step.
pub mod Lists
pub mod Shield
pub mod Exempt
use federloom.Prelude.{ℕ, String, List, Option, ◌≡◌}
use federloom.Float.{Float}
use federloom.Proto.{Event}
use federloom.Store.{ScoreRecord}
use federloom.Netutil.{Netip}
use federloom.Node.{Node, World, ReceivedEvent}
use federloom.Node.Local.{process_local, run_decay}
use federloom.Node.Remote.{process_remote}
use federloom.Node.Dispute.{publish_shared_votes}
use federloom.Node.Federated.{materialise_federated}

module _ {F S : Type 0} ⦃f : Float F⦄ (net : Netip) where
  -- What one turn of a node's loop, or one report of the resolver, does to the node.
  pub data Step : Node F S → Node F S → Type 1 where
    own_event_read :
        {n : Node F S} (w : World F S)
        → w.netip ≡ net
        → (key : Option w.crypto.PrivKey) (e : Event) → Step n (process_local w key n e)
    event_received :
        {n : Node F S} (w : World F S)
        → w.netip ≡ net
        → (re : ReceivedEvent) → Step n (process_remote w n re)
    federated_hit :
        {n : Node F S} (w : World F S)
        → w.netip ≡ net
        → (ip : String) (rec : ScoreRecord F) (subnets : ℕ)
        → Step n (materialise_federated w n ip rec subnets)
    decay_tick :
        {n : Node F S} (w : World F S)
        → w.netip ≡ net
        → (ips : List String) → Step n (run_decay w ips n)
    votes_published :
        {n : Node F S} (w : World F S)
        → w.netip ≡ net
        → (key : Option w.crypto.PrivKey) → Step n (publish_shared_votes w key n)

  -- Any number of steps.
  pub data Reach (n : Node F S) : Node F S → Type 1 where
    here : Reach n n
    after : {m k : Node F S} → Reach n m → Step m k → Reach n k
