-- ===== src/Transport/Reconnect.antt =====
-- internal/transport/reconnect.go and dht.go: connecting to the bootstrap peers, at the start and
-- whenever one is lost. What the host answers is a parameter; what is asked of it is a log, the
-- latest first.
pub mod Laws
mod Tests
use federloom.Prelude.{
  ℕ, Bool, true, false, not, ◌||◌, if◌then◌else◌, leb, String, str_eq, List, [], ◌∷◌,
  contains_string,
}
use federloom.Proto.{Duration}

pub data HostCall : Type 0 where
  connect : String → HostCall
  protect : String → HostCall
  clear_backoff : String → HostCall
  bootstrap_dht : HostCall

-- What the host answers during a round: whether it is connected to a peer when it is asked, and
-- whether dialling a peer succeeds.
pub record Host : Type 0 where
  pub self : String
  pub is_connected : String → Bool
  pub connects : String → Bool

-- The state of a round: the peers known to be down, whether one was reconnected, and the calls.
pub record Round : Type 0 where
  pub down : List String
  pub reconnected : Bool
  pub calls : List HostCall

-- `delete(down, p)`
unfoldable pub up_again : String → List String → List String
up_again p [] = []
up_again p (q ∷ down) = let rest = up_again p down in if str_eq q p then rest else q ∷ rest

module _ (host : Host) where
  unfoldable pub check_peer : String → Round → Round
  unfolding up_again
  check_peer p r =
      if str_eq p host.self
      then r
      else if host.is_connected p
      then record {
        down = up_again p r.down;
        reconnected = r.reconnected || contains_string r.down p;
        calls = protect p ∷ r.calls;
      }
      else if host.connects p
      then record {
        down = up_again p r.down;
        reconnected = true;
        calls = protect p ∷ connect p ∷ clear_backoff p ∷ r.calls;
      }
      else record r {
        down = if contains_string r.down p then r.down else p ∷ r.down;
        calls = connect p ∷ clear_backoff p ∷ r.calls;
      }

  unfoldable pub check_peers : List String → Round → Round
  unfolding check_peer
  check_peers [] r = r
  check_peers (p ∷ peers) r = check_peers peers (check_peer p r)

  -- One tick of the timer: the peers that are down after it, and what was asked of the host.
  unfoldable pub keep_round : List String → List String → List String × List HostCall
  unfolding check_peers
  keep_round peers down =
      let r = check_peers peers (record { down = down; reconnected = false; calls = [] }) in
      (r.down, if r.reconnected then bootstrap_dht ∷ r.calls else r.calls)

  -- `Bootstrap`: whether it returns no error, and what was asked of the host. `refreshed` is what
  -- the refresh of the DHT answers.
  unfoldable pub connect_all : List String → Bool × List HostCall → Bool × List HostCall
  connect_all [] done = done
  connect_all (p ∷ peers) (good, calls) = connect_all peers (
      if str_eq p host.self
      then (good, calls)
      else if host.connects p
      then (good, protect p ∷ connect p ∷ calls)
      else (false, connect p ∷ calls))

  unfoldable pub bootstrap : List String → Bool → Bool × List HostCall
  unfolding connect_all
  bootstrap peers refreshed =
      let done = connect_all peers (true, []) in
      (if refreshed then done.0 else false, bootstrap_dht ∷ done.1)

unfoldable pub reconnect_interval : Duration → Duration
reconnect_interval interval = if leb interval 0 then 60000000000 else interval

-- The peers that are down after some rounds.
unfoldable pub keep_bootstrap_peers : List Host → List String → List String → List String
unfolding keep_round
keep_bootstrap_peers [] peers down = down
keep_bootstrap_peers (host ∷ hosts) peers down =
    keep_bootstrap_peers hosts peers (keep_round host peers down).0
