-- ===== src/Transport/Reconnect/Laws.antt =====
-- Which peers are down after a round, and when the DHT is refreshed.
use federloom.Prelude.{
  ◌≡◌, refl, ◌∙◌, Bool, true, false, not, ◌||◌, ◌&&◌, if◌then◌else◌, arith, String, str_eq, eq_iff,
  List, [], ◌∷◌, contains_string,
}
use federloom.Transport.Reconnect.{
  HostCall, connect, protect, clear_backoff, bootstrap_dht, Host, Round, up_again, check_peer,
  check_peers, keep_round,
}

contains_string-up_again :
    (p q : String) (down : List String)
    → contains_string (up_again p down) q ≡ (if str_eq p q then false else contains_string down q)
unfolding up_again
contains_string-up_again p q [] = ground arith
contains_string-up_again p q (d ∷ down) =
    ground (arith, contains_string-up_again p q down, eq_iff d p, eq_iff d q, eq_iff p q)

abbrev pub refreshes : List HostCall → Bool
refreshes [] = false
refreshes (bootstrap_dht ∷ calls) = true
refreshes (connect p ∷ calls) = refreshes calls
refreshes (protect p ∷ calls) = refreshes calls
refreshes (clear_backoff p ∷ calls) = refreshes calls

module _ (host : Host) where
  abbrev pub reachable : String → Bool
  reachable p = host.is_connected p || host.connects p

  -- A peer other than the node comes back: it is dialled with success, or it is connected and was
  -- known to be down.
  abbrev pub recovers : List String → String → Bool
  recovers down p =
      not (str_eq p host.self)
      && (if host.is_connected p then contains_string down p else host.connects p)

  abbrev pub any_recovers : List String → List String → Bool
  any_recovers down [] = false
  any_recovers down (p ∷ peers) = recovers down p || any_recovers down peers

  down-check_peer :
      (p q : String) (r : Round)
      → contains_string (check_peer host p r).down q ≡ (
          if str_eq p q && not (str_eq q host.self)
          then not (reachable q)
          else contains_string r.down q)
  unfolding check_peer
  down-check_peer p q r = ground (
    arith,
    contains_string-up_again p q r.down,
    eq_iff p q,
    eq_iff p host.self,
    eq_iff q host.self,
  )

  down-check_peers :
      (peers : List String) (q : String) (r : Round)
      → contains_string (check_peers host peers r).down q ≡ (
          if contains_string peers q && not (str_eq q host.self)
          then not (reachable q)
          else contains_string r.down q)
  unfolding check_peers
  down-check_peers [] q r = refl
  down-check_peers (p ∷ peers) q r =
      down-check_peers peers q (check_peer host p r) ∙ ground (arith, down-check_peer p q r)

  reconnected-check_peer :
      (p : String) (r : Round)
      → (check_peer host p r).reconnected ≡ (r.reconnected || recovers r.down p)
  unfolding check_peer
  reconnected-check_peer p r = ground arith

  -- A peer that is checked does not make another one recover.
  any_recovers-check_peer :
      (p : String) (r : Round) (peers : List String)
      → (recovers r.down p || any_recovers (check_peer host p r).down peers)
        ≡ (recovers r.down p || any_recovers r.down peers)
  any_recovers-check_peer p r [] = refl
  any_recovers-check_peer p r (q ∷ peers) =
      ground (arith, any_recovers-check_peer p r peers, down-check_peer p q r, eq_iff p q)

  reconnected-check_peers :
      (peers : List String) (r : Round)
      → (check_peers host peers r).reconnected ≡ (r.reconnected || any_recovers r.down peers)
  unfolding check_peers
  reconnected-check_peers [] r = ground arith
  reconnected-check_peers (p ∷ peers) r =
      reconnected-check_peers peers (check_peer host p r)
      ∙ ground (arith, reconnected-check_peer p r, any_recovers-check_peer p r peers)

  refreshes-check_peer :
      (p : String) (r : Round) → refreshes (check_peer host p r).calls ≡ refreshes r.calls
  unfolding check_peer
  refreshes-check_peer p r = ground arith

  refreshes-check_peers :
      (peers : List String) (r : Round)
      → refreshes (check_peers host peers r).calls ≡ refreshes r.calls
  unfolding check_peers
  refreshes-check_peers [] r = refl
  refreshes-check_peers (p ∷ peers) r =
      refreshes-check_peers peers (check_peer host p r) ∙ refreshes-check_peer p r

  -- After a round, whichever peers were known to be down before it: a bootstrap peer other than the
  -- node is known to be down exactly if the node is neither connected to it nor can dial it; and
  -- the round has refreshed the DHT exactly if such a peer was dialled with success, or one that
  -- was known to be down was found connected.
  pub keep_round_lem :
      (peers down : List String) (q : String)
      → (contains_string (keep_round host peers down).0 q ≡ (
          if contains_string peers q && not (str_eq q host.self)
          then not (reachable q)
          else contains_string down q))
        × (refreshes (keep_round host peers down).1 ≡ any_recovers down peers)
  unfolding keep_round
  keep_round_lem peers down q =
      let r : Round = record { down = down; reconnected = false; calls = [] } in
      (
        down-check_peers peers q r,
        ground (arith, reconnected-check_peers peers r, refreshes-check_peers peers r),
      )

recovers-any :
    (host : Host) (down : List String) (q : String) (peers : List String)
    → contains_string peers q ≡ true
    → recovers host down q ≡ true
    → any_recovers host down peers ≡ true
recovers-any host down q [] h r = cc
recovers-any host down q (p ∷ peers) h r =
    ground (arith, recovers-any host down q peers, eq_iff p q)

-- A hub is lost and comes back: when a bootstrap peer other than the node can be neither found
-- connected nor dialled in one round, and can be in the next, it is no longer known to be down
-- after that round, and that round refreshes the DHT; whichever peers were known to be down before,
-- and also when the connection comes from the other side.
pub outage_ends :
    (before after : Host) (peers down : List String) (q : String)
    → contains_string peers q ≡ true
    → str_eq q before.self ≡ false
    → str_eq q after.self ≡ false
    → reachable before q ≡ false
    → reachable after q ≡ true
    → let lost = (keep_round before peers down).0 in
      (contains_string (keep_round after peers lost).0 q ≡ false)
      × (refreshes (keep_round after peers lost).1 ≡ true)
outage_ends before after peers down q listed other other' lost back =
    let first = keep_round_lem before peers down q in
    let second = keep_round_lem after peers (keep_round before peers down).0 q in
    (
      ground (arith, second.0),
      second.1
          ∙ recovers-any after (keep_round before peers down).0 q peers listed
              (ground (arith, first.0)),
    )
