-- ===== src/Lib.antt =====
-- Federloom: nodes that score IP addresses by what they and the peers that they trust observe, and
-- block what the operator's rules say. This library models the decision core of the daemon.
--
-- How the parts work together. An event of this node's own sources (internal/node, processLocal) or
-- of the swarm (ProcessRemote) is normalized to a key (internal/netutil), checked against the
-- networks that are never blocked (internal/enforce/neverblock.go) and the whitelist
-- (internal/store/whitelist.go), authenticated (internal/identity), weighed by the trust of its
-- reporter (internal/trust), and folded into the record of its IP (internal/reputation), which a
-- store behind a bloom filter keeps (internal/store). The rules (internal/rules) then decide on an
-- action. The budget of a node (internal/resources) makes it drop remote events. Scores of other
-- nodes are recomputed from their evidence (internal/repquery) and may be materialised as blocks.
--
-- Files:
--   Prelude.antt and its children: tests, lists, maps, results, and the eviction of bounded caches.
--   Float.antt: float64 as a parameter with the facts of IEEE 754 that the code relies on.
--   Proto.antt: pkg/proto/messages.go.
--   Reputation.antt, Reputation/: internal/reputation. Engine models Engine over any store.
--   Store.antt, Store/Badger.antt, Store/Whitelist.antt: internal/store.
--   Rules.antt, Rules/: internal/rules/rule.go and burst.go.
--   Resources.antt, Resources/: internal/resources/governor.go.
--   Identity.antt: internal/identity/cert.go and sign.go, and the text of a key of person.go.
--   Trust.antt: internal/trust/store.go and anchors.go.
--   Netutil.antt, Netutil/: internal/netutil/netutil.go.
--   Enforce.antt, Enforce/: internal/enforce, the networks that are never blocked and the backends
--     Ipset, Nftables and Crowdsec.
--   Ingest.antt, Ingest/: internal/ingest; Tail has the loop that spamtrap.go, honeypot.go and
--     opencanary.go share.
--   Repquery.antt: internal/repquery/recompute.go, aggregate.go, responder.go and resolver.go;
--     Repquery/Querier.antt: querier.go.
--   Api.antt, Api/: internal/api/handler_blocklist.go, handler_score.go and taxonomy.go;
--     Api/Events.antt: handler_events.go, the subscribers of server.go, and pkg/client.
--   Dnsbl.antt, Dnsbl/: internal/dnsbl/server.go.
--   Ctl.antt, Ctl/: cmd/federloomctl/trust.go, the commands that edit what the trust store reads,
--     federation.go, whitelist.go, and identity.go with IssueCert of internal/identity.
--   Federation.antt: internal/federation/invitation.go.
--   Transport.antt, Transport/: internal/transport/gossip.go, options.go, dht.go and reconnect.go.
--   Node.antt, Node/: internal/node/node.go and dedup.go, with the settings of internal/config that
--     are read there. Local, Remote, Dispute and Federated have the handlers; Run has the steps that
--     a node's loop and its resolver can make, in any order; Start has New, which makes the node.
--   A Tests file in a folder has examples of what stands beside it.
--
-- State. Each stateful component is a record, and each operation a function from the state before to
-- the result and the state after; errors are values. A node's calls of its firewall and of its
-- transport are values in a log, the latest first. Times and durations are numbers of nanoseconds.
-- A handler reads the clock once; the source reads it several times, moments apart. What libraries
-- do (the database, the bloom filter, JSON, YAML, signatures, IP addresses as text, floating point)
-- is a parameter, with its documented behaviour where a theorem needs it. No definition needs fuel:
-- every loop runs over a list or counts down a number, and at most 64 votes are folded from evidence.
--
-- The commands that a firewall backend runs are a log too, and what a command, an HTTP request, a
-- stream or a save answers is an argument, so a theorem holds whatever it is.
--
-- Not modelled: libp2p's hosts, connections and discovery (internal/discovery), the HTTP servers,
-- metrics, generating keys, and the command lines but for `federloomctl trust`, `federation`,
-- `whitelist`, `identity init` and `peer-cert`, which mostly carry values to and from what is
-- modelled; locks, since each operation runs under its component's lock, and the two queries of one
-- address that the querier's singleflight joins.
pub mod Api
pub mod Ctl
pub mod Dnsbl
pub mod Enforce
pub mod Federation
pub mod Float
pub mod Identity
pub mod Ingest
pub mod Netutil
pub mod Node
pub mod Prelude
pub mod Proto
pub mod Repquery
pub mod Reputation
pub mod Resources
pub mod Rules
pub mod Store
pub mod Transport
pub mod Trust
