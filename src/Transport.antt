-- ===== src/Transport.antt =====
-- internal/transport/gossip.go and options.go: the subnets that a node joins, and what it publishes
-- and receives on their topics. libp2p's host and its gossipsub are parameters: whether joining a
-- topic succeeds is an answer, and a message arrives with its verified publisher.
pub mod Delivery
pub mod Reconnect
mod Tests
use Prim.Native.String as Text
use federloom.Prelude.{
  Bool, true, false, not, ◌||◌, if◌then◌else◌, String, str_eq, List, [], ◌∷◌, ◌++◌, Option, none,
  some, Result, ok, err, contains_string,
}
use federloom.Proto.{Event}
use federloom.Node.{ReceivedEvent}

pub record Options : Type 0 where
  pub topic : String
  pub subnet : String
  pub bridge_subnets : List String

abbrev pub default_topic : String
default_topic = "federloom/events/v2"

-- `SubnetTopic`
unfoldable pub subnet_topic : String → String → String
subnet_topic base subnet =
    if str_eq subnet "" || str_eq subnet "default"
    then base
    else Text.◌++◌ base (Text.◌++◌ "/" subnet)

unfoldable pub canonical_subnet : String → String
canonical_subnet s = if str_eq s "default" then "" else s

-- The bridge subnets after those that are joined already.
unfoldable pub add_subnets : List String → List String → List String
unfolding canonical_subnet
add_subnets subnets [] = subnets
add_subnets subnets (s ∷ rest) =
    let cs = canonical_subnet s in
    add_subnets (if contains_string subnets cs then subnets else subnets ++ cs ∷ []) rest

unfoldable pub subnets_of : Options → List String
unfolding add_subnets canonical_subnet
subnets_of opts = add_subnets (canonical_subnet opts.subnet ∷ []) opts.bridge_subnets

unfoldable pub base_of : Options → String
base_of opts = if str_eq opts.topic "" then default_topic else opts.topic

-- A node: its peer ID, the base topic and the subnets that it is joined to.
pub record Transport : Type 0 where
  pub self : String
  pub base : String
  pub topics : List String

pub data TransportError : Type 0 where
  no_host not_joined not_marshalled not_published : TransportError

-- Whether all topics can be joined and subscribed to.
unfoldable pub all_joined : (String → Bool) → String → List String → Bool
unfolding subnet_topic
all_joined joins base [] = true
all_joined joins base (s ∷ subnets) =
    let rest = all_joined joins base subnets in if joins (subnet_topic base s) then rest else false

-- `host` is the peer ID of the host that libp2p creates, with its DHT and gossipsub.
unfoldable pub new_transport :
    Option String → (String → Bool) → Options → Result TransportError Transport
unfolding all_joined subnets_of base_of
new_transport none joins opts = err no_host
new_transport (some self) joins opts =
    let base = base_of opts in
    let subnets = subnets_of opts in
    if all_joined joins base subnets
    then ok (record { self = self; base = base; topics = subnets })
    else err not_joined

-- The JSON codec of events.
pub record EventJson : Type 0 where
  pub marshal : Event → Option String
  pub unmarshal : String → Option Event

-- What gossipsub carries: the topic, the verified publisher and the bytes.
pub record Message : Type 0 where
  pub topic : String
  pub from : String
  pub content : String

module _ (json : EventJson) where
  -- `accepted` is whether gossipsub takes the message.
  unfoldable pub publish : Transport → Event → String → Bool → Result TransportError Message
  unfolding canonical_subnet subnet_topic
  publish n e subnet accepted =
      if not (contains_string n.topics (canonical_subnet subnet))
      then err not_joined
      else elim (json.marshal e) [
        | none ↦ err not_marshalled
        | some text ↦
            if accepted
            then ok (record {
              topic = subnet_topic n.base (canonical_subnet subnet);
              from = n.self;
              content = text;
            })
            else err not_published
      ]

  -- The events that the loop of one topic delivers, as long as the messages come.
  unfoldable pub read_loop : Transport → String → List Message → List ReceivedEvent
  read_loop n subnet [] = []
  read_loop n subnet (msg ∷ messages) =
      let rest = read_loop n subnet messages in
      if str_eq msg.from n.self then rest else elim (json.unmarshal msg.content) [
        | none ↦ rest
        | some e ↦ record { event = e; from = msg.from; subnet = subnet } ∷ rest
      ]

-- The messages of a topic: gossipsub hands a subscription those alone.
unfoldable pub on_topic : String → List Message → List Message
on_topic topic [] = []
on_topic topic (msg ∷ messages) =
    let rest = on_topic topic messages in if str_eq msg.topic topic then msg ∷ rest else rest

-- The events that the loops of all topics deliver, those of one topic after those of another.
unfoldable pub received : EventJson → Transport → List String → List Message → List ReceivedEvent
unfolding read_loop on_topic subnet_topic
received json n [] messages = []
received json n (s ∷ subnets) messages =
    read_loop json n s (on_topic (subnet_topic n.base s) messages)
    ++ received json n subnets messages
