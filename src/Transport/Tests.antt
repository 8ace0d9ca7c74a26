-- ===== src/Transport/Tests.antt =====
-- A bridge and a leaf.
use federloom.Prelude.{
  ◌≡◌, refl, arith, ◌&&◌, ◌==◌, eq_iff, Bool, true, false, if◌then◌else◌, str_eq, List, [], ◌∷◌,
  Option, none, some,
}
use federloom.Proto.{Event}
use federloom.Transport.{
  Options, Transport, EventJson, Message, new_transport, subnet_topic, canonical_subnet, subnets_of,
  add_subnets, base_of, all_joined, publish, received,
}
use federloom.Transport.Delivery.{names_subnet, Decodes, received_event}

abbrev bridge : Options
bridge = record { topic = ""; subnet = "default"; bridge_subnets = "mail" ∷ "" ∷ "mail" ∷ [] }

abbrev leaf : Options
leaf = record { topic = ""; subnet = "mail"; bridge_subnets = [] }

abbrev bridge_node : Transport
bridge_node = record { self = "A"; base = "federloom/events/v2"; topics = "" ∷ "mail" ∷ [] }

abbrev leaf_node : Transport
leaf_node = record { self = "B"; base = "federloom/events/v2"; topics = "mail" ∷ [] }

abbrev seen : Event
seen = record {
  ip = "192.0.2.1";
  reason = "ssh-probe";
  timestamp = 9;
  reporter_id = "A";
  signature = [];
  subnet_id = "mail";
  origin_trace = [];
  vouch = none;
  kind = "";
}

abbrev is_nil : {A : Type 0} → List A → Bool
is_nil [] = true
is_nil (x ∷ xs) = false

is_nil_lem : {A : Type 0} (xs : List A) → is_nil xs ≡ true → xs ≡ []
is_nil_lem [] h = refl
is_nil_lem (x ∷ xs) h = cc

abbrev is_none : {A : Type 0} → Option A → Bool
is_none none = true
is_none (some x) = false

is_none_lem : {A : Type 0} (o : Option A) → is_none o ≡ true → o ≡ none
is_none_lem none h = refl
is_none_lem (some x) h = cc

-- Whether an event is `seen` but for its IP.
abbrev is_like : Event → Bool
is_like e =
    (str_eq e.reason "ssh-probe" && (e.timestamp == 9 && str_eq e.reporter_id "A"))
    && ((is_nil e.signature && (str_eq e.subnet_id "mail" && is_nil e.origin_trace))
        && (is_none e.vouch && str_eq e.kind ""))

-- A codec of such events.
abbrev json : EventJson
json = record {
  marshal = λ e. if is_like e then some e.ip else none;
  unmarshal = λ text. some (record seen { ip = text });
}

like : (e : Event) → is_like e ≡ true → record seen { ip = e.ip } ≡ e
like e h = ground (
  arith,
  is_nil_lem e.signature,
  is_nil_lem e.origin_trace,
  is_none_lem e.vouch,
  eq_iff e.reason "ssh-probe",
  eq_iff e.reporter_id "A",
  eq_iff e.subnet_id "mail",
  eq_iff e.kind "",
)

json-Decodes : Decodes json
json-Decodes e text h = ground (arith, like e)

abbrev message : Message
message = record { topic = "federloom/events/v2/mail"; from = "A"; content = "192.0.2.1" }

received_event_example : received json leaf_node leaf_node.topics (message ∷ []) ≡ (
    if names_subnet leaf "mail"
    then record { event = seen; from = "A"; subnet = canonical_subnet "mail" } ∷ []
    else [])
unfolding new_transport subnets_of add_subnets canonical_subnet base_of all_joined publish
    subnet_topic
received_event_example =
    received_event json "A" "B" (λ t. true) (λ t. true) bridge leaf bridge_node leaf_node seen
      "mail" true message json-Decodes refl refl refl refl refl
