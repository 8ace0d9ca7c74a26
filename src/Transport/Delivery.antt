-- ===== src/Transport/Delivery.antt =====
-- What one node publishes, another receives from the same subnet alone.
use Prim.Native.String as Text
use text.Mathlib.TextLemmas as TextLemmas
use federloom.Prelude.{
  ◌≡◌, refl, sym, ap, ◌∙◌, ◌≢◌, Bool, true, false, ◌||◌, if◌then◌else◌, Bool-cases, inl, inr,
  false≢true, arith, String, str_eq, eq_iff, eq_refl, List, [], ◌∷◌, ◌++◌, some, map, ok, is_ok,
  contains_string, contains_string-append, IsDistinct, IsDistinct-append, All, All-append,
}
use federloom.Proto.{Event}
use federloom.Transport.{
  Options, Transport, EventJson, Message, subnet_topic, canonical_subnet, add_subnets, subnets_of,
  base_of, new_transport, publish, read_loop, on_topic, received,
}

-- A subnet's name that stands for itself.
abbrev pub IsCanonical : String → Type 0
IsCanonical s = str_eq s "default" ≡ false

canonical_subnet-IsCanonical : (s : String) → IsCanonical (canonical_subnet s)
unfolding canonical_subnet
canonical_subnet-IsCanonical s = elim (Bool-cases (str_eq s "default")) [
  | inl same ↦ rw (same, canonical_subnet) refl
  | inr other ↦ rw (other, canonical_subnet) other
]

slash : (s : String) → Text.◌++◌ "/" s ≢ ""
slash s e = let (bar, _) = TextLemmas.append-eq-nil_iff.0 e in false≢true ((eq_iff "/" "").1 bar)

base-ne-topic : (base s : String) → base ≢ Text.◌++◌ base (Text.◌++◌ "/" s)
base-ne-topic base s e =
    slash s (
      sym
        (TextLemmas.append_cancel_left base "" (Text.◌++◌ "/" s) (TextLemmas.append-nil base ∙ e)))

topic-injective :
    (base x y : String)
    → Text.◌++◌ base (Text.◌++◌ "/" x) ≡ Text.◌++◌ base (Text.◌++◌ "/" y)
    → x ≡ y
topic-injective base x y e =
    TextLemmas.append_cancel_left "/" x y (TextLemmas.append_cancel_left base _ _ e)

-- Two subnets share a topic only if they are the same.
same_topic :
    (base x y : String)
    → IsCanonical x
    → IsCanonical y
    → str_eq (subnet_topic base x) (subnet_topic base y) ≡ str_eq x y
unfolding subnet_topic
same_topic base x y hx hy = ground (
  arith,
  eq_iff x "",
  eq_iff y "",
  eq_iff x y,
  eq_refl base,
  base-ne-topic base x,
  base-ne-topic base y,
  topic-injective base x y,
  eq_iff base (Text.◌++◌ base (Text.◌++◌ "/" y)),
  eq_iff (Text.◌++◌ base (Text.◌++◌ "/" x)) base,
  eq_iff (Text.◌++◌ base (Text.◌++◌ "/" x)) (Text.◌++◌ base (Text.◌++◌ "/" y)),
)

contains-add_subnets :
    (subnets rest : List String) (q : String)
    → contains_string (add_subnets subnets rest) q
      ≡ (contains_string subnets q || contains_string (map canonical_subnet rest) q)
unfolding add_subnets
contains-add_subnets subnets [] q = ground arith
contains-add_subnets subnets (s ∷ rest) q =
    let cs = canonical_subnet s in
    contains-add_subnets (if contains_string subnets cs then subnets else subnets ++ cs ∷ []) rest q
    ∙ ground (arith, contains_string-append subnets (cs ∷ []) q, eq_iff cs q)

-- The subnets of a node are distinct and stand for themselves.
record Fits (subnets : List String) : Type 0 where
  distinct : IsDistinct subnets
  canonical : All IsCanonical subnets

add_subnets-Fits : (subnets rest : List String) → Fits subnets → Fits (add_subnets subnets rest)
unfolding add_subnets
add_subnets-Fits subnets [] h = h
add_subnets-Fits subnets (s ∷ rest) h =
    let cs = canonical_subnet s in
    elim (Bool-cases (contains_string subnets cs)) [
      | inl there ↦ rw there (add_subnets-Fits subnets rest h)
      | inr new ↦ rw new (
          add_subnets-Fits (subnets ++ cs ∷ []) rest (record {
            distinct = IsDistinct-append subnets cs h.distinct new;
            canonical =
                All-append IsCanonical subnets (cs ∷ []) h.canonical
                  (canonical_subnet-IsCanonical s, tt);
          }))
    ]

-- Whether a node's options name a subnet, as its home or to bridge.
abbrev pub names_subnet : Options → String → Bool
names_subnet opts s =
    contains_string (map canonical_subnet (opts.subnet ∷ opts.bridge_subnets)) (canonical_subnet s)

contains-subnets_of :
    (opts : Options) (s : String)
    → contains_string (subnets_of opts) (canonical_subnet s) ≡ names_subnet opts s
unfolding subnets_of
contains-subnets_of opts s =
    contains-add_subnets (canonical_subnet opts.subnet ∷ []) opts.bridge_subnets
      (canonical_subnet s)
    ∙ ground arith

subnets_of-Fits : (opts : Options) → Fits (subnets_of opts)
unfolding subnets_of
subnets_of-Fits opts =
    add_subnets-Fits (canonical_subnet opts.subnet ∷ []) opts.bridge_subnets
      (record { distinct = (refl, tt); canonical = (canonical_subnet-IsCanonical opts.subnet, tt) })

-- What a codec makes of an event it makes the event of.
abbrev pub Decodes : EventJson → Type 0
Decodes json =
    (e : Event) (text : String) → json.marshal e ≡ some text → json.unmarshal text ≡ some e

module _ (json : EventJson) where
  -- One message that another node published.
  received_none :
      (n : Transport) (s : String) (subnets : List String) (msg : Message)
      → msg.topic ≡ subnet_topic n.base s
      → IsCanonical s
      → All IsCanonical subnets
      → contains_string subnets s ≡ false
      → received json n subnets (msg ∷ []) ≡ []
  unfolding received on_topic read_loop
  received_none n s [] msg on hs h not_there = refl
  received_none n s (t ∷ subnets) msg on hs h not_there =
      let ih = received_none n s subnets msg on hs h.1 (ground (arith, not_there)) in
      let other : str_eq msg.topic (subnet_topic n.base t) ≡ false =
        rw on (same_topic n.base s t hs h.0 ∙ ground (arith, not_there, eq_iff s t, eq_iff t s)) in
      rw other ih

  received_once :
      (n : Transport) (s : String) (subnets : List String) (msg : Message) (e : Event)
      → msg.topic ≡ subnet_topic n.base s
      → str_eq msg.from n.self ≡ false
      → json.unmarshal msg.content ≡ some e
      → IsCanonical s
      → Fits subnets
      → received json n subnets (msg ∷ []) ≡ (
          if contains_string subnets s
          then record { event = e; from = msg.from; subnet = s } ∷ []
          else [])
  unfolding received on_topic read_loop
  received_once n s [] msg e on foreign reads hs h = refl
  received_once n s (t ∷ subnets) msg e on foreign reads hs h =
      let same : str_eq msg.topic (subnet_topic n.base t) ≡ str_eq s t =
        rw on (same_topic n.base s t hs h.canonical.0) in
      elim (Bool-cases (str_eq s t)) [
        | inl here ↦
            let e' : s ≡ t = (eq_iff s t).0 here in
            let none_else : received json n subnets (msg ∷ []) ≡ [] =
              received_none n s subnets msg on hs h.canonical.1 (rw e' h.distinct.0) in
            rw (same, here, read_loop, foreign, reads, none_else, e', eq_refl t) refl
        | inr elsewhere ↦
            let ih =
              received_once n s subnets msg e on foreign reads hs
                (record { distinct = h.distinct.1; canonical = h.canonical.1 }) in
            rw (same, elsewhere) (ih ∙ ground (arith, elsewhere, eq_iff s t, eq_iff t s))
      ]

new_transport_lem :
    (self : String) (joins : String → Bool) (opts : Options) (n : Transport)
    → new_transport (some self) joins opts ≡ ok n
    → (n.self ≡ self) × (n.base ≡ base_of opts) × (n.topics ≡ subnets_of opts)
unfolding new_transport
new_transport_lem self joins opts n h = ground arith

-- What a message carries that was published.
record Carries (json : EventJson) (n : Transport) (e : Event) (s : String) (msg : Message)
    : Type 0 where
  topic : msg.topic ≡ subnet_topic n.base (canonical_subnet s)
  from : msg.from ≡ n.self
  marshalled : json.marshal e ≡ some msg.content

publish-Carries :
    (json : EventJson) (n : Transport) (e : Event) (s : String) (accepted : Bool) (msg : Message)
    → publish json n e s accepted ≡ ok msg
    → Carries json n e s msg
unfolding publish
publish-Carries json n e s accepted msg h = record {
  topic = ground arith;
  from = ground arith;
  marshalled = ground arith;
}

-- Two nodes with different peer IDs were made with the same base topic, and the one publishes an
-- event for a subnet: the other delivers it exactly once, with the publisher's ID and the
-- subnet's canonical name, if its options name that subnet, as its home or to bridge, and not at
-- all if they do not.
pub received_event :
    (json : EventJson) (self_a self_b : String) (joins_a joins_b : String → Bool)
    (opts_a opts_b : Options) (a b : Transport) (e : Event) (s : String) (accepted : Bool)
    (msg : Message)
    → Decodes json
    → new_transport (some self_a) joins_a opts_a ≡ ok a
    → new_transport (some self_b) joins_b opts_b ≡ ok b
    → str_eq self_a self_b ≡ false
    → base_of opts_a ≡ base_of opts_b
    → publish json a e s accepted ≡ ok msg
    → received json b b.topics (msg ∷ []) ≡ (
        if names_subnet opts_b s
        then record { event = e; from = self_a; subnet = canonical_subnet s } ∷ []
        else [])
unfolding received
received_event json self_a self_b joins_a joins_b opts_a opts_b a b e s accepted msg codec made_a
      made_b other same sent =
    let (id_a, base_a, _) = new_transport_lem self_a joins_a opts_a a made_a in
    let (id_b, base_b, topics_b) = new_transport_lem self_b joins_b opts_b b made_b in
    let c = publish-Carries json a e s accepted msg sent in
    let base_eq : a.base ≡ b.base = base_a ∙ same ∙ sym base_b in
    rw (topics_b, ← contains-subnets_of opts_b s, ← (c.from ∙ id_a))
      (received_once json b (canonical_subnet s) (subnets_of opts_b) msg e
        (c.topic ∙ ap (λ x. subnet_topic x (canonical_subnet s)) base_eq)
        (ap (λ x. str_eq x b.self) (c.from ∙ id_a) ∙ ap (str_eq self_a) id_b ∙ other)
        (codec e msg.content c.marshalled) (canonical_subnet-IsCanonical s)
        (subnets_of-Fits opts_b))

-- A node is joined to every subnet that its options name, under whatever alias it publishes there:
-- no publication there fails for want of a topic; and elsewhere every publication does.
pub publish_joined :
    (json : EventJson) (self : String) (joins : String → Bool) (opts : Options) (n : Transport)
    (e : Event) (s text : String)
    → new_transport (some self) joins opts ≡ ok n
    → json.marshal e ≡ some text
    → (is_ok (publish json n e s true) ≡ names_subnet opts s)
unfolding publish
publish_joined json self joins opts n e s text made marshalled =
    let (_, _, topics) = new_transport_lem self joins opts n made in
    rw (topics, publish) (ground (arith, contains-subnets_of opts s))
