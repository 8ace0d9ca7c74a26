-- ===== src/Api/Events/Tests.antt =====
-- A client that is sent two messages and stopped with the second one in its channel, where a
-- message is written as its address.
use Prim.Native.String as Text
use federloom.Prelude.{
  ◌≡◌, refl, true, false, ltb, arith, String, str_eq, List, [], ◌∷◌, ◌++◌, some,
}
use federloom.Identity.{◌<>◌}
use federloom.Api.Events.{
  max_token_size, EventMsg, MsgJson, Turn, sent, loop, handle_events, stream, offer, event_lines,
  events,
}
use federloom.Api.Events.Delivered.{IsEncoded, handle_events-delivers}

abbrev msg_of : String → EventMsg String
msg_of ip = record { ip = ip; score = ip; reason = ip; reporter = ip; ts = 5 }

abbrev json : MsgJson String
json = record { marshal = λ msg. some msg.ip; unmarshal = λ text. some (msg_of text) }

abbrev encoded :
    (ip : String)
    → str_eq ip "connected" ≡ false
    → ltb (Text.len ("data: " <> ip)) max_token_size ≡ true
    → IsEncoded json (msg_of ip)
encoded ip other short = record {
  text = ip;
  written = refl;
  read = refl;
  no_greeting = other;
  fits = short;
}

abbrev turns : List (Turn String)
turns = loop ∷ sent (msg_of "192.0.2.1") ∷ loop ∷ sent (msg_of "192.0.2.2") ∷ []

handle_events-delivers_example :
    events json 2 ("data: connected" ∷ "" ∷ event_lines json (some "192.0.2.1") ++ [])
      ++ msg_of "192.0.2.2" ∷ []
    ≡ msg_of "192.0.2.1" ∷ msg_of "192.0.2.2" ∷ []
unfolding handle_events stream offer
handle_events-delivers_example =
    handle_events-delivers json 2 turns
      ("data: connected" ∷ "" ∷ event_lines json (some "192.0.2.1") ++ []) refl
      (encoded "192.0.2.1" refl refl, (encoded "192.0.2.2" refl refl, tt)) (omega arith) refl
