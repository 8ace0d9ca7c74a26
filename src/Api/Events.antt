-- ===== src/Api/Events.antt =====
-- internal/api/handler_events.go, the subscriptions of server.go, and pkg/client/client.go. The
-- stream of one subscriber is its lines: `json.Marshal` writes no newline. JSON and HTTP are
-- parameters. The clients of the score and the blocklist get a status and a body.
pub mod Delivered
mod Tests
use Prim.Native.Char.{code}
use Prim.Native.String as Text
use federloom.Prelude.{
  ℕ, zero, suc, Bool, true, false, not, if◌then◌else◌, ltb, ◌==◌, String, str_eq, List, [], ◌∷◌,
  ◌++◌, map, Option, none, some, length, Result, ok, err, Assoc,
}
use federloom.Float.{Float, num, ◌<?◌}
use federloom.Proto.{Time}
use federloom.Identity.{◌<>◌, after_prefix}

pub record EventMsg (F : Type 0) : Type 0 where
  pub ip : String
  pub score : F
  pub reason : String
  pub reporter : String
  pub ts : Time

pub data EventsError : Type 0 where
  not_flushable : EventsError

-- `json.Marshal` and `json.Unmarshal` of a message.
pub record MsgJson (F : Type 0) : Type 0 where
  pub marshal : EventMsg F → Option String
  pub unmarshal : String → Option (EventMsg F)

abbrev pub buffered : ℕ
buffered = 64

module _ {F : Type 0} where
  -- A message is dropped for a subscriber whose channel is full.
  unfoldable pub offer : EventMsg F → List (EventMsg F) → List (EventMsg F)
  offer msg queue = if ltb (length queue) buffered then queue ++ msg ∷ [] else queue

  -- The channels of the subscribers, by a number for each.
  unfoldable pub broadcast :
      String → EventMsg F → List (ℕ × List (EventMsg F)) → List (ℕ × List (EventMsg F))
  unfolding offer
  broadcast addr msg subs = if str_eq addr "" then subs else map (λ s. (s.0, offer msg s.1)) subs

  unfoldable pub subscribe : ℕ → List (ℕ × List (EventMsg F)) → List (ℕ × List (EventMsg F))
  subscribe id subs = (id, []) ∷ subs

  unfoldable pub unsubscribe : ℕ → List (ℕ × List (EventMsg F)) → List (ℕ × List (EventMsg F))
  unsubscribe id [] = []
  unsubscribe id (s ∷ subs) = let rest = unsubscribe id subs in if s.0 == id then rest else s ∷ rest

-- What happens while a stream is open: a message is broadcast, or the handler's loop takes one.
pub data Turn (F : Type 0) : Type 0 where
  sent : EventMsg F → Turn F
  loop : Turn F

module _ {F : Type 0} (json : MsgJson F) where
  abbrev pub event_lines : Option String → List String
  event_lines none = []
  event_lines (some b) = ("data: " <> b) ∷ "" ∷ []

  -- The lines of the loop, until the request's context is done.
  unfoldable pub stream : List (Turn F) → List (EventMsg F) → List String
  unfolding offer
  stream [] queue = []
  stream (sent msg ∷ turns) queue = stream turns (offer msg queue)
  stream (loop ∷ turns) [] = stream turns []
  stream (loop ∷ turns) (msg ∷ queue) = event_lines (json.marshal msg) ++ stream turns queue

  unfoldable pub handle_events : Bool → List (Turn F) → Result EventsError (List String)
  unfolding stream
  handle_events flusher turns =
      if not flusher then err not_flushable else ok ("data: connected" ∷ "" ∷ stream turns [])

-- bufio.MaxScanTokenSize
abbrev pub max_token_size : ℕ
max_token_size = 65536

pub data ClientError : Type 0 where
  not_sent not_found not_decoded : ClientError
  bad_status : ℕ → ClientError

module _ {F : Type 0} (json : MsgJson F) where
  -- The message of a line, if it has one.
  unfoldable pub line_event : String → Option (EventMsg F)
  unfolding after_prefix
  line_event line = elim (after_prefix "data: " line) [
    | none ↦ none
    | some text ↦ if str_eq text "connected" then none else json.unmarshal text
  ]

  -- The messages on the client's channel, which takes `sends` of them before its context is done.
  -- The scanner stops at a line that does not fit in its buffer with its newline.
  unfoldable pub events : ℕ → List String → List (EventMsg F)
  unfolding line_event
  events sends [] = []
  events sends (line ∷ lines) =
      if not (ltb (Text.len line) max_token_size) then [] else elim (line_event line) [
        | none ↦ events sends lines
        | some msg ↦ elim sends [ zero ↦ [] | suc n ↦ msg ∷ events n lines ]
      ]

-- A response is a status and what its body decodes to.
abbrev pub Response : Type 0 → Type 0
Response A = Option (ℕ × Option A)

abbrev decoded : {A : Type 0} → Option A → Result ClientError A
decoded none = err not_decoded
decoded (some a) = ok a

-- `A` is the type of a ScoreResponse.
unfoldable pub score_ip : {A : Type 0} → Response A → Result ClientError A
score_ip none = err not_sent
score_ip (some (status, body)) =
    if status == 404
    then err not_found
    else if not (status == 200)
    then err (bad_status status)
    else decoded body

pub record BlocklistOpts (F : Type 0) : Type 0 where
  pub min_score : F
  pub purpose : String
  pub reasons : List String

-- `show` is `Sprintf` with `%g`, and `join` joins with commas.
unfoldable pub blocklist_query :
    {F : Type 0} ⦃f : Float F⦄
    → (F → String)
    → (List String → String)
    → BlocklistOpts F
    → Assoc String
blocklist_query show join opts =
    (if num 0 <? opts.min_score then ("min_score", show opts.min_score) ∷ [] else [])
    ++ ((if str_eq opts.purpose "" then [] else ("purpose", opts.purpose) ∷ [])
        ++ (if length opts.reasons == 0 then [] else ("reason", join opts.reasons) ∷ []))

unfoldable pub blocklist : {A : Type 0} → Response (List A) → Result ClientError (List A)
blocklist none = err not_sent
blocklist (some (status, body)) =
    if not (status == 200) then err (bad_status status) else decoded body
