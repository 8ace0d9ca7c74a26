-- ===== src/Api/Events/Delivered.antt =====
-- A subscriber's client gets what is broadcast.
use Prim.Native.String as Text
use federloom.Prelude.{
  ℕ, zero, suc, ◌+◌, ◌≤◌, ◌≡◌, refl, sym, ap, ◌∙◌, Bool, true, false, ◌&&◌, ltb, arith, String,
  str_eq, List, [], ◌∷◌, ◌++◌, append-nil, All, some, length, ok,
}
use mathlib.Core.Path.{subst}
use federloom.Identity.{◌<>◌, after_prefix}
use federloom.Identity.Keys.{after_prefix-append}
use federloom.Api.Events.{
  EventMsg, MsgJson, buffered, offer, Turn, sent, loop, event_lines, stream, handle_events,
  line_event, events, max_token_size,
}

module _ {F : Type 0} where
  -- The messages that are broadcast, in order.
  abbrev pub broadcasts : List (Turn F) → List (EventMsg F)
  broadcasts [] = []
  broadcasts (sent msg ∷ turns) = msg ∷ broadcasts turns
  broadcasts (loop ∷ turns) = broadcasts turns

  -- The channel after the turns.
  abbrev pub queued : List (Turn F) → List (EventMsg F) → List (EventMsg F)
  queued [] queue = queue
  queued (sent msg ∷ turns) queue = queued turns (offer msg queue)
  queued (loop ∷ turns) [] = queued turns []
  queued (loop ∷ turns) (msg ∷ queue) = queued turns queue

  -- Whether the channel has room for every message.
  abbrev pub is_roomy : List (Turn F) → List (EventMsg F) → Bool
  is_roomy [] queue = true
  is_roomy (sent msg ∷ turns) queue =
      ltb (length queue) buffered && is_roomy turns (offer msg queue)
  is_roomy (loop ∷ turns) [] = is_roomy turns []
  is_roomy (loop ∷ turns) (msg ∷ queue) = is_roomy turns queue

  -- What json.Marshal writes of a message is read back, is not the text of the greeting, and makes
  -- a line that fits in the buffer of the client's scanner.
  pub record IsEncoded (json : MsgJson F) (msg : EventMsg F) : Type 0 where
    pub text : String
    pub written : json.marshal msg ≡ some text
    pub read : json.unmarshal text ≡ some msg
    pub no_greeting : str_eq text "connected" ≡ false
    pub fits : ltb (Text.len ("data: " <> text)) max_token_size ≡ true

  module _ (json : MsgJson F) where
    line_event-text :
        (msg : EventMsg F) (h : IsEncoded json msg)
        → line_event json ("data: " <> h.text) ≡ some msg
    unfolding line_event
    line_event-text msg h =
        rw (line_event, after_prefix-append "data: " h.text, h.no_greeting) h.read

    events-lines :
        (n : ℕ) (msg : EventMsg F) (lines : List String)
        → IsEncoded json msg
        → events json (suc n) (event_lines json (json.marshal msg) ++ lines)
          ≡ msg ∷ events json n lines
    unfolding events line_event after_prefix
    events-lines n msg lines h = rw (h.written, events, h.fits, line_event-text msg h) refl

    snoc_assoc : (xs ys : List (EventMsg F)) (m : EventMsg F) → (xs ++ m ∷ []) ++ ys ≡ xs ++ m ∷ ys
    snoc_assoc [] ys m = refl
    snoc_assoc (x ∷ xs) ys m = ap (λ zs. x ∷ zs) (snoc_assoc xs ys m)

    length_snoc :
        (xs : List (EventMsg F)) (m : EventMsg F) → length (xs ++ m ∷ []) ≡ suc (length xs)
    length_snoc [] m = refl
    length_snoc (x ∷ xs) m = ap suc (length_snoc xs m)

    encoded_snoc :
        (xs : List (EventMsg F)) (m : EventMsg F)
        → All (IsEncoded json) xs
        → IsEncoded json m
        → All (IsEncoded json) (xs ++ m ∷ [])
    encoded_snoc [] m h e = (e, tt)
    encoded_snoc (x ∷ xs) m h e = (h.0, encoded_snoc xs m h.1 e)

    stream_delivers :
        (n : ℕ) (turns : List (Turn F)) (queue : List (EventMsg F))
        → All (IsEncoded json) queue
        → All (IsEncoded json) (broadcasts turns)
        → length queue + length (broadcasts turns) ≤ n
        → is_roomy turns queue ≡ true
        → events json n (stream json turns queue) ++ queued turns queue ≡ queue ++ broadcasts turns
    unfolding stream events
    stream_delivers n [] queue h k enough roomy = sym (append-nil queue)
    stream_delivers n (sent msg ∷ turns) queue h k enough roomy =
        let room : ltb (length queue) buffered ≡ true = ground arith in
        let rest : is_roomy turns (offer msg queue) ≡ true = ground arith in
        let taken : offer msg queue ≡ queue ++ msg ∷ [] = rw (room, offer) refl in
        let fits : length (offer msg queue) + length (broadcasts turns) ≤ n =
          subst (λ q. length q + length (broadcasts turns) ≤ n) (sym taken)
            (omega (arith, length_snoc queue msg, enough)) in
        let encoded : All (IsEncoded json) (offer msg queue) =
          subst (λ q. All (IsEncoded json) q) (sym taken) (encoded_snoc queue msg h k.0) in
        stream_delivers n turns (offer msg queue) encoded k.1 fits rest
        ∙ ap (λ q. q ++ broadcasts turns) taken
        ∙ snoc_assoc queue (broadcasts turns) msg
    stream_delivers n (loop ∷ turns) [] h k enough roomy =
        stream_delivers n turns [] h k enough roomy
    stream_delivers zero (loop ∷ turns) (msg ∷ queue) h k enough roomy = ground arith
    stream_delivers (suc n) (loop ∷ turns) (msg ∷ queue) h k enough roomy =
        ap (λ xs. xs ++ queued turns queue) (events-lines n msg (stream json turns queue) h.0)
        ∙ ap (λ xs. msg ∷ xs) (stream_delivers n turns queue h.1 k (omega arith) roomy)

    -- A subscriber's channel has room for every message when it is broadcast, what json.Marshal
    -- writes of each is read back, is not the text of the greeting and makes a line of less than
    -- 64 KiB, and the client takes as many messages as are broadcast: what it gets, followed by
    -- what the channel still holds, is what was broadcast since it subscribed, in order.
    pub handle_events-delivers :
        (n : ℕ) (turns : List (Turn F)) (lines : List String)
        → handle_events json true turns ≡ ok lines
        → All (IsEncoded json) (broadcasts turns)
        → length (broadcasts turns) ≤ n
        → is_roomy turns [] ≡ true
        → events json n lines ++ queued turns [] ≡ broadcasts turns
    unfolding handle_events events line_event after_prefix
    handle_events-delivers n turns lines served encoded enough roomy =
        let e : "data: connected" ∷ "" ∷ stream json turns [] ≡ lines = cc in
        ap (λ xs. events json n xs ++ queued turns []) (sym e)
        ∙ stream_delivers n turns [] tt encoded (omega arith) roomy
