-- ===== src/Ingest/Tail/Tests.antt =====
-- A log that grows, is rotated, has a line that is not ended, or lines that end as on Windows.
use federloom.Prelude.{
  ℕ, ◌≡◌, refl, arith, ◌&&◌, if◌then◌else◌, ◌==◌, String, List, [], ◌∷◌, ◌++◌, Option, none, some,
  map, length,
}
use federloom.Ingest.Honeypot.{CowrieEvent, honeypot_line}
use federloom.Ingest.Tail.{
  Opened, missing, opened, tail_start, Tick, scan, sync, is_replaced, tail_poll, tail,
}
use federloom.Ingest.Tail.Lines.{Line, IsPlain, text_of}
use federloom.Ingest.Tail.Laws.{Logged, ended, missed, appended, rotated, told, reported, tail_all}

-- The empty object is decoded.
abbrev decoded : Line → Option CowrieEvent
decoded (b ∷ c ∷ []) =
    if (b == b'{') && (c == b'}')
    then some (record { event_id = "cowrie.login.failed"; src_ip = "192.0.2.1"; timestamp = "" })
    else none
decoded _ = none

abbrev parse : Line → Option (String × String)
parse line = honeypot_line decoded line

abbrev object : Line
object = b'{' ∷ b'}' ∷ []

abbrev noise : Line
noise = b'x' ∷ []

object-IsPlain : IsPlain object
object-IsPlain = record { no_newline = (refl, (refl, tt)); no_cr = refl; fits = refl }

noise-IsPlain : IsPlain noise
noise-IsPlain = record { no_newline = (refl, tt); no_cr = refl; fits = refl }

abbrev poll_of : Opened → Tick
poll_of file = record { file = file; clock = λ n. n; sends = 5 }

-- Nothing, two lines, the same and one more, then another file.
abbrev first : List Line
first = object ∷ noise ∷ []

abbrev ticks : List Tick
ticks =
    poll_of missing
    ∷ poll_of (opened (record { inode = 7; held = text_of first }))
    ∷ poll_of (opened (record { inode = 7; held = text_of (first ++ object ∷ []) }))
    ∷ poll_of (opened (record { inode = 8; held = text_of (object ∷ []) }))
    ∷ []

ticks-Logged : Logged none [] ticks (first ++ object ∷ object ∷ [])
unfolding is_replaced
ticks-Logged = missed (poll_of missing) refl (
    appended _ 7 first (object ∷ object ∷ []) refl refl (object-IsPlain, (noise-IsPlain, tt))
      (omega arith) refl
      (appended _ 7 (object ∷ []) (object ∷ []) refl refl (object-IsPlain, tt) (omega arith) refl
        (rotated _ 8 (object ∷ []) [] refl refl (object-IsPlain, tt) (omega arith) refl ended)))

tail_all_example :
    map told (tail parse "me" ticks tail_start)
    ≡ reported parse "me" (first ++ object ∷ object ∷ [])
tail_all_example = tail_all parse "me" ticks (first ++ object ∷ object ∷ []) ticks-Logged

-- What two polls of one file send: first it holds the one text, then the other.
abbrev both : List ℕ → List ℕ → ℕ
both before after = length (
    tail parse "me"
      (poll_of (opened (record { inode = 7; held = before }))
        ∷ poll_of (opened (record { inode = 7; held = after }))
        ∷ [])
      tail_start)

-- A line that is polled half-written is lost: its parts are read as two lines.
half_lost : both (b'{' ∷ []) (text_of (object ∷ [])) ≡ 0
unfolding tail tail_poll scan sync is_replaced honeypot_line
half_lost = refl

abbrev windows : List ℕ
windows =
    text_of
      ((object ++ 13 ∷ []) ∷ (object ++ 13 ∷ []) ∷ (object ++ 13 ∷ []) ∷ (object ++ 13 ∷ []) ∷ [])

-- Each carriage return is left out of the offset, so the last of four lines is reported again.
windows_again : both windows windows ≡ 5
unfolding tail tail_poll scan sync is_replaced honeypot_line
windows_again = refl
