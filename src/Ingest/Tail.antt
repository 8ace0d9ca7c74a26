-- ===== src/Ingest/Tail.antt =====
-- internal/ingest/tail.go, and the loop that spamtrap.go, honeypot.go and opencanary.go have in
-- common: a log file is polled, and what was appended to it since the last poll is read line by
-- line. Bytes are numbers. bufio.Scanner with its `ScanLines` and a buffer of 1 MiB is modelled by
-- the lines that it returns.
pub mod Lines
pub mod Laws
mod Tests
use federloom.Prelude.{
  ℕ, zero, suc, ◌+◌, Bool, true, false, ◌||◌, not, if◌then◌else◌, ltb, leb, ◌==◌, String, List, [],
  ◌∷◌, ◌++◌, Option, none, some, length, drop,
}
use federloom.Proto.{Time, Duration, Event}
use federloom.Ingest.{event_of}
use federloom.Ingest.Tail.Lines.{Line, scanned}

-- A file as `Stat` and reading give it: which file it is, for `os.SameFile`, and what it holds.
pub record LogFile : Type 0 where
  pub inode : ℕ
  pub held : List ℕ

-- What a poll finds: no file that opens, one that it cannot seek in, or one that it reads to its
-- end.
pub data Opened : Type 0 where
  missing : Opened
  no_seek : LogFile → Opened
  opened : LogFile → Opened

pub record TailPos : Type 0 where
  pub offset : ℕ
  pub last_size : ℕ
  pub last_file : Option ℕ

abbrev pub tail_start : TailPos
tail_start = record { offset = 0; last_size = 0; last_file = none }

unfoldable pub is_replaced : Option ℕ → ℕ → Bool
is_replaced none inode = false
is_replaced (some last) inode = not (last == inode)

unfoldable pub sync : TailPos → LogFile → TailPos
unfolding is_replaced
sync p fi = record {
  offset =
      if ltb (length fi.held) p.last_size || is_replaced p.last_file fi.inode then 0 else p.offset;
  last_size = length fi.held;
  last_file = some fi.inode;
}

-- What a poll sends, the offset it leaves, and whether it ran to its end.
pub record Scanned : Type 0 where
  pub events : List Event
  pub offset : ℕ
  pub done : Bool

-- A tick of the poll's timer: the file, the time at which the line that ends at an offset is read,
-- and the number of events that the channel takes before the context is done.
pub record Tick : Type 0 where
  pub file : Opened
  pub clock : ℕ → Time
  pub sends : ℕ

-- `parse` gives the address and the reason of a line, `none` for one that is skipped.
module _ (parse : Line → Option (String × String)) (self_id : String) where
  unfoldable pub scan : (ℕ → Time) → ℕ → ℕ → List Line → Scanned
  unfolding event_of
  scan clock offset sends [] = record { events = []; offset = offset; done = true }
  scan clock offset sends (raw ∷ lines) =
      let after = offset + length raw + 1 in
      elim (parse raw) [
        | none ↦ scan clock after sends lines
        | some (ip, reason) ↦ elim sends [
          | zero ↦ record { events = []; offset = after; done = false }
          | suc n ↦
              let rest = scan clock after n lines in
              record rest { events = event_of ip reason (clock after) self_id ∷ rest.events }
        ]
      ]

  unfoldable pub tail_poll : TailPos → LogFile → (ℕ → Time) → ℕ → Scanned
  unfolding sync scan
  tail_poll p file clock sends =
      let q = sync p file in scan clock q.offset sends (scanned (drop q.offset file.held))

  -- The events of the ticks that happen.
  unfoldable pub tail : List Tick → TailPos → List Event
  unfolding tail_poll sync
  tail [] p = []
  tail (t ∷ ticks) p = elim t.file [
    | missing ↦ tail ticks p
    | no_seek file ↦ tail ticks (sync p file)
    | opened file ↦
        let read = tail_poll p file t.clock t.sends in
        elim read.done [
          | true ↦ read.events ++ tail ticks (record (sync p file) { offset = read.offset })
          | false ↦ read.events
        ]
  ]

unfoldable pub effective_interval : Duration → Duration
effective_interval d = if leb d 0 then 1000000000 else d
