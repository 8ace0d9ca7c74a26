-- ===== src/Ingest/Tail/Laws.antt =====
-- What was written to a log is reported exactly once.
use mathlib.Core.List.{map-append}
use federloom.Prelude.{
  ℕ, zero, suc, ◌+◌, ◌≤◌, ◌≡◌, refl, sym, ap, ◌∙◌, true, false, ◌||◌, ltb, arith, String, List, [],
  ◌∷◌, ◌++◌, map, Option, none, some, length, length-append, drop, All,
}
use federloom.Proto.{Time, Event}
use federloom.Ingest.{event_of}
use federloom.Ingest.Tail.{
  LogFile, missing, opened, TailPos, tail_start, is_replaced, sync, Scanned, Tick, scan, tail_poll,
  tail,
}
use federloom.Ingest.Tail.Lines.{Line, IsPlain, text_of, text_of-append, scanned-text_of}

-- The polls of a log: `last` is the file that was polled last, `hs` the lines that it held then,
-- and the last index all lines that are written from then on, the lines of each file in their
-- order.
pub data Logged : Option ℕ → List Line → List Tick → List Line → Type 0 where
  ended : {last : Option ℕ} {hs : List Line} → Logged last hs [] []
  missed :
      {last : Option ℕ} {hs ws : List Line} {ts : List Tick} (t : Tick)
      → t.file ≡ missing
      → Logged last hs ts ws
      → Logged last hs (t ∷ ts) ws
  -- Lines were appended to the file.
  appended :
      {last : Option ℕ} {hs ws : List Line} {ts : List Tick} (t : Tick) (inode : ℕ)
      (more later : List Line)
      → is_replaced last inode ≡ false
      → t.file ≡ opened (record { inode = inode; held = text_of (hs ++ more) })
      → All IsPlain more
      → length more ≤ t.sends
      → ws ≡ more ++ later
      → Logged (some inode) (hs ++ more) ts later
      → Logged last hs (t ∷ ts) ws
  -- Another file stands there, or the file was cut to a smaller size.
  rotated :
      {last : Option ℕ} {hs ws : List Line} {ts : List Tick} (t : Tick) (inode : ℕ)
      (more later : List Line)
      → (ltb (length (text_of more)) (length (text_of hs)) || is_replaced last inode) ≡ true
      → t.file ≡ opened (record { inode = inode; held = text_of more })
      → All IsPlain more
      → length more ≤ t.sends
      → ws ≡ more ++ later
      → Logged (some inode) more ts later
      → Logged last hs (t ∷ ts) ws

-- The address and the reason of an event.
abbrev pub told : Event → String × String
told e = (e.ip, e.reason)

drop-length : {A : Type 0} (xs ys : List A) → drop (length xs) (xs ++ ys) ≡ ys
drop-length [] ys = refl
drop-length (x ∷ xs) ys = drop-length xs ys

module _ (parse : Line → Option (String × String)) (self_id : String) where
  -- What lines tell.
  abbrev pub reported : List Line → List (String × String)
  reported [] = []
  reported (l ∷ ls) = elim (parse l) [ none ↦ reported ls | some r ↦ r ∷ reported ls ]

  reported-append : (xs ys : List Line) → reported (xs ++ ys) ≡ reported xs ++ reported ys
  reported-append [] ys = refl
  reported-append (x ∷ xs) ys = ground (arith, reported-append xs ys)

  record Reads (s : Scanned) (offset : ℕ) (lines : List Line) : Type 0 where
    done : s.done ≡ true
    at : s.offset ≡ offset + length (text_of lines)
    tells : map told s.events ≡ reported lines

  scan-Reads :
      (clock : ℕ → Time) (offset sends : ℕ) (lines : List Line)
      → length lines ≤ sends
      → Reads (scan parse self_id clock offset sends lines) offset lines
  unfolding scan event_of
  scan-Reads clock offset sends [] h = record { done = refl; at = omega arith; tells = refl }
  scan-Reads clock offset zero (l ∷ lines) h = absurd (omega arith)
  scan-Reads clock offset (suc n) (l ∷ lines) h =
      let quiet = scan-Reads clock (offset + length l + 1) (suc n) lines (omega arith) in
      let sent = scan-Reads clock (offset + length l + 1) n lines (omega arith) in
      record {
        done = ground (arith, quiet.done, sent.done);
        at = ground (arith, quiet.at, sent.at, length-append l (b'\n' ∷ text_of lines));
        tells = ground (arith, quiet.tells, sent.tells);
      }

  poll-Reads :
      (p : TailPos) (f : LogFile) (clock : ℕ → Time) (sends : ℕ) (hs more : List Line)
      → (sync p f).offset ≡ length (text_of hs)
      → f.held ≡ text_of (hs ++ more)
      → All IsPlain more
      → length more ≤ sends
      → Reads (tail_poll parse self_id p f clock sends) (length (text_of hs)) more
  unfolding tail_poll
  poll-Reads p f clock sends hs more at held plain fits =
      rw
        (
          at,
          held,
          text_of-append hs more,
          drop-length (text_of hs) (text_of more),
          scanned-text_of more plain,
        )
        (scan-Reads clock (length (text_of hs)) sends more fits)

  -- A poll that reads whole lines reports them and goes on behind them.
  tail_step :
      (t : Tick) (ts : List Tick) (p : TailPos) (f : LogFile) (hs more : List Line)
      → t.file ≡ opened f
      → (sync p f).offset ≡ length (text_of hs)
      → f.held ≡ text_of (hs ++ more)
      → All IsPlain more
      → length more ≤ t.sends
      → map told (tail parse self_id (t ∷ ts) p)
        ≡ reported more
          ++ map told (
              tail parse self_id ts
                (record (sync p f) { offset = length (text_of hs) + length (text_of more) }))
  unfolding tail
  tail_step t ts p f hs more e at held plain fits =
      let read = poll-Reads p f t.clock t.sends hs more at held plain fits in
      rw (e, tail, read.done, read.at)
        (map-append told (tail_poll parse self_id p f t.clock t.sends).events _
          ∙ ap
              (λ es.
                es
                ++ map told (
                    tail parse self_id ts
                      (record (sync p f) { offset = length (text_of hs) + length (text_of more) })))
              read.tells)

  tail-Logged :
      (p : TailPos) (last : Option ℕ) (ts : List Tick) (hs ws : List Line)
      → Logged last hs ts ws
      → p.last_file ≡ last
      → p.offset ≡ length (text_of hs)
      → p.last_size ≡ length (text_of hs)
      → map told (tail parse self_id ts p) ≡ reported ws
  unfolding tail
  tail-Logged p last _ hs ws ended file at size = refl
  tail-Logged p _ _ _ _ (missed {last} {hs} {ws} {ts} t e later) file at size =
      rw (e, tail) (tail-Logged p last ts hs ws later file at size)
  tail-Logged p _ _ _ _
        (appended {last} {hs} {ws} {ts} t inode more rest same e plain fits ew later) file at size =
      let f : LogFile = record { inode = inode; held = text_of (hs ++ more) } in
      let longer = ap length (text_of-append hs more) in
      let whole = length-append (text_of hs) (text_of more) in
      let q : TailPos = record (sync p f) {
        offset = length (text_of hs) + length (text_of more);
      } in
      tail_step t ts p f hs more e
        (unfold sync in rw (file, same) (ground (arith, at, size, longer, whole))) refl plain fits
      ∙ ap (λ es. reported more ++ es)
          (tail-Logged q (some inode) ts (hs ++ more) rest later (unfold sync in refl)
            (omega (arith, longer, whole)) (unfold sync in refl))
      ∙ sym (reported-append more rest)
      ∙ ap reported (sym ew)
  tail-Logged p _ _ _ _ (rotated {last} {hs} {ws} {ts} t inode more rest new e plain fits ew later)
        file at size =
      let f : LogFile = record { inode = inode; held = text_of more } in
      let q : TailPos = record (sync p f) { offset = 0 + length (text_of more) } in
      tail_step t ts p f [] more e (unfold sync in ground (arith, file, size, new)) refl plain fits
      ∙ ap (λ es. reported more ++ es)
          (tail-Logged q (some inode) ts more rest later (unfold sync in refl) (omega arith)
            (unfold sync in refl))
      ∙ sym (reported-append more rest)
      ∙ ap reported (sym ew)

  -- From its start on, however the log is polled: when each poll finds the file of the last poll
  -- with whole lines appended to it, or another or a smaller file of whole lines in its place, or
  -- no file, when no line that a poll finds ends in a carriage return or has 1 MiB or more, and
  -- when the channel takes what is sent: each line that a poll finds is read exactly once, in the
  -- order of the polls and of the lines in the file, and each that the source's parser takes is
  -- reported. Lines that no poll finds, since the file was replaced before, do not count.
  pub tail_all :
      (ts : List Tick) (ws : List Line)
      → Logged none [] ts ws
      → map told (tail parse self_id ts tail_start) ≡ reported ws
  tail_all ts ws h = tail-Logged tail_start none ts [] ws h refl refl refl
