-- ===== src/Ingest/Tail/Lines.antt =====
-- The lines of bufio.Scanner with `ScanLines` and `Buffer(make([]byte, 1<<20), 1<<20)`.
use federloom.Prelude.{
  ℕ, ◌≡◌, refl, ap, ◌∙◌, true, false, if◌then◌else◌, ltb, ◌==◌, sym, List, [], ◌∷◌, ◌++◌,
  append-nil, append_assoc, length, All,
}

abbrev pub Line : Type 0
Line = List ℕ

-- What stands after the last newline, nothing being no line.
abbrev pub last_line : Line → List Line
last_line [] = []
last_line (b ∷ bs) = (b ∷ bs) ∷ []

-- The lines of a text, each without its newline; `line` is what was read of the first.
abbrev pub lines_from : Line → List ℕ → List Line
lines_from line [] = last_line line
lines_from line (c ∷ cs) = elim (c == b'\n') [
  | true ↦ line ∷ lines_from [] cs
  | false ↦ lines_from (line ++ c ∷ []) cs
]

-- `dropCR`
abbrev pub drop_cr : Line → Line
drop_cr [] = []
drop_cr (c ∷ []) = if c == 13 then [] else c ∷ []
drop_cr (c ∷ d ∷ cs) = c ∷ drop_cr (d ∷ cs)

-- A line that does not fit in the buffer ends the scan.
abbrev pub fitting : List Line → List Line
fitting [] = []
fitting (l ∷ ls) = if ltb (length l) 1048576 then drop_cr l ∷ fitting ls else []

abbrev pub scanned : List ℕ → List Line
scanned bs = fitting (lines_from [] bs)

-- A line that a writer writes: no newline in it, no carriage return at its end, and not too long.
pub record IsPlain (l : Line) : Type 0 where
  pub no_newline : All (λ c. (c == b'\n') ≡ false) l
  pub no_cr : drop_cr l ≡ l
  pub fits : ltb (length l) 1048576 ≡ true

-- The text of lines, each of which is ended.
abbrev pub text_of : List Line → List ℕ
text_of [] = []
text_of (l ∷ ls) = l ++ b'\n' ∷ text_of ls

pub text_of-append : (xs ys : List Line) → text_of (xs ++ ys) ≡ text_of xs ++ text_of ys
text_of-append [] ys = refl
text_of-append (x ∷ xs) ys =
    ap (λ t. x ++ b'\n' ∷ t) (text_of-append xs ys)
    ∙ sym (append_assoc x (b'\n' ∷ text_of xs) (text_of ys))

lines_from_line :
    (line l rest : List ℕ)
    → All (λ c. (c == b'\n') ≡ false) l
    → lines_from line (l ++ b'\n' ∷ rest) ≡ (line ++ l) ∷ lines_from [] rest
lines_from_line line [] rest h = ap (λ x. x ∷ lines_from [] rest) (sym (append-nil line))
lines_from_line line (c ∷ l) rest h =
    rw (h.0, lines_from)
      (lines_from_line (line ++ c ∷ []) l rest h.1
        ∙ ap (λ x. x ∷ lines_from [] rest) (append_assoc line (c ∷ []) l))

-- Of lines that were written and ended, the scanner returns exactly these lines.
pub scanned-text_of : (ls : List Line) → All IsPlain ls → scanned (text_of ls) ≡ ls
scanned-text_of [] h = refl
scanned-text_of (l ∷ ls) h =
    rw (lines_from_line [] l (text_of ls) h.0.no_newline)
      (rw (h.0.fits, h.0.no_cr) (ap (λ x. l ∷ x) (scanned-text_of ls h.1)))
