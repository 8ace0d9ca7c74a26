-- ===== src/Ingest/Mailcow/Laws.antt =====
-- What is sent of a log.
use Prim.Native.String as Text
use federloom.Prelude.{
  ℕ, zero, suc, ◌≡◌, refl, arith, String, List, [], ◌∷◌, Option, none, some, map, take,
}
use federloom.Proto.{Time}
use federloom.Ingest.{event_of}
use federloom.Ingest.Mailcow.{
  Regexp, MailcowLogs, postfix_sasl, dovecot_auth, scan_postfix, scan_dovecot,
}

-- The lines that a pattern matches, with what it finds in them.
abbrev pub found : {A : Type 0} → (String → Option A) → List String → List (String × A)
found pattern [] = []
found pattern (line ∷ lines) = elim (pattern line) [
  | none ↦ found pattern lines
  | some x ↦ (line, x) ∷ found pattern lines
]

module _ (regexp : Regexp) (m : MailcowLogs) (clock : String → Time) where
  -- What is sent of the lines of Postfix: one event for each that matches, in their order, up to
  -- the number of events that the channel takes.
  scan_postfix_lem :
      (lines : List String) (sends : ℕ)
      → scan_postfix regexp m clock lines sends
        ≡ take sends (
            map
              (λ l. event_of l.1 "smtp-auth-bruteforce" (clock l.0) m.self_id)
              (found (regexp.find_group postfix_sasl) lines))
  unfolding scan_postfix
  scan_postfix_lem [] zero = refl
  scan_postfix_lem [] (suc n) = refl
  scan_postfix_lem (line ∷ lines) zero = ground (arith, scan_postfix_lem lines zero)
  scan_postfix_lem (line ∷ lines) (suc n) =
      ground (arith, scan_postfix_lem lines (suc n), scan_postfix_lem lines n)

  -- The same of the lines of Dovecot, whose reasons name the protocol.
  scan_dovecot_lem :
      (lines : List String) (sends : ℕ)
      → scan_dovecot regexp m clock lines sends
        ≡ take sends (
            map
              (λ l. event_of l.1.1 (Text.◌++◌ l.1.0 "-auth-bruteforce") (clock l.0) m.self_id)
              (found (regexp.find_groups dovecot_auth) lines))
  unfolding scan_dovecot
  scan_dovecot_lem [] zero = refl
  scan_dovecot_lem [] (suc n) = refl
  scan_dovecot_lem (line ∷ lines) zero = ground (arith, scan_dovecot_lem lines zero)
  scan_dovecot_lem (line ∷ lines) (suc n) =
      ground (arith, scan_dovecot_lem lines (suc n), scan_dovecot_lem lines n)
