-- ===== src/Ingest/Fail2ban/Laws.antt =====
-- Each ban of an address is reported once, and again when it is banned anew.
use federloom.Prelude.{
  ℕ, zero, suc, ◌+◌, ◌≤◌, ◌≡◌, refl, ◌∙◌, Bool, true, false, if◌then◌else◌, arith, String, str_eq,
  eq_iff, List, [], ◌∷◌, ◌++◌, none, some, Assoc, insert, keys, contains_string, length, All,
}
use federloom.Proto.{Time, Event}
use federloom.Ingest.{event_of}
use federloom.Ingest.Fail2ban.{
  Fail2Ban, Tick, ban_all, ban_jails, parse_banned, prune, emit, poll, run,
}

-- How many events there are for an address.
abbrev pub count : String → List Event → ℕ
count ip [] = 0
count ip (e ∷ es) = if str_eq e.ip ip then suc (count ip es) else count ip es

-- Whether any jail bans an address.
abbrev pub jails_ban : Assoc (List String) → String → Bool
jails_ban [] ip = false
jails_ban ((jail, ips) ∷ rest) ip = if contains_string ips ip then true else jails_ban rest ip

abbrev pub bans : List (Assoc (List String)) → String → Bool
bans [] ip = false
bans (jails ∷ raw) ip = if jails_ban jails ip then true else bans raw ip

keys-insert :
    (ip other jail : String) (m : Assoc String)
    → contains_string (keys (insert ip jail m)) other
      ≡ (if str_eq ip other then true else contains_string (keys m) other)
unfolding insert
keys-insert ip other jail [] = refl
keys-insert ip other jail ((i, j) ∷ m) =
    ground (arith, keys-insert ip other jail m, eq_iff i ip, eq_iff i other, eq_iff ip other)

keys-ban_all :
    (jail : String) (ips : List String) (m : Assoc String) (ip : String)
    → contains_string (keys (ban_all jail ips m)) ip
      ≡ (if contains_string ips ip then true else contains_string (keys m) ip)
unfolding ban_all
keys-ban_all jail [] m ip = refl
keys-ban_all jail (i ∷ ips) m ip =
    ground (arith, keys-ban_all jail ips (insert i jail m) ip, keys-insert i ip jail m)

keys-ban_jails :
    (jails : Assoc (List String)) (m : Assoc String) (ip : String)
    → contains_string (keys (ban_jails jails m)) ip
      ≡ (if jails_ban jails ip then true else contains_string (keys m) ip)
unfolding ban_jails
keys-ban_jails [] m ip = refl
keys-ban_jails ((jail, ips) ∷ rest) m ip =
    ground (arith, keys-ban_jails rest (ban_all jail ips m) ip, keys-ban_all jail ips m ip)

keys-parse_banned :
    (raw : List (Assoc (List String))) (m : Assoc String) (ip : String)
    → contains_string (keys (parse_banned raw m)) ip
      ≡ (if bans raw ip then true else contains_string (keys m) ip)
unfolding parse_banned
keys-parse_banned [] m ip = refl
keys-parse_banned (jails ∷ raw) m ip =
    ground (arith, keys-parse_banned raw (ban_jails jails m) ip, keys-ban_jails jails m ip)

contains-prune :
    (current : Assoc String) (seen : List String) (ip : String)
    → contains_string (prune current seen) ip
      ≡ (if contains_string seen ip then contains_string (keys current) ip else false)
unfolding prune
contains-prune current [] ip = refl
contains-prune current (s ∷ seen) ip = ground (arith, contains-prune current seen ip, eq_iff s ip)

module _ (f : Fail2Ban) (clock : String → Time) where
  emit-done :
      (current : Assoc String) (seen : List String) (sends : ℕ)
      → length current ≤ sends
      → (emit f clock current seen sends).done ≡ true
  unfolding emit
  emit-done [] seen sends h = refl
  emit-done ((ip, jail) ∷ rest) seen zero h = elim h [ ]
  emit-done ((ip, jail) ∷ rest) seen (suc n) h =
      ground (arith, emit-done rest seen (suc n), emit-done rest (ip ∷ seen) n)

  seen_kept :
      (current : Assoc String) (seen : List String) (sends : ℕ) (ip : String)
      → contains_string seen ip ≡ true
      → contains_string (emit f clock current seen sends).seen ip ≡ true
  unfolding emit
  seen_kept [] seen sends ip h = h
  seen_kept ((i, jail) ∷ rest) seen zero ip h = ground (arith, seen_kept rest seen zero ip, h)
  seen_kept ((i, jail) ∷ rest) seen (suc n) ip h =
      ground (arith, seen_kept rest seen (suc n) ip, seen_kept rest (i ∷ seen) n ip, h)

  -- An address is in the set afterwards if it was before or if an event was sent for it.
  seen-emit :
      (current : Assoc String) (seen : List String) (sends : ℕ) (ip : String)
      → let sent = emit f clock current seen sends in
        count ip sent.events
        ≡ (if contains_string seen ip then 0 else if contains_string sent.seen ip then 1 else 0)
  unfolding emit event_of
  seen-emit [] seen sends ip = ground arith
  seen-emit ((i, jail) ∷ rest) seen zero ip = ground (arith, seen-emit rest seen zero ip)
  seen-emit ((i, jail) ∷ rest) seen (suc n) ip = ground (
    arith,
    seen-emit rest seen (suc n) ip,
    seen-emit rest (i ∷ seen) n ip,
    seen_kept rest (i ∷ seen) n ip,
    eq_iff i ip,
  )

  seen_done-emit :
      (current : Assoc String) (seen : List String) (sends : ℕ) (ip : String)
      → (emit f clock current seen sends).done ≡ true
      → contains_string (emit f clock current seen sends).seen ip
        ≡ (if contains_string seen ip then true else contains_string (keys current) ip)
  unfolding emit
  seen_done-emit [] seen sends ip h = ground arith
  seen_done-emit ((i, jail) ∷ rest) seen zero ip h =
      ground (arith, seen_done-emit rest seen zero ip, eq_iff i ip)
  seen_done-emit ((i, jail) ∷ rest) seen (suc n) ip h =
      ground (
        arith,
        seen_done-emit rest seen (suc n) ip,
        seen_done-emit rest (i ∷ seen) n ip,
        eq_iff i ip,
      )

module _ (f : Fail2Ban) where
  -- When a fetch is decoded and the channel takes as many events as there are addresses, a poll
  -- sends one event for an address that a jail bans and that was not seen before, and none for any
  -- other; afterwards exactly the addresses that are banned now count as seen.
  pub poll_lem :
      (clock : String → Time) (raw : List (Assoc (List String))) (seen : List String) (sends : ℕ)
      (ip : String)
      → length (parse_banned raw []) ≤ sends
      → let polled = poll f clock (some raw) seen sends in
        (count ip polled.events
          ≡ (if contains_string seen ip then 0 else if bans raw ip then 1 else 0))
        × (contains_string polled.seen ip ≡ bans raw ip)
  unfolding poll
  poll_lem clock raw seen sends ip room =
      let current = parse_banned raw [] in
      let done = emit-done f clock current seen sends room in
      let known = seen_done-emit f clock current seen sends ip done in
      let banned = keys-parse_banned raw [] ip in
      let sent = seen-emit f clock current seen sends ip in
      let left = contains-prune current (emit f clock current seen sends).seen ip in
      rw (done, poll) (ground (arith, known, banned, sent, left))

  count-append :
      (ip : String) (xs ys : List Event) → count ip (xs ++ ys) ≡ count ip xs + count ip ys
  count-append ip [] ys = omega arith
  count-append ip (e ∷ es) ys = ground (arith, count-append ip es ys)

  -- At a tick the fetch fails, or an address is banned and every event is sent.
  abbrev pub StillBans : String → Tick → Type 0
  StillBans ip (clock, none, sends) = Unit
  StillBans ip (clock, some raw, sends) =
      (bans raw ip ≡ true) × (length (parse_banned raw []) ≤ sends)

  no_more :
      (ip : String) (ticks : List Tick) (seen : List String)
      → All (StillBans ip) ticks
      → contains_string seen ip ≡ true
      → count ip (run f ticks seen) ≡ 0
  unfolding run poll
  no_more ip [] seen h known = refl
  no_more ip ((clock, none, sends) ∷ ticks) seen h known = no_more ip ticks seen h.1 known
  no_more ip ((clock, some raw, sends) ∷ ticks) seen (now, h) known =
      let polled = poll f clock (some raw) seen sends in
      let (none_sent, banned) = poll_lem clock raw seen sends ip now.1 in
      ground (
        arith,
        count-append ip polled.events (run f ticks polled.seen),
        no_more ip ticks polled.seen h,
        now.0,
        none_sent,
        banned,
        known,
      )

  -- An address that is banned at one tick and at every later tick whose fetch does not fail, with
  -- every event sent, is reported once over all of these ticks, or not at all if it was seen
  -- before.
  pub banned_once :
      (ip : String) (clock : String → Time) (raw : List (Assoc (List String))) (sends : ℕ)
      (ticks : List Tick) (seen : List String)
      → bans raw ip ≡ true
      → length (parse_banned raw []) ≤ sends
      → All (StillBans ip) ticks
      → count ip (run f ((clock, some raw, sends) ∷ ticks) seen)
        ≡ (if contains_string seen ip then 0 else 1)
  unfolding run
  banned_once ip clock raw sends ticks seen now room h =
      let polled = poll f clock (some raw) seen sends in
      let (sent, banned) = poll_lem clock raw seen sends ip room in
      let rest = no_more ip ticks polled.seen h (banned ∙ now) in
      ground (arith, count-append ip polled.events (run f ticks polled.seen), sent, rest, now)
