-- ===== src/Ingest/Crowdsec/Laws.antt =====
-- No alert falls between two requests.
use federloom.Prelude.{
  ℕ, ◌+◌, ◌-◌, ◌*◌, ◌/◌, ◌≤◌, ◌≡◌, refl, true, false, arith, String, List, Option, some,
}
use federloom.Proto.{Time, is_zero, second}
use federloom.Netutil.{Netip}
use federloom.Ingest.Crowdsec.{
  CrowdSec, CsAlert, Reply, send_alerts, since_seconds, with_machine, do_request, fetch_alerts,
}

age_covers :
    (last later : ℕ)
    → last ≤ later
    → later + 9 * second ≤ ((later - last) + 10000000000) / 1000000000 * second + last
age_covers last later h = omega arith

-- When the token is at hand, the answer decodes and every alert is sent: the time the answer is
-- read at, if it is not zero, is kept, and the next request, at that time or later, asks for an age
-- that reaches back at least nine seconds before it.
pub since_seconds_covers :
    (ip : Netip) (c d : CrowdSec) (now poll_time later : Time)
    (login : Reply (String × Option Time)) (alerts : List CsAlert) (sends : ℕ)
    → with_machine c now login ≡ some d
    → (send_alerts ip d.self_id poll_time alerts sends).1 ≡ true
    → is_zero poll_time ≡ false
    → poll_time ≤ later
    → let after = (fetch_alerts ip c now poll_time login (some (200, some alerts)) sends).1 in
      (after.last_alert ≡ poll_time)
      × (later + 9 * second ≤ since_seconds after later * second + poll_time)
unfolding since_seconds fetch_alerts do_request
since_seconds_covers ip c d now poll_time later login alerts sends made done seen after =
    rw (made, fetch_alerts, done, seen) (refl, age_covers poll_time later after)
