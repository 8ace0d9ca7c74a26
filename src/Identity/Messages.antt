-- ===== src/Identity/Messages.antt =====
-- internal/identity/sign.go, event.go: what a signature covers.
use federloom.Prelude.{◌≡◌, refl, true, String, str_eq, List, Option, arith, eq_iff}
use federloom.Proto.{PeerCert, Event}
use federloom.Identity.{Crypto, vote_message, signed_message, verify_event_sig}

signed_message_open :
    (e : Event) (crypto : Crypto) (reason : String) (hops : List String) (vouch : Option PeerCert)
    → e.kind ≡ "vote"
    → signed_message crypto (record e { reason = reason; origin_trace = hops; vouch = vouch })
      ≡ signed_message crypto e
unfolding signed_message vote_message
signed_message_open e crypto reason hops vouch h =
    let vote : str_eq e.kind "vote" ≡ true = (eq_iff e.kind "vote").1 h in simp vote refl

-- A relay that changes the hops, the vouch or the reason of a vote does not change whether its
-- signature verifies, nor the error if it does not.
pub verify_vote_open :
    (crypto : Crypto) (e : Event) (reason : String) (hops : List String) (vouch : Option PeerCert)
    → e.kind ≡ "vote"
    → verify_event_sig crypto (record e { reason = reason; origin_trace = hops; vouch = vouch })
      ≡ verify_event_sig crypto e
unfolding verify_event_sig
verify_vote_open crypto e reason hops vouch h =
    ground (arith, signed_message_open e crypto reason hops vouch h)
