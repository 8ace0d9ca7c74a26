-- ===== src/Enforce/Crowdsec/Laws.antt =====
-- The token that a request to CrowdSec carries.
use federloom.Prelude.{
  ℕ, ◌+◌, ◌≡◌, refl, ap, inl, inr, ◌⊎◌, true, false, not, ◌&&◌, Bool-cases, arith, String, ◌==◌,
  Option, none, some, Result, ok, err, is_ok,
}
use federloom.Proto.{Time, Duration}
use federloom.Enforce.Crowdsec.{
  CrowdSecSink, SinkError, request_failed, auth_failed, bad_status, Login, Request, Called,
  alert_of, post_alert, delete_decisions, authenticate, needs_refresh, auth_request, finish,
  block_with_duration, unblock,
}

-- The sink's token was good for five more minutes, or a login that answered 200 gave a new one.
abbrev pub IsAuthenticated : CrowdSecSink → Time → Login → CrowdSecSink → Type 0
IsAuthenticated s now login d =
    ((needs_refresh s now ≡ false) × (d ≡ s))
    ⊎ ((needs_refresh s now ≡ true)
        × ((expire : Option Time) × (login ≡ some (200, some (d.jwt, expire)))))

eq_200 : (n : ℕ) → (n == 200) ≡ true → n ≡ 200
eq_200 n h = ground arith

-- A result that is an error, or a value with a property.
abbrev Either : Result SinkError CrowdSecSink → (CrowdSecSink → Type 0) → Type 0
Either r P = ((e : SinkError) × (r ≡ err e)) ⊎ ((d : CrowdSecSink) × (r ≡ ok d) × P d)

authenticate_cases :
    (s : CrowdSecSink) (now : Time) (login : Login)
    → Either
        (authenticate s now login)
        (λ d. (expire : Option Time) × (login ≡ some (200, some (d.jwt, expire))))
unfolding authenticate
authenticate_cases s now none = inl (request_failed, refl)
authenticate_cases s now (some (status, none)) = elim (Bool-cases (status == 200)) [
  | inl fine ↦ inl (auth_failed, rw fine refl)
  | inr bad ↦ inl (bad_status status, rw bad refl)
]
authenticate_cases s now (some (status, some (token, expire))) = elim (Bool-cases (status == 200)) [
  | inl fine ↦ inr (
    record s { jwt = token; jwt_expiry = elim expire [ some t ↦ t | none ↦ now + 82800000000000 ] },
    rw fine refl,
    (expire, ap (λ n. some (n, some (token, expire))) (eq_200 status fine)),
  )
  | inr bad ↦ inl (bad_status status, rw bad refl)
]

auth_request_cases :
    (s : CrowdSecSink) (now : Time) (login : Login)
    → Either (auth_request s now login) (IsAuthenticated s now login)
unfolding auth_request
auth_request_cases s now login = elim (Bool-cases (needs_refresh s now)) [
  | inl old ↦ elim (authenticate_cases s now login) [
    | inl (e, failed) ↦ inl (e, rw old failed)
    | inr (d, made, from) ↦ inr (d, rw old made, inr (old, from))
  ]
  | inr good ↦ inr (s, rw good refl, inl (good, refl))
]

-- A call that makes no request fails and leaves the sink as it was; a call that makes one carries
-- the token that the sink has afterwards, which an authenticated sink gave.
abbrev pub IsTokened : CrowdSecSink → Time → Login → (String → Request) → Called → Type 0
IsTokened s now login request (result, d, made) =
    ((made ≡ none) × (d ≡ s) × (is_ok result ≡ false))
    ⊎ ((made ≡ some (request d.jwt)) × IsAuthenticated s now login d)

finish-IsTokened :
    (s d : CrowdSecSink) (now : Time) (login : Login) (request : String → Request) (also : ℕ)
    (answer : Option ℕ)
    → IsAuthenticated s now login d
    → IsTokened s now login request (finish d (request d.jwt) also answer)
unfolding finish
finish-IsTokened s d now login request also none h = inr (refl, h)
finish-IsTokened s d now login request also (some status) h =
    elim (Bool-cases (not (status == 200) && not (status == also))) [
      | inl bad ↦ rw bad (inr (refl, h))
      | inr fine ↦ rw fine (inr (refl, h))
    ]

-- Whatever the login and the request answer, a call to block an address for some time or to unblock
-- it either makes no request, fails and leaves the sink unchanged, or makes its request with the
-- token of the sink it leaves: the token it had, if that was good for five more minutes, or else
-- the one that a login answered with status 200.
pub calls-IsTokened :
    (s : CrowdSecSink) (ip : String) (dur : Duration) (now : Time) (login : Login)
    (answer : Option ℕ)
    → IsTokened s now login
        (λ token. post_alert token (alert_of ip dur now))
        (block_with_duration s ip dur now login answer)
      × IsTokened s now login (λ token. delete_decisions token ip) (unblock s ip now login answer)
unfolding block_with_duration unblock
calls-IsTokened s ip dur now login answer = elim (auth_request_cases s now login) [
  | inl (e, failed) ↦
      rw (failed, block_with_duration, unblock) (inl (refl, refl, refl), inl (refl, refl, refl))
  | inr (d, made, from) ↦
      rw (made, block_with_duration, unblock)
        (
          finish-IsTokened s d now login (λ token. post_alert token (alert_of ip dur now)) 201
              answer from,
          finish-IsTokened s d now login (λ token. delete_decisions token ip) 204 answer from,
        )
]
