-- ===== src/Router/Statuses.antt =====
-- The statuses with which the proxy answers.
use ratewall.Prelude.{
  ℕ, ◌≡◌, ◌⊎◌, inl, inr, refl, Bool, true, false, Bool-cases, Option, none, some, is_empty, Result,
  ok, err, arith,
}
use ratewall.Prelude.Text.{Text}
use ratewall.Prelude.Table.{get}
use ratewall.Auth.Gate.{AuthState, check_bearer, check_bearer_iff}
use ratewall.Ratelimit.{Decision, allow, limit, open_window}
use ratewall.Http.{
  Request, Response, bad_request, unauthorized, not_found, too_many_requests, bad_gateway,
  service_unavailable,
}
use ratewall.Router.{
  Outside, Outgoing, Answer, Handled, ProxyState, Shared, Moment, split_path, response_headers,
}
use ratewall.Router.Forward
use ratewall.Router.Forward.{
  forward, forward_to, try_breaker, send_body, conclude, outgoing, body_cap, passed_status,
  passed_response, unreachable, circuit_open,
}
use ratewall.Router.Fallback.{
  authenticate, rate_limit, dispatch, limited, identified, over_limit, proxy_fallback, verified,
}

-- The statuses of the gateway's own answers, when no backend is contacted.
abbrev pub IsOwn : ℕ → Type 0
IsOwn status =
    (status ≡ bad_request)
    ⊎ ((status ≡ unauthorized)
        ⊎ ((status ≡ not_found) ⊎ ((status ≡ too_many_requests) ⊎ (status ≡ service_unavailable))))

module _ (o : Outside) (state : ProxyState o) (request : Request o.http) (m : Moment o) where
  -- What the status says of the request that was handed to the HTTP client, if it came to that.
  abbrev pub IsAnswered : Option (Outgoing o) → ℕ → Type 0
  IsAnswered none status = IsOwn status
  IsAnswered (some out) status =
      (status ≡ bad_gateway)
      ⊎ ((a : Answer o) × (m.exchange out ≡ some a) × (status ≡ passed_status o a.status))

  abbrev Fits : Handled o → Type 0
  Fits handled = IsAnswered handled.contacted handled.response.status

  passed_response-status :
      (a : Answer o)
      → ((passed_response o a).status ≡ bad_gateway)
        ⊎ ((passed_response o a).status ≡ passed_status o a.status)
  unfolding passed_response
  passed_response-status a =
      elim (Bool-cases
        (o.http.builds (passed_status o a.status) (response_headers o.http a.headers))) [
          | inl builds ↦ inr (rw builds refl)
          | inr fails ↦ inl (rw fails refl)
        ]

  answered :
      (out : Outgoing o) (a : Answer o) (status : ℕ)
      → m.exchange out ≡ some a
      → (status ≡ bad_gateway) ⊎ (status ≡ passed_status o a.status)
      → IsAnswered (some out) status
  answered out a status e (inl bad) = inl bad
  answered out a status e (inr passed) = inr (a, e, passed)

  conclude-Fits :
      (prefix : Text) (out : Outgoing o) (a : Option (Answer o)) (s : Shared o)
      → m.exchange out ≡ a
      → Fits (conclude o prefix m out a s)
  unfolding conclude unreachable
  conclude-Fits prefix out none s e = inl refl
  conclude-Fits prefix out (some a) s e =
      answered out a (passed_response o a).status e (passed_response-status a)

  module _ (prefix backend suffix : Text) where
    send_body-Fits :
        (buffered : Option o.http.Bytes) (s : Shared o)
        → Fits (send_body o state prefix backend suffix request m buffered s)
    unfolding send_body
    send_body-Fits none s = inl refl
    send_body-Fits (some body) s =
        let out = outgoing o state backend suffix request body in
        conclude-Fits prefix out (m.exchange out) (m.send_wait s) refl

    admitted-Fits :
        (short : Bool) (s : Shared o)
        → Fits (Forward.admitted o state prefix backend suffix request m short s)
    unfolding Forward.admitted circuit_open
    admitted-Fits true s = inr (inr (inr (inr refl)))
    admitted-Fits false s = send_body-Fits (o.http.to_bytes body_cap request.body) (m.body_wait s)

  forward_to-Fits :
      (prefix suffix : Text) (found : Option Text) (s : Shared o)
      → Fits (forward_to o state prefix suffix request m found s)
  unfolding forward_to
  forward_to-Fits prefix suffix none s = inr (inr (inl refl))
  forward_to-Fits prefix suffix (some backend) s =
      admitted-Fits prefix backend suffix (try_breaker o prefix m.admitted_at s).0
        (try_breaker o prefix m.admitted_at s).1

  dispatch-Fits : (s : Shared o) → Fits (dispatch o state request m s)
  unfolding dispatch forward
  dispatch-Fits s =
      let (prefix, rest) = split_path request.path in
      elim (Bool-cases (is_empty prefix)) [
        | inl empty ↦ rw empty (inr (inr (inl refl)))
        | inr named ↦ rw named (forward_to-Fits prefix rest (get prefix state.backends) s)
      ]

  limited-Fits : (d : Decision) (s : Shared o) → Fits (limited o state request m d s)
  unfolding limited over_limit
  limited-Fits (limit retry_after) s = inr (inr (inr (inl refl)))
  limited-Fits allow s = dispatch-Fits s
  limited-Fits open_window s = dispatch-Fits s

  identified-Fits :
      (verdict : Result (Response o.http) (Option Text)) (s : Shared o)
      → ((r : Response o.http) → verdict ≡ err r → r.status ≡ unauthorized)
      → Fits (identified o state request m verdict s)
  unfolding identified
  identified-Fits (err r) s h = inr (inl (h r refl))
  identified-Fits (ok subject) s h =
      limited-Fits (rate_limit o state.limiter subject m s).0
        (rate_limit o state.limiter subject m s).1

  refused_status :
      (verdict : Result (Response o.http) Text) (r : Response o.http)
      → verified o verdict ≡ err r
      → verdict ≡ err r
  refused_status (ok subject) r h = cc
  refused_status (err response) r h = ground arith

  pub authenticate-status :
      (auth : Option (AuthState o.crypto)) (r : Response o.http)
      → authenticate o auth m request ≡ err r
      → r.status ≡ unauthorized
  unfolding authenticate
  authenticate-status none r h = cc
  authenticate-status (some auth) r h =
      (check_bearer_iff o.crypto o.http auth m.unix_now request).1 r
        (refused_status (check_bearer o.crypto o.http auth m.unix_now request) r h)

-- Every request is answered with a status that says what became of it. When no backend is
-- contacted it is one of 400, 401, 404, 429 and 503; when one is, it is 502, or the backend did
-- answer that request and it is the backend's status as it is passed on.
pub proxy_fallback-status :
    (o : Outside) (state : ProxyState o) (request : Request o.http) (m : Moment o) (s : Shared o)
    → IsAnswered o state request m
        (proxy_fallback o state request m s).contacted
        (proxy_fallback o state request m s).response.status
unfolding proxy_fallback
proxy_fallback-status o state request m s =
    identified-Fits o state request m (authenticate o state.auth m request) s
      (λ r h. authenticate-status o state request m state.auth r h)
