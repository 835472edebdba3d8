-- ===== src/Router/Tally.antt =====
-- What the registry counts of each request that the proxy answers.
use ratewall.Prelude.{
  ℕ, ◌≡◌, ◌⊎◌, inl, inr, refl, ◌∙◌, Bool, true, false, Bool-cases, Option, none, some, is_empty,
  Result, ok, err,
}
use ratewall.Prelude.Text.{Text, codes}
use ratewall.Prelude.Table.{get}
use ratewall.Ratelimit.{RateLimiter, Decision, allow, limit, open_window}
use ratewall.Metrics.{Metrics, finish, inc_rate_limited, inc_circuit_open}
use ratewall.Http.{
  Request, Response, bad_request, unauthorized, not_found, too_many_requests, service_unavailable,
}
use ratewall.Router.{
  Outside, Outgoing, Answer, Handled, ProxyState, Shared, Moment, split_path, limited_prefix,
  status_class,
}
use ratewall.Router.Forward
use ratewall.Router.Forward.{
  forward, forward_to, try_breaker, report, send_body, conclude, outgoing, body_cap, passed_status,
  circuit_open,
}
use ratewall.Router.Fallback.{
  authenticate, rate_limit, dispatch, limited, identified, over_limit, proxy_fallback,
}
use ratewall.Router.Statuses.{authenticate-status}

module _ (o : Outside) (state : ProxyState o) (request : Request o.http) (m : Moment o) where
  -- Nobody else counts anything while the handler waits.
  pub record CountsAlone : Type 0 where
    pub redis_alone : (s : Shared o) → (m.redis_wait s).metrics ≡ s.metrics
    pub body_alone : (s : Shared o) → (m.body_wait s).metrics ≡ s.metrics
    pub send_alone : (s : Shared o) → (m.send_wait s).metrics ≡ s.metrics
    pub answer_alone : (s : Shared o) → (m.answer_wait s).metrics ≡ s.metrics

  -- The class under which an exchange is counted.
  abbrev pub class_of : Option (Answer o) → Text
  class_of none = codes "5xx"
  class_of (some a) = status_class (passed_status o a.status)

  -- What is counted, by the request that was handed to the HTTP client and the status.
  abbrev pub Tallied :
      Metrics o.floats → Option (Outgoing o) → ℕ → Option (Metrics o.floats) → Type 0
  Tallied before (some out) status after =
      after
      ≡ some (
          finish o.floats (split_path request.path).0 m.elapsed (some (class_of (m.exchange out)))
            before)
  Tallied before none status after =
      ((status ≡ too_many_requests)
        × (after ≡ some (inc_rate_limited o.floats (limited_prefix request.path) before)))
      ⊎ (((status ≡ service_unavailable)
            × (after ≡ some (inc_circuit_open o.floats (split_path request.path).0 before)))
          ⊎ (((status ≡ bad_request) ⊎ ((status ≡ unauthorized) ⊎ (status ≡ not_found)))
              × (after ≡ some before)))

  module _ (alone : CountsAlone) (before : Metrics o.floats) where
    abbrev Fits : Handled o → Type 0
    Fits handled = Tallied before handled.contacted handled.response.status handled.shared.metrics

    report-metrics :
        (prefix : Text) (success : Bool) (s : Shared o)
        → (report o prefix m.reported_at success s).metrics ≡ s.metrics
    unfolding report
    report-metrics prefix success s = refl

    module _ (prefix : Text) (same : (split_path request.path).0 ≡ prefix) where
      conclude-Fits :
          (out : Outgoing o) (a : Option (Answer o)) (s : Shared o)
          → m.exchange out ≡ a
          → s.metrics ≡ some before
          → Fits (conclude o prefix m out a s)
      unfolding conclude
      conclude-Fits out none s e h = rw (same, e, report-metrics prefix false s, h) refl
      conclude-Fits out (some a) s e h =
          rw
            (
              same,
              e,
              alone.answer_alone (report o prefix m.reported_at true s),
              report-metrics prefix true s,
              h,
            )
            refl

      send_body-Fits :
          (backend suffix : Text) (buffered : Option o.http.Bytes) (s : Shared o)
          → s.metrics ≡ some before
          → Fits (send_body o state prefix backend suffix request m buffered s)
      unfolding send_body
      send_body-Fits backend suffix none s h = inr (inr (inl refl, h))
      send_body-Fits backend suffix (some body) s h =
          let out = outgoing o state backend suffix request body in
          conclude-Fits out (m.exchange out) (m.send_wait s) refl (alone.send_alone s ∙ h)

      admitted-Fits :
          (backend suffix : Text) (short : Bool) (s : Shared o)
          → s.metrics ≡ some before
          → Fits (Forward.admitted o state prefix backend suffix request m short s)
      unfolding Forward.admitted circuit_open
      admitted-Fits backend suffix true s h = inr (inl (refl, rw (h, same) refl))
      admitted-Fits backend suffix false s h =
          send_body-Fits backend suffix (o.http.to_bytes body_cap request.body) (m.body_wait s)
            (alone.body_alone s ∙ h)

      try_breaker-metrics :
          (s : Shared o) → (try_breaker o prefix m.admitted_at s).1.metrics ≡ s.metrics
      unfolding try_breaker
      try_breaker-metrics s = refl

      forward_to-Fits :
          (suffix : Text) (found : Option Text) (s : Shared o)
          → s.metrics ≡ some before
          → Fits (forward_to o state prefix suffix request m found s)
      unfolding forward_to
      forward_to-Fits suffix none s h = inr (inr (inr (inr refl), h))
      forward_to-Fits suffix (some backend) s h =
          admitted-Fits backend suffix (try_breaker o prefix m.admitted_at s).0
            (try_breaker o prefix m.admitted_at s).1 (try_breaker-metrics s ∙ h)

    dispatch-Fits : (s : Shared o) → s.metrics ≡ some before → Fits (dispatch o state request m s)
    unfolding dispatch forward
    dispatch-Fits s h =
        let (prefix, rest) = split_path request.path in
        elim (Bool-cases (is_empty prefix)) [
          | inl empty ↦ rw empty (inr (inr (inr (inr refl), h)))
          | inr named ↦ rw named (
              forward_to-Fits (split_path request.path).0 refl rest (get prefix state.backends) s h)
        ]

    limited-Fits :
        (d : Decision) (s : Shared o)
        → s.metrics ≡ some before
        → Fits (limited o state request m d s)
    unfolding limited over_limit
    limited-Fits (limit retry_after) s h = inl (refl, rw h refl)
    limited-Fits allow s h = dispatch-Fits s h
    limited-Fits open_window s h = dispatch-Fits s h

    rate_limit-metrics :
        (limiter : Option RateLimiter) (subject : Option Text) (s : Shared o)
        → (rate_limit o limiter subject m s).1.metrics ≡ s.metrics
    unfolding rate_limit
    rate_limit-metrics none subject s = refl
    rate_limit-metrics (some limiter) subject s = alone.redis_alone _

    identified-Fits :
        (verdict : Result (Response o.http) (Option Text)) (s : Shared o)
        → ((r : Response o.http) → verdict ≡ err r → r.status ≡ unauthorized)
        → s.metrics ≡ some before
        → Fits (identified o state request m verdict s)
    unfolding identified
    identified-Fits (err r) s k h = inr (inr (inr (inl (k r refl)), h))
    identified-Fits (ok subject) s k h =
        limited-Fits (rate_limit o state.limiter subject m s).0
          (rate_limit o state.limiter subject m s).1
          (rate_limit-metrics state.limiter subject s ∙ h)

-- The registry counts every request in exactly one way, if nobody else counts meanwhile. A request
-- that is handed to the HTTP client is counted as finished, once, under the prefix of its path,
-- with the class `5xx` if the exchange fails and else that of the status that is passed on. Of the
-- others, a 429 is a rate-limit rejection under the prefix of rejections, a 503 is a short circuit
-- under the prefix of the path, and a 400, 401 or 404 leaves the registry as it was.
pub proxy_fallback-Tallied :
    (o : Outside) (state : ProxyState o) (request : Request o.http) (m : Moment o) (s : Shared o)
    (before : Metrics o.floats)
    → CountsAlone o state request m
    → s.metrics ≡ some before
    → Tallied o state request m before
        (proxy_fallback o state request m s).contacted
        (proxy_fallback o state request m s).response.status
        (proxy_fallback o state request m s).shared.metrics
unfolding proxy_fallback
proxy_fallback-Tallied o state request m s before alone h =
    identified-Fits o state request m alone before (authenticate o state.auth m request) s
      (λ r k. authenticate-status o state request m state.auth r k) h
