-- ===== src/Router/Rejections.antt =====
-- Requests that `proxy_fallback` rejects, and requests while Redis gives no connection.
use ratewall.Prelude.{ℕ, ◌≡◌, refl, false, Option, none, some, arith, Result, ok, err, ap, sym, ◌∙◌}
use ratewall.Prelude.Text.{Text}
use ratewall.Auth.Gate.{AuthState, check_bearer_iff}
use ratewall.Ratelimit.{RateLimiter, limit, open_window, decide}
use ratewall.Http.{Request, Response, unauthorized}
use ratewall.Router.{Outside, ProxyState, Shared, Moment}
use ratewall.Router.Forward.{forward, outgoing}
use ratewall.Router.Fallback.{
  authenticate, rate_limit, limited, identified, dispatch, proxy_fallback, over_limit,
}

module _ (o : Outside) (state : ProxyState o) (request : Request o.http) (m : Moment o)
    (s : Shared o) where
  gate_status :
      (auth : Option (AuthState o.crypto)) (r : Response o.http)
      → authenticate o auth m request ≡ err r
      → r.status ≡ unauthorized
  unfolding authenticate
  gate_status none r h = cc
  gate_status (some auth) r h =
      (check_bearer_iff o.crypto o.http auth m.unix_now request).1 r (ground arith)

  -- A request that the gate refuses gets a 401, reaches no backend, and leaves the breakers, the
  -- registry and the rate-limit counters as they were.
  refused_by_gate :
      (r : Response o.http)
      → authenticate o state.auth m request ≡ err r
      → (r.status ≡ unauthorized)
        × ((proxy_fallback o state request m s).response ≡ r)
        × ((proxy_fallback o state request m s).contacted ≡ none)
        × ((proxy_fallback o state request m s).shared ≡ s)
  unfolding proxy_fallback identified
  refused_by_gate r h =
      (gate_status state.auth r h, ground (arith, h), ground (arith, h), ground (arith, h))

  -- A verified request over the limit gets a 429 with the limiter's delay, reaches no backend, and
  -- leaves the breakers as the wait for Redis left them.
  refused_by_limiter :
      (subject : Option Text) (retry_after : ℕ)
      → authenticate o state.auth m request ≡ ok subject
      → (rate_limit o state.limiter subject m s).0 ≡ limit retry_after
      → ((proxy_fallback o state request m s).response ≡ over_limit o retry_after)
        × ((proxy_fallback o state request m s).contacted ≡ none)
        × ((proxy_fallback o state request m s).shared.breakers
            ≡ (rate_limit o state.limiter subject m s).1.breakers)
        × ((proxy_fallback o state request m s).shared.store
            ≡ (rate_limit o state.limiter subject m s).1.store)
  unfolding proxy_fallback identified limited
  refused_by_limiter subject retry_after a l =
      (ground (arith, a, l), ground (arith, a, l), ground (arith, a, l), ground (arith, a, l))

  module _ (redis_down : o.redis.has_connection s.store ≡ false)
      (quiet : (t : Shared o) → m.redis_wait t ≡ t) where
    no_decision :
        (limiter : RateLimiter) (subject : Option Text)
        → rate_limit o (some limiter) subject m s ≡ (open_window, s)
    unfolding rate_limit decide
    no_decision limiter subject = rw redis_down (ap (λ (t : Shared o). (open_window, t)) (quiet s))

    same_dispatch :
        (limiter : Option RateLimiter)
        → dispatch o (record state { limiter = limiter }) request m s
          ≡ dispatch o (record state { limiter = none }) request m s
    unfolding dispatch forward outgoing
    same_dispatch limiter = refl

    same_limited :
        (limiter : Option RateLimiter) (subject : Option Text)
        → limited o
            (record state { limiter = limiter })
            request
            m
            (rate_limit o limiter subject m s).0
            (rate_limit o limiter subject m s).1
          ≡ dispatch o (record state { limiter = none }) request m s
    same_limited none subject = unfold limited rate_limit in refl
    same_limited (some limiter) subject =
        rw (no_decision limiter subject) (unfold limited in same_dispatch (some limiter))

    same_identified :
        (limiter : Option RateLimiter) (r : Result (Response o.http) (Option Text))
        → identified o (record state { limiter = limiter }) request m r s
          ≡ identified o (record state { limiter = none }) request m r s
    unfolding identified
    same_identified limiter (err r) = refl
    same_identified limiter (ok subject) =
        same_limited limiter subject ∙ sym (same_limited none subject)

    -- Fail-open: if Redis gives no connection, and nothing else happens while the handler waits
    -- for it, the request is handled exactly as by a gateway without a limiter.
    pub limiter_fails_open :
        proxy_fallback o state request m s
        ≡ proxy_fallback o (record state { limiter = none }) request m s
    unfolding proxy_fallback
    limiter_fails_open = same_identified state.limiter (authenticate o state.auth m request)
