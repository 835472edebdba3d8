-- ===== src/Router/Fallback.antt =====
-- `proxy_fallback` of core/src/router.rs: gate, limiter, path, `forward`.
use ratewall.Prelude.{ℕ, Option, none, some, [], ◌∷◌, is_empty, if◌then◌else◌, Result, ok, err}
use ratewall.Prelude.Text.{Text, codes}
use ratewall.Prelude.Decimal.{to_decimal}
use ratewall.Auth.Gate.{AuthState, check_bearer}
use ratewall.Ratelimit.{RateLimiter, Decision, allow, limit, open_window, decide, limit_key}
use ratewall.Metrics.{inc_rate_limited}
use ratewall.Http.{Request, Response, message, plain, not_found, too_many_requests}
use ratewall.Router.{Outside, Handled, stop, ProxyState, Shared, Moment, split_path, limited_prefix}
use ratewall.Router.Forward.{forward, on_metrics}

module _ (o : Outside) where
  abbrev pub verified : Result (Response o.http) Text → Result (Response o.http) (Option Text)
  verified (ok subject) = ok (some subject)
  verified (err r) = err r

  -- The verified subject, none if there is no gate, or the response of the gate.
  unfoldable pub authenticate :
      Option (AuthState o.crypto)
      → Moment o
      → Request o.http
      → Result (Response o.http) (Option Text)
  authenticate none m request = ok none
  authenticate (some auth) m request =
      verified (check_bearer o.crypto o.http auth m.unix_now request)

  unfoldable pub over_limit : ℕ → Response o.http
  over_limit retry_after = record {
    status = too_many_requests;
    headers = (codes "retry-after", to_decimal retry_after) ∷ [];
    body = message (codes "rate limit exceeded");
  }

  -- The limiter's decision, and the store after it and after the wait for it.
  unfoldable pub rate_limit :
      Option RateLimiter → Option Text → Moment o → Shared o → Decision × Shared o
  rate_limit none subject m s = (allow, s)
  rate_limit (some limiter) subject m s =
      let (decision, store) =
        decide o.redis limiter (limit_key subject (codes "unkeyed")) m.epoch_secs s.store in
      (decision, m.redis_wait (record s { store = store }))

  -- From the path on.
  unfoldable pub dispatch : ProxyState o → Request o.http → Moment o → Shared o → Handled o
  dispatch state request m s =
      let (prefix, rest) = split_path request.path in
      if is_empty prefix
      then stop o (plain o.http not_found (codes "not found")) s
      else forward o state prefix rest request m s

  -- From the decision on.
  unfoldable pub limited :
      ProxyState o → Request o.http → Moment o → Decision → Shared o → Handled o
  limited state request m (limit retry_after) s =
      stop o (over_limit retry_after)
        (on_metrics o (inc_rate_limited o.floats (limited_prefix request.path)) s)
  limited state request m allow s = dispatch state request m s
  limited state request m open_window s = dispatch state request m s

  unfoldable pub identified :
      ProxyState o
      → Request o.http
      → Moment o
      → Result (Response o.http) (Option Text)
      → Shared o
      → Handled o
  identified state request m (err response) s = stop o response s
  identified state request m (ok subject) s =
      let (decision, s') = rate_limit state.limiter subject m s in
      limited state request m decision s'

  unfoldable pub proxy_fallback : ProxyState o → Request o.http → Moment o → Shared o → Handled o
  unfolding authenticate
  proxy_fallback state request m s =
      identified state request m (authenticate state.auth m request) s
