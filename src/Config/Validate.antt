-- ===== src/Config/Validate.antt =====
-- The whole of `validate`: what the gateway starts on.
use ratewall.Prelude.{
  ◌<◌, ◌≡◌, ◌≢◌, ◌⊎◌, inl, inr, ◌↔◌, none, List, [], arith, All, Result, ok, err, Result-cases,
}
use ratewall.Prelude.Text.{Text}
use ratewall.Config.{
  AuthConfig, RateLimitConfig, BreakerConfig, GatewayConfig, Route, ConfigError, validate_auth,
  validate_ratelimit, validate_breaker, validate_routes, validate, from_toml,
}
use ratewall.Config.Routes.{IsAccepted, bind_routes, validate_routes_iff}

-- Own-keys mode with neither issuer field, or external-issuer mode with all three.
abbrev pub AuthIsUsable : AuthConfig → Type 0
AuthIsUsable auth =
    ((auth.issuer ≡ none) × (auth.issuer_public_key_pem ≡ none))
    ⊎ ((auth.issuer ≢ none) × (auth.issuer_public_key_pem ≢ none) × (auth.keys_dir ≢ none))

pub record IsUsable (c : GatewayConfig) : Type 0 where
  pub auth : AuthIsUsable c.auth
  pub some_route : c.routes ≢ []
  pub limit : 0 < c.ratelimit.limit
  pub window : 0 < c.ratelimit.window_secs
  pub redis : c.ratelimit.redis_url ≢ []
  pub threshold : 0 < c.breaker.failure_threshold
  pub cooldown : 0 < c.breaker.cooldown_secs
  pub timeout : 0 < c.breaker.timeout_secs
  pub routes : All IsAccepted c.routes

auth_iff : (auth : AuthConfig) → (validate_auth auth ≡ ok tt) ↔ AuthIsUsable auth
unfolding validate_auth
auth_iff auth = (λ h. ground arith, λ h. ground arith)

limits_iff :
    (rl : RateLimitConfig)
    → (validate_ratelimit rl ≡ ok tt)
      ↔ ((0 < rl.limit) × (0 < rl.window_secs) × (rl.redis_url ≢ []))
unfolding validate_ratelimit
limits_iff rl = (λ h. ground arith, λ h. ground arith)

breaker_iff :
    (b : BreakerConfig)
    → (validate_breaker b ≡ ok tt)
      ↔ ((0 < b.failure_threshold) × (0 < b.cooldown_secs) × (0 < b.timeout_secs))
unfolding validate_breaker
breaker_iff b = (λ h. ground arith, λ h. ground arith)

-- `validate` accepts when each of its sections does.
pub validate_parts :
    (c : GatewayConfig) (rs : List Route)
    → (validate c ≡ ok rs) ↔ (
        (validate_auth c.auth ≡ ok tt)
        × (c.routes ≢ [])
        × (validate_ratelimit c.ratelimit ≡ ok tt)
        × (validate_breaker c.breaker ≡ ok tt)
        × (validate_routes c.routes ≡ ok rs))
unfolding validate
validate_parts c rs = (λ h. ground arith, λ h. ground arith)

validate_sound :
    (c : GatewayConfig) (rs : List Route)
    → validate c ≡ ok rs
    → IsUsable c × (rs ≡ bind_routes c.routes)
validate_sound c rs h =
    let (a, some_route, l, b, r) = (validate_parts c rs).0 h in
    let (limit, window, redis) = (limits_iff c.ratelimit).0 l in
    let (threshold, cooldown, timeout) = (breaker_iff c.breaker).0 b in
    let (routes, bound) = (validate_routes_iff c.routes rs).0 r in
    (
      record {
        auth = (auth_iff c.auth).0 a;
        some_route = some_route;
        limit = limit;
        window = window;
        redis = redis;
        threshold = threshold;
        cooldown = cooldown;
        timeout = timeout;
        routes = routes;
      },
      bound,
    )

validate_complete :
    (c : GatewayConfig) (rs : List Route)
    → IsUsable c × (rs ≡ bind_routes c.routes)
    → validate c ≡ ok rs
validate_complete c rs (u, e) = (validate_parts c rs).1 (
  (auth_iff c.auth).1 u.auth,
  u.some_route,
  (limits_iff c.ratelimit).1 (u.limit, u.window, u.redis),
  (breaker_iff c.breaker).1 (u.threshold, u.cooldown, u.timeout),
  (validate_routes_iff c.routes rs).1 (u.routes, e),
)

-- `validate` accepts a configuration exactly when it is usable: the issuer and its key are both
-- absent, or both present with a key directory; there is a route; the rate limit and its window
-- are at least 1 and the Redis URL is not empty; the three breaker values are at least 1; and
-- every prefix is a clean segment and every backend an http(s) URL of more than seven bytes. The
-- routes that it returns are then the table's entries in order, without trailing slashes.
pub validate_iff :
    (c : GatewayConfig) (rs : List Route)
    → (validate c ≡ ok rs) ↔ (IsUsable c × (rs ≡ bind_routes c.routes))
validate_iff c rs = (validate_sound c rs, validate_complete c rs)

module _ (toml_from_str : Text → Result Text GatewayConfig) (text : Text) (c : GatewayConfig) where
  read_document : from_toml toml_from_str text ≡ ok c → toml_from_str text ≡ ok c
  unfolding from_toml
  read_document h = ground arith

  refused_document :
      (e : ConfigError)
      → toml_from_str text ≡ ok c
      → validate c ≡ err e
      → from_toml toml_from_str text ≢ ok c
  unfolding from_toml
  refused_document e parsed refused h = ground arith

-- A configuration that `from_toml` returns is the document as the parser read it, and usable.
from_toml-IsUsable :
    (toml_from_str : Text → Result Text GatewayConfig) (text : Text) (c : GatewayConfig)
    → from_toml toml_from_str text ≡ ok c
    → (toml_from_str text ≡ ok c) × IsUsable c
from_toml-IsUsable toml_from_str text c h =
    let parsed = read_document toml_from_str text c h in
    elim (Result-cases (validate c)) [
      | inl (rs, accepted) ↦ (parsed, (validate_sound c rs accepted).0)
      | inr (e, refused) ↦ absurd (refused_document toml_from_str text c e parsed refused h)
    ]
