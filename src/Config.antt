-- ===== src/Config.antt =====
-- core/src/config.rs: the configuration as it is parsed, its defaults, and `validate`.
-- Integers of every width are ℕ, paths are texts. The messages inside the errors are kept.
pub mod Routes
pub mod Validate
pub mod Errors
use ratewall.Prelude.{
  ℕ, ◌*◌, Bool, true, false, not, ◌&&◌, ◌||◌, Option, none, some, List, [], ◌∷◌, leb, ltb, ◌==◌,
  if◌then◌else◌, all, is_empty, is_some, Result, ok, err, ◌>>=◌, ◌>>◌,
}
use ratewall.Prelude.Text.{Text, codes, starts_with, trim_end, utf8_len}
use ratewall.Prelude.Table.{Table}
use ratewall.Prelude.Time.{from_secs}

pub record AuthConfig : Type 0 where
  pub keys_dir : Option Text
  pub issuer : Option Text
  pub issuer_public_key_pem : Option Text
  pub token_ttl_secs : ℕ

pub record RateLimitConfig : Type 0 where
  pub redis_url : Text
  pub limit : ℕ
  pub window_secs : ℕ

pub record BreakerConfig : Type 0 where
  pub failure_threshold : ℕ
  pub cooldown_secs : ℕ
  pub timeout_secs : ℕ

pub record GatewayConfig : Type 0 where
  pub port : ℕ
  pub routes : Table Text
  pub auth : AuthConfig
  pub ratelimit : RateLimitConfig
  pub breaker : BreakerConfig

-- The `Default` implementations, and the functions that serde calls for missing fields.
abbrev default_port : ℕ
default_port = 8080

abbrev default_token_ttl_secs : ℕ
default_token_ttl_secs = 900

abbrev pub default_auth : AuthConfig
default_auth = record {
  keys_dir = none;
  issuer = none;
  issuer_public_key_pem = none;
  token_ttl_secs = default_token_ttl_secs;
}

abbrev default_rl_redis_url : Text
default_rl_redis_url = codes "redis://redis:6379"

abbrev default_rl_limit : ℕ
default_rl_limit = 100

abbrev default_rl_window_secs : ℕ
default_rl_window_secs = 60

abbrev pub default_ratelimit : RateLimitConfig
default_ratelimit = record {
  redis_url = default_rl_redis_url;
  limit = default_rl_limit;
  window_secs = default_rl_window_secs;
}

abbrev pub default_breaker : BreakerConfig
default_breaker = record { failure_threshold = 5; cooldown_secs = 30; timeout_secs = 15 }

-- A document that sets the routes and nothing else.
abbrev pub with_defaults : Table Text → GatewayConfig
with_defaults routes = record {
  port = default_port;
  routes = routes;
  auth = default_auth;
  ratelimit = default_ratelimit;
  breaker = default_breaker;
}

unfoldable pub issues_own_tokens : AuthConfig → Bool
issues_own_tokens auth = not (is_some auth.issuer) && not (is_some auth.issuer_public_key_pem)

pub record Route : Type 0 where
  pub prefix : Text
  pub backend : Text

pub data ConfigError : Type 0 where
  parse : Text → ConfigError
  invalid_prefix : Text → ConfigError
  invalid_backend : (prefix backend : Text) → ConfigError
  no_routes : ConfigError
  invalid_auth : Text → ConfigError
  invalid_rate_limit : Text → ConfigError
  invalid_breaker : Text → ConfigError

abbrev reject_if : Bool → ConfigError → Result ConfigError (Unit {0})
reject_if true e = err e
reject_if false e = ok tt

-- `issuer` without its key, or the key without the issuer.
abbrev half_specified : Option Text → Option Text → Bool
half_specified none none = false
half_specified (some i) (some k) = false
half_specified _ _ = true

unfoldable pub validate_auth : AuthConfig → Result ConfigError (Unit {0})
unfolding issues_own_tokens
validate_auth auth = do
  reject_if (half_specified auth.issuer auth.issuer_public_key_pem)
      (invalid_auth (codes "issuer and issuer_public_key_pem must be set together"))
  reject_if (not (issues_own_tokens auth) && not (is_some auth.keys_dir))
      (invalid_auth (codes "keys_dir is required to hold the verifier's own signing key"))

unfoldable pub validate_ratelimit : RateLimitConfig → Result ConfigError (Unit {0})
validate_ratelimit rl = do
  reject_if (rl.limit == 0) (invalid_rate_limit (codes "limit must be at least 1"))
  reject_if (rl.window_secs == 0) (invalid_rate_limit (codes "window_secs must be at least 1"))
  reject_if (is_empty rl.redis_url) (invalid_rate_limit (codes "redis_url must not be empty"))

unfoldable pub validate_breaker : BreakerConfig → Result ConfigError (Unit {0})
validate_breaker b = do
  reject_if (b.failure_threshold == 0)
      (invalid_breaker (codes "failure_threshold must be at least 1"))
  reject_if (b.cooldown_secs == 0) (invalid_breaker (codes "cooldown_secs must be at least 1"))
  reject_if (b.timeout_secs == 0) (invalid_breaker (codes "timeout_secs must be at least 1"))

unfoldable pub is_prefix_char : ℕ → Bool
is_prefix_char c =
    leb b'0' c && leb c b'9'
    || leb b'A' c && leb c b'Z'
    || leb b'a' c && leb c b'z'
    || c == b'-'
    || c == b'_'

abbrev is_slash : ℕ → Bool
is_slash c = c == b'/'

-- One round of the loop over the route table.
unfoldable pub validate_route : Text → Text → Result ConfigError Route
validate_route prefix backend =
    if is_empty prefix || not (all is_prefix_char prefix)
    then err (invalid_prefix prefix)
    else if not (starts_with (codes "http://") backend || starts_with (codes "https://") backend)
        || leb (utf8_len backend) 7
    then err (invalid_backend prefix backend)
    else ok (record { prefix = prefix; backend = trim_end is_slash backend })

unfoldable pub validate_routes : Table Text → Result ConfigError (List Route)
validate_routes [] = ok []
validate_routes ((prefix, backend) ∷ rest) = do
  route ← validate_route prefix backend
  routes ← validate_routes rest
  ok (route ∷ routes)

unfoldable pub validate : GatewayConfig → Result ConfigError (List Route)
validate c = do
  validate_auth c.auth
  reject_if (is_empty c.routes) no_routes
  validate_ratelimit c.ratelimit
  validate_breaker c.breaker
  validate_routes c.routes

-- `toml::from_str` with the derived deserializer is a parameter: a parsed document or a message.
unfoldable pub from_toml :
    (Text → Result Text GatewayConfig) → Text → Result ConfigError GatewayConfig
from_toml toml_from_str text = elim (toml_from_str text) [
  | err message ↦ err (parse message)
  | ok config ↦ (validate config >>= λ _. ok config)
]

-- `backend_timeout`, in nanoseconds.
unfoldable pub backend_timeout : GatewayConfig → ℕ
backend_timeout c = from_secs c.breaker.timeout_secs
