-- ===== src/Config/Errors.antt =====
-- How the errors of core/src/config.rs are printed. `debug` is `{:?}` of a text.
use ratewall.Prelude.{◌++◌}
use ratewall.Prelude.Text.{Text, codes}
use ratewall.Config.{
  ConfigError, parse, invalid_prefix, invalid_backend, no_routes, invalid_auth, invalid_rate_limit,
  invalid_breaker,
}

-- `Display for ConfigError`
unfoldable pub describe : (debug : Text → Text) → ConfigError → Text
describe debug (parse text) = codes "config parse error: " ++ text
describe debug (invalid_prefix p) =
    codes "invalid route prefix "
    ++ (debug p ++ codes ": must be a single path segment (alphanumeric, no slashes)")
describe debug (invalid_backend prefix backend) =
    codes "route "
    ++ (debug prefix
        ++ (codes ": backend " ++ (debug backend ++ codes " is not an absolute http(s) URL")))
describe debug no_routes = codes "no routes configured: add at least one [routes] entry"
describe debug (invalid_auth text) = codes "invalid [auth] config: " ++ text
describe debug (invalid_rate_limit text) = codes "invalid [ratelimit] config: " ++ text
describe debug (invalid_breaker text) = codes "invalid [breaker] config: " ++ text
