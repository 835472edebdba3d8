-- ===== src/UnitTests/Config.antt =====
-- `mod tests` of core/src/config.rs. The TOML parser is an argument of the tests that read a
-- document.
pub mod Sections
pub mod Passes
use ratewall.Prelude.{
  Bool, true, false, not, ◌&&◌, List, [], ◌∷◌, ◌++◌, ◌==◌, length, if◌then◌else◌, Result, ok, err,
}
use ratewall.Prelude.Text.{Text, codes, text_eq}
use ratewall.Prelude.Table.{Table}
use ratewall.Config.{
  GatewayConfig, default_auth, default_ratelimit, default_breaker, Route, ConfigError, parse,
  invalid_prefix, invalid_backend, no_routes, invalid_auth, invalid_rate_limit, invalid_breaker,
  validate, from_toml,
}

-- `expect` and `unwrap_err`, with an assertion on what they give.
abbrev pub accepted {ℓ} : {A : Type ℓ} → Result ConfigError A → (A → Bool) → Bool
accepted (ok a) holds = holds a
accepted (err e) holds = false

abbrev pub refused {ℓ} : {A : Type ℓ} → Result ConfigError A → (ConfigError → Bool) → Bool
refused (ok a) holds = false
refused (err e) holds = holds e

-- `matches!(err, …)`
abbrev pub is_parse : ConfigError → Bool
is_parse (parse message) = true
is_parse _ = false

abbrev pub is_invalid_backend : ConfigError → Bool
is_invalid_backend (invalid_backend prefix backend) = true
is_invalid_backend _ = false

abbrev pub is_invalid_auth : ConfigError → Bool
is_invalid_auth (invalid_auth reason) = true
is_invalid_auth _ = false

abbrev pub is_invalid_rate_limit : ConfigError → Bool
is_invalid_rate_limit (invalid_rate_limit reason) = true
is_invalid_rate_limit _ = false

abbrev pub is_invalid_breaker : ConfigError → Bool
is_invalid_breaker (invalid_breaker reason) = true
is_invalid_breaker _ = false

-- `err == …` for the errors that the tests compare with.
abbrev pub same_error : ConfigError → ConfigError → Bool
same_error no_routes no_routes = true
same_error (invalid_prefix a) (invalid_prefix b) = text_eq a b
same_error (invalid_backend a b) (invalid_backend c d) = text_eq a c && text_eq b d
same_error _ _ = false

-- `routes.iter().find(|r| r.prefix == prefix).unwrap().backend == backend`
has_route : Text → Text → List Route → Bool
has_route prefix backend [] = false
has_route prefix backend (r ∷ rest) =
    let later = has_route prefix backend rest in
    if text_eq r.prefix prefix then text_eq r.backend backend else later

-- `routes[0].backend == backend`
abbrev first_backend : Text → List Route → Bool
first_backend backend [] = false
first_backend backend (r ∷ rest) = text_eq r.backend backend

-- The documents.
abbrev pub valid : Text
valid = codes "\nport = 8080\n\n[routes]\ncrm = \"http://crm:3000\"\nhrm = \"http://hrm:3001\"\n"

abbrev pub minimal : Text
minimal = codes "[routes]\ncrm = \"http://crm:3000\"\n"

abbrev pub with_section : Text → Text
with_section section = minimal ++ (codes "\n" ++ section)

module _ (toml : Text → Result Text GatewayConfig) where
  abbrev pub read : Text → Result ConfigError GatewayConfig
  read text = from_toml toml text

  valid_config_parses_and_validates : Bool
  unfolding has_route
  valid_config_parses_and_validates = accepted (read valid) λ config.
      config.port == 8080
      && (accepted (validate config)
          λ routes. length routes == 2 && has_route (codes "crm") (codes "http://crm:3000") routes)

  defaults_apply_when_fields_missing : Bool
  defaults_apply_when_fields_missing = accepted (read minimal) λ config. config.port == 8080

  empty_route_table_is_rejected : Bool
  empty_route_table_is_rejected = refused (read (codes "port = 8080\n")) λ e. same_error e no_routes

  malformed_toml_is_a_parse_error : Bool
  malformed_toml_is_a_parse_error = refused (read (codes "this is not toml <<<")) is_parse

  unknown_keys_are_rejected : Bool
  unknown_keys_are_rejected =
      refused (read (with_section (codes "[ratelimit]\nrequests = 10\n"))) is_parse

  prefix_with_slash_is_rejected : Bool
  prefix_with_slash_is_rejected =
      refused (read (codes "[routes]\n\"a/b\" = \"http://x:1\"\n"))
        λ e. same_error e (invalid_prefix (codes "a/b"))

-- A configuration that is written out: the routes, and defaults for the rest.
abbrev with_routes : Table Text → GatewayConfig
with_routes routes = record {
  port = 8080;
  routes = routes;
  auth = default_auth;
  ratelimit = default_ratelimit;
  breaker = default_breaker;
}

non_http_backend_is_rejected : Bool
non_http_backend_is_rejected =
    refused (validate (with_routes ((codes "crm", codes "tcp://crm:3000") ∷ [])))
      λ e. same_error e (invalid_backend (codes "crm") (codes "tcp://crm:3000"))

backend_with_no_host_is_rejected : Bool
backend_with_no_host_is_rejected =
    refused (validate (with_routes ((codes "crm", codes "http://") ∷ []))) is_invalid_backend

trailing_slash_in_backend_is_trimmed : Bool
trailing_slash_in_backend_is_trimmed =
    accepted (validate (with_routes ((codes "crm", codes "http://crm:3000/") ∷ [])))
      λ routes. first_backend (codes "http://crm:3000") routes
