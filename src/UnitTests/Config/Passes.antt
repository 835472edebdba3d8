-- ===== src/UnitTests/Config/Passes.antt =====
-- Runs of the tests of core/src/config.rs, over a TOML parser that reads their documents as the
-- derived deserializer documents: with the defaults for what is missing, and with an error for a
-- syntax error and for an unknown key.
use ratewall.Prelude.{◌≡◌, refl, true, some, [], ◌∷◌, Result, ok, err, ◌>>=◌}
use ratewall.Prelude.Text.{Text, codes, text_eq, starts_with, trim_end, utf8_len}
use ratewall.Config.{
  GatewayConfig, with_defaults, validate, validate_auth, validate_ratelimit, validate_breaker,
  validate_routes, validate_route, is_prefix_char, issues_own_tokens, from_toml, backend_timeout,
  parse,
}
use ratewall.UnitTests.Config.{
  valid, minimal, with_section, valid_config_parses_and_validates,
  defaults_apply_when_fields_missing, empty_route_table_is_rejected,
  malformed_toml_is_a_parse_error, unknown_keys_are_rejected, prefix_with_slash_is_rejected,
  non_http_backend_is_rejected, backend_with_no_host_is_rejected,
  trailing_slash_in_backend_is_trimmed,
}
use ratewall.UnitTests.Config.Sections.{
  issuer_only, key_only, external_issuer, auth_typo, five_in_thirty, zero_limit, zero_window,
  empty_redis_url, ratelimit_typo, two_in_sixty, breaker_typo, breaker_line,
  auth_defaults_to_own_keys_mode, auth_issuer_without_key_is_rejected,
  auth_key_without_issuer_is_rejected, auth_external_mode_with_both_fields_is_valid,
  auth_unknown_keys_are_rejected, ratelimit_defaults_apply_when_section_missing,
  ratelimit_section_overrides_defaults, ratelimit_zero_limit_is_rejected,
  ratelimit_zero_window_is_rejected, ratelimit_empty_redis_url_is_rejected,
  ratelimit_unknown_keys_are_rejected, breaker_defaults_apply_when_section_missing,
  breaker_section_overrides_defaults, breaker_zero_values_are_rejected,
  breaker_unknown_keys_are_rejected,
}

abbrev pub crm : GatewayConfig
crm = with_defaults ((codes "crm", codes "http://crm:3000") ∷ [])

abbrev pub crm_and_hrm : GatewayConfig
crm_and_hrm =
    with_defaults
      ((codes "crm", codes "http://crm:3000") ∷ (codes "hrm", codes "http://hrm:3001") ∷ [])

-- What the parser makes of the documents.
pub record Reads (toml : Text → Result Text GatewayConfig) : Type 0 where
  pub valid : toml valid ≡ ok crm_and_hrm
  pub minimal : toml minimal ≡ ok crm
  pub port_only : toml (codes "port = 8080\n") ≡ ok (with_defaults [])
  pub slash :
      toml (codes "[routes]\n\"a/b\" = \"http://x:1\"\n")
      ≡ ok (with_defaults ((codes "a/b", codes "http://x:1") ∷ []))
  pub issuer_only :
      toml issuer_only
      ≡ ok (record crm { auth = record crm.auth { issuer = some (codes "https://ext") } })
  pub key_only :
      toml key_only
      ≡ ok (record crm {
        auth = record crm.auth { issuer_public_key_pem = some (codes "/keys/ext.pem") };
      })
  pub external_issuer :
      toml external_issuer
      ≡ ok (record crm {
        auth = record crm.auth {
          issuer = some (codes "https://ext");
          issuer_public_key_pem = some (codes "/keys/ext.pem");
          keys_dir = some (codes "/keys");
        };
      })
  pub five_in_thirty :
      toml five_in_thirty
      ≡ ok (record crm {
        ratelimit = record { redis_url = codes "redis://r:1"; limit = 5; window_secs = 30 };
      })
  pub zero_limit :
      toml zero_limit
      ≡ ok (record crm {
        ratelimit = record crm.ratelimit { redis_url = codes "redis://r:1"; limit = 0 };
      })
  pub zero_window :
      toml zero_window
      ≡ ok (record crm {
        ratelimit = record crm.ratelimit { redis_url = codes "redis://r:1"; window_secs = 0 };
      })
  pub empty_redis_url :
      toml empty_redis_url ≡ ok (record crm { ratelimit = record crm.ratelimit { redis_url = [] } })
  pub two_in_sixty :
      toml two_in_sixty
      ≡ ok (record crm {
        breaker = record { failure_threshold = 2; cooldown_secs = 60; timeout_secs = 3 };
      })
  pub zero_threshold :
      toml (breaker_line (codes "failure_threshold = 0"))
      ≡ ok (record crm { breaker = record crm.breaker { failure_threshold = 0 } })
  pub zero_cooldown :
      toml (breaker_line (codes "cooldown_secs = 0"))
      ≡ ok (record crm { breaker = record crm.breaker { cooldown_secs = 0 } })
  pub zero_timeout :
      toml (breaker_line (codes "timeout_secs = 0"))
      ≡ ok (record crm { breaker = record crm.breaker { timeout_secs = 0 } })
  pub garbage_message : Text
  pub garbage : toml (codes "this is not toml <<<") ≡ err garbage_message
  pub requests_message : Text
  pub requests : toml (with_section (codes "[ratelimit]\nrequests = 10\n")) ≡ err requests_message
  pub auth_typo_message : Text
  pub auth_typo : toml auth_typo ≡ err auth_typo_message
  pub ratelimit_typo_message : Text
  pub ratelimit_typo : toml ratelimit_typo ≡ err ratelimit_typo_message
  pub breaker_typo_message : Text
  pub breaker_typo : toml breaker_typo ≡ err breaker_typo_message

-- What the tests compute with.
validation : Unit {0}
unfolding validate validate_auth validate_ratelimit validate_breaker validate_routes validate_route
    is_prefix_char starts_with utf8_len trim_end text_eq backend_timeout issues_own_tokens
validation = tt

-- A document that the parser reads gives what `validate` says of it.
module _ (toml : Text → Result Text GatewayConfig) {text : Text} where
  read_ok :
      {c : GatewayConfig} → toml text ≡ ok c → from_toml toml text ≡ (validate c >>= λ _. ok c)
  unfolding from_toml
  read_ok h = rw (h, from_toml) refl

  read_err : {m : Text} → toml text ≡ err m → from_toml toml text ≡ err (parse m)
  unfolding from_toml
  read_err h = rw (h, from_toml) refl

written_out_tests_pass :
    (non_http_backend_is_rejected ≡ true)
    × (backend_with_no_host_is_rejected ≡ true)
    × (trailing_slash_in_backend_is_trimmed ≡ true)
unfolding validation non_http_backend_is_rejected backend_with_no_host_is_rejected
    trailing_slash_in_backend_is_trimmed
written_out_tests_pass = (refl, refl, refl)

module _ (toml : Text → Result Text GatewayConfig) (reads : Reads toml) where
  documents_tests_pass :
      (valid_config_parses_and_validates toml ≡ true)
      × (defaults_apply_when_fields_missing toml ≡ true)
      × (empty_route_table_is_rejected toml ≡ true)
      × (malformed_toml_is_a_parse_error toml ≡ true)
      × (unknown_keys_are_rejected toml ≡ true)
      × (prefix_with_slash_is_rejected toml ≡ true)
  unfolding validation valid_config_parses_and_validates defaults_apply_when_fields_missing
      empty_route_table_is_rejected malformed_toml_is_a_parse_error unknown_keys_are_rejected
      prefix_with_slash_is_rejected
  documents_tests_pass = (
    rw (read_ok toml reads.valid) refl,
    rw (read_ok toml reads.minimal) refl,
    rw (read_ok toml reads.port_only) refl,
    rw (read_err toml reads.garbage) refl,
    rw (read_err toml reads.requests) refl,
    rw (read_ok toml reads.slash) refl,
  )

  auth_tests_pass :
      (auth_defaults_to_own_keys_mode toml ≡ true)
      × (auth_issuer_without_key_is_rejected toml ≡ true)
      × (auth_key_without_issuer_is_rejected toml ≡ true)
      × (auth_external_mode_with_both_fields_is_valid toml ≡ true)
      × (auth_unknown_keys_are_rejected toml ≡ true)
  unfolding validation auth_defaults_to_own_keys_mode auth_issuer_without_key_is_rejected
      auth_key_without_issuer_is_rejected auth_external_mode_with_both_fields_is_valid
      auth_unknown_keys_are_rejected
  auth_tests_pass = (
    rw (read_ok toml reads.valid, read_ok toml reads.minimal) refl,
    rw (read_ok toml reads.issuer_only) refl,
    rw (read_ok toml reads.key_only) refl,
    rw (read_ok toml reads.external_issuer) refl,
    rw (read_err toml reads.auth_typo) refl,
  )

  ratelimit_tests_pass :
      (ratelimit_defaults_apply_when_section_missing toml ≡ true)
      × (ratelimit_section_overrides_defaults toml ≡ true)
      × (ratelimit_zero_limit_is_rejected toml ≡ true)
      × (ratelimit_zero_window_is_rejected toml ≡ true)
      × (ratelimit_empty_redis_url_is_rejected toml ≡ true)
      × (ratelimit_unknown_keys_are_rejected toml ≡ true)
  unfolding validation ratelimit_defaults_apply_when_section_missing
      ratelimit_section_overrides_defaults ratelimit_zero_limit_is_rejected
      ratelimit_zero_window_is_rejected ratelimit_empty_redis_url_is_rejected
      ratelimit_unknown_keys_are_rejected
  ratelimit_tests_pass = (
    rw (read_ok toml reads.minimal) refl,
    rw (read_ok toml reads.five_in_thirty) refl,
    rw (read_ok toml reads.zero_limit) refl,
    rw (read_ok toml reads.zero_window) refl,
    rw (read_ok toml reads.empty_redis_url) refl,
    rw (read_err toml reads.ratelimit_typo) refl,
  )

  breaker_tests_pass :
      (breaker_defaults_apply_when_section_missing toml ≡ true)
      × (breaker_section_overrides_defaults toml ≡ true)
      × (breaker_zero_values_are_rejected toml ≡ true)
      × (breaker_unknown_keys_are_rejected toml ≡ true)
  unfolding validation breaker_defaults_apply_when_section_missing
      breaker_section_overrides_defaults breaker_zero_values_are_rejected
      breaker_unknown_keys_are_rejected
  breaker_tests_pass = (
    rw (read_ok toml reads.minimal) refl,
    rw (read_ok toml reads.two_in_sixty) refl,
    rw
        (
          read_ok toml reads.zero_threshold,
          read_ok toml reads.zero_cooldown,
          read_ok toml reads.zero_timeout,
        )
        refl,
    rw (read_err toml reads.breaker_typo) refl,
  )
