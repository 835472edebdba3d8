-- ===== src/UnitTests/Config/Sections.antt =====
-- The tests of core/src/config.rs on the sections `[auth]`, `[ratelimit]` and `[breaker]`.
use ratewall.Prelude.{Bool, not, ◌&&◌, List, [], ◌∷◌, ◌++◌, ◌==◌, Result, all}
use ratewall.Prelude.Text.{Text, codes, text_eq}
use ratewall.Prelude.Time.{from_secs}
use ratewall.Config.{GatewayConfig, issues_own_tokens, backend_timeout}
use ratewall.UnitTests.Config.{
  accepted, refused, is_parse, is_invalid_auth, is_invalid_rate_limit, is_invalid_breaker, valid,
  minimal, with_section, read,
}

abbrev pub issuer_only : Text
issuer_only = with_section (codes "[auth]\nissuer = \"https://ext\"\n")

abbrev pub key_only : Text
key_only = with_section (codes "[auth]\nissuer_public_key_pem = \"/keys/ext.pem\"\n")

abbrev pub external_issuer : Text
external_issuer = with_section (
    codes
      "[auth]\nissuer = \"https://ext\"\nissuer_public_key_pem = \"/keys/ext.pem\"\nkeys_dir = \"/keys\"\n")

abbrev pub auth_typo : Text
auth_typo = with_section (codes "[auth]\nsecret = \"hunter2\"\n")

abbrev pub five_in_thirty : Text
five_in_thirty =
    with_section (codes "[ratelimit]\nredis_url = \"redis://r:1\"\nlimit = 5\nwindow_secs = 30\n")

abbrev pub zero_limit : Text
zero_limit = with_section (codes "[ratelimit]\nredis_url = \"redis://r:1\"\nlimit = 0\n")

abbrev pub zero_window : Text
zero_window = with_section (codes "[ratelimit]\nredis_url = \"redis://r:1\"\nwindow_secs = 0\n")

abbrev pub empty_redis_url : Text
empty_redis_url = with_section (codes "[ratelimit]\nredis_url = \"\"\n")

abbrev pub ratelimit_typo : Text
ratelimit_typo = with_section (codes "[ratelimit]\nbogus = true\n")

abbrev pub two_in_sixty : Text
two_in_sixty =
    with_section (codes "[breaker]\nfailure_threshold = 2\ncooldown_secs = 60\ntimeout_secs = 3\n")

abbrev pub breaker_typo : Text
breaker_typo = with_section (codes "[breaker]\naggressive = true\n")

-- `[breaker]` with one line.
abbrev pub breaker_line : Text → Text
breaker_line line = with_section (codes "[breaker]\n" ++ (line ++ codes "\n"))

abbrev pub zero_lines : List Text
zero_lines =
    codes "failure_threshold = 0" ∷ codes "cooldown_secs = 0" ∷ codes "timeout_secs = 0" ∷ []

module _ (toml : Text → Result Text GatewayConfig) where
  unfoldable pub auth_defaults_to_own_keys_mode : Bool
  unfolding issues_own_tokens
  auth_defaults_to_own_keys_mode =
      accepted (read toml valid)
        (λ config. issues_own_tokens config.auth && config.auth.token_ttl_secs == 900)
      && accepted (read toml minimal) (λ config. config.auth.token_ttl_secs == 900)

  unfoldable pub auth_issuer_without_key_is_rejected : Bool
  auth_issuer_without_key_is_rejected = refused (read toml issuer_only) is_invalid_auth

  unfoldable pub auth_key_without_issuer_is_rejected : Bool
  auth_key_without_issuer_is_rejected = refused (read toml key_only) is_invalid_auth

  unfoldable pub auth_external_mode_with_both_fields_is_valid : Bool
  unfolding issues_own_tokens
  auth_external_mode_with_both_fields_is_valid =
      accepted (read toml external_issuer) λ config. not (issues_own_tokens config.auth)

  unfoldable pub auth_unknown_keys_are_rejected : Bool
  auth_unknown_keys_are_rejected = refused (read toml auth_typo) is_parse

  unfoldable pub ratelimit_defaults_apply_when_section_missing : Bool
  ratelimit_defaults_apply_when_section_missing = accepted (read toml minimal) λ config.
      config.ratelimit.limit == 100
      && config.ratelimit.window_secs == 60
      && text_eq config.ratelimit.redis_url (codes "redis://redis:6379")

  unfoldable pub ratelimit_section_overrides_defaults : Bool
  ratelimit_section_overrides_defaults =
      accepted (read toml five_in_thirty)
        λ config. config.ratelimit.limit == 5 && config.ratelimit.window_secs == 30

  unfoldable pub ratelimit_zero_limit_is_rejected : Bool
  ratelimit_zero_limit_is_rejected = refused (read toml zero_limit) is_invalid_rate_limit

  unfoldable pub ratelimit_zero_window_is_rejected : Bool
  ratelimit_zero_window_is_rejected = refused (read toml zero_window) is_invalid_rate_limit

  unfoldable pub ratelimit_empty_redis_url_is_rejected : Bool
  ratelimit_empty_redis_url_is_rejected = refused (read toml empty_redis_url) is_invalid_rate_limit

  unfoldable pub ratelimit_unknown_keys_are_rejected : Bool
  ratelimit_unknown_keys_are_rejected = refused (read toml ratelimit_typo) is_parse

  unfoldable pub breaker_defaults_apply_when_section_missing : Bool
  unfolding backend_timeout
  breaker_defaults_apply_when_section_missing = accepted (read toml minimal) λ config.
      config.breaker.failure_threshold == 5
      && config.breaker.cooldown_secs == 30
      && config.breaker.timeout_secs == 15
      && backend_timeout config == from_secs 15

  unfoldable pub breaker_section_overrides_defaults : Bool
  unfolding backend_timeout
  breaker_section_overrides_defaults = accepted (read toml two_in_sixty) λ config.
      config.breaker.failure_threshold == 2
      && config.breaker.cooldown_secs == 60
      && backend_timeout config == from_secs 3

  unfoldable pub breaker_zero_values_are_rejected : Bool
  breaker_zero_values_are_rejected =
      all (λ line. refused (read toml (breaker_line line)) is_invalid_breaker) zero_lines

  unfoldable pub breaker_unknown_keys_are_rejected : Bool
  breaker_unknown_keys_are_rejected = refused (read toml breaker_typo) is_parse
