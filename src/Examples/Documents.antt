-- ===== src/Examples/Documents.antt =====
-- A parser that knows the documents of the tests of core/src/config.rs, and no other.
use ratewall.Prelude.{refl, some, List, [], ◌∷◌, Result, ok, err, if◌then◌else◌}
use ratewall.Prelude.Text.{Text, codes, text_eq}
use ratewall.Config.{GatewayConfig, with_defaults}
use ratewall.UnitTests.Config.{valid, minimal}
use ratewall.UnitTests.Config.Sections.{
  issuer_only, key_only, external_issuer, five_in_thirty, zero_limit, zero_window, empty_redis_url,
  two_in_sixty, breaker_line,
}
use ratewall.UnitTests.Config.Passes.{crm, crm_and_hrm, Reads}

abbrev documents : List (Text × GatewayConfig)
documents =
    (valid, crm_and_hrm)
    ∷ (minimal, crm)
    ∷ ((codes "port = 8080\n"), (with_defaults []))
    ∷ (
      (codes "[routes]\n\"a/b\" = \"http://x:1\"\n"),
      (with_defaults ((codes "a/b", codes "http://x:1") ∷ [])),
    )
    ∷ (issuer_only, (record crm { auth = record crm.auth { issuer = some (codes "https://ext") } }))
    ∷ (
      key_only,
      (record crm {
        auth = record crm.auth { issuer_public_key_pem = some (codes "/keys/ext.pem") };
      }),
    )
    ∷ (
      external_issuer,
      (record crm {
        auth = record crm.auth {
          issuer = some (codes "https://ext");
          issuer_public_key_pem = some (codes "/keys/ext.pem");
          keys_dir = some (codes "/keys");
        };
      }),
    )
    ∷ (
      five_in_thirty,
      (record crm {
        ratelimit = record { redis_url = codes "redis://r:1"; limit = 5; window_secs = 30 };
      }),
    )
    ∷ (
      zero_limit,
      (record crm {
        ratelimit = record crm.ratelimit { redis_url = codes "redis://r:1"; limit = 0 };
      }),
    )
    ∷ (
      zero_window,
      (record crm {
        ratelimit = record crm.ratelimit { redis_url = codes "redis://r:1"; window_secs = 0 };
      }),
    )
    ∷ (empty_redis_url, (record crm { ratelimit = record crm.ratelimit { redis_url = [] } }))
    ∷ (
      two_in_sixty,
      (record crm {
        breaker = record { failure_threshold = 2; cooldown_secs = 60; timeout_secs = 3 };
      }),
    )
    ∷ (
      (breaker_line (codes "failure_threshold = 0")),
      (record crm { breaker = record crm.breaker { failure_threshold = 0 } }),
    )
    ∷ (
      (breaker_line (codes "cooldown_secs = 0")),
      (record crm { breaker = record crm.breaker { cooldown_secs = 0 } }),
    )
    ∷ (
      (breaker_line (codes "timeout_secs = 0")),
      (record crm { breaker = record crm.breaker { timeout_secs = 0 } }),
    )
    ∷ []

find_document : Text → List (Text × GatewayConfig) → Result Text GatewayConfig
find_document text [] = err (codes "no document")
find_document text ((known, config) ∷ rest) =
    let later = find_document text rest in if text_eq known text then ok config else later

abbrev toy_toml : Text → Result Text GatewayConfig
toy_toml text = find_document text documents

toy_toml-Reads : Reads toy_toml
unfolding find_document text_eq
toy_toml-Reads = record {
  valid = refl;
  minimal = refl;
  port_only = refl;
  slash = refl;
  issuer_only = refl;
  key_only = refl;
  external_issuer = refl;
  five_in_thirty = refl;
  zero_limit = refl;
  zero_window = refl;
  empty_redis_url = refl;
  two_in_sixty = refl;
  zero_threshold = refl;
  zero_cooldown = refl;
  zero_timeout = refl;
  garbage_message = codes "no document";
  garbage = refl;
  requests_message = codes "no document";
  requests = refl;
  auth_typo_message = codes "no document";
  auth_typo = refl;
  ratelimit_typo_message = codes "no document";
  ratelimit_typo = refl;
  breaker_typo_message = codes "no document";
  breaker_typo = refl;
}
