-- ===== src/Gateway.antt =====
-- gateway/src/main.rs: what the process starts with, or why it does not start. The environment, the
-- log lines, the mounting of the routes and the listener are left out.
pub mod Guards
pub mod Starts
pub mod Serves
pub mod Journey
pub mod App
use ratewall.Prelude.{
  ℕ, ◌≡◌, ◌≢◌, Option, none, some, List, ◌∷◌, ◌++◌, Result, ok, err, if◌then◌else◌,
}
use ratewall.Prelude.Text.{Text, codes}
use ratewall.Prelude.Table.{or_default}
use ratewall.Prelude.Time.{from_secs}
use ratewall.Config.{
  AuthConfig, GatewayConfig, Route, ConfigError, issues_own_tokens, validate, from_toml,
}
use ratewall.Config.Errors as ConfigErrors
use ratewall.Auth.{AuthError}
use ratewall.Auth.Errors
use ratewall.Auth.Keys.{
  Files, Contents, found, not_found, unreadable, Pem, Loaded, load_or_create_signing_key,
}
use ratewall.Auth.Gate.{AuthState}
use ratewall.Auth.Login.{LoginState}
use ratewall.Ratelimit.{RateLimiter, connect}
use ratewall.Circuit.Registry
use ratewall.Circuit.Registry.{Breakers}
use ratewall.Metrics.{new_metrics}
use ratewall.Router.{
  Outside, ProxyState, Shared, Proxy, new, with_auth, with_limiter, with_breakers, with_metrics,
}

abbrev pub default_keys_dir : Text
default_keys_dir = codes "/var/lib/ratewall/keys"

abbrev pub own_issuer : Text
own_issuer = codes "ratewall"

-- What the start asks of its surroundings, besides the crates of the handlers.
pub record Platform (o : Outside) : Type 1 where
  pub files : Files
  pub pem : Pem o.crypto
  pub from_public_key_pem : Text → Result Text o.crypto.VerifyingKey
  pub toml_from_str : Text → Result Text GatewayConfig
  -- How the error of a missing file is printed.
  pub no_such_file : Text
  -- Whether a pool can be made for a Redis URL.
  pub create_pool : Text → Result Text (Unit {0})
  -- Whether the HTTP client can be built.
  pub build_client : Result Text (Unit {0})

module _ (o : Outside) where
  -- The gate and the login, or an exit with status 1 and a message, or a failed `expect`.
  pub data AuthSetup : Type 0 where
    refused : (message : Text) → AuthSetup
    panicked : AuthSetup
    ready : AuthState o.crypto → Option (LoginState o.crypto) → AuthSetup

  -- What the process serves, or an exit with status 1 and a message, or a failed `expect`: on the
  -- issuer's settings, or on the state of the proxy, with the error of the HTTP client.
  pub data Start : Type 0 where
    exited : (message : Text) → Start
    failed : Start
    no_proxy : (error : Text) → Start
    serving : ProxyState o → Shared o → (login : Option (LoginState o.crypto)) → Start

abbrev refusing : Text → Text
refusing reason = codes "ratewall: refusing to start — " ++ reason

module _ (o : Outside) (p : Platform o) where
  abbrev no_keys : Text → AuthError → Text
  no_keys keys_dir e = refusing (
      codes "cannot load signing keys from "
      ++ (keys_dir
          ++ (codes ": "
              ++ (Errors.describe e
                  ++ (b'\n'
                      ∷ codes
                          "Auth is fail-closed: there is no safe fallback to unauthenticated operation.")))))

  abbrev own_keys : Text → ℕ → Loaded o.crypto p.files p.pem → AuthSetup o × p.files.Disk
  own_keys keys_dir ttl (err e, disk) = (refused (no_keys keys_dir e), disk)
  own_keys keys_dir ttl (ok (key, created), disk) = (
    ready (record { verifying_key = o.crypto.verifying_key key; trusted_issuer = some own_issuer })
        (some (record { signing_key = key; issuer = own_issuer; ttl = from_secs ttl })),
    disk,
  )

  abbrev trust_issuer : Text → Option Text → Result Text o.crypto.VerifyingKey → AuthSetup o
  trust_issuer path issuer (err e) =
      refused (refusing (path ++ (codes " is not a valid Ed25519 public key: " ++ e)))
  trust_issuer path none (ok key) = panicked
  trust_issuer path (some issuer) (ok key) =
      ready (record { verifying_key = key; trusted_issuer = some issuer }) none

  abbrev no_issuer_key : Text → Text → Text
  no_issuer_key path e = refusing (codes "cannot read issuer key " ++ (path ++ (codes ": " ++ e)))

  abbrev issuer_key : Text → Option Text → Contents → AuthSetup o
  issuer_key path issuer (found text) = trust_issuer path issuer (p.from_public_key_pem text)
  issuer_key path issuer not_found = refused (no_issuer_key path p.no_such_file)
  issuer_key path issuer (unreadable e) = refused (no_issuer_key path e)

  abbrev external_issuer : Option Text → Option Text → p.files.Disk → AuthSetup o
  external_issuer issuer none disk = panicked
  external_issuer issuer (some path) disk =
      issuer_key path issuer (p.files.read_to_string path disk)

  -- `generated` is the key that a first boot would make.
  pub set_up_auth : AuthConfig → o.crypto.SigningKey → p.files.Disk → AuthSetup o × p.files.Disk
  set_up_auth auth generated disk =
      if issues_own_tokens auth
      then (let keys_dir = or_default default_keys_dir auth.keys_dir in
          own_keys keys_dir auth.token_ttl_secs
            (load_or_create_signing_key o.crypto p.files p.pem keys_dir generated disk))
      else (external_issuer auth.issuer auth.issuer_public_key_pem disk, disk)

  abbrev limiter_of : GatewayConfig → Result Text RateLimiter
  limiter_of c =
      connect o.http.debug p.create_pool c.ratelimit.redis_url c.ratelimit.limit
        (from_secs c.ratelimit.window_secs) none

  abbrev breakers_of : GatewayConfig → List Route → Breakers
  breakers_of c routes = Registry.new routes (record {
    failure_threshold = c.breaker.failure_threshold;
    cooldown = from_secs c.breaker.cooldown_secs;
  })

  -- `expect` on the new state, and what is enabled on it.
  abbrev proxy_of :
      GatewayConfig
      → List Route
      → AuthState o.crypto
      → Option (LoginState o.crypto)
      → RateLimiter
      → Result Text (Proxy o)
      → Start o
  proxy_of c routes gate login limiter (err e) = no_proxy e
  proxy_of c routes gate login limiter (ok proxy) =
      let (state, shared) = with_metrics o (new_metrics o.floats) (
        with_breakers o (breakers_of c routes) c.breaker.timeout_secs
          (with_limiter o limiter (with_auth o gate proxy))) in
      serving state shared login

  abbrev serve_with :
      GatewayConfig
      → List Route
      → o.redis.Store
      → AuthState o.crypto
      → Option (LoginState o.crypto)
      → Result Text RateLimiter
      → Start o
  serve_with c routes store gate login (err e) =
      exited (refusing (codes "invalid rate limit config: " ++ e))
  serve_with c routes store gate login (ok limiter) =
      proxy_of c routes gate login limiter (new o p.build_client routes store)

  abbrev assemble : GatewayConfig → List Route → o.redis.Store → AuthSetup o → Start o
  assemble c routes store (refused message) = exited message
  assemble c routes store panicked = failed
  assemble c routes store (ready gate login) = serve_with c routes store gate login (limiter_of c)

  abbrev with_routes :
      GatewayConfig
      → o.crypto.SigningKey
      → o.redis.Store
      → p.files.Disk
      → Result ConfigError (List Route)
      → Start o × p.files.Disk
  with_routes c generated store disk (err e) = (
    exited (refusing (codes "config validation failed: " ++ ConfigErrors.describe o.http.debug e)),
    disk,
  )
  with_routes c generated store disk (ok routes) =
      let (auth, disk') = set_up_auth c.auth generated disk in (assemble c routes store auth, disk')

  abbrev with_config :
      o.crypto.SigningKey
      → o.redis.Store
      → p.files.Disk
      → Result ConfigError GatewayConfig
      → Start o × p.files.Disk
  with_config generated store disk (err e) =
      (exited (refusing (codes "invalid config: " ++ ConfigErrors.describe o.http.debug e)), disk)
  with_config generated store disk (ok c) = with_routes c generated store disk (validate c)

  abbrev no_config : Text → Text → Text
  no_config config_path e = refusing (
      codes "cannot read config at "
      ++ (config_path
          ++ (codes ": "
              ++ (e
                  ++ (b'\n'
                      ∷ codes
                          "Set RATEWALL_CONFIG or mount a config.toml with at least one [routes] entry.")))))

  abbrev with_text :
      Text → o.crypto.SigningKey → o.redis.Store → p.files.Disk → Contents → Start o × p.files.Disk
  with_text config_path generated store disk (found text) =
      with_config generated store disk (from_toml p.toml_from_str text)
  with_text config_path generated store disk not_found =
      (exited (no_config config_path p.no_such_file), disk)
  with_text config_path generated store disk (unreadable e) =
      (exited (no_config config_path e), disk)

  pub start : Text → o.crypto.SigningKey → o.redis.Store → p.files.Disk → Start o × p.files.Disk
  unfolding set_up_auth
  start config_path generated store disk =
      with_text config_path generated store disk (p.files.read_to_string config_path disk)

  -- The gateway serves behind a gate with an issuer, with a limiter, breakers and a registry, or it
  -- fails over its HTTP client.
  abbrev pub IsGuarded : Start o → Type 0
  IsGuarded (exited message) = Unit {0}
  IsGuarded failed = ⊥
  IsGuarded (no_proxy error) = p.build_client ≡ err error
  IsGuarded (serving state shared login) =
      ((gate : AuthState o.crypto) × (state.auth ≡ some gate) × (gate.trusted_issuer ≢ none))
      × (state.limiter ≢ none)
      × (shared.breakers ≢ none)
      × (shared.metrics ≢ none)
