-- ===== src/Gateway/Starts.antt =====
-- When the process does start, and what it then serves (gateway/src/main.rs).
use ratewall.Prelude.{
  ◌≡◌, refl, Bool, true, false, ◌∙◌, Option, none, some, List, [], arith, ok, err,
}
use ratewall.Prelude.Text.{Text}
use ratewall.Prelude.Table.{or_default}
use ratewall.Prelude.Time.{from_secs}
use ratewall.Config.{
  AuthConfig, GatewayConfig, Route, issues_own_tokens, validate, from_toml, backend_timeout,
}
use ratewall.Config.Routes.{bind_routes}
use ratewall.Config.Validate.{IsUsable, validate_iff}
use ratewall.Auth.Keys.{found, load_or_create_signing_key}
use ratewall.Auth.Gate.{AuthState}
use ratewall.Auth.Login.{LoginState}
use ratewall.Ratelimit.{connect}
use ratewall.Circuit.Registry.{new}
use ratewall.Metrics.{new_metrics}
use ratewall.Router.{Outside, ProxyState, Shared, backends_of}
use ratewall.Gateway.{
  default_keys_dir, own_issuer, Platform, ready, set_up_auth, Start, no_proxy, serving, assemble,
  start,
}

module _ (o : Outside) (c : GatewayConfig) where
  -- What never changes while the process serves, and what the handlers share at first.
  abbrev pub configured_state : AuthState o.crypto → ProxyState o
  configured_state gate = record {
    backends = backends_of (bind_routes c.routes);
    auth = some gate;
    limiter = some (record {
      limit = c.ratelimit.limit;
      window = from_secs c.ratelimit.window_secs;
      key_prefix = [];
    });
    backend_timeout = backend_timeout c;
  }

  abbrev pub configured_shared : o.redis.Store → Shared o
  configured_shared store = record {
    breakers = some (
        new (bind_routes c.routes) (record {
          failure_threshold = c.breaker.failure_threshold;
          cooldown = from_secs c.breaker.cooldown_secs;
        }));
    metrics = some (new_metrics o.floats);
    store = store;
  }

module _ (o : Outside) (p : Platform o) (c : GatewayConfig) where
  accepted : IsUsable c → validate c ≡ ok (bind_routes c.routes)
  accepted usable = (validate_iff c (bind_routes c.routes)).1 (usable, refl)

  read_in :
      (text : Text) (routes : List Route)
      → p.toml_from_str text ≡ ok c
      → validate c ≡ ok routes
      → from_toml p.toml_from_str text ≡ ok c
  unfolding from_toml
  read_in text routes parsed h = ground arith

  -- What the process serves, with this gate and login.
  abbrev pub as_configured :
      AuthState o.crypto → Option (LoginState o.crypto) → o.redis.Store → Start o
  as_configured gate login store =
      serving (configured_state o c gate) (configured_shared o c store) login

  pub assembled :
      (gate : AuthState o.crypto) (login : Option (LoginState o.crypto)) (store : o.redis.Store)
      → p.create_pool c.ratelimit.redis_url ≡ ok tt
      → p.build_client ≡ ok tt
      → assemble o p c (bind_routes c.routes) store (ready gate login)
        ≡ as_configured gate login store
  unfolding connect backend_timeout
  assembled gate login store h k = rw h (rw k refl)

  assembled_without_client :
      (gate : AuthState o.crypto) (login : Option (LoginState o.crypto)) (store : o.redis.Store)
      (error : Text)
      → p.create_pool c.ratelimit.redis_url ≡ ok tt
      → p.build_client ≡ err error
      → assemble o p c (bind_routes c.routes) store (ready gate login) ≡ no_proxy error
  unfolding connect
  assembled_without_client gate login store error h k = rw h (rw k refl)

  module _ (config_path text : Text) (generated : o.crypto.SigningKey) (store : o.redis.Store)
      (disk : p.files.Disk) (gate : AuthState o.crypto) (login : Option (LoginState o.crypto)) where
    start-assemble :
        p.files.read_to_string config_path disk ≡ found text
        → p.toml_from_str text ≡ ok c
        → IsUsable c
        → (set_up_auth o p c.auth generated disk).0 ≡ ready gate login
        → (start o p config_path generated store disk).0
          ≡ assemble o p c (bind_routes c.routes) store (ready gate login)
    unfolding start
    start-assemble read parsed usable auth =
        let valid = accepted usable in
        rw (read, read_in text (bind_routes c.routes) parsed valid, valid, auth) refl

    pub started :
        p.files.read_to_string config_path disk ≡ found text
        → p.toml_from_str text ≡ ok c
        → IsUsable c
        → p.create_pool c.ratelimit.redis_url ≡ ok tt
        → p.build_client ≡ ok tt
        → (set_up_auth o p c.auth generated disk).0 ≡ ready gate login
        → (start o p config_path generated store disk).0 ≡ as_configured gate login store
    started read parsed usable pool client auth =
        start-assemble read parsed usable auth ∙ assembled gate login store pool client

    -- If all is well but the HTTP client cannot be built, the `expect` on the state of the proxy
    -- fails with the client's error.
    started_without_client :
        (error : Text)
        → p.files.read_to_string config_path disk ≡ found text
        → p.toml_from_str text ≡ ok c
        → IsUsable c
        → p.create_pool c.ratelimit.redis_url ≡ ok tt
        → p.build_client ≡ err error
        → (set_up_auth o p c.auth generated disk).0 ≡ ready gate login
        → (start o p config_path generated store disk).0 ≡ no_proxy error
    started_without_client error read parsed usable pool client auth =
        start-assemble read parsed usable auth
        ∙ assembled_without_client gate login store error pool client

module _ (o : Outside) (p : Platform o) (auth : AuthConfig) where
  own_keys_ready :
      (generated key : o.crypto.SigningKey) (created : Bool) (disk : p.files.Disk)
      → issues_own_tokens auth ≡ true
      → (load_or_create_signing_key o.crypto p.files p.pem
          (or_default default_keys_dir auth.keys_dir)
          generated
          disk).0
        ≡ ok (key, created)
      → (set_up_auth o p auth generated disk).0
        ≡ ready
            (record {
              verifying_key = o.crypto.verifying_key key;
              trusted_issuer = some own_issuer;
            })
            (some (record {
              signing_key = key;
              issuer = own_issuer;
              ttl = from_secs auth.token_ttl_secs;
            }))
  unfolding set_up_auth
  own_keys_ready generated key created disk own loaded = rw (own, loaded) refl

  issuer_ready :
      (generated : o.crypto.SigningKey) (disk : p.files.Disk) (issuer path pem : Text)
      (key : o.crypto.VerifyingKey)
      → issues_own_tokens auth ≡ false
      → auth.issuer ≡ some issuer
      → auth.issuer_public_key_pem ≡ some path
      → p.files.read_to_string path disk ≡ found pem
      → p.from_public_key_pem pem ≡ ok key
      → (set_up_auth o p auth generated disk).0
        ≡ ready (record { verifying_key = key; trusted_issuer = some issuer }) none
  unfolding set_up_auth
  issuer_ready generated disk issuer path pem key external named at read parsed =
      rw (external, named, at, read, parsed) refl

module _ (o : Outside) (p : Platform o) (c : GatewayConfig) (config_path text : Text)
    (generated : o.crypto.SigningKey) (store : o.redis.Store) (disk : p.files.Disk)
    (read : p.files.read_to_string config_path disk ≡ found text)
    (parsed : p.toml_from_str text ≡ ok c) (usable : IsUsable c)
    (pool : p.create_pool c.ratelimit.redis_url ≡ ok tt) (client : p.build_client ≡ ok tt) where
  -- If the gateway issues its own tokens, the process serves, and does not exit, whenever the
  -- configuration file can be read, the parser gives a usable configuration, a Redis pool can be
  -- made for its URL, the HTTP client can be built, and the signing key is loaded or made. It then
  -- serves with that key's gate, the issuer `ratewall` and the login, and with the routes, limits,
  -- thresholds and timeouts of the configuration.
  pub start-own_keys :
      (key : o.crypto.SigningKey) (created : Bool)
      → issues_own_tokens c.auth ≡ true
      → (load_or_create_signing_key o.crypto p.files p.pem
          (or_default default_keys_dir c.auth.keys_dir)
          generated
          disk).0
        ≡ ok (key, created)
      → (start o p config_path generated store disk).0
        ≡ as_configured o p c
            (record {
              verifying_key = o.crypto.verifying_key key;
              trusted_issuer = some own_issuer;
            })
            (some (record {
              signing_key = key;
              issuer = own_issuer;
              ttl = from_secs c.auth.token_ttl_secs;
            }))
            store
  start-own_keys key created own loaded =
      started o p c config_path text generated store disk _ _ read parsed usable pool client
        (own_keys_ready o p c.auth generated key created disk own loaded)

  -- If the configuration names an issuer and its key file, the process serves, and does not exit,
  -- whenever the configuration file can be read, the parser gives a usable configuration, a Redis
  -- pool can be made for its URL, the HTTP client can be built, and the issuer's public key can be
  -- read and parsed. It then serves with a gate for that key and issuer and without a login, and
  -- otherwise as configured.
  start-issuer :
      (issuer path pem : Text) (key : o.crypto.VerifyingKey)
      → issues_own_tokens c.auth ≡ false
      → c.auth.issuer ≡ some issuer
      → c.auth.issuer_public_key_pem ≡ some path
      → p.files.read_to_string path disk ≡ found pem
      → p.from_public_key_pem pem ≡ ok key
      → (start o p config_path generated store disk).0
        ≡ as_configured o p c
            (record { verifying_key = key; trusted_issuer = some issuer })
            none
            store
  start-issuer issuer path pem key external named at found_pem parsed_pem =
      started o p c config_path text generated store disk _ _ read parsed usable pool client (
        issuer_ready o p c.auth generated disk issuer path pem key external named at found_pem
          parsed_pem)
