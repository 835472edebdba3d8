-- ===== src/Gateway/Serves.antt =====
-- When the process serves, and what (gateway/src/main.rs): `start` read backwards.
use ratewall.Prelude.{◌≡◌, ◌↔◌, refl, ap, ◌∙◌, sym, Option, some, List, Result, ok, err, arith}
use ratewall.Prelude.Text.{Text}
use ratewall.Config.{AuthConfig, GatewayConfig, Route, ConfigError, validate, from_toml}
use ratewall.Config.Validate.{IsUsable, validate_iff}
use ratewall.Auth.Keys.{Contents, found, not_found, unreadable}
use ratewall.Auth.Gate.{AuthState}
use ratewall.Auth.Login.{LoginState}
use ratewall.Ratelimit.{connect}
use ratewall.Router.{Outside, ProxyState, Shared}
use ratewall.Gateway.{
  Platform, AuthSetup, refused, panicked, ready, set_up_auth, Start, serving, assemble, with_routes,
  with_config, with_text, start,
}
use ratewall.Gateway.Starts.{as_configured, assembled, started}

module _ (o : Outside) (p : Platform o) (store : o.redis.Store) (state : ProxyState o)
    (shared : Shared o) (login : Option (LoginState o.crypto)) where
  -- The configuration is usable, a pool and an HTTP client can be made, and the gate is set up.
  pub record IsConfigured (generated : o.crypto.SigningKey) (disk : p.files.Disk)
      (c : GatewayConfig) : Type 0 where
    pub usable : IsUsable c
    pub pool : p.create_pool c.ratelimit.redis_url ≡ ok tt
    pub client : p.build_client ≡ ok tt
    pub gate : AuthState o.crypto
    pub set_up : (set_up_auth o p c.auth generated disk).0 ≡ ready gate login
    pub serves : serving state shared login ≡ as_configured o p c gate login store

  module _ (generated : o.crypto.SigningKey) (disk : p.files.Disk) where
    abbrev pub Serves : Start o × p.files.Disk → Type 0
    Serves (outcome, left) = outcome ≡ serving state shared login

    ready_sound :
        (c : GatewayConfig) (routes : List Route) (gate : AuthState o.crypto)
        (issuer : Option (LoginState o.crypto)) (pooled built : Result Text (Unit {0}))
        → p.create_pool c.ratelimit.redis_url ≡ pooled
        → p.build_client ≡ built
        → assemble o p c routes store (ready gate issuer) ≡ serving state shared login
        → (p.create_pool c.ratelimit.redis_url ≡ ok tt)
          × (p.build_client ≡ ok tt)
          × (issuer ≡ login)
    unfolding connect
    ready_sound c routes gate issuer (err e) built k l h = absurd (ground arith)
    ready_sound c routes gate issuer (ok _) (err e) k l h = absurd (ground arith)
    ready_sound c routes gate issuer (ok _) (ok _) k l h = (k, l, ground arith)

    assemble_sound :
        (c : GatewayConfig) (routes : List Route) (auth : AuthSetup o)
        → assemble o p c routes store auth ≡ serving state shared login
        → (p.create_pool c.ratelimit.redis_url ≡ ok tt)
          × (p.build_client ≡ ok tt)
          × ((gate : AuthState o.crypto) × (auth ≡ ready gate login))
    assemble_sound c routes (refused message) h = cc
    assemble_sound c routes panicked h = cc
    assemble_sound c routes (ready gate issuer) h =
        let (pool, client, same) =
          ready_sound c routes gate issuer (p.create_pool c.ratelimit.redis_url) p.build_client refl
            refl h in
        (pool, client, (gate, cc))

    with_routes_sound :
        (c : GatewayConfig) (r : Result ConfigError (List Route))
        → validate c ≡ r
        → Serves (with_routes o p c generated store disk r)
        → IsConfigured generated disk c
    with_routes_sound c (err e) v h = cc
    with_routes_sound c (ok routes) v h =
        let (usable, bound) = (validate_iff c routes).0 v in
        let (pool, client, (gate, set_up)) =
          assemble_sound c routes (set_up_auth o p c.auth generated disk).0 h in
        record {
          usable = usable;
          pool = pool;
          client = client;
          gate = gate;
          set_up = set_up;
          serves =
              sym h
              ∙ ap (λ a. assemble o p c routes store a) set_up
              ∙ ap (λ r. assemble o p c r store (ready gate login)) bound
              ∙ assembled o p c gate login store pool client;
        }

    with_config_sound :
        (r : Result ConfigError GatewayConfig)
        → Serves (with_config o p generated store disk r)
        → (c : GatewayConfig) × (r ≡ ok c) × IsConfigured generated disk c
    with_config_sound (err e) h = cc
    with_config_sound (ok c) h = (c, refl, with_routes_sound c (validate c) refl h)

    parsed_by :
        (text : Text) (c : GatewayConfig)
        → from_toml p.toml_from_str text ≡ ok c
        → p.toml_from_str text ≡ ok c
    unfolding from_toml
    parsed_by text c h = ground arith

    module _ (config_path : Text) where
      -- The process found this configuration.
      pub record Configured (text : Text) (c : GatewayConfig) : Type 0 where
        pub read : p.files.read_to_string config_path disk ≡ found text
        pub parsed : p.toml_from_str text ≡ ok c
        pub configured : IsConfigured generated disk c

      with_text_sound :
          (contents : Contents)
          → p.files.read_to_string config_path disk ≡ contents
          → Serves (with_text o p config_path generated store disk contents)
          → (text : Text) × (c : GatewayConfig) × Configured text c
      with_text_sound (found text) read h =
          let (c, parsed, configured) = with_config_sound (from_toml p.toml_from_str text) h in
          (
            text,
            c,
            record { read = read; parsed = parsed_by text c parsed; configured = configured },
          )
      with_text_sound not_found read h = cc
      with_text_sound (unreadable e) read h = cc

      start_sound :
          Serves (start o p config_path generated store disk)
          → (text : Text) × (c : GatewayConfig) × Configured text c
      unfolding start
      start_sound h = with_text_sound (p.files.read_to_string config_path disk) refl h

-- The process gets to its listener exactly when its configuration file can be read, the parser
-- gives a usable configuration, a Redis pool can be made for its URL, the HTTP client can be built,
-- and the gate is set up, from its own keys or from the issuer's key; and it is then to serve with
-- that gate and login, and with the routes, limits, thresholds and timeouts of the configuration.
pub start_iff :
    (o : Outside) (p : Platform o) (config_path : Text) (generated : o.crypto.SigningKey)
    (store : o.redis.Store) (disk : p.files.Disk) (state : ProxyState o) (shared : Shared o)
    (login : Option (LoginState o.crypto))
    → ((start o p config_path generated store disk).0 ≡ serving state shared login) ↔ (
        (text : Text) × (c : GatewayConfig) × Configured o p store state shared login generated disk
          config_path text c)
start_iff o p config_path generated store disk state shared login =
    (start_sound o p store state shared login generated disk config_path, complete)
  where
    complete :
        ((text : Text) × (c : GatewayConfig) × Configured o p store state shared login generated
            disk config_path text c)
        → (start o p config_path generated store disk).0 ≡ serving state shared login
    complete (text, c, k) =
        let configured = k.configured in
        started o p c config_path text generated store disk configured.gate login k.read k.parsed
          configured.usable configured.pool configured.client configured.set_up
        ∙ sym configured.serves

-- A login uses the key and the issuer that the gate checks.
pub login_and_gate :
    (o : Outside) (p : Platform o) (auth : AuthConfig) (generated : o.crypto.SigningKey)
    (disk : p.files.Disk) (gate : AuthState o.crypto) (issuer : LoginState o.crypto)
    → (set_up_auth o p auth generated disk).0 ≡ ready gate (some issuer)
    → gate ≡ record {
      verifying_key = o.crypto.verifying_key issuer.signing_key;
      trusted_issuer = some issuer.issuer;
    }
unfolding set_up_auth
login_and_gate o p auth generated disk gate issuer h = ground arith
