-- ===== src/Gateway/Guards.antt =====
-- What the process has in front of its backends once it serves (gateway/src/main.rs).
use ratewall.Prelude.{
  ℕ, ◌≡◌, ◌≢◌, inl, inr, refl, false, Option, none, some, List, arith, Result, ok, err, Bool-cases,
}
use ratewall.Prelude.Text.{Text}
use ratewall.Prelude.Table.{or_default}
use ratewall.Config.{
  AuthConfig, GatewayConfig, Route, ConfigError, issues_own_tokens, validate, from_toml,
}
use ratewall.Config.Validate.{AuthIsUsable, validate_iff}
use ratewall.Auth.Keys.{Contents, found, not_found, unreadable, Loaded, load_or_create_signing_key}
use ratewall.Auth.Gate.{AuthState}
use ratewall.Auth.Login.{LoginState}
use ratewall.Ratelimit.{RateLimiter}
use ratewall.Router.{Outside, new}
use ratewall.Gateway.{
  default_keys_dir, Platform, AuthSetup, refused, panicked, ready, own_keys, trust_issuer,
  issuer_key, external_issuer, set_up_auth, limiter_of, proxy_of, serve_with, assemble, with_routes,
  with_config, with_text, start, IsGuarded,
}

issuer_mode :
    (auth : AuthConfig)
    → issues_own_tokens auth ≡ false
    → AuthIsUsable auth
    → (auth.issuer ≢ none) × (auth.issuer_public_key_pem ≢ none)
unfolding issues_own_tokens
issuer_mode auth external (inl (no_issuer, no_key)) = absurd (ground arith)
issuer_mode auth external (inr (issuer, path, dir)) = (issuer, path)

module _ (o : Outside) (p : Platform o) where
  abbrev IsGuardedAuth : AuthSetup o → Type 0
  IsGuardedAuth (refused message) = Unit {0}
  IsGuardedAuth panicked = ⊥
  IsGuardedAuth (ready gate login) = gate.trusted_issuer ≢ none

  own_keys-IsGuardedAuth :
      (keys_dir : Text) (ttl : ℕ) (l : Loaded o.crypto p.files p.pem)
      → IsGuardedAuth (own_keys o p keys_dir ttl l).0
  own_keys-IsGuardedAuth keys_dir ttl (err e, disk) = tt
  own_keys-IsGuardedAuth keys_dir ttl (ok (key, created), disk) = ground arith

  trust_issuer-IsGuardedAuth :
      (path : Text) (issuer : Option Text) (r : Result Text o.crypto.VerifyingKey)
      → issuer ≢ none
      → IsGuardedAuth (trust_issuer o p path issuer r)
  trust_issuer-IsGuardedAuth path issuer (err e) h = tt
  trust_issuer-IsGuardedAuth path none (ok key) h = absurd (h refl)
  trust_issuer-IsGuardedAuth path (some i) (ok key) h = ground arith

  external_issuer-IsGuardedAuth :
      (issuer path : Option Text) (disk : p.files.Disk)
      → issuer ≢ none
      → path ≢ none
      → IsGuardedAuth (external_issuer o p issuer path disk)
  external_issuer-IsGuardedAuth issuer none disk h k = absurd (k refl)
  external_issuer-IsGuardedAuth issuer (some path) disk h k =
      read (p.files.read_to_string path disk)
    where
      read : (c : Contents) → IsGuardedAuth (issuer_key o p path issuer c)
      read (found text) = trust_issuer-IsGuardedAuth path issuer (p.from_public_key_pem text) h
      read not_found = tt
      read (unreadable e) = tt

  set_up_auth-IsGuardedAuth :
      (auth : AuthConfig) (generated : o.crypto.SigningKey) (disk : p.files.Disk)
      → AuthIsUsable auth
      → IsGuardedAuth (set_up_auth o p auth generated disk).0
  unfolding set_up_auth
  set_up_auth-IsGuardedAuth auth generated disk usable =
      elim (Bool-cases (issues_own_tokens auth)) [
        | inl own ↦ rw own (
            own_keys-IsGuardedAuth (or_default default_keys_dir auth.keys_dir) auth.token_ttl_secs (
              load_or_create_signing_key o.crypto p.files p.pem
                (or_default default_keys_dir auth.keys_dir) generated disk))
        | inr external ↦
            let (issuer, path) = issuer_mode auth external usable in
            rw external (
              external_issuer-IsGuardedAuth auth.issuer auth.issuer_public_key_pem disk issuer path)
      ]

  proxy_of-IsGuarded :
      (c : GatewayConfig) (routes : List Route) (store : o.redis.Store) (gate : AuthState o.crypto)
      (login : Option (LoginState o.crypto)) (limiter : RateLimiter)
      (client : Result Text (Unit {0}))
      → p.build_client ≡ client
      → gate.trusted_issuer ≢ none
      → IsGuarded o p (proxy_of o p c routes gate login limiter (new o client routes store))
  proxy_of-IsGuarded c routes store gate login limiter (err e) built h = built
  proxy_of-IsGuarded c routes store gate login limiter (ok _) built h =
      ((gate, refl, h), ground arith, ground arith, ground arith)

  serve_with-IsGuarded :
      (c : GatewayConfig) (routes : List Route) (store : o.redis.Store) (gate : AuthState o.crypto)
      (login : Option (LoginState o.crypto)) (limiter : Result Text RateLimiter)
      → gate.trusted_issuer ≢ none
      → IsGuarded o p (serve_with o p c routes store gate login limiter)
  serve_with-IsGuarded c routes store gate login (err e) h = tt
  serve_with-IsGuarded c routes store gate login (ok limiter) h =
      proxy_of-IsGuarded c routes store gate login limiter p.build_client refl h

  assemble-IsGuarded :
      (c : GatewayConfig) (routes : List Route) (store : o.redis.Store) (auth : AuthSetup o)
      → IsGuardedAuth auth
      → IsGuarded o p (assemble o p c routes store auth)
  assemble-IsGuarded c routes store (refused message) h = tt
  assemble-IsGuarded c routes store panicked h = absurd h
  assemble-IsGuarded c routes store (ready gate login) h =
      serve_with-IsGuarded c routes store gate login (limiter_of o p c) h

  with_routes-IsGuarded :
      (c : GatewayConfig) (generated : o.crypto.SigningKey) (store : o.redis.Store)
      (disk : p.files.Disk) (r : Result ConfigError (List Route))
      → validate c ≡ r
      → IsGuarded o p (with_routes o p c generated store disk r).0
  with_routes-IsGuarded c generated store disk (err e) h = tt
  with_routes-IsGuarded c generated store disk (ok routes) h =
      let usable = ((validate_iff c routes).0 h).0 in
      assemble-IsGuarded c routes store (set_up_auth o p c.auth generated disk).0
        (set_up_auth-IsGuardedAuth c.auth generated disk usable.auth)

  with_config-IsGuarded :
      (generated : o.crypto.SigningKey) (store : o.redis.Store) (disk : p.files.Disk)
      (r : Result ConfigError GatewayConfig)
      → IsGuarded o p (with_config o p generated store disk r).0
  with_config-IsGuarded generated store disk (err e) = tt
  with_config-IsGuarded generated store disk (ok c) =
      with_routes-IsGuarded c generated store disk (validate c) refl

  -- Whatever the configuration file and the key files hold, no `expect` on the issuer's settings
  -- fails, the `expect` on the state of the proxy fails only if the HTTP client cannot be built, and
  -- if the process neither exits nor fails there, its proxied routes are behind a gate that
  -- requires an issuer, with a limiter, breakers and a registry.
  pub start-IsGuarded :
      (config_path : Text) (generated : o.crypto.SigningKey) (store : o.redis.Store)
      (disk : p.files.Disk)
      → IsGuarded o p (start o p config_path generated store disk).0
  unfolding start
  start-IsGuarded config_path generated store disk = read (p.files.read_to_string config_path disk)
    where
      read : (c : Contents) → IsGuarded o p (with_text o p config_path generated store disk c).0
      read (found text) =
          with_config-IsGuarded generated store disk (from_toml p.toml_from_str text)
      read not_found = tt
      read (unreadable e) = tt
