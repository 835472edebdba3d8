-- ===== src/Gateway/App/Contacts.antt =====
-- On whose behalf the process contacts a backend.
use ratewall.Prelude.{◌≡◌, ◌≢◌, ◌↔◌, refl, Option, none, some, Result, ok, err, arith, ◌++◌}
use ratewall.Prelude.Text.{Text}
use ratewall.Auth.Verify.{IsAuthentic}
use ratewall.Auth.Gate.{AuthState, presented_token, check_bearer, check_bearer_iff}
use ratewall.Auth.Login.{LoginState}
use ratewall.Http.{Request, Response}
use ratewall.Router.{Outside, Outgoing, ProxyState, Shared, Moment}
use ratewall.Router.Fallback.{authenticate, verified}
use ratewall.Router.Order.{IsOpen, proxy_fallback-contacted}
use ratewall.Gateway.{Platform, serving, start, IsGuarded}
use ratewall.Gateway.Guards.{start-IsGuarded}
use ratewall.Gateway.App.{
  Axum, Match, handler, method_not_allowed, fallback, health, readiness, scrape, sign_in,
  build_router, login_router, dispatch, serve_request,
}

module _ (o : Outside) (axum : Axum o.http) (state : ProxyState o)
    (issuer : Option (LoginState o.crypto)) (request : Request o.http) (m : Moment o) (s : Shared o)
    (out : Outgoing o) where
  dispatch-contacted :
      (found : Match)
      → ((dispatch o axum state issuer request m s found).2 ≡ some out)
        ↔ ((found ≡ fallback) × IsOpen o state request m s out)
  unfolding dispatch
  dispatch-contacted (handler health) = (λ h. cc, λ h. cc (h.0))
  dispatch-contacted (handler readiness) = (λ h. cc, λ h. cc (h.0))
  dispatch-contacted (handler scrape) = (λ h. cc, λ h. cc (h.0))
  dispatch-contacted (handler sign_in) = (λ h. cc, λ h. cc (h.0))
  dispatch-contacted method_not_allowed = (λ h. cc, λ h. cc (h.0))
  dispatch-contacted fallback =
      let (sound, complete) = proxy_fallback-contacted o state request m s out in
      (λ h. (refl, sound h), λ h. complete h.1)

-- The process contacts a backend for a request exactly when no other handler takes the path and
-- the way through the proxy is open.
pub serve_request-contacted :
    (o : Outside) (axum : Axum o.http) (state : ProxyState o)
    (issuer : Option (LoginState o.crypto)) (generated : Text) (request : Request o.http)
    (m : Moment o) (s : Shared o) (out : Outgoing o)
    → ((serve_request o axum state issuer generated request m s).contacted ≡ some out) ↔ (
        (axum.find (build_router ++ login_router issuer) request.method request.path ≡ fallback)
        × IsOpen o state request m s out)
unfolding serve_request
serve_request-contacted o axum state issuer generated request m s out =
    dispatch-contacted o axum state issuer request m s out
      (axum.find (build_router ++ login_router issuer) request.method request.path)

is_named : (issuer : Option Text) → issuer ≢ none → (name : Text) × (issuer ≡ some name)
is_named none h = absurd (h refl)
is_named (some name) h = (name, refl)

is_verified :
    (o : Outside) (r : Result (Response o.http) Text) (subject : Option Text)
    → verified o r ≡ ok subject
    → (name : Text) × (r ≡ ok name)
is_verified o (err response) subject h = cc
is_verified o (ok name) subject h = (name, refl)

module _ (o : Outside) (p : Platform o) (axum : Axum o.http) where
  authentic :
      (auth : Option (AuthState o.crypto)) (gate : AuthState o.crypto) (request : Request o.http)
      (m : Moment o) (subject : Option Text)
      → auth ≡ some gate
      → authenticate o auth m request ≡ ok subject
      → (name : Text) × (check_bearer o.crypto o.http gate m.unix_now request ≡ ok name)
  unfolding authenticate
  authentic none gate request m subject e h = cc
  authentic (some auth) gate request m subject e h =
      let (name, passed) =
        is_verified o (check_bearer o.crypto o.http auth m.unix_now request) subject h in
      (name, ground (arith, passed))

  -- A process that has started, from whatever configuration and key files, contacts a backend only
  -- for a request that presents a bearer token which at that moment is authentic, for some
  -- subject, under the key of its gate and the issuer that the gate trusts.
  pub start-contacts :
      (config_path : Text) (key : o.crypto.SigningKey) (store : o.redis.Store) (disk : p.files.Disk)
      (state : ProxyState o) (shared : Shared o) (issuer : Option (LoginState o.crypto))
      (generated : Text) (request : Request o.http) (m : Moment o) (s : Shared o) (out : Outgoing o)
      → (start o p config_path key store disk).0 ≡ serving state shared issuer
      → (serve_request o axum state issuer generated request m s).contacted ≡ some out
      → (gate : AuthState o.crypto) × (name : Text) × (token : Text) × (subject : Text)
        × (state.auth ≡ some gate)
        × (gate.trusted_issuer ≡ some name)
        × (presented_token o.http request ≡ some token)
        × IsAuthentic o.crypto gate.verifying_key token gate.trusted_issuer m.unix_now subject
  start-contacts config_path key store disk state shared issuer generated request m s out e h =
      let guarded : IsGuarded o p (serving state shared issuer) =
        rw e at (start-IsGuarded o p config_path key store disk) in
      let (gate, gated, trusts) = guarded.0 in
      let (name, named) = is_named gate.trusted_issuer trusts in
      let (first, way) =
        (serve_request-contacted o axum state issuer generated request m s out).0 h in
      let (subject, passed) =
        authentic state.auth gate request m way.subject gated way.authenticated in
      let (token, presented, true_token) =
        ((check_bearer_iff o.crypto o.http gate m.unix_now request).0 subject).0 passed in
      (gate, name, token, subject, gated, named, presented, true_token)
