-- ===== src/Gateway/App.antt =====
-- The application that the process serves: `build_router` of core/src/router.rs, `router` of
-- core/src/auth_login.rs under `/auth`, and the request id around both (gateway/src/main.rs). How
-- axum finds the handler of a path, reads a JSON body and writes a response is a parameter.
pub mod Contacts
pub mod Paths
use ratewall.Prelude.{ℕ, Bool, Option, none, some, List, [], ◌∷◌, ◌++◌, ◌≡◌, ◌≢◌, All}
use ratewall.Prelude.Text.{Text, codes}
use ratewall.Prelude.Table.{Table}
use ratewall.Auth.Login.{LoginState, LoginRequest, Login, login}
use ratewall.Http.{Http, Request, Response}
use ratewall.Middleware.{request_id_and_trace}
use ratewall.Router.{Outside, Outgoing, ProxyState, Shared, Moment, Handled}
use ratewall.Router.Fallback.{proxy_fallback}
use ratewall.Router.Endpoints.{healthz, readyz, metrics_endpoint}

pub data Endpoint : Type 0 where
  health readiness scrape sign_in : Endpoint

-- A handler at a method and a path.
pub record Mounted : Type 0 where
  pub method : Text
  pub path : Text
  pub endpoint : Endpoint

-- A handler, `405`, or the fallback.
pub data Match : Type 0 where
  handler : Endpoint → Match
  method_not_allowed : Match
  fallback : Match

-- What a handler returns, before axum makes a response of it.
pub data Reply (http : Http) : Type 0 where
  status : ℕ → Reply http
  components : ℕ → Table Bool → Reply http
  logged_in : Login → Reply http
  rejected : (by : Match) → Reply http
  response : Response http → Reply http

pub record Axum (http : Http) : Type 0 where
  pub find : List Mounted → (method path : Text) → Match
  -- The body as JSON, none if it is rejected.
  pub payload : Request http → Option LoginRequest
  pub into_response : Reply http → Response http

-- What axum documents for paths without parameters, for the routes that are used here.
pub record Documented (http : Http) (axum : Axum http) : Type 0 where
  pub found :
      (before after : List Mounted) (x : Mounted)
      → All (λ y. y.path ≢ x.path) before
      → All (λ y. y.path ≢ x.path) after
      → axum.find (before ++ x ∷ after) x.method x.path ≡ handler x.endpoint
  pub missed :
      (mounted : List Mounted) (method path : Text)
      → All (λ y. y.path ≢ path) mounted
      → axum.find mounted method path ≡ fallback
  pub keeps_response : (r : Response http) → axum.into_response (response r) ≡ r
  pub keeps_status : (n : ℕ) → (axum.into_response (status n)).status ≡ n

-- `build_router`: the endpoints in front of the fallback.
abbrev pub build_router : List Mounted
build_router =
    record { method = codes "GET"; path = codes "/healthz"; endpoint = health }
    ∷ record { method = codes "GET"; path = codes "/readyz"; endpoint = readiness }
    ∷ record { method = codes "GET"; path = codes "/metrics"; endpoint = scrape }
    ∷ []

-- `auth_login::router`, nested at `/auth` if the gateway issues its own tokens.
abbrev pub login_router : {A : Type 0} → Option A → List Mounted
login_router none = []
login_router (some state) =
    record { method = codes "POST"; path = codes "/auth/login"; endpoint = sign_in } ∷ []

module _ (o : Outside) (axum : Axum o.http) where
  abbrev log_in : Option (LoginState o.crypto) → ℕ → Option LoginRequest → Reply o.http
  log_in (some state) now (some payload) = logged_in (login o.crypto state now payload)
  log_in _ now _ = rejected (handler sign_in)

  -- The reply of the handler that was found, what it leaves behind, and the request that it handed
  -- to the HTTP client.
  unfoldable pub dispatch :
      ProxyState o
      → Option (LoginState o.crypto)
      → Request o.http
      → Moment o
      → Shared o
      → Match
      → Reply o.http × Shared o × Option (Outgoing o)
  dispatch state issuer request m s (handler health) = (status (healthz o), s, none)
  dispatch state issuer request m s (handler readiness) =
      let (code, parts) = readyz o state s in (components code parts, s, none)
  dispatch state issuer request m s (handler scrape) =
      let (text, s') = metrics_endpoint o s in (response text, s', none)
  dispatch state issuer request m s (handler sign_in) =
      (log_in issuer m.unix_now (axum.payload request), s, none)
  dispatch state issuer request m s method_not_allowed = (rejected method_not_allowed, s, none)
  dispatch state issuer request m s fallback =
      let handled = proxy_fallback o state request m s in
      (response handled.response, handled.shared, handled.contacted)

  -- One request to the process. `generated` is the UUID that would be made.
  unfoldable pub serve_request :
      ProxyState o
      → Option (LoginState o.crypto)
      → (generated : Text) → Request o.http
      → Moment o
      → Shared o
      → Handled o
  unfolding dispatch
  serve_request state issuer generated request m s =
      let mounted = build_router ++ login_router issuer in
      let (reply, s', contacted) =
        dispatch state issuer request m s (axum.find mounted request.method request.path) in
      record {
        response = request_id_and_trace o.http (λ r. axum.into_response reply) generated request;
        shared = s';
        contacted = contacted;
      }
