-- ===== src/UnitTests/Router.antt =====
-- `mod tests` of core/src/router.rs: one request to the application over a mock backend. How axum
-- finds a handler, JSON, what the request meets, and the bodies are arguments.
pub mod Passes
use ratewall.Prelude.{
  ℕ, Bool, true, false, ◌&&◌, ◌==◌, Option, none, some, List, [], ◌∷◌, ◌++◌, is_some, Result, ok,
  err,
}
use ratewall.Prelude.Text.{Text, codes, text_eq, strip_prefix, split_once}
use ratewall.Prelude.Table.{get}
use ratewall.Config.{Route}
use ratewall.Http.{
  HeaderMap, Request, Response, Payload, message, payload, ok_200, not_found, bad_gateway,
}
use ratewall.Middleware.{request_id_header, request_id_and_trace}
use ratewall.Router.{Outside, Outgoing, Answer, Proxy, Moment, new}
use ratewall.Gateway.App.{Axum, Reply, build_router, dispatch}

-- The JSON object that the mock backend answers with, and a field of a body.
pub record Echo (bytes : Type 0) : Type 0 where
  pub json : (method path query : Text) → bytes
  pub field : Text → bytes → Option Text

-- A path and the query, empty if there is none.
abbrev pub path_and_query : Text → Option (Text × Text) → Text × Text
path_and_query target none = (target, [])
path_and_query target (some parts) = parts

abbrev pub crm : Text
crm = codes "crm"

-- A backend that is never contacted, or refuses connections.
abbrev pub port_one : Text
port_one = codes "http://127.0.0.1:1"

abbrev pub crm_at : Text → List Route
crm_at backend = record { prefix = crm; backend = backend } ∷ []

module _ (o : Outside) where
  -- `spawn_mock_backend`: what it answers to a request for its address.
  unfoldable pub mock_backend : Echo o.http.Bytes → Text → Outgoing o → Option (Answer o)
  mock_backend echo address out = elim (strip_prefix address out.target) [
    | none ↦ none
    | some target ↦
        let (path, query) = path_and_query target (split_once b'?' target) in
        some
          (record { status = ok_200; headers = []; body = some (echo.json out.method path query) })
  ]

  abbrev pub request_of :
      (method path : Text) → Option Text → HeaderMap → o.http.Body → Request o.http
  request_of method path query headers body = record {
    method = method;
    path = path;
    query = query;
    headers = headers;
    body = body;
  }

  -- `body[name] == expected`
  unfoldable pub body_has : Echo o.http.Bytes → Text → Text → Payload o.http → Bool
  body_has echo name expected (message text) = false
  body_has echo name expected (payload bytes) = elim (echo.field name bytes) [
    | none ↦ false
    | some value ↦ text_eq value expected
  ]

  module _ (axum : Axum o.http) where
    -- `build_router(state).oneshot(request)`
    unfoldable pub oneshot : Proxy o → Moment o → Request o.http → Response o.http
    unfolding dispatch
    oneshot (state, s) m request =
        let found = axum.find build_router request.method request.path in
        axum.into_response (dispatch o axum state none request m s found).0

  -- `ProxyState::new(&routes).expect("state")`
  abbrev pub expect_state : Result Text (Proxy o) → (Proxy o → Bool) → Bool
  expect_state (err e) holds = false
  expect_state (ok proxy) holds = holds proxy

  -- `client` is what the builder of the HTTP client gives.
  module _ (axum : Axum o.http) (client : Result Text (Unit {0})) where
    unfoldable pub healthz_returns_ok : o.redis.Store → Moment o → o.http.Body → Bool
    healthz_returns_ok store m empty =
        let request = request_of (codes "GET") (codes "/healthz") none [] empty in
        expect_state (new o client (crm_at port_one) store)
          λ state. (oneshot axum state m request).status == ok_200

    unfoldable pub routes_round_trip_to_backend_with_path_and_query :
        Echo o.http.Bytes
        → (backend_url generated : Text) → o.redis.Store
        → Moment o
        → o.http.Body
        → Bool
    routes_round_trip_to_backend_with_path_and_query echo backend_url generated store m empty =
        let routes : List Route =
          record { prefix = crm; backend = backend_url }
          ∷ record { prefix = codes "hrm"; backend = backend_url }
          ∷ [] in
        let meets = record m { exchange = mock_backend echo backend_url } in
        expect_state (new o client routes store) λ state.
          let app : Request o.http → Response o.http =
            λ request. request_id_and_trace o.http (oneshot axum state meets) generated request in
          let customer = app (
            request_of (codes "GET") (codes "/crm/customers/42") (some (codes "verbose=1")) []
              empty) in
          let root = app (request_of (codes "GET") (codes "/hrm") none [] empty) in
          customer.status == ok_200
          && is_some (get request_id_header customer.headers)
          && body_has echo (codes "path") (codes "/customers/42") customer.body
          && body_has echo (codes "query") (codes "verbose=1") customer.body
          && root.status == ok_200
          && body_has echo (codes "path") (codes "/") root.body

    unfoldable pub unknown_prefix_is_404 : o.redis.Store → Moment o → o.http.Body → Bool
    unknown_prefix_is_404 store m empty =
        let request = request_of (codes "GET") (codes "/nope/thing") none [] empty in
        expect_state (new o client (crm_at port_one) store)
          λ state. (oneshot axum state m request).status == not_found

    -- The exchange with the reserved port fails.
    unfoldable pub unreachable_backend_is_502 : o.redis.Store → Moment o → o.http.Body → Bool
    unreachable_backend_is_502 store m empty =
        let refused = record m { exchange = λ out. none } in
        let request = request_of (codes "GET") (codes "/crm/anything") none [] empty in
        expect_state (new o client (crm_at port_one) store)
          λ state. (oneshot axum state refused request).status == bad_gateway

    unfoldable pub post_method_is_forwarded :
        Echo o.http.Bytes → (backend_url : Text) → o.redis.Store → Moment o → o.http.Body → Bool
    post_method_is_forwarded echo backend_url store m body =
        let meets = record m { exchange = mock_backend echo backend_url } in
        let request =
          request_of (codes "POST") (codes "/crm/customers") none
            ((codes "content-type", codes "application/json") ∷ []) body in
        expect_state (new o client (crm_at backend_url) store) λ state.
          let response = oneshot axum state meets request in
          response.status == ok_200
          && body_has echo (codes "method") (codes "POST") response.body
          && body_has echo (codes "path") (codes "/customers") response.body
