-- ===== src/Gateway/App/Paths.antt =====
-- Which paths the process answers itself, and which go to the proxy.
use ratewall.Prelude.{◌≡◌, ◌≢◌, refl, ap, ◌∙◌, false, Option, none, some, [], ◌∷◌, ◌++◌, arith, All}
use ratewall.Prelude.Text.{Text, codes, text_eq, text_eq_iff}
use ratewall.Auth.Login.{LoginState}
use ratewall.Http.{Http, Request, Response, ok_200}
use ratewall.Middleware.{request_id_and_trace-status}
use ratewall.Router.{Outside, ProxyState, Shared, Moment}
use ratewall.Router.Fallback.{proxy_fallback}
use ratewall.Router.Endpoints.{metrics_endpoint}
use ratewall.Gateway.App.{
  Axum, Documented, Endpoint, Mounted, Match, handler, fallback, health, readiness, scrape,
  build_router, login_router, dispatch, serve_request,
}

pub apart : (s t : Text) → text_eq s t ≡ false → s ≢ t
apart s t h e = ground (arith, (text_eq_iff s t).1 e)

abbrev get : (path : Text) → Endpoint → Mounted
get path endpoint = record { method = codes "GET"; path = path; endpoint = endpoint }

login_elsewhere :
    {A : Type 0} (issuer : Option A) (path : Text)
    → codes "/auth/login" ≢ path
    → All (λ (y : Mounted). y.path ≢ path) (login_router issuer)
login_elsewhere none path h = tt
login_elsewhere (some a) path h = (h, tt)

module _ (o : Outside) (axum : Axum o.http) (documented : Documented o.http axum)
    (issuer : Option (LoginState o.crypto)) where
  abbrev find : (method path : Text) → Match
  find = axum.find (build_router ++ login_router issuer)

  pub find-health : find (codes "GET") (codes "/healthz") ≡ handler health
  unfolding text_eq
  find-health =
      documented.found [] _ (get (codes "/healthz") health) tt (
        apart _ _ refl,
        (apart _ _ refl, login_elsewhere issuer (codes "/healthz") (apart _ _ refl)),
      )

  find-readiness : find (codes "GET") (codes "/readyz") ≡ handler readiness
  unfolding text_eq
  find-readiness =
      documented.found (get (codes "/healthz") health ∷ []) _ (get (codes "/readyz") readiness)
        (apart _ _ refl, tt)
        (apart _ _ refl, login_elsewhere issuer (codes "/readyz") (apart _ _ refl))

  find-scrape : find (codes "GET") (codes "/metrics") ≡ handler scrape
  unfolding text_eq
  find-scrape =
      documented.found (get (codes "/healthz") health ∷ get (codes "/readyz") readiness ∷ [])
        (login_router issuer) (get (codes "/metrics") scrape) (apart _ _ refl, (apart _ _ refl, tt))
        (login_elsewhere issuer (codes "/metrics") (apart _ _ refl))

  pub find-fallback :
      (method path : Text)
      → codes "/healthz" ≢ path
      → codes "/readyz" ≢ path
      → codes "/metrics" ≢ path
      → codes "/auth/login" ≢ path
      → find method path ≡ fallback
  find-fallback method path h r t l =
      documented.missed (build_router ++ login_router issuer) method path
        (h, (r, (t, login_elsewhere issuer path l)))

module _ (o : Outside) (axum : Axum o.http) (state : ProxyState o)
    (issuer : Option (LoginState o.crypto)) (generated : Text) (request : Request o.http)
    (m : Moment o) (s : Shared o) where
  -- The handler that is found decides the status, the shared state and the backend.
  served_by :
      (found : Match)
      → axum.find (build_router ++ login_router issuer) request.method request.path ≡ found
      → ((serve_request o axum state issuer generated request m s).response.status
          ≡ (axum.into_response (dispatch o axum state issuer request m s found).0).status)
        × ((serve_request o axum state issuer generated request m s).shared
            ≡ (dispatch o axum state issuer request m s found).1)
        × ((serve_request o axum state issuer generated request m s).contacted
            ≡ (dispatch o axum state issuer request m s found).2)
  unfolding serve_request
  served_by found e =
      (request_id_and_trace-status o.http _ generated request ∙ rw e refl, rw e refl, rw e refl)

  -- A path that is none of the three endpoints and not `/auth/login` is left to the proxy,
  -- whatever the method: the status, the shared state and the contacted backend are those of
  -- `proxy_fallback`.
  pub serve_request-proxied :
      Documented o.http axum
      → codes "/healthz" ≢ request.path
      → codes "/readyz" ≢ request.path
      → codes "/metrics" ≢ request.path
      → codes "/auth/login" ≢ request.path
      → ((serve_request o axum state issuer generated request m s).response.status
          ≡ (proxy_fallback o state request m s).response.status)
        × ((serve_request o axum state issuer generated request m s).shared
            ≡ (proxy_fallback o state request m s).shared)
        × ((serve_request o axum state issuer generated request m s).contacted
            ≡ (proxy_fallback o state request m s).contacted)
  unfolding dispatch
  serve_request-proxied documented h r t l =
      let (code, shared, contacted) =
        served_by fallback
          (find-fallback o axum documented issuer request.method request.path h r t l) in
      (
        code
            ∙ ap (λ (x : Response o.http). x.status)
                (documented.keeps_response (proxy_fallback o state request m s).response),
        shared,
        contacted,
      )

-- `GET` of a path.
abbrev pub getting : {http : Http} → Text → Request http → Request http
getting path request = record request { method = codes "GET"; path = path }

-- Whatever the routes of the proxy are, also if one of them has the endpoint's name as its prefix,
-- `GET` of the three endpoints is answered without a backend and for any headers: `/healthz` with
-- 200, and neither it nor `/readyz` changes anything, while `/metrics` leaves the breakers and Redis
-- as they are.
pub serve_request-endpoints :
    (o : Outside) (axum : Axum o.http) (state : ProxyState o)
    (issuer : Option (LoginState o.crypto)) (generated : Text) (request : Request o.http)
    (m : Moment o) (s : Shared o)
    → Documented o.http axum
    → ((serve_request o axum state issuer generated
          (getting (codes "/healthz") request)
          m
          s).response.status
        ≡ ok_200)
      × ((serve_request o axum state issuer generated
            (getting (codes "/healthz") request)
            m
            s).contacted
          ≡ none)
      × ((serve_request o axum state issuer generated
            (getting (codes "/healthz") request)
            m
            s).shared
          ≡ s)
      × ((serve_request o axum state issuer generated
            (getting (codes "/readyz") request)
            m
            s).contacted
          ≡ none)
      × ((serve_request o axum state issuer generated
            (getting (codes "/readyz") request)
            m
            s).shared
          ≡ s)
      × ((serve_request o axum state issuer generated
            (getting (codes "/metrics") request)
            m
            s).contacted
          ≡ none)
      × ((serve_request o axum state issuer generated
            (getting (codes "/metrics") request)
            m
            s).shared.breakers
          ≡ s.breakers)
      × ((serve_request o axum state issuer generated
            (getting (codes "/metrics") request)
            m
            s).shared.store
          ≡ s.store)
unfolding dispatch metrics_endpoint
serve_request-endpoints o axum state issuer generated request m s documented =
    let by = λ (path : Text). served_by o axum state issuer generated (getting path request) m s in
    let (code, shared, contacted) =
      by (codes "/healthz") (handler health) (find-health o axum documented issuer) in
    let (code', shared', contacted') =
      by (codes "/readyz") (handler readiness) (find-readiness o axum documented issuer) in
    let (code'', shared'', contacted'') =
      by (codes "/metrics") (handler scrape) (find-scrape o axum documented issuer) in
    (
      code ∙ documented.keeps_status ok_200,
      contacted,
      shared,
      contacted',
      shared',
      contacted'',
      ap (λ (x : Shared o). x.breakers) shared'',
      ap (λ (x : Shared o). x.store) shared'',
    )
