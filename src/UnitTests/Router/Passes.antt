-- ===== src/UnitTests/Router/Passes.antt =====
-- Runs of the tests of core/src/router.rs, whatever else the requests meet.
use ratewall.Prelude.{
  ◌≡◌, ◌≢◌, refl, true, false, Option, is_empty, none, some, ok, List, [], ◌∷◌, ◌++◌,
}
use ratewall.Prelude.Text.{Text, codes, text_eq, split_once, trim_start}
use ratewall.Prelude.Text.Split.{strip_prefix-append, text_eq_refl}
use ratewall.Prelude.Table.{get, insert, text_compare}
use ratewall.Config.{Route}
use ratewall.Http.{HeaderMap, payload, Request, ok_200, header_text}
use ratewall.Middleware.{request_id_and_trace}
use ratewall.Router.{
  Outside, ProxyState, Outgoing, Proxy, Moment, plain_proxy, backends_of, split_path,
  response_headers,
}
use ratewall.Router.Forward.{
  forward, query_text, send_body, outgoing, passed_response, body_cap, unreachable,
}
use ratewall.Router.Fallback.{proxy_fallback, identified, dispatch, rate_limit, limited}
use ratewall.Gateway.App.{Axum, Documented}
use ratewall.Gateway.App.Paths.{apart, find-health, find-fallback}
use ratewall.UnitTests.Router.{
  Echo, body_has, path_and_query, crm_at, port_one, request_of, mock_backend, oneshot,
  healthz_returns_ok, routes_round_trip_to_backend_with_path_and_query, unknown_prefix_is_404,
  unreachable_backend_is_502, post_method_is_forwarded,
}

module _ (o : Outside) (axum : Axum o.http) (documented : Documented o.http axum) where
  -- A path that the application leaves to the proxy.
  record IsProxied (path : Text) : Type 0 where
    no_health : codes "/healthz" ≢ path
    no_readiness : codes "/readyz" ≢ path
    no_scrape : codes "/metrics" ≢ path
    no_login : codes "/auth/login" ≢ path

  proxied :
      {path : Text}
      → text_eq (codes "/healthz") path ≡ false
      → text_eq (codes "/readyz") path ≡ false
      → text_eq (codes "/metrics") path ≡ false
      → text_eq (codes "/auth/login") path ≡ false
      → IsProxied path
  proxied h r t l = record {
    no_health = apart _ _ h;
    no_readiness = apart _ _ r;
    no_scrape = apart _ _ t;
    no_login = apart _ _ l;
  }

  oneshot-proxy_fallback :
      (proxy : Proxy o) (m : Moment o) (request : Request o.http)
      → IsProxied request.path
      → oneshot o axum proxy m request ≡ (proxy_fallback o proxy.0 request m proxy.1).response
  unfolding oneshot
  oneshot-proxy_fallback (state, s) m request p =
      rw
        (
          find-fallback o axum documented none request.method request.path p.no_health
              p.no_readiness p.no_scrape p.no_login,
          oneshot,
        )
        (documented.keeps_response (proxy_fallback o state request m s).response)

  module _ (store : o.redis.Store) (m : Moment o) (body : o.http.Body) where
    healthz_passes : healthz_returns_ok o axum (ok tt) store m body ≡ true
    unfolding healthz_returns_ok oneshot
    healthz_passes =
        rw (find-health o axum documented none, healthz_returns_ok, oneshot)
          (rw (documented.keeps_status ok_200) refl)

    unknown_prefix_passes : unknown_prefix_is_404 o axum (ok tt) store m body ≡ true
    unfolding unknown_prefix_is_404 proxy_fallback identified rate_limit limited dispatch forward
        split_path text_eq get backends_of insert text_compare
    unknown_prefix_passes =
        rw
          (
            oneshot-proxy_fallback (plain_proxy o (crm_at port_one) store) m
                (request_of o (codes "GET") (codes "/nope/thing") none [] body)
                (proxied refl refl refl refl),
            unknown_prefix_is_404,
          )
          refl

    module _ (bytes : o.http.Bytes) (buffered : o.http.to_bytes body_cap body ≡ some bytes) where
      unreachable_passes : unreachable_backend_is_502 o axum (ok tt) store m body ≡ true
      unfolding unreachable_backend_is_502 proxy_fallback identified rate_limit limited dispatch
          forward split_path text_eq get backends_of insert text_compare unreachable
      unreachable_passes =
          rw
            (
              oneshot-proxy_fallback (plain_proxy o (crm_at port_one) store)
                  (record m { exchange = λ out. none })
                  (request_of o (codes "GET") (codes "/crm/anything") none [] body)
                  (proxied refl refl refl refl),
              unreachable_backend_is_502,
            )
            (rw buffered refl)

  -- What the echoed request relies on: JSON objects whose fields read back, and HTTP values that
  -- the crates accept.
  record Echoes (echo : Echo o.http.Bytes) (body : o.http.Body) : Type 0 where
    method_read :
        (method path query : Text)
        → echo.field (codes "method") (echo.json method path query) ≡ some method
    path_read :
        (method path query : Text)
        → echo.field (codes "path") (echo.json method path query) ≡ some path
    query_read :
        (method path query : Text)
        → echo.field (codes "query") (echo.json method path query) ≡ some query
    get_accepted : o.http.method_from_bytes (codes "GET") ≡ some (codes "GET")
    post_accepted : o.http.method_from_bytes (codes "POST") ≡ some (codes "POST")
    status_accepted : o.http.status_from_u16 ok_200 ≡ some ok_200
    built : o.http.builds ok_200 [] ≡ true
    bytes : o.http.Bytes
    buffered : o.http.to_bytes body_cap body ≡ some bytes

  module _ (echo : Echo o.http.Bytes) (body : o.http.Body) (echoes : Echoes echo body)
      (store : o.redis.Store) (m : Moment o) (backend_url : Text) where
    abbrev meets : Moment o
    meets = record m { exchange = mock_backend o echo backend_url }

    -- What the mock backend answers to a request for a target under its address.
    mocked :
        (out : Outgoing o) (target path query : Text)
        → out.target ≡ backend_url ++ target
        → path_and_query target (split_once b'?' target) ≡ (path, query)
        → mock_backend o echo backend_url out
          ≡ some (record {
            status = ok_200;
            headers = [];
            body = some (echo.json out.method path query);
          })
    unfolding mock_backend
    mocked out target path query e parts =
        rw (e, mock_backend) (rw (strip_prefix-append backend_url target) (rw parts refl))

    field_found :
        (name value : Text) (bytes : o.http.Bytes)
        → echo.field name bytes ≡ some value
        → body_has o echo name value (payload bytes) ≡ true
    unfolding body_has
    field_found name value bytes e = rw (e, body_has) (text_eq_refl value)

    -- The method and the target of the request for the backend.
    aimed :
        (state : ProxyState o) (suffix : Text) (request : Request o.http)
        → o.http.method_from_bytes request.method ≡ some request.method
        → ((outgoing o state backend_url suffix request echoes.bytes).target
            ≡ backend_url ++ (suffix ++ query_text o request.query))
          × ((outgoing o state backend_url suffix request echoes.bytes).method ≡ request.method)
    unfolding outgoing
    aimed state suffix request accepted = (refl, rw accepted refl)

    -- The response to a request with this prefix and target.
    echoed :
        (routes : List Route) (method path : Text) (asked : Option Text) (headers : HeaderMap)
        (prefix suffix asks query : Text)
        → split_path path ≡ (prefix, suffix)
        → is_empty prefix ≡ false
        → get prefix (backends_of routes) ≡ some backend_url
        → o.http.method_from_bytes method ≡ some method
        → path_and_query
            (suffix ++ query_text o asked)
            (split_once b'?' (suffix ++ query_text o asked))
          ≡ (asks, query)
        → (proxy_fallback o
            (plain_proxy o routes store).0
            (request_of o method path asked headers body)
            meets
            (plain_proxy o routes store).1).response
          ≡ record { status = ok_200; headers = []; body = payload (echo.json method asks query) }
    unfolding proxy_fallback identified rate_limit limited dispatch forward send_body
        passed_response response_headers
    echoed routes method path asked headers prefix suffix asks query split named served accepted
          parts =
        let state = (plain_proxy o routes store).0 in
        let request = request_of o method path asked headers body in
        let (target, same) = aimed state suffix request accepted in
        rw split (
          rw named (
            rw served (
              rw echoes.buffered (
                rw
                  (mocked (outgoing o state backend_url suffix request echoes.bytes)
                    (suffix ++ query_text o asked) asks query target parts)
                  (rw same (rw echoes.status_accepted (rw echoes.built refl)))))))

    post_passes : post_method_is_forwarded o axum (ok tt) echo backend_url store m body ≡ true
    unfolding post_method_is_forwarded text_eq split_path split_once trim_start get backends_of
        insert text_compare
    post_passes =
        let headers : HeaderMap = (codes "content-type", codes "application/json") ∷ [] in
        let request = request_of o (codes "POST") (codes "/crm/customers") none headers body in
        rw
          (
            oneshot-proxy_fallback (plain_proxy o (crm_at backend_url) store) meets request
                (proxied refl refl refl refl),
            post_method_is_forwarded,
          )
          (rw
            (echoed (crm_at backend_url) (codes "POST") (codes "/crm/customers") none headers
              (codes "crm") (codes "/customers") (codes "/customers") [] refl refl refl
              echoes.post_accepted refl)
            (rw
              (field_found (codes "method") (codes "POST") _
                (echoes.method_read (codes "POST") (codes "/customers") []))
              (rw
                (field_found (codes "path") (codes "/customers") _
                  (echoes.path_read (codes "POST") (codes "/customers") []))
                refl)))

    round_trip_passes :
        (generated value : Text)
        → o.http.value_from_str generated ≡ some value
        → routes_round_trip_to_backend_with_path_and_query o axum
            (ok tt)
            echo
            backend_url
            generated
            store
            m
            body
          ≡ true
    unfolding routes_round_trip_to_backend_with_path_and_query text_eq split_path split_once
        trim_start get backends_of insert text_compare request_id_and_trace header_text
    round_trip_passes generated value accepted =
        let routes : List Route =
          record { prefix = codes "crm"; backend = backend_url }
          ∷ record { prefix = codes "hrm"; backend = backend_url }
          ∷ [] in
        let proxy = plain_proxy o routes store in
        rw
          (
            oneshot-proxy_fallback proxy meets
                (request_of o (codes "GET") (codes "/crm/customers/42") (some (codes "verbose=1"))
                  [] body)
                (proxied refl refl refl refl),
            routes_round_trip_to_backend_with_path_and_query,
          )
          (rw
            (oneshot-proxy_fallback proxy meets
              (request_of o (codes "GET") (codes "/hrm") none [] body)
              (proxied refl refl refl refl))
            (rw
              (echoed routes (codes "GET") (codes "/crm/customers/42") (some (codes "verbose=1")) []
                (codes "crm") (codes "/customers/42") (codes "/customers/42") (codes "verbose=1")
                refl refl refl echoes.get_accepted refl)
              (rw
                (echoed routes (codes "GET") (codes "/hrm") none [] (codes "hrm") (codes "/")
                  (codes "/") [] refl refl refl echoes.get_accepted refl)
                (rw accepted (
                  rw
                    (field_found (codes "path") (codes "/customers/42") _
                      (echoes.path_read (codes "GET") (codes "/customers/42") (codes "verbose=1")))
                    (rw
                      (field_found (codes "query") (codes "verbose=1") _ (
                        echoes.query_read (codes "GET") (codes "/customers/42")
                          (codes "verbose=1")))
                      (rw
                        (field_found (codes "path") (codes "/") _
                          (echoes.path_read (codes "GET") (codes "/") []))
                        refl)))))))
