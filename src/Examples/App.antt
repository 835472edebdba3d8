-- ===== src/Examples/App.antt =====
-- Requests to the whole process, over the toy crates and a plain search for the handler.
use ratewall.Prelude.{◌≡◌, ◌≢◌, refl, true, none, List, [], ◌∷◌, ◌++◌, arith, All, if◌then◌else◌}
use ratewall.Prelude.Text.{Text, codes, text_eq, text_eq_iff}
use ratewall.Prelude.Text.Split.{text_eq_refl}
use ratewall.Http.{Response, plain, ok_200}
use ratewall.Router.{Handled}
use ratewall.Router.Fallback.{proxy_fallback}
use ratewall.Gateway.App.{
  Axum, Documented, Mounted, Match, handler, method_not_allowed, fallback, Reply, status,
  components, logged_in, rejected, response, serve_request,
}
use ratewall.Gateway.App.Paths.{apart, getting, serve_request-proxied, serve_request-endpoints}
use ratewall.Examples.Crates.{toy_outside, toy_http}
use ratewall.Examples.Tokens.{ann_request}
use ratewall.Examples.Scene.{proxy, shared, quiet, closed_crm, open_crm}

-- The first handler at the path, if its method fits.
abbrev search : List Mounted → Text → Text → Match
search [] method path = fallback
search (x ∷ rest) method path =
    if text_eq x.path path
    then (if text_eq x.method method then handler x.endpoint else method_not_allowed)
    else search rest method path

abbrev as_response : Reply toy_http → Response toy_http
as_response (status n) = plain toy_http n []
as_response (components n parts) = plain toy_http n []
as_response (logged_in login) = plain toy_http 200 []
as_response (rejected by) = plain toy_http 405 []
as_response (response r) = r

abbrev pub axum : Axum toy_http
axum = record { find = search; payload = λ request. none; into_response = as_response }

search-found :
    (before after : List Mounted) (x : Mounted)
    → All (λ y. y.path ≢ x.path) before
    → search (before ++ x ∷ after) x.method x.path ≡ handler x.endpoint
search-found [] after x h = ground (arith, text_eq_refl x.path, text_eq_refl x.method)
search-found (y ∷ before) after x h =
    ground (arith, text_eq_iff y.path x.path, search-found before after x h.1)

search-missed :
    (mounted : List Mounted) (method path : Text)
    → All (λ y. y.path ≢ path) mounted
    → search mounted method path ≡ fallback
search-missed [] method path h = refl
search-missed (y ∷ rest) method path h =
    ground (arith, text_eq_iff y.path path, search-missed rest method path h.1)

pub documented : Documented toy_http axum
documented = record {
  found = λ before after x h k. search-found before after x h;
  missed = search-missed;
  keeps_response = λ r. refl;
  keeps_status = λ n. refl;
}

serve_request-proxied_example :
    ((serve_request toy_outside axum proxy none
        (codes "id")
        ann_request
        (quiet 20)
        (shared true closed_crm)).response.status
      ≡ (proxy_fallback toy_outside proxy ann_request
          (quiet 20)
          (shared true closed_crm)).response.status)
    × ((serve_request toy_outside axum proxy none
          (codes "id")
          ann_request
          (quiet 20)
          (shared true closed_crm)).shared
        ≡ (proxy_fallback toy_outside proxy ann_request (quiet 20) (shared true closed_crm)).shared)
    × ((serve_request toy_outside axum proxy none
          (codes "id")
          ann_request
          (quiet 20)
          (shared true closed_crm)).contacted
        ≡ (proxy_fallback toy_outside proxy ann_request
            (quiet 20)
            (shared true closed_crm)).contacted)
unfolding text_eq
serve_request-proxied_example =
    serve_request-proxied toy_outside axum proxy none (codes "id") ann_request (quiet 20)
      (shared true closed_crm) documented (apart _ _ refl) (apart _ _ refl) (apart _ _ refl)
      (apart _ _ refl)

-- What the gateway answers to `GET` of a path.
abbrev got : Text → Handled toy_outside
got path =
    serve_request toy_outside axum proxy none (codes "id") (getting path ann_request) (quiet 20)
      (shared true open_crm)

serve_request-endpoints_example :
    ((got (codes "/healthz")).response.status ≡ ok_200)
    × ((got (codes "/healthz")).contacted ≡ none)
    × ((got (codes "/healthz")).shared ≡ shared true open_crm)
    × ((got (codes "/readyz")).contacted ≡ none)
    × ((got (codes "/readyz")).shared ≡ shared true open_crm)
    × ((got (codes "/metrics")).contacted ≡ none)
    × ((got (codes "/metrics")).shared.breakers ≡ (shared true open_crm).breakers)
    × ((got (codes "/metrics")).shared.store ≡ (shared true open_crm).store)
serve_request-endpoints_example =
    serve_request-endpoints toy_outside axum proxy none (codes "id") ann_request (quiet 20)
      (shared true open_crm) documented
