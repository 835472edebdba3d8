-- ===== src/Examples/Requests.antt =====
-- Requests through the proxy, over the toy crates.
use ratewall.Prelude.{
  ℕ, ◌≡◌, ◌↔◌, refl, true, false, none, some, List, [], ◌∷◌, arith, All, if◌then◌else◌,
}
use ratewall.Prelude.Text.{Text, codes, text_eq}
use ratewall.Prelude.Table.{get}
use ratewall.Circuit.{try_admit}
use ratewall.Circuit.Registry.{Breakers, admit_at, admitted, recorded, on_found}
use ratewall.Ratelimit.{RateLimiter, ping}
use ratewall.Metrics.{Metrics, new_metrics}
use ratewall.Metrics.Render.{render}
use ratewall.Http.{HeaderMap, Request, message, bad_request, service_unavailable, ok_200}
use ratewall.Router.{Outgoing, request_headers, response_headers}
use ratewall.Router.Forward.{forward, outgoing}
use ratewall.Router.Fallback.{proxy_fallback}
use ratewall.Router.Order.{IsOpen, proxy_fallback-contacted}
use ratewall.Router.Rejections.{limiter_fails_open}
use ratewall.Router.Accounting.{IsAlone, forward-breakers}
use ratewall.Router.Probes.{Arrival, serve_all, lost_probe}
use ratewall.Router.Headers.{Has, SentFrom, PassedFrom, headers_iff}
use ratewall.Router.Endpoints.{readyz, metrics_endpoint}
use ratewall.Router.Endpoints.Ready.{readyz_iff, NoneOpen}
use ratewall.Router.Endpoints.Gauges.{metrics_endpoint-gauges}
use ratewall.Examples.Scene.{prefix, backend, proxy, closed_crm, open_crm, shared, quiet}
use ratewall.Examples.Crates.{toy_outside, toy_redis, toy_floats, toy_http}
use ratewall.Examples.Tokens.{ann_request}
use ratewall.Examples.Limits.{two_a_minute}

abbrev sent : Outgoing toy_outside
sent = outgoing toy_outside proxy backend (codes "/customers") ann_request []

proxy_fallback-contacted_example :
    ((proxy_fallback toy_outside proxy ann_request (quiet 20) (shared true closed_crm)).contacted
      ≡ some sent)
    ↔ IsOpen toy_outside proxy ann_request (quiet 20) (shared true closed_crm) sent
proxy_fallback-contacted_example =
    proxy_fallback-contacted toy_outside proxy ann_request (quiet 20) (shared true closed_crm) sent

abbrev bare_request : Request toy_http
bare_request = record ann_request { headers = [] }

limiter_fails_open_example :
    proxy_fallback toy_outside proxy ann_request (quiet 20) (shared false closed_crm)
    ≡ proxy_fallback toy_outside
        (record proxy { limiter = none })
        ann_request
        (quiet 20)
        (shared false closed_crm)
limiter_fails_open_example =
    limiter_fails_open toy_outside proxy ann_request (quiet 20) (shared false closed_crm) refl
      (λ t. refl)

abbrev two_headers : HeaderMap
two_headers = (codes "te", codes "x") ∷ (codes "accept", codes "*") ∷ []

headers_iff_example :
    ((name text : Text)
      → Has (name, text) (request_headers toy_http two_headers)
        ↔ SentFrom toy_http two_headers name text)
    × ((name : Text) (value : List ℕ)
        → Has (name, value) (response_headers toy_http two_headers)
          ↔ PassedFrom toy_http two_headers name value)
headers_iff_example = headers_iff toy_http two_headers

readyz_iff_example : ((readyz toy_outside proxy (shared true open_crm)).0 ≡ ok_200) ↔ (
    ((b : Breakers) → some ((prefix, open_crm) ∷ []) ≡ some b → NoneOpen b)
    × ((l : RateLimiter) → some two_a_minute ≡ some l → ping toy_redis l (true, []) ≡ true))
readyz_iff_example = readyz_iff toy_outside proxy (shared true open_crm)

metrics_endpoint-gauges_example :
    (m : Metrics toy_floats) × ((metrics_endpoint toy_outside (shared true open_crm)).1.metrics
      ≡ some m)
    × (get prefix m.breaker_state ≡ some 2)
    × ((metrics_endpoint toy_outside (shared true open_crm)).0.body ≡ message (render toy_floats m))
unfolding get text_eq
metrics_endpoint-gauges_example =
    metrics_endpoint-gauges toy_outside (shared true open_crm) ((prefix, open_crm) ∷ [])
      (new_metrics toy_floats) prefix open_crm refl refl (tt, tt) refl

alone : IsAlone toy_outside proxy ann_request (quiet 20)
alone = record { body_alone = λ s. refl; send_alone = λ s. refl; answer_alone = λ s. refl }

forward-breakers_example :
    (b' : Breakers) × ((forward toy_outside proxy prefix
        (codes "/customers")
        ann_request
        (quiet 20)
        (shared true closed_crm)).shared.breakers
      ≡ some b')
    × ((other : Text)
        → get other b' ≡ (
            if text_eq prefix other
            then on_found
                (recorded 20 true)
                (on_found (admitted 20) (get prefix ((prefix, closed_crm) ∷ [])))
            else get other ((prefix, closed_crm) ∷ [])))
unfolding get text_eq admit_at try_admit
forward-breakers_example =
    forward-breakers toy_outside proxy ann_request (quiet 20) prefix backend (codes "/customers") []
      (shared true closed_crm) ((prefix, closed_crm) ∷ []) alone refl refl (ground arith) refl

abbrev unreadable : Request toy_http
unreadable = record ann_request { body = none }

abbrev later : List (Arrival toy_outside)
later =
    (codes "/customers", ann_request, quiet 21) ∷ (codes "/orders", ann_request, quiet 9000) ∷ []

lost_probe_example :
    ((forward toy_outside proxy prefix
        (codes "/customers")
        unreadable
        (quiet 20)
        (shared true open_crm)).response.status
      ≡ bad_request)
    × All
        (λ r. r.status ≡ service_unavailable)
        (serve_all toy_outside proxy prefix later
          (forward toy_outside proxy prefix
            (codes "/customers")
            unreadable
            (quiet 20)
            (shared true open_crm)).shared)
unfolding get text_eq
lost_probe_example =
    lost_probe toy_outside proxy prefix backend (codes "/customers") unreadable (quiet 20)
      (shared true open_crm) ((prefix, open_crm) ∷ []) open_crm 5 later refl refl refl refl refl
      (omega arith) refl (λ s. refl)
