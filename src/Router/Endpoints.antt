-- ===== src/Router/Endpoints.antt =====
-- The endpoints `/healthz`, `/readyz` and `/metrics` of core/src/router.rs.
pub mod Ready
pub mod Gauges
use ratewall.Prelude.{ℕ, Bool, true, false, ◌&&◌, Option, none, some, [], ◌∷◌, ◌++◌, if◌then◌else◌}
use ratewall.Prelude.Text.{Text, codes}
use ratewall.Prelude.Table.{Table, insert}
use ratewall.Circuit.{State, closed, opened, half_open}
use ratewall.Circuit.Registry.{Breakers, states}
use ratewall.Ratelimit.{RateLimiter, ping}
use ratewall.Metrics.{Floats, Metrics, set_breaker_state}
use ratewall.Metrics.Render.{render}
use ratewall.Http.{Response, message, ok_200, service_unavailable}
use ratewall.Router.{Outside, ProxyState, Shared}

abbrev is_answering : State → Bool
is_answering closed = true
is_answering opened = false
is_answering half_open = true

-- Whether the gateway is ready, with the components that are reported.
pub record Readiness : Type 0 where
  pub ready : Bool
  pub components : Table Bool

abbrev add_component : Text → Bool → Readiness → Readiness
add_component name works r = record {
  ready = r.ready && works;
  components = insert name works r.components;
}

unfoldable pub add_breakers : Table State → Readiness → Readiness
add_breakers [] r = r
add_breakers ((prefix, state) ∷ rest) r =
    add_breakers rest (add_component (codes "backend:" ++ prefix) (is_answering state) r)

abbrev add_backends : Option Breakers → Readiness → Readiness
add_backends none r = r
add_backends (some breakers) r = add_breakers (states breakers) r

abbrev publish_states : (floats : Floats) → Table State → Metrics floats → Metrics floats
publish_states floats [] m = m
publish_states floats ((prefix, state) ∷ rest) m =
    publish_states floats rest (set_breaker_state floats prefix state m)

module _ (o : Outside) where
  abbrev add_redis : Option RateLimiter → o.redis.Store → Readiness → Readiness
  add_redis none store r = r
  add_redis (some limiter) store r = add_component (codes "redis") (ping o.redis limiter store) r

  unfoldable pub readyz : ProxyState o → Shared o → ℕ × Table Bool
  unfolding add_breakers
  readyz state s =
      let r =
        add_redis state.limiter s.store
          (add_backends s.breakers (record { ready = true; components = [] })) in
      (if r.ready then ok_200 else service_unavailable, r.components)

  abbrev publish : Option Breakers → Option (Metrics o.floats) → Option (Metrics o.floats)
  publish (some breakers) (some m) = some (publish_states o.floats (states breakers) m)
  publish _ metrics = metrics

  abbrev rendered : Option (Metrics o.floats) → Text
  rendered none = []
  rendered (some m) = render o.floats m

  unfoldable pub metrics_endpoint : Shared o → Response o.http × Shared o
  metrics_endpoint s =
      let metrics = publish s.breakers s.metrics in
      (
        record {
          status = ok_200;
          headers = (codes "content-type", codes "text/plain; version=0.0.4; charset=utf-8") ∷ [];
          body = message (rendered metrics);
        },
        record s { metrics = metrics },
      )

  -- `healthz`
  abbrev pub healthz : ℕ
  healthz = ok_200
