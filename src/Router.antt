-- ===== src/Router.antt =====
-- core/src/router.rs: the state of the proxy, the parsing of paths, and the headers that pass.
-- The handlers are in Router/Forward (`forward`), Router/Fallback (`proxy_fallback`) and
-- Router/Endpoints (`/healthz`, `/readyz`, `/metrics`).
pub mod Forward
pub mod Fallback
pub mod Endpoints
pub mod Paths
pub mod Headers
pub mod Order
pub mod Rejections
pub mod Accounting
pub mod Probes
pub mod Labels
pub mod Flights
pub mod Exchange
pub mod Outage
pub mod Statuses
pub mod Tally
use ratewall.Prelude.{
  ℕ, ◌/◌, Bool, ◌||◌, Option, none, some, List, [], ◌∷◌, ◌++◌, ◌==◌, if◌then◌else◌, Result, ok, err,
}
use ratewall.Prelude.Text.{Text, codes, text_eq, trim_start, split_once}
use ratewall.Prelude.Table.{Table, insert}
use ratewall.Prelude.Time.{from_secs}
use ratewall.Prelude.Decimal.{to_decimal}
use ratewall.Config.{Route}
use ratewall.Auth.{Crypto}
use ratewall.Auth.Gate.{AuthState}
use ratewall.Ratelimit.{Redis, RateLimiter}
use ratewall.Circuit.Registry.{Breakers}
use ratewall.Metrics.{Floats, Metrics}
use ratewall.Http.{Http, HeaderMap, Response}

-- The outside of the gateway: the crates and services that it calls.
pub record Outside : Type 1 where
  pub crypto : Crypto
  pub http : Http
  pub redis : Redis
  pub floats : Floats

-- A request handed to the HTTP client, and what comes back over the wire: `body` is none if the
-- answer's body cannot be read.
pub record Outgoing (o : Outside) : Type 0 where
  pub method : Text
  pub target : Text
  pub headers : List (Text × Text)
  pub timeout : ℕ
  pub body : o.http.Bytes

pub record Answer (o : Outside) : Type 0 where
  pub status : ℕ
  pub headers : HeaderMap
  pub body : Option o.http.Bytes

-- The parts of `ProxyState` that never change.
pub record ProxyState (o : Outside) : Type 0 where
  pub backends : Table Text
  pub auth : Option (AuthState o.crypto)
  pub limiter : Option RateLimiter
  pub backend_timeout : ℕ

-- The parts that all handlers share: the breakers and the registry behind their `Arc`s, and the
-- store of Redis.
pub record Shared (o : Outside) : Type 0 where
  pub breakers : Option Breakers
  pub metrics : Option (Metrics o.floats)
  pub store : o.redis.Store

-- What one request meets: the clocks where the handler reads them, what other handlers do to the
-- shared state while it waits (for Redis, for the body, for the backend and for the answer's
-- body), and how the backend answers; none is a transport failure.
pub record Moment (o : Outside) : Type 0 where
  pub unix_now : ℕ
  pub epoch_secs : Option ℕ
  pub admitted_at : ℕ
  pub reported_at : ℕ
  pub elapsed : ℕ
  pub redis_wait : Shared o → Shared o
  pub body_wait : Shared o → Shared o
  pub send_wait : Shared o → Shared o
  pub answer_wait : Shared o → Shared o
  pub exchange : Outgoing o → Option (Answer o)

-- How one request was handled: its response, the shared state afterwards, and the request that was
-- handed to the HTTP client, if it came to that.
pub record Handled (o : Outside) : Type 0 where
  pub response : Response o.http
  pub shared : Shared o
  pub contacted : Option (Outgoing o)

abbrev pub stop : (o : Outside) → Response o.http → Shared o → Handled o
stop o response s = record { response = response; shared = s; contacted = none }

-- `ProxyState::new`: the route table, last entry first served.
add_backends : List Route → Table Text → Table Text
add_backends [] table = table
add_backends (route ∷ rest) table = add_backends rest (insert route.prefix route.backend table)

unfoldable pub backends_of : List Route → Table Text
unfolding add_backends
backends_of routes = add_backends routes []

-- `ProxyState` with what the handlers share.
abbrev pub Proxy : Outside → Type 0
Proxy o = ProxyState o × Shared o

module _ (o : Outside) where
  -- All that is optional is off.
  abbrev pub plain_proxy : List Route → o.redis.Store → Proxy o
  plain_proxy routes store = (
    record {
      backends = backends_of routes;
      auth = none;
      limiter = none;
      backend_timeout = from_secs 30;
    },
    record { breakers = none; metrics = none; store = store },
  )

  -- `ProxyState::new`. `client` is what `reqwest::Client::builder().build()` gives.
  abbrev pub new : Result Text (Unit {0}) → List Route → o.redis.Store → Result Text (Proxy o)
  new (err e) routes store = err e
  new (ok _) routes store = ok (plain_proxy routes store)

  abbrev pub with_auth : AuthState o.crypto → Proxy o → Proxy o
  with_auth auth (state, s) = (record state { auth = some auth }, s)

  abbrev pub with_limiter : RateLimiter → Proxy o → Proxy o
  with_limiter limiter (state, s) = (record state { limiter = some limiter }, s)

  abbrev pub with_breakers : Breakers → (timeout_secs : ℕ) → Proxy o → Proxy o
  with_breakers breakers timeout_secs (state, s) = (
    record state { backend_timeout = from_secs timeout_secs },
    record s { breakers = some breakers },
  )

  abbrev pub with_metrics : Metrics o.floats → Proxy o → Proxy o
  with_metrics metrics (state, s) = (state, record s { metrics = some metrics })

abbrev pub is_slash : ℕ → Bool
is_slash c = c == b'/'

abbrev pub parts_of : Text → Option (Text × Text) → Text × Text
parts_of trimmed none = (trimmed, codes "/")
parts_of trimmed (some (p, r)) = (p, b'/' ∷ r)

-- `/{prefix}[/{rest}]`: the prefix, and the path to ask of the backend.
unfoldable pub split_path : Text → Text × Text
unfolding split_once trim_start
split_path path =
    let trimmed = trim_start is_slash path in parts_of trimmed (split_once b'/' trimmed)

abbrev pub prefix_or_none : Option (Text × Text) → Text
prefix_or_none none = []
prefix_or_none (some (p, r)) = p

-- The prefix under which a rate-limited request is counted.
unfoldable pub limited_prefix : Text → Text
unfolding split_once trim_start
limited_prefix path = prefix_or_none (split_once b'/' (trim_start is_slash path))

unfoldable pub is_hop_by_hop_name : Text → Bool
is_hop_by_hop_name name =
    text_eq name (codes "connection")
    || text_eq name (codes "keep-alive")
    || text_eq name (codes "proxy-authenticate")
    || text_eq name (codes "proxy-authorization")
    || text_eq name (codes "te")
    || text_eq name (codes "trailers")
    || text_eq name (codes "transfer-encoding")
    || text_eq name (codes "upgrade")

-- `2xx` and the like.
unfoldable pub status_class : ℕ → Text
status_class status = to_decimal (status / 100) ++ codes "xx"

module _ (http : Http) where
  -- The request headers that are sent on.
  abbrev pub readable : Text → Option Text → List (Text × Text) → List (Text × Text)
  readable name none rest = rest
  readable name (some v) rest = (name, v) ∷ rest

  unfoldable pub request_headers : HeaderMap → List (Text × Text)
  request_headers [] = []
  request_headers ((name, value) ∷ rest) =
      let sent = request_headers rest in
      if is_hop_by_hop_name name then sent else readable name (http.to_str value) sent

  -- The response headers that are passed back.
  abbrev pub valid : Option Text → Option (List ℕ) → HeaderMap → HeaderMap
  valid (some name) (some value) rest = (name, value) ∷ rest
  valid _ _ rest = rest

  unfoldable pub response_headers : HeaderMap → HeaderMap
  response_headers [] = []
  response_headers ((name, value) ∷ rest) =
      let passed = response_headers rest in
      if is_hop_by_hop_name name
      then passed
      else valid (http.name_from_bytes name) (http.value_from_bytes value) passed
