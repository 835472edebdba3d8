-- ===== src/Router/Flights.antt =====
-- Handlers that run at the same time. `proxy_fallback` of core/src/router.rs is cut at its waits:
-- for Redis, for the request's body, for the backend and for the answer's body. What lies between
-- two waits is one function on the shared state; while a handler waits, any others run. A client
-- that goes away ends its handler at a wait. Redis may change at any time: keys expire, and other
-- gateways count there.
pub mod Drive
pub mod Look
pub mod Counts
pub mod Admission
pub mod Segments
pub mod Refines
use ratewall.Prelude.{
  Bool, true, false, Option, none, some, List, [], ◌∷◌, ◌++◌, is_empty, if◌then◌else◌, Result, ok,
  err, ◌≡◌, ◌≢◌, ◌⊎◌,
}
use ratewall.Prelude.Text.{Text, codes}
use ratewall.Prelude.Table.{get}
use ratewall.Circuit.{State, closed, half_open}
use ratewall.Circuit.Registry.{Breakers, CircuitBreaker}
use ratewall.Ratelimit.{RateLimiter, Decision, allow, limit, open_window, decide, limit_key}
use ratewall.Metrics.{finish, inc_rate_limited, inc_circuit_open}
use ratewall.Http.{Request, Response, plain, bad_request, not_found}
use ratewall.Router.{
  Outside, Outgoing, Answer, ProxyState, Shared, Moment, split_path, limited_prefix, status_class,
}
use ratewall.Router.Forward.{
  on_metrics, try_breaker, circuit_open, outgoing, body_cap, report, unreachable, passed_status,
  passed_response,
}
use ratewall.Router.Fallback.{authenticate, over_limit}

module _ (o : Outside) where
  -- What a handler waits for. `seen` is not part of the code: the state in which the breaker was
  -- when it admitted the request, `closed` if the prefix has no breaker.
  pub data Waiting : Type 0 where
    for_redis : Decision → Waiting
    for_body : (prefix backend suffix : Text) → (seen : State) → Waiting
    for_backend : (prefix : Text) → Outgoing o → (seen : State) → Waiting
    for_answer : (prefix : Text) → Outgoing o → Answer o → Waiting

  -- A handler goes on until it waits or has its response, with the request that it handed to the
  -- HTTP client if it came to that.
  pub data Progress : Type 0 where
    waits : Waiting → Progress
    responds : Response o.http → (contacted : Option (Outgoing o)) → Progress

  -- The breaker of a prefix.
  abbrev pub breaker_in : Text → Option Breakers → Option CircuitBreaker
  breaker_in prefix none = none
  breaker_in prefix (some b) = get prefix b

  abbrev pub breaker_of : Text → Shared o → Option CircuitBreaker
  breaker_of prefix s = breaker_in prefix s.breakers

  abbrev pub state_of : Option CircuitBreaker → State
  state_of none = closed
  state_of (some b) = b.inner.state

  -- From the admission to the wait for the body.
  abbrev pub after_admission :
      (prefix backend suffix : Text) → State → Bool → Shared o → Progress × Shared o
  after_admission prefix backend suffix seen true s =
      (responds (circuit_open o prefix) none, on_metrics o (inc_circuit_open o.floats prefix) s)
  after_admission prefix backend suffix seen false s =
      (waits (for_body prefix backend suffix seen), s)

  abbrev pub to_backend :
      Moment o → (prefix suffix : Text) → Option Text → Shared o → Progress × Shared o
  to_backend m prefix suffix none s = (
    responds (plain o.http not_found (codes "no route for prefix " ++ o.http.debug prefix)) none,
    s,
  )
  to_backend m prefix suffix (some backend) s =
      let (short, s') = try_breaker o prefix m.admitted_at s in
      after_admission prefix backend suffix (state_of (breaker_of prefix s)) short s'

  -- From the path to the wait for the body.
  unfoldable pub route : ProxyState o → Request o.http → Moment o → Shared o → Progress × Shared o
  route state request m s =
      let (prefix, rest) = split_path request.path in
      if is_empty prefix
      then (responds (plain o.http not_found (codes "not found")) none, s)
      else to_backend m prefix rest (get prefix state.backends) s

  -- From the subject to the wait for Redis, or without a limiter to the wait for the body.
  unfoldable pub identify :
      ProxyState o
      → Request o.http
      → Moment o
      → Option RateLimiter
      → Option Text
      → Shared o
      → Progress × Shared o
  unfolding route
  identify state request m none subject s = route state request m s
  identify state request m (some limiter) subject s =
      let (decision, store) =
        decide o.redis limiter (limit_key subject (codes "unkeyed")) m.epoch_secs s.store in
      (waits (for_redis decision), record s { store = store })

  abbrev pub after_gate :
      ProxyState o
      → Request o.http
      → Moment o
      → Result (Response o.http) (Option Text)
      → Shared o
      → Progress × Shared o
  after_gate state request m (err response) s = (responds response none, s)
  after_gate state request m (ok subject) s = identify state request m state.limiter subject s

  -- A request arrives.
  unfoldable pub begin : ProxyState o → Request o.http → Moment o → Shared o → Progress × Shared o
  begin state request m s = after_gate state request m (authenticate o state.auth m request) s

  abbrev pub after_exchange :
      Moment o → (prefix : Text) → Outgoing o → Option (Answer o) → Shared o → Progress × Shared o
  after_exchange m prefix out none s = (
    responds (unreachable o prefix) (some out),
    on_metrics o (finish o.floats prefix m.elapsed (some (codes "5xx")))
        (report o prefix m.reported_at false s),
  )
  after_exchange m prefix out (some answer) s =
      (waits (for_answer prefix out answer), report o prefix m.reported_at true s)

  abbrev pub after_body :
      ProxyState o
      → Request o.http
      → (prefix backend suffix : Text) → State
      → Option o.http.Bytes
      → Shared o
      → Progress × Shared o
  after_body state request prefix backend suffix seen none s =
      (responds (plain o.http bad_request (codes "failed to read request body")) none, s)
  after_body state request prefix backend suffix seen (some body) s =
      (waits (for_backend prefix (outgoing o state backend suffix request body) seen), s)

  -- The wait is over. What the backend answers is `m.exchange`.
  unfoldable pub resume :
      ProxyState o → Request o.http → Moment o → Waiting → Shared o → Progress × Shared o
  unfolding route
  resume state request m (for_redis (limit retry_after)) s = (
    responds (over_limit o retry_after) none,
    on_metrics o (inc_rate_limited o.floats (limited_prefix request.path)) s,
  )
  resume state request m (for_redis allow) s = route state request m s
  resume state request m (for_redis open_window) s = route state request m s
  resume state request m (for_body prefix backend suffix seen) s =
      after_body state request prefix backend suffix seen (o.http.to_bytes body_cap request.body) s
  resume state request m (for_backend prefix out seen) s =
      after_exchange m prefix out (m.exchange out) s
  resume state request m (for_answer prefix out answer) s = (
    responds (passed_response o answer) (some out),
    on_metrics o
        (finish o.floats prefix m.elapsed (some (status_class (passed_status o answer.status)))) s,
  )

  -- A request whose handler waits.
  pub record Flight : Type 0 where
    pub request : Request o.http
    pub waiting : Waiting

  pub record World : Type 0 where
    pub shared : Shared o
    pub flights : List Flight

  -- A handler that waits is in flight, and one with a response no longer is.
  abbrev pub flight_of : Request o.http → Progress → List Flight
  flight_of request (waits w) = record { request = request; waiting = w } ∷ []
  flight_of request (responds response contacted) = []

  -- The request was admitted while the breaker was closed, and its outcome is still out.
  abbrev pub IsCall : Waiting → Type 0
  IsCall (for_backend prefix out closed) = Unit {0}
  IsCall _ = ⊥

  abbrev waited_prefix : Waiting → Text
  waited_prefix (for_backend prefix out seen) = prefix
  waited_prefix _ = []

  -- The world in which one handler, between the others, has gone on.
  abbrev pub moved : List Flight → List Flight → Request o.http → Progress × Shared o → World
  moved before after request (progress, s) = record {
    shared = s;
    flights = before ++ (flight_of request progress ++ after);
  }

  -- One atomic step of one handler. `late` says whether a request that a closed breaker admitted
  -- may come back from the backend while the breaker is half-open.
  pub data Step (state : ProxyState o) (late : Bool) (w u : World) : Type 0 where
    arrives :
        (request : Request o.http) (m : Moment o)
        → u ≡ moved [] w.flights request (begin state request m w.shared)
        → Step state late w u
    resumes :
        (before after : List Flight) (f : Flight) (m : Moment o)
        → w.flights ≡ before ++ f ∷ after
        → (IsCall f.waiting
            → (late ≡ true)
              ⊎ (state_of (breaker_of (waited_prefix f.waiting) w.shared) ≢ half_open))
        → u ≡ moved before after f.request (resume state f.request m f.waiting w.shared)
        → Step state late w u
    goes_away :
        (before after : List Flight) (f : Flight)
        → w.flights ≡ before ++ f ∷ after
        → u ≡ record { shared = w.shared; flights = before ++ after }
        → Step state late w u
    redis_changes :
        (store : o.redis.Store)
        → u ≡ record w { shared = record w.shared { store = store } }
        → Step state late w u

  pub data Reach (state : ProxyState o) (late : Bool) (w : World) : World → Type 0 where
    here : Reach state late w w
    next : {u v : World} → Reach state late w u → Step state late u v → Reach state late w v
