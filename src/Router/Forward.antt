-- ===== src/Router/Forward.antt =====
-- `forward` of core/src/router.rs: breaker, request, exchange, outcome.
use ratewall.Prelude.{ℕ, ◌*◌, Bool, true, false, Option, none, some, [], ◌∷◌, ◌++◌, if◌then◌else◌}
use ratewall.Prelude.Text.{Text, codes}
use ratewall.Prelude.Table.{get, or_default}
use ratewall.Circuit.{Admit, short_circuit}
use ratewall.Circuit.Registry.{Breakers, admit_at, record_at}
use ratewall.Metrics.{Metrics, finish, inc_circuit_open}
use ratewall.Http.{
  Request, Response, message, payload, plain, bad_request, not_found, bad_gateway,
  service_unavailable,
}
use ratewall.Router.{
  Outside, Handled, stop, Outgoing, Answer, ProxyState, Shared, Moment, request_headers,
  response_headers, status_class,
}

abbrev pub body_cap : ℕ
body_cap = 32 * 1024 * 1024

abbrev pub is_short : Option Admit → Bool
is_short (some short_circuit) = true
is_short _ = false

module _ (o : Outside) where
  -- An update of the registry, if metrics are enabled.
  abbrev pub on_metrics : (Metrics o.floats → Metrics o.floats) → Shared o → Shared o
  on_metrics f s = record s { metrics = elim s.metrics [ none ↦ none | some m ↦ some (f m) ] }

  -- `breaker.record(success)`, if the prefix has a breaker.
  abbrev record_breakers : Text → ℕ → Bool → Option Breakers → Option Breakers
  record_breakers prefix now success none = none
  record_breakers prefix now success (some b) = some (record_at prefix now success b)

  unfoldable pub report : Text → ℕ → Bool → Shared o → Shared o
  report prefix now success s = record s {
    breakers = record_breakers prefix now success s.breakers;
  }

  abbrev admit_breakers : Text → ℕ → Option Breakers → Bool × Option Breakers
  admit_breakers prefix now none = (false, none)
  admit_breakers prefix now (some b) =
      let (admit, b') = admit_at prefix now b in (is_short admit, some b')

  -- `breaker.try_admit() == ShortCircuit`, if the prefix has a breaker.
  unfoldable pub try_breaker : Text → ℕ → Shared o → Bool × Shared o
  try_breaker prefix now s =
      let (short, breakers) = admit_breakers prefix now s.breakers in
      (short, record s { breakers = breakers })

  unfoldable pub circuit_open : Text → Response o.http
  circuit_open prefix = record {
    status = service_unavailable;
    headers = (codes "retry-after", codes "5") ∷ [];
    body =
        message (codes "backend " ++ (o.http.debug prefix ++ codes " unavailable (circuit open)"));
  }

  abbrev pub query_text : Option Text → Text
  query_text none = []
  query_text (some q) = b'?' ∷ q

  -- The request for the backend.
  unfoldable pub outgoing :
      ProxyState o → (backend suffix : Text) → Request o.http → o.http.Bytes → Outgoing o
  outgoing state backend suffix request body = record {
    method = or_default (codes "GET") (o.http.method_from_bytes request.method);
    target = backend ++ (suffix ++ query_text request.query);
    headers = request_headers o.http request.headers;
    timeout = state.backend_timeout;
    body = body;
  }

  -- The status that goes back to the caller.
  abbrev pub passed_status : ℕ → ℕ
  passed_status status = or_default bad_gateway (o.http.status_from_u16 status)

  unfoldable pub passed_response : Answer o → Response o.http
  passed_response answer =
      let headers = response_headers o.http answer.headers in
      if o.http.builds (passed_status answer.status) headers
      then record {
        status = passed_status answer.status;
        headers = headers;
        body = payload (or_default o.http.no_bytes answer.body);
      }
      else plain o.http bad_gateway (codes "response build failed")

  unfoldable pub unreachable : Text → Response o.http
  unreachable prefix =
      plain o.http bad_gateway (codes "backend " ++ (o.http.debug prefix ++ codes " unreachable"))

  -- From the answer of the client on.
  unfoldable pub conclude : Text → Moment o → Outgoing o → Option (Answer o) → Shared o → Handled o
  unfolding report
  conclude prefix m out none s =
      let failed = report prefix m.reported_at false s in
      record {
        response = unreachable prefix;
        shared = on_metrics (finish o.floats prefix m.elapsed (some (codes "5xx"))) failed;
        contacted = some out;
      }
  conclude prefix m out (some answer) s =
      let served = m.answer_wait (report prefix m.reported_at true s) in
      let class = status_class (passed_status answer.status) in
      record {
        response = passed_response answer;
        shared = on_metrics (finish o.floats prefix m.elapsed (some class)) served;
        contacted = some out;
      }

  -- From the buffered body on.
  unfoldable pub send_body :
      ProxyState o
      → (prefix backend suffix : Text) → Request o.http
      → Moment o
      → Option o.http.Bytes
      → Shared o
      → Handled o
  unfolding conclude
  send_body state prefix backend suffix request m none s =
      stop o (plain o.http bad_request (codes "failed to read request body")) s
  send_body state prefix backend suffix request m (some body) s =
      let out = outgoing state backend suffix request body in
      conclude prefix m out (m.exchange out) (m.send_wait s)

  unfoldable pub admitted :
      ProxyState o
      → (prefix backend suffix : Text) → Request o.http
      → Moment o
      → Bool
      → Shared o
      → Handled o
  unfolding send_body
  admitted state prefix backend suffix request m true s =
      stop o (circuit_open prefix) (on_metrics (inc_circuit_open o.floats prefix) s)
  admitted state prefix backend suffix request m false s =
      send_body state prefix backend suffix request m (o.http.to_bytes body_cap request.body)
        (m.body_wait s)

  unfoldable pub forward_to :
      ProxyState o
      → (prefix suffix : Text) → Request o.http
      → Moment o
      → Option Text
      → Shared o
      → Handled o
  forward_to state prefix suffix request m none s =
      stop o (plain o.http not_found (codes "no route for prefix " ++ o.http.debug prefix)) s
  forward_to state prefix suffix request m (some backend) s =
      let (short, s') = try_breaker prefix m.admitted_at s in
      admitted state prefix backend suffix request m short s'

  unfoldable pub forward :
      ProxyState o → (prefix suffix : Text) → Request o.http → Moment o → Shared o → Handled o
  unfolding forward_to admitted try_breaker
  forward state prefix suffix request m s =
      forward_to state prefix suffix request m (get prefix state.backends) s
