-- ===== src/Lib.antt =====
-- Verification of ratewall, a reverse proxy that checks tokens, limits rates and breaks circuits.
--
-- The program (core/src): a request to the gateway passes the bearer gate (fail-closed), the rate
-- limiter (fail-open), the parse of its path, the circuit breaker of its backend and the HTTP
-- client, in that order; the registry counts what the limiter and the breaker reject, and what
-- the client is asked.
--
-- What models what:
--   Config     core/src/config.rs: the configuration, its defaults, `validate`, `from_toml`.
--   Ratelimit  core/src/ratelimit.rs: `connect`, `decide`, `ping`, the keys of the counters.
--   Auth       core/src/auth.rs: `issue_token`, `verify_token`, `bearer_token`; in Auth/Keys the
--              signing key on disk, in Auth/Gate core/src/middleware_auth.rs (`check_bearer`), in
--              Auth/Login core/src/auth_login.rs (`login`).
--   Circuit    core/src/circuit.rs: one breaker; in Circuit/Registry the breakers of all routes.
--   Metrics    core/src/metrics.rs: the registry; in Metrics/Render the text that is scraped,
--              and in Metrics/Render/Scrape a scraper that reads it back.
--   Middleware core/src/middleware.rs: the request id.
--   Router     core/src/router.rs: the state, the paths and the headers; in Router/Forward `forward`,
--              in Router/Fallback `proxy_fallback`, in Router/Endpoints the three endpoints; in
--              Router/Flights the handlers cut at their waits, and the world in which they run.
--   Gateway    gateway/src/main.rs: what the process starts with; in Gateway/App the application
--              that it serves, with `build_router` and the router of the login.
--   Mock       mock-backends/src: the stubs that echo a path; in Mock/Behind one of them behind the
--              gateway, with the HTTP client's reading of a URL between them.
--   Http       the requests and responses that the handlers see.
--   Prelude    texts, decimals, ordered tables and results.
--   UnitTests  the unit tests of core/src (`mod tests` of each file), as functions into Bool; they
--              are run in each file, or in the file Passes below it.
--   Examples   small instances of all parameters, and runs on concrete inputs.
--
-- How it is modelled: state is passed explicitly. A critical section under a mutex and an atomic
-- update are one function; interleavings of callers are sequences of such steps (Circuit/Traces,
-- Circuit/Callers, Router/Flights). In a handler the points where it waits are functions on the
-- shared state, so that other handlers can do anything there (`Moment` in Router). A handler gives
-- its response, the shared state and the request that it handed to the HTTP client. Instants and
-- durations are nanoseconds on ℕ; the counters of a breaker wrap at 2^32, those of the registry at
-- 2^64. Texts are lists of Unicode scalar values. All loops are structural recursions, but for the
-- digits of a number (Prelude/Decimal), whose fuel is the number plus one; `value_from-digits`
-- there shows that it is enough. A handler is driven through its waits on a fuel of four, one for
-- each place where it can wait (Router/Flights/Drive).
--
-- Parameters, each a record of operations: `Redis`, `Crypto` (signatures, base64, JSON), `Http`
-- (bodies and conversions), `Floats`, `Files` and `Pem`, `Platform` (the rest that the start asks
-- for, with the HTTP client that may fail to be built), `Axum` (the handler of a path), the TOML
-- parser, the exchange with a backend, and the path that the HTTP client asks a backend for. What a
-- theorem assumes of them is a law or a record of laws (`Counters`, `CryptoLaws`, `DiskLaws`,
-- `Documented`, `Captures`, `IsOrigin`), and Examples/Crates, Examples/Tokens, Examples/App and
-- Examples/Stubs have instances. The unit tests have further records of what they assume next to
-- their runs.
--
-- Not modelled: the listener, the environment variables, the log lines and tracing spans, the
-- `Debug` implementations, and what axum, the HTTP client, Redis and the crates do inside.
pub mod Prelude
pub mod Config
pub mod Ratelimit
pub mod Http
pub mod Auth
pub mod Metrics
pub mod Middleware
pub mod Router
pub mod Circuit
pub mod Gateway
pub mod Mock
pub mod UnitTests
pub mod Examples
