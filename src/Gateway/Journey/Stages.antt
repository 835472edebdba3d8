-- ===== src/Gateway/Journey/Stages.antt =====
-- The stages of a client's way: the gate, the limiter, the breaker and the path (core/src/router.rs,
-- core/src/middleware_auth.rs), on a gateway that has just started.
use ratewall.Prelude.{
  ℕ, ◌<◌, ◌≡◌, ◌≢◌, inl, inr, ap, ◌∙◌, false, some, [], ◌∷◌, ◌++◌, arith, Bool-cases, ok,
}
use ratewall.Prelude.Text.{Text, codes, text_eq, text_eq_iff}
use ratewall.Prelude.Text.Split.{Lacks}
use ratewall.Prelude.Table.{Table, get}
use ratewall.Prelude.Time.{as_secs, from_secs}
use ratewall.Config.{GatewayConfig}
use ratewall.Config.Routes.{bind_routes}
use ratewall.Config.Validate.{IsUsable}
use ratewall.Auth.{issue_token, saturating_add}
use ratewall.Auth.Issue.{CryptoLaws}
use ratewall.Auth.Presented.{PrintsSolid, issued-presented}
use ratewall.Auth.Gate.{AuthState, check_bearer}
use ratewall.Auth.Login.{LoginState, LoginRequest, login, granted, login_lem, demo_username}
use ratewall.Ratelimit.{RateLimiter, Decision, allow, decide, limit_key, window_key, window_of}
use ratewall.Ratelimit.Window.{Counters, decide_answer}
use ratewall.Circuit.{BreakerConfig, try_admit}
use ratewall.Circuit.Registry.{IsRouted, get-new, new_breaker}
use ratewall.Http.{Request, header_text}
use ratewall.Router.{Outside, Shared, Moment}
use ratewall.Router.Forward.{try_breaker}
use ratewall.Router.Fallback.{rate_limit}
use ratewall.Router.Flights.{breaker_in}
use ratewall.Router.Flights.Look.{try_breaker-short}
use ratewall.Router.Order.{IsLimit}
use ratewall.Gateway.Starts.{configured_state, configured_shared}

get-IsRouted :
    (table : Table Text) (prefix url : Text)
    → get prefix table ≡ some url
    → IsRouted prefix (bind_routes table)
unfolding get
get-IsRouted [] prefix url h = cc
get-IsRouted ((p, v) ∷ rest) prefix url h = elim (Bool-cases (text_eq p prefix)) [
  | inl same ↦ inl ((text_eq_iff p prefix).0 same)
  | inr other ↦ inr (get-IsRouted rest prefix url (ground arith))
]

module _ (o : Outside) (laws : CryptoLaws o.crypto) (solid : PrintsSolid o.crypto)
    (issuer : LoginState o.crypto) (signed_in : ℕ) (payload : LoginRequest) (token : Text)
    (expires_in : ℕ)
    (signed : login o.crypto issuer signed_in payload ≡ granted token expires_in) where
  login_issued :
      issue_token o.crypto issuer.signing_key issuer.issuer payload.username signed_in issuer.ttl
      ≡ ok token
  unfolding login
  login_issued = ground arith

  -- The token of the login passes the gate of the same key and issuer until it expires.
  pub login-check_bearer :
      (request : Request o.http) (now : ℕ)
      → header_text o.http (codes "authorization") request.headers ≡ some (codes "Bearer " ++ token)
      → now < saturating_add signed_in (as_secs issuer.ttl)
      → check_bearer o.crypto o.http
          (record {
            verifying_key = o.crypto.verifying_key issuer.signing_key;
            trusted_issuer = some issuer.issuer;
          })
          now
          request
        ≡ ok demo_username
  unfolding check_bearer
  login-check_bearer request now carried early =
      elim (login_lem o.crypto laws issuer signed_in payload) [
        | inl (_, _, (token', granted', verifies)) ↦
            let same : token' ≡ token = cc in
            let presented =
              issued-presented o.crypto solid o.http issuer.signing_key issuer.issuer
                payload.username signed_in issuer.ttl token request login_issued carried in
            rw presented (ground (arith, same, verifies now))
        | inr (_, refused) ↦ absurd (ground arith)
      ]

module _ (o : Outside) (c : GatewayConfig) (m : Moment o) (subject : Text) where
  abbrev pub limiter : RateLimiter
  limiter = record {
    limit = c.ratelimit.limit;
    window = from_secs c.ratelimit.window_secs;
    key_prefix = [];
  }

  -- The counter of the subject in the window of the request.
  abbrev pub counter : Text
  counter =
      window_key [] (limit_key (some subject) (codes "unkeyed")) (window_of limiter m.epoch_secs)

-- Over a Redis that answers, the first request of a subject in a window passes.
module _ (o : Outside) (counters : Counters o.redis) (c : GatewayConfig) (usable : IsUsable c)
    (gate : AuthState o.crypto) (store : o.redis.Store) (alive : counters.Alive store)
    (m : Moment o) (subject : Text) where
  abbrev pub first : Decision × Shared o
  first =
      rate_limit o (configured_state o c gate).limiter (some subject) m
        (configured_shared o c store)

  pub first_passes : counters.count store (counter o c m subject) ≡ 0 → ¬ IsLimit first.0
  unfolding rate_limit
  first_passes zeroed =
      let e =
        decide_answer o.redis counters (limiter o c m subject) m.epoch_secs
          (limit_key (some subject) (codes "unkeyed")) store alive in
      let passes : (decide o.redis (limiter o c m subject)
            (limit_key (some subject) (codes "unkeyed")) m.epoch_secs store).0
          ≡ allow =
        ground (arith, e, zeroed, usable.limit) in
      rw passes (λ h. h)

  -- The breaker of a routed prefix is new, and admits the call.
  pub first_admitted :
      (prefix url : Text)
      → get prefix c.routes ≡ some url
      → ((s : Shared o) → (m.redis_wait s).breakers ≡ s.breakers)
      → (try_breaker o prefix m.admitted_at first.1).0 ≡ false
  unfolding rate_limit try_admit
  first_admitted prefix url h alone =
      let cfg : BreakerConfig = record {
        failure_threshold = c.breaker.failure_threshold;
        cooldown = from_secs c.breaker.cooldown_secs;
      } in
      let b = new_breaker cfg in
      try_breaker-short o prefix m.admitted_at b first.1 (
        ap (breaker_in o prefix) (alone _)
        ∙ (get-new (bind_routes c.routes) cfg prefix).0 (get-IsRouted c.routes prefix url h))

-- A path with a second slash is not that of an endpoint.
has_slash : (s prefix rest : Text) → Lacks b'/' s → s ≢ prefix ++ b'/' ∷ rest
has_slash [] [] rest h = cc
has_slash [] (c ∷ prefix) rest h = cc
has_slash (d ∷ s) [] rest h = λ e. h.0 (cc)
has_slash (d ∷ s) (c ∷ prefix) rest h = λ e. has_slash s prefix rest h.1 (cc)

abbrev pub path_of : (prefix rest : Text) → Text
path_of prefix rest = b'/' ∷ (prefix ++ b'/' ∷ rest)

pub not_endpoint : (name prefix rest : Text) → Lacks b'/' name → b'/' ∷ name ≢ path_of prefix rest
not_endpoint name prefix rest h e = has_slash name prefix rest h (cc)
