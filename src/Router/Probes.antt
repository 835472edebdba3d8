-- ===== src/Router/Probes.antt =====
-- The probe of a half-open breaker, when the body of the probing request cannot be read.
use ratewall.Prelude.{
  ℕ, ◌≡◌, refl, Bool, true, false, none, some, List, [], ◌∷◌, arith, ap, ◌∙◌, ◌+◌, ◌≤◌, All,
}
use ratewall.Prelude.Text.{Text}
use ratewall.Prelude.Table.{get}
use ratewall.Circuit.{opened, half_open, short_circuit, call, try_admit}
use ratewall.Circuit.Registry.{Breakers, CircuitBreaker, admitted}
use ratewall.Http.{Request, Response, bad_request, service_unavailable}
use ratewall.Router.{Outside, ProxyState, Shared, Moment}
use ratewall.Router.Forward
use ratewall.Router.Exchange.{own_breaker, forward-IsTurnedAway}
use ratewall.Router.Flights.{breaker_in, breaker_of}
use ratewall.Router.Flights.Look.{try_breaker-short}
use ratewall.Router.Forward.{
  is_short, forward, forward_to, try_breaker, send_body, outgoing, body_cap,
}

-- The breaker of the prefix is half-open.
abbrev pub IsHalfOpen : (o : Outside) → Text → Shared o → Type 0
IsHalfOpen o prefix s =
    (b : CircuitBreaker) × (breaker_of o prefix s ≡ some b) × (b.inner.state ≡ half_open)

-- One request to the prefix: the path for the backend, the request, and what it meets.
abbrev pub Arrival : Outside → Type 0
Arrival o = Text × Request o.http × Moment o

module _ (o : Outside) (state : ProxyState o) (prefix : Text) where
  -- The responses to requests that arrive one after the other.
  pub serve_all : List (Arrival o) → Shared o → List (Response o.http)
  serve_all [] s = []
  serve_all ((suffix, request, m) ∷ rest) s =
      let handled = forward o state prefix suffix request m s in
      handled.response ∷ serve_all rest handled.shared

half_open_stays :
    (now : ℕ) (b : CircuitBreaker)
    → b.inner.state ≡ half_open
    → ((try_admit b.cfg now b.inner).0 ≡ short_circuit) × ((admitted now b).inner.state ≡ half_open)
unfolding try_admit
half_open_stays now b h = (ground arith, ground arith)

cooled_down :
    (now t : ℕ) (b : CircuitBreaker)
    → b.inner.state ≡ opened
    → b.inner.opened_at ≡ some t
    → t + b.cfg.cooldown ≤ now
    → ((try_admit b.cfg now b.inner).0 ≡ call) × ((admitted now b).inner.state ≡ half_open)
unfolding try_admit
cooled_down now t b h k l = (ground arith, ground arith)

module _ (o : Outside) (state : ProxyState o) (prefix backend : Text)
    (routed : get prefix state.backends ≡ some backend) where
  forward_of_IsHalfOpen :
      (suffix : Text) (request : Request o.http) (m : Moment o) (s : Shared o)
      → IsHalfOpen o prefix s
      → ((forward o state prefix suffix request m s).response.status ≡ service_unavailable)
        × IsHalfOpen o prefix (forward o state prefix suffix request m s).shared
  forward_of_IsHalfOpen suffix request m s (b, found, half) =
      let (short, stays) = half_open_stays m.admitted_at b half in
      let (status, _, left) =
        forward-IsTurnedAway o state prefix backend routed suffix request m b s found short in
      (status, (admitted m.admitted_at b, left, stays))

  serve_all_of_half_open :
      (later : List (Arrival o)) (s : Shared o)
      → IsHalfOpen o prefix s
      → All (λ r. r.status ≡ service_unavailable) (serve_all o state prefix later s)
  unfolding serve_all
  serve_all_of_half_open [] s half = tt
  serve_all_of_half_open ((suffix, request, m) ∷ rest) s half =
      let (status, next) = forward_of_IsHalfOpen suffix request m s half in
      (status, serve_all_of_half_open rest (forward o state prefix suffix request m s).shared next)

  unread :
      (suffix : Text) (request : Request o.http) (m : Moment o) (short : Bool) (s : Shared o)
      → short ≡ false
      → o.http.to_bytes body_cap request.body ≡ none
      → (m.body_wait s).breakers ≡ s.breakers
      → IsHalfOpen o prefix s
      → ((Forward.admitted o state prefix backend suffix request m short s).response.status
          ≡ bad_request)
        × IsHalfOpen o prefix
            (Forward.admitted o state prefix backend suffix request m short s).shared
  unfolding Forward.admitted send_body
  unread suffix request m true s e h alone half = cc
  unread suffix request m false s e h alone (b, found, half) =
      (rw h refl, (b, rw h (ap (breaker_in o prefix) alone ∙ found), half))

  unread_probe :
      (suffix : Text) (request : Request o.http) (m : Moment o) (s : Shared o) (b : CircuitBreaker)
      → breaker_of o prefix s ≡ some b
      → (try_admit b.cfg m.admitted_at b.inner).0 ≡ call
      → (admitted m.admitted_at b).inner.state ≡ half_open
      → o.http.to_bytes body_cap request.body ≡ none
      → ((s' : Shared o) → (m.body_wait s').breakers ≡ s'.breakers)
      → ((forward o state prefix suffix request m s).response.status ≡ bad_request)
        × IsHalfOpen o prefix (forward o state prefix suffix request m s).shared
  unfolding forward forward_to
  unread_probe suffix request m s b found called half unreadable alone =
      let now = m.admitted_at in
      let waiting = (try_breaker o prefix now s).1 in
      rw routed (
        unread suffix request m (try_breaker o prefix now s).0 waiting
          (try_breaker-short o prefix now b s found ∙ ap (λ a. is_short (some a)) called) unreadable
          (alone waiting)
          (
            admitted now b,
            own_breaker o state prefix backend routed suffix request m b s found,
            half,
          ))

-- A probe whose body cannot be read is lost: when the cooldown of the prefix has passed and the
-- request that is let through as the probe has an unreadable body, it is answered with 400 without
-- a report to the breaker, and every later request in a sequence of requests to the prefix is
-- answered with 503, at whatever time it comes, if nobody else moves a breaker while the probe
-- waits for its body.
pub lost_probe :
    (o : Outside) (state : ProxyState o) (prefix backend suffix : Text) (request : Request o.http)
    (m : Moment o) (s : Shared o) (breakers : Breakers) (b : CircuitBreaker) (t : ℕ)
    (later : List (Arrival o))
    → get prefix state.backends ≡ some backend
    → s.breakers ≡ some breakers
    → get prefix breakers ≡ some b
    → b.inner.state ≡ opened
    → b.inner.opened_at ≡ some t
    → t + b.cfg.cooldown ≤ m.admitted_at
    → o.http.to_bytes body_cap request.body ≡ none
    → ((s' : Shared o) → (m.body_wait s').breakers ≡ s'.breakers)
    → ((forward o state prefix suffix request m s).response.status ≡ bad_request)
      × All
          (λ r. r.status ≡ service_unavailable)
          (serve_all o state prefix later (forward o state prefix suffix request m s).shared)
lost_probe o state prefix backend suffix request m s breakers b t later routed h found open_now at
      waited unreadable alone =
    let now = m.admitted_at in
    let (called, half) = cooled_down now t b open_now at waited in
    let (status, stuck) =
      unread_probe o state prefix backend routed suffix request m s b (rw h found) called half
        unreadable alone in
    (
      status,
      serve_all_of_half_open o state prefix backend routed later
          (forward o state prefix suffix request m s).shared stuck,
    )
