-- ===== src/Router/Endpoints/Ready.antt =====
-- When `/readyz` answers 200.
use ratewall.Prelude.{
  ◌≡◌, ◌≢◌, ◌↔◌, refl, Bool, true, ◌&&◌, Option, none, some, [], ◌∷◌, ◌++◌, arith, All,
  if◌then◌else◌, ap, subst,
}
use ratewall.Prelude.Text.{codes}
use ratewall.Circuit.{State, closed, opened, half_open}
use ratewall.Circuit.Registry.{Breakers, states}
use ratewall.Ratelimit.{RateLimiter, ping}
use ratewall.Http.{ok_200, service_unavailable}
use ratewall.Router.{Outside, ProxyState, Shared}
use ratewall.Router.Endpoints.{
  is_answering, Readiness, add_component, add_breakers, add_backends, add_redis, readyz,
}

-- No breaker of the table is open.
abbrev pub NoneOpen : Breakers → Type 0
NoneOpen = All (λ e. e.1.inner.state ≢ opened)

is_answering_iff :
    (a : Bool) (state : State)
    → ((a && is_answering state) ≡ true) ↔ ((a ≡ true) × (state ≢ opened))
is_answering_iff a closed = (λ h. ground arith, λ h. ground arith)
is_answering_iff a opened = (λ h. ground arith, λ h. ground arith)
is_answering_iff a half_open = (λ h. ground arith, λ h. ground arith)

add_breakers_ready :
    (breakers : Breakers) (r : Readiness)
    → ((add_breakers (states breakers) r).ready ≡ true) ↔ ((r.ready ≡ true) × NoneOpen breakers)
unfolding add_breakers states
add_breakers_ready [] r = (λ h. (h, tt), λ h. h.0)
add_breakers_ready ((prefix, b) ∷ rest) r =
    let (to, from) =
      add_breakers_ready rest
        (add_component (codes "backend:" ++ prefix) (is_answering b.inner.state) r) in
    let (apart, together) = is_answering_iff r.ready b.inner.state in
    (
      λ h. ((apart (to h).0).0, ((apart (to h).0).1, (to h).1)),
      λ (h : (r.ready ≡ true) × NoneOpen ((prefix, b) ∷ rest)). from (together (h.0, h.1.0), h.1.1),
    )

add_backends_ready :
    (breakers : Option Breakers) (r : Readiness)
    → ((add_backends breakers r).ready ≡ true)
      ↔ ((r.ready ≡ true) × ((b : Breakers) → breakers ≡ some b → NoneOpen b))
add_backends_ready none r = (λ h. (h, λ b e. absurd (ground arith)), λ h. h.0)
add_backends_ready (some breakers) r =
    let (to, from) = add_breakers_ready breakers r in
    (
      λ h. ((to h).0, λ b e. let e' : breakers ≡ b = ground arith in subst NoneOpen e' (to h).1),
      λ h. from (h.0, h.1 breakers refl),
    )

module _ (o : Outside) where
  add_redis_ready :
      (limiter : Option RateLimiter) (store : o.redis.Store) (r : Readiness)
      → ((add_redis o limiter store r).ready ≡ true)
        ↔ ((r.ready ≡ true) × ((l : RateLimiter) → limiter ≡ some l → ping o.redis l store ≡ true))
  add_redis_ready none store r = (λ h. (h, λ l e. absurd (ground arith)), λ h. h.0)
  add_redis_ready (some limiter) store r = (
    λ h. (
      ground arith,
      λ l e.
          let e' : limiter ≡ l = ground arith in ground (arith, ap (λ x. ping o.redis x store) e'),
    ),
    λ h. ground (arith, h.1 limiter refl),
  )

  status_iff :
      (ready : Bool) → ((if ready then ok_200 else service_unavailable) ≡ ok_200) ↔ (ready ≡ true)
  status_iff ready = (λ h. ground arith, λ h. ground arith)

  -- `/readyz` answers 200 exactly if no breaker is open, be it closed or half-open, and the limiter,
  -- if there is one, gets `PONG` from Redis.
  pub readyz_iff :
      (state : ProxyState o) (s : Shared o)
      → ((readyz o state s).0 ≡ ok_200) ↔ (
          ((b : Breakers) → s.breakers ≡ some b → NoneOpen b)
          × ((l : RateLimiter) → state.limiter ≡ some l → ping o.redis l s.store ≡ true))
  unfolding readyz
  readyz_iff state s =
      let start : Readiness = record { ready = true; components = [] } in
      let backends = add_backends s.breakers start in
      let (up, down) = status_iff (add_redis o state.limiter s.store backends).ready in
      let (to, from) = add_redis_ready state.limiter s.store backends in
      let (to', from') = add_backends_ready s.breakers start in
      (λ h. ((to' (to (up h)).0).1, (to (up h)).1), λ h. down (from (from' (refl, h.0), h.1)))
