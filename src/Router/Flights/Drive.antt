-- ===== src/Router/Flights/Drive.antt =====
-- The pieces between the waits, one after the other, are `proxy_fallback`.
use ratewall.Prelude.{
  ℕ, zero, suc, inl, inr, ◌≡◌, refl, Bool, true, false, Option, none, some, is_empty, Bool-cases,
  Result, ok, err,
}
use ratewall.Prelude.Text.{Text, codes}
use ratewall.Prelude.Table.{get}
use ratewall.Circuit.{State}
use ratewall.Ratelimit.{RateLimiter, Decision, allow, limit, open_window, decide, limit_key}
use ratewall.Http.{Request, Response}
use ratewall.Router.{Outside, Outgoing, Answer, Handled, ProxyState, Shared, Moment, split_path}
use ratewall.Router.Forward
use ratewall.Router.Forward.{
  forward, forward_to, send_body, conclude, try_breaker, body_cap, outgoing,
}
use ratewall.Router.Fallback.{
  authenticate, rate_limit, dispatch, limited, identified, proxy_fallback,
}
use ratewall.Router.Flights.{
  Waiting, for_redis, for_body, for_backend, for_answer, Progress, waits, responds, after_admission,
  to_backend, route, identify, after_gate, begin, after_exchange, after_body, resume, state_of,
  breaker_of,
}

module _ (o : Outside) (state : ProxyState o) (request : Request o.http) (m : Moment o) where
  -- What happens to the shared state during a wait.
  abbrev pub wait_of : Waiting o → Shared o → Shared o
  wait_of (for_redis decision) = m.redis_wait
  wait_of (for_body prefix backend suffix seen) = m.body_wait
  wait_of (for_backend prefix out seen) = m.send_wait
  wait_of (for_answer prefix out answer) = m.answer_wait

  -- A handler driven to its response through at most so many waits.
  pub drive : ℕ → Progress o × Shared o → Option (Handled o)
  drive fuel (responds response contacted, s) =
      some (record { response = response; shared = s; contacted = contacted })
  drive zero (waits w, s) = none
  drive (suc fuel) (waits w, s) = drive fuel (resume o state request m w (wait_of w s))

  module _ (prefix : Text) where
    drive-after_exchange :
        (fuel : ℕ) (out : Outgoing o) (a : Option (Answer o)) (s : Shared o)
        → drive (suc fuel) (after_exchange o m prefix out a s) ≡ some (conclude o prefix m out a s)
    unfolding drive resume conclude
    drive-after_exchange fuel out none s = refl
    drive-after_exchange fuel out (some a) s = refl

    drive-after_body :
        (fuel : ℕ) (backend suffix : Text) (seen : State) (buffered : Option o.http.Bytes)
        (s : Shared o)
        → drive (suc (suc fuel)) (after_body o state request prefix backend suffix seen buffered s)
          ≡ some (send_body o state prefix backend suffix request m buffered s)
    unfolding drive resume send_body
    drive-after_body fuel backend suffix seen none s = refl
    drive-after_body fuel backend suffix seen (some body) s =
        let out = outgoing o state backend suffix request body in
        drive-after_exchange fuel out (m.exchange out) (m.send_wait s)

    drive-after_admission :
        (fuel : ℕ) (backend suffix : Text) (seen : State) (short : Bool) (s : Shared o)
        → drive (suc (suc (suc fuel))) (after_admission o prefix backend suffix seen short s)
          ≡ some (Forward.admitted o state prefix backend suffix request m short s)
    unfolding drive resume Forward.admitted
    drive-after_admission fuel backend suffix seen true s = refl
    drive-after_admission fuel backend suffix seen false s =
        drive-after_body fuel backend suffix seen (o.http.to_bytes body_cap request.body)
          (m.body_wait s)

    drive-to_backend :
        (fuel : ℕ) (suffix : Text) (found : Option Text) (s : Shared o)
        → drive (suc (suc (suc fuel))) (to_backend o m prefix suffix found s)
          ≡ some (forward_to o state prefix suffix request m found s)
    unfolding drive forward_to
    drive-to_backend fuel suffix none s = refl
    drive-to_backend fuel suffix (some backend) s =
        let (short, s') = try_breaker o prefix m.admitted_at s in
        drive-after_admission fuel backend suffix (state_of o (breaker_of o prefix s)) short s'

  drive-route :
      (fuel : ℕ) (s : Shared o)
      → drive (suc (suc (suc fuel))) (route o state request m s)
        ≡ some (dispatch o state request m s)
  unfolding drive route dispatch forward
  drive-route fuel s =
      let (prefix, rest) = split_path request.path in
      elim (Bool-cases (is_empty prefix)) [
        | inl empty ↦ rw empty refl
        | inr named ↦ rw named (drive-to_backend prefix fuel rest (get prefix state.backends) s)
      ]

  drive-for_redis :
      (decision : Decision) (s : Shared o)
      → drive 3 (resume o state request m (for_redis decision) s)
        ≡ some (limited o state request m decision s)
  unfolding drive resume limited
  drive-for_redis (limit retry_after) s = refl
  drive-for_redis allow s = drive-route 0 s
  drive-for_redis open_window s = drive-route 0 s

  drive-identify :
      (limiter : Option RateLimiter) (subject : Option Text) (s : Shared o)
      → drive 4 (identify o state request m limiter subject s)
        ≡ some (
            let (decision, s') = rate_limit o limiter subject m s in
            limited o state request m decision s')
  unfolding drive identify rate_limit
  drive-identify none subject s = unfold limited in drive-route 1 s
  drive-identify (some limiter) subject s =
      let (decision, store) =
        decide o.redis limiter (limit_key subject (codes "unkeyed")) m.epoch_secs s.store in
      drive-for_redis decision (m.redis_wait (record s { store = store }))

  drive-after_gate :
      (verdict : Result (Response o.http) (Option Text)) (s : Shared o)
      → drive 4 (after_gate o state request m verdict s)
        ≡ some (identified o state request m verdict s)
  unfolding drive identified
  drive-after_gate (err response) s = refl
  drive-after_gate (ok subject) s = drive-identify state.limiter subject s

-- A handler has its response after at most four waits, and if it is driven through them, with
-- whatever happens to the shared state during each, it is handled as `proxy_fallback` says.
pub drive-begin :
    (o : Outside) (state : ProxyState o) (request : Request o.http) (m : Moment o) (s : Shared o)
    → drive o state request m 4 (begin o state request m s)
      ≡ some (proxy_fallback o state request m s)
unfolding begin proxy_fallback
drive-begin o state request m s =
    drive-after_gate o state request m (authenticate o state.auth m request) s
