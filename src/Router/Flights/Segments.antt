-- ===== src/Router/Flights/Segments.antt =====
-- Each piece of a handler between two waits, on the side of one backend's breaker: it is at most
-- one step of the breaker with its callers.
use ratewall.Prelude.{
  ◌≡◌, ◌≢◌, ◌⊎◌, inl, inr, refl, ◌∙◌, Bool, true, false, Bool-cases, Option, none, some, is_empty,
  if◌then◌else◌, Result, ok, err,
}
use ratewall.Prelude.Text.{Text, text_eq, text_eq_iff}
use ratewall.Prelude.Table.{get}
use ratewall.Circuit.{State, closed, opened, half_open, BreakerConfig, Inner, record_outcome}
use ratewall.Circuit.Callers
use ratewall.Circuit.Callers.{
  as_call, as_probe, outstanding, request_fails_fast, request_is_admitted,
}
use ratewall.Ratelimit.{RateLimiter, allow, limit, open_window}
use ratewall.Http.{Request, Response}
use ratewall.Router.{Outside, Outgoing, Answer, ProxyState, Shared, Moment, split_path}
use ratewall.Router.Forward.{report, body_cap}
use ratewall.Router.Fallback.{authenticate}
use ratewall.Router.Flights.{
  Waiting, for_redis, for_body, for_backend, for_answer, Progress, breaker_of, state_of, route,
  identify, after_gate, begin, after_exchange, after_body, resume, IsCall, waited_prefix,
}
use ratewall.Router.Flights.Look.{breaker_of-report}
use ratewall.Router.Flights.Counts.{weight, weight_in, Reach-ends, Reach-reports}
use ratewall.Router.Flights.Admission.{breaker, Simulates, Simulates-to_backend}

module _ (o : Outside) (state : ProxyState o) (late : Bool) (p : Text) (cfg : BreakerConfig) where
  module _ (m : Moment o) (b : Inner) where
    module _ (request : Request o.http) where
      Simulates-route :
          (s : Shared o)
          → breaker_of o p s ≡ some (breaker o state late p cfg b)
          → Simulates o state late p cfg b 0 0 (route o state request m s)
      unfolding route
      Simulates-route s h =
          let (q, rest) = split_path request.path in
          elim (Bool-cases (is_empty q)) [
            | inl empty ↦ rw empty (b, h, λ n k. Callers.here)
            | inr named ↦
                rw named
                  (Simulates-to_backend o state late p cfg m b q rest (get q state.backends) s h)
          ]

      Simulates-identify :
          (limiter : Option RateLimiter) (subject : Option Text) (s : Shared o)
          → breaker_of o p s ≡ some (breaker o state late p cfg b)
          → Simulates o state late p cfg b 0 0 (identify o state request m limiter subject s)
      unfolding identify
      Simulates-identify none subject s h = Simulates-route s h
      Simulates-identify (some limiter) subject s h = (b, h, λ n k. Callers.here)

      Simulates-after_gate :
          (verdict : Result (Response o.http) (Option Text)) (s : Shared o)
          → breaker_of o p s ≡ some (breaker o state late p cfg b)
          → Simulates o state late p cfg b 0 0 (after_gate o state request m verdict s)
      Simulates-after_gate (err response) s h = (b, h, λ n k. Callers.here)
      Simulates-after_gate (ok subject) s h = Simulates-identify state.limiter subject s h

      -- A request that arrives.
      pub Simulates-begin :
          (s : Shared o)
          → breaker_of o p s ≡ some (breaker o state late p cfg b)
          → Simulates o state late p cfg b 0 0 (begin o state request m s)
      unfolding begin
      Simulates-begin s h = Simulates-after_gate (authenticate o state.auth m request) s h

      module _ (q : Text) where
        Simulates-after_body :
            (backend suffix : Text) (seen : State) (body : Option o.http.Bytes) (s : Shared o)
            → breaker_of o p s ≡ some (breaker o state late p cfg b)
            → Simulates o state late p cfg b
                (if text_eq q p then as_call seen else 0)
                (if text_eq q p then as_probe seen else 0)
                (after_body o state request q backend suffix seen body s)
        Simulates-after_body backend suffix seen none s h =
            (b, h, λ n k. Reach-ends cfg late b n k (text_eq q p) seen)
        Simulates-after_body backend suffix seen (some body) s h = (b, h, λ n k. Callers.here)

        report_in :
            (hit success : Bool) (seen : State) (progress : Progress o) (s : Shared o)
            → text_eq q p ≡ hit
            → breaker_of o p s ≡ some (breaker o state late p cfg b)
            → (seen ≡ closed → (late ≡ true) ⊎ (state_of o (breaker_of o q s) ≢ half_open))
            → weight_in o p as_call progress ≡ 0
            → weight_in o p as_probe progress ≡ 0
            → Simulates o state late p cfg b
                (if hit then as_call seen else 0)
                (if hit then as_probe seen else 0)
                (progress, report o q m.reported_at success s)
        report_in false success seen progress s e h timely zc zp = (
          b,
          breaker_of-report o q p m.reported_at success s ∙ rw e h,
          λ n k. rw (zc, zp) Callers.here,
        )
        report_in true success seen progress s e h timely zc zp =
            let h' : breaker_of o q s ≡ some (breaker o state late p cfg b) =
              rw ((text_eq_iff q p).0 e) h in
            (
              record_outcome cfg m.reported_at success b,
              breaker_of-report o q p m.reported_at success s ∙ rw (e, h') refl,
              λ n k.
                  rw (zc, zp)
                    (Reach-reports cfg late b n k m.reported_at success seen
                      (λ c. rw h' at (timely c))),
            )

        Simulates-after_exchange :
            (out : Outgoing o) (seen : State) (a : Option (Answer o)) (s : Shared o)
            → breaker_of o p s ≡ some (breaker o state late p cfg b)
            → (seen ≡ closed → (late ≡ true) ⊎ (state_of o (breaker_of o q s) ≢ half_open))
            → Simulates o state late p cfg b
                (if text_eq q p then as_call seen else 0)
                (if text_eq q p then as_probe seen else 0)
                (after_exchange o m q out a s)
        Simulates-after_exchange out seen none s h timely =
            report_in (text_eq q p) false seen (after_exchange o m q out none s).0 s refl h timely
              refl refl
        Simulates-after_exchange out seen (some a) s h timely =
            report_in (text_eq q p) true seen (after_exchange o m q out (some a) s).0 s refl h
              timely refl refl

      -- A handler whose wait is over.
      pub Simulates-resume :
          (w : Waiting o) (s : Shared o)
          → breaker_of o p s ≡ some (breaker o state late p cfg b)
          → (IsCall o w
              → (late ≡ true) ⊎ (state_of o (breaker_of o (waited_prefix o w) s) ≢ half_open))
          → Simulates o state late p cfg b
              (weight o p as_call w)
              (weight o p as_probe w)
              (resume o state request m w s)
      unfolding resume
      Simulates-resume (for_redis (limit retry_after)) s h timely = (b, h, λ n k. Callers.here)
      Simulates-resume (for_redis allow) s h timely = Simulates-route s h
      Simulates-resume (for_redis open_window) s h timely = Simulates-route s h
      Simulates-resume (for_body q backend suffix seen) s h timely =
          Simulates-after_body q backend suffix seen (o.http.to_bytes body_cap request.body) s h
      Simulates-resume (for_backend q out closed) s h timely =
          Simulates-after_exchange q out closed (m.exchange out) s h (λ c. timely tt)
      Simulates-resume (for_backend q out opened) s h timely =
          Simulates-after_exchange q out opened (m.exchange out) s h (λ c. cc)
      Simulates-resume (for_backend q out half_open) s h timely =
          Simulates-after_exchange q out half_open (m.exchange out) s h (λ c. cc)
      Simulates-resume (for_answer q out answer) s h timely = (b, h, λ n k. Callers.here)
