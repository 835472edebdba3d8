-- ===== src/Router/Flights/Admission.antt =====
-- The admission of a handler, on the side of one backend's breaker: it is at most one step of the
-- breaker with its callers.
use ratewall.Prelude.{ℕ, ◌+◌, ◌≡◌, refl, ◌∙◌, Bool, true, false, Option, none, some, arith}
use ratewall.Prelude.Text.{Text, text_eq, text_eq_iff}
use native.Mathlib.Nat.{add-zero}
use ratewall.Circuit.{State, BreakerConfig, Inner, try_admit}
use ratewall.Circuit.Callers
use ratewall.Circuit.Callers.{
  as_call, as_probe, outstanding, request_fails_fast, request_is_admitted,
}
use ratewall.Circuit.Registry.{CircuitBreaker, admitted}
use ratewall.Router.{Outside, ProxyState, Shared, Moment}
use ratewall.Router.Forward.{try_breaker, is_short}
use ratewall.Router.Flights.{Progress, breaker_of, state_of, after_admission, to_backend}
use ratewall.Router.Flights.Look.{breaker_of-try_breaker, try_breaker-short}
use ratewall.Router.Flights.Counts.{weight_in}

module _ (o : Outside) (state : ProxyState o) (late : Bool) (p : Text) (cfg : BreakerConfig) where
  abbrev pub breaker : Inner → CircuitBreaker
  breaker b = record { cfg = cfg; inner = b }

  -- From a breaker `b` with `calls` and `probes` for this handler, and any others besides.
  abbrev pub Simulates : Inner → (calls probes : ℕ) → Progress o × Shared o → Type 0
  Simulates b calls probes (progress, s) =
      (i : Inner) × (breaker_of o p s ≡ some (breaker i))
      × ((n k : ℕ)
          → Callers.Reach cfg late (outstanding b (n + calls) (k + probes)) (
              outstanding i (n + weight_in o p as_call progress)
                (k + weight_in o p as_probe progress)))

  module _ (m : Moment o) (b : Inner) where
    module _ (q backend suffix : Text) where
      admission_elsewhere :
          (seen : State) (short : Bool) (s : Shared o)
          → text_eq q p ≡ false
          → breaker_of o p s ≡ some (breaker b)
          → Simulates b 0 0 (after_admission o q backend suffix seen short s)
      admission_elsewhere seen true s e h = (b, h, λ n k. Callers.here)
      admission_elsewhere seen false s e h = (b, h, λ n k. rw e Callers.here)

      admission_here :
          (seen : State) (short : Bool) (s : Shared o)
          → text_eq q p ≡ true
          → seen ≡ b.state
          → breaker_of o p s ≡ some (admitted m.admitted_at (breaker b))
          → short ≡ is_short (some (try_admit cfg m.admitted_at b).0)
          → Simulates b 0 0 (after_admission o q backend suffix seen short s)
      admission_here seen true s e same h short = (
        (try_admit cfg m.admitted_at b).1,
        h,
        λ n k.
            Callers.next Callers.here
              (request_fails_fast cfg late m.admitted_at b (n + 0) (k + 0) (ground arith)),
      )
      admission_here seen false s e same h short = (
        (try_admit cfg m.admitted_at b).1,
        h,
        λ n k.
            rw (e, same, add-zero n, add-zero k)
              (Callers.next Callers.here
                (request_is_admitted cfg late m.admitted_at b n k (ground arith))),
      )

      Simulates-to_backend_in :
          (hit : Bool) (s : Shared o)
          → text_eq q p ≡ hit
          → breaker_of o p s ≡ some (breaker b)
          → Simulates b 0 0 (to_backend o m q suffix (some backend) s)
      Simulates-to_backend_in false s e h =
          admission_elsewhere (state_of o (breaker_of o q s)) (try_breaker o q m.admitted_at s).0
            (try_breaker o q m.admitted_at s).1 e
            (breaker_of-try_breaker o q p m.admitted_at s ∙ rw e h)
      Simulates-to_backend_in true s e h =
          let h' : breaker_of o q s ≡ some (breaker b) = rw ((text_eq_iff q p).0 e) h in
          admission_here (state_of o (breaker_of o q s)) (try_breaker o q m.admitted_at s).0
            (try_breaker o q m.admitted_at s).1 e (rw h' refl)
            (breaker_of-try_breaker o q p m.admitted_at s ∙ rw (e, h') refl)
            (try_breaker-short o q m.admitted_at (breaker b) s h')

    pub Simulates-to_backend :
        (q suffix : Text) (found : Option Text) (s : Shared o)
        → breaker_of o p s ≡ some (breaker b)
        → Simulates b 0 0 (to_backend o m q suffix found s)
    Simulates-to_backend q suffix none s h = (b, h, λ n k. Callers.here)
    Simulates-to_backend q suffix (some backend) s h =
        Simulates-to_backend_in q backend suffix (text_eq q p) s refl h
