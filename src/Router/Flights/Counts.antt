-- ===== src/Router/Flights/Counts.antt =====
-- What the flights to one backend count as on the side of its breaker: calls and probes whose
-- outcome is still out.
use ratewall.Prelude.{
  ℕ, ◌+◌, ◌≡◌, ◌≢◌, ◌⊎◌, refl, Bool, true, false, List, [], ◌∷◌, ◌++◌, if◌then◌else◌, arith,
}
use ratewall.Prelude.Text.{Text, text_eq}
use ratewall.Circuit.{State, closed, opened, half_open, BreakerConfig, Inner, record_outcome}
use ratewall.Circuit.Callers
use ratewall.Circuit.Callers.{
  as_call, as_probe, outstanding, call_reports, probe_reports, call_ends, probe_ends,
}
use ratewall.Http.{Request}
use ratewall.Router.{Outside}
use ratewall.Router.Flights.{
  Waiting, for_redis, for_body, for_backend, for_answer, Progress, waits, responds, Flight,
  flight_of,
}

module _ (o : Outside) (p : Text) (f : State → ℕ) where
  abbrev pub weight : Waiting o → ℕ
  weight (for_body q backend suffix seen) = if text_eq q p then f seen else 0
  weight (for_backend q out seen) = if text_eq q p then f seen else 0
  weight (for_redis decision) = 0
  weight (for_answer q out answer) = 0

  abbrev pub weight_in : Progress o → ℕ
  weight_in (waits w) = weight w
  weight_in (responds response contacted) = 0

  pub total : List (Flight o) → ℕ
  total [] = 0
  total (x ∷ flights) = weight x.waiting + total flights

  pub total-nil : total [] ≡ 0
  unfolding total
  total-nil = refl

  pub total-append : (xs ys : List (Flight o)) → total (xs ++ ys) ≡ total xs + total ys
  unfolding total
  total-append [] ys = omega arith
  total-append (x ∷ xs) ys = omega (arith, total-append xs ys)

  -- One flight among the others.
  pub total-middle :
      (before after : List (Flight o)) (x : Flight o)
      → total (before ++ x ∷ after) ≡ total before + total after + weight x.waiting
  unfolding total
  total-middle before after x = omega (arith, total-append before (x ∷ after))

  pub total-moved :
      (before after : List (Flight o)) (request : Request o.http) (progress : Progress o)
      → total (before ++ (flight_of o request progress ++ after))
        ≡ total before + total after + weight_in progress
  unfolding total
  total-moved before after request (waits w) =
      total-middle before after (record { request = request; waiting = w })
  total-moved before after request (responds response contacted) =
      omega (arith, total-append before after)

module _ (cfg : BreakerConfig) (late : Bool) (b : Inner) (n m : ℕ) where
  abbrev pub out_with : (hit : Bool) → State → Callers.System
  out_with hit seen =
      outstanding b (n + (if hit then as_call seen else 0)) (m + (if hit then as_probe seen else 0))

  -- A call or probe that ends without a report.
  pub Reach-ends :
      (hit : Bool) (seen : State)
      → Callers.Reach cfg late (out_with hit seen) (outstanding b (n + 0) (m + 0))
  Reach-ends false seen = Callers.here
  Reach-ends true closed = Callers.next Callers.here (call_ends (omega arith) (ground arith))
  Reach-ends true opened = Callers.next Callers.here (probe_ends (omega arith) (ground arith))
  Reach-ends true half_open = Callers.next Callers.here (probe_ends (omega arith) (ground arith))

  -- One that reports. A call does so in the half-open phase only if it may be late.
  pub Reach-reports :
      (now : ℕ) (success : Bool) (seen : State)
      → (seen ≡ closed → (late ≡ true) ⊎ (b.state ≢ half_open))
      → Callers.Reach cfg late
          (out_with true seen)
          (outstanding (record_outcome cfg now success b) (n + 0) (m + 0))
  Reach-reports now success closed h =
      Callers.next Callers.here (call_reports now success (omega arith) (h refl) (ground arith))
  Reach-reports now success opened h =
      Callers.next Callers.here (probe_reports now success (omega arith) (ground arith))
  Reach-reports now success half_open h =
      Callers.next Callers.here (probe_reports now success (omega arith) (ground arith))

-- A handler that ends during a wait.
pub Reach-abandoned :
    (o : Outside) (p : Text) (cfg : BreakerConfig) (late : Bool) (b : Inner) (n m : ℕ)
    (w : Waiting o)
    → Callers.Reach cfg late
        (outstanding b (n + weight o p as_call w) (m + weight o p as_probe w))
        (outstanding b (n + 0) (m + 0))
Reach-abandoned o p cfg late b n m (for_redis decision) = Callers.here
Reach-abandoned o p cfg late b n m (for_body q backend suffix seen) =
    Reach-ends cfg late b n m (text_eq q p) seen
Reach-abandoned o p cfg late b n m (for_backend q out seen) =
    Reach-ends cfg late b n m (text_eq q p) seen
Reach-abandoned o p cfg late b n m (for_answer q out answer) = Callers.here
