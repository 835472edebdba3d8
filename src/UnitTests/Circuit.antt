-- ===== src/UnitTests/Circuit.antt =====
-- `mod tests` of core/src/circuit.rs. A test is a script of calls and assertions on one breaker;
-- `t` gives the instant that each call reads.
use ratewall.Prelude.{
  ℕ, zero, suc, ◌+◌, ◌-◌, ◌<◌, ◌≤◌, ◌≡◌, refl, Bool, true, false, ◌&&◌, Option, none, some, List,
  [], ◌∷◌, ◌++◌, arith,
}
use ratewall.Prelude.Text.{codes, text_eq}
use ratewall.Prelude.Table.{get, insert, text_compare}
use ratewall.Prelude.Time.{from_secs, from_millis}
use ratewall.Config.{Route}
use ratewall.Circuit.{
  State, closed, opened, half_open, Admit, call, short_circuit, BreakerConfig, default_config,
  Inner, fresh, try_admit, record_outcome,
}
use ratewall.Circuit.Registry.{Breakers, CircuitBreaker, new, record_at}

abbrev same_state : State → State → Bool
same_state closed closed = true
same_state opened opened = true
same_state half_open half_open = true
same_state _ _ = false

abbrev same_admit : Admit → Admit → Bool
same_admit call call = true
same_admit short_circuit short_circuit = true
same_admit _ _ = false

-- `record` at an instant, an asserted `try_admit`, an asserted `state`, and a write to `opened_at`.
data Line : Type 0 where
  records : (now : ℕ) (success : Bool) → Line
  admits : (now : ℕ) (expected : Admit) → Line
  is_in : State → Line
  opened_long_ago : (at : ℕ) → Line

passes : BreakerConfig → List Line → Inner → Bool
passes cfg [] b = true
passes cfg (records now success ∷ rest) b = passes cfg rest (record_outcome cfg now success b)
passes cfg (admits now expected ∷ rest) b =
    let (admit, b') = try_admit cfg now b in same_admit admit expected && passes cfg rest b'
passes cfg (is_in state ∷ rest) b = same_state b.state state && passes cfg rest b
passes cfg (opened_long_ago at ∷ rest) b = passes cfg rest (record b { opened_at = some at })

-- The body of a loop `for _ in 0..n`, with the number of the round.
rounds : ℕ → (ℕ → List Line) → List Line
rounds zero body = []
rounds (suc n) body = rounds n body ++ body n

-- `breaker(threshold, cooldown_ms)`
breaker : ℕ → ℕ → List Line → Bool
unfolding passes
breaker threshold cooldown_ms script =
    passes (record { failure_threshold = threshold; cooldown = from_millis cooldown_ms }) script
      fresh

closed_breaker_admits_everything : (ℕ → ℕ) → Bool
unfolding breaker rounds
closed_breaker_admits_everything t = breaker 3 10_000 (rounds 10 (λ i. admits (t i) call ∷ []))

failures_below_threshold_stay_closed : (ℕ → ℕ) → Bool
unfolding breaker rounds
failures_below_threshold_stay_closed t =
    breaker 3 10_000
      (rounds 2 (λ i. admits (t i) call ∷ records (t i) false ∷ []) ++ is_in closed ∷ [])

threshold_failures_open_the_breaker : (ℕ → ℕ) → ℕ → Bool
unfolding breaker rounds
threshold_failures_open_the_breaker t asked =
    breaker 3 10_000
      (rounds 3 (λ i. records (t i) false ∷ []) ++ is_in opened ∷ admits asked short_circuit ∷ [])

a_success_resets_the_failure_streak : (ℕ → ℕ) → Bool
unfolding breaker
a_success_resets_the_failure_streak t = breaker 3 10_000 (
    records (t 0) false
    ∷ records (t 1) false
    ∷ records (t 2) true
    ∷ records (t 3) false
    ∷ records (t 4) false
    ∷ is_in closed
    ∷ [])

open_becomes_halfopen_after_cooldown_and_probes : (failed early late later : ℕ) → Bool
unfolding breaker
open_becomes_halfopen_after_cooldown_and_probes failed early late later = breaker 1 20 (
    records failed false
    ∷ admits early short_circuit
    ∷ admits late call
    ∷ is_in half_open
    ∷ admits later short_circuit
    ∷ [])

successful_probe_closes_the_breaker : (failed late reported later : ℕ) → Bool
unfolding breaker
successful_probe_closes_the_breaker failed late reported later = breaker 1 10 (
    records failed false
    ∷ admits late call
    ∷ records reported true
    ∷ is_in closed
    ∷ admits later call
    ∷ [])

failed_probe_reopens_with_a_fresh_cooldown : (failed now probed reported later : ℕ) → Bool
unfolding breaker
failed_probe_reopens_with_a_fresh_cooldown failed now probed reported later = breaker 1 10_000 (
    records failed false
    ∷ opened_long_ago (now - from_secs 11)
    ∷ admits probed call
    ∷ records reported false
    ∷ is_in opened
    ∷ admits later short_circuit
    ∷ [])

abbrev routes : List Route
routes =
    record { prefix = codes "crm"; backend = codes "http://crm:3000" }
    ∷ record { prefix = codes "hrm"; backend = codes "http://hrm:3001" }
    ∷ []

-- `crm.record(false)`, five times.
fail_five : (ℕ → ℕ) → Breakers → Breakers
fail_five t breakers =
    let f = λ (i : ℕ) (b : Breakers). record_at (codes "crm") (t i) false b in
    f 4 (f 3 (f 2 (f 1 (f 0 breakers))))

abbrev has_state : Option CircuitBreaker → State → Bool
has_state none state = false
has_state (some b) state = same_state b.inner.state state

abbrev is_none : Option CircuitBreaker → Bool
is_none none = true
is_none (some b) = false

per_prefix_breakers_are_independent : (ℕ → ℕ) → Bool
unfolding fail_five
per_prefix_breakers_are_independent t =
    let after = fail_five t (new routes default_config) in
    has_state (get (codes "crm") after) opened
    && has_state (get (codes "hrm") after) closed
    && is_none (get (codes "nope") after)

-- The tests without a cooldown pass at any instants.
closed_tests_pass :
    (t : ℕ → ℕ)
    → (closed_breaker_admits_everything t ≡ true)
      × (failures_below_threshold_stay_closed t ≡ true)
      × (a_success_resets_the_failure_streak t ≡ true)
unfolding closed_breaker_admits_everything failures_below_threshold_stay_closed
    a_success_resets_the_failure_streak try_admit record_outcome
closed_tests_pass t = (refl, refl, refl)

independent_passes : (t : ℕ → ℕ) → per_prefix_breakers_are_independent t ≡ true
unfolding per_prefix_breakers_are_independent new record_at record_outcome get insert text_eq
    text_compare
independent_passes t = refl

-- The others pass if no more than the cooldown goes by where the test does not sleep, and at least
-- the cooldown where it does.
threshold_test_passes :
    (t : ℕ → ℕ) (asked : ℕ)
    → asked < t 2 + from_millis 10_000
    → threshold_failures_open_the_breaker t asked ≡ true
unfolding threshold_failures_open_the_breaker try_admit record_outcome
threshold_test_passes t asked h = ground arith

sleep_test_passes :
    (failed early late later : ℕ)
    → early < failed + from_millis 20
    → failed + from_millis 30 ≤ late
    → open_becomes_halfopen_after_cooldown_and_probes failed early late later ≡ true
unfolding open_becomes_halfopen_after_cooldown_and_probes try_admit record_outcome
sleep_test_passes failed early late later h k = ground arith

probe_test_passes :
    (failed late reported later : ℕ)
    → failed + from_millis 20 ≤ late
    → successful_probe_closes_the_breaker failed late reported later ≡ true
unfolding successful_probe_closes_the_breaker try_admit record_outcome
probe_test_passes failed late reported later h = ground arith

reopening_test_passes :
    (failed now probed reported later : ℕ)
    → from_secs 11 ≤ now
    → now ≤ probed
    → later < reported + from_millis 10_000
    → failed_probe_reopens_with_a_fresh_cooldown failed now probed reported later ≡ true
unfolding failed_probe_reopens_with_a_fresh_cooldown try_admit record_outcome
reopening_test_passes failed now probed reported later h k l = ground arith
