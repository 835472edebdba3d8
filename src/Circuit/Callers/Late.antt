-- ===== src/Circuit/Callers/Late.antt =====
-- What a late report does: a call that a closed breaker admitted and that reports when the breaker
-- is half-open (core/src/circuit.rs).
use ratewall.Prelude.{
  ℕ, zero, suc, ◌+◌, ◌-◌, ◌<◌, ◌≡◌, refl, true, false, Option, none, some, arith, inl,
}
use ratewall.Circuit.{State, closed, opened, half_open, BreakerConfig, try_admit, record_outcome}
use ratewall.Circuit.Traces.{IsSound}
use ratewall.Circuit.Callers.{
  System, start, arrive, Step, request, call_reports, Reach, here, next, Reach-trans,
}

abbrev pub system : State → ℕ → Option ℕ → ℕ → ℕ → System
system state failures stamp calls probes = record {
  breaker = record { state = state; consecutive_failures = failures; opened_at = stamp };
  calls = calls;
  probes = probes;
}

module _ (cfg : BreakerConfig) (s : IsSound cfg) where
  one_more : (k : ℕ) → Step cfg true (system closed k none 1 0) (system closed k none 2 0)
  unfolding arrive try_admit
  one_more k = request 0 (ground arith)

  fails_below :
      (k : ℕ)
      → k + 1 < cfg.failure_threshold
      → Step cfg true (system closed k none 2 0) (system closed (k + 1) none 1 0)
  unfolding record_outcome
  fails_below k h = call_reports 0 false (omega arith) (inl refl) (ground arith)

  fails_at :
      (k : ℕ)
      → k + 1 ≡ cfg.failure_threshold
      → Step cfg true (system closed k none 2 0) (system opened 0 (some 0) 1 0)
  unfolding record_outcome
  fails_at k h = call_reports 0 false (omega arith) (inl refl) (ground arith)

  -- While one call is out, others fail one after the other until the breaker opens.
  reaches_open :
      (j k : ℕ)
      → k + suc j ≡ cfg.failure_threshold
      → Reach cfg true (system closed k none 1 0) (system opened 0 (some 0) 1 0)
  reaches_open zero k e = next (next here (one_more k)) (fails_at k (omega arith))
  reaches_open (suc j) k e =
      Reach-trans (next (next here (one_more k)) (fails_below k (omega arith)))
        (reaches_open j (k + 1) (omega arith))

  first_probe : Step cfg true (system opened 0 (some 0) 1 0) (system half_open 0 (some 0) 1 1)
  unfolding arrive try_admit
  first_probe = request cfg.cooldown (ground arith)

  late_failure :
      Step cfg true (system half_open 0 (some 0) 1 1) (system opened 0 (some cfg.cooldown) 0 1)
  unfolding record_outcome
  late_failure = call_reports cfg.cooldown false (omega arith) (inl refl) (ground arith)

  second_probe :
      Step cfg true
        (system opened 0 (some cfg.cooldown) 0 1)
        (system half_open 0 (some cfg.cooldown) 0 2)
  unfolding arrive try_admit
  second_probe = request (cfg.cooldown + cfg.cooldown) (ground arith)

  first_call : Step cfg true start (system closed 0 none 1 0)
  unfolding arrive try_admit
  first_call = request 0 (ground arith)

-- With every configuration whose threshold is at least 1 and fits a `u32`, a late report of a
-- call from an earlier closed phase lets two probes be out at once.
pub two_probes :
    (cfg : BreakerConfig)
    → IsSound cfg
    → Reach cfg true start (system half_open 0 (some cfg.cooldown) 0 2)
two_probes cfg s =
    next
      (next
        (next
          (Reach-trans (next here (first_call cfg s))
            (reaches_open cfg s (cfg.failure_threshold - 1) 0 (omega arith)))
          (first_probe cfg s))
        (late_failure cfg s))
      (second_probe cfg s)
