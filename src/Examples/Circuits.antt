-- ===== src/Examples/Circuits.antt =====
-- Runs of the circuit breaker: the state machine, its traces and its callers.
use ratewall.Prelude.{ℕ, ◌≡◌, refl, Bool, true, false, some, List, [], ◌∷◌, arith}
use ratewall.Circuit.{opened, half_open, call, BreakerConfig, Inner, fresh, try_admit}
use ratewall.Circuit.Traces.{Event, admit, report}
use ratewall.Circuit.Streak.{record_all, has_streak, is_opened, record_all-opens}
use ratewall.Circuit.Probe.{admit_all, calls, one_probe}
use ratewall.Circuit.Callers.{start, Reach}
use ratewall.Circuit.Callers.Late.{system, two_probes}

abbrev pub two_failures : BreakerConfig
two_failures = record { failure_threshold = 2; cooldown = 10 }

abbrev down : Inner
down = record { state = opened; consecutive_failures = 0; opened_at = some 5 }

-- Two failures open it, and a probe at instant 30 is admitted.
abbrev story : List Event
story = report 1 false ∷ report 2 false ∷ admit 30 ∷ []

abbrev outcomes_seen : List (ℕ × Bool)
outcomes_seen = (1, false) ∷ (2, true) ∷ (3, false) ∷ (4, false) ∷ []

record_all-opens_example :
    is_opened (record_all two_failures outcomes_seen fresh).state
    ≡ has_streak 2 (false ∷ true ∷ false ∷ false ∷ [])
record_all-opens_example = record_all-opens two_failures outcomes_seen (omega arith, omega arith)

one_probe_example :
    (calls (admit_all two_failures (6 ∷ 9 ∷ []) down).0 ≡ 0)
    × ((try_admit two_failures 15 (admit_all two_failures (6 ∷ 9 ∷ []) down).1).0 ≡ call)
    × ((try_admit two_failures 15 (admit_all two_failures (6 ∷ 9 ∷ []) down).1).1.state ≡ half_open)
    × (calls
          (admit_all two_failures
            (16 ∷ 99 ∷ [])
            (try_admit two_failures 15 (admit_all two_failures (6 ∷ 9 ∷ []) down).1).1).0
        ≡ 0)
one_probe_example =
    one_probe two_failures (6 ∷ 9 ∷ []) (16 ∷ 99 ∷ []) 15 down 5 refl refl
      (omega arith, (omega arith, tt)) (omega arith) (omega arith)

two_probes_example : Reach two_failures true start (system half_open 0 (some 10) 0 2)
two_probes_example = two_probes two_failures (omega arith, omega arith)
