-- ===== src/Circuit/Traces.antt =====
-- One breaker under every interleaving of its callers: any sequence of `try_admit` and `record`
-- calls, each at any instant, whoever makes them.
use ratewall.Prelude.{ℕ, ◌<◌, ◌^◌, ◌≡◌, ◌≢◌, Bool, Option, none, List, [], ◌∷◌, arith}
use ratewall.Circuit.{
  State, closed, opened, half_open, BreakerConfig, Inner, try_admit, record_outcome,
}

pub data Event : Type 0 where
  admit : (now : ℕ) → Event
  report : (now : ℕ) (success : Bool) → Event

pub apply_event : BreakerConfig → Event → Inner → Inner
apply_event cfg (admit now) b = (try_admit cfg now b).1
apply_event cfg (report now success) b = record_outcome cfg now success b

unfoldable pub run : BreakerConfig → List Event → Inner → Inner
unfolding apply_event
run cfg [] b = b
run cfg (e ∷ es) b = run cfg es (apply_event cfg e b)

-- In a closed breaker the streak is below the threshold and nothing is stamped; in the two
-- others the streak is zero and the instant of opening is stamped.
abbrev pub Shape : BreakerConfig → State → ℕ → Option ℕ → Type 0
Shape cfg closed failures stamp = (failures < cfg.failure_threshold) × (stamp ≡ none)
Shape cfg opened failures stamp = (failures ≡ 0) × (stamp ≢ none)
Shape cfg half_open failures stamp = (failures ≡ 0) × (stamp ≢ none)

abbrev pub IsValid : BreakerConfig → Inner → Type 0
IsValid cfg b = Shape cfg b.state b.consecutive_failures b.opened_at

-- The thresholds that the configuration can hold: at least 1 by validation, a `u32` by its type.
abbrev pub IsSound : BreakerConfig → Type 0
IsSound cfg = (0 < cfg.failure_threshold) × (cfg.failure_threshold < 2 ^ 32)

pub record_outcome-IsValid :
    (cfg : BreakerConfig) (now : ℕ) (success : Bool) (b : Inner)
    → IsSound cfg
    → IsValid cfg b
    → IsValid cfg (record_outcome cfg now success b)
unfolding record_outcome
record_outcome-IsValid cfg now success b s h = ground arith
