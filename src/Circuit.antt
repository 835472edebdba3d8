-- ===== src/Circuit.antt =====
-- core/src/circuit.rs: the circuit breaker of one backend, and the breakers of the route table.
-- A critical section under the mutex is one function on `Inner`; `now` is the instant that the
-- code reads inside it. Instants and durations are nanoseconds, and `elapsed` stops at zero.
-- The words `open` and `record` are reserved here: the state is `opened`, the two methods are
-- `open_breaker` and `record_outcome`.
pub mod Traces
pub mod Streak
pub mod Probe
pub mod Callers
pub mod Registry
use ratewall.Prelude.{
  ℕ, ◌+◌, ◌-◌, ◌%◌, ◌^◌, Bool, true, false, Option, none, some, leb, if◌then◌else◌,
}
use ratewall.Prelude.Time.{from_secs}

pub data State : Type 0 where
  closed opened half_open : State

pub data Admit : Type 0 where
  call short_circuit : Admit

pub record BreakerConfig : Type 0 where
  pub failure_threshold : ℕ
  pub cooldown : ℕ

-- `Default for BreakerConfig`.
abbrev pub default_config : BreakerConfig
default_config = record { failure_threshold = 5; cooldown = from_secs 30 }

pub record Inner : Type 0 where
  pub state : State
  pub consecutive_failures : ℕ
  pub opened_at : Option ℕ

abbrev pub fresh : Inner
fresh = record { state = closed; consecutive_failures = 0; opened_at = none }

-- `opened_at.map(|t| t.elapsed() >= cooldown).unwrap_or(false)`
abbrev pub has_waited : ℕ → ℕ → Option ℕ → Bool
has_waited cooldown now none = false
has_waited cooldown now (some t) = leb cooldown (now - t)

admit_in : BreakerConfig → ℕ → State → Inner → Admit × Inner
admit_in cfg now closed inner = (call, inner)
admit_in cfg now opened inner =
    if has_waited cfg.cooldown now inner.opened_at
    then (call, record inner { state = half_open })
    else (short_circuit, inner)
admit_in cfg now half_open inner = (short_circuit, inner)

unfoldable pub try_admit : BreakerConfig → ℕ → Inner → Admit × Inner
unfolding admit_in
try_admit cfg now inner = admit_in cfg now inner.state inner

unfoldable pub open_breaker : ℕ → Inner → Inner
open_breaker now inner = record inner {
  state = opened;
  consecutive_failures = 0;
  opened_at = some now;
}

-- One more failure, in a `u32`.
abbrev count_failure : BreakerConfig → ℕ → Inner → Inner
count_failure cfg now inner =
    let failures = (inner.consecutive_failures + 1) % 2 ^ 32 in
    let counted : Inner = record inner { consecutive_failures = failures } in
    if leb cfg.failure_threshold failures then open_breaker now counted else counted

record_in : BreakerConfig → ℕ → Bool → State → Inner → Inner
record_in cfg now true closed inner = record inner { consecutive_failures = 0 }
record_in cfg now false closed inner = count_failure cfg now inner
record_in cfg now true half_open inner = record inner {
  state = closed;
  consecutive_failures = 0;
  opened_at = none;
}
record_in cfg now false half_open inner = open_breaker now inner
record_in cfg now success opened inner = inner

unfoldable pub record_outcome : BreakerConfig → ℕ → Bool → Inner → Inner
unfolding record_in open_breaker
record_outcome cfg now success inner = record_in cfg now success inner.state inner
