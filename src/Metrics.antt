-- ===== src/Metrics.antt =====
-- core/src/metrics.rs: the registry and its updates. A lock or an atomic update is one step, and
-- an atomic counter wraps at 2^64. Floating point is the parameter `Floats`.
pub mod Buckets
pub mod Counts
pub mod Render
pub mod Labels
use ratewall.Prelude.{
  ℕ, ◌+◌, ◌%◌, ◌^◌, Bool, Option, none, some, List, [], ◌∷◌, ◌++◌, map, if◌then◌else◌,
}
use ratewall.Prelude.Text.{Text}
use ratewall.Prelude.Table.{Table, insert, modify}
use ratewall.Circuit.{State, closed, opened, half_open}

pub record Floats : Type 1 where
  pub F64 : Type 0
  pub le : F64 → F64 → Bool
  -- `as_secs_f64` of a duration in nanoseconds, and `(secs * 1e9) as u64`.
  pub secs_f64 : ℕ → F64
  pub nanos : F64 → ℕ
  -- The literal that stands for so many ten-thousandths.
  pub literal : ℕ → F64
  -- `{}` of a value, and `{:.9}` of a number of nanoseconds in seconds.
  pub display : F64 → Text
  pub display_sum : ℕ → Text

-- `fetch_add` on an `AtomicU64`.
abbrev pub fetch_add : ℕ → ℕ → ℕ
fetch_add counter n = (counter + n) % 2 ^ 64

pub record PrefixCounters : Type 0 where
  pub requests_total : ℕ
  pub rate_limited_total : ℕ
  pub circuit_open_total : ℕ

abbrev pub no_counts : PrefixCounters
no_counts = record { requests_total = 0; rate_limited_total = 0; circuit_open_total = 0 }

-- `{class}|{prefix}`
abbrev pub status_key : Text → Text → Text
status_key class prefix = class ++ b'|' ∷ prefix

abbrev count_status : Option Text → Text → Table ℕ → Table ℕ
count_status none prefix totals = totals
count_status (some class) prefix totals =
    modify (status_key class prefix) 0 (λ n. fetch_add n 1) totals

module _ (floats : Floats) where
  open floats use {F64, le, secs_f64, nanos, literal}

  pub record Histogram : Type 0 where
    pub buckets_secs : List F64
    pub counts : List ℕ
    pub sum_secs : ℕ
    pub count : ℕ

  -- `Histogram::new`
  unfoldable pub new_histogram : List F64 → Histogram
  new_histogram buckets = record {
    buckets_secs = buckets;
    counts = map (λ _. 0) buckets;
    sum_secs = 0;
    count = 0;
  }

  -- The loop of `observe` over the buckets.
  unfoldable pub bump : F64 → List F64 → List ℕ → List ℕ
  bump secs (bound ∷ bounds) (c ∷ counts) =
      (if le secs bound then fetch_add c 1 else c) ∷ bump secs bounds counts
  bump secs _ counts = counts

  unfoldable pub observe : F64 → Histogram → Histogram
  unfolding bump
  observe secs h = record h {
    counts = bump secs h.buckets_secs h.counts;
    sum_secs = fetch_add h.sum_secs (nanos secs);
    count = fetch_add h.count 1;
  }

  -- 0.0005, 0.001, 0.002, 0.005, 0.01, 0.02, 0.05, 0.1, 0.25, 0.5, 1.0, 2.5
  abbrev pub latency_buckets : List F64
  latency_buckets =
      map literal (5 ∷ 10 ∷ 20 ∷ 50 ∷ 100 ∷ 200 ∷ 500 ∷ 1000 ∷ 2500 ∷ 5000 ∷ 10_000 ∷ 25_000 ∷ [])

  pub record Metrics : Type 0 where
    pub per_prefix : Table PrefixCounters
    pub latencies : Table Histogram
    pub status_totals : Table ℕ
    pub breaker_state : Table ℕ

  -- `Metrics::new`
  abbrev pub new_metrics : Metrics
  new_metrics = record { per_prefix = []; latencies = []; status_totals = []; breaker_state = [] }

  -- A change of the counters that `counters_for` finds or makes.
  pub on_counters : Text → (PrefixCounters → PrefixCounters) → Metrics → Metrics
  on_counters prefix f m = record m { per_prefix = modify prefix no_counts f m.per_prefix }

  unfoldable pub inc_rate_limited : Text → Metrics → Metrics
  unfolding on_counters
  inc_rate_limited prefix =
      on_counters prefix λ c. record c { rate_limited_total = fetch_add c.rate_limited_total 1 }

  unfoldable pub inc_circuit_open : Text → Metrics → Metrics
  unfolding on_counters
  inc_circuit_open prefix =
      on_counters prefix λ c. record c { circuit_open_total = fetch_add c.circuit_open_total 1 }

  -- A change of the histogram that `latency_for` finds or makes.
  abbrev pub on_latency : Text → (Histogram → Histogram) → Metrics → Metrics
  unfolding new_histogram
  on_latency prefix f m = record m {
    latencies = modify prefix (new_histogram latency_buckets) f m.latencies;
  }

  -- `RequestTimer::finish`, after so many nanoseconds.
  unfoldable pub finish : Text → ℕ → Option Text → Metrics → Metrics
  unfolding on_counters observe new_histogram
  finish prefix elapsed status_class m =
      let counted =
        on_counters prefix (λ c. record c { requests_total = fetch_add c.requests_total 1 }) m in
      on_latency prefix (observe (secs_f64 elapsed))
        (record counted { status_totals = count_status status_class prefix m.status_totals })

  abbrev pub gauge : State → ℕ
  gauge closed = 0
  gauge half_open = 1
  gauge opened = 2

  unfoldable pub set_breaker_state : Text → State → Metrics → Metrics
  set_breaker_state prefix state m = record m {
    breaker_state = insert prefix (gauge state) m.breaker_state;
  }
