-- ===== src/Metrics/Render.antt =====
-- `Metrics::render`: the text exposition format, family by family.
pub mod Scrape
pub mod Rows
pub mod Families
pub mod Exposition
pub mod Counters
use ratewall.Prelude.{ℕ, Option, none, some, List, [], ◌∷◌, ◌++◌, map, if◌then◌else◌}
use ratewall.Prelude.Text.{Text, codes, text_eq, split_once}
use ratewall.Prelude.Table.{get, keys, text_compare}
use ratewall.Prelude.Decimal.{to_decimal}
use ratewall.Metrics.{Floats, PrefixCounters, Histogram, Metrics}
use Prim.Native.Nat.{Ordering}

-- `Vec::sort` on texts, and `Vec::dedup`.
unfoldable pub insert_sorted : Text → List Text → List Text
insert_sorted k [] = k ∷ []
insert_sorted k (j ∷ rest) = elim (text_compare k j) [
  | Ordering.gt ↦ j ∷ insert_sorted k rest
  | _ ↦ k ∷ j ∷ rest
]

unfoldable pub sort : List Text → List Text
unfolding insert_sorted
sort [] = []
sort (k ∷ rest) = insert_sorted k (sort rest)

abbrev pub drop_same : Text → List Text → List Text
drop_same k [] = k ∷ []
drop_same k (j ∷ rest) = if text_eq k j then j ∷ rest else k ∷ j ∷ rest

unfoldable pub dedup : List Text → List Text
dedup [] = []
dedup (k ∷ rest) = drop_same k (dedup rest)

abbrev pub lines : List Text → Text
lines [] = []
lines (l ∷ rest) = l ++ lines rest

abbrev pub quoted : Text → Text
quoted prefix = codes "{prefix=\"" ++ (prefix ++ codes "\"} ")

-- `name{prefix="…"} value`
abbrev pub sample : Text → Text → Text → Text
sample name prefix value = name ++ (quoted prefix ++ (value ++ codes "\n"))

abbrev pub loaded : (PrefixCounters → ℕ) → Option PrefixCounters → ℕ
loaded field none = 0
loaded field (some c) = field c

abbrev pub class_and_prefix : Text → Option (Text × Text) → Text × Text
class_and_prefix key none = (codes "unknown", key)
class_and_prefix key (some parts) = parts

-- One row of the responses family.
unfoldable pub response_row : Text × ℕ → Text
response_row (key, value) =
    let (class, prefix) = class_and_prefix key (split_once b'|' key) in
    codes "ratewall_responses_total{prefix=\""
    ++ (prefix
        ++ (codes "\",class=\"" ++ (class ++ (codes "\"} " ++ (to_decimal value ++ codes "\n")))))

module _ (floats : Floats) where
  open floats use {F64, display, display_sum}

  -- All prefixes that have any data.
  unfoldable pub all_prefixes : Metrics floats → List Text
  unfolding sort dedup
  all_prefixes m = dedup (sort (keys m.per_prefix ++ (keys m.latencies ++ keys m.breaker_state)))

  -- A counter family of the per-prefix counters.
  unfoldable pub counter_family : Text → Text → (PrefixCounters → ℕ) → Metrics floats → Text
  counter_family name help field m =
      help
      ++ (codes "# TYPE "
          ++ (name
              ++ (codes " counter\n"
                  ++ lines (
                      map
                        (λ prefix.
                          sample name prefix (to_decimal (loaded field (get prefix m.per_prefix))))
                        (all_prefixes m)))))

  pub bucket_rows : Text → List F64 → List ℕ → Text
  bucket_rows prefix (bound ∷ bounds) (c ∷ counts) =
      codes "ratewall_request_duration_seconds_bucket{prefix=\""
      ++ (prefix
          ++ (codes "\",le=\""
              ++ (display bound
                  ++ (codes "\"} "
                      ++ (to_decimal c ++ (codes "\n" ++ bucket_rows prefix bounds counts))))))
  bucket_rows prefix _ _ = []

  pub histogram_rows : Text → Option (Histogram floats) → Text
  histogram_rows prefix none = []
  histogram_rows prefix (some h) =
      bucket_rows prefix h.buckets_secs h.counts
      ++ (codes "ratewall_request_duration_seconds_bucket{prefix=\""
          ++ (prefix
              ++ (codes "\",le=\"+Inf\"} "
                  ++ (to_decimal h.count
                      ++ (codes "\n"
                          ++ (sample (codes "ratewall_request_duration_seconds_sum") prefix
                                (display_sum h.sum_secs)
                              ++ sample (codes "ratewall_request_duration_seconds_count") prefix
                                  (to_decimal h.count)))))))

  pub gauge_row : Text → Option ℕ → Text
  gauge_row prefix none = []
  gauge_row prefix (some v) = sample (codes "ratewall_breaker_state") prefix (to_decimal v)

  abbrev pub requests_family : Metrics floats → Text
  requests_family =
      counter_family (codes "ratewall_requests_total")
        (codes "# HELP ratewall_requests_total Proxied requests per route prefix.\n")
        (λ c. c.requests_total)

  abbrev pub rate_limited_family : Metrics floats → Text
  rate_limited_family =
      counter_family (codes "ratewall_rate_limited_total")
        (codes
          "# HELP ratewall_rate_limited_total Requests rejected with 429 by the rate limiter.\n")
        (λ c. c.rate_limited_total)

  abbrev pub circuit_open_family : Metrics floats → Text
  circuit_open_family =
      counter_family (codes "ratewall_circuit_open_total")
        (codes
          "# HELP ratewall_circuit_open_total Requests short-circuited with 503 by an open breaker.\n")
        (λ c. c.circuit_open_total)

  abbrev pub responses_family : Metrics floats → Text
  responses_family m =
      codes
        "# HELP ratewall_responses_total Backend responses by status class.\n# TYPE ratewall_responses_total counter\n"
      ++ lines (map response_row m.status_totals)

  abbrev pub latency_family : Metrics floats → Text
  latency_family m =
      codes
        "# HELP ratewall_request_duration_seconds Proxied request latency per route prefix.\n# TYPE ratewall_request_duration_seconds histogram\n"
      ++ lines (map (λ prefix. histogram_rows prefix (get prefix m.latencies)) (all_prefixes m))

  abbrev pub breaker_family : Metrics floats → Text
  breaker_family m =
      codes
        "# HELP ratewall_breaker_state Circuit breaker state per backend (0 closed, 1 half-open, 2 open).\n# TYPE ratewall_breaker_state gauge\n"
      ++ lines (map (λ prefix. gauge_row prefix (get prefix m.breaker_state)) (all_prefixes m))

  unfoldable pub render : Metrics floats → Text
  unfolding all_prefixes counter_family bucket_rows histogram_rows gauge_row response_row
  render m =
      requests_family m
      ++ (rate_limited_family m
          ++ (circuit_open_family m
              ++ (responses_family m ++ (latency_family m ++ breaker_family m))))
