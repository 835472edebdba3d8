-- ===== src/Examples/Registry.antt =====
-- A registry after a few requests.
use ratewall.Prelude.{
  ◌%◌, ◌^◌, ◌≤◌, ◌≡◌, ◌≢◌, ◌↔◌, ◌⊎◌, refl, true, none, some, [], ◌∷◌, map, arith, All, subst, sym,
}
use ratewall.Prelude.Text.{Text, codes, text_eq, utf8_len, utf8_width}
use ratewall.Prelude.Table.{get, keys, text_compare}
use ratewall.Metrics.{Metrics, new_metrics, new_histogram}
use ratewall.Metrics.Buckets.{observe_all, within, observe_all-counts, within_mono}
use ratewall.Prelude.Decimal.{to_decimal, to_decimal-Lacks, value_from}
use ratewall.Metrics.Render.{all_prefixes, render, sort, insert_sorted, dedup}
use ratewall.Metrics.Render.Scrape.{samples}
use ratewall.Prelude.Text.Split.{Lacks-literal}
use ratewall.Metrics.Render.Rows.{IsPlain}
use ratewall.Metrics.Render.Exposition.{counted}
use ratewall.Metrics.Render.Counters.{render-samples}
use ratewall.Metrics.Labels.{In, Ascends, all_prefixes_lem}
use ratewall.Http.{Request, Response, plain, ok_200, header_text}
use ratewall.Middleware.{
  request_id, request_id_and_trace, request_id_header, request_id_and_trace_lem,
}
use ratewall.Prelude.Text.{starts_with, split, split_once}
use ratewall.Prelude.Table.{modify, insert}
use ratewall.Prelude.Time.{from_millis}
use ratewall.Metrics.{finish, inc_rate_limited, inc_circuit_open}
use ratewall.UnitTests.Registry.{
  histogram_buckets_are_cumulative_with_sum_and_count, counters_and_status_classes_accumulate,
  unknown_subjects_cannot_grow_cardinality,
}
use ratewall.Examples.Crates.{toy_floats, toy_http}

observe_all-counts_example :
    ((observe_all toy_floats (3 ∷ 8 ∷ []) (new_histogram toy_floats (5 ∷ 10 ∷ []))).counts
      ≡ map (λ b. within toy_floats b (3 ∷ 8 ∷ []) % 2 ^ 64) (5 ∷ 10 ∷ []))
    × ((observe_all toy_floats (3 ∷ 8 ∷ []) (new_histogram toy_floats (5 ∷ 10 ∷ []))).count
        ≡ 2 % 2 ^ 64)
observe_all-counts_example = observe_all-counts toy_floats (5 ∷ 10 ∷ []) (3 ∷ 8 ∷ [])

within_mono_example :
    (within toy_floats 5 (3 ∷ 8 ∷ []) ≤ within toy_floats 10 (3 ∷ 8 ∷ []))
    × (within toy_floats 10 (3 ∷ 8 ∷ []) ≤ 2)
within_mono_example = within_mono toy_floats 5 10 (3 ∷ 8 ∷ []) (λ x h. ground arith)

abbrev before : Metrics toy_floats
before = new_metrics toy_floats

abbrev crm : Text
crm = codes "crm"

abbrev after : Metrics toy_floats
after = record before {
  breaker_state = (crm, 0) ∷ [];
  per_prefix =
      (crm, record { requests_total = 1; rate_limited_total = 0; circuit_open_total = 0 }) ∷ [];
}

all_prefixes_lem_example :
    Ascends (all_prefixes toy_floats after)
    × ((k : Text)
        → In k (all_prefixes toy_floats after) ↔ (
            In k (keys after.per_prefix)
            ⊎ In k (keys after.latencies)
            ⊎ In k (keys after.breaker_state)))
all_prefixes_lem_example = all_prefixes_lem toy_floats after

-- The same, with the class of the response.
abbrev scraped : Metrics toy_floats
scraped = record after { status_totals = (codes "2xx|crm", 1) ∷ [] }

scraped_prefixes : all_prefixes toy_floats scraped ≡ crm ∷ []
unfolding all_prefixes sort insert_sorted dedup text_compare text_eq
scraped_prefixes = refl

crm-IsPlain : IsPlain crm
crm-IsPlain = (ground arith, ground arith)

render-samples_example :
    (samples (codes "ratewall_requests_total") (render toy_floats scraped)
      ≡ counted toy_floats (λ c. c.requests_total) scraped)
    × (samples (codes "ratewall_rate_limited_total") (render toy_floats scraped)
        ≡ counted toy_floats (λ c. c.rate_limited_total) scraped)
    × (samples (codes "ratewall_circuit_open_total") (render toy_floats scraped)
        ≡ counted toy_floats (λ c. c.circuit_open_total) scraped)
render-samples_example =
    render-samples toy_floats scraped (λ n. to_decimal-Lacks b'\n' n (ground arith))
      (λ n. to_decimal-Lacks b'\n' n (ground arith))
      (subst (All IsPlain) (sym scraped_prefixes) (crm-IsPlain, tt))
      (Lacks-literal b'\n' (codes "2xx|crm") refl, tt)

abbrev traced : Request toy_http
traced = record {
  method = codes "GET";
  path = codes "/crm";
  query = none;
  headers = (codes "x-request-id", codes "abc") ∷ [];
  body = some [];
}

abbrev serve : Request toy_http → Response toy_http
serve request = plain toy_http ok_200 (codes "fine")

request_id_and_trace_lem_example :
    (request_id toy_http (codes "uuid") traced ≢ [])
    × (utf8_len (request_id toy_http (codes "uuid") traced) ≤ 128)
    × ((id : Text)
        → header_text toy_http request_id_header traced.headers ≡ some id
        → id ≢ []
        → utf8_len id ≤ 128
        → request_id toy_http (codes "uuid") traced ≡ id)
    × (get request_id_header (request_id_and_trace toy_http serve (codes "uuid") traced).headers
        ≡ some (request_id toy_http (codes "uuid") traced))
    × ((other : Text)
        → request_id_header ≢ other
        → get other (request_id_and_trace toy_http serve (codes "uuid") traced).headers
          ≡ get other [])
    × ((request_id_and_trace toy_http serve (codes "uuid") traced).status ≡ 200)
    × ((request_id_and_trace toy_http serve (codes "uuid") traced).body ≡ (serve traced).body)
unfolding utf8_len utf8_width
request_id_and_trace_lem_example =
    request_id_and_trace_lem toy_http serve (codes "uuid") traced
      (request_id toy_http (codes "uuid") traced) (ground arith) (omega arith) refl

-- Three tests of core/src/metrics.rs, on requests of some milliseconds.
registry_tests_pass :
    (counters_and_status_classes_accumulate toy_floats
        (from_millis 1)
        (from_millis 30)
        (from_millis 7)
      ≡ true)
    × (unknown_subjects_cannot_grow_cardinality toy_floats
          (from_millis 1)
          (from_millis 2)
          (from_millis 3)
          (from_millis 4)
        ≡ true)
    × (histogram_buckets_are_cumulative_with_sum_and_count toy_floats
          (value_from 0)
          (from_millis 1)
          (from_millis 3)
        ≡ true)
unfolding histogram_buckets_are_cumulative_with_sum_and_count counters_and_status_classes_accumulate
    unknown_subjects_cannot_grow_cardinality render starts_with sort insert_sorted dedup finish
    modify insert inc_rate_limited inc_circuit_open text_compare get text_eq to_decimal split_once
    split
registry_tests_pass = (refl, refl, refl)
