-- ===== src/UnitTests/Registry.antt =====
-- `mod tests` of core/src/metrics.rs. The time that each request takes is an argument.
use ratewall.Prelude.{
  ℕ, ◌+◌, leb, map, false, ◌≡◌, refl, Bool, true, not, ◌&&◌, ◌==◌, none, some, List, [], ◌∷◌,
  length, if◌then◌else◌,
}
use ratewall.Prelude.Text.{Text, codes, text_eq, starts_with, split}
use ratewall.Prelude.Table.{get, insert, text_compare}
use ratewall.Prelude.Decimal.{to_decimal, value_from}
use ratewall.Circuit.{closed, opened, half_open}
use ratewall.Metrics.{
  Floats, latency_buckets, Metrics, new_metrics, finish, inc_rate_limited, inc_circuit_open,
  set_breaker_state,
}
use ratewall.Metrics.Render.{render, sort, insert_sorted, dedup}
use ratewall.UnitTests.Gate.{contains}

-- The lines that begin with the name, comments aside.
family : Text → List Text → List Text
family name [] = []
family name (l ∷ rest) =
    let later = family name rest in
    if starts_with name l && not (starts_with (codes "#") l) then l ∷ later else later

module _ (floats : Floats) where
  abbrev empty : Metrics floats
  empty = new_metrics floats

  unfoldable empty_registry_renders_help_only : Bool
  unfolding contains
  empty_registry_renders_help_only =
      let text = render floats empty in
      contains (codes "# TYPE ratewall_requests_total counter") text
      && not (contains (codes "prefix=\"") text)

  unfoldable pub counters_and_status_classes_accumulate : (first second aborted : ℕ) → Bool
  unfolding contains family
  counters_and_status_classes_accumulate first second aborted =
      let m₁ = finish floats (codes "crm") first (some (codes "2xx")) empty in
      let m₂ = finish floats (codes "crm") second (some (codes "5xx")) m₁ in
      let m₃ = finish floats (codes "hrm") aborted none m₂ in
      let m₄ = inc_rate_limited floats (codes "crm") m₃ in
      let m₅ = inc_rate_limited floats (codes "crm") m₄ in
      let m₆ = inc_circuit_open floats (codes "hrm") m₅ in
      let text = render floats m₆ in
      contains (codes "ratewall_requests_total{prefix=\"crm\"} 2\n") text
      && contains (codes "ratewall_requests_total{prefix=\"hrm\"} 1\n") text
      && contains (codes "ratewall_responses_total{prefix=\"crm\",class=\"2xx\"} 1\n") text
      && contains (codes "ratewall_responses_total{prefix=\"crm\",class=\"5xx\"} 1\n") text
      && contains (codes "ratewall_rate_limited_total{prefix=\"crm\"} 2\n") text
      && contains (codes "ratewall_circuit_open_total{prefix=\"hrm\"} 1\n") text
      && length (family (codes "ratewall_responses_total") (split b'\n' text)) == 2

  unfoldable breaker_gauge_reflects_published_state : Bool
  unfolding contains
  breaker_gauge_reflects_published_state =
      let m₁ = set_breaker_state floats (codes "crm") closed empty in
      let m₂ = set_breaker_state floats (codes "hrm") opened m₁ in
      let text = render floats m₂ in
      let m₃ = set_breaker_state floats (codes "hrm") half_open m₂ in
      contains (codes "ratewall_breaker_state{prefix=\"crm\"} 0\n") text
      && contains (codes "ratewall_breaker_state{prefix=\"hrm\"} 2\n") text
      && contains (codes "ratewall_breaker_state{prefix=\"hrm\"} 1\n") (render floats m₃)

  -- The loop over the four paths, which the registry is not told.
  unfoldable pub unknown_subjects_cannot_grow_cardinality : (a b c d : ℕ) → Bool
  unfolding family
  unknown_subjects_cannot_grow_cardinality a b c d =
      let ends : ℕ → Metrics floats → Metrics floats =
        λ elapsed. finish floats (codes "crm") elapsed (some (codes "4xx")) in
      let text = render floats (ends d (ends c (ends b (ends a empty)))) in
      length (family (codes "ratewall_requests_total") (split b'\n' text)) == 1

-- `rsplit(' ').next()`
abbrev last_word : List Text → Text
last_word [] = []
last_word (w ∷ []) = w
last_word (w ∷ v ∷ rest) = last_word (v ∷ rest)

-- The number at the end of a line: `parse` on digits.
abbrev value_of : Text → ℕ
value_of line = value_from 0 (last_word (split b' ' line))

-- The lines that contain the text.
with_part : Text → List Text → List Text
with_part part [] = []
with_part part (l ∷ rest) =
    let later = with_part part rest in if contains part l then l ∷ later else later

-- `windows(2)` with every pair in order.
abbrev is_cumulative : List ℕ → Bool
is_cumulative [] = true
is_cumulative (a ∷ []) = true
is_cumulative (a ∷ b ∷ rest) = leb a b && is_cumulative (b ∷ rest)

abbrev last_is : ℕ → List ℕ → Bool
last_is n [] = false
last_is n (a ∷ []) = a == n
last_is n (a ∷ b ∷ rest) = last_is n (b ∷ rest)

abbrev first_line : List Text → (Text → Bool) → Bool
first_line [] holds = false
first_line (l ∷ rest) holds = holds l

module _ (floats : Floats) where
  open floats use {F64, le, literal}

  -- `parse_f64` is `parse` into an `f64`.
  unfoldable pub histogram_buckets_are_cumulative_with_sum_and_count :
      (parse_f64 : Text → F64) (first second : ℕ) → Bool
  unfolding contains family value_from with_part
  histogram_buckets_are_cumulative_with_sum_and_count parse_f64 first second =
      let m₁ = finish floats (codes "crm") first (some (codes "2xx")) (new_metrics floats) in
      let m₂ = finish floats (codes "crm") second (some (codes "2xx")) m₁ in
      let lines = split b'\n' (render floats m₂) in
      let buckets = map value_of (
        with_part (codes "crm")
          (family (codes "ratewall_request_duration_seconds_bucket") lines)) in
      length buckets == length (latency_buckets floats) + 1
      && (first_line (family (codes "ratewall_request_duration_seconds_count") lines)
          λ line. value_of line == 2 && last_is (value_of line) buckets)
      && is_cumulative buckets
      && (first_line (family (codes "ratewall_request_duration_seconds_sum") lines)
          λ line. le (literal 40) (parse_f64 (last_word (split b' ' line))))

empty_test_passes : (floats : Floats) → empty_registry_renders_help_only floats ≡ true
unfolding empty_registry_renders_help_only render contains starts_with sort dedup
empty_test_passes floats = refl

gauge_test_passes : (floats : Floats) → breaker_gauge_reflects_published_state floats ≡ true
unfolding breaker_gauge_reflects_published_state render contains starts_with sort insert_sorted
    dedup set_breaker_state insert text_compare get text_eq to_decimal
gauge_test_passes floats = refl
