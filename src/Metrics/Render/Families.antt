-- ===== src/Metrics/Render/Families.antt =====
-- The families of the rendered registry, as a scraper of one of the counters sees them.
use mathlib.Core.List.{append_assoc}
use ratewall.Prelude.{
  All-append, All-split, ℕ, ◌≡◌, ◌≢◌, refl, ap, ◌∙◌, sym, subst, Option, none, some, List, [], ◌∷◌,
  ◌++◌, all, true, arith,
}
use ratewall.Prelude.Text.{Text, codes, split_once}
use ratewall.Prelude.Text.Split.{Lacks, split_once_sound}
use ratewall.Prelude.Decimal.{to_decimal, to_decimal-Lacks}
use ratewall.Metrics.{Floats, Histogram}
use ratewall.Metrics.Render.{
  sample, bucket_rows, histogram_rows, gauge_row, response_row, class_and_prefix,
}
use ratewall.Metrics.Render.Scrape.{opening, samples, Reads, Reads-append}
use ratewall.Prelude.Text.Split.{Lacks-literal}
use ratewall.Metrics.Render.Rows.{
  Reads-other, IsOther, is_other, &&-true, IsRow, IsRow-append, IsRow-end,
}

-- The rows and comments that are not of the counter families.
pub record Others (name : Text) : Type 0 where
  pub comment : IsOther name (codes "# ")
  pub responses : IsOther name (codes "ratewall_responses_total{prefix=\"")
  pub buckets : IsOther name (codes "ratewall_request_duration_seconds_bucket{prefix=\"")
  pub sums : IsOther name (opening (codes "ratewall_request_duration_seconds_sum"))
  pub counts : IsOther name (opening (codes "ratewall_request_duration_seconds_count"))
  pub gauges : IsOther name (opening (codes "ratewall_breaker_state"))

abbrev pub other_starts : List Text
other_starts =
    codes "# "
    ∷ codes "ratewall_responses_total{prefix=\""
    ∷ codes "ratewall_request_duration_seconds_bucket{prefix=\""
    ∷ opening (codes "ratewall_request_duration_seconds_sum")
    ∷ opening (codes "ratewall_request_duration_seconds_count")
    ∷ opening (codes "ratewall_breaker_state")
    ∷ []

pub Others-of : (name : Text) → all (is_other name) other_starts ≡ true → Others name
Others-of name h =
    let (comment, h) = &&-true _ _ h in
    let (responses, h) = &&-true _ _ h in
    let (buckets, h) = &&-true _ _ h in
    let (sums, h) = &&-true _ _ h in
    let (counts, h) = &&-true _ _ h in
    record {
      comment = comment;
      responses = responses;
      buckets = buckets;
      sums = sums;
      counts = counts;
      gauges = (&&-true _ _ h).0;
    }

abbrev pub IsFlat : Text → Type 0
IsFlat = Lacks b'\n'

pub number-IsFlat : (n : ℕ) → IsFlat (to_decimal n)
number-IsFlat n = to_decimal-Lacks b'\n' n (ground arith)

-- `"} `, a number, and the end of the row.
number-IsRow :
    (n : ℕ) (rest : Text) → IsRow (codes "\"} " ++ (to_decimal n ++ (codes "\n" ++ rest))) rest
number-IsRow n rest =
    IsRow-append (codes "\"} ") (to_decimal n ++ (codes "\n" ++ rest)) rest
      (Lacks-literal b'\n' (codes "\"} ") refl)
      (IsRow-append (to_decimal n) (codes "\n" ++ rest) rest (number-IsFlat n) (IsRow-end rest))

-- Two labels, a number, and the end of the row.
labels-IsRow :
    (a mid b : Text) (n : ℕ) (rest : Text)
    → IsFlat a
    → IsFlat mid
    → IsFlat b
    → IsRow (a ++ (mid ++ (b ++ (codes "\"} " ++ (to_decimal n ++ (codes "\n" ++ rest)))))) rest
labels-IsRow a mid b n rest h k l =
    let number = codes "\"} " ++ (to_decimal n ++ (codes "\n" ++ rest)) in
    IsRow-append a (mid ++ (b ++ number)) rest h
      (IsRow-append mid (b ++ number) rest k (IsRow-append b number rest l (number-IsRow n rest)))

parts-IsFlat :
    (key : Text) (parts : Option (Text × Text))
    → split_once b'|' key ≡ parts
    → IsFlat key
    → IsFlat (class_and_prefix key parts).0 × IsFlat (class_and_prefix key parts).1
parts-IsFlat key none e h = (Lacks-literal b'\n' (codes "unknown") refl, h)
parts-IsFlat key (some (class, prefix)) e h =
    let joined = (split_once_sound b'|' key class prefix e).0 in
    let (front, back) = All-split (λ c. c ≢ b'\n') class (b'|' ∷ prefix) (subst IsFlat joined h) in
    (front, back.1)

module _ (name : Text) where
  pub Reads-other-sample :
      (other label value : Text)
      → IsOther name (opening other)
      → Lacks b'\n' label
      → Lacks b'\n' value
      → Reads name (sample other label value) []
  Reads-other-sample other label value h flat number r =
      let after = label ++ codes "\"} " in
      ap (λ t. samples name (t ++ r))
        (sym (append_assoc other (codes "{prefix=\"") (after ++ (value ++ codes "\n"))))
      ∙ Reads-other name (opening other) (after ++ (value ++ codes "\n")) [] [] h
          (IsRow-append after (value ++ codes "\n") []
            (All-append (λ c. c ≢ b'\n') label (codes "\"} ") flat
              (Lacks-literal b'\n' (codes "\"} ") refl))
            (IsRow-append value (codes "\n") [] number (IsRow-end [])))
          (λ r. refl) r

  module _ (others : Others name) where
    pub Reads-response_row : (row : Text × ℕ) → IsFlat row.0 → Reads name (response_row row) []
    unfolding response_row
    Reads-response_row (key, value) h =
        let parts = class_and_prefix key (split_once b'|' key) in
        let (class, prefix) = parts-IsFlat key (split_once b'|' key) refl h in
        Reads-other name (codes "ratewall_responses_total{prefix=\"")
          (parts.1
            ++ (codes "\",class=\""
                ++ (parts.0 ++ (codes "\"} " ++ (to_decimal value ++ codes "\n")))))
          [] [] others.responses
          (labels-IsRow parts.1 (codes "\",class=\"") parts.0 value [] prefix
            (Lacks-literal b'\n' (codes "\",class=\"") refl) class)
          (λ r. refl)

    Reads-bucket :
        (label bound rest : Text) (n : ℕ)
        → IsFlat label
        → IsFlat bound
        → Reads name rest []
        → Reads name
            (codes "ratewall_request_duration_seconds_bucket{prefix=\""
              ++ (label
                  ++ (codes "\",le=\""
                      ++ (bound ++ (codes "\"} " ++ (to_decimal n ++ (codes "\n" ++ rest)))))))
            []
    Reads-bucket label bound rest n flat shown h =
        Reads-other name (codes "ratewall_request_duration_seconds_bucket{prefix=\"")
          (label
            ++ (codes "\",le=\""
                ++ (bound ++ (codes "\"} " ++ (to_decimal n ++ (codes "\n" ++ rest))))))
          rest [] others.buckets
          (labels-IsRow label (codes "\",le=\"") bound n rest flat
            (Lacks-literal b'\n' (codes "\",le=\"") refl) shown)
          h

    module _ (floats : Floats) (shown : (x : floats.F64) → IsFlat (floats.display x))
        (shown_sum : (n : ℕ) → IsFlat (floats.display_sum n)) (label : Text)
        (flat : IsFlat label) where
      Reads-bucket_rows :
          (bounds : List floats.F64) (counts : List ℕ)
          → Reads name (bucket_rows floats label bounds counts) []
      unfolding bucket_rows
      Reads-bucket_rows [] counts = λ r. refl
      Reads-bucket_rows (x ∷ bounds) [] = λ r. refl
      Reads-bucket_rows (x ∷ bounds) (n ∷ counts) =
          Reads-bucket label (floats.display x) (bucket_rows floats label bounds counts) n flat
            (shown x) (Reads-bucket_rows bounds counts)

      pub Reads-histogram_rows :
          (h : Option (Histogram floats)) → Reads name (histogram_rows floats label h) []
      unfolding histogram_rows
      Reads-histogram_rows none = λ r. refl
      Reads-histogram_rows (some h) =
          let sum_row =
            sample (codes "ratewall_request_duration_seconds_sum") label
              (floats.display_sum h.sum_secs) in
          let count_row =
            sample (codes "ratewall_request_duration_seconds_count") label (to_decimal h.count) in
          Reads-append name (bucket_rows floats label h.buckets_secs h.counts) _ [] []
            (Reads-bucket_rows h.buckets_secs h.counts)
            (Reads-bucket label (codes "+Inf") (sum_row ++ count_row) h.count flat
              (Lacks-literal b'\n' (codes "+Inf") refl)
              (Reads-append name sum_row count_row [] []
                (Reads-other-sample (codes "ratewall_request_duration_seconds_sum") label
                  (floats.display_sum h.sum_secs) others.sums flat (shown_sum h.sum_secs))
                (Reads-other-sample (codes "ratewall_request_duration_seconds_count") label
                  (to_decimal h.count) others.counts flat (number-IsFlat h.count))))

      pub Reads-gauge_row : (v : Option ℕ) → Reads name (gauge_row floats label v) []
      unfolding gauge_row
      Reads-gauge_row none = λ r. refl
      Reads-gauge_row (some v) =
          Reads-other-sample (codes "ratewall_breaker_state") label (to_decimal v) others.gauges
            flat (number-IsFlat v)
