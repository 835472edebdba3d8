-- ===== src/Metrics/Render/Exposition.antt =====
-- The three counters of every prefix, read back from a whole rendered registry.
use ratewall.Prelude.{ℕ, ◌≡◌, refl, ap, ◌∙◌, true, List, [], ◌∷◌, ◌++◌, map, All}
use ratewall.Prelude.Text.{Text, codes}
use ratewall.Prelude.Table.{get}
use ratewall.Prelude.Decimal.{to_decimal}
use ratewall.Metrics.{Floats, PrefixCounters, Metrics}
use ratewall.Metrics.Render.{
  lines, sample, loaded, all_prefixes, counter_family, histogram_rows, gauge_row, response_row,
  requests_family, rate_limited_family, circuit_open_family, responses_family, latency_family,
  breaker_family, render,
}
use ratewall.Metrics.Render.Scrape.{
  opening, samples, flat_map-none, is_flat, flat_map, Reads, Reads-append, Reads-lines,
  Reads-silent,
}
use ratewall.Prelude.Text.Split.{Lacks-literal}
use ratewall.Metrics.Render.Rows.{
  Reads-other, Reads-sample, IsOther, IsPlain, IsRow-append, IsRow-end,
}
use ratewall.Metrics.Render.Families.{
  Others, IsFlat, number-IsFlat, Reads-other-sample, Reads-response_row, Reads-histogram_rows,
  Reads-gauge_row,
}

module _ (name : Text) (others : Others name) where
  Reads-comment : (line : Text) → IsFlat line → Reads name (codes "# " ++ (line ++ codes "\n")) []
  Reads-comment line flat =
      Reads-other name (codes "# ") (line ++ codes "\n") [] [] others.comment
        (IsRow-append line (codes "\n") [] flat (IsRow-end [])) (λ r. refl)

  -- Two comments.
  Reads-header :
      (help kind rest : Text)
      → is_flat help ≡ true
      → is_flat kind ≡ true
      → Reads name rest []
      → Reads name (codes "# " ++ (help ++ (codes "\n# " ++ (kind ++ (codes "\n" ++ rest))))) []
  Reads-header help kind rest h k silent =
      let second = codes "# " ++ (kind ++ (codes "\n" ++ rest)) in
      Reads-other name (codes "# ") (help ++ (codes "\n" ++ second)) second [] others.comment
        (IsRow-append help (codes "\n" ++ second) second (Lacks-literal b'\n' help h)
          (IsRow-end second))
        (Reads-other name (codes "# ") (kind ++ (codes "\n" ++ rest)) rest [] others.comment
          (IsRow-append kind (codes "\n" ++ rest) rest (Lacks-literal b'\n' kind k)
            (IsRow-end rest))
          silent)

  module _ (floats : Floats) (m : Metrics floats)
      (plain : All IsPlain (all_prefixes floats m)) where
    Reads-counter_family :
        (other help : Text) (field : PrefixCounters → ℕ) (g : Text → List (Text × ℕ))
        → IsFlat other
        → Reads name help []
        → ((label : Text)
            → IsPlain label
            → Reads name
                (sample other label (to_decimal (loaded field (get label m.per_prefix))))
                (g label))
        → Reads name (counter_family floats other help field m) (flat_map g (all_prefixes floats m))
    unfolding counter_family
    Reads-counter_family other help field g flat comment row =
        let rows = lines (
          map (λ label. sample other label (to_decimal (loaded field (get label m.per_prefix))))
            (all_prefixes floats m)) in
        let header = codes " counter" ++ (codes "\n" ++ rows) in
        Reads-append name help _ [] (flat_map g (all_prefixes floats m)) comment (
          Reads-other name (codes "# ") (codes "TYPE " ++ (other ++ header)) rows
            (flat_map g (all_prefixes floats m)) others.comment
            (IsRow-append (codes "TYPE ") (other ++ header) rows
              (Lacks-literal b'\n' (codes "TYPE ") refl)
              (IsRow-append other header rows flat (
                IsRow-append (codes " counter") (codes "\n" ++ rows) rows
                  (Lacks-literal b'\n' (codes " counter") refl) (IsRow-end rows))))
            (Reads-lines name IsPlain _ g (all_prefixes floats m) row plain))

    module _ (shown : (x : floats.F64) → IsFlat (floats.display x))
        (shown_sum : (n : ℕ) → IsFlat (floats.display_sum n))
        (keys_flat : All (λ row. IsFlat row.0) m.status_totals) where
      Reads-responses : Reads name (responses_family floats m) []
      Reads-responses =
          Reads-header (codes "HELP ratewall_responses_total Backend responses by status class.")
            (codes "TYPE ratewall_responses_total counter")
            (lines (map response_row m.status_totals)) refl refl
            (Reads-silent name (λ row. IsFlat row.0) response_row m.status_totals
              (Reads-response_row name others) keys_flat)

      Reads-latency : Reads name (latency_family floats m) []
      Reads-latency =
          Reads-header
            (codes
              "HELP ratewall_request_duration_seconds Proxied request latency per route prefix.")
            (codes "TYPE ratewall_request_duration_seconds histogram") _ refl refl
            (Reads-silent name IsPlain
              (λ prefix. histogram_rows floats prefix (get prefix m.latencies))
              (all_prefixes floats m)
              (λ label good.
                Reads-histogram_rows name others floats shown shown_sum label good.1
                  (get label m.latencies))
              plain)

      Reads-breakers : Reads name (breaker_family floats m) []
      Reads-breakers =
          Reads-header
            (codes
              "HELP ratewall_breaker_state Circuit breaker state per backend (0 closed, 1 half-open, 2 open).")
            (codes "TYPE ratewall_breaker_state gauge") _ refl refl
            (Reads-silent name IsPlain
              (λ prefix. gauge_row floats prefix (get prefix m.breaker_state))
              (all_prefixes floats m)
              (λ label good.
                Reads-gauge_row name others floats shown shown_sum label good.1
                  (get label m.breaker_state))
              plain)

      -- What is read of the three counter families is all.
      pub Reads-render :
          (g h k : List (Text × ℕ))
          → Reads name (requests_family floats m) g
          → Reads name (rate_limited_family floats m) h
          → Reads name (circuit_open_family floats m) k
          → Reads name (render floats m) (g ++ (h ++ (k ++ [])))
      unfolding render
      Reads-render g h k rg rh rk =
          let breakers = breaker_family floats m in
          let latency = latency_family floats m ++ breakers in
          let responses = responses_family floats m ++ latency in
          Reads-append name (requests_family floats m) _ g (h ++ (k ++ [])) rg (
            Reads-append name (rate_limited_family floats m) _ h (k ++ []) rh (
              Reads-append name (circuit_open_family floats m) responses k [] rk (
                Reads-append name (responses_family floats m) latency [] [] Reads-responses (
                  Reads-append name (latency_family floats m) breakers [] [] Reads-latency
                    Reads-breakers))))

-- A family of the per-prefix counters: its name, its help line and its counter.
pub record Family : Type 0 where
  pub name : Text
  pub help : Text
  pub field : PrefixCounters → ℕ
  pub name_flat : is_flat name ≡ true
  pub help_flat : is_flat help ≡ true

-- What a counter family holds: each listed prefix with its counter, 0 without counters.
abbrev pub counted : (floats : Floats) → (PrefixCounters → ℕ) → Metrics floats → List (Text × ℕ)
counted floats field m =
    flat_map (λ prefix. (prefix, loaded field (get prefix m.per_prefix)) ∷ [])
      (all_prefixes floats m)

module _ (floats : Floats) (m : Metrics floats) (plain : All IsPlain (all_prefixes floats m)) where
  module _ (f : Family) where
    abbrev pub text_of : Text
    text_of = counter_family floats f.name (codes "# " ++ (f.help ++ codes "\n")) f.field m

    Reads-family :
        (name : Text) (g : Text → List (Text × ℕ))
        → Others name
        → ((label : Text)
            → IsPlain label
            → Reads name
                (sample f.name label (to_decimal (loaded f.field (get label m.per_prefix))))
                (g label))
        → Reads name text_of (flat_map g (all_prefixes floats m))
    Reads-family name g others rows =
        Reads-counter_family name others floats m plain f.name
          (codes "# " ++ (f.help ++ codes "\n")) f.field g (Lacks-literal b'\n' f.name f.name_flat)
          (Reads-comment name others f.help (Lacks-literal b'\n' f.help f.help_flat)) rows

    pub Reads-own : Others f.name → Reads f.name text_of (counted floats f.field m)
    Reads-own others =
        Reads-family f.name (λ prefix. (prefix, loaded f.field (get prefix m.per_prefix)) ∷ [])
          others
          (λ label.
            Reads-sample f.name label (loaded f.field (get label m.per_prefix))
              (Lacks-literal b'\n' f.name f.name_flat))

    pub Reads-foreign :
        (name : Text) → Others name → IsOther name (opening f.name) → Reads name text_of []
    Reads-foreign name others foreign r =
        Reads-family name (λ _. []) others
          (λ label good.
            Reads-other-sample name f.name label
              (to_decimal (loaded f.field (get label m.per_prefix))) foreign good.1
              (number-IsFlat (loaded f.field (get label m.per_prefix))))
          r
        ∙ ap (λ found. found ++ samples name r) (flat_map-none (all_prefixes floats m))
