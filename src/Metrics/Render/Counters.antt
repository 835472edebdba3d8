-- ===== src/Metrics/Render/Counters.antt =====
-- The counters of every prefix, read back from the rendered registry.
use mathlib.Core.List.{append-nil}
use ratewall.Prelude.{◌≡◌, refl, ap, ◌∙◌, sym, ℕ, List, [], ◌++◌, All}
use ratewall.Prelude.Text.{Text, codes, strip_prefix, split}
use ratewall.Metrics.{Floats, Metrics}
use ratewall.Metrics.Render.{render, all_prefixes}
use ratewall.Metrics.Render.Scrape.{samples, Reads}
use ratewall.Metrics.Render.Rows.{IsPlain}
use ratewall.Metrics.Render.Families.{Others, Others-of, IsFlat}
use ratewall.Metrics.Render.Exposition.{Family, counted, Reads-own, Reads-foreign, Reads-render}

abbrev requests : Family
requests = record {
  name = codes "ratewall_requests_total";
  help = codes "HELP ratewall_requests_total Proxied requests per route prefix.";
  field = λ c. c.requests_total;
  name_flat = refl;
  help_flat = refl;
}

abbrev rate_limited : Family
rate_limited = record {
  name = codes "ratewall_rate_limited_total";
  help = codes "HELP ratewall_rate_limited_total Requests rejected with 429 by the rate limiter.";
  field = λ c. c.rate_limited_total;
  name_flat = refl;
  help_flat = refl;
}

abbrev circuit_open : Family
circuit_open = record {
  name = codes "ratewall_circuit_open_total";
  help =
      codes
        "HELP ratewall_circuit_open_total Requests short-circuited with 503 by an open breaker.";
  field = λ c. c.circuit_open_total;
  name_flat = refl;
  help_flat = refl;
}

requests-Others : Others requests.name
requests-Others = Others-of requests.name refl

rate_limited-Others : Others rate_limited.name
rate_limited-Others = Others-of rate_limited.name refl

circuit_open-Others : Others circuit_open.name
circuit_open-Others = Others-of circuit_open.name refl

read_all :
    (name text : Text) (found : List (Text × ℕ))
    → Reads name text (found ++ [])
    → samples name [] ≡ []
    → samples name text ≡ found
read_all name text found h nothing =
    ap (samples name) (sym (append-nil text))
    ∙ h []
    ∙ ap (λ rest. (found ++ []) ++ rest) nothing
    ∙ append-nil (found ++ [])
    ∙ append-nil found

-- A scraper that reads a rendered registry line by line finds, for each of the three counters, the
-- listed prefixes in order, each once, with its count, or 0 if it has no counters, and no other
-- sample of that name; if the labels of the registry hold no quote and no line break, the keys of
-- its status table hold no line break, and neither does a printed float.
pub render-samples :
    (floats : Floats) (m : Metrics floats)
    → ((x : floats.F64) → IsFlat (floats.display x))
    → ((n : ℕ) → IsFlat (floats.display_sum n))
    → All IsPlain (all_prefixes floats m)
    → All (λ row. IsFlat row.0) m.status_totals
    → (samples (codes "ratewall_requests_total") (render floats m)
        ≡ counted floats (λ c. c.requests_total) m)
      × (samples (codes "ratewall_rate_limited_total") (render floats m)
          ≡ counted floats (λ c. c.rate_limited_total) m)
      × (samples (codes "ratewall_circuit_open_total") (render floats m)
          ≡ counted floats (λ c. c.circuit_open_total) m)
unfolding strip_prefix split
render-samples floats m shown shown_sum plain keys_flat = (
  read_all requests.name (render floats m) (counted floats requests.field m)
      (Reads-render requests.name requests-Others floats m plain shown shown_sum keys_flat
        (counted floats requests.field m) [] [] (Reads-own floats m plain requests requests-Others)
        (Reads-foreign floats m plain rate_limited requests.name requests-Others refl)
        (Reads-foreign floats m plain circuit_open requests.name requests-Others refl))
      refl,
  read_all rate_limited.name (render floats m) (counted floats rate_limited.field m)
      (Reads-render rate_limited.name rate_limited-Others floats m plain shown shown_sum keys_flat
        [] (counted floats rate_limited.field m) []
        (Reads-foreign floats m plain requests rate_limited.name rate_limited-Others refl)
        (Reads-own floats m plain rate_limited rate_limited-Others)
        (Reads-foreign floats m plain circuit_open rate_limited.name rate_limited-Others refl))
      refl,
  read_all circuit_open.name (render floats m) (counted floats circuit_open.field m)
      (Reads-render circuit_open.name circuit_open-Others floats m plain shown shown_sum keys_flat
        [] [] (counted floats circuit_open.field m)
        (Reads-foreign floats m plain requests circuit_open.name circuit_open-Others refl)
        (Reads-foreign floats m plain rate_limited circuit_open.name circuit_open-Others refl)
        (Reads-own floats m plain circuit_open circuit_open-Others))
      refl,
)
