-- ===== src/Examples/Outages.antt =====
-- An outage of the toy gateway's backend, and the statuses of its answers.
use ratewall.Prelude.{ℕ, ◌≡◌, refl, true, false, none, some, List, [], ◌∷◌, arith, All}
use ratewall.Prelude.Text.{Text, codes, text_eq}
use ratewall.Prelude.Table.{get}
use ratewall.Circuit.Registry.{new_breaker}
use ratewall.Http.{service_unavailable}
use ratewall.Router.{Moment, Handled}
use ratewall.Router.Forward.{forward}
use ratewall.Router.Fallback.{proxy_fallback}
use ratewall.Router.Probes.{Arrival}
use ratewall.Router.Flights.{breaker_of}
use ratewall.Router.Outage.{handle_all, Completes, last_report, opened_breaker, outage-ends}
use ratewall.Router.Tally.{CountsAlone, Tallied, proxy_fallback-Tallied}
use ratewall.Metrics.{new_metrics}
use ratewall.Router.Statuses.{IsAnswered, proxy_fallback-status}
use ratewall.Examples.Crates.{toy_outside, toy_floats}
use ratewall.Examples.Circuits.{two_failures}
use ratewall.Examples.Tokens.{ann_request}
use ratewall.Examples.Scene.{proxy, shared, quiet, closed_crm, prefix, backend}

-- The exchange fails.
abbrev down : ℕ → Moment toy_outside
down now = record (quiet now) { exchange = λ out. none }

abbrev failing : List (Arrival toy_outside)
failing = (codes "/a", ann_request, down 20) ∷ (codes "/b", ann_request, down 21) ∷ []

abbrev during : List (Arrival toy_outside)
during = (codes "/c", ann_request, quiet 22) ∷ (codes "/d", ann_request, quiet 30) ∷ []

down-Completes :
    (suffix : Text) (now : ℕ)
    → Completes toy_outside proxy prefix backend false (suffix, ann_request, down now)
down-Completes suffix now = record {
  body = [];
  alone = record { body_alone = λ s. refl; send_alone = λ s. refl; answer_alone = λ s. refl };
  is_read = refl;
  ends = refl;
}

answers : Completes toy_outside proxy prefix backend true (codes "/e", ann_request, quiet 31)
answers = record {
  body = [];
  alone = record { body_alone = λ s. refl; send_alone = λ s. refl; answer_alone = λ s. refl };
  is_read = refl;
  ends = refl;
}

outage-ends_example :
    (breaker_of toy_outside prefix
        (handle_all toy_outside proxy prefix failing (shared true closed_crm)).1
      ≡ some (opened_breaker (last_report toy_outside 0 failing) closed_crm))
    × All
        (λ (handled : Handled toy_outside).
          (handled.response.status ≡ service_unavailable) × (handled.contacted ≡ none))
        (handle_all toy_outside proxy prefix during
          (handle_all toy_outside proxy prefix failing (shared true closed_crm)).1).0
    × (breaker_of toy_outside prefix
          (forward toy_outside proxy prefix
            (codes "/e")
            ann_request
            (quiet 31)
            (handle_all toy_outside proxy prefix during
              (handle_all toy_outside proxy prefix failing (shared true closed_crm)).1).1).shared
        ≡ some (new_breaker two_failures))
unfolding get text_eq last_report
outage-ends_example =
    outage-ends toy_outside proxy prefix backend (codes "/e") ann_request (quiet 31) failing during
      (shared true closed_crm) closed_crm refl (omega arith, omega arith) (omega arith) refl refl
      refl refl (down-Completes (codes "/a") 20, (down-Completes (codes "/b") 21, tt)) (omega arith)
      (omega arith) answers

proxy_fallback-status_example :
    IsAnswered toy_outside proxy ann_request
      (quiet 20)
      (proxy_fallback toy_outside proxy ann_request (quiet 20) (shared true closed_crm)).contacted
      (proxy_fallback toy_outside proxy ann_request
        (quiet 20)
        (shared true closed_crm)).response.status
proxy_fallback-status_example =
    proxy_fallback-status toy_outside proxy ann_request (quiet 20) (shared true closed_crm)

counts_alone : CountsAlone toy_outside proxy ann_request (quiet 20)
counts_alone = record {
  redis_alone = λ s. refl;
  body_alone = λ s. refl;
  send_alone = λ s. refl;
  answer_alone = λ s. refl;
}

proxy_fallback-Tallied_example :
    Tallied toy_outside proxy ann_request
      (quiet 20)
      (new_metrics toy_floats)
      (proxy_fallback toy_outside proxy ann_request (quiet 20) (shared true closed_crm)).contacted
      (proxy_fallback toy_outside proxy ann_request
        (quiet 20)
        (shared true closed_crm)).response.status
      (proxy_fallback toy_outside proxy ann_request
        (quiet 20)
        (shared true closed_crm)).shared.metrics
proxy_fallback-Tallied_example =
    proxy_fallback-Tallied toy_outside proxy ann_request (quiet 20) (shared true closed_crm)
      (new_metrics toy_floats) counts_alone refl
