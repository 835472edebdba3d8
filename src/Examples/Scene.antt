-- ===== src/Examples/Scene.antt =====
-- A gateway with one backend, over the toy crates.
use ratewall.Prelude.{ℕ, Bool, none, some, [], ◌∷◌}
use ratewall.Prelude.Text.{Text, codes}
use ratewall.Circuit.{closed, opened}
use ratewall.Circuit.Registry.{CircuitBreaker}
use ratewall.Metrics.{new_metrics}
use ratewall.Router.{ProxyState, Shared, Moment}
use ratewall.Examples.Crates.{toy_outside, toy_floats}
use ratewall.Examples.Circuits.{two_failures}
use ratewall.Examples.Tokens.{gate}
use ratewall.Examples.Limits.{two_a_minute}

abbrev pub prefix : Text
prefix = codes "crm"

abbrev pub backend : Text
backend = codes "http://crm:9001"

abbrev pub proxy : ProxyState toy_outside
proxy = record {
  backends = (prefix, backend) ∷ [];
  auth = some gate;
  limiter = some two_a_minute;
  backend_timeout = 15;
}

abbrev pub closed_crm : CircuitBreaker
closed_crm = record {
  cfg = two_failures;
  inner = record { state = closed; consecutive_failures = 0; opened_at = none };
}

abbrev pub open_crm : CircuitBreaker
open_crm = record {
  cfg = two_failures;
  inner = record { state = opened; consecutive_failures = 0; opened_at = some 5 };
}

-- Nothing has happened yet; Redis answers or not.
abbrev pub shared : Bool → CircuitBreaker → Shared toy_outside
shared redis_up b = record {
  breakers = some ((prefix, b) ∷ []);
  metrics = some (new_metrics toy_floats);
  store = (redis_up, []);
}

-- A moment in which nobody else does anything, and the backend answers 200.
abbrev pub quiet : ℕ → Moment toy_outside
quiet now = record {
  unix_now = 1200;
  epoch_secs = some 1200;
  admitted_at = now;
  reported_at = now;
  elapsed = 7;
  redis_wait = λ s. s;
  body_wait = λ s. s;
  send_wait = λ s. s;
  answer_wait = λ s. s;
  exchange = λ out. some (record { status = 200; headers = []; body = some (codes "hello") });
}
