-- ===== src/Router/Exchange.antt =====
-- One request to a prefix that has a breaker: what it does to the breaker when it is turned away
-- and when it is admitted.
use ratewall.Prelude.{◌≡◌, refl, ap, ◌∙◌, Bool, true, false, Option, none, some, is_some}
use ratewall.Prelude.Text.{Text}
use ratewall.Prelude.Text.Split.{text_eq_refl}
use ratewall.Prelude.Table.{get}
use ratewall.Circuit.{call, short_circuit, try_admit}
use ratewall.Circuit.Registry.{CircuitBreaker, admitted, recorded}
use ratewall.Http.{Request, service_unavailable}
use ratewall.Router.{Outside, ProxyState, Shared, Moment, Outgoing, Answer, Handled}
use ratewall.Router.Forward
use ratewall.Router.Forward.{
  forward, forward_to, try_breaker, send_body, conclude, report, outgoing, body_cap, is_short,
}
use ratewall.Router.Accounting.{IsAlone}
use ratewall.Router.Flights.{breaker_in, breaker_of}
use ratewall.Router.Flights.Look.{breaker_of-try_breaker, breaker_of-report, try_breaker-short}

module _ (o : Outside) (state : ProxyState o) (prefix backend : Text)
    (routed : get prefix state.backends ≡ some backend) (suffix : Text) (request : Request o.http)
    (m : Moment o) (b : CircuitBreaker) where
  -- The request is turned away, and the breaker is as `try_admit` left it.
  abbrev pub IsTurnedAway : Handled o → Type 0
  IsTurnedAway handled =
      (handled.response.status ≡ service_unavailable)
      × (handled.contacted ≡ none)
      × (breaker_of o prefix handled.shared ≡ some (admitted m.admitted_at b))

  turned_away :
      (short : Bool) (s : Shared o)
      → short ≡ true
      → breaker_of o prefix s ≡ some (admitted m.admitted_at b)
      → IsTurnedAway (Forward.admitted o state prefix backend suffix request m short s)
  unfolding Forward.admitted Forward.circuit_open
  turned_away true s e h = (refl, refl, h)
  turned_away false s e h = cc

  pub own_breaker :
      (s : Shared o)
      → breaker_of o prefix s ≡ some b
      → breaker_of o prefix (try_breaker o prefix m.admitted_at s).1
        ≡ some (admitted m.admitted_at b)
  own_breaker s h =
      breaker_of-try_breaker o prefix prefix m.admitted_at s ∙ rw (text_eq_refl prefix, h) refl

  pub forward-IsTurnedAway :
      (s : Shared o)
      → breaker_of o prefix s ≡ some b
      → (try_admit b.cfg m.admitted_at b.inner).0 ≡ short_circuit
      → IsTurnedAway (forward o state prefix suffix request m s)
  unfolding forward forward_to
  forward-IsTurnedAway s h short = rw routed (
      turned_away (try_breaker o prefix m.admitted_at s).0 (try_breaker o prefix m.admitted_at s).1
        (try_breaker-short o prefix m.admitted_at b s h ∙ ap (λ a. is_short (some a)) short)
        (own_breaker s h))

  module _ (alone : IsAlone o state request m) where
    reported :
        (success : Bool) (s : Shared o)
        → breaker_of o prefix s ≡ some (admitted m.admitted_at b)
        → breaker_of o prefix (report o prefix m.reported_at success s)
          ≡ some (recorded m.reported_at success (admitted m.admitted_at b))
    reported success s h =
        breaker_of-report o prefix prefix m.reported_at success s ∙ rw (text_eq_refl prefix, h) refl

    concluded :
        (out : Outgoing o) (a : Option (Answer o)) (s : Shared o)
        → breaker_of o prefix s ≡ some (admitted m.admitted_at b)
        → breaker_of o prefix (conclude o prefix m out a s).shared
          ≡ some (recorded m.reported_at (is_some a) (admitted m.admitted_at b))
    unfolding conclude
    concluded out none s h = reported false s h
    concluded out (some a) s h =
        ap (breaker_in o prefix) (alone.answer_alone (report o prefix m.reported_at true s))
        ∙ reported true s h

    sent :
        (body : o.http.Bytes) (buffered : Option o.http.Bytes) (s : Shared o)
        → buffered ≡ some body
        → breaker_of o prefix s ≡ some (admitted m.admitted_at b)
        → breaker_of o prefix (send_body o state prefix backend suffix request m buffered s).shared
          ≡ some (
              recorded m.reported_at
                (is_some (m.exchange (outgoing o state backend suffix request body)))
                (admitted m.admitted_at b))
    unfolding send_body
    sent body buffered s e h =
        let out = outgoing o state backend suffix request body in
        rw e (
          concluded out (m.exchange out) (m.send_wait s)
            (ap (breaker_in o prefix) (alone.send_alone s) ∙ h))

    passed :
        (body : o.http.Bytes) (short : Bool) (s : Shared o)
        → o.http.to_bytes body_cap request.body ≡ some body
        → short ≡ false
        → breaker_of o prefix s ≡ some (admitted m.admitted_at b)
        → breaker_of o prefix
            (Forward.admitted o state prefix backend suffix request m short s).shared
          ≡ some (
              recorded m.reported_at
                (is_some (m.exchange (outgoing o state backend suffix request body)))
                (admitted m.admitted_at b))
    unfolding Forward.admitted
    passed body true s e f h = cc
    passed body false s e f h =
        sent body (o.http.to_bytes body_cap request.body) (m.body_wait s) e
          (ap (breaker_in o prefix) (alone.body_alone s) ∙ h)

    -- The request is admitted and its body is read: its outcome is recorded.
    pub forward_admitted :
        (body : o.http.Bytes) (s : Shared o)
        → o.http.to_bytes body_cap request.body ≡ some body
        → breaker_of o prefix s ≡ some b
        → (try_admit b.cfg m.admitted_at b.inner).0 ≡ call
        → breaker_of o prefix (forward o state prefix suffix request m s).shared
          ≡ some (
              recorded m.reported_at
                (is_some (m.exchange (outgoing o state backend suffix request body)))
                (admitted m.admitted_at b))
    unfolding forward forward_to
    forward_admitted body s e h called = rw routed (
        passed body (try_breaker o prefix m.admitted_at s).0
          (try_breaker o prefix m.admitted_at s).1 e
          (try_breaker-short o prefix m.admitted_at b s h ∙ ap (λ a. is_short (some a)) called)
          (own_breaker s h))
