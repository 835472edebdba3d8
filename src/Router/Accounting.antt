-- ===== src/Router/Accounting.antt =====
-- What `forward` reports to the breakers.
use ratewall.Prelude.{
  ◌≡◌, ◌≢◌, refl, Bool, true, false, Option, none, some, arith, is_some, if◌then◌else◌, ◌∙◌,
}
use ratewall.Prelude.Text.{Text, text_eq}
use ratewall.Prelude.Table.{get}
use ratewall.Circuit.{Admit, short_circuit, call}
use ratewall.Circuit.Registry.{
  Breakers, admit_at, record_at, admitted, recorded, on_found, get-admit_at, get-record_at,
}
use ratewall.Http.{Request}
use ratewall.Router.{Outside, Outgoing, Answer, ProxyState, Shared, Moment}
use ratewall.Router.Forward
use ratewall.Prelude.Text.Split.{text_eq_refl}
use ratewall.Router.Forward.{
  forward, forward_to, try_breaker, send_body, conclude, report, outgoing, body_cap,
}

not_short : (a : Option Admit) → a ≢ some short_circuit → Forward.is_short a ≡ false
not_short none k = refl
not_short (some call) k = refl
not_short (some short_circuit) k = absurd (k refl)

module _ (o : Outside) (state : ProxyState o) (request : Request o.http) (m : Moment o) where
  -- Nothing else happens to the breakers while the handler waits.
  pub record IsAlone : Type 0 where
    pub body_alone : (s : Shared o) → (m.body_wait s).breakers ≡ s.breakers
    pub send_alone : (s : Shared o) → (m.send_wait s).breakers ≡ s.breakers
    pub answer_alone : (s : Shared o) → (m.answer_wait s).breakers ≡ s.breakers

  module _ (alone : IsAlone) (prefix : Text) where
    report-breakers :
        (success : Bool) (s : Shared o) (b : Breakers)
        → s.breakers ≡ some b
        → (report o prefix m.reported_at success s).breakers
          ≡ some (record_at prefix m.reported_at success b)
    unfolding report
    report-breakers success s b h = rw h refl

    conclude-breakers :
        (out : Outgoing o) (a : Option (Answer o)) (s : Shared o) (b : Breakers)
        → s.breakers ≡ some b
        → (conclude o prefix m out a s).shared.breakers
          ≡ some (record_at prefix m.reported_at (is_some a) b)
    unfolding conclude
    conclude-breakers out none s b h = report-breakers false s b h
    conclude-breakers out (some a) s b h =
        alone.answer_alone (report o prefix m.reported_at true s) ∙ report-breakers true s b h

    send_body-breakers :
        (backend suffix : Text) (buffered : Option o.http.Bytes) (body : o.http.Bytes)
        (s : Shared o) (b : Breakers)
        → buffered ≡ some body
        → s.breakers ≡ some b
        → (send_body o state prefix backend suffix request m buffered s).shared.breakers
          ≡ some (
              record_at prefix m.reported_at
                (is_some (m.exchange (outgoing o state backend suffix request body)))
                b)
    unfolding send_body
    send_body-breakers backend suffix buffered body s b e h =
        let out = outgoing o state backend suffix request body in
        rw e (conclude-breakers out (m.exchange out) (m.send_wait s) b (alone.send_alone s ∙ h))

    try_breaker_call :
        (s : Shared o) (b : Breakers)
        → s.breakers ≡ some b
        → (admit_at prefix m.admitted_at b).0 ≢ some short_circuit
        → ((try_breaker o prefix m.admitted_at s).0 ≡ false)
          × ((try_breaker o prefix m.admitted_at s).1.breakers
              ≡ some (admit_at prefix m.admitted_at b).1)
    unfolding try_breaker
    try_breaker_call s b h k = (rw h (not_short (admit_at prefix m.admitted_at b).0 k), rw h refl)

    admitted-breakers :
        (backend suffix : Text) (body : o.http.Bytes) (short : Bool) (s : Shared o) (b : Breakers)
        → short ≡ false
        → s.breakers ≡ some b
        → o.http.to_bytes body_cap request.body ≡ some body
        → (Forward.admitted o state prefix backend suffix request m short s).shared.breakers
          ≡ some (
              record_at prefix m.reported_at
                (is_some (m.exchange (outgoing o state backend suffix request body)))
                b)
    unfolding Forward.admitted
    admitted-breakers backend suffix body true s b f h e = cc
    admitted-breakers backend suffix body false s b f h e =
        send_body-breakers backend suffix (o.http.to_bytes body_cap request.body) body
          (m.body_wait s) b e (alone.body_alone s ∙ h)

    forward_to-breakers :
        (backend suffix : Text) (body : o.http.Bytes) (s : Shared o) (b : Breakers)
        → s.breakers ≡ some b
        → (admit_at prefix m.admitted_at b).0 ≢ some short_circuit
        → o.http.to_bytes body_cap request.body ≡ some body
        → (forward_to o state prefix suffix request m (some backend) s).shared.breakers
          ≡ some (
              record_at prefix m.reported_at
                (is_some (m.exchange (outgoing o state backend suffix request body)))
                (admit_at prefix m.admitted_at b).1)
    unfolding forward_to
    forward_to-breakers backend suffix body s b h k e =
        let (passed, after) = try_breaker_call s b h k in
        admitted-breakers backend suffix body (try_breaker o prefix m.admitted_at s).0
          (try_breaker o prefix m.admitted_at s).1 (admit_at prefix m.admitted_at b).1 passed after
          e

-- A request that is admitted and buffered ends with one report to the breaker of its own prefix:
-- a success if the backend answered, whatever the status, and a failure if the exchange failed.
-- The breaker is then as `try_admit` and that report leave it, and every other breaker is as it
-- was. This is for a request during whose waits nobody else moves a breaker.
pub forward-breakers :
    (o : Outside) (state : ProxyState o) (request : Request o.http) (m : Moment o)
    (prefix backend suffix : Text) (body : o.http.Bytes) (s : Shared o) (b : Breakers)
    → IsAlone o state request m
    → get prefix state.backends ≡ some backend
    → s.breakers ≡ some b
    → (admit_at prefix m.admitted_at b).0 ≢ some short_circuit
    → o.http.to_bytes body_cap request.body ≡ some body
    → (b' : Breakers) × ((forward o state prefix suffix request m s).shared.breakers ≡ some b')
      × ((other : Text)
          → get other b' ≡ (
              if text_eq prefix other
              then on_found
                  (recorded m.reported_at
                    (is_some (m.exchange (outgoing o state backend suffix request body))))
                  (on_found (admitted m.admitted_at) (get prefix b))
              else get other b))
unfolding forward
forward-breakers o state request m prefix backend suffix body s b alone routed h k e =
    let success = is_some (m.exchange (outgoing o state backend suffix request body)) in
    let b₁ = (admit_at prefix m.admitted_at b).1 in
    (
      record_at prefix m.reported_at success b₁,
      rw routed (forward_to-breakers o state request m alone prefix backend suffix body s b h k e),
      λ other. ground (
        arith,
        get-record_at prefix other m.reported_at b₁ success,
        get-admit_at prefix other m.admitted_at b,
        get-admit_at prefix prefix m.admitted_at b,
        text_eq_refl prefix,
      ),
    )
