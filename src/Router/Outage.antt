-- ===== src/Router/Outage.antt =====
-- The life of one backend's outage, as the requests to its prefix meet it one after the other.
use ratewall.Prelude.{
  ℕ, ◌+◌, ◌≤◌, ◌<◌, ◌≡◌, refl, ap, ◌∙◌, Bool, true, false, none, some, List, [], ◌∷◌, arith, All,
  is_some, length,
}
use ratewall.Prelude.Text.{Text}
use ratewall.Prelude.Table.{get}
use ratewall.Circuit.{closed, opened, call, short_circuit, try_admit, record_outcome}
use ratewall.Circuit.Traces.{IsSound}
use ratewall.Circuit.Registry.{CircuitBreaker, new_breaker, admitted, recorded}
use ratewall.Http.{Request, service_unavailable}
use ratewall.Router.{Outside, Handled, ProxyState, Shared, Moment}
use ratewall.Router.Forward.{forward, outgoing, body_cap}
use ratewall.Router.Accounting.{IsAlone}
use ratewall.Router.Probes.{Arrival}
use ratewall.Router.Flights.{breaker_of}
use ratewall.Router.Exchange.{forward-IsTurnedAway, forward_admitted}

module _ (now : ℕ) (b : CircuitBreaker) where
  -- What `try_admit` and `record` do, in each phase of the outage.
  closed_admits :
      b.inner.state ≡ closed → ((try_admit b.cfg now b.inner).0 ≡ call) × (admitted now b ≡ b)
  unfolding try_admit
  closed_admits c = ground arith

  opened_rejects :
      (t : ℕ)
      → b.inner.state ≡ opened
      → b.inner.opened_at ≡ some t
      → now < t + b.cfg.cooldown
      → 0 < b.cfg.cooldown
      → ((try_admit b.cfg now b.inner).0 ≡ short_circuit) × (admitted now b ≡ b)
  unfolding try_admit
  opened_rejects t c e h p = ground arith

  one_failure :
      IsSound b.cfg
      → b.inner.state ≡ closed
      → b.inner.consecutive_failures + 1 < b.cfg.failure_threshold
      → ((recorded now false b).inner.state ≡ closed)
        × ((recorded now false b).inner.consecutive_failures ≡ b.inner.consecutive_failures + 1)
  unfolding record_outcome
  one_failure s c h = ground arith

  -- Opened at an instant, with nothing counted.
  abbrev pub opened_breaker : CircuitBreaker
  opened_breaker = record b {
    inner = record { state = opened; consecutive_failures = 0; opened_at = some now };
  }

  last_failure :
      IsSound b.cfg
      → b.inner.state ≡ closed
      → b.inner.consecutive_failures + 1 ≡ b.cfg.failure_threshold
      → recorded now false b ≡ opened_breaker
  unfolding record_outcome
  last_failure s c h = ground arith

  probe_answered :
      (probe later : ℕ)
      → now + b.cfg.cooldown ≤ probe
      → ((try_admit b.cfg probe opened_breaker.inner).0 ≡ call)
        × (recorded later true (admitted probe opened_breaker) ≡ new_breaker b.cfg)
  unfolding try_admit record_outcome
  probe_answered probe later h = ground arith

module _ (o : Outside) where
  -- When the last of the requests reports.
  unfoldable pub last_report : ℕ → List (Arrival o) → ℕ
  last_report t [] = t
  last_report t ((suffix, request, m) ∷ rest) = last_report m.reported_at rest

module _ (o : Outside) (state : ProxyState o) (prefix : Text) where
  -- The handled requests, and what they leave behind.
  pub handle_all : List (Arrival o) → Shared o → List (Handled o) × Shared o
  handle_all [] s = ([], s)
  handle_all ((suffix, request, m) ∷ rest) s =
      let handled = forward o state prefix suffix request m s in
      let (later, s') = handle_all rest handled.shared in (handled ∷ later, s')

module _ (o : Outside) (state : ProxyState o) (prefix backend : Text) where
  -- The body is read, nobody else moves a breaker meanwhile, and the exchange with the backend
  -- succeeds or fails.
  pub record Completes (success : Bool) (a : Arrival o) : Type 0 where
    pub body : o.http.Bytes
    pub alone : IsAlone o state a.1 a.2
    pub is_read : o.http.to_bytes body_cap a.1.body ≡ some body
    pub ends : is_some (a.2.exchange (outgoing o state backend a.0 a.1 body)) ≡ success

  module _ (routed : get prefix state.backends ≡ some backend) where
    completed :
        (success : Bool) (suffix : Text) (request : Request o.http) (m : Moment o) (s : Shared o)
        (b : CircuitBreaker)
        → Completes success (suffix, request, m)
        → breaker_of o prefix s ≡ some b
        → (try_admit b.cfg m.admitted_at b.inner).0 ≡ call
        → breaker_of o prefix (forward o state prefix suffix request m s).shared
          ≡ some (recorded m.reported_at success (admitted m.admitted_at b))
    completed success suffix request m s b c h called =
        forward_admitted o state prefix backend routed suffix request m b c.alone c.body s c.is_read
          h called
        ∙ ap (λ r. some (recorded m.reported_at r (admitted m.admitted_at b))) c.ends

    failures_open :
        (failing : List (Arrival o)) (s : Shared o) (b : CircuitBreaker) (t : ℕ)
        → IsSound b.cfg
        → b.inner.state ≡ closed
        → 0 < length failing
        → b.inner.consecutive_failures + length failing ≡ b.cfg.failure_threshold
        → breaker_of o prefix s ≡ some b
        → All (Completes false) failing
        → breaker_of o prefix (handle_all o state prefix failing s).1
          ≡ some (opened_breaker (last_report o t failing) b)
    unfolding handle_all last_report
    failures_open [] s b t sound c p e h all = elim p [ ]
    failures_open ((suffix, request, m) ∷ []) s b t sound c p e h all =
        let (called, same) = closed_admits m.admitted_at b c in
        completed false suffix request m s b all.0 h called
        ∙ ap some (
            ap (recorded m.reported_at false) same
            ∙ last_failure m.reported_at b sound c (omega arith))
    failures_open ((suffix, request, m) ∷ (a ∷ rest)) s b t sound c p e h all =
        let (called, same) = closed_admits m.admitted_at b c in
        let (c', k) = one_failure m.reported_at b sound c (omega arith) in
        let h' =
          completed false suffix request m s b all.0 h called
          ∙ ap some (ap (recorded m.reported_at false) same) in
        failures_open (a ∷ rest) (forward o state prefix suffix request m s).shared
          (recorded m.reported_at false b) m.reported_at sound c' (omega arith) (omega arith) h'
          all.1

    -- The request is answered with 503 and the backend is not contacted.
    abbrev pub FailsFast : Handled o → Type 0
    FailsFast handled = (handled.response.status ≡ service_unavailable) × (handled.contacted ≡ none)

    rejects_during :
        (during : List (Arrival o)) (s : Shared o) (b : CircuitBreaker) (t : ℕ)
        → 0 < b.cfg.cooldown
        → breaker_of o prefix s ≡ some (opened_breaker t b)
        → All (λ a. a.2.admitted_at < t + b.cfg.cooldown) during
        → All FailsFast (handle_all o state prefix during s).0
          × (breaker_of o prefix (handle_all o state prefix during s).1 ≡ some (opened_breaker t b))
    unfolding handle_all
    rejects_during [] s b t p h all = (tt, h)
    rejects_during ((suffix, request, m) ∷ rest) s b t p h all =
        let (short, same) = opened_rejects m.admitted_at (opened_breaker t b) t refl refl all.0 p in
        let (status, uncontacted, after) =
          forward-IsTurnedAway o state prefix backend routed suffix request m (opened_breaker t b) s
            h short in
        let (later, still) =
          rejects_during rest (forward o state prefix suffix request m s).shared b t p
            (after ∙ ap some same) all.1 in
        (((status, uncontacted), later), still)

-- An outage of a backend from its beginning to its end, if nobody else moves its breaker while a
-- request waits, for a threshold of at least 1 that fits a `u32` and a cooldown that is not zero:
-- on a closed breaker with no failures counted, as many requests as the threshold whose exchange
-- with the backend fails open it; all requests before the cooldown has passed since the last of
-- them are answered with 503 and do not contact the backend; and the first request after that, if
-- the backend answers it, leaves the breaker as new.
pub outage-ends :
    (o : Outside) (state : ProxyState o) (prefix backend suffix : Text) (request : Request o.http)
    (m : Moment o) (failing during : List (Arrival o)) (s : Shared o) (b : CircuitBreaker)
    → get prefix state.backends ≡ some backend
    → IsSound b.cfg
    → 0 < b.cfg.cooldown
    → breaker_of o prefix s ≡ some b
    → b.inner.state ≡ closed
    → b.inner.consecutive_failures ≡ 0
    → length failing ≡ b.cfg.failure_threshold
    → All (Completes o state prefix backend false) failing
    → All (λ a. a.2.admitted_at < last_report o 0 failing + b.cfg.cooldown) during
    → last_report o 0 failing + b.cfg.cooldown ≤ m.admitted_at
    → Completes o state prefix backend true (suffix, request, m)
    → (breaker_of o prefix (handle_all o state prefix failing s).1
        ≡ some (opened_breaker (last_report o 0 failing) b))
      × All
          (λ (handled : Handled o).
            (handled.response.status ≡ service_unavailable) × (handled.contacted ≡ none))
          (handle_all o state prefix during (handle_all o state prefix failing s).1).0
      × (breaker_of o prefix
            (forward o state prefix suffix request m
              (handle_all o state prefix during (handle_all o state prefix failing s).1).1).shared
          ≡ some (new_breaker b.cfg))
outage-ends o state prefix backend suffix request m failing during s b routed sound p h c z n fails
      early late answers =
    let t = last_report o 0 failing in
    let opens =
      failures_open o state prefix backend routed failing s b 0 sound c (omega arith) (omega arith)
        h fails in
    let (rejected, still) =
      rejects_during o state prefix backend routed during (handle_all o state prefix failing s).1 b
        t p opens early in
    let (called, renewed) = probe_answered t b m.admitted_at m.reported_at late in
    (
      opens,
      rejected,
      completed o state prefix backend routed true suffix request m
            (handle_all o state prefix during (handle_all o state prefix failing s).1).1
            (opened_breaker t b) answers still called
          ∙ ap some renewed,
    )
