-- ===== src/Router/Order.antt =====
-- The order of the checks in front of a backend.
use ratewall.Prelude.{
  ◌≡◌, ◌≢◌, ◌↔◌, refl, Bool, true, false, Option, none, some, [], arith, Result, ok, err,
}
use ratewall.Prelude.Text.{Text}
use ratewall.Prelude.Table.{get}
use ratewall.Ratelimit.{Decision, allow, limit, open_window}
use ratewall.Http.{Request, Response}
use ratewall.Router.{Outside, Outgoing, Answer, ProxyState, Shared, Moment, split_path}
use ratewall.Router.Forward.{
  forward, forward_to, try_breaker, body_cap, outgoing, send_body, conclude, admitted,
}
use ratewall.Router.Fallback.{
  authenticate, rate_limit, limited, identified, dispatch, proxy_fallback,
}

abbrev pub IsLimit : Decision → Type 0
IsLimit (limit retry_after) = Unit
IsLimit _ = ⊥

module _ (o : Outside) (state : ProxyState o) (request : Request o.http) (m : Moment o) where
  -- The way to the backend is open: the gate gave `subject`, the limiter did not reject, the path
  -- names a configured backend, its breaker admits the call, and the body could be read.
  pub record IsOpen (s : Shared o) (out : Outgoing o) : Type 0 where
    pub subject : Option Text
    pub authenticated : authenticate o state.auth m request ≡ ok subject
    pub within_limit : ¬ IsLimit (rate_limit o state.limiter subject m s).0
    pub has_prefix : (split_path request.path).0 ≢ []
    pub backend : Text
    pub routed : get (split_path request.path).0 state.backends ≡ some backend
    pub admitted :
        (try_breaker o
          (split_path request.path).0
          m.admitted_at
          (rate_limit o state.limiter subject m s).1).0
        ≡ false
    pub body : o.http.Bytes
    pub buffered : o.http.to_bytes body_cap request.body ≡ some body
    pub request_sent : out ≡ outgoing o state backend (split_path request.path).1 request body

  module _ (prefix backend suffix : Text) (out : Outgoing o) where
    conclude-contacted :
        (sent : Outgoing o) (a : Option (Answer o)) (s : Shared o)
        → (conclude o prefix m sent a s).contacted ≡ some sent
    unfolding conclude
    conclude-contacted sent none s = refl
    conclude-contacted sent (some a) s = refl

    send_body-contacted :
        (buffered : Option o.http.Bytes) (s : Shared o)
        → ((send_body o state prefix backend suffix request m buffered s).contacted ≡ some out) ↔ (
            (body : o.http.Bytes) × (buffered ≡ some body)
            × (out ≡ outgoing o state backend suffix request body))
    unfolding send_body
    send_body-contacted none s = (λ h. absurd (ground arith), λ h. absurd (ground arith))
    send_body-contacted (some body) s =
        let sent = outgoing o state backend suffix request body in
        let same = conclude-contacted sent (m.exchange sent) (m.send_wait s) in
        (
          λ h. (body, refl, ground (arith, same)),
          λ (h : (b : o.http.Bytes) × (some body ≡ some b)
                × (out ≡ outgoing o state backend suffix request b)).
              cc (same, h.1, h.2),
        )

    admitted-contacted :
        (short : Bool) (s : Shared o)
        → ((admitted o state prefix backend suffix request m short s).contacted ≡ some out) ↔ (
            (body : o.http.Bytes) × (short ≡ false)
            × (o.http.to_bytes body_cap request.body ≡ some body)
            × (out ≡ outgoing o state backend suffix request body))
    unfolding admitted
    admitted-contacted true s = (λ h. absurd (ground arith), λ h. absurd (ground arith))
    admitted-contacted false s =
        let (to, from) =
          send_body-contacted (o.http.to_bytes body_cap request.body) (m.body_wait s) in
        (
          λ h. let (body, buffered, same) = to h in (body, refl, buffered, same),
          λ h. from (h.0, h.2, h.3),
        )

  module _ (prefix suffix : Text) (out : Outgoing o) (s : Shared o) where
    forward_to-contacted :
        (found : Option Text)
        → ((forward_to o state prefix suffix request m found s).contacted ≡ some out) ↔ (
            (backend : Text) × (body : o.http.Bytes) × (found ≡ some backend)
            × ((try_breaker o prefix m.admitted_at s).0 ≡ false)
            × (o.http.to_bytes body_cap request.body ≡ some body)
            × (out ≡ outgoing o state backend suffix request body))
    unfolding forward_to
    forward_to-contacted none = (λ h. absurd (ground arith), λ h. absurd (ground arith))
    forward_to-contacted (some backend) =
        let (short, s') = try_breaker o prefix m.admitted_at s in
        let (to, from) = admitted-contacted prefix backend suffix out short s' in
        (
          λ h.
              let (body, passed, buffered, same) = to h in
              (backend, body, refl, passed, buffered, same),
          λ (h : (b : Text) × (body : o.http.Bytes) × (some backend ≡ some b)
                × (short ≡ false)
                × (o.http.to_bytes body_cap request.body ≡ some body)
                × (out ≡ outgoing o state b suffix request body)).
              from (h.1, h.3, h.4, cc (h.2, h.5)),
        )

    forward-contacted : ((forward o state prefix suffix request m s).contacted ≡ some out) ↔ (
        (backend : Text) × (body : o.http.Bytes) × (get prefix state.backends ≡ some backend)
        × ((try_breaker o prefix m.admitted_at s).0 ≡ false)
        × (o.http.to_bytes body_cap request.body ≡ some body)
        × (out ≡ outgoing o state backend suffix request body))
    unfolding forward
    forward-contacted = forward_to-contacted (get prefix state.backends)

  module _ (out : Outgoing o) where
    dispatch-contacted :
        (s : Shared o)
        → ((dispatch o state request m s).contacted ≡ some out) ↔ (
            ((split_path request.path).0 ≢ [])
            × ((forward o state
                  (split_path request.path).0
                  (split_path request.path).1
                  request
                  m
                  s).contacted
                ≡ some out))
    unfolding dispatch
    dispatch-contacted s = (λ h. ground arith, λ h. ground arith)

    limited-contacted :
        (d : Decision) (s : Shared o)
        → ((limited o state request m d s).contacted ≡ some out)
          ↔ ((¬ IsLimit d) × ((dispatch o state request m s).contacted ≡ some out))
    unfolding limited
    limited-contacted (limit n) s = (λ h. absurd (ground arith), λ h. absurd (h.0 tt))
    limited-contacted allow s = (λ h. (λ b. b, h), λ h. h.1)
    limited-contacted open_window s = (λ h. (λ b. b, h), λ h. h.1)

    identified-contacted :
        (r : Result (Response o.http) (Option Text)) (s : Shared o)
        → ((identified o state request m r s).contacted ≡ some out) ↔ (
            (subject : Option Text) × (r ≡ ok subject)
            × ((limited o state request m
                  (rate_limit o state.limiter subject m s).0
                  (rate_limit o state.limiter subject m s).1).contacted
                ≡ some out))
    unfolding identified
    identified-contacted (err response) s = (λ h. absurd (ground arith), λ h. absurd (ground arith))
    identified-contacted (ok subject) s = (λ h. (subject, refl, h), λ h. back h.0 h.1 h.2)
      where
        back :
            (x : Option Text)
            → ◌≡◌ {A = Result (Response o.http) (Option Text)} (ok subject) (ok x)
            → (limited o state request m
                (rate_limit o state.limiter x m s).0
                (rate_limit o state.limiter x m s).1).contacted
              ≡ some out
            → (limited o state request m
                (rate_limit o state.limiter subject m s).0
                (rate_limit o state.limiter subject m s).1).contacted
              ≡ some out
        back x e h = let e' : x ≡ subject = ground arith in rw e' at h

    contacted_sound :
        (s : Shared o) → (proxy_fallback o state request m s).contacted ≡ some out → IsOpen s out
    unfolding proxy_fallback
    contacted_sound s h =
        let (subject, authenticated, h₁) =
          (identified-contacted (authenticate o state.auth m request) s).0 h in
        let (decision, s') = rate_limit o state.limiter subject m s in
        let (within, h₂) = (limited-contacted decision s').0 h₁ in
        let (has_prefix, h₃) = (dispatch-contacted s').0 h₂ in
        let (backend, body, routed, passed, buffered, same) =
          (forward-contacted (split_path request.path).0 (split_path request.path).1 out s').0 h₃ in
        record {
          subject = subject;
          authenticated = authenticated;
          within_limit = within;
          has_prefix = has_prefix;
          backend = backend;
          routed = routed;
          admitted = passed;
          body = body;
          buffered = buffered;
          request_sent = same;
        }

    contacted_complete :
        (s : Shared o) → IsOpen s out → (proxy_fallback o state request m s).contacted ≡ some out
    unfolding proxy_fallback
    contacted_complete s w =
        let s' = (rate_limit o state.limiter w.subject m s).1 in
        let h₃ =
          (forward-contacted (split_path request.path).0 (split_path request.path).1 out s').1
            (w.backend, w.body, w.routed, w.admitted, w.buffered, w.request_sent) in
        let h₂ = (dispatch-contacted s').1 (w.has_prefix, h₃) in
        let h₁ =
          (limited-contacted (rate_limit o state.limiter w.subject m s).0 s').1
            (w.within_limit, h₂) in
        (identified-contacted (authenticate o state.auth m request) s).1
          (w.subject, w.authenticated, h₁)

-- A request is handed to a backend exactly when the gate verified it (or there is none), the
-- limiter did not reject it, its path has a prefix with a configured backend, that backend's
-- breaker admits it, and its body could be buffered; and what is handed over is then the request
-- that `outgoing` builds. Nothing is assumed of what other handlers do meanwhile.
pub proxy_fallback-contacted :
    (o : Outside) (state : ProxyState o) (request : Request o.http) (m : Moment o) (s : Shared o)
    (out : Outgoing o)
    → ((proxy_fallback o state request m s).contacted ≡ some out) ↔ IsOpen o state request m s out
proxy_fallback-contacted o state request m s out =
    (contacted_sound o state request m out s, contacted_complete o state request m out s)
