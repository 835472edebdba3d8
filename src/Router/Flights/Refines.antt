-- ===== src/Router/Flights/Refines.antt =====
-- The concurrent gateway, seen from one backend, is the breaker with its callers.
use ratewall.Prelude.{ℕ, ◌+◌, ◌≡◌, sym, subst, ◌∙◌, Bool, false, some, List, [], ◌∷◌, ◌++◌, arith}
use ratewall.Prelude.Text.{Text}
use ratewall.Config.{Route}
use ratewall.Circuit.{BreakerConfig, Inner}
use ratewall.Circuit.Callers
use ratewall.Circuit.Callers.{System, OneProbe, Reach-HasOneProbe, as_call, as_probe, outstanding}
use ratewall.Circuit.Registry.{IsRouted, new, get-new}
use ratewall.Http.{Request}
use ratewall.Router.{Outside, ProxyState, Shared}
use ratewall.Router.Flights.{
  Progress, Flight, World, Step, arrives, resumes, goes_away, redis_changes, Reach, here, next,
  moved, begin, resume, breaker_of, state_of,
}
use ratewall.Router.Flights.Counts.{
  weight, weight_in, total, total-nil, total-append, total-middle, total-moved, Reach-abandoned,
}
use ratewall.Router.Flights.Admission.{Simulates}
use ratewall.Router.Flights.Segments.{Simulates-begin, Simulates-resume}

module _ (o : Outside) (state : ProxyState o) (late : Bool) (p : Text) (cfg : BreakerConfig) where
  -- What the breaker of prefix `p`, with thresholds `cfg`, sees of the world.
  pub record Shows (w : World o) (s : System) : Type 0 where
    pub found : breaker_of o p w.shared ≡ some (record { cfg = cfg; inner = s.breaker })
    pub calls : s.calls ≡ total o p as_call w.flights
    pub probes : s.probes ≡ total o p as_probe w.flights

  abbrev Follows : System → World o → Type 0
  Follows s u = (t : System) × Shows u t × Callers.Reach cfg late s t

  Follows-of :
      (s : System) (u : World o) (i : Inner) (n k calls probes calls' probes' : ℕ)
      → breaker_of o p u.shared ≡ some (record { cfg = cfg; inner = i })
      → s.calls ≡ n + calls
      → s.probes ≡ k + probes
      → total o p as_call u.flights ≡ n + calls'
      → total o p as_probe u.flights ≡ k + probes'
      → Callers.Reach cfg late
          (outstanding s.breaker (n + calls) (k + probes))
          (outstanding i (n + calls') (k + probes'))
      → Follows s u
  Follows-of s u i n k calls probes calls' probes' found c q c' q' reach =
      let same : outstanding s.breaker (n + calls) (k + probes) ≡ s = ground arith in
      (
        outstanding i (n + calls') (k + probes'),
        record { found = found; calls = sym c'; probes = sym q' },
        subst (λ (x : System). Callers.Reach cfg late x (outstanding i (n + calls') (k + probes')))
            same reach,
      )

  module _ (before after : List (Flight o)) where
    Follows-moved :
        (request : Request o.http) (piece : Progress o × Shared o) (s : System) (calls probes : ℕ)
        → s.calls ≡ total o p as_call before + total o p as_call after + calls
        → s.probes ≡ total o p as_probe before + total o p as_probe after + probes
        → Simulates o state late p cfg s.breaker calls probes piece
        → Follows s (moved o before after request piece)
    Follows-moved request (progress, shared) s calls probes c q (i, found, reach) =
        Follows-of s (moved o before after request (progress, shared)) i
          (total o p as_call before + total o p as_call after)
          (total o p as_probe before + total o p as_probe after) calls probes
          (weight_in o p as_call progress) (weight_in o p as_probe progress) found c q
          (total-moved o p as_call before after request progress)
          (total-moved o p as_probe before after request progress) (reach _ _)

    Follows-goes_away :
        (w : World o) (f : Flight o) (s : System)
        → w.flights ≡ before ++ f ∷ after
        → Shows w s
        → Follows s (record { shared = w.shared; flights = before ++ after })
    Follows-goes_away w f s e h =
        Follows-of s (record { shared = w.shared; flights = before ++ after }) s.breaker
          (total o p as_call before + total o p as_call after)
          (total o p as_probe before + total o p as_probe after) (weight o p as_call f.waiting)
          (weight o p as_probe f.waiting) 0 0 h.found
          (h.calls ∙ rw e (total-middle o p as_call before after f))
          (h.probes ∙ rw e (total-middle o p as_probe before after f))
          (omega (arith, total-append o p as_call before after))
          (omega (arith, total-append o p as_probe before after))
          (Reach-abandoned o p cfg late s.breaker _ _ f.waiting)

  Step-Follows : {w u : World o} (s : System) → Step o state late w u → Shows w s → Follows s u
  Step-Follows {w} s (arrives request m e) h = subst (Follows s) (sym e) (
      Follows-moved [] w.flights request (begin o state request m w.shared) s 0 0
        (omega (arith, h.calls, total-nil o p as_call))
        (omega (arith, h.probes, total-nil o p as_probe))
        (Simulates-begin o state late p cfg m s.breaker request w.shared h.found))
  Step-Follows {w} s (resumes before after f m e timely e') h = subst (Follows s) (sym e') (
      Follows-moved before after f.request (resume o state f.request m f.waiting w.shared) s
        (weight o p as_call f.waiting) (weight o p as_probe f.waiting)
        (h.calls ∙ rw e (total-middle o p as_call before after f))
        (h.probes ∙ rw e (total-middle o p as_probe before after f))
        (Simulates-resume o state late p cfg m s.breaker f.request f.waiting w.shared h.found
          timely))
  Step-Follows {w} s (goes_away before after f e e') h =
      subst (Follows s) (sym e') (Follows-goes_away before after w f s e h)
  Step-Follows {w} s (redis_changes store e) h =
      subst (Follows s) (sym e)
        (s, record { found = h.found; calls = h.calls; probes = h.probes }, Callers.here)

  -- Whatever the handlers of the gateway do from a world that shows a breaker with its callers,
  -- the world that they reach shows what the breaker with its callers can reach, with late reports
  -- allowed in both or in neither.
  pub Reach-Refines :
      {w u : World o} (s : System)
      → Shows w s
      → Reach o state late w u
      → (t : System) × Shows u t × Callers.Reach cfg late s t
  Reach-Refines s h here = (s, h, Callers.here)
  Reach-Refines s h (next r step) =
      let (t, shown, reach) = Reach-Refines s h r in
      let (v, shown', reach') = Step-Follows t step shown in
      (v, shown', Callers.Reach-trans reach reach')

-- On a gateway that starts with the breakers of its route table and with no request in flight, as
-- long as no request that a closed breaker admitted comes back while the breaker is half-open:
-- however the handlers interleave, at most one probe of a routed prefix is in flight, and none
-- unless its breaker is half-open.
pub Reach-OneProbe :
    (o : Outside) (state : ProxyState o) (prefix : Text) (routes : List Route) (cfg : BreakerConfig)
    (start u : World o)
    → IsRouted prefix routes
    → start.shared.breakers ≡ some (new routes cfg)
    → start.flights ≡ []
    → Reach o state false start u
    → OneProbe (state_of o (breaker_of o prefix u.shared)) (total o prefix as_probe u.flights)
Reach-OneProbe o state prefix routes cfg start u routed b f r =
    let (t, shown, reach) =
      Reach-Refines o state false prefix cfg Callers.start
        (record {
          found = rw b ((get-new routes cfg prefix).0 routed);
          calls = rw f (sym (total-nil o prefix as_call));
          probes = rw f (sym (total-nil o prefix as_probe));
        })
        r in
    rw (shown.found, sym shown.probes) (Reach-HasOneProbe reach)
