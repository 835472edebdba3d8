-- ===== src/Circuit/Callers.antt =====
-- The breaker of one backend with the calls that it admitted and that have not reported yet. A
-- handler asks `try_admit`, awaits the backend, and then calls `record` (core/src/router.rs,
-- `forward`); between the two any number of other handlers run, and a handler may end without a
-- report.
pub mod Late
use ratewall.Prelude.{
  ℕ, ◌+◌, ◌-◌, ◌≤◌, ◌<◌, ◌≡◌, ◌≢◌, refl, Bool, true, false, arith, subst, sym, ◌⊎◌,
}
use ratewall.Circuit.{
  State, closed, opened, half_open, Admit, call, short_circuit, BreakerConfig, Inner, fresh,
  try_admit, record_outcome,
}

-- `calls` were admitted by a closed breaker, `probes` by one whose cooldown had passed.
pub record System : Type 0 where
  pub breaker : Inner
  pub calls : ℕ
  pub probes : ℕ

abbrev pub start : System
start = record { breaker = fresh; calls = 0; probes = 0 }

arrive_in : State → Admit → Inner → System → System
arrive_in closed call b s = record s { breaker = b; calls = s.calls + 1 }
arrive_in _ call b s = record s { breaker = b; probes = s.probes + 1 }
arrive_in _ short_circuit b s = record s { breaker = b }

pub arrive : BreakerConfig → ℕ → System → System
unfolding arrive_in
arrive cfg now s = let (a, b) = try_admit cfg now s.breaker in arrive_in s.breaker.state a b s

-- One atomic step. `late` says whether a call that a closed breaker admitted may report after
-- the breaker has become half-open.
pub data Step (cfg : BreakerConfig) (late : Bool) (s t : System) : Type 0 where
  request : (now : ℕ) → t ≡ arrive cfg now s → Step cfg late s t
  call_reports :
      (now : ℕ) (success : Bool)
      → 0 < s.calls
      → (late ≡ true) ⊎ (s.breaker.state ≢ half_open)
      → t ≡ record s { breaker = record_outcome cfg now success s.breaker; calls = s.calls - 1 }
      → Step cfg late s t
  probe_reports :
      (now : ℕ) (success : Bool)
      → 0 < s.probes
      → t ≡ record s { breaker = record_outcome cfg now success s.breaker; probes = s.probes - 1 }
      → Step cfg late s t
  call_ends : 0 < s.calls → t ≡ record s { calls = s.calls - 1 } → Step cfg late s t
  probe_ends : 0 < s.probes → t ≡ record s { probes = s.probes - 1 } → Step cfg late s t

pub data Reach (cfg : BreakerConfig) (late : Bool) (s : System) : System → Type 0 where
  here : Reach cfg late s s
  next : {t u : System} → Reach cfg late s t → Step cfg late t u → Reach cfg late s u

-- What a request that the breaker admitted in some state counts as.
abbrev pub as_call : State → ℕ
as_call closed = 1
as_call _ = 0

abbrev pub as_probe : State → ℕ
as_probe closed = 0
as_probe _ = 1

abbrev pub outstanding : Inner → ℕ → ℕ → System
outstanding b calls probes = record { breaker = b; calls = calls; probes = probes }

module _ (cfg : BreakerConfig) (late : Bool) (now : ℕ) (b : Inner) (n m : ℕ) where
  arrive_short :
      (state : State) (a : Admit) (b' : Inner)
      → a ≡ short_circuit
      → arrive_in state a b' (outstanding b n m) ≡ outstanding b' n m
  unfolding arrive_in
  arrive_short closed call b' e = cc
  arrive_short opened call b' e = cc
  arrive_short half_open call b' e = cc
  arrive_short closed short_circuit b' e = refl
  arrive_short opened short_circuit b' e = refl
  arrive_short half_open short_circuit b' e = refl

  arrive_call :
      (state : State) (a : Admit) (b' : Inner)
      → a ≡ call
      → arrive_in state a b' (outstanding b n m)
        ≡ outstanding b' (n + as_call state) (m + as_probe state)
  unfolding arrive_in
  arrive_call closed call b' e = ground arith
  arrive_call opened call b' e = ground arith
  arrive_call half_open call b' e = ground arith
  arrive_call closed short_circuit b' e = cc
  arrive_call opened short_circuit b' e = cc
  arrive_call half_open short_circuit b' e = cc

  -- A request that fails fast, and one that is admitted.
  pub request_fails_fast :
      (try_admit cfg now b).0 ≡ short_circuit
      → Step cfg late (outstanding b n m) (outstanding (try_admit cfg now b).1 n m)
  unfolding arrive
  request_fails_fast e =
      request now (sym (arrive_short b.state (try_admit cfg now b).0 (try_admit cfg now b).1 e))

  pub request_is_admitted :
      (try_admit cfg now b).0 ≡ call
      → Step cfg late
          (outstanding b n m)
          (outstanding (try_admit cfg now b).1 (n + as_call b.state) (m + as_probe b.state))
  unfolding arrive
  request_is_admitted e =
      request now (sym (arrive_call b.state (try_admit cfg now b).0 (try_admit cfg now b).1 e))

-- A probe is out only while the breaker is half-open, and then at most one is.
abbrev pub OneProbe : State → ℕ → Type 0
OneProbe half_open probes = probes ≤ 1
OneProbe _ probes = probes ≡ 0

abbrev pub HasOneProbe : System → Type 0
HasOneProbe s = OneProbe s.breaker.state s.probes

arrive-HasOneProbe :
    (cfg : BreakerConfig) (now : ℕ) (s : System) → HasOneProbe s → HasOneProbe (arrive cfg now s)
unfolding arrive try_admit
arrive-HasOneProbe cfg now s h = ground arith

Step-HasOneProbe :
    {cfg : BreakerConfig} {s t : System} → Step cfg false s t → HasOneProbe s → HasOneProbe t
unfolding record_outcome
Step-HasOneProbe {cfg} {s} (request now e) h =
    subst HasOneProbe (sym e) (arrive-HasOneProbe cfg now s h)
Step-HasOneProbe (call_reports now success out late e) h = subst HasOneProbe (sym e) (ground arith)
Step-HasOneProbe (probe_reports now success out e) h = subst HasOneProbe (sym e) (ground arith)
Step-HasOneProbe (call_ends out e) h = subst HasOneProbe (sym e) h
Step-HasOneProbe (probe_ends out e) h = subst HasOneProbe (sym e) (ground arith)

-- As long as no call of an earlier closed phase reports in the half-open phase: however requests,
-- reports and abandoned calls interleave, at most one probe is out, and none unless the breaker is
-- half-open.
pub Reach-HasOneProbe : {cfg : BreakerConfig} {s : System} → Reach cfg false start s → HasOneProbe s
Reach-HasOneProbe here = refl
Reach-HasOneProbe (next r step) = Step-HasOneProbe step (Reach-HasOneProbe r)

pub Reach-trans :
    {cfg : BreakerConfig} {late : Bool} {s t u : System}
    → Reach cfg late s t
    → Reach cfg late t u
    → Reach cfg late s u
Reach-trans r here = r
Reach-trans r (next q step) = next (Reach-trans r q) step
