-- ===== src/Circuit/Probe.antt =====
-- What callers see between two reports, while a backend is presumed down.
use ratewall.Prelude.{ℕ, suc, ◌+◌, ◌≤◌, ◌<◌, ◌≡◌, refl, some, List, [], ◌∷◌, arith, All}
use ratewall.Circuit.{
  opened, half_open, Admit, call, short_circuit, BreakerConfig, Inner, try_admit,
}

-- Requests that arrive at the given instants, with no report between them.
pub admit_all : BreakerConfig → List ℕ → Inner → List Admit × Inner
admit_all cfg [] b = ([], b)
admit_all cfg (now ∷ rest) b =
    let (a, b') = try_admit cfg now b in let (as', b'') = admit_all cfg rest b' in (a ∷ as', b'')

pub calls : List Admit → ℕ
calls [] = 0
calls (call ∷ rest) = suc (calls rest)
calls (short_circuit ∷ rest) = calls rest

-- A half-open breaker admits nobody and stays half-open for as long as no outcome is reported.
admit_all_of_half_open :
    (cfg : BreakerConfig) (nows : List ℕ) (b : Inner)
    → b.state ≡ half_open
    → (calls (admit_all cfg nows b).0 ≡ 0) × ((admit_all cfg nows b).1 ≡ b)
unfolding admit_all calls try_admit
admit_all_of_half_open cfg [] b h = (refl, refl)
admit_all_of_half_open cfg (now ∷ rest) b h = ground (arith, admit_all_of_half_open cfg rest b h)

-- Before the cooldown has passed an open breaker admits nobody and does not change.
admit_all_in_cooldown :
    (cfg : BreakerConfig) (nows : List ℕ) (b : Inner) (t : ℕ)
    → b.state ≡ opened
    → b.opened_at ≡ some t
    → All (λ now. now < t + cfg.cooldown) nows
    → 0 < cfg.cooldown
    → (calls (admit_all cfg nows b).0 ≡ 0) × ((admit_all cfg nows b).1 ≡ b)
unfolding admit_all calls try_admit
admit_all_in_cooldown cfg [] b t h k a p = (refl, refl)
admit_all_in_cooldown cfg (now ∷ rest) b t h k a p =
    ground (arith, admit_all_in_cooldown cfg rest b t h k a.1 p)

after_cooldown :
    (cfg : BreakerConfig) (now : ℕ) (b : Inner) (t : ℕ)
    → b.state ≡ opened
    → b.opened_at ≡ some t
    → t + cfg.cooldown ≤ now
    → ((try_admit cfg now b).0 ≡ call) × ((try_admit cfg now b).1.state ≡ half_open)
unfolding try_admit
after_cooldown cfg now b t h k q = ground arith

-- For a breaker that opened at instant `t` and a cooldown that is not zero: all requests before
-- `t + cooldown` fail fast; the first one from then on is admitted and makes the breaker
-- half-open; all later ones fail fast until an outcome is reported.
pub one_probe :
    (cfg : BreakerConfig) (nows later : List ℕ) (probe : ℕ) (b : Inner) (t : ℕ)
    → b.state ≡ opened
    → b.opened_at ≡ some t
    → All (λ now. now < t + cfg.cooldown) nows
    → 0 < cfg.cooldown
    → t + cfg.cooldown ≤ probe
    → (calls (admit_all cfg nows b).0 ≡ 0)
      × ((try_admit cfg probe (admit_all cfg nows b).1).0 ≡ call)
      × ((try_admit cfg probe (admit_all cfg nows b).1).1.state ≡ half_open)
      × (calls (admit_all cfg later (try_admit cfg probe (admit_all cfg nows b).1).1).0 ≡ 0)
one_probe cfg nows later probe b t h k a p q =
    let (quiet, same) = admit_all_in_cooldown cfg nows b t h k a p in
    let (called, half) = after_cooldown cfg probe b t h k q in
    (
      quiet,
      rw same called,
      rw same half,
      rw same (admit_all_of_half_open cfg later (try_admit cfg probe b).1 half).0,
    )
