-- ===== src/Circuit/Registry.antt =====
-- `Breakers`: one breaker per route prefix. A handle to a breaker shares its state (an `Arc`), so
-- a call through the handle is a change of the entry here.
use ratewall.Prelude.{
  ℕ, ◌≡◌, ◌⊎◌, inl, inr, refl, Bool, Option, none, some, List, [], ◌∷◌, arith, ◌∙◌, if◌then◌else◌,
}
use ratewall.Prelude.Text.{Text, text_eq, text_eq_iff}
use ratewall.Prelude.Table.{Table, get, insert, get-insert}
use ratewall.Prelude.Table.Order.{IsAscending, insert-IsAscending}
use ratewall.Config.{Route}
use ratewall.Circuit.{State, Admit, BreakerConfig, Inner, fresh, try_admit, record_outcome}

pub record CircuitBreaker : Type 0 where
  pub cfg : BreakerConfig
  pub inner : Inner

abbrev pub Breakers : Type 0
Breakers = Table CircuitBreaker

-- `CircuitBreaker::new`
abbrev pub new_breaker : BreakerConfig → CircuitBreaker
new_breaker cfg = record { cfg = cfg; inner = fresh }

add_routes : BreakerConfig → List Route → Breakers → Breakers
add_routes cfg [] breakers = breakers
add_routes cfg (route ∷ rest) breakers =
    add_routes cfg rest (insert route.prefix (new_breaker cfg) breakers)

-- `Breakers::new`
unfoldable pub new : List Route → BreakerConfig → Breakers
unfolding add_routes
new routes cfg = add_routes cfg routes []

-- `Breakers::states`
unfoldable pub states : Breakers → Table State
states [] = []
states ((prefix, breaker) ∷ rest) = (prefix, breaker.inner.state) ∷ states rest

-- `try_admit` and `record` through the handle that `get` gives.
admit_found : Text → ℕ → Breakers → Option CircuitBreaker → Option Admit × Breakers
admit_found prefix now breakers none = (none, breakers)
admit_found prefix now breakers (some breaker) =
    let (admit, inner) = try_admit breaker.cfg now breaker.inner in
    (some admit, insert prefix (record breaker { inner = inner }) breakers)

unfoldable pub admit_at : Text → ℕ → Breakers → Option Admit × Breakers
unfolding admit_found
admit_at prefix now breakers = admit_found prefix now breakers (get prefix breakers)

record_found : Text → ℕ → Bool → Breakers → Option CircuitBreaker → Breakers
record_found prefix now success breakers none = breakers
record_found prefix now success breakers (some breaker) =
    insert prefix (record breaker { inner = record_outcome breaker.cfg now success breaker.inner })
      breakers

unfoldable pub record_at : Text → ℕ → Bool → Breakers → Breakers
unfolding record_found
record_at prefix now success breakers =
    record_found prefix now success breakers (get prefix breakers)

-- The prefix of some route.
abbrev pub IsRouted : Text → List Route → Type 0
IsRouted prefix [] = ⊥
IsRouted prefix (route ∷ rest) = (route.prefix ≡ prefix) ⊎ IsRouted prefix rest

get-add_routes_old :
    (cfg : BreakerConfig) (routes : List Route) (prefix : Text) (breakers : Breakers)
    → get prefix breakers ≡ some (new_breaker cfg)
    → get prefix (add_routes cfg routes breakers) ≡ some (new_breaker cfg)
unfolding add_routes
get-add_routes_old cfg [] prefix breakers h = h
get-add_routes_old cfg (route ∷ rest) prefix breakers h =
    get-add_routes_old cfg rest prefix _ (rw get-insert (ground arith))

get-add_routes :
    (cfg : BreakerConfig) (routes : List Route) (prefix : Text) (breakers : Breakers)
    → IsRouted prefix routes
    → get prefix (add_routes cfg routes breakers) ≡ some (new_breaker cfg)
unfolding add_routes
get-add_routes cfg [] prefix breakers h = absurd h
get-add_routes cfg (route ∷ rest) prefix breakers (inl same) =
    get-add_routes_old cfg rest prefix _
      (rw get-insert (ground (arith, text_eq_iff route.prefix prefix)))
get-add_routes cfg (route ∷ rest) prefix breakers (inr later) =
    get-add_routes cfg rest prefix _ later

get-add_routes_other :
    (cfg : BreakerConfig) (routes : List Route) (prefix : Text) (breakers : Breakers)
    → ¬ IsRouted prefix routes
    → get prefix (add_routes cfg routes breakers) ≡ get prefix breakers
unfolding add_routes
get-add_routes_other cfg [] prefix breakers h = refl
get-add_routes_other cfg (route ∷ rest) prefix breakers h =
    get-add_routes_other cfg rest prefix _ (λ k. h (inr k))
    ∙ (get-insert route.prefix prefix (new_breaker cfg) breakers
        ∙ ground (arith, text_eq_iff route.prefix prefix, λ (e : route.prefix ≡ prefix). h (inl e)))

-- Every routed prefix has a new closed breaker with the shared thresholds, and no other has one.
pub get-new :
    (routes : List Route) (cfg : BreakerConfig) (prefix : Text)
    → (IsRouted prefix routes → get prefix (new routes cfg) ≡ some (new_breaker cfg))
      × (¬ IsRouted prefix routes → get prefix (new routes cfg) ≡ none)
unfolding new get
get-new routes cfg prefix =
    (λ h. get-add_routes cfg routes prefix [] h, λ h. get-add_routes_other cfg routes prefix [] h)

-- A table of states has the state of every breaker under its prefix.
pub get-states :
    (prefix : Text) (breakers : Breakers) (b : CircuitBreaker)
    → get prefix breakers ≡ some b
    → get prefix (states breakers) ≡ some b.inner.state
unfolding get states
get-states prefix [] b h = cc
get-states prefix ((p, c) ∷ rest) b h = ground (arith, get-states prefix rest b)

-- The breaker after `try_admit`, and after `record`.
abbrev pub admitted : ℕ → CircuitBreaker → CircuitBreaker
admitted now b = record b { inner = (try_admit b.cfg now b.inner).1 }

abbrev pub recorded : ℕ → Bool → CircuitBreaker → CircuitBreaker
recorded now success b = record b { inner = record_outcome b.cfg now success b.inner }

abbrev pub on_found :
    (CircuitBreaker → CircuitBreaker) → Option CircuitBreaker → Option CircuitBreaker
on_found f none = none
on_found f (some b) = some (f b)

-- The answer of `try_admit` for a prefix that has a breaker.
pub admit_at-answer :
    (prefix : Text) (now : ℕ) (breakers : Breakers) (b : CircuitBreaker)
    → get prefix breakers ≡ some b
    → (admit_at prefix now breakers).0 ≡ some (try_admit b.cfg now b.inner).0
unfolding admit_at admit_found
admit_at-answer prefix now breakers b h = rw h refl

module _ (prefix other : Text) (now : ℕ) (breakers : Breakers) where
  get-admit_found :
      (o : Option CircuitBreaker)
      → get prefix breakers ≡ o
      → get other (admit_found prefix now breakers o).1
        ≡ (if text_eq prefix other then on_found (admitted now) o else get other breakers)
  unfolding admit_found
  get-admit_found none e = ground (arith, text_eq_iff prefix other)
  get-admit_found (some b) e = get-insert prefix other (admitted now b) breakers

  -- `try_admit` changes the breaker of its own prefix and no other.
  pub get-admit_at : get other (admit_at prefix now breakers).1 ≡ (
      if text_eq prefix other
      then on_found (admitted now) (get prefix breakers)
      else get other breakers)
  unfolding admit_at
  get-admit_at = get-admit_found (get prefix breakers) refl

  get-record_found :
      (success : Bool) (o : Option CircuitBreaker)
      → get prefix breakers ≡ o
      → get other (record_found prefix now success breakers o)
        ≡ (if text_eq prefix other then on_found (recorded now success) o else get other breakers)
  unfolding record_found
  get-record_found success none e = ground (arith, text_eq_iff prefix other)
  get-record_found success (some b) e = get-insert prefix other (recorded now success b) breakers

  -- `record` changes the breaker of its own prefix, as `record_outcome` does, and no other.
  pub get-record_at :
      (success : Bool)
      → get other (record_at prefix now success breakers) ≡ (
          if text_eq prefix other
          then on_found (recorded now success) (get prefix breakers)
          else get other breakers)
  unfolding record_at
  get-record_at success = get-record_found success (get prefix breakers) refl

add_routes-IsAscending :
    (cfg : BreakerConfig) (routes : List Route) (breakers : Breakers)
    → IsAscending breakers
    → IsAscending (add_routes cfg routes breakers)
unfolding add_routes
add_routes-IsAscending cfg [] breakers a = a
add_routes-IsAscending cfg (route ∷ rest) breakers a =
    add_routes-IsAscending cfg rest _ (insert-IsAscending route.prefix (new_breaker cfg) breakers a)

-- The breakers of a route table are in key order.
new-IsAscending : (routes : List Route) (cfg : BreakerConfig) → IsAscending (new routes cfg)
unfolding new
new-IsAscending routes cfg = add_routes-IsAscending cfg routes [] tt
