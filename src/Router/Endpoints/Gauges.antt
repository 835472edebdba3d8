-- ===== src/Router/Endpoints/Gauges.antt =====
-- What a scrape of `/metrics` publishes.
use ratewall.Prelude.{
  ◌≡◌, refl, none, some, [], ◌∷◌, arith, if◌then◌else◌, ap, subst, ◌∙◌, inl, inr, Bool-cases,
}
use ratewall.Prelude.Text.{Text, text_eq, text_eq_iff}
use ratewall.Prelude.Table.{Table, get, keys, get-insert}
use ratewall.Prelude.Table.Order.{IsAscending, get_of_IsBelow}
use ratewall.Circuit.{State}
use ratewall.Circuit.Registry.{Breakers, CircuitBreaker, states, get-states}
use ratewall.Metrics.{Floats, Metrics, gauge, set_breaker_state}
use ratewall.Metrics.Render.{render}
use ratewall.Http.{message}
use ratewall.Router.{Outside, Shared}
use ratewall.Router.Endpoints.{publish_states, metrics_endpoint}

module _ (floats : Floats) where
  get-set_breaker_state :
      (prefix other : Text) (state : State) (m : Metrics floats)
      → get other (set_breaker_state floats prefix state m).breaker_state
        ≡ (if text_eq prefix other then some (gauge floats state) else get other m.breaker_state)
  unfolding set_breaker_state
  get-set_breaker_state prefix other state m =
      get-insert prefix other (gauge floats state) m.breaker_state

  publish_other :
      (prefix : Text) (table : Table State) (m : Metrics floats)
      → get prefix table ≡ none
      → get prefix (publish_states floats table m).breaker_state ≡ get prefix m.breaker_state
  unfolding get
  publish_other prefix [] m h = refl
  publish_other prefix ((p, state) ∷ rest) m h =
      publish_other prefix rest (set_breaker_state floats p state m) (ground arith)
      ∙ get-set_breaker_state p prefix state m
      ∙ ground arith

  publish_states_lem :
      (prefix : Text) (table : Table State) (m : Metrics floats) (state : State)
      → IsAscending table
      → get prefix table ≡ some state
      → get prefix (publish_states floats table m).breaker_state ≡ some (gauge floats state)
  unfolding get
  publish_states_lem prefix [] m state a h = cc
  publish_states_lem prefix ((p, st) ∷ rest) m state a h = elim (Bool-cases (text_eq p prefix)) [
    | inr other ↦
        publish_states_lem prefix rest (set_breaker_state floats p st m) state a.1 (ground arith)
    | inl same ↦
        let e : p ≡ prefix = (text_eq_iff p prefix).0 same in
        let e' : st ≡ state = ground arith in
        publish_other prefix rest (set_breaker_state floats p st m)
          (subst (λ q. get q rest ≡ none) e (get_of_IsBelow p rest a.0))
        ∙ get-set_breaker_state p prefix st m
        ∙ (rw same (ap (λ x. some (gauge floats x)) e'))
  ]

keys-states : (breakers : Breakers) → keys (states breakers) ≡ keys breakers
unfolding states
keys-states [] = refl
keys-states ((prefix, b) ∷ rest) = ap (λ ks. prefix ∷ ks) (keys-states rest)

states-IsAscending : (breakers : Breakers) → IsAscending breakers → IsAscending (states breakers)
unfolding states
states-IsAscending [] a = tt
states-IsAscending ((prefix, b) ∷ rest) a = (rw (keys-states rest) a.0, states-IsAscending rest a.1)

-- With metrics and breakers enabled, after a scrape of `/metrics` the gauge of every breaker shows
-- the breaker's state, if the breakers are in key order, as those of `Breakers::new` are.
pub metrics_endpoint-gauges :
    (o : Outside) (s : Shared o) (breakers : Breakers) (m : Metrics o.floats) (prefix : Text)
    (b : CircuitBreaker)
    → s.breakers ≡ some breakers
    → s.metrics ≡ some m
    → IsAscending breakers
    → get prefix breakers ≡ some b
    → (m' : Metrics o.floats) × ((metrics_endpoint o s).1.metrics ≡ some m')
      × (get prefix m'.breaker_state ≡ some (gauge o.floats b.inner.state))
      × ((metrics_endpoint o s).0.body ≡ message (render o.floats m'))
unfolding metrics_endpoint
metrics_endpoint-gauges o s breakers m prefix b hb hm a h = (
  publish_states o.floats (states breakers) m,
  rw hb (rw hm refl),
  publish_states_lem o.floats prefix (states breakers) m b.inner.state
      (states-IsAscending breakers a) (get-states prefix breakers b h),
  rw hb (rw hm refl),
)
