-- ===== src/Gateway/Journey.antt =====
-- The whole way of a client: a start of the process (gateway/src/main.rs), a login, and a request
-- to a backend.
mod Stages
use ratewall.Prelude.{ℕ, ◌<◌, ◌≡◌, ◌≢◌, refl, sym, ap, ◌∙◌, subst, some, ◌∷◌, ◌++◌, ok}
use ratewall.Prelude.Text.{Text, codes, trim_end}
use ratewall.Prelude.Text.Split.{Lacks-literal}
use ratewall.Prelude.Table.{get}
use ratewall.Prelude.Table.Order.{IsAscending}
use ratewall.Prelude.Time.{as_secs}
use ratewall.Config.{GatewayConfig}
use ratewall.Config.Routes.{bind_routes}
use ratewall.Config.Validate.{IsUsable, validate_iff, validate_parts}
use ratewall.Auth.{saturating_add}
use ratewall.Auth.Issue.{CryptoLaws}
use ratewall.Auth.Presented.{PrintsSolid}
use ratewall.Auth.Keys.{found}
use ratewall.Auth.Gate.{AuthState}
use ratewall.Auth.Login.{LoginState, LoginRequest, login, granted, demo_username}
use ratewall.Ratelimit.Window.{Counters}
use ratewall.Http.{Request, header_text}
use ratewall.Router.{Outside, Outgoing, ProxyState, Shared, Moment, is_slash, split_path}
use ratewall.Router.Forward.{outgoing, body_cap}
use ratewall.Router.Fallback.{authenticate}
use ratewall.Router.Order.{IsOpen}
use ratewall.Router.Paths.{All-get, validated_routes_served}
use ratewall.Gateway.{Platform, start, serving}
use ratewall.Gateway.Starts.{as_configured, configured_state, configured_shared}
use ratewall.Gateway.Serves.{IsConfigured, login_and_gate, start_iff}
use ratewall.Gateway.App.{Axum, Documented, fallback, build_router, login_router, serve_request}
use ratewall.Gateway.App.Paths.{find-fallback}
use ratewall.Gateway.App.Contacts.{serve_request-contacted}
use ratewall.Gateway.Journey.Stages.{
  login-check_bearer, counter, first_passes, first_admitted, path_of, not_endpoint,
}

module _ (o : Outside) (p : Platform o) (axum : Axum o.http) (documented : Documented o.http axum)
    (laws : CryptoLaws o.crypto) (solid : PrintsSolid o.crypto) (counters : Counters o.redis)
    (c : GatewayConfig) (issuer : LoginState o.crypto) (store : o.redis.Store)
    (alive : counters.Alive store) where
  abbrev gate_of : AuthState o.crypto
  gate_of = record {
    verifying_key = o.crypto.verifying_key issuer.signing_key;
    trusted_issuer = some issuer.issuer;
  }

  module _ (signed_in : ℕ) (payload : LoginRequest) (token : Text) (expires_in : ℕ)
      (signed : login o.crypto issuer signed_in payload ≡ granted token expires_in)
      (prefix url rest : Text) (request : Request o.http) (body : o.http.Bytes) (m : Moment o)
      (ascends : IsAscending c.routes) (listed : get prefix c.routes ≡ some url)
      (asks : request.path ≡ path_of prefix rest)
      (carried : header_text o.http (codes "authorization") request.headers
        ≡ some (codes "Bearer " ++ token))
      (buffered : o.http.to_bytes body_cap request.body ≡ some body)
      (early : m.unix_now < saturating_add signed_in (as_secs issuer.ttl))
      (zeroed : counters.count store (counter o c m demo_username) ≡ 0)
      (alone : (s : Shared o) → (m.redis_wait s).breakers ≡ s.breakers) where
    abbrev sent : Outgoing o
    sent =
        outgoing o (configured_state o c gate_of) (trim_end is_slash url) (b'/' ∷ rest) request body

    way-IsOpen :
        IsUsable c
        → IsOpen o (configured_state o c gate_of) request m (configured_shared o c store) sent
    unfolding authenticate
    way-IsOpen usable =
        let accepted =
          (validate_parts c (bind_routes c.routes)).0
            ((validate_iff c (bind_routes c.routes)).1 (usable, refl)) in
        let (clean, _) = All-get c.routes prefix url usable.routes listed in
        let (split, _, served) =
          validated_routes_served c.routes (bind_routes c.routes) prefix url rest ascends accepted.4
            listed in
        let split' : split_path request.path ≡ (prefix, b'/' ∷ rest) = ap split_path asks ∙ split in
        record {
          subject = some demo_username;
          authenticated =
              rw
                (login-check_bearer o laws solid issuer signed_in payload token expires_in signed
                  request m.unix_now carried early)
                refl;
          within_limit =
              first_passes o counters c usable gate_of store alive m demo_username zeroed;
          has_prefix = λ e. clean.0 (ap (λ (x : Text × Text). x.0) (sym split') ∙ e);
          backend = trim_end is_slash url;
          routed = rw split' served;
          admitted = rw split' (
              first_admitted o counters c usable gate_of store alive m demo_username prefix url
                listed alone);
          body = body;
          buffered = buffered;
          request_sent = rw split' refl;
        }

    -- A client who logs in reaches its backend. On a process that has started on configuration `c`
    -- with a login: if the login answered with a token, then a request for `/{prefix}/{rest}` of a
    -- listed prefix that carries the token before it expires is handed to the HTTP client, for the
    -- backend of the prefix less its trailing slashes and the path `/{rest}`. The path is not that
    -- of the login, the body can be buffered, the crates keep their laws and base64 gives no white
    -- space, nothing happened to the breakers before nor happens to them while the request waits
    -- for Redis, and Redis answers and has no count of the user in the window.
    pub login-contacts :
        (config_path text : Text) (generated : o.crypto.SigningKey) (disk : p.files.Disk)
        (state : ProxyState o) (shared : Shared o) (uuid : Text)
        → p.files.read_to_string config_path disk ≡ found text
        → p.toml_from_str text ≡ ok c
        → (start o p config_path generated store disk).0 ≡ serving state shared (some issuer)
        → request.path ≢ codes "/auth/login"
        → (serve_request o axum state (some issuer) uuid request m shared).contacted
          ≡ some (outgoing o state (trim_end is_slash url) (b'/' ∷ rest) request body)
    login-contacts config_path text generated disk state shared uuid read parsed serves elsewhere =
        let (text', c', k) =
          (start_iff o p config_path generated store disk state shared (some issuer)).0 serves in
        let same : c' ≡ c = same_config text' c' k.read k.parsed in
        let k' : IsConfigured o p store state shared (some issuer) generated disk c =
          subst (IsConfigured o p store state shared (some issuer) generated disk) same
            k.configured in
        let (e, e') =
          same_state k'.gate (login_and_gate o p c.auth generated disk k'.gate issuer k'.set_up)
            k'.serves in
        rw (e, e')
          ((serve_request-contacted o axum (configured_state o c gate_of) (some issuer) uuid request
              m (configured_shared o c store) sent).1
            (left_to_proxy, way-IsOpen k'.usable))
      where
        left_to_proxy :
            axum.find (build_router ++ login_router (some issuer)) request.method request.path
            ≡ fallback
        left_to_proxy =
            find-fallback o axum documented (some issuer) request.method request.path
              (λ e.
                not_endpoint (codes "healthz") prefix rest
                  (Lacks-literal b'/' (codes "healthz") refl) (e ∙ asks))
              (λ e.
                not_endpoint (codes "readyz") prefix rest (Lacks-literal b'/' (codes "readyz") refl)
                  (e ∙ asks))
              (λ e.
                not_endpoint (codes "metrics") prefix rest
                  (Lacks-literal b'/' (codes "metrics") refl) (e ∙ asks))
              (λ e. elsewhere (sym e))

        same_state :
            (gate : AuthState o.crypto)
            → gate ≡ gate_of
            → serving state shared (some issuer) ≡ as_configured o p c gate (some issuer) store
            → (state ≡ configured_state o c gate_of) × (shared ≡ configured_shared o c store)
        same_state gate g h = (cc, cc)

        same_config :
            (text' : Text) (c' : GatewayConfig)
            → p.files.read_to_string config_path disk ≡ found text'
            → p.toml_from_str text' ≡ ok c'
            → c' ≡ c
        same_config text' c' read' parsed' =
            let e : text' ≡ text = cc in
            let e' : p.toml_from_str text ≡ ok c' = rw e at parsed' in cc
