-- ===== src/Examples/Boot.antt =====
-- The start of the process on a toy disk that holds a configuration and no key, and a request to
-- it.
use ratewall.Prelude.{◌≡◌, refl, [], ◌∷◌, true, some, ok, err}
use ratewall.Prelude.Text.{
  Text, codes, text_eq, starts_with, strip_prefix, trim, trim_start, trim_end, any_char,
  is_whitespace, utf8_len,
}
use ratewall.Prelude.Table.{Table, get, insert}
use ratewall.Prelude.Time.{from_secs}
use ratewall.Config.{
  GatewayConfig, with_defaults, validate, validate_auth, validate_ratelimit, validate_breaker,
  validate_routes, validate_route, is_prefix_char, issues_own_tokens, backend_timeout,
}
use ratewall.Config.Routes.{bind_routes}
use ratewall.Config.Validate.{validate_iff}
use ratewall.Auth.Verify.{IsAuthentic}
use ratewall.Auth.Keys.{load_or_create_signing_key}
use ratewall.Auth.Gate.{AuthState, presented_token, check_bearer, check_bearer_iff}
use ratewall.Auth.{bearer_token}
use ratewall.Http.{header_text}
use ratewall.Ratelimit.{decide}
use ratewall.Circuit.{try_admit}
use ratewall.Auth.Login.{LoginState}
use ratewall.Circuit.Registry.{new, admit_at}
use ratewall.Metrics.{new_metrics}
use ratewall.Router.{ProxyState, Shared, Outgoing, backends_of, split_path}
use ratewall.Router.Forward.{outgoing, try_breaker}
use ratewall.Router.Fallback.{authenticate, rate_limit}
use ratewall.Router.Order.{IsOpen}
use ratewall.Gateway.{Platform, start, own_issuer, IsGuarded}
use ratewall.Gateway.Guards.{start-IsGuarded}
use ratewall.Gateway.Starts.{as_configured, start-own_keys}
use ratewall.Gateway.App.{serve_request}
use ratewall.Gateway.App.Contacts.{serve_request-contacted, start-contacts}
use ratewall.Examples.Crates.{toy_outside, toy_floats, toy_crypto, toy_http, toy_files, toy_pem}
use ratewall.Examples.Tokens.{ann_request, ann_token, gate, ann_token-IsAuthentic}
use ratewall.Examples.Scene.{quiet, backend, prefix}
use ratewall.Examples.App.{axum}

abbrev pub routes : Table Text
routes = (prefix, backend) ∷ []

abbrev pub config : GatewayConfig
config = with_defaults routes

-- A parser that gives one configuration for any document.
abbrev pub platform : Platform toy_outside
platform = record {
  files = toy_files;
  pem = toy_pem;
  from_public_key_pem = λ t. err (codes "no key");
  toml_from_str = λ t. ok config;
  no_such_file = codes "No such file or directory (os error 2)";
  create_pool = λ t. ok tt;
  build_client = ok tt;
}

abbrev pub disk : Table Text
disk = (codes "/config.toml", codes "[routes]") ∷ []

start-IsGuarded_example :
    IsGuarded toy_outside platform
      (start toy_outside platform (codes "/config.toml") 4 (true, []) disk).0
start-IsGuarded_example =
    start-IsGuarded toy_outside platform (codes "/config.toml") 4 (true, []) disk

pub config_accepted : validate config ≡ ok (bind_routes routes)
unfolding validate validate_auth validate_ratelimit validate_breaker validate_routes validate_route
    is_prefix_char starts_with utf8_len trim_end
config_accepted = refl

-- The gate and the login with key 9.
abbrev pub login : LoginState toy_crypto
login = record { signing_key = 9; issuer = own_issuer; ttl = from_secs 900 }

pub toy_started :
    (start toy_outside platform (codes "/config.toml") 9 (true, []) disk).0
    ≡ as_configured toy_outside platform config gate (some login) (true, [])
unfolding get text_eq issues_own_tokens load_or_create_signing_key insert
toy_started =
    start-own_keys toy_outside platform config (codes "/config.toml") (codes "[routes]") 9
      (true, []) disk refl refl ((validate_iff config (bind_routes routes)).0 config_accepted).0
      refl refl 9 true refl refl

-- What then serves.
abbrev pub state : ProxyState toy_outside
state = record {
  backends = backends_of (bind_routes routes);
  auth = some gate;
  limiter = some (record { limit = 100; window = from_secs 60; key_prefix = [] });
  backend_timeout = from_secs 15;
}

abbrev pub shared : Shared toy_outside
shared = record {
  breakers =
      some (new (bind_routes routes) (record { failure_threshold = 5; cooldown = from_secs 30 }));
  metrics = some (new_metrics toy_floats);
  store = (true, []);
}

abbrev sent : Outgoing toy_outside
sent = outgoing toy_outside state backend (codes "/customers") ann_request []

passed : check_bearer toy_crypto toy_http gate 1200 ann_request ≡ ok (codes "ann")
unfolding presented_token header_text bearer_token get strip_prefix trim trim_start trim_end
    any_char is_whitespace text_eq
passed =
    ((check_bearer_iff toy_crypto toy_http gate 1200 ann_request).0 (codes "ann")).1
      (ann_token, refl, ann_token-IsAuthentic)

sent-IsOpen : IsOpen toy_outside state ann_request (quiet 20) shared sent
unfolding authenticate rate_limit decide split_path try_breaker get text_eq new admit_at try_admit
    insert backends_of trim_end
sent-IsOpen = record {
  subject = some (codes "ann");
  authenticated = rw passed refl;
  within_limit = λ h. h;
  has_prefix = λ e. cc;
  backend = backend;
  routed = refl;
  admitted = refl;
  body = [];
  buffered = refl;
  request_sent = refl;
}

contacted :
    (serve_request toy_outside axum state
      (some login)
      (codes "id")
      ann_request
      (quiet 20)
      shared).contacted
    ≡ some sent
unfolding text_eq
contacted =
    (serve_request-contacted toy_outside axum state (some login) (codes "id") ann_request (quiet 20)
        shared sent).1
      (refl, sent-IsOpen)

start-contacts_example :
    (gate' : AuthState toy_crypto) × (name : Text) × (token : Text) × (subject : Text) × (some gate
      ≡ some gate')
    × (gate'.trusted_issuer ≡ some name)
    × (presented_token toy_http ann_request ≡ some token)
    × IsAuthentic toy_crypto gate'.verifying_key token gate'.trusted_issuer 1200 subject
unfolding backend_timeout
start-contacts_example =
    start-contacts toy_outside platform axum (codes "/config.toml") 9 (true, []) disk state shared
      (some login) (codes "id") ann_request (quiet 20) shared sent toy_started contacted
