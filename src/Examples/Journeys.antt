-- ===== src/Examples/Journeys.antt =====
-- A login and the request that follows it, on the toy process.
use ratewall.Prelude.{◌≡◌, ◌↔◌, refl, true, none, some, [], ◌∷◌, ◌++◌, arith}
use ratewall.Prelude.Text.{Text, codes, text_eq, is_whitespace, trim_end}
use ratewall.Prelude.Table.{get}
use ratewall.Config.{GatewayConfig, backend_timeout}
use ratewall.Auth.{issue_token, token_alg}
use ratewall.Auth.Presented.{PrintsSolid}
use ratewall.Auth.Login as Login
use ratewall.Auth.Login.{granted}
use ratewall.Http.{Request, header_text}
use ratewall.Router.Forward.{outgoing}
use ratewall.Gateway.{start, serving}
use ratewall.Gateway.Serves.{Configured, start_iff}
use ratewall.Gateway.Journey.{login-contacts}
use ratewall.Gateway.App.{serve_request}
use ratewall.Gateway.App.Paths.{apart}
use ratewall.Examples.Crates.{
  toy_outside, toy_crypto, toy_http, toy_laws, toy_counters, shift, write, header, claims,
}
use ratewall.Examples.Tokens.{demo}
use ratewall.Examples.Scene.{quiet, backend, prefix}
use ratewall.Examples.App.{axum, documented}
use ratewall.Examples.Boot.{config, platform, disk, login, state, shared, toy_started}

shift-IsSolid : PrintsSolid toy_crypto
unfolding is_whitespace
shift-IsSolid [] = tt
shift-IsSolid (c ∷ s) = (ground arith, shift-IsSolid s)

-- The token of a login at instant 1000.
abbrev input : Text
input =
    shift (write (header token_alg (codes "JWT")))
    ++ b'.' ∷ shift (write (claims (codes "demo") (codes "ratewall") 1000 1900))

abbrev token : Text
token = input ++ b'.' ∷ shift (9 ∷ input)

signed : Login.login toy_crypto login 1000 demo ≡ granted token 900
unfolding Login.login issue_token text_eq
signed = refl

abbrev request : Request toy_http
request = record {
  method = codes "GET";
  path = codes "/crm/customers";
  query = none;
  headers = (codes "authorization", codes "Bearer " ++ token) ∷ [];
  body = some [];
}

login-contacts_example :
    (serve_request toy_outside axum state
      (some login)
      (codes "id")
      request
      (quiet 20)
      shared).contacted
    ≡ some (outgoing toy_outside state backend (codes "/customers") request [])
unfolding get text_eq header_text backend_timeout toy_counters trim_end
login-contacts_example =
    login-contacts toy_outside platform axum documented toy_laws shift-IsSolid toy_counters config
      login (true, []) refl 1000 demo token 900 signed prefix backend (codes "customers") request []
      (quiet 20) (tt, tt) refl refl refl refl (omega arith) refl (λ s. refl) (codes "/config.toml")
      (codes "[routes]") 9 disk state shared (codes "id") refl refl toy_started (apart _ _ refl)

start_iff_example :
    ((start toy_outside platform (codes "/config.toml") 9 (true, []) disk).0
      ≡ serving state shared (some login))
    ↔ ((text : Text) × (c : GatewayConfig) × Configured toy_outside platform
          (true, [])
          state
          shared
          (some login)
          9
          disk
          (codes "/config.toml")
          text
          c)
start_iff_example =
    start_iff toy_outside platform (codes "/config.toml") 9 (true, []) disk state shared
      (some login)
