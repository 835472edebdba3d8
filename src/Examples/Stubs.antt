-- ===== src/Examples/Stubs.antt =====
-- A stub behind the gateway, with a client that knows one origin.
use ratewall.Prelude.{◌≡◌, ◌≢◌, refl, true, inl, Option, none, some, [], ◌∷◌, ◌++◌, arith, All}
use mathlib.Core.List.{append-nil}
use ratewall.Prelude.Text.{Text, codes, text_eq, strip_prefix, split, split_once}
use ratewall.Prelude.Text.Split.{Lacks, strip_prefix-append, split_once-append, split_once_of_Lacks}
use ratewall.Prelude.Table.{get, or_default}
use ratewall.Http.{ok_200}
use ratewall.Config.{is_prefix_char}
use ratewall.Mock.{Captures, serve, crm}
use ratewall.Mock.Behind.{is_path_char, IsNormal, IsOrigin, proxy_fallback-serve}
use ratewall.Circuit.{try_admit}
use ratewall.Circuit.Registry.{admit_at}
use ratewall.Router.{Outgoing, ProxyState, split_path}
use ratewall.Router.Forward.{outgoing, forward}
use ratewall.Router.Fallback.{proxy_fallback, identified, limited, rate_limit, dispatch}
use ratewall.Examples.Crates.{toy_outside}
use ratewall.Examples.Tokens.{ann_request}
use ratewall.Examples.Scene.{proxy, shared, quiet, closed_crm, prefix, backend}

abbrev capture : Text → Option Text
capture (c ∷ d ∷ rest) = some (d ∷ rest)
capture _ = none

captures-rest : (path : Text) → path ≢ [] → capture (b'/' ∷ path) ≡ some path
captures-rest [] h = absurd (h refl)
captures-rest (c ∷ path) h = refl

captures : Captures capture
captures = record { root = refl; rest = λ path h k. captures-rest path h }

-- What is behind the origin, up to the query.
abbrev before_query : Text → Option (Text × Text) → Option Text
before_query target none = some target
before_query target (some (path, query)) = some path

abbrev path_behind : Option Text → Option Text
path_behind none = none
path_behind (some target) = before_query target (split_once b'?' target)

toy_client : Text → Option Text
toy_client target = path_behind (strip_prefix backend target)

normal-Lacks : (path : Text) → All (λ c. is_path_char c ≡ true) path → Lacks b'?' path
unfolding is_path_char
normal-Lacks [] h = tt
normal-Lacks (c ∷ path) (here, h) = (ground arith, normal-Lacks path h)

toy_client-IsOrigin : IsOrigin toy_outside toy_client backend
unfolding toy_client
toy_client-IsOrigin path none normal plain = rw (strip_prefix-append backend (b'/' ∷ path ++ [])) (
    rw (append-nil path) (
      rw
        (split_once_of_Lacks b'?' (b'/' ∷ path)
          ((λ e. omega arith), normal-Lacks path normal.plain))
        refl))
toy_client-IsOrigin path (some q) normal plain =
    rw (strip_prefix-append backend (b'/' ∷ path ++ b'?' ∷ q)) (
      rw
        (split_once-append b'?' (b'/' ∷ path) q
          ((λ e. omega arith), normal-Lacks path normal.plain))
        refl)

-- A gateway that lets everybody through.
abbrev ungated : ProxyState toy_outside
ungated = record proxy { auth = none; limiter = none }

abbrev sent : Outgoing toy_outside
sent = outgoing toy_outside ungated backend (codes "/customers") ann_request []

sent_to_stub :
    (proxy_fallback toy_outside ungated ann_request (quiet 20) (shared true closed_crm)).contacted
    ≡ some sent
unfolding proxy_fallback identified limited rate_limit dispatch split_path forward get text_eq
    admit_at try_admit
sent_to_stub = refl

customers-IsNormal : IsNormal (codes "customers")
unfolding is_path_char split
customers-IsNormal = record {
  plain = (refl, (refl, (refl, (refl, (refl, (refl, (refl, (refl, (refl, tt)))))))));
  no_dots = ((λ e. cc, λ e. cc), tt);
}

proxy_fallback-serve_example :
    (asked : Text) × (toy_client sent.target ≡ some asked)
    × (serve capture crm (some (codes "crm")) asked ≡ record {
      status = ok_200;
      service = or_default [] (some (codes "crm"));
      path = b'/' ∷ codes "customers";
    })
unfolding is_prefix_char get text_eq
proxy_fallback-serve_example =
    proxy_fallback-serve capture captures crm (some (codes "crm")) toy_outside toy_client ungated
      ann_request (quiet 20) (shared true closed_crm) sent prefix (codes "customers") backend
      (λ e. cc, (refl, (refl, (refl, tt)))) customers-IsNormal refl toy_client-IsOrigin tt
      (inl refl) sent_to_stub
