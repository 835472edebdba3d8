-- ===== src/Examples/Configs.antt =====
-- A configuration with two routes, and what is accepted besides it.
use ratewall.Prelude.{◌≡◌, ◌↔◌, refl, some, [], ◌∷◌, arith, Result, ok}
use ratewall.Prelude.Text.{Text, codes, text_eq, starts_with, utf8_len, trim_end}
use ratewall.Prelude.Table.{Table, get, text_compare}
use ratewall.Config.{
  is_prefix_char, validate_auth, validate_ratelimit, validate_breaker, GatewayConfig, with_defaults,
  validate, validate_route, validate_routes, from_toml,
}
use ratewall.Config.Routes.{IsCleanPrefix, bind_routes}
use ratewall.Config.Validate.{IsUsable, validate_iff}
use ratewall.Router.{is_slash, backends_of, split_path, limited_prefix}
use ratewall.Router.Paths.{validated_routes_served}
use ratewall.Router.Labels.{limited_prefix-clean}

abbrev table : Table Text
table = (codes "crm", codes "http://crm:9001/") ∷ (codes "hrm", codes "https://hrm:9002") ∷ []

abbrev config : GatewayConfig
config = with_defaults table

validate_iff_example :
    (validate config ≡ ok (bind_routes table))
    ↔ (IsUsable config × (bind_routes table ≡ bind_routes table))
validate_iff_example = validate_iff config (bind_routes table)

table_accepted : validate_routes table ≡ ok (bind_routes table)
unfolding validate_routes validate_route is_prefix_char starts_with utf8_len trim_end
table_accepted = refl

-- A parser that gives the configuration for any document.
abbrev parser : Text → Result Text GatewayConfig
parser text = ok config

config_read : from_toml parser (codes "[routes]") ≡ ok config
unfolding from_toml validate validate_auth validate_ratelimit validate_breaker
config_read = rw table_accepted refl

crm_IsCleanPrefix : IsCleanPrefix (codes "crm")
unfolding is_prefix_char
crm_IsCleanPrefix = (ground arith, (refl, (refl, (refl, tt))))

validated_routes_served_example :
    (split_path (codes "/crm/customers") ≡ (codes "crm", codes "/customers"))
    × (split_path (codes "/crm") ≡ (codes "crm", codes "/"))
    × (get (codes "crm") (backends_of (bind_routes table))
        ≡ some (trim_end is_slash (codes "http://crm:9001/")))
unfolding text_compare get text_eq
validated_routes_served_example =
    validated_routes_served table (bind_routes table) (codes "crm") (codes "http://crm:9001/")
      (codes "customers") ((refl, tt), (tt, tt)) table_accepted refl

limited_prefix-clean_example :
    (limited_prefix (codes "/crm/customers") ≡ codes "crm")
    × (limited_prefix (codes "/crm") ≡ [])
    × ((split_path (codes "/crm")).0 ≡ codes "crm")
limited_prefix-clean_example =
    limited_prefix-clean (codes "crm") (codes "customers") crm_IsCleanPrefix
