-- ===== src/Mock.antt =====
-- mock-backends/src: the stubs that echo the path of a request. How axum matches and captures
-- `/*path` is a parameter; the listener and the log lines are left out.
pub mod Behind
use ratewall.Prelude.{ℕ, ◌≡◌, ◌≢◌, Option, none, some, [], ◌∷◌}
use ratewall.Prelude.Text.{Text, codes}
use ratewall.Prelude.Text.Split.{Lacks}
use ratewall.Prelude.Table.{or_default}
use ratewall.Http.{ok_200}

-- The name and the port that a binary hands to `serve`.
pub record Service : Type 0 where
  pub name : Text
  pub port : ℕ

abbrev pub crm : Service
crm = record { name = codes "crm"; port = 3000 }

abbrev pub hrm : Service
hrm = record { name = codes "hrm"; port = 3001 }

-- The status and the two fields of the JSON body.
pub record Echo : Type 0 where
  pub status : ℕ
  pub service : Text
  pub path : Text

-- `mock_service` is the environment variable `MOCK_SERVICE`.
pub echo_body : (mock_service : Option Text) → Text → Echo
echo_body mock_service path = record {
  status = ok_200;
  service = or_default [] mock_service;
  path = b'/' ∷ path;
}

abbrev echo_route : Option Text → Option Text → Echo
echo_route mock_service (some path) = echo_body mock_service path
echo_route mock_service none = echo_body mock_service []

-- `serve`: `echo_path` for what `/*path` captures, and `echo_root` otherwise.
pub serve : (capture : Text → Option Text) → Service → Option Text → Text → Echo
unfolding echo_body
serve capture service mock_service path = echo_route mock_service (capture path)

-- What axum documents of `/*path`: the rest of the path without its slash, percent-decoded, and no
-- match for the root.
pub record Captures (capture : Text → Option Text) : Type 0 where
  pub root : capture (b'/' ∷ []) ≡ none
  pub rest : (path : Text) → path ≢ [] → Lacks b'%' path → capture (b'/' ∷ path) ≡ some path
