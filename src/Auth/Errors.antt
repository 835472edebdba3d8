-- ===== src/Auth/Errors.antt =====
-- How the errors of core/src/auth.rs are printed.
use ratewall.Prelude.{◌++◌}
use ratewall.Prelude.Text.{Text, codes}
use ratewall.Auth.{
  AuthError, bad_key_material, malformed_token, bad_header, bad_claims, bad_signature, expired,
  wrong_issuer,
}

-- `Display for AuthError`
unfoldable pub describe : AuthError → Text
describe (bad_key_material text) = codes "bad key material: " ++ text
describe malformed_token = codes "malformed token: expected header.payload.signature"
describe (bad_header text) = codes "bad token header: " ++ text
describe (bad_claims text) = codes "bad token claims: " ++ text
describe bad_signature = codes "signature verification failed"
describe expired = codes "token expired"
describe wrong_issuer = codes "token issuer mismatch"
