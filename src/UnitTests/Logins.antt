-- ===== src/UnitTests/Logins.antt =====
-- `mod tests` of core/src/auth_login.rs. The keys, the clock and axum's JSON extractor are
-- arguments.
use ratewall.Prelude.{
  ℕ, ◌+◌, ◌≡◌, ◌<◌, ◌-◌, ◌^◌, refl, arith, Bool, true, false, Option, none, some,
}
use ratewall.Prelude.Text.{Text, codes, text_eq}
use ratewall.Auth.{Crypto, default_token_ttl, verify_token}
use ratewall.Auth.Issue.{CryptoLaws, issue_token-token}
use ratewall.Auth.Issue.Judged.{verify_issued}
use ratewall.Auth.Login.{
  LoginRequest, LoginState, Login, granted, invalid_credentials, not_issued, login, demo_username,
}
use ratewall.UnitTests.Tokens.{our_issuer, is_subject}

abbrev demo_body : Text
demo_body = codes "{\"username\":\"demo\",\"password\":\"demo-password\"}"

abbrev wrong_body : Text
wrong_body = codes "{\"username\":\"demo\",\"password\":\"nope\"}"

abbrev is_unauthorized : Login → Bool
is_unauthorized invalid_credentials = true
is_unauthorized _ = false

module _ (crypto : Crypto) (json : Text → Option LoginRequest) (key : crypto.SigningKey) where
  abbrev test_state : LoginState crypto
  test_state = record { signing_key = key; issuer = our_issuer; ttl = default_token_ttl }

  -- The token is checked at the instant `later`.
  valid_credentials_yield_verifiable_token : (now later : ℕ) → Bool
  valid_credentials_yield_verifiable_token now later = elim (json demo_body) [
    | none ↦ false
    | some payload ↦ elim (login crypto test_state now payload) [
      | granted token expires_in ↦
          is_subject (codes "demo")
            (verify_token crypto (crypto.verifying_key key) token (some our_issuer) later)
      | invalid_credentials ↦ false
      | not_issued ↦ false
    ]
  ]

  wrong_password_is_401 : (now : ℕ) → Bool
  wrong_password_is_401 now = elim (json wrong_body) [
    | none ↦ false
    | some payload ↦ is_unauthorized (login crypto test_state now payload)
  ]

  wrong_password_passes :
      (now : ℕ)
      → json wrong_body ≡ some (record { username = codes "demo"; password = codes "nope" })
      → wrong_password_is_401 now ≡ true
  unfolding wrong_password_is_401 login text_eq
  wrong_password_passes now parsed = rw (parsed, wrong_password_is_401) refl

  valid_credentials_passes :
      (laws : CryptoLaws crypto) (now later : ℕ)
      → json demo_body ≡ some (record { username = codes "demo"; password = codes "demo-password" })
      → later < now + 900
      → later < 2 ^ 64 - 1
      → valid_credentials_yield_verifiable_token now later ≡ true
  unfolding valid_credentials_yield_verifiable_token login text_eq
  valid_credentials_passes laws now later parsed early small =
      rw (parsed, valid_credentials_yield_verifiable_token)
        (rw (issue_token-token crypto laws key our_issuer demo_username now default_token_ttl) (
          rw (verify_issued crypto laws key our_issuer demo_username now default_token_ttl later)
            (ground arith)))
