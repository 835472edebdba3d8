-- ===== src/Auth/Login.antt =====
-- core/src/auth_login.rs: `POST /auth/login`.
use ratewall.Prelude.{
  ℕ, ◌≡◌, ◌≢◌, ◌⊎◌, inl, inr, refl, not, ◌||◌, some, arith, Result, ok, err, if◌then◌else◌,
  Bool-cases, ltb,
}
use ratewall.Prelude.Text.{Text, codes, text_eq, text_eq_iff}
use ratewall.Prelude.Time.{as_secs}
use ratewall.Auth.{Crypto, AuthError, expired, issue_token, verify_token, saturating_add}
use ratewall.Auth.Issue.{CryptoLaws, issue_token-token, token}
use ratewall.Auth.Issue.Judged.{verify_issued}

abbrev pub demo_username : Text
demo_username = codes "demo"

abbrev pub demo_password : Text
demo_password = codes "demo-password"

pub record LoginRequest : Type 0 where
  pub username : Text
  pub password : Text

pub record LoginState (crypto : Crypto) : Type 0 where
  pub signing_key : crypto.SigningKey
  pub issuer : Text
  pub ttl : ℕ

-- The three responses: 200 with the token and its lifetime in seconds, 401, and 500.
pub data Login : Type 0 where
  granted : (token : Text) (expires_in : ℕ) → Login
  invalid_credentials : Login
  not_issued : Login

module _ (crypto : Crypto) where
  abbrev answer : ℕ → Result AuthError Text → Login
  answer ttl (ok token) = granted token (as_secs ttl)
  answer ttl (err e) = not_issued

  unfoldable pub login : LoginState crypto → ℕ → LoginRequest → Login
  login state now payload =
      if not (text_eq payload.username demo_username)
        || not (text_eq payload.password demo_password)
      then invalid_credentials
      else answer state.ttl
          (issue_token crypto state.signing_key state.issuer payload.username now state.ttl)

  module _ (laws : CryptoLaws crypto) (state : LoginState crypto) (now : ℕ)
      (payload : LoginRequest) where
    -- Over crates that keep their laws: the demo credential, and only it, is answered with a
    -- token. That token verifies under the gateway's key and issuer as the demo user until the
    -- announced lifetime is over.
    pub login_lem :
        ((payload.username ≡ demo_username)
          × (payload.password ≡ demo_password)
          × ((token : Text) × (login state now payload ≡ granted token (as_secs state.ttl))
              × ((later : ℕ)
                  → verify_token crypto
                      (crypto.verifying_key state.signing_key)
                      token
                      (some state.issuer)
                      later
                    ≡ (if ltb later (saturating_add now (as_secs state.ttl))
                        then ok demo_username
                        else err expired))))
        ⊎ (((payload.username ≢ demo_username) ⊎ (payload.password ≢ demo_password))
            × (login state now payload ≡ invalid_credentials))
    unfolding login
    login_lem = elim (Bool-cases (text_eq payload.username demo_username)) [
      | inr other ↦ inr (
        inl (λ e. ground (arith, (text_eq_iff payload.username demo_username).1 e)),
        rw other refl,
      )
      | inl user ↦ elim (Bool-cases (text_eq payload.password demo_password)) [
        | inr other ↦ inr (
          inr (λ e. ground (arith, (text_eq_iff payload.password demo_password).1 e)),
          rw user (rw other refl),
        )
        | inl pass ↦
            let e = (text_eq_iff payload.username demo_username).0 user in
            let key = state.signing_key in
            let issued =
              issue_token-token crypto laws key state.issuer demo_username now state.ttl in
            let verifies = verify_issued crypto laws key state.issuer demo_username now state.ttl in
            inl (
              e,
              (text_eq_iff payload.password demo_password).0 pass,
              (
                token crypto laws key state.issuer demo_username now state.ttl,
                rw user (rw pass (rw e (rw issued refl))),
                verifies,
              ),
            )
      ]
    ]
