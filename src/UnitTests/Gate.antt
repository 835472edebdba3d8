-- ===== src/UnitTests/Gate.antt =====
-- `mod tests` of core/src/middleware_auth.rs. Keys, the instant that a test reads and the empty
-- body are arguments.
pub mod Passes
use ratewall.Prelude.{
  ℕ, Bool, true, false, ◌&&◌, ◌||◌, ◌==◌, Option, none, some, List, [], ◌∷◌, ◌++◌, Result, ok, err,
}
use ratewall.Prelude.Text.{Text, codes, starts_with}
use ratewall.Http.{Http, HeaderMap, Request, Response, unauthorized, header_text}
use ratewall.Auth.{Crypto, default_token_ttl, issue_token}
use ratewall.Auth.Gate.{AuthState, check_bearer}
use ratewall.UnitTests.Tokens.{issued, our_issuer, demo_user}

-- `str::contains`
unfoldable pub contains : Text → Text → Bool
contains part [] = starts_with part []
contains part (c ∷ s) = let later = contains part s in starts_with part (c ∷ s) || later

abbrev some_text : (Text → Bool) → Option Text → Bool
some_text holds none = false
some_text holds (some text) = holds text

module _ (crypto : Crypto) (http : Http) (empty : http.Body) where
  open crypto use {SigningKey, verifying_key}

  -- `AxumRequest::get("/protected")`
  abbrev pub get_protected : HeaderMap → Request http
  get_protected headers = record {
    method = codes "GET";
    path = codes "/protected";
    query = none;
    headers = headers;
    body = empty;
  }

  -- The same with an `authorization` header: `unwrap` fails where the value is not accepted.
  unfoldable pub with_authorization : Text → (Request http → Bool) → Bool
  with_authorization value holds = elim (http.value_from_str value) [
    | none ↦ false
    | some v ↦ holds (get_protected ((codes "authorization", v) ∷ []))
  ]

  abbrev pub auth_state : SigningKey → Option Text → AuthState crypto
  auth_state key issuer = record { verifying_key = verifying_key key; trusted_issuer = issuer }

  abbrev pub is_refused {ℓ} : {A : Type ℓ} → Result (Response http) A → Bool
  is_refused (ok a) = false
  is_refused (err response) = true

  unfoldable pub missing_token_is_401 : SigningKey → (now : ℕ) → Bool
  unfolding contains
  missing_token_is_401 key now =
      elim (check_bearer crypto http (auth_state key (some our_issuer)) now (get_protected [])) [
        | ok subject ↦ false
        | err response ↦
            response.status == unauthorized
            && some_text (contains (codes "Bearer"))
                (header_text http (codes "www-authenticate") response.headers)
      ]

  unfoldable pub valid_token_passes_through : SigningKey → (issued_at now : ℕ) → Bool
  valid_token_passes_through key issued_at now =
      issued (issue_token crypto key our_issuer demo_user issued_at default_token_ttl) λ token.
        with_authorization (codes "Bearer " ++ token) λ request.
          elim (check_bearer crypto http (auth_state key (some our_issuer)) now request) [
            | ok subject ↦ true
            | err response ↦ false
          ]

  unfoldable pub expired_token_is_401 : SigningKey → (now : ℕ) → Bool
  expired_token_is_401 key now =
      issued (issue_token crypto key our_issuer demo_user 1_000 default_token_ttl) λ token.
        with_authorization (codes "Bearer " ++ token) λ request.
          is_refused (check_bearer crypto http (auth_state key (some our_issuer)) now request)

  unfoldable pub signed_by_other_key_is_401 :
      (signer verifier : SigningKey) (issued_at now : ℕ) → Bool
  signed_by_other_key_is_401 signer verifier issued_at now =
      issued (issue_token crypto signer our_issuer demo_user issued_at default_token_ttl) λ token.
        with_authorization (codes "Bearer " ++ token) λ request.
          is_refused (check_bearer crypto http (auth_state verifier (some our_issuer)) now request)

  unfoldable pub wrong_scheme_header_is_401 : SigningKey → (now : ℕ) → Bool
  wrong_scheme_header_is_401 key now = with_authorization (codes "Basic dXNlcjpwYXNz") λ request.
      is_refused (check_bearer crypto http (auth_state key (some our_issuer)) now request)
