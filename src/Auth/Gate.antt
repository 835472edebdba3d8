-- ===== src/Auth/Gate.antt =====
-- core/src/middleware_auth.rs: the bearer gate in front of the proxied routes.
use ratewall.Prelude.{ℕ, ◌≡◌, ◌↔◌, refl, Option, none, some, [], ◌∷◌, arith, Result, ok, err}
use ratewall.Prelude.Text.{Text, codes}
use ratewall.Http.{Http, Request, Response, message, unauthorized, header_text}
use ratewall.Auth.{Crypto, AuthError, bearer_token, verify_token}
use ratewall.Auth.Verify.{IsAuthentic, verify_token_iff}

pub record AuthState (crypto : Crypto) : Type 0 where
  pub verifying_key : crypto.VerifyingKey
  pub trusted_issuer : Option Text

module _ (http : Http) where
  abbrev unauthenticated : Text → Response http
  unauthenticated text = record {
    status = unauthorized;
    headers = (codes "www-authenticate", codes "Bearer") ∷ [];
    body = message text;
  }

  abbrev pub missing_token_response : Response http
  missing_token_response = unauthenticated (codes "missing or malformed bearer token")

  abbrev pub unauthorized_response : Response http
  unauthorized_response = unauthenticated (codes "invalid token")

unfoldable pub presented_token : (http : Http) → Request http → Option Text
presented_token http request =
    bearer_token (header_text http (codes "authorization") request.headers)

module _ (crypto : Crypto) (http : Http) where
  answer : Result AuthError Text → Result (Response http) Text
  answer (ok subject) = ok subject
  answer (err e) = err (unauthorized_response http)

  check_token : AuthState crypto → ℕ → Option Text → Result (Response http) Text
  unfolding answer
  check_token auth now none = err (missing_token_response http)
  check_token auth now (some token) =
      answer (verify_token crypto auth.verifying_key token auth.trusted_issuer now)

  -- `now` is the unix time that the handler reads.
  unfoldable pub check_bearer : AuthState crypto → ℕ → Request http → Result (Response http) Text
  unfolding check_token
  check_bearer auth now request = check_token auth now (presented_token http request)

  token_sound :
      (auth : AuthState crypto) (now : ℕ) (o : Option Text) (subject : Text)
      → check_token auth now o ≡ ok subject
      → (token : Text) × (o ≡ some token)
        × (verify_token crypto auth.verifying_key token auth.trusted_issuer now ≡ ok subject)
  unfolding check_token
  token_sound auth now none subject h = cc
  token_sound auth now (some token) subject h = (token, refl, ground arith)

  token_refused :
      (auth : AuthState crypto) (now : ℕ) (o : Option Text) (r : Response http)
      → check_token auth now o ≡ err r
      → r.status ≡ unauthorized
  unfolding check_token
  token_refused auth now none r h = ground arith
  token_refused auth now (some token) r h = ground arith

  -- The gate lets a request through, as some subject, exactly if it presents a bearer token that is
  -- authentic for that subject under the gate's key and issuer; every other request gets a 401.
  pub check_bearer_iff :
      (auth : AuthState crypto) (now : ℕ) (request : Request http)
      → ((subject : Text)
          → (check_bearer auth now request ≡ ok subject) ↔ (
              (token : Text) × (presented_token http request ≡ some token)
              × IsAuthentic crypto auth.verifying_key token auth.trusted_issuer now subject))
        × ((r : Response http) → check_bearer auth now request ≡ err r → r.status ≡ unauthorized)
  unfolding check_bearer
  check_bearer_iff auth now request = (
    λ subject. (sound subject, complete subject),
    λ r h. token_refused auth now (presented_token http request) r h,
  )
    where
      sound :
          (subject : Text)
          → check_bearer auth now request ≡ ok subject
          → (token : Text) × (presented_token http request ≡ some token)
            × IsAuthentic crypto auth.verifying_key token auth.trusted_issuer now subject
      sound subject h =
          let (token, p, v) = token_sound auth now (presented_token http request) subject h in
          (
            token,
            p,
            (verify_token_iff crypto auth.verifying_key token auth.trusted_issuer now subject).0 v,
          )

      complete :
          (subject : Text)
          → ((token : Text) × (presented_token http request ≡ some token)
              × IsAuthentic crypto auth.verifying_key token auth.trusted_issuer now subject)
          → check_bearer auth now request ≡ ok subject
      complete subject (token, p, a) =
          let v =
            (verify_token_iff crypto auth.verifying_key token auth.trusted_issuer now subject).1
              a in
          rw p (rw v)
