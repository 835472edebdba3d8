-- ===== src/Auth/Presented.antt =====
-- An issued token in the `authorization` header (core/src/auth.rs, core/src/middleware_auth.rs).
use ratewall.Prelude.{ℕ, ◌≡◌, ◌≢◌, refl, subst, false, some, [], ◌∷◌, ◌++◌, arith, All-append, ok}
use ratewall.Prelude.Text.{Text, codes, is_whitespace}
use ratewall.Http.{Http, Request, header_text}
use ratewall.Prelude.Time.{as_secs}
use ratewall.Auth.{Crypto, token_alg, saturating_add, issue_token}
use ratewall.Auth.Bearer.{IsSolid, bearer_token-append}
use ratewall.Auth.Gate.{presented_token}

-- Base64 gives no white space.
abbrev pub PrintsSolid : Crypto → Type 0
PrintsSolid crypto = (b : crypto.Bytes) → IsSolid (crypto.encode b)

dot-IsSolid : (s t : Text) → IsSolid s → IsSolid t → IsSolid (s ++ (codes "." ++ t))
unfolding is_whitespace
dot-IsSolid s t h k = All-append (λ c. is_whitespace c ≡ false) s (codes "." ++ t) h (refl, k)

dot-ne-nil : (s t : Text) → s ++ b'.' ∷ t ≢ []
dot-ne-nil [] t = cc
dot-ne-nil (c ∷ s) t = cc

module _ (crypto : Crypto) (solid : PrintsSolid crypto) where
  issued-IsSolid :
      (key : crypto.SigningKey) (issuer subject : Text) (now ttl : ℕ) (token : Text)
      → issue_token crypto key issuer subject now ttl ≡ ok token
      → (token ≢ []) × IsSolid token
  unfolding issue_token
  issued-IsSolid key issuer subject now ttl token h =
      let header =
        crypto.encode (crypto.json_to_vec (crypto.json_header token_alg (codes "JWT"))) in
      let claims = crypto.encode (
        crypto.json_to_vec
          (crypto.json_claims subject issuer now (saturating_add now (as_secs ttl)))) in
      let input = header ++ (codes "." ++ claims) in
      let signature = crypto.encode (crypto.signature_to_bytes (crypto.sign key input)) in
      let same : input ++ (codes "." ++ signature) ≡ token = ground arith in
      subst (λ t. (t ≢ []) × IsSolid t) same
        (
          dot-ne-nil input signature,
          dot-IsSolid input signature (dot-IsSolid header claims (solid _) (solid _)) (solid _),
        )

  -- The gate reads an issued token back from the header that carries it, and verifies it.
  pub issued-presented :
      (http : Http) (key : crypto.SigningKey) (issuer subject : Text) (now ttl : ℕ) (token : Text)
      (request : Request http)
      → issue_token crypto key issuer subject now ttl ≡ ok token
      → header_text http (codes "authorization") request.headers ≡ some (codes "Bearer " ++ token)
      → presented_token http request ≡ some token
  unfolding presented_token
  issued-presented http key issuer subject now ttl token request issued carried =
      let (ne, is_solid) = issued-IsSolid key issuer subject now ttl token issued in
      rw carried (bearer_token-append token ne is_solid)
