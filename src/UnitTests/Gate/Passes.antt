-- ===== src/UnitTests/Gate/Passes.antt =====
-- Runs of the tests of core/src/middleware_auth.rs, over crates that keep their laws and header
-- values that read back.
use ratewall.Prelude.{
  ℕ, ◌+◌, ◌≡◌, ◌<◌, ◌≤◌, ◌-◌, ◌^◌, Bool, List, refl, true, some, [], ◌∷◌, ◌++◌, arith,
}
use ratewall.Prelude.Text.{Text, codes, text_eq, starts_with, strip_prefix}
use ratewall.Prelude.Table.{get}
use ratewall.Http.{Http, Request, header_text}
use ratewall.Auth.{Crypto, default_token_ttl, bearer_token}
use ratewall.Auth.Issue.{CryptoLaws, issue_token-token, token}
use ratewall.Auth.Issue.Judged.{verify_issued, Rejects, verify_other_key}
use ratewall.Auth.Presented.{PrintsSolid, issued-presented}
use ratewall.Auth.Gate.{presented_token, check_bearer}
use ratewall.UnitTests.Tokens.{our_issuer, demo_user}
use ratewall.UnitTests.Gate.{
  contains, with_authorization, get_protected, missing_token_is_401, valid_token_passes_through,
  expired_token_is_401, signed_by_other_key_is_401, wrong_scheme_header_is_401,
}

-- A text that is accepted as a header value and reads back.
record Carries (http : Http) (text : Text) : Type 0 where
  value : List ℕ
  accepted : http.value_from_str text ≡ some value
  read : http.to_str value ≡ some text

module _ (crypto : Crypto) (http : Http) (empty : http.Body) where
  missing_token_passes :
      (key : crypto.SigningKey) (now : ℕ)
      → http.to_str (codes "Bearer") ≡ some (codes "Bearer")
      → missing_token_is_401 crypto http empty key now ≡ true
  unfolding missing_token_is_401 check_bearer presented_token bearer_token header_text contains
      starts_with text_eq get
  missing_token_passes key now reads = rw reads refl

  with_authorization-get_protected :
      {text : Text} (carries : Carries http text) (holds : Request http → Bool)
      → with_authorization crypto http empty text holds
        ≡ holds (get_protected crypto http empty ((codes "authorization", carries.value) ∷ []))
  unfolding with_authorization
  with_authorization-get_protected carries holds = rw (carries.accepted, with_authorization) refl

  wrong_scheme_passes :
      (key : crypto.SigningKey) (now : ℕ)
      → Carries http (codes "Basic dXNlcjpwYXNz")
      → wrong_scheme_header_is_401 crypto http empty key now ≡ true
  unfolding wrong_scheme_header_is_401 check_bearer presented_token bearer_token header_text
      strip_prefix text_eq get
  wrong_scheme_passes key now carries =
      rw (with_authorization-get_protected carries _) (rw carries.read refl)

  module _ (laws : CryptoLaws crypto) (solid : PrintsSolid crypto) (signer : crypto.SigningKey)
      (at : ℕ)
      (carries : Carries http (
        codes "Bearer "
        ++ token crypto laws signer our_issuer demo_user at default_token_ttl)) where
    abbrev carrying : Request http
    carrying = get_protected crypto http empty ((codes "authorization", carries.value) ∷ [])

    carried :
        header_text http (codes "authorization") carrying.headers
        ≡ some
            (codes "Bearer " ++ token crypto laws signer our_issuer demo_user at default_token_ttl)
    unfolding header_text text_eq get
    carried = carries.read

    presented :
        presented_token http carrying
        ≡ some (token crypto laws signer our_issuer demo_user at default_token_ttl)
    presented =
        issued-presented crypto solid http signer our_issuer demo_user at default_token_ttl _
          carrying (issue_token-token crypto laws signer our_issuer demo_user at default_token_ttl)
          carried

    valid_token_passes :
        (now : ℕ)
        → now < at + 900
        → now < 2 ^ 64 - 1
        → valid_token_passes_through crypto http empty signer at now ≡ true
    unfolding valid_token_passes_through check_bearer
    valid_token_passes now early small =
        rw (issue_token-token crypto laws signer our_issuer demo_user at default_token_ttl) (
          rw (with_authorization-get_protected carries _) (
            rw presented (
              rw (verify_issued crypto laws signer our_issuer demo_user at default_token_ttl now)
                (ground arith))))

    other_key_passes :
        (verifier : crypto.SigningKey) (now : ℕ)
        → Rejects crypto laws signer our_issuer demo_user at default_token_ttl
            (crypto.verifying_key verifier)
        → signed_by_other_key_is_401 crypto http empty signer verifier at now ≡ true
    unfolding signed_by_other_key_is_401 check_bearer
    other_key_passes verifier now rejects =
        rw (issue_token-token crypto laws signer our_issuer demo_user at default_token_ttl) (
          rw (with_authorization-get_protected carries _) (
            rw presented (
              rw
                (verify_other_key crypto laws signer our_issuer demo_user at default_token_ttl
                  (crypto.verifying_key verifier) (some our_issuer) now rejects)
                refl)))

  expired_passes :
      (laws : CryptoLaws crypto)
      → PrintsSolid crypto
      → (key : crypto.SigningKey) (now : ℕ)
      → Carries http
          (codes "Bearer " ++ token crypto laws key our_issuer demo_user 1_000 default_token_ttl)
      → 1_900 ≤ now
      → expired_token_is_401 crypto http empty key now ≡ true
  unfolding expired_token_is_401 check_bearer
  expired_passes laws solid key now carries late =
      rw (issue_token-token crypto laws key our_issuer demo_user 1_000 default_token_ttl) (
        rw (with_authorization-get_protected carries _) (
          rw (presented laws solid key 1_000 carries) (
            rw (verify_issued crypto laws key our_issuer demo_user 1_000 default_token_ttl now)
              (ground arith))))
