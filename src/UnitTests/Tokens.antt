-- ===== src/UnitTests/Tokens.antt =====
-- `mod tests` of core/src/auth.rs on tokens and on the bearer header. The keys that a test
-- generates are its arguments, and so are the bytes of the documents that it writes by hand.
pub mod Passes
use ratewall.Prelude.{
  ℕ, ◌+◌, Bool, true, false, not, ◌&&◌, Option, none, some, List, [], ◌∷◌, ◌++◌, all, Result, ok,
  err,
}
use ratewall.Prelude.Text.{Text, codes, text_eq, split}
use ratewall.Auth.{
  Crypto, AuthError, bad_claims, bad_signature, expired, wrong_issuer, default_token_ttl,
  verify_token, issue_token, bearer_token,
}

-- `expect("issue")`
abbrev pub issued {ℓ} : {A : Type ℓ} → Result AuthError A → (A → Bool) → Bool
issued (ok a) holds = holds a
issued (err e) holds = false

abbrev pub is_err {ℓ} : {A : Type ℓ} → Result AuthError A → Bool
is_err (ok a) = false
is_err (err e) = true

abbrev pub is_subject : Text → Result AuthError Text → Bool
is_subject expected (ok subject) = text_eq subject expected
is_subject expected (err e) = false

-- `Err(AuthError::BadSignature)` and the other errors that the tests expect.
abbrev pub is_bad_signature : Result AuthError Text → Bool
is_bad_signature (err bad_signature) = true
is_bad_signature _ = false

abbrev pub is_expired : Result AuthError Text → Bool
is_expired (err expired) = true
is_expired _ = false

abbrev pub is_wrong_issuer : Result AuthError Text → Bool
is_wrong_issuer (err wrong_issuer) = true
is_wrong_issuer _ = false

abbrev pub is_bad_claims : Result AuthError Text → Bool
is_bad_claims (err (bad_claims message)) = true
is_bad_claims _ = false

abbrev pub our_issuer : Text
our_issuer = codes "ratewall"

abbrev pub demo_user : Text
demo_user = codes "demo-user"

module _ (crypto : Crypto) where
  open crypto use {
    SigningKey, VerifyingKey, Bytes, verifying_key, sign, signature_to_bytes, encode, decode,
  }

  unfoldable pub issued_token_verifies_round_trip : SigningKey → Bool
  issued_token_verifies_round_trip key =
      issued (issue_token crypto key our_issuer demo_user 1_700_000_000 default_token_ttl) λ token.
        is_subject demo_user
          (verify_token crypto (verifying_key key) token (some our_issuer) 1_700_000_000)

  -- `parts.join(".")` after a change of the bytes of `parts[1]`; none is a failed `unwrap`.
  unfoldable pub tampered : (Bytes → Bytes) → List Text → Option Text
  tampered change (header ∷ claims ∷ signature ∷ []) = elim (decode claims) [
    | none ↦ none
    | some bytes ↦
        some (header ++ (codes "." ++ (encode (change bytes) ++ (codes "." ++ signature))))
  ]
  tampered change _ = none

  abbrev pub refuses : SigningKey → Option Text → Bool
  refuses key none = false
  refuses key (some changed) =
      is_bad_signature (verify_token crypto (verifying_key key) changed none 1_700_000_000)

  -- `flip` flips the lowest bit of every byte.
  unfoldable pub tampered_payload_is_rejected : (flip : Bytes → Bytes) → SigningKey → Bool
  tampered_payload_is_rejected flip key =
      issued (issue_token crypto key our_issuer demo_user 1_700_000_000 default_token_ttl)
        λ token. refuses key (tampered flip (split b'.' token))

  unfoldable pub wrong_key_is_rejected : (signer verifier : SigningKey) → Bool
  wrong_key_is_rejected signer verifier =
      issued (issue_token crypto signer our_issuer demo_user 1_700_000_000 default_token_ttl)
        λ token.
          is_bad_signature (verify_token crypto (verifying_key verifier) token none 1_700_000_000)

  unfoldable pub expired_token_is_rejected : SigningKey → Bool
  expired_token_is_rejected key =
      issued (issue_token crypto key our_issuer demo_user 1_000 default_token_ttl) λ token.
        is_expired (verify_token crypto (verifying_key key) token (some our_issuer) (1_000 + 900))

  unfoldable pub wrong_issuer_is_rejected : SigningKey → Bool
  wrong_issuer_is_rejected key =
      issued
        (issue_token crypto key (codes "not-ratewall") demo_user 1_700_000_000 default_token_ttl)
        λ token.
          is_wrong_issuer
            (verify_token crypto (verifying_key key) token (some our_issuer) 1_700_000_000)

  unfoldable pub alg_none_is_rejected : SigningKey → (header_bytes claims_bytes : Bytes) → Bool
  alg_none_is_rejected key header_bytes claims_bytes =
      let header = encode header_bytes in
      let claims = encode claims_bytes in
      is_err (
        verify_token crypto (verifying_key key) (header ++ (codes "." ++ (claims ++ codes ".")))
          none 1)

  unfoldable pub garbage_tokens_are_rejected : SigningKey → Bool
  garbage_tokens_are_rejected key =
      all (λ bad. is_err (verify_token crypto (verifying_key key) bad none 1))
        (codes "" ∷ codes "abc" ∷ codes "a.b" ∷ codes "a.b.c.d" ∷ codes "..." ∷ codes "x.y.z" ∷ [])

  unfoldable pub token_missing_sub_is_rejected :
      SigningKey → (header_bytes claims_bytes : Bytes) → Bool
  token_missing_sub_is_rejected key header_bytes claims_bytes =
      let signing_input = encode header_bytes ++ (codes "." ++ encode claims_bytes) in
      let sig = sign key signing_input in
      let token = signing_input ++ (codes "." ++ encode (signature_to_bytes sig)) in
      is_bad_claims (verify_token crypto (verifying_key key) token (some our_issuer) 1)

-- `bearer_token(value) == expected`
abbrev extracts : Option Text → Option Text → Bool
extracts value expected = elim (bearer_token value) [
  | none ↦ elim expected [ none ↦ true | some e ↦ false ]
  | some token ↦ elim expected [ none ↦ false | some e ↦ text_eq token e ]
]

unfoldable pub bearer_extraction_is_strict : Bool
bearer_extraction_is_strict =
    extracts (some (codes "Bearer tok123")) (some (codes "tok123"))
    && extracts (some (codes "bearer tok123")) none
    && extracts (some (codes "Bearer ")) none
    && extracts (some (codes "Bearer a b")) none
    && extracts (some (codes "Basic abc")) none
    && extracts none none
