-- ===== src/Auth/Issue/Judged.antt =====
-- An issued token (core/src/auth.rs) under any key, any issuer, and with other claims.
use ratewall.Prelude.{
  ℕ, ◌≡◌, ◌≢◌, refl, false, Option, none, some, ◌∷◌, ◌++◌, arith, ltb, if◌then◌else◌, Result, ok,
  err, Bool-cases, inl, inr,
}
use ratewall.Prelude.Text.{Text, text_eq, text_eq_iff}
use ratewall.Prelude.Text.Split.{text_eq_refl}
use ratewall.Prelude.Time.{as_secs}
use ratewall.Auth.{
  Crypto, AuthError, Segments, bad_signature, expired, wrong_issuer, saturating_add, check_claims,
  check_signature, issue_token, verify_token,
}
use ratewall.Auth.Shape.{IsSegment, AreSegments, segments_complete}
use ratewall.Auth.Issue.{
  CryptoLaws, header, token, parts, input, claims, exp, issue_token-token, token-parts,
  header_accepted,
}

-- What becomes of a token whose signature is accepted: a configured issuer has to be the token's,
-- and then the instant decides.
abbrev pub verdict : (issuer subject : Text) (end : ℕ) → Option Text → ℕ → Result AuthError Text
verdict issuer subject end none now = if ltb now end then ok subject else err expired
verdict issuer subject end (some trusted) now =
    if text_eq issuer trusted
    then (if ltb now end then ok subject else err expired)
    else err wrong_issuer

module _ (crypto : Crypto) (laws : CryptoLaws crypto) where
  open crypto use {
    SigningKey, VerifyingKey, verifying_key, verify, sign, signature_to_bytes, json_to_vec,
  }
  open laws use {
    decode-encode, from_slice-to_vec, from_slice-to_bytes, document-ne-nil, signature-ne-nil,
    encode-Lacks, verify-sign, iss-claims, exp-claims, sub-claims,
  }

  module _ (key : SigningKey) (issuer subject : Text) (issued ttl : ℕ) where
    abbrev own : Segments
    own = parts crypto laws key issuer subject issued ttl

    abbrev text : Text
    text = input crypto laws key issuer subject issued ttl

    abbrev whole : Text
    whole = token crypto laws key issuer subject issued ttl

    -- The key does not accept the signature of the token.
    abbrev pub Rejects : VerifyingKey → Type 0
    Rejects other = verify other text (sign key text) ≡ false

    signature_judged :
        (other : VerifyingKey)
        → check_signature crypto other own
          ≡ (if verify other text (sign key text) then ok tt else err bad_signature)
    unfolding check_signature
    signature_judged other = ground (
      arith,
      decode-encode (signature_to_bytes (sign key text)),
      from_slice-to_bytes (sign key text),
    )

    claims_judged :
        (trusted : Option Text) (now : ℕ)
        → check_claims crypto own.claims trusted now
          ≡ verdict issuer subject (exp crypto laws key issuer subject issued ttl) trusted now
    unfolding check_claims
    claims_judged none now =
        let document = claims crypto laws key issuer subject issued ttl in
        let end = exp crypto laws key issuer subject issued ttl in
        ground (
          arith,
          decode-encode (json_to_vec document),
          from_slice-to_vec document,
          exp-claims subject issuer issued end,
          sub-claims subject issuer issued end,
        )
    claims_judged (some trusted) now =
        let document = claims crypto laws key issuer subject issued ttl in
        let end = exp crypto laws key issuer subject issued ttl in
        ground (
          arith,
          decode-encode (json_to_vec document),
          from_slice-to_vec document,
          iss-claims subject issuer issued end,
          exp-claims subject issuer issued end,
          sub-claims subject issuer issued end,
        )

    pub verify_judged :
        (other : VerifyingKey) (trusted : Option Text) (now : ℕ)
        → verify_token crypto other whole trusted now ≡ (
            if verify other text (sign key text)
            then verdict issuer subject (exp crypto laws key issuer subject issued ttl) trusted now
            else err bad_signature)
    unfolding verify_token
    verify_judged other trusted now = rw (token-parts crypto laws key issuer subject issued ttl) (
        rw (header_accepted crypto laws key issuer subject issued ttl)
          (elim (Bool-cases (verify other text (sign key text))) [
            | inl accepts ↦ rw (signature_judged other) (rw accepts (claims_judged trusted now))
            | inr rejects ↦ rw (signature_judged other) (rw rejects refl)
          ]))

    -- Whatever is trusted, under its own key a token is judged by its claims.
    pub verify_own_key :
        (trusted : Option Text) (now : ℕ)
        → verify_token crypto (verifying_key key) whole trusted now
          ≡ verdict issuer subject (exp crypto laws key issuer subject issued ttl) trusted now
    verify_own_key trusted now =
        rw (verify_judged (verifying_key key) trusted now) (rw (verify-sign key text) refl)

    -- The same where the trusted issuer is the token's.
    pub verify_issued :
        (now : ℕ)
        → verify_token crypto (verifying_key key) whole (some issuer) now ≡ (
            if ltb now (exp crypto laws key issuer subject issued ttl)
            then ok subject
            else err expired)
    verify_issued now = rw (verify_own_key (some issuer) now) (rw (text_eq_refl issuer) refl)

    -- A key that does not accept the signature refuses the token, whatever it claims.
    pub verify_other_key :
        (other : VerifyingKey) (trusted : Option Text) (now : ℕ)
        → Rejects other
        → verify_token crypto other whole trusted now ≡ err bad_signature
    verify_other_key other trusted now rejects =
        rw (verify_judged other trusted now) (rw rejects refl)

    -- Where another issuer is trusted the token is refused, expired or not.
    pub verify_other_issuer :
        (trusted : Text) (now : ℕ)
        → issuer ≢ trusted
        → verify_token crypto (verifying_key key) whole (some trusted) now ≡ err wrong_issuer
    verify_other_issuer trusted now h =
        rw (verify_own_key (some trusted) now) (ground (arith, text_eq_iff issuer trusted))

    -- A token whose claims are replaced is refused, unless the signature of the old claims is
    -- accepted for the new ones.
    pub verify_other_claims :
        (forged : Text) (trusted : Option Text) (now : ℕ)
        → IsSegment forged
        → verify (verifying_key key) (own.header ++ b'.' ∷ forged) (sign key text) ≡ false
        → verify_token crypto
            (verifying_key key)
            (own.header ++ b'.' ∷ (forged ++ b'.' ∷ own.signature))
            trusted
            now
          ≡ err bad_signature
    unfolding verify_token check_signature
    verify_other_claims forged trusted now segment rejected =
        let signed = sign key text in
        let document = header crypto laws key issuer subject issued ttl in
        let replaced = record own { claims = forged } in
        let shape : AreSegments (own.header ++ b'.' ∷ (forged ++ b'.' ∷ own.signature)) replaced =
          record {
            joined = refl;
            header = (document-ne-nil document, encode-Lacks (json_to_vec document));
            claims = segment;
            signature = (signature-ne-nil signed, encode-Lacks (signature_to_bytes signed));
          } in
        rw (segments_complete _ replaced shape) (
          rw (header_accepted crypto laws key issuer subject issued ttl) (
            rw (decode-encode (signature_to_bytes signed), from_slice-to_bytes signed, rejected)
              refl))

  -- Over crates that keep their laws, `issue_token` gives a token, and every key judges it alike.
  -- A key that does not accept the signature over the signing input refuses it as
  -- `bad_signature`, whatever is trusted and whenever. A key that does, as the matching key,
  -- refuses it as `wrong_issuer` if another issuer is trusted; if none is, or the token's, it
  -- returns the subject strictly before the saturated sum of the instant of issue and the lifetime
  -- in seconds, and `expired` from then on.
  pub issue_token-judged :
      (key : SigningKey) (issuer subject : Text) (issued ttl : ℕ)
      → (input token : Text) × (issue_token crypto key issuer subject issued ttl ≡ ok token)
        × ((other : VerifyingKey) (trusted : Option Text) (now : ℕ)
            → verify_token crypto other token trusted now ≡ (
                if verify other input (sign key input)
                then verdict issuer subject (saturating_add issued (as_secs ttl)) trusted now
                else err bad_signature))
        × ((trusted : Option Text) (now : ℕ)
            → verify_token crypto (verifying_key key) token trusted now
              ≡ verdict issuer subject (saturating_add issued (as_secs ttl)) trusted now)
  issue_token-judged key issuer subject issued ttl = (
    text key issuer subject issued ttl,
    whole key issuer subject issued ttl,
    issue_token-token crypto laws key issuer subject issued ttl,
    verify_judged key issuer subject issued ttl,
    verify_own_key key issuer subject issued ttl,
  )
