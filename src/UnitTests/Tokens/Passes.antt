-- ===== src/UnitTests/Tokens/Passes.antt =====
-- Runs of the tests of core/src/auth.rs on tokens, over crates that keep their laws.
use ratewall.Prelude.{
  subst, sym, ap, ◌∙◌, false, ◌∷◌, ◌≡◌, ◌≢◌, refl, true, none, some, [], ◌++◌, arith, ok, err,
}
use ratewall.Prelude.Text.{Text, codes, text_eq, strip_prefix, trim, any_char, split}
use ratewall.Auth.{
  Crypto, verify_token, bearer_token, default_token_ttl, token_alg, segments, check_header,
  check_signature, check_claims,
}
use ratewall.Auth.Issue.{CryptoLaws, token, parts, input, claims, token-parts, issue_token-token}
use ratewall.Auth.Issue.Judged.{
  verify_issued, verify_other_claims, Rejects, verify_other_key, verify_other_issuer,
}
use ratewall.Auth.{Segments, malformed_token}
use ratewall.Auth.Shape.{segments_complete, segments_shape}
use ratewall.Prelude.Text.Split.{Lacks, split-append, split_of_Lacks}
use mathlib.Core.List.{append_assoc}
use ratewall.UnitTests.Tokens.{
  issued_token_verifies_round_trip, wrong_key_is_rejected, expired_token_is_rejected,
  wrong_issuer_is_rejected, alg_none_is_rejected, garbage_tokens_are_rejected, tampered, refuses,
  tampered_payload_is_rejected, token_missing_sub_is_rejected, bearer_extraction_is_strict,
  our_issuer, demo_user,
}

bearer_test_passes : bearer_extraction_is_strict ≡ true
unfolding bearer_extraction_is_strict bearer_token text_eq strip_prefix trim any_char
bearer_test_passes = refl

module _ (crypto : Crypto) (laws : CryptoLaws crypto) (key : crypto.SigningKey) where
  round_trip_passes : issued_token_verifies_round_trip crypto key ≡ true
  unfolding issued_token_verifies_round_trip text_eq
  round_trip_passes =
      rw (issue_token-token crypto laws key our_issuer demo_user 1_700_000_000 default_token_ttl) (
        rw
          (verify_issued crypto laws key our_issuer demo_user 1_700_000_000 default_token_ttl
            1_700_000_000)
          refl)

  replaced :
      (flip : crypto.Bytes → crypto.Bytes) (own : Segments) (bytes : crypto.Bytes)
      → crypto.decode own.claims ≡ some bytes
      → tampered crypto flip (own.header ∷ own.claims ∷ own.signature ∷ [])
        ≡ some (own.header ++ b'.' ∷ (crypto.encode (flip bytes) ++ b'.' ∷ own.signature))
  unfolding tampered
  replaced flip own bytes decoded = rw (decoded, tampered) refl

  -- The signature is not accepted for the changed claims, which are still some claims.
  tampered_passes :
      (flip : crypto.Bytes → crypto.Bytes)
      → let own = parts crypto laws key our_issuer demo_user 1_700_000_000 default_token_ttl in
        let text = input crypto laws key our_issuer demo_user 1_700_000_000 default_token_ttl in
        let changed = crypto.encode (
          flip (
            crypto.json_to_vec
              (claims crypto laws key our_issuer demo_user 1_700_000_000 default_token_ttl))) in
        changed ≢ []
        → crypto.verify
            (crypto.verifying_key key)
            (own.header ++ b'.' ∷ changed)
            (crypto.sign key text)
          ≡ false
        → tampered_payload_is_rejected crypto flip key ≡ true
  unfolding tampered_payload_is_rejected
  tampered_passes flip ne rejected =
      let own = parts crypto laws key our_issuer demo_user 1_700_000_000 default_token_ttl in
      let bytes =
        crypto.json_to_vec
          (claims crypto laws key our_issuer demo_user 1_700_000_000 default_token_ttl) in
      let whole = token crypto laws key our_issuer demo_user 1_700_000_000 default_token_ttl in
      let split_whole =
        (segments_shape whole own
          (token-parts crypto laws key our_issuer demo_user 1_700_000_000 default_token_ttl)).0 in
      rw (issue_token-token crypto laws key our_issuer demo_user 1_700_000_000 default_token_ttl) (
        subst (λ t. refuses crypto key t ≡ true)
          (sym (
            ap (tampered crypto flip) split_whole
            ∙ replaced flip own bytes (laws.decode-encode bytes)))
          (rw
            (verify_other_claims crypto laws key our_issuer demo_user 1_700_000_000
              default_token_ttl (crypto.encode (flip bytes)) none 1_700_000_000
              (ne, laws.encode-Lacks (flip bytes)) rejected)
            refl))

  wrong_key_passes :
      (verifier : crypto.SigningKey)
      → Rejects crypto laws key our_issuer demo_user 1_700_000_000 default_token_ttl
          (crypto.verifying_key verifier)
      → wrong_key_is_rejected crypto key verifier ≡ true
  unfolding wrong_key_is_rejected
  wrong_key_passes verifier h =
      rw (issue_token-token crypto laws key our_issuer demo_user 1_700_000_000 default_token_ttl) (
        rw
          (verify_other_key crypto laws key our_issuer demo_user 1_700_000_000 default_token_ttl
            (crypto.verifying_key verifier) none 1_700_000_000 h)
          refl)

  expired_passes : expired_token_is_rejected crypto key ≡ true
  unfolding expired_token_is_rejected
  expired_passes =
      rw (issue_token-token crypto laws key our_issuer demo_user 1_000 default_token_ttl)
        (rw (verify_issued crypto laws key our_issuer demo_user 1_000 default_token_ttl 1_900) refl)

  issuers_differ : codes "not-ratewall" ≢ our_issuer
  issuers_differ = cc

  wrong_issuer_passes : wrong_issuer_is_rejected crypto key ≡ true
  unfolding wrong_issuer_is_rejected
  wrong_issuer_passes =
      rw
        (issue_token-token crypto laws key (codes "not-ratewall") demo_user 1_700_000_000
          default_token_ttl)
        (rw
          (verify_other_issuer crypto laws key (codes "not-ratewall") demo_user 1_700_000_000
            default_token_ttl our_issuer 1_700_000_000 issuers_differ)
          refl)

  -- A token without a signature has the empty text for its third segment.
  unsigned :
      (h c : Text)
      → Lacks b'.' h
      → Lacks b'.' c
      → segments (h ++ (codes "." ++ (c ++ codes "."))) ≡ err malformed_token
  unfolding segments
  unsigned h c hl cl =
      rw (split-append b'.' h (c ++ codes ".") hl)
        (rw (split-append b'.' c [] cl) (rw (split_of_Lacks b'.' [] tt) (ground arith)))

  alg_none_passes :
      (header_bytes claims_bytes : crypto.Bytes)
      → alg_none_is_rejected crypto key header_bytes claims_bytes ≡ true
  unfolding alg_none_is_rejected verify_token
  alg_none_passes header_bytes claims_bytes =
      rw
        (unsigned (crypto.encode header_bytes) (crypto.encode claims_bytes)
          (laws.encode-Lacks header_bytes) (laws.encode-Lacks claims_bytes))
        refl

  -- One character is no base64.
  garbage_passes : crypto.decode (codes "x") ≡ none → garbage_tokens_are_rejected crypto key ≡ true
  unfolding garbage_tokens_are_rejected verify_token segments check_header split
  garbage_passes h = rw h refl

  -- The documents of the last test: a header with the right algorithm, claims with an issuer and an
  -- expiry and no subject.
  record LacksSub (header_bytes claims_bytes : crypto.Bytes) : Type 0 where
    header : crypto.Json
    header_read : crypto.json_from_slice header_bytes ≡ ok header
    alg : crypto.get_str (codes "alg") header ≡ some token_alg
    claims : crypto.Json
    claims_read : crypto.json_from_slice claims_bytes ≡ ok claims
    iss : crypto.get_str (codes "iss") claims ≡ some our_issuer
    exp : crypto.get_u64 (codes "exp") claims ≡ some 9_999_999_999
    sub : crypto.get_str (codes "sub") claims ≡ none
    header-ne-nil : crypto.encode header_bytes ≢ []
    claims-ne-nil : crypto.encode claims_bytes ≢ []

  missing_sub_passes :
      (header_bytes claims_bytes : crypto.Bytes)
      → LacksSub header_bytes claims_bytes
      → token_missing_sub_is_rejected crypto key header_bytes claims_bytes ≡ true
  unfolding token_missing_sub_is_rejected verify_token check_header check_signature check_claims
      text_eq
  missing_sub_passes header_bytes claims_bytes documents =
      let input = crypto.encode header_bytes ++ (codes "." ++ crypto.encode claims_bytes) in
      let signature = crypto.signature_to_bytes (crypto.sign key input) in
      let parts : Segments = record {
        header = crypto.encode header_bytes;
        claims = crypto.encode claims_bytes;
        signature = crypto.encode signature;
      } in
      rw
        (segments_complete (input ++ (codes "." ++ crypto.encode signature)) parts (record {
          joined = append_assoc (crypto.encode header_bytes) _ _;
          header = (documents.header-ne-nil, laws.encode-Lacks header_bytes);
          claims = (documents.claims-ne-nil, laws.encode-Lacks claims_bytes);
          signature = (laws.signature-ne-nil (crypto.sign key input), laws.encode-Lacks signature);
        }))
        (rw (laws.decode-encode header_bytes, documents.header_read, documents.alg)
          (rw
            (
              laws.decode-encode signature,
              laws.from_slice-to_bytes (crypto.sign key input),
              laws.verify-sign key input,
            )
            (rw
              (
                laws.decode-encode claims_bytes,
                documents.claims_read,
                documents.iss,
                documents.exp,
                documents.sub,
              )
              refl)))
