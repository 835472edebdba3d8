-- ===== src/Auth/Issue.antt =====
-- `issue_token` against `verify_token` (core/src/auth.rs), over crates that keep their laws.
pub mod Judged
use ratewall.Prelude.{
  ℕ, ◌≡◌, ◌≢◌, refl, true, some, [], ◌∷◌, ◌++◌, arith, ltb, if◌then◌else◌, ok, err,
}
use ratewall.Prelude.Text.{Text, codes}
use mathlib.Core.List.{append_assoc}
use ratewall.Prelude.Text.Split.{Lacks, text_eq_refl}
use ratewall.Prelude.Time.{as_secs}
use ratewall.Auth.{
  Crypto, Segments, expired, token_alg, saturating_add, segments, issue_token, verify_token,
  check_claims, check_header, check_signature,
}
use ratewall.Auth.Shape.{segments_complete}

-- What the crates document: decoding and parsing undo encoding and printing, base64 has no dot and
-- is empty for no bytes only, a key's signature is valid under it, and the fields of the two
-- documents read back.
pub record CryptoLaws (crypto : Crypto) : Type 0 where
  pub decode-encode : (b : crypto.Bytes) → crypto.decode (crypto.encode b) ≡ some b
  pub encode-Lacks : (b : crypto.Bytes) → Lacks b'.' (crypto.encode b)
  pub document-ne-nil : (j : crypto.Json) → crypto.encode (crypto.json_to_vec j) ≢ []
  pub signature-ne-nil : (s : crypto.Signature) → crypto.encode (crypto.signature_to_bytes s) ≢ []
  pub from_slice-to_vec : (j : crypto.Json) → crypto.json_from_slice (crypto.json_to_vec j) ≡ ok j
  pub from_slice-to_bytes :
      (s : crypto.Signature) → crypto.signature_from_slice (crypto.signature_to_bytes s) ≡ some s
  pub verify-sign :
      (k : crypto.SigningKey) (m : Text)
      → crypto.verify (crypto.verifying_key k) m (crypto.sign k m) ≡ true
  pub alg-header :
      (alg typ : Text) → crypto.get_str (codes "alg") (crypto.json_header alg typ) ≡ some alg
  pub sub-claims :
      (s i : Text) (iat exp : ℕ)
      → crypto.get_str (codes "sub") (crypto.json_claims s i iat exp) ≡ some s
  pub iss-claims :
      (s i : Text) (iat exp : ℕ)
      → crypto.get_str (codes "iss") (crypto.json_claims s i iat exp) ≡ some i
  pub exp-claims :
      (s i : Text) (iat exp : ℕ)
      → crypto.get_u64 (codes "exp") (crypto.json_claims s i iat exp) ≡ some exp

module _ (crypto : Crypto) (laws : CryptoLaws crypto) where
  open crypto use {
    SigningKey, Json, verifying_key, encode, json_to_vec, json_header, json_claims, sign,
    signature_to_bytes,
  }
  open laws use {
    decode-encode, encode-Lacks, document-ne-nil, signature-ne-nil, from_slice-to_vec,
    from_slice-to_bytes, verify-sign, alg-header, sub-claims, iss-claims, exp-claims,
  }

  module _ (key : SigningKey) (issuer subject : Text) (issued ttl : ℕ) where
    -- The two documents and the three segments of the token.
    abbrev header : Json
    header = json_header token_alg (codes "JWT")

    abbrev exp : ℕ
    exp = saturating_add issued (as_secs ttl)

    abbrev pub claims : Json
    claims = json_claims subject issuer issued exp

    abbrev pub input : Text
    input = encode (json_to_vec header) ++ b'.' ∷ encode (json_to_vec claims)

    abbrev pub parts : Segments
    parts = record {
      header = encode (json_to_vec header);
      claims = encode (json_to_vec claims);
      signature = encode (signature_to_bytes (sign key input));
    }

    abbrev pub token : Text
    token = input ++ b'.' ∷ parts.signature

    pub issue_token-token : issue_token crypto key issuer subject issued ttl ≡ ok token
    unfolding issue_token
    issue_token-token = refl

    pub token-parts : segments token ≡ ok parts
    token-parts = segments_complete token parts (record {
      joined = append_assoc (encode (json_to_vec header)) _ _;
      header = (document-ne-nil header, encode-Lacks (json_to_vec header));
      claims = (document-ne-nil claims, encode-Lacks (json_to_vec claims));
      signature =
          (signature-ne-nil (sign key input), encode-Lacks (signature_to_bytes (sign key input)));
    })

    header_accepted : check_header crypto parts.header ≡ ok tt
    unfolding check_header
    header_accepted = ground (
      arith,
      decode-encode (json_to_vec header),
      from_slice-to_vec header,
      alg-header token_alg (codes "JWT"),
      text_eq_refl token_alg,
    )
