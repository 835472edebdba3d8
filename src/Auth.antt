-- ===== src/Auth.antt =====
-- core/src/auth.rs: tokens and the bearer header. The crates that it calls (ed25519-dalek, base64,
-- serde_json) are the parameter `Crypto`; the operations there that read a text's bytes take the
-- text.
pub mod Shape
pub mod Verify
pub mod Issue
pub mod Bearer
pub mod Presented
pub mod Gate
pub mod Keys
pub mod Login
pub mod Errors
use ratewall.Prelude.{
  ℕ, ◌+◌, ◌*◌, ◌-◌, ◌^◌, min, Bool, true, false, not, ◌||◌, Option, none, some, List, [], ◌∷◌, ◌++◌,
  leb, if◌then◌else◌, is_empty, Result, ok, err, ◌>>=◌, ◌>>◌,
}
use ratewall.Prelude.Text.{Text, codes, text_eq, split, strip_prefix, trim, any_char, is_whitespace}
use ratewall.Prelude.Time.{from_secs, as_secs}

pub record Crypto : Type 1 where
  pub Bytes : Type 0
  pub SigningKey : Type 0
  pub VerifyingKey : Type 0
  pub Signature : Type 0
  pub Json : Type 0
  pub verifying_key : SigningKey → VerifyingKey
  -- Signing and checking the bytes of a text.
  pub sign : SigningKey → Text → Signature
  pub verify : VerifyingKey → Text → Signature → Bool
  pub signature_from_slice : Bytes → Option Signature
  pub signature_to_bytes : Signature → Bytes
  -- URL-safe base64 without padding.
  pub encode : Bytes → Text
  pub decode : Text → Option Bytes
  pub json_from_slice : Bytes → Result Text Json
  pub json_to_vec : Json → Bytes
  -- The two documents of `issue_token`: `{alg, typ}` and `{sub, iss, iat, exp}`.
  pub json_header : (alg typ : Text) → Json
  pub json_claims : (sub iss : Text) (iat exp : ℕ) → Json
  -- A field that is there and is a string, or an unsigned integer.
  pub get_str : Text → Json → Option Text
  pub get_u64 : Text → Json → Option ℕ

abbrev pub token_alg : Text
token_alg = codes "EdDSA"

-- Fifteen minutes.
abbrev pub default_token_ttl : ℕ
default_token_ttl = from_secs (15 * 60)

pub data AuthError : Type 0 where
  bad_key_material : Text → AuthError
  malformed_token : AuthError
  bad_header : Text → AuthError
  bad_claims : Text → AuthError
  bad_signature : AuthError
  expired : AuthError
  wrong_issuer : AuthError

abbrev pub ok_or {ℓ} : {A : Type ℓ} → AuthError → Option A → Result AuthError A
ok_or e none = err e
ok_or e (some a) = ok a

abbrev reject_unless : Bool → AuthError → Result AuthError (Unit {0})
reject_unless true e = ok tt
reject_unless false e = err e

-- `== Some(expected)` on an optional text.
abbrev pub is_text : Option Text → Text → Bool
is_text none t = false
is_text (some s) t = text_eq s t

pub record Segments : Type 0 where
  pub header : Text
  pub claims : Text
  pub signature : Text

-- Exactly three parts, none of them empty.
three_parts : List Text → Result AuthError Segments
three_parts (h ∷ c ∷ s ∷ []) =
    if is_empty h || is_empty c || is_empty s
    then err malformed_token
    else ok (record { header = h; claims = c; signature = s })
three_parts _ = err malformed_token

unfoldable pub segments : Text → Result AuthError Segments
unfolding three_parts
segments token = three_parts (split b'.' token)

-- `now.saturating_add(secs)`
abbrev pub saturating_add : ℕ → ℕ → ℕ
saturating_add a b = min (a + b) (2 ^ 64 - 1)

module _ (crypto : Crypto) where
  open crypto use {
    SigningKey, VerifyingKey, Json, sign, verify, signature_from_slice, signature_to_bytes, encode,
    decode, json_from_slice, json_to_vec, json_header, json_claims, get_str, get_u64,
  }

  abbrev as_header : Result Text Json → Result AuthError Json
  as_header (ok j) = ok j
  as_header (err message) = err (bad_header message)

  abbrev as_claims : Result Text Json → Result AuthError Json
  as_claims (ok j) = ok j
  as_claims (err message) = err (bad_claims message)

  unfoldable pub check_header : Text → Result AuthError (Unit {0})
  check_header header_b64 = do
    bytes ← ok_or (bad_header (codes "not base64url")) (decode header_b64)
    header ← as_header (json_from_slice bytes)
    reject_unless (is_text (get_str (codes "alg") header) token_alg)
        (bad_header (codes "expected alg EdDSA"))

  unfoldable pub check_signature : VerifyingKey → Segments → Result AuthError (Unit {0})
  check_signature key parts = do
    bytes ← ok_or bad_signature (decode parts.signature)
    sig ← ok_or bad_signature (signature_from_slice bytes)
    reject_unless (verify key (parts.header ++ (codes "." ++ parts.claims)) sig) bad_signature

  check_issuer : Option Text → Json → Result AuthError (Unit {0})
  check_issuer none claims = ok tt
  check_issuer (some expected) claims =
      reject_unless (is_text (get_str (codes "iss") claims) expected) wrong_issuer

  unfoldable pub check_claims : Text → Option Text → ℕ → Result AuthError Text
  unfolding check_issuer
  check_claims claims_b64 trusted_issuer now = do
    bytes ← ok_or (bad_claims (codes "not base64url")) (decode claims_b64)
    claims ← as_claims (json_from_slice bytes)
    check_issuer trusted_issuer claims
    exp ← ok_or (bad_claims (codes "missing numeric exp")) (get_u64 (codes "exp") claims)
    reject_unless (not (leb exp now)) expired
    ok_or (bad_claims (codes "missing sub")) (get_str (codes "sub") claims)

  unfoldable pub verify_token : VerifyingKey → Text → Option Text → ℕ → Result AuthError Text
  verify_token key token trusted_issuer now = do
    parts ← segments token
    check_header parts.header
    check_signature key parts
    check_claims parts.claims trusted_issuer now

  abbrev signing_input : Json → Json → Text
  signing_input header claims =
      encode (json_to_vec header) ++ (codes "." ++ encode (json_to_vec claims))

  unfoldable pub issue_token : SigningKey → Text → Text → ℕ → ℕ → Result AuthError Text
  issue_token key issuer subject now ttl =
      let header = json_header token_alg (codes "JWT") in
      let claims = json_claims subject issuer now (saturating_add now (as_secs ttl)) in
      let input = signing_input header claims in
      ok (input ++ (codes "." ++ encode (signature_to_bytes (sign key input))))

-- `Bearer <token>`, with no white space inside the token.
unfoldable pub bearer_token : Option Text → Option Text
bearer_token none = none
bearer_token (some value) = elim (strip_prefix (codes "Bearer ") value) [
  | none ↦ none
  | some rest ↦
      let token = trim rest in
      if is_empty token || any_char is_whitespace token then none else some token
]
