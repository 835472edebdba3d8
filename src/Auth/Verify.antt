-- ===== src/Auth/Verify.antt =====
-- `verify_token` (core/src/auth.rs) against an independent description of an authentic token.
use ratewall.Prelude.{
  ℕ, ◌<◌, ◌≡◌, ◌↔◌, refl, Bool, true, false, not, Option, none, some, ◌∷◌, ◌++◌, arith, leb, Result,
  ok, err, passed_through,
}
use ratewall.Prelude.Text.{Text, codes, text_eq_iff}
use ratewall.Auth.Shape.{AreSegments, segments_sound, segments_complete}
use ratewall.Auth.{
  Crypto, AuthError, Segments, token_alg, segments, is_text, ok_or, reject_unless, as_header,
  as_claims, check_header, check_signature, check_issuer, check_claims, verify_token,
}

is_text_iff : (o : Option Text) (t : Text) → (is_text o t ≡ true) ↔ (o ≡ some t)
is_text_iff none t = ground arith
is_text_iff (some s) t = ground (arith, text_eq_iff s t)

ok_or_sound {ℓ} :
    {A : Type ℓ} (e : AuthError) (o : Option A) {a : A} → ok_or e o ≡ ok a → o ≡ some a
ok_or_sound e none h = cc
ok_or_sound e (some b) h = ground arith

reject_unless_sound : (b : Bool) (e : AuthError) → reject_unless b e ≡ ok tt → b ≡ true
reject_unless_sound true e h = refl
reject_unless_sound false e h = cc

module _ (crypto : Crypto) where
  as_header_sound :
      (r : Result Text crypto.Json) {j : crypto.Json} → as_header crypto r ≡ ok j → r ≡ ok j
  as_header_sound (ok a) h = ground arith
  as_header_sound (err m) h = cc

  as_claims_sound :
      (r : Result Text crypto.Json) {j : crypto.Json} → as_claims crypto r ≡ ok j → r ≡ ok j
  as_claims_sound (ok a) h = ground arith
  as_claims_sound (err m) h = cc

module _ (crypto : Crypto) where
  open crypto use {
    Bytes, VerifyingKey, Signature, Json, verify, signature_from_slice, decode, json_from_slice,
    get_str, get_u64,
  }

  -- The document that a segment encodes.
  abbrev pub Holds : Text → Json → Type 0
  Holds segment document =
      (bytes : Bytes) × (decode segment ≡ some bytes) × (json_from_slice bytes ≡ ok document)

  -- `iss` is checked when an issuer is configured.
  abbrev pub IsTrusted : Option Text → Json → Type 0
  IsTrusted none claims = Unit {0}
  IsTrusted (some issuer) claims = get_str (codes "iss") claims ≡ some issuer

  -- The token declares EdDSA, its signature is the key's over the first two segments, and its
  -- claims name the trusted issuer, an expiry after `now`, and the subject.
  pub record IsAuthentic (key : VerifyingKey) (token : Text) (issuer : Option Text) (now : ℕ)
      (subject : Text) : Type 0 where
    pub parts : Segments
    pub shape : AreSegments token parts
    pub header : Json
    pub header_held : Holds parts.header header
    pub alg : get_str (codes "alg") header ≡ some token_alg
    pub signature_bytes : Bytes
    pub signature_decoded : decode parts.signature ≡ some signature_bytes
    pub signature : Signature
    pub signature_read : signature_from_slice signature_bytes ≡ some signature
    pub signed : verify key (parts.header ++ b'.' ∷ parts.claims) signature ≡ true
    pub claims : Json
    pub claims_held : Holds parts.claims claims
    pub trusted : IsTrusted issuer claims
    pub exp : ℕ
    pub exp_claim : get_u64 (codes "exp") claims ≡ some exp
    pub alive : now < exp
    pub sub_claim : get_str (codes "sub") claims ≡ some subject

  header_sound :
      (h : Text)
      → check_header crypto h ≡ ok tt
      → (j : Json) × Holds h j × (get_str (codes "alg") j ≡ some token_alg)
  unfolding check_header
  header_sound h e =
      let (bytes, d, e₁) = passed_through (ok_or _ (decode h)) _ e in
      let (j, r, e₂) = passed_through (as_header crypto (json_from_slice bytes)) _ e₁ in
      (
        j,
        (bytes, ok_or_sound _ _ d, as_header_sound crypto _ r),
        (is_text_iff (get_str (codes "alg") j) token_alg).0 (reject_unless_sound _ _ e₂),
      )

  header_complete :
      (h : Text) (j : Json)
      → Holds h j
      → get_str (codes "alg") j ≡ some token_alg
      → check_header crypto h ≡ ok tt
  unfolding check_header
  header_complete h j (bytes, d, e) a =
      ground (arith, is_text_iff (get_str (codes "alg") j) token_alg)

  signature_sound :
      (key : VerifyingKey) (parts : Segments)
      → check_signature crypto key parts ≡ ok tt
      → (bytes : Bytes) × (sig : Signature) × (decode parts.signature ≡ some bytes)
        × (signature_from_slice bytes ≡ some sig)
        × (verify key (parts.header ++ b'.' ∷ parts.claims) sig ≡ true)
  unfolding check_signature
  signature_sound key parts e =
      let (bytes, d, e₁) = passed_through (ok_or _ (decode parts.signature)) _ e in
      let (sig, r, e₂) = passed_through (ok_or _ (signature_from_slice bytes)) _ e₁ in
      (bytes, sig, ok_or_sound _ _ d, ok_or_sound _ _ r, reject_unless_sound _ _ e₂)

  signature_complete :
      (key : VerifyingKey) (parts : Segments) (bytes : Bytes) (sig : Signature)
      → decode parts.signature ≡ some bytes
      → signature_from_slice bytes ≡ some sig
      → verify key (parts.header ++ b'.' ∷ parts.claims) sig ≡ true
      → check_signature crypto key parts ≡ ok tt
  unfolding check_signature
  signature_complete key parts bytes sig d r v = ground arith

  issuer_iff :
      (issuer : Option Text) (claims : Json)
      → (check_issuer crypto issuer claims ≡ ok tt) ↔ IsTrusted issuer claims
  unfolding check_issuer
  issuer_iff none claims = (λ _. tt, λ _. refl)
  issuer_iff (some issuer) claims =
      let iff = is_text_iff (get_str (codes "iss") claims) issuer in
      (λ h. iff.0 (reject_unless_sound _ _ h), λ h. ground (arith, iff))

  claims_sound :
      (c : Text) (issuer : Option Text) (now : ℕ) (subject : Text)
      → check_claims crypto c issuer now ≡ ok subject
      → (j : Json) × (exp : ℕ) × Holds c j
        × IsTrusted issuer j
        × (get_u64 (codes "exp") j ≡ some exp)
        × (now < exp)
        × (get_str (codes "sub") j ≡ some subject)
  unfolding check_claims
  claims_sound c issuer now subject e =
      let (bytes, d, e₁) = passed_through (ok_or _ (decode c)) _ e in
      let (j, r, e₂) = passed_through (as_claims crypto (json_from_slice bytes)) _ e₁ in
      let (u, i, e₃) = passed_through (check_issuer crypto issuer j) _ e₂ in
      let (exp, x, e₄) = passed_through (ok_or _ (get_u64 (codes "exp") j)) _ e₃ in
      let (u', a, e₅) = passed_through (reject_unless (not (leb exp now)) _) _ e₄ in
      (
        j,
        exp,
        (bytes, ok_or_sound _ _ d, as_claims_sound crypto _ r),
        (issuer_iff issuer j).0 i,
        ok_or_sound _ _ x,
        ground (arith, reject_unless_sound _ _ a),
        ok_or_sound _ _ e₅,
      )

  claims_complete :
      (c : Text) (issuer : Option Text) (now exp : ℕ) (subject : Text) (j : Json)
      → Holds c j
      → IsTrusted issuer j
      → get_u64 (codes "exp") j ≡ some exp
      → now < exp
      → get_str (codes "sub") j ≡ some subject
      → check_claims crypto c issuer now ≡ ok subject
  unfolding check_claims
  claims_complete c issuer now exp subject j (bytes, d, r) i x a s =
      ground (arith, (issuer_iff issuer j).1 i)

  module _ (key : VerifyingKey) (token : Text) (issuer : Option Text) (now : ℕ)
      (subject : Text) where
    verify_sound :
        verify_token crypto key token issuer now ≡ ok subject
        → IsAuthentic key token issuer now subject
    unfolding verify_token
    verify_sound e =
        let (parts, p, e₁) = passed_through (segments token) _ e in
        let (u, h, e₂) = passed_through (check_header crypto parts.header) _ e₁ in
        let (u', g, e₃) = passed_through (check_signature crypto key parts) _ e₂ in
        let (header, header_held, alg) = header_sound parts.header h in
        let (bytes, sig, decoded, read, signed) = signature_sound key parts g in
        let (claims, exp, claims_held, trusted, exp_claim, alive, sub_claim) =
          claims_sound parts.claims issuer now subject e₃ in
        record {
          parts = parts;
          shape = segments_sound token parts p;
          header = header;
          header_held = header_held;
          alg = alg;
          signature_bytes = bytes;
          signature_decoded = decoded;
          signature = sig;
          signature_read = read;
          signed = signed;
          claims = claims;
          claims_held = claims_held;
          trusted = trusted;
          exp = exp;
          exp_claim = exp_claim;
          alive = alive;
          sub_claim = sub_claim;
        }

    verify_complete :
        IsAuthentic key token issuer now subject
        → verify_token crypto key token issuer now ≡ ok subject
    unfolding verify_token
    verify_complete a = rw (segments_complete token a.parts a.shape) (
        rw (header_complete a.parts.header a.header a.header_held a.alg) (
          rw
            (signature_complete key a.parts a.signature_bytes a.signature a.signature_decoded
              a.signature_read a.signed)
            (claims_complete a.parts.claims issuer now a.exp subject a.claims a.claims_held
              a.trusted a.exp_claim a.alive a.sub_claim)))

  -- Fail-closed: `verify_token` returns a subject exactly for the authentic tokens of that subject,
  -- whatever the key, the configured issuer and the instant.
  pub verify_token_iff :
      (key : VerifyingKey) (token : Text) (issuer : Option Text) (now : ℕ) (subject : Text)
      → (verify_token crypto key token issuer now ≡ ok subject)
        ↔ IsAuthentic key token issuer now subject
  verify_token_iff key token issuer now subject =
      (verify_sound key token issuer now subject, verify_complete key token issuer now subject)
