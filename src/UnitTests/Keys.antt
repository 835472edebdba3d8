-- ===== src/UnitTests/Keys.antt =====
-- `mod tests` of core/src/auth.rs on the signing key on disk: the directory, its disk and the keys
-- that would be generated are arguments.
pub mod Passes
use ratewall.Prelude.{ℕ, Bool, true, false, not, ◌&&◌, none, List, Result, ok, err}
use ratewall.Prelude.Text.{Text, codes, text_eq}
use ratewall.Auth.{
  Crypto, AuthError, bad_key_material, default_token_ttl, verify_token, issue_token,
}
use ratewall.Auth.Keys.{
  Contents, found, not_found, unreadable, Files, Pem, private_key_file, load_or_create_signing_key,
}
use ratewall.UnitTests.Tokens.{issued, is_err, our_issuer}

-- `matches!(result, Err(AuthError::BadKeyMaterial(_)))`
abbrev pub is_bad_key_material {ℓ} : {A : Type ℓ} → Result AuthError A → Bool
is_bad_key_material (err (bad_key_material message)) = true
is_bad_key_material _ = false

-- `std::fs::read_to_string(path).unwrap() == expected`
abbrev pub contains_text : Text → Contents → Bool
contains_text expected (found text) = text_eq text expected
contains_text expected _ = false

abbrev pub is_written {ℓ} : {A : Type ℓ} → Result Text A → Bool
is_written (ok a) = true
is_written (err e) = false

abbrev pub no_pem : Text
no_pem = codes "this is not a pem file at all"

abbrev pub public_pem : Text
public_pem = codes "-----BEGIN PUBLIC KEY-----\nMCowBQYDK2VwAyEA\n-----END PUBLIC KEY-----\n"

module _ (crypto : Crypto) (files : Files) (pem : Pem crypto) where
  open crypto use {SigningKey, verifying_key}
  open files use {Disk}

  unfoldable pub load_or_create_is_idempotent_and_persistent :
      (to_bytes : SigningKey → List ℕ) (dir : Text) (generated later : SigningKey) → Disk → Bool
  load_or_create_is_idempotent_and_persistent to_bytes dir generated later disk =
      let (first_boot, disk₁) = load_or_create_signing_key crypto files pem dir generated disk in
      let (second_boot, disk₂) = load_or_create_signing_key crypto files pem dir later disk₁ in
      issued first_boot λ (key₁, created₁). issued second_boot λ (key₂, created₂).
        created₁
        && not created₂
        && text_eq (to_bytes key₁) (to_bytes key₂)
        && (issued (issue_token crypto key₁ our_issuer (codes "u") 1_700_000_000 default_token_ttl)
            λ token.
              not (is_err (verify_token crypto (verifying_key key₂) token none 1_700_000_000)))

  -- A boot with the given text in the private key file.
  abbrev pub boot_on :
      Text → Text → SigningKey → Disk → (Result AuthError (SigningKey × Bool) × Disk → Bool) → Bool
  boot_on dir text generated disk holds =
      let (wrote, disk₁) = files.write (files.join dir private_key_file) text disk in
      is_written wrote && holds (load_or_create_signing_key crypto files pem dir generated disk₁)

  unfoldable pub corrupt_pem_fails_boot_and_is_not_overwritten :
      (dir : Text) → SigningKey → Disk → Bool
  corrupt_pem_fails_boot_and_is_not_overwritten dir generated disk =
      boot_on dir no_pem generated disk λ (result, after).
        is_bad_key_material result
        && contains_text no_pem (files.read_to_string (files.join dir private_key_file) after)

  unfoldable pub wrong_key_type_pem_fails_boot : (dir : Text) → SigningKey → Disk → Bool
  wrong_key_type_pem_fails_boot dir generated disk =
      boot_on dir public_pem generated disk λ (result, after). is_bad_key_material result

  -- The second boot of the next test, after the text of the key file was cut.
  abbrev pub boot_cut : (cut : Text → Text) (dir : Text) → SigningKey → Disk → Contents → Bool
  boot_cut cut dir later disk (found full) =
      boot_on dir (cut full) later disk λ (result, after). is_bad_key_material result
  boot_cut cut dir later disk _ = false

  -- `half` is `&full[..full.len() / 2]`.
  unfoldable pub truncated_pem_fails_boot :
      (half : Text → Text) (dir : Text) (generated later : SigningKey) → Disk → Bool
  truncated_pem_fails_boot half dir generated later disk =
      let (good, after) = load_or_create_signing_key crypto files pem dir generated disk in
      issued good λ _.
        boot_cut half dir later after (files.read_to_string (files.join dir private_key_file) after)
