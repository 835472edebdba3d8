-- ===== src/UnitTests/Keys/Passes.antt =====
-- Runs of the tests of core/src/auth.rs on the signing key, on disks that keep their laws.
use ratewall.Prelude.{none, ℕ, ◌∙◌, ◌≡◌, refl, true, ok, err, List}
use ratewall.Prelude.Text.{Text, codes}
use ratewall.Prelude.Text.Split.{text_eq_refl}
use ratewall.Auth.{Crypto, default_token_ttl}
use ratewall.Auth.Issue.{CryptoLaws, issue_token-token}
use ratewall.Auth.Issue.Judged.{verify_own_key}
use ratewall.Auth.Keys.{
  Files, Pem, found, not_found, private_key_file, public_key_file, load_or_create_signing_key,
}
use ratewall.Auth.Keys.Boots.{DiskLaws, load-again}
use ratewall.UnitTests.Tokens.{our_issuer}
use ratewall.UnitTests.Keys.{
  truncated_pem_fails_boot, no_pem, public_pem, load_or_create_is_idempotent_and_persistent,
  corrupt_pem_fails_boot_and_is_not_overwritten, wrong_key_type_pem_fails_boot,
}

module _ (crypto : Crypto) (files : Files) (pem : Pem crypto) (dir : Text)
    (disk_laws : DiskLaws crypto files pem dir)
    (writes : (path text : Text) (disk : files.Disk) → (files.write path text disk).0 ≡ ok tt) where
  module _ (generated : crypto.SigningKey) (disk : files.Disk)
      (fresh : files.read_to_string (files.join dir private_key_file) disk ≡ not_found)
      (makes : (files.create_dir_all dir disk).0 ≡ ok tt) where
    -- The first boot: the directory, the private key, its permissions and the public key.
    abbrev private_path : Text
    private_path = files.join dir private_key_file

    abbrev public_path : Text
    public_path = files.join dir public_key_file

    abbrev made : files.Disk
    made = (files.create_dir_all dir disk).1

    abbrev written : files.Disk
    written =
        files.restrict dir private_path
          (files.write private_path (pem.to_pkcs8_pem generated) made).1

    abbrev booted : files.Disk
    booted =
        (files.write public_path (pem.to_public_key_pem (crypto.verifying_key generated)) written).1

    first_boot :
        load_or_create_signing_key crypto files pem dir generated disk
        ≡ (ok (generated, true), booted)
    unfolding load_or_create_signing_key
    first_boot = rw fresh (
        rw makes (
          rw (writes private_path (pem.to_pkcs8_pem generated) made) (
            rw (writes public_path (pem.to_public_key_pem (crypto.verifying_key generated)) written)
              refl)))

    booted-found : files.read_to_string private_path booted ≡ found (pem.to_pkcs8_pem generated)
    booted-found =
        disk_laws.read-write_other public_path private_path _ written disk_laws.paths_differ
        ∙ disk_laws.read-restrict private_path dir private_path _
        ∙ disk_laws.read-write private_path (pem.to_pkcs8_pem generated) made
            (writes private_path (pem.to_pkcs8_pem generated) made)

    truncated_passes :
        (half : Text → Text) (later : crypto.SigningKey) (message : Text)
        → pem.from_pkcs8_pem (half (pem.to_pkcs8_pem generated)) ≡ err message
        → truncated_pem_fails_boot crypto files pem half dir generated later disk ≡ true
    unfolding truncated_pem_fails_boot load_or_create_signing_key
    truncated_passes half later message refused =
        let cut = half (pem.to_pkcs8_pem generated) in
        let wrote = writes private_path cut booted in
        rw (first_boot, truncated_pem_fails_boot)
          (rw booted-found
            (rw wrote (rw (disk_laws.read-write private_path cut booted wrote) (rw refused refl))))

    idempotent_passes :
        (laws : CryptoLaws crypto) (to_bytes : crypto.SigningKey → List ℕ)
        (later : crypto.SigningKey)
        → load_or_create_is_idempotent_and_persistent crypto files pem to_bytes dir generated later
            disk
          ≡ true
    unfolding load_or_create_is_idempotent_and_persistent
    idempotent_passes laws to_bytes later = rw first_boot (
        rw
          (load-again crypto files pem dir disk_laws generated later generated true disk booted
            first_boot)
          (rw (text_eq_refl (to_bytes generated)) (
            rw
              (issue_token-token crypto laws generated our_issuer (codes "u") 1_700_000_000
                default_token_ttl)
              (rw
                (verify_own_key crypto laws generated our_issuer (codes "u") 1_700_000_000
                  default_token_ttl none 1_700_000_000)
                refl))))

  module _ (generated : crypto.SigningKey) (disk : files.Disk) where
    corrupt_pem_passes :
        (message : Text)
        → pem.from_pkcs8_pem no_pem ≡ err message
        → corrupt_pem_fails_boot_and_is_not_overwritten crypto files pem dir generated disk ≡ true
    unfolding corrupt_pem_fails_boot_and_is_not_overwritten load_or_create_signing_key
    corrupt_pem_passes message refused =
        let path = files.join dir private_key_file in
        let wrote = writes path no_pem disk in
        rw wrote (
          rw (disk_laws.read-write path no_pem disk wrote)
            (rw refused (rw (disk_laws.read-write path no_pem disk wrote) (text_eq_refl no_pem))))

    wrong_key_type_passes :
        (message : Text)
        → pem.from_pkcs8_pem public_pem ≡ err message
        → wrong_key_type_pem_fails_boot crypto files pem dir generated disk ≡ true
    unfolding wrong_key_type_pem_fails_boot load_or_create_signing_key
    wrong_key_type_passes message refused =
        let path = files.join dir private_key_file in
        let wrote = writes path public_pem disk in
        rw wrote (rw (disk_laws.read-write path public_pem disk wrote) (rw refused refl))
