-- ===== src/Auth/Keys/Boots.antt =====
-- What the boots of the gateway do to the signing key on disk.
use ratewall.Prelude.{◌≡◌, ◌≢◌, refl, sym, ap, ◌∙◌, Bool, true, false, arith, Result, ok, err}
use ratewall.Prelude.Text.{Text}
use ratewall.Auth.{Crypto}
use ratewall.Auth.Keys.{
  Contents, found, not_found, unreadable, Files, Pem, private_key_file, public_key_file, parse_key,
  write_public, write_private, create_key, load_contents, load_or_create_signing_key,
}

module _ (crypto : Crypto) (files : Files) (pem : Pem crypto) where
  open files use {Disk}

  -- What `std::fs` documents of a file that has been written: it reads back, and neither a write
  -- to another path nor the permissions of its owner change what it holds. The encoding of a key
  -- parses as that key, and the two key files have different paths.
  pub record DiskLaws (keys_dir : Text) : Type 0 where
    pub read-write :
        (path text : Text) (disk : Disk)
        → (files.write path text disk).0 ≡ ok tt
        → files.read_to_string path (files.write path text disk).1 ≡ found text
    pub read-write_other :
        (path other text : Text) (disk : Disk)
        → path ≢ other
        → files.read_to_string other (files.write path text disk).1
          ≡ files.read_to_string other disk
    pub read-restrict :
        (path dir file : Text) (disk : Disk)
        → files.read_to_string path (files.restrict dir file disk) ≡ files.read_to_string path disk
    pub from-to_pkcs8_pem :
        (key : crypto.SigningKey) → pem.from_pkcs8_pem (pem.to_pkcs8_pem key) ≡ ok key
    pub paths_differ : files.join keys_dir public_key_file ≢ files.join keys_dir private_key_file

  module _ (keys_dir : Text) where
    abbrev private_path : Text
    private_path = files.join keys_dir private_key_file

    abbrev public_path : Text
    public_path = files.join keys_dir public_key_file

    -- The disk's private key file parses as the key.
    abbrev Holds : crypto.SigningKey → Disk → Type 0
    Holds key disk =
        (text : Text) × (files.read_to_string private_path disk ≡ found text)
        × (pem.from_pkcs8_pem text ≡ ok key)

    kept_contents :
        (generated : crypto.SigningKey) (c : Contents) (disk : Disk)
        → c ≢ not_found
        → ((load_contents crypto files pem keys_dir generated c disk).1 ≡ disk)
          × ((key : crypto.SigningKey)
              → (load_contents crypto files pem keys_dir generated c disk).0 ≢ ok (key, true))
    unfolding load_contents
    kept_contents generated (found text) disk h = kept_parse (pem.from_pkcs8_pem text)
      where
        kept_parse :
            (r : Result Text crypto.SigningKey)
            → ((parse_key crypto files pem private_path r disk).1 ≡ disk)
              × ((key : crypto.SigningKey)
                  → (parse_key crypto files pem private_path r disk).0 ≢ ok (key, true))
        kept_parse (ok key) = (refl, λ k e. absurd (ground arith))
        kept_parse (err e) = (refl, λ k e. absurd (ground arith))
    kept_contents generated not_found disk h = absurd (h refl)
    kept_contents generated (unreadable e) disk h = (refl, λ k e. absurd (ground arith))

    -- Unless the private key file is missing, the disk is left as it was and no new key is given:
    -- a file that cannot be read or parsed is never replaced.
    pub load-keeps :
        (generated : crypto.SigningKey) (disk : Disk)
        → files.read_to_string private_path disk ≢ not_found
        → ((load_or_create_signing_key crypto files pem keys_dir generated disk).1 ≡ disk)
          × ((key : crypto.SigningKey)
              → (load_or_create_signing_key crypto files pem keys_dir generated disk).0
                ≢ ok (key, true))
    unfolding load_or_create_signing_key
    load-keeps generated disk h =
        kept_contents generated (files.read_to_string private_path disk) disk h

    load_of_Holds :
        (generated key : crypto.SigningKey) (disk : Disk)
        → Holds key disk
        → load_or_create_signing_key crypto files pem keys_dir generated disk
          ≡ (ok (key, false), disk)
    unfolding load_or_create_signing_key load_contents
    load_of_Holds generated key disk (text, read, parsed) = rw read (rw parsed refl)

    module _ (laws : DiskLaws keys_dir) where
      public_written :
          (made key : crypto.SigningKey) (new : Bool) (r : Result Text (Unit {0}) × Disk)
          (disk : Disk)
          → write_public crypto files pem public_path made r ≡ (ok (key, new), disk)
          → (r.0 ≡ ok tt) × (r.1 ≡ disk) × (made ≡ key)
      public_written made key new (err e, d) disk h = absurd (ground arith)
      public_written made key new (ok tt, d) disk h = (refl, ground arith, ground arith)

      private_written :
          (made key : crypto.SigningKey) (new : Bool) (r : Result Text (Unit {0}) × Disk)
          (disk : Disk)
          → (r.0 ≡ ok tt → files.read_to_string private_path r.1 ≡ found (pem.to_pkcs8_pem made))
          → write_private crypto files pem keys_dir made r ≡ (ok (key, new), disk)
          → Holds key disk
      private_written made key new (err e, d) disk stored h = absurd (ground arith)
      private_written made key new (ok tt, d) disk stored h =
          let d₁ = files.restrict keys_dir private_path d in
          let text = pem.to_public_key_pem (crypto.verifying_key made) in
          let (wrote, after, same) =
            public_written made key new (files.write public_path text d₁) disk h in
          (
            pem.to_pkcs8_pem made,
            ap (files.read_to_string private_path) (sym after)
                ∙ laws.read-write_other public_path private_path text d₁ laws.paths_differ
                ∙ laws.read-restrict private_path keys_dir private_path d
                ∙ stored refl,
            laws.from-to_pkcs8_pem made ∙ ap (λ k. ok k) same,
          )

      created :
          (made key : crypto.SigningKey) (new : Bool) (r : Result Text (Unit {0}) × Disk)
          (disk : Disk)
          → create_key crypto files pem keys_dir made r ≡ (ok (key, new), disk)
          → Holds key disk
      created made key new (err e, d) disk h = absurd (ground arith)
      created made key new (ok tt, d) disk h =
          private_written made key new (files.write private_path (pem.to_pkcs8_pem made) d) disk
            (laws.read-write private_path (pem.to_pkcs8_pem made) d) h

      parsed :
          (text : Text) (key : crypto.SigningKey) (new : Bool) (r : Result Text crypto.SigningKey)
          (d disk : Disk)
          → pem.from_pkcs8_pem text ≡ r
          → files.read_to_string private_path d ≡ found text
          → parse_key crypto files pem private_path r d ≡ (ok (key, new), disk)
          → Holds key disk
      parsed text key new (err e) d disk p q h = absurd (ground arith)
      parsed text key new (ok k) d disk p q h =
          let same : k ≡ key = ground arith in
          let after : d ≡ disk = ground arith in
          (text, ap (files.read_to_string private_path) (sym after) ∙ q, p ∙ ap (λ x. ok x) same)

      loaded :
          (made key : crypto.SigningKey) (new : Bool) (c : Contents) (d disk : Disk)
          → files.read_to_string private_path d ≡ c
          → load_contents crypto files pem keys_dir made c d ≡ (ok (key, new), disk)
          → Holds key disk
      unfolding load_contents
      loaded made key new (found text) d disk q h =
          parsed text key new (pem.from_pkcs8_pem text) d disk refl q h
      loaded made key new not_found d disk q h =
          created made key new (files.create_dir_all keys_dir d) disk h
      loaded made key new (unreadable e) d disk q h = absurd (ground arith)

      -- Over a file system that keeps its laws, a key that one boot returns, made or loaded, is
      -- the key that the next boot loads, whatever it would generate, and that boot changes
      -- nothing on the disk.
      pub load-again :
          (made later key : crypto.SigningKey) (new : Bool) (d disk : Disk)
          → load_or_create_signing_key crypto files pem keys_dir made d ≡ (ok (key, new), disk)
          → load_or_create_signing_key crypto files pem keys_dir later disk
            ≡ (ok (key, false), disk)
      unfolding load_or_create_signing_key
      load-again made later key new d disk h =
          load_of_Holds later key disk
            (loaded made key new (files.read_to_string private_path d) d disk refl h)
