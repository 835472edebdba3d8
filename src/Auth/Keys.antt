-- ===== src/Auth/Keys.antt =====
-- `load_or_create_signing_key` of core/src/auth.rs: the signing key on disk. The file system and
-- the PEM encodings are parameters. The two `set_permissions` calls, whose results the code drops,
-- are the operation `restrict`.
pub mod Boots
use ratewall.Prelude.{Bool, true, false, ◌++◌, Result, ok, err}
use ratewall.Prelude.Text.{Text, codes}
use ratewall.Auth.{Crypto, AuthError, bad_key_material}

-- What `read_to_string` gives: the contents, `ErrorKind::NotFound`, or another error.
pub data Contents : Type 0 where
  found : Text → Contents
  not_found : Contents
  unreadable : Text → Contents

-- An operation that fails gives its message, and the disk that it leaves.
pub record Files : Type 1 where
  pub Disk : Type 0
  pub join : Text → Text → Text
  pub read_to_string : Text → Disk → Contents
  pub create_dir_all : Text → Disk → Result Text (Unit {0}) × Disk
  pub write : Text → Text → Disk → Result Text (Unit {0}) × Disk
  pub restrict : Text → Text → Disk → Disk

pub record Pem (crypto : Crypto) : Type 0 where
  pub from_pkcs8_pem : Text → Result Text crypto.SigningKey
  pub to_pkcs8_pem : crypto.SigningKey → Text
  pub to_public_key_pem : crypto.VerifyingKey → Text

abbrev pub private_key_file : Text
private_key_file = codes "signing_key.pem"

abbrev pub public_key_file : Text
public_key_file = codes "signing_key.pub.pem"

module _ (crypto : Crypto) (files : Files) (pem : Pem crypto) where
  open files use {Disk}

  -- The key with whether it is new, and the disk afterwards.
  abbrev pub Loaded : Type 0
  Loaded = Result AuthError (crypto.SigningKey × Bool) × Disk

  abbrev parse_key : Text → Result Text crypto.SigningKey → Disk → Loaded
  parse_key path (ok key) disk = (ok (key, false), disk)
  parse_key path (err e) disk = (err (bad_key_material (path ++ (codes ": " ++ e))), disk)

  abbrev write_public : Text → crypto.SigningKey → Result Text (Unit {0}) × Disk → Loaded
  write_public path key (err e, disk) =
      (err (bad_key_material (codes "cannot write " ++ (path ++ (codes ": " ++ e)))), disk)
  write_public path key (ok _, disk) = (ok (key, true), disk)

  abbrev write_private : Text → crypto.SigningKey → Result Text (Unit {0}) × Disk → Loaded
  write_private keys_dir key (err e, disk) = (
    err (
        bad_key_material
          (codes "cannot write " ++ (files.join keys_dir private_key_file ++ (codes ": " ++ e)))),
    disk,
  )
  write_private keys_dir key (ok _, disk) =
      let path = files.join keys_dir public_key_file in
      write_public path key (
        files.write path (pem.to_public_key_pem (crypto.verifying_key key))
          (files.restrict keys_dir (files.join keys_dir private_key_file) disk))

  abbrev create_key : Text → crypto.SigningKey → Result Text (Unit {0}) × Disk → Loaded
  create_key keys_dir key (err e, disk) =
      (err (bad_key_material (codes "cannot create " ++ (keys_dir ++ (codes ": " ++ e)))), disk)
  create_key keys_dir key (ok _, disk) =
      write_private keys_dir key
        (files.write (files.join keys_dir private_key_file) (pem.to_pkcs8_pem key) disk)

  load_contents : Text → crypto.SigningKey → Contents → Disk → Loaded
  load_contents keys_dir generated (found text) disk =
      parse_key (files.join keys_dir private_key_file) (pem.from_pkcs8_pem text) disk
  load_contents keys_dir generated not_found disk =
      create_key keys_dir generated (files.create_dir_all keys_dir disk)
  load_contents keys_dir generated (unreadable e) disk = (
    err (
        bad_key_material
          (codes "cannot read " ++ (files.join keys_dir private_key_file ++ (codes ": " ++ e)))),
    disk,
  )

  -- `generated` is the key that the random generator would give.
  unfoldable pub load_or_create_signing_key : Text → crypto.SigningKey → Disk → Loaded
  unfolding load_contents
  load_or_create_signing_key keys_dir generated disk =
      load_contents keys_dir generated
        (files.read_to_string (files.join keys_dir private_key_file) disk) disk
