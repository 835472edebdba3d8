-- ===== src/Examples/Tokens.antt =====
-- Tokens under a toy signature scheme, and keys on a toy disk.
use ratewall.Prelude.{
  ℕ, ◌≡◌, ◌≢◌, ◌↔◌, ◌⊎◌, ◌++◌, refl, true, false, Option, ◌==◌, ◌&&◌, none, some, [], ◌∷◌, arith,
  ltb, ap, if◌then◌else◌, ok, err,
}
use ratewall.Prelude.Text.{Text, codes, text_eq, text_eq_iff}
use ratewall.Prelude.Text.Split.{text_eq_refl}
use ratewall.Prelude.Table.{Table, get, insert, get-insert, text_compare}
use ratewall.Prelude.Time.{from_secs, as_secs}
use ratewall.Http.{Request, Response, unauthorized}
use ratewall.Auth.{bad_signature, expired, token_alg, saturating_add, verify_token, issue_token}
use ratewall.Auth.Verify.{IsAuthentic, verify_token_iff}
use ratewall.Auth.Issue.Judged.{verdict, issue_token-judged}
use ratewall.Auth.Gate.{AuthState, presented_token, check_bearer, check_bearer_iff}
use ratewall.Auth.Keys.{load_or_create_signing_key, found}
use ratewall.Auth.Keys.Boots.{DiskLaws, load-keeps, load-again}
use ratewall.Auth.Login.{
  LoginRequest, LoginState, granted, invalid_credentials, login, login_lem, demo_username,
  demo_password,
}
use ratewall.Examples.Crates.{
  toy_crypto, toy_http, toy_laws, toy_files, toy_pem, contents_of, shift, write, header, claims,
}

-- A token of key 9 for `ann`, from instant 1000 to 1900.
abbrev ann_input : Text
ann_input =
    shift (write (header token_alg (codes "JWT")))
    ++ b'.' ∷ shift (write (claims (codes "ann") (codes "ratewall") 1000 1900))

abbrev pub ann_token : Text
ann_token = ann_input ++ b'.' ∷ shift (9 ∷ ann_input)

-- It is authentic for `ann` while it lasts.
pub ann_token-IsAuthentic :
    IsAuthentic toy_crypto 9 ann_token (some (codes "ratewall")) 1200 (codes "ann")
unfolding text_eq
ann_token-IsAuthentic =
    let head = header token_alg (codes "JWT") in
    let body = claims (codes "ann") (codes "ratewall") 1000 1900 in
    record {
      parts = record {
        header = shift (write head);
        claims = shift (write body);
        signature = shift (9 ∷ ann_input);
      };
      shape = record {
        joined = refl;
        header = (toy_laws.document-ne-nil head, toy_laws.encode-Lacks (write head));
        claims = (toy_laws.document-ne-nil body, toy_laws.encode-Lacks (write body));
        signature = ((λ e. cc), toy_laws.encode-Lacks (9 ∷ ann_input));
      };
      header = head;
      header_held = (write head, refl, refl);
      alg = refl;
      signature_bytes = 9 ∷ ann_input;
      signature_decoded = refl;
      signature = (9, ann_input);
      signature_read = refl;
      signed = refl;
      claims = body;
      claims_held = (write body, refl, refl);
      trusted = refl;
      exp = 1900;
      exp_claim = refl;
      alive = omega arith;
      sub_claim = refl;
    }

verify_token_iff_example :
    (verify_token toy_crypto 9 ann_token (some (codes "ratewall")) 1200 ≡ ok (codes "ann"))
    ↔ IsAuthentic toy_crypto 9 ann_token (some (codes "ratewall")) 1200 (codes "ann")
verify_token_iff_example =
    verify_token_iff toy_crypto 9 ann_token (some (codes "ratewall")) 1200 (codes "ann")

issue_token-judged_example :
    (input token : Text) × (issue_token toy_crypto 9
        (codes "ratewall")
        (codes "ann")
        1000
        (from_secs 900)
      ≡ ok token)
    × ((other : ℕ) (trusted : Option Text) (now : ℕ)
        → verify_token toy_crypto other token trusted now ≡ (
            if other == 9 && text_eq input input
            then verdict (codes "ratewall") (codes "ann") 1900 trusted now
            else err bad_signature))
    × ((trusted : Option Text) (now : ℕ)
        → verify_token toy_crypto 9 token trusted now
          ≡ verdict (codes "ratewall") (codes "ann") 1900 trusted now)
issue_token-judged_example =
    issue_token-judged toy_crypto toy_laws 9 (codes "ratewall") (codes "ann") 1000 (from_secs 900)

abbrev pub gate : AuthState toy_crypto
gate = record { verifying_key = 9; trusted_issuer = some (codes "ratewall") }

abbrev pub ann_request : Request toy_http
ann_request = record {
  method = codes "GET";
  path = codes "/crm/customers";
  query = none;
  headers = (codes "authorization", codes "Bearer " ++ ann_token) ∷ [];
  body = some [];
}

check_bearer_iff_example :
    ((subject : Text)
      → (check_bearer toy_crypto toy_http gate 1200 ann_request ≡ ok subject) ↔ (
          (token : Text) × (presented_token toy_http ann_request ≡ some token)
          × IsAuthentic toy_crypto 9 token (some (codes "ratewall")) 1200 subject))
    × ((r : Response toy_http)
        → check_bearer toy_crypto toy_http gate 1200 ann_request ≡ err r
        → r.status ≡ unauthorized)
check_bearer_iff_example = check_bearer_iff toy_crypto toy_http gate 1200 ann_request

abbrev keys_dir : Text
keys_dir = codes "/keys"

read_own :
    (path text : Text) (disk : Table Text)
    → contents_of (get path (insert path text disk)) ≡ found text
read_own path text disk =
    let stored : get path (insert path text disk) ≡ some text =
      ground (arith, get-insert path path text disk, text_eq_refl path) in
    ap contents_of stored

read_other :
    (path other text : Text) (disk : Table Text)
    → path ≢ other
    → contents_of (get other (insert path text disk)) ≡ contents_of (get other disk)
read_other path other text disk differs =
    let kept : get other (insert path text disk) ≡ get other disk =
      ground (arith, get-insert path other text disk, text_eq_iff path other, differs) in
    ap contents_of kept

toy-DiskLaws : DiskLaws toy_crypto toy_files toy_pem keys_dir
toy-DiskLaws = record {
  read-write = λ path text disk wrote. read_own path text disk;
  read-write_other = λ path other text disk differs. read_other path other text disk differs;
  read-restrict = λ path dir file disk. refl;
  from-to_pkcs8_pem = λ key. refl;
  paths_differ = λ e. absurd (ground arith);
}

load-keeps_example :
    ((load_or_create_signing_key toy_crypto toy_files toy_pem keys_dir 4
        ((codes "/keys/signing_key.pem", []) ∷ [])).1
      ≡ (codes "/keys/signing_key.pem", []) ∷ [])
    × ((key : ℕ)
        → (load_or_create_signing_key toy_crypto toy_files toy_pem keys_dir 4
            ((codes "/keys/signing_key.pem", []) ∷ [])).0
          ≢ ok (key, true))
unfolding get text_eq
load-keeps_example =
    load-keeps toy_crypto toy_files toy_pem keys_dir 4 ((codes "/keys/signing_key.pem", []) ∷ [])
      (ground arith)

abbrev after_boot : Table Text
after_boot =
    (codes "/keys/signing_key.pem", 4 ∷ []) ∷ (codes "/keys/signing_key.pub.pem", 4 ∷ []) ∷ []

load-again_example :
    load_or_create_signing_key toy_crypto toy_files toy_pem keys_dir 5 after_boot
    ≡ (ok (4, false), after_boot)
unfolding load_or_create_signing_key get insert text_compare text_eq
load-again_example =
    load-again toy_crypto toy_files toy_pem keys_dir toy-DiskLaws 4 5 4 true [] after_boot refl

abbrev login_state : LoginState toy_crypto
login_state = record { signing_key = 9; issuer = codes "ratewall"; ttl = from_secs 900 }

abbrev pub demo : LoginRequest
demo = record { username = demo_username; password = demo_password }

login_lem_example :
    ((demo_username ≡ demo_username)
      × (demo_password ≡ demo_password)
      × ((token : Text) × (login toy_crypto login_state 1000 demo
            ≡ granted token (as_secs (from_secs 900)))
          × ((later : ℕ)
              → verify_token toy_crypto 9 token (some (codes "ratewall")) later ≡ (
                  if ltb later (saturating_add 1000 (as_secs (from_secs 900)))
                  then ok demo_username
                  else err expired))))
    ⊎ (((demo_username ≢ demo_username) ⊎ (demo_password ≢ demo_password))
        × (login toy_crypto login_state 1000 demo ≡ invalid_credentials))
login_lem_example = login_lem toy_crypto toy_laws login_state 1000 demo
