-- ===== src/Examples/Crates.antt =====
-- Small instances of the parameters: Redis as a table of counters, a toy signature scheme, and
-- plain conversions for HTTP, floating point and files.
use ratewall.Prelude.{
  ℕ, zero, suc, ◌+◌, ◌-◌, ◌*◌, ◌≡◌, ◌≢◌, refl, Bool, true, ◌&&◌, Option, none, some, [], ◌∷◌, ◌++◌,
  arith, leb, ◌==◌, length, Result, ok, err, if◌then◌else◌,
}
use ratewall.Prelude.Text.{Text, codes, text_eq, text_eq_iff}
use ratewall.Prelude.Text.Split.{text_eq_refl, Lacks}
use ratewall.Prelude.Table.{Table, get, insert, or_default, get-insert}
use ratewall.Prelude.Decimal.{to_decimal}
use ratewall.Ratelimit.{Redis, pos}
use ratewall.Ratelimit.Window.{Counters}
use ratewall.Metrics.{Floats}
use ratewall.Http.{Http}
use ratewall.Auth.{Crypto}
use ratewall.Auth.Issue.{CryptoLaws}
use ratewall.Auth.Keys.{Files, Contents, found, not_found, Pem}
use ratewall.Router.{Outside}

-- Whether the server answers, and its counters.
abbrev pub toy_redis : Redis
toy_redis = record {
  Store = Bool × Table ℕ;
  has_connection = λ s. s.0;
  incr_expire = λ key ttl s.
      let n = or_default 0 (get key s.1) + 1 in (some (pos n), (s.0, insert key n s.1));
  ping_reply = λ s. some (codes "PONG");
}

pub toy_counts :
    (k j : Text) (s : Table ℕ)
    → or_default 0 (get j (insert k (or_default 0 (get k s) + 1) s))
      ≡ (if text_eq k j then or_default 0 (get j s) + 1 else or_default 0 (get j s))
toy_counts k j s = ground (arith, get-insert k j (or_default 0 (get k s) + 1) s, text_eq_iff k j)

unfoldable pub toy_counters : Counters toy_redis
toy_counters = record {
  Alive = λ s. s.0 ≡ true;
  count = λ s key. or_default 0 (get key s.1);
  connects = λ s a. a;
  replies = λ k ttl s a. refl;
  survives = λ k ttl s a. a;
  counts = λ k j ttl s a. toy_counts k j s.1;
}

abbrev pub toy_floats : Floats
toy_floats = record {
  F64 = ℕ;
  le = leb;
  secs_f64 = λ n. n;
  nanos = λ n. n;
  literal = λ n. n * 100_000;
  display = to_decimal;
  display_sum = to_decimal;
}

-- A body is a text, or cannot be read.
abbrev pub toy_http : Http
toy_http = record {
  Body = Option Text;
  Bytes = Text;
  no_bytes = [];
  to_str = λ v. some v;
  value_from_str = λ t. some t;
  value_from_bytes = λ v. some v;
  name_from_bytes = λ t. some t;
  method_from_bytes = λ t. some t;
  status_from_u16 = λ n. some n;
  to_bytes = λ cap b. b;
  builds = λ n h. true;
  debug = λ t. b'"' ∷ (t ++ b'"' ∷ []);
}

pub data Document : Type 0 where
  header : (alg typ : Text) → Document
  claims : (sub iss : Text) (iat exp : ℕ) → Document

abbrev pub shift : Text → Text
shift [] = []
shift (c ∷ s) = (c + 0x3001) ∷ shift s

abbrev pub unshift : Text → Text
unshift [] = []
unshift (c ∷ s) = (c - 0x3001) ∷ unshift s

abbrev pub take : ℕ → Text → Text
take zero s = []
take (suc n) [] = []
take (suc n) (c ∷ s) = c ∷ take n s

abbrev pub drop : ℕ → Text → Text
drop zero s = s
drop (suc n) [] = []
drop (suc n) (c ∷ s) = drop n s

abbrev pub write : Document → Text
write (header alg typ) = 0 ∷ length alg ∷ (alg ++ typ)
write (claims sub iss iat exp) = 1 ∷ iat ∷ exp ∷ length sub ∷ (sub ++ iss)

abbrev pub read : Text → Result Text Document
read (zero ∷ n ∷ rest) = ok (header (take n rest) (drop n rest))
read (suc zero ∷ iat ∷ exp ∷ n ∷ rest) = ok (claims (take n rest) (drop n rest) iat exp)
read _ = err (codes "no document")

abbrev pub text_field : Text → Document → Option Text
text_field key (header alg typ) = if text_eq key (codes "alg") then some alg else none
text_field key (claims sub iss iat exp) =
    if text_eq key (codes "sub")
    then some sub
    else if text_eq key (codes "iss")
    then some iss
    else none

abbrev pub number_field : Text → Document → Option ℕ
number_field key (header alg typ) = none
number_field key (claims sub iss iat exp) = if text_eq key (codes "exp") then some exp else none

abbrev pub signature_of : Text → Option (ℕ × Text)
signature_of [] = none
signature_of (k ∷ m) = some (k, m)

abbrev pub toy_crypto : Crypto
toy_crypto = record {
  Bytes = Text;
  SigningKey = ℕ;
  VerifyingKey = ℕ;
  Signature = ℕ × Text;
  Json = Document;
  verifying_key = λ k. k;
  sign = λ k m. (k, m);
  verify = λ k m s. (k == s.0) && text_eq m s.1;
  signature_from_slice = signature_of;
  signature_to_bytes = λ s. s.0 ∷ s.1;
  encode = shift;
  decode = λ s. some (unshift s);
  json_from_slice = read;
  json_to_vec = write;
  json_header = header;
  json_claims = claims;
  get_str = text_field;
  get_u64 = number_field;
}

unshift-shift : (s : Text) → unshift (shift s) ≡ s
unshift-shift [] = refl
unshift-shift (c ∷ s) = ground (arith, unshift-shift s)

shift-Lacks : (s : Text) → Lacks b'.' (shift s)
shift-Lacks [] = tt
shift-Lacks (c ∷ s) = (λ e. omega arith, shift-Lacks s)

take-append : (s t : Text) → take (length s) (s ++ t) ≡ s
take-append [] t = refl
take-append (c ∷ s) t = ground (arith, take-append s t)

drop-append : (s t : Text) → drop (length s) (s ++ t) ≡ t
drop-append [] t = refl
drop-append (c ∷ s) t = ground (arith, drop-append s t)

read-write : (d : Document) → read (write d) ≡ ok d
read-write (header alg typ) = ground (arith, take-append alg typ, drop-append alg typ)
read-write (claims sub iss iat exp) = ground (arith, take-append sub iss, drop-append sub iss)

write-ne-nil : (d : Document) → shift (write d) ≢ []
write-ne-nil (header alg typ) = ground arith
write-ne-nil (claims sub iss iat exp) = ground arith

pub toy_laws : CryptoLaws toy_crypto
unfolding text_eq
toy_laws = record {
  decode-encode = λ b. ground (arith, unshift-shift b);
  encode-Lacks = shift-Lacks;
  document-ne-nil = write-ne-nil;
  signature-ne-nil = λ s. ground arith;
  from_slice-to_vec = read-write;
  from_slice-to_bytes = λ s. refl;
  verify-sign = λ k m. ground (arith, text_eq_refl m);
  alg-header = λ alg typ. refl;
  sub-claims = λ s i iat exp. refl;
  iss-claims = λ s i iat exp. refl;
  exp-claims = λ s i iat exp. refl;
}

abbrev pub contents_of : Option Text → Contents
contents_of none = not_found
contents_of (some t) = found t

abbrev pub toy_files : Files
toy_files = record {
  Disk = Table Text;
  join = λ dir name. dir ++ b'/' ∷ name;
  read_to_string = λ path disk. contents_of (get path disk);
  create_dir_all = λ dir disk. (ok tt, disk);
  write = λ path text disk. (ok tt, insert path text disk);
  restrict = λ dir file disk. disk;
}

abbrev pub toy_pem : Pem toy_crypto
toy_pem = record {
  from_pkcs8_pem = λ t. elim t [ [] ↦ err (codes "empty") | k ∷ rest ↦ ok k ];
  to_pkcs8_pem = λ k. k ∷ [];
  to_public_key_pem = λ k. k ∷ [];
}

abbrev pub toy_outside : Outside
toy_outside = record {
  crypto = toy_crypto;
  http = toy_http;
  redis = toy_redis;
  floats = toy_floats;
}
