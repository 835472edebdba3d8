-- ===== src/Http.antt =====
-- Requests and responses as the handlers of core/src see them. Header names are texts in lower
-- case and header values are bytes; a header map is the list of its entries, and `get` gives the
-- first value of a name. A response is what a handler hands to `into_response`: the headers that
-- axum adds by itself are left out.
use ratewall.Prelude.{ℕ, Bool, Option, none, some, List, []}
use ratewall.Prelude.Text.{Text}
use ratewall.Prelude.Table.{Table, get}

abbrev pub HeaderMap : Type 0
HeaderMap = Table (List ℕ)

-- The types and the conversions of the http and axum crates.
pub record Http : Type 1 where
  -- A request's body as it arrives, and bytes in memory with their empty value.
  pub Body : Type 0
  pub Bytes : Type 0
  pub no_bytes : Bytes
  -- `HeaderValue::to_str`, `HeaderValue::from_str` and `HeaderValue::from_bytes`.
  pub to_str : List ℕ → Option Text
  pub value_from_str : Text → Option (List ℕ)
  pub value_from_bytes : List ℕ → Option (List ℕ)
  -- `HeaderName::from_bytes`, `Method::from_bytes` and `StatusCode::from_u16`.
  pub name_from_bytes : Text → Option Text
  pub method_from_bytes : Text → Option Text
  pub status_from_u16 : ℕ → Option ℕ
  -- `to_bytes` with the gateway's cap: `none` if the body is larger or breaks off.
  pub to_bytes : ℕ → Body → Option Bytes
  -- Whether `Response::builder` accepts these parts.
  pub builds : ℕ → HeaderMap → Bool
  -- `{:?}` of a text: quoted, with escapes.
  pub debug : Text → Text

pub record Request (http : Http) : Type 0 where
  pub method : Text
  pub path : Text
  pub query : Option Text
  pub headers : HeaderMap
  pub body : http.Body

-- A text that the gateway writes, or the bytes of a backend.
pub data Payload (http : Http) : Type 0 where
  message : Text → Payload http
  payload : http.Bytes → Payload http

pub record Response (http : Http) : Type 0 where
  pub status : ℕ
  pub headers : HeaderMap
  pub body : Payload http

abbrev pub plain : (http : Http) → ℕ → Text → Response http
plain http status text = record { status = status; headers = []; body = message text }

-- `headers().get(name)` followed by `to_str`.
abbrev read_value : (http : Http) → Option (List ℕ) → Option Text
read_value http none = none
read_value http (some v) = http.to_str v

unfoldable pub header_text : (http : Http) → Text → HeaderMap → Option Text
header_text http name headers = read_value http (get name headers)

-- `StatusCode` constants.
abbrev pub ok_200 : ℕ
ok_200 = 200

abbrev pub bad_request : ℕ
bad_request = 400

abbrev pub unauthorized : ℕ
unauthorized = 401

abbrev pub not_found : ℕ
not_found = 404

abbrev pub too_many_requests : ℕ
too_many_requests = 429

abbrev pub internal_server_error : ℕ
internal_server_error = 500

abbrev pub bad_gateway : ℕ
bad_gateway = 502

abbrev pub service_unavailable : ℕ
service_unavailable = 503
