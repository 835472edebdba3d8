-- ===== src/Middleware.antt =====
-- core/src/middleware.rs: the request id. The span and the log lines are left out.
use ratewall.Prelude.{
  ℕ, ◌≤◌, ◌≡◌, ◌≢◌, refl, not, ◌&&◌, Option, none, some, List, [], ◌∷◌, arith, is_empty, leb,
  if◌then◌else◌,
}
use ratewall.Prelude.Text.{Text, codes, text_eq, text_eq_iff, utf8_len}
use ratewall.Prelude.Table.{get, or_default}
use ratewall.Http.{Http, HeaderMap, Request, Response, header_text}

abbrev pub request_id_header : Text
request_id_header = codes "x-request-id"

abbrev usable : Option Text → Option Text
usable none = none
usable (some id) = if not (is_empty id) && leb (utf8_len id) 128 then some id else none

-- `HeaderMap::insert`: the values that the name had are gone.
without : Text → HeaderMap → HeaderMap
without name [] = []
without name ((n, v) ∷ rest) =
    let others = without name rest in if text_eq n name then others else (n, v) ∷ others

abbrev set_header : Text → Option (List ℕ) → HeaderMap → HeaderMap
set_header name none headers = headers
set_header name (some v) headers = (name, v) ∷ without name headers

module _ (http : Http) where
  -- `generated` is the UUID that would be made.
  pub request_id : Text → Request http → Text
  request_id generated request =
      or_default generated (usable (header_text http request_id_header request.headers))

  unfoldable pub request_id_and_trace :
      (Request http → Response http) → Text → Request http → Response http
  unfolding without request_id
  request_id_and_trace next generated request =
      let response = next request in
      record response {
        headers =
            set_header request_id_header (http.value_from_str (request_id generated request))
              response.headers;
      }

-- The status is the handler's.
pub request_id_and_trace-status :
    (http : Http) (next : Request http → Response http) (generated : Text) (request : Request http)
    → (request_id_and_trace http next generated request).status ≡ (next request).status
unfolding request_id_and_trace
request_id_and_trace-status http next generated request = refl

get-without_other :
    (name other : Text) (headers : HeaderMap)
    → name ≢ other
    → get other (without name headers) ≡ get other headers
unfolding get without
get-without_other name other [] h = refl
get-without_other name other ((n, v) ∷ rest) h =
    ground (arith, get-without_other name other rest h, text_eq_iff n name, text_eq_iff n other)

get-set_header_own :
    (name : Text) (v : List ℕ) (headers : HeaderMap)
    → get name (set_header name (some v) headers) ≡ some v
unfolding get
get-set_header_own name v headers = ground (arith, text_eq_iff name name)

get-set_header_other :
    (name other : Text) (v : Option (List ℕ)) (headers : HeaderMap)
    → name ≢ other
    → get other (set_header name v headers) ≡ get other headers
unfolding get
get-set_header_other name other none headers h = refl
get-set_header_other name other (some v) headers h =
    ground (arith, text_eq_iff name other, get-without_other name other headers h)

usable_bounds :
    (generated : Text) (incoming : Option Text)
    → generated ≢ []
    → utf8_len generated ≤ 128
    → (or_default generated (usable incoming) ≢ [])
      × (utf8_len (or_default generated (usable incoming)) ≤ 128)
      × ((id : Text)
          → incoming ≡ some id
          → id ≢ []
          → utf8_len id ≤ 128
          → or_default generated (usable incoming) ≡ id)
usable_bounds generated none h k = (h, k, λ id e. absurd (ground arith))
usable_bounds generated (some id) h k = (ground arith, ground arith, λ i e p q. ground arith)

-- If the request id is a legal header value, a traced response carries the request's id, which is
-- the caller's own if that is not empty and has at most 128 bytes, and is never empty nor longer
-- if the generated ids are not. All other headers are those of the handler, and so are the status
-- and the body.
pub request_id_and_trace_lem :
    (http : Http) (next : Request http → Response http) (generated : Text) (request : Request http)
    (value : List ℕ)
    → generated ≢ []
    → utf8_len generated ≤ 128
    → http.value_from_str (request_id http generated request) ≡ some value
    → (request_id http generated request ≢ [])
      × (utf8_len (request_id http generated request) ≤ 128)
      × ((id : Text)
          → header_text http request_id_header request.headers ≡ some id
          → id ≢ []
          → utf8_len id ≤ 128
          → request_id http generated request ≡ id)
      × (get request_id_header (request_id_and_trace http next generated request).headers
          ≡ some value)
      × ((other : Text)
          → request_id_header ≢ other
          → get other (request_id_and_trace http next generated request).headers
            ≡ get other (next request).headers)
      × ((request_id_and_trace http next generated request).status ≡ (next request).status)
      × ((request_id_and_trace http next generated request).body ≡ (next request).body)
unfolding request_id_and_trace request_id
request_id_and_trace_lem http next generated request value h k e =
    let (full, short, own) =
      usable_bounds generated (header_text http request_id_header request.headers) h k in
    (
      full,
      short,
      own,
      rw e (get-set_header_own request_id_header value (next request).headers),
      λ other differs.
          get-set_header_other request_id_header other _ (next request).headers differs,
      refl,
      refl,
    )
