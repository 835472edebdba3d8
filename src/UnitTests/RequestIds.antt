-- ===== src/UnitTests/RequestIds.antt =====
-- `mod tests` of core/src/middleware.rs on the request id. The UUID and the empty body are
-- arguments, and the application is a handler that answers 200.
use ratewall.Prelude.{ℕ, ◌≡◌, refl, Bool, true, false, ◌==◌, none, some, List, [], ◌∷◌}
use ratewall.Prelude.Text.{Text, codes, text_eq, utf8_len}
use ratewall.Prelude.Table.{get}
use ratewall.Http.{Http, HeaderMap, Request, Response, plain, ok_200, header_text}
use ratewall.Middleware.{request_id_header, request_id_and_trace}

module _ (http : Http) (empty : http.Body) (generated : Text) where
  abbrev ok_handler : Request http → Response http
  ok_handler request = plain http ok_200 []

  -- `app.oneshot` of a `GET /` with these headers.
  abbrev answered : HeaderMap → Response http
  answered headers = request_id_and_trace http ok_handler generated (record {
    method = codes "GET";
    path = codes "/";
    query = none;
    headers = headers;
    body = empty;
  })

  assigns_request_id_when_absent : Bool
  assigns_request_id_when_absent = elim (header_text http request_id_header (answered []).headers) [
    | none ↦ false
    | some id ↦ utf8_len id == 36
  ]

  preserves_incoming_request_id : Bool
  preserves_incoming_request_id =
      elim (get request_id_header
        (answered ((request_id_header, codes "my-trace-42") ∷ [])).headers) [
          | none ↦ false
          | some kept ↦ text_eq kept (codes "my-trace-42")
        ]

  absent_test_passes :
      (value : List ℕ)
      → http.value_from_str generated ≡ some value
      → http.to_str value ≡ some generated
      → utf8_len generated ≡ 36
      → assigns_request_id_when_absent ≡ true
  unfolding assigns_request_id_when_absent request_id_and_trace header_text get text_eq
  absent_test_passes value accepted read len =
      rw (accepted, assigns_request_id_when_absent, request_id_and_trace) (rw read (rw len refl))

  incoming_test_passes :
      http.to_str (codes "my-trace-42") ≡ some (codes "my-trace-42")
      → http.value_from_str (codes "my-trace-42") ≡ some (codes "my-trace-42")
      → preserves_incoming_request_id ≡ true
  unfolding preserves_incoming_request_id request_id_and_trace header_text get text_eq utf8_len
  incoming_test_passes read accepted =
      rw (read, preserves_incoming_request_id, request_id_and_trace, header_text) (rw accepted refl)
