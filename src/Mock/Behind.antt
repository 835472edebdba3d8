-- ===== src/Mock/Behind.antt =====
-- A stub (mock-backends/src) behind the gateway. Between them stands the HTTP client, which parses
-- the target of a request as a URL: `client` gives the path that it then asks for.
use ratewall.Prelude.{
  ℕ, ◌≡◌, ◌≢◌, ◌⊎◌, inl, inr, refl, sym, ap, ◌∙◌, Bool, true, ◌||◌, ◌&&◌, leb, ◌==◌, arith, Option,
  some, [], ◌∷◌, ◌++◌, All,
}
use ratewall.Prelude.Text.{Text, codes, split}
use ratewall.Prelude.Text.Split.{Lacks}
use ratewall.Prelude.Table.{get, or_default}
use ratewall.Http.{Request, ok_200}
use ratewall.Config.Routes.{IsCleanPrefix}
use ratewall.Router.{Outside, Outgoing, ProxyState, Shared, Moment, split_path}
use ratewall.Router.Paths.{split_path-clean}
use ratewall.Router.Forward.{outgoing, query_text}
use ratewall.Router.Fallback.{proxy_fallback}
use ratewall.Router.Order.{IsOpen, proxy_fallback-contacted}
use ratewall.Mock.{Service, echo_body, serve, Captures}

-- The characters that a URL takes as they are in a path: the unreserved ones, and the slash.
unfoldable pub is_path_char : ℕ → Bool
is_path_char c =
    leb b'a' c && leb c b'z'
    || leb b'A' c && leb c b'Z'
    || leb b'0' c && leb c b'9'
    || c == b'-'
    || c == b'.'
    || c == b'_'
    || c == b'~'
    || c == b'/'

-- Such characters only, and no segment `.` or `..`.
pub record IsNormal (path : Text) : Type 0 where
  pub plain : All (λ c. is_path_char c ≡ true) path
  pub no_dots : All (λ segment. (segment ≢ codes ".") × (segment ≢ codes "..")) (split b'/' path)

-- What the URL standard says of the URL of an origin: a normal path behind it is the path of the
-- whole, with a query or without.
abbrev pub IsOrigin : Outside → (client : Text → Option Text) → Text → Type 0
IsOrigin o client url =
    (path : Text) (query : Option Text)
    → IsNormal path
    → Lacks b'#' (query_text o query)
    → client (url ++ (b'/' ∷ path ++ query_text o query)) ≡ some (b'/' ∷ path)

Lacks-percent : (path : Text) → All (λ c. is_path_char c ≡ true) path → Lacks b'%' path
unfolding is_path_char
Lacks-percent [] h = tt
Lacks-percent (c ∷ path) (here, h) = (ground arith, Lacks-percent path h)

module _ (capture : Text → Option Text) (documented : Captures capture) (service : Service)
    (mock_service : Option Text) where
  serve-echo_body :
      (rest : Text)
      → Lacks b'%' rest
      → serve capture service mock_service (b'/' ∷ rest) ≡ echo_body mock_service rest
  unfolding serve
  serve-echo_body [] h = rw documented.root refl
  serve-echo_body (c ∷ rest) h = rw (documented.rest (c ∷ rest) (λ e. cc) h) refl

  module _ (o : Outside) (client : Text → Option Text) (state : ProxyState o)
      (request : Request o.http) (m : Moment o) (s : Shared o) (out : Outgoing o)
      (prefix rest url : Text) where
    outgoing-target :
        (body : o.http.Bytes)
        → (outgoing o state url (b'/' ∷ rest) request body).target
          ≡ url ++ (b'/' ∷ rest ++ query_text o request.query)
    unfolding outgoing
    outgoing-target body = refl

    asked_for :
        split_path request.path ≡ (prefix, b'/' ∷ rest)
        → get prefix state.backends ≡ some url
        → IsOpen o state request m s out
        → out.target ≡ url ++ (b'/' ∷ rest ++ query_text o request.query)
    asked_for parts routed way =
        let same : way.backend ≡ url = ground (arith, way.routed, parts, routed) in
        ap (λ x. x.target) way.request_sent
        ∙ ap (λ (p : Text × Text). (outgoing o state way.backend p.1 request way.body).target) parts
        ∙ ap (λ b. (outgoing o state b (b'/' ∷ rest) request way.body).target) same
        ∙ outgoing-target way.body

    -- A request that the gateway hands to the HTTP client asks a stub behind it for the path behind
    -- the prefix, or for the slash if the path is the bare prefix, and the stub answers with 200,
    -- its service name and that path. This is for a clean prefix that is routed to an origin, a rest
    -- of plain characters without the segments `.` and `..`, and a query without `#`. How the client
    -- reads a URL of that origin, and axum the stub's paths, is assumed as their documents say.
    pub proxy_fallback-serve :
        IsCleanPrefix prefix
        → IsNormal rest
        → get prefix state.backends ≡ some url
        → IsOrigin o client url
        → Lacks b'#' (query_text o request.query)
        → (request.path ≡ b'/' ∷ (prefix ++ b'/' ∷ rest))
          ⊎ ((request.path ≡ b'/' ∷ prefix) × (rest ≡ []))
        → (proxy_fallback o state request m s).contacted ≡ some out
        → (asked : Text) × (client out.target ≡ some asked)
          × (serve capture service mock_service asked ≡ record {
            status = ok_200;
            service = or_default [] mock_service;
            path = b'/' ∷ rest;
          })
    unfolding echo_body
    proxy_fallback-serve clean normal routed origin plain path contacted =
        let way = (proxy_fallback-contacted o state request m s out).0 contacted in
        let (long, short) = split_path-clean prefix rest clean in
        let parts : split_path request.path ≡ (prefix, b'/' ∷ rest) = elim path [
          | inl e ↦ ap split_path e ∙ long
          | inr (e, bare) ↦ ap split_path e ∙ short ∙ ap (λ r. (prefix, b'/' ∷ r)) (sym bare)
        ] in
        (
          b'/' ∷ rest,
          ap client (asked_for parts routed way) ∙ origin rest request.query normal plain,
          serve-echo_body rest (Lacks-percent rest normal.plain),
        )
