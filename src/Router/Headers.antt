-- ===== src/Router/Headers.antt =====
-- Which headers `forward` sends on to a backend, and which it passes back.
use ratewall.Prelude.{
  ℕ, ◌≡◌, ◌⊎◌, ◌↔◌, refl, sym, ap, ◌∙◌, subst, inl, inr, false, Option, none, some, List, [], ◌∷◌,
  arith, if◌then◌else◌, Option-cases,
}
use mathlib.Core.List.{filter_map}
use mathlib.Core.Option.{Option-elim}
use ratewall.Prelude.Text.{Text}
use ratewall.Http.{Http, HeaderMap}
use ratewall.Router.{is_hop_by_hop_name, request_headers, response_headers}

-- The entry stands in the list.
abbrev pub Has : {A : Type 0} → A → List A → Type 0
Has a [] = ⊥
Has a (b ∷ rest) = (b ≡ a) ⊎ Has a rest

module _ {A B : Type 0} (f : A → Option B) where
  filter_map-nil : filter_map f [] ≡ []
  unfolding filter_map
  filter_map-nil = refl

  filter_map-none : (x : A) (xs : List A) → f x ≡ none → filter_map f (x ∷ xs) ≡ filter_map f xs
  unfolding filter_map Option-elim
  filter_map-none x xs e = rw e refl

  filter_map-some :
      (x : A) (xs : List A) (c : B) → f x ≡ some c → filter_map f (x ∷ xs) ≡ c ∷ filter_map f xs
  unfolding filter_map Option-elim
  filter_map-some x xs c e = rw e refl

  -- An element on which the map gives the result.
  abbrev From : B → List A → Type 0
  From b xs = (a : A) × Has a xs × (f a ≡ some b)

  Has-From :
      (b : B) (x : A) (xs : List A)
      → (Has b (filter_map f xs) → From b xs)
      → Has b (filter_map f (x ∷ xs))
      → From b (x ∷ xs)
  Has-From b x xs rest h = elim (Option-cases (f x)) [
    | inl e ↦ let (a, i, s) = rest (subst (Has b) (filter_map-none x xs e) h) in (a, inr i, s)
    | inr (c, e) ↦ elim (subst (Has b) (filter_map-some x xs c e) h) [
      | inl same ↦ (x, inl refl, e ∙ ap (λ y. some y) same)
      | inr later ↦ let (a, i, s) = rest later in (a, inr i, s)
    ]
  ]

  From-Has :
      (b : B) (x : A) (xs : List A)
      → (From b xs → Has b (filter_map f xs))
      → From b (x ∷ xs)
      → Has b (filter_map f (x ∷ xs))
  From-Has b x xs rest (a, inl same, s) =
      subst (Has b) (sym (filter_map-some x xs b (ap f same ∙ s))) (inl refl)
  From-Has b x xs rest (a, inr i, s) = elim (Option-cases (f x)) [
    | inl e ↦ subst (Has b) (sym (filter_map-none x xs e)) (rest (a, i, s))
    | inr (c, e) ↦ subst (Has b) (sym (filter_map-some x xs c e)) (inr (rest (a, i, s)))
  ]

  -- What a map with gaps gives is what it gives on an element.
  Has-filter_map : (b : B) (xs : List A) → Has b (filter_map f xs) ↔ From b xs
  Has-filter_map b [] = (λ h. absurd (subst (Has b) filter_map-nil h), λ (a, i, e). absurd i)
  Has-filter_map b (x ∷ xs) =
      let (to, from) = Has-filter_map b xs in (Has-From b x xs to, From-Has b x xs from)

module _ (http : Http) where
  -- What becomes of one header of a request, and of one of a response.
  abbrev with_text : Text → Option Text → Option (Text × Text)
  with_text name none = none
  with_text name (some text) = some (name, text)

  sent_on : Text × List ℕ → Option (Text × Text)
  sent_on (name, value) =
      if is_hop_by_hop_name name then none else with_text name (http.to_str value)

  abbrev both : Option Text → Option (List ℕ) → Option (Text × List ℕ)
  both (some name) (some value) = some (name, value)
  both _ _ = none

  passed_back : Text × List ℕ → Option (Text × List ℕ)
  passed_back (name, value) =
      if is_hop_by_hop_name name
      then none
      else both (http.name_from_bytes name) (http.value_from_bytes value)

  request_headers-filter_map :
      (headers : HeaderMap) → request_headers http headers ≡ filter_map sent_on headers
  unfolding request_headers filter_map Option-elim sent_on
  request_headers-filter_map [] = refl
  request_headers-filter_map ((name, value) ∷ rest) =
      ground (arith, request_headers-filter_map rest)

  response_headers-filter_map :
      (headers : HeaderMap) → response_headers http headers ≡ filter_map passed_back headers
  unfolding response_headers filter_map Option-elim passed_back
  response_headers-filter_map [] = refl
  response_headers-filter_map ((name, value) ∷ rest) =
      ground (arith, response_headers-filter_map rest)

  sent_on_iff :
      (n : Text) (v : List ℕ) (name text : Text)
      → (sent_on (n, v) ≡ some (name, text))
        ↔ ((n ≡ name) × (is_hop_by_hop_name n ≡ false) × (http.to_str v ≡ some text))
  unfolding sent_on
  sent_on_iff n v name text = ground arith

  passed_back_iff :
      (n : Text) (v : List ℕ) (name : Text) (value : List ℕ)
      → (passed_back (n, v) ≡ some (name, value)) ↔ (
          (is_hop_by_hop_name n ≡ false)
          × (http.name_from_bytes n ≡ some name)
          × (http.value_from_bytes v ≡ some value))
  unfolding passed_back
  passed_back_iff n v name value = ground arith

  -- A readable header of the caller that is not hop-by-hop.
  abbrev pub SentFrom : HeaderMap → (name text : Text) → Type 0
  SentFrom headers name text =
      (value : List ℕ) × Has (name, value) headers
      × (is_hop_by_hop_name name ≡ false)
      × (http.to_str value ≡ some text)

  -- A header of the backend that is not hop-by-hop and that converts.
  abbrev pub PassedFrom : HeaderMap → (name : Text) (value : List ℕ) → Type 0
  PassedFrom headers name value =
      (n : Text) × (v : List ℕ) × Has (n, v) headers
      × (is_hop_by_hop_name n ≡ false)
      × (http.name_from_bytes n ≡ some name)
      × (http.value_from_bytes v ≡ some value)

  -- A header, `host` like any other, is handed to the HTTP client exactly if the caller sent it, its
  -- value is readable, and its name is none of the eight that the code lists as hop-by-hop. A header
  -- is passed back exactly if the backend sent it under a name that is none of these, and name and
  -- value are such as the gateway's own HTTP library accepts.
  pub headers_iff :
      (headers : HeaderMap)
      → ((name text : Text)
          → Has (name, text) (request_headers http headers) ↔ SentFrom headers name text)
        × ((name : Text) (value : List ℕ)
            → Has (name, value) (response_headers http headers) ↔ PassedFrom headers name value)
  headers_iff headers = (
    λ name text. (sent name text, sends name text),
    λ name value. (passed name value, passes name value),
  )
    where
      sent :
          (name text : Text)
          → Has (name, text) (request_headers http headers)
          → SentFrom headers name text
      sent name text h =
          let ((n, v), i, e) =
            (Has-filter_map sent_on (name, text) headers).0
              (subst (Has (name, text)) (request_headers-filter_map headers) h) in
          let (same, hop, t) = (sent_on_iff n v name text).0 e in
          (
            v,
            subst (λ x. Has (x, v) headers) same i,
            subst (λ x. is_hop_by_hop_name x ≡ false) same hop,
            t,
          )

      sends :
          (name text : Text)
          → SentFrom headers name text
          → Has (name, text) (request_headers http headers)
      sends name text (v, i, hop, t) =
          subst (Has (name, text)) (sym (request_headers-filter_map headers)) (
            (Has-filter_map sent_on (name, text) headers).1
              ((name, v), i, (sent_on_iff name v name text).1 (refl, hop, t)))

      passed :
          (name : Text) (value : List ℕ)
          → Has (name, value) (response_headers http headers)
          → PassedFrom headers name value
      passed name value h =
          let ((n, v), i, e) =
            (Has-filter_map passed_back (name, value) headers).0
              (subst (Has (name, value)) (response_headers-filter_map headers) h) in
          let (hop, k, l) = (passed_back_iff n v name value).0 e in (n, v, i, hop, k, l)

      passes :
          (name : Text) (value : List ℕ)
          → PassedFrom headers name value
          → Has (name, value) (response_headers http headers)
      passes name value (n, v, i, hop, k, l) =
          subst (Has (name, value)) (sym (response_headers-filter_map headers)) (
            (Has-filter_map passed_back (name, value) headers).1
              ((n, v), i, (passed_back_iff n v name value).1 (hop, k, l)))
