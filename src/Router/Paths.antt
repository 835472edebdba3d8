-- ===== src/Router/Paths.antt =====
-- Paths and the route table: what `proxy_fallback` parses, and what it is looked up in.
use ratewall.Prelude.{
  ℕ, ◌≡◌, inl, inr, refl, ap, ◌∙◌, true, false, Option, none, some, List, [], ◌∷◌, ◌++◌, arith, All,
  Option-cases, Bool-cases, subst, ok,
}
use ratewall.Prelude.Text.{Text, text_eq, text_eq_iff, split_once, trim_start, trim_end}
use ratewall.Prelude.Text.Split.{
  Lacks, split_once-append, split_once_of_Lacks, split_once_sound, trim_start_of_head,
}
use ratewall.Prelude.Table.{Table, get, insert, get-insert}
use ratewall.Prelude.Table.Order.{IsAscending, get_of_IsBelow}
use ratewall.Config.{Route, is_prefix_char, validate_routes}
use ratewall.Config.Routes.{
  IsCleanPrefix, IsAccepted, bind_route, bind_routes, validate_routes_iff, Lacks-slash,
}
use ratewall.Router.{is_slash, add_backends, backends_of, split_path, parts_of}

parts_of_shape :
    (trimmed : Text) (cut : Option (Text × Text))
    → split_once b'/' trimmed ≡ cut
    → (cut ≡ none → Lacks b'/' trimmed)
    → Lacks b'/' (parts_of trimmed cut).0
      × ((rest : Text) × ((parts_of trimmed cut).1 ≡ b'/' ∷ rest))
parts_of_shape trimmed none h lacks = (lacks refl, ([], refl))
parts_of_shape trimmed (some (p, r)) h lacks = ((split_once_sound b'/' trimmed p r h).1, (r, refl))

split_once-Lacks : (d : ℕ) (s : Text) → split_once d s ≡ none → Lacks d s
unfolding split_once
split_once-Lacks d [] h = tt
split_once-Lacks d (c ∷ s) h = ground (arith, split_once-Lacks d s, Option-cases (split_once d s))

-- The prefix of a path holds no slash, and the rest begins with one.
split_path_shape :
    (path : Text)
    → Lacks b'/' (split_path path).0 × ((rest : Text) × ((split_path path).1 ≡ b'/' ∷ rest))
unfolding split_path
split_path_shape path =
    let trimmed = trim_start is_slash path in
    parts_of_shape trimmed (split_once b'/' trimmed) refl (split_once-Lacks b'/' trimmed)

pub not_slash : (c : ℕ) → is_prefix_char c ≡ true → is_slash c ≡ false
unfolding is_prefix_char
not_slash c h = ground arith

-- A path that begins with a slash and a clean prefix gives that prefix, and the rest of the path
-- from the second slash on: `/` if there is none.
pub split_path-clean :
    (prefix rest : Text)
    → IsCleanPrefix prefix
    → (split_path (b'/' ∷ (prefix ++ b'/' ∷ rest)) ≡ (prefix, b'/' ∷ rest))
      × (split_path (b'/' ∷ prefix) ≡ (prefix, b'/' ∷ []))
unfolding split_path
split_path-clean [] rest (ne, clean) = absurd (ne refl)
split_path-clean (c ∷ prefix) rest (ne, clean) =
    let lacks = Lacks-slash (c ∷ prefix) clean in
    let kept = not_slash c clean.0 in
    (
      ground (
        arith,
        trim_start_of_head is_slash c (prefix ++ b'/' ∷ rest) kept,
        trim_start_of_head is_slash b'/' (c ∷ (prefix ++ b'/' ∷ rest)),
        split_once-append b'/' (c ∷ prefix) rest lacks,
      ),
      ground (
        arith,
        trim_start_of_head is_slash c prefix kept,
        split_once_of_Lacks b'/' (c ∷ prefix) lacks,
      ),
    )

add_backends_other :
    (table : Table Text) (prefix : Text) (backends : Table Text)
    → get prefix table ≡ none
    → get prefix (add_backends (bind_routes table) backends) ≡ get prefix backends
unfolding add_backends get
add_backends_other [] prefix backends h = refl
add_backends_other ((p, url) ∷ rest) prefix backends h =
    add_backends_other rest prefix (insert p (bind_route (p, url)).backend backends) (ground arith)
    ∙ (get-insert p prefix (bind_route (p, url)).backend backends ∙ ground arith)

add_backends_own :
    (table : Table Text) (prefix url : Text) (backends : Table Text)
    → IsAscending table
    → get prefix table ≡ some url
    → get prefix (add_backends (bind_routes table) backends) ≡ some (trim_end is_slash url)
unfolding add_backends get
add_backends_own [] prefix url backends a h = cc
add_backends_own ((p, v) ∷ rest) prefix url backends a h = elim (Bool-cases (text_eq p prefix)) [
  | inr other ↦
      add_backends_own rest prefix url (insert p (bind_route (p, v)).backend backends) a.1
        (ground arith)
  | inl same ↦
      let e : p ≡ prefix = (text_eq_iff p prefix).0 same in
      let e' : v ≡ url = ground arith in
      add_backends_other rest prefix (insert p (bind_route (p, v)).backend backends)
        (subst (λ q. get q rest ≡ none) e (get_of_IsBelow p rest a.0))
      ∙ (get-insert p prefix (bind_route (p, v)).backend backends
          ∙ (rw same (ap (λ x. some (trim_end is_slash x)) e')))
]

pub All-get :
    (table : Table Text) (prefix url : Text)
    → All IsAccepted table
    → get prefix table ≡ some url
    → IsAccepted (prefix, url)
unfolding get
All-get [] prefix url a h = cc
All-get ((p, v) ∷ rest) prefix url a h = elim (Bool-cases (text_eq p prefix)) [
  | inr other ↦ All-get rest prefix url a.1 (ground arith)
  | inl same ↦
      let e : p ≡ prefix = (text_eq_iff p prefix).0 same in
      let e' : v ≡ url = ground arith in
      subst (λ q. IsAccepted (q, url)) e (subst (λ w. IsAccepted (p, w)) e' a.0)
]

-- Every entry of a route table that validation accepts is served: a path of its prefix, with or
-- without a rest, is split at the prefix, and the proxy finds the entry's backend there, less
-- its trailing slashes. The table's keys are in order, as those of a `BTreeMap` are.
pub validated_routes_served :
    (table : Table Text) (routes : List Route) (prefix url rest : Text)
    → IsAscending table
    → validate_routes table ≡ ok routes
    → get prefix table ≡ some url
    → (split_path (b'/' ∷ (prefix ++ b'/' ∷ rest)) ≡ (prefix, b'/' ∷ rest))
      × (split_path (b'/' ∷ prefix) ≡ (prefix, b'/' ∷ []))
      × (get prefix (backends_of routes) ≡ some (trim_end is_slash url))
unfolding backends_of
validated_routes_served table routes prefix url rest a v h =
    let (accepted, same) = (validate_routes_iff table routes).0 v in
    let (long, short) = split_path-clean prefix rest (All-get table prefix url accepted h).0 in
    (long, short, rw same (add_backends_own table prefix url [] a h))
