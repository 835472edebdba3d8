-- ===== src/Config/Routes.antt =====
-- What the loop over the route table accepts, and what it makes of an accepted entry.
use ratewall.Prelude.{
  ℕ, zero, suc, ◌<◌, ◌≡◌, ◌≢◌, ◌⊎◌, inl, inr, ◌↔◌, refl, Bool, true, ◌||◌, List, [], ◌∷◌, ◌++◌,
  arith, All, all, Bool-cases, ok, passed_through, ap, ◌∙◌,
}
use ratewall.Prelude.Text.{Text, codes, starts_with, trim_end, utf8_len}
use ratewall.Prelude.Text.Split.{Lacks, trim_end_last}
use ratewall.Prelude.Table.{Table}
use ratewall.Config.{Route, is_prefix_char, is_slash, validate_route, validate_routes}

-- A single path segment of ASCII letters, digits, `-` and `_`.
abbrev pub IsCleanPrefix : Text → Type 0
IsCleanPrefix prefix = (prefix ≢ []) × All (λ c. is_prefix_char c ≡ true) prefix

-- An `http://` or `https://` URL with at least one byte after `http://`.
abbrev pub IsHttpUrl : Text → Type 0
IsHttpUrl backend =
    (((rest : Text) × (backend ≡ codes "http://" ++ rest))
      ⊎ ((rest : Text) × (backend ≡ codes "https://" ++ rest)))
    × (7 < utf8_len backend)

abbrev pub IsAccepted : Text × Text → Type 0
IsAccepted (prefix, backend) = IsCleanPrefix prefix × IsHttpUrl backend

abbrev pub bind_route : Text × Text → Route
bind_route (prefix, backend) = record { prefix = prefix; backend = trim_end is_slash backend }

abbrev pub bind_routes : Table Text → List Route
bind_routes [] = []
bind_routes (entry ∷ rest) = bind_route entry ∷ bind_routes rest

all_iff : (p : ℕ → Bool) (s : Text) → (all p s ≡ true) ↔ All (λ c. p c ≡ true) s
all_iff p [] = (λ _. tt, λ _. refl)
all_iff p (c ∷ s) = ground (arith, all_iff p s)

starts_with_sound : (p s : Text) → starts_with p s ≡ true → (rest : Text) × (s ≡ p ++ rest)
unfolding starts_with
starts_with_sound [] s h = (s, refl)
starts_with_sound (c ∷ p) [] h = cc
starts_with_sound (c ∷ p) (b ∷ s) h =
    let (rest, e) = starts_with_sound p s (ground arith) in (rest, ground arith)

starts_with-append : (p s : Text) → starts_with p (p ++ s) ≡ true
unfolding starts_with
starts_with-append [] s = refl
starts_with-append (c ∷ p) s = ground (arith, starts_with-append p s)

validate_route_sound :
    (prefix backend : Text) (r : Route)
    → validate_route prefix backend ≡ ok r
    → IsAccepted (prefix, backend) × (r ≡ bind_route (prefix, backend))
unfolding validate_route
validate_route_sound prefix backend r h = ((clean, (scheme, ground arith)), ground arith)
  where
    clean : IsCleanPrefix prefix
    clean = (ground arith, (all_iff is_prefix_char prefix).0 (ground arith))

    scheme :
        ((rest : Text) × (backend ≡ codes "http://" ++ rest))
        ⊎ ((rest : Text) × (backend ≡ codes "https://" ++ rest))
    scheme = elim (Bool-cases (starts_with (codes "http://") backend)) [
      | inl plain ↦ inl (starts_with_sound (codes "http://") backend plain)
      | inr other ↦ inr (starts_with_sound (codes "https://") backend (ground arith))
    ]

validate_route_complete :
    (prefix backend : Text)
    → IsAccepted (prefix, backend)
    → validate_route prefix backend ≡ ok (bind_route (prefix, backend))
unfolding validate_route
validate_route_complete prefix backend ((ne, clean), (scheme, long)) =
    ground (arith, (all_iff is_prefix_char prefix).1 clean, has_scheme scheme)
  where
    has_scheme :
        ((rest : Text) × (backend ≡ codes "http://" ++ rest))
          ⊎ ((rest : Text) × (backend ≡ codes "https://" ++ rest))
        → (starts_with (codes "http://") backend || starts_with (codes "https://") backend) ≡ true
    has_scheme (inl (rest, e)) = rw e (ground (arith, starts_with-append (codes "http://") rest))
    has_scheme (inr (rest, e)) = rw e (ground (arith, starts_with-append (codes "https://") rest))

validate_routes_sound :
    (table : Table Text) (rs : List Route)
    → validate_routes table ≡ ok rs
    → All IsAccepted table × (rs ≡ bind_routes table)
unfolding validate_routes
validate_routes_sound [] rs h = ground arith
validate_routes_sound ((prefix, backend) ∷ rest) rs h =
    let (r, er, h') = passed_through (validate_route prefix backend) _ h in
    let (rs', ers, h'') = passed_through (validate_routes rest) _ h' in
    let (accepted, bound) = validate_route_sound prefix backend r er in
    let (others, bounds) = validate_routes_sound rest rs' ers in ((accepted, others), cc)

validate_routes_complete :
    (table : Table Text) → All IsAccepted table → validate_routes table ≡ ok (bind_routes table)
unfolding validate_routes
validate_routes_complete [] h = refl
validate_routes_complete ((prefix, backend) ∷ rest) (accepted, others) =
    rw (validate_route_complete prefix backend accepted) (rw (validate_routes_complete rest others))

-- The loop accepts a table exactly when every entry is acceptable, and then its routes are the
-- entries in the table's order, each backend without its trailing slashes.
pub validate_routes_iff :
    (table : Table Text) (rs : List Route)
    → (validate_routes table ≡ ok rs) ↔ (All IsAccepted table × (rs ≡ bind_routes table))
validate_routes_iff table rs = (
  validate_routes_sound table rs,
  λ (h : All IsAccepted table × (rs ≡ bind_routes table)).
      rw h.1 (validate_routes_complete table h.0),
)

-- No accepted backend ends in a slash, so a joined path has exactly the slash of its suffix.
bind_route-no_slash :
    (entry : Text × Text) (r : Text) (c : ℕ) → (bind_route entry).backend ≡ r ++ c ∷ [] → c ≢ b'/'
bind_route-no_slash (prefix, backend) r c e = ground (arith, trim_end_last is_slash backend r c e)

-- A clean prefix holds no slash.
pub Lacks-slash : (prefix : Text) → All (λ c. is_prefix_char c ≡ true) prefix → Lacks b'/' prefix
Lacks-slash [] h = tt
Lacks-slash (c ∷ prefix) h = (not_slash, Lacks-slash prefix h.1)
  where
    not_slash : c ≢ b'/'
    not_slash = unfold is_prefix_char in ground arith

abbrev slashes : ℕ → Text
slashes zero = []
slashes (suc n) = b'/' ∷ slashes n

trim_end-slashes : (n : ℕ) → trim_end is_slash (slashes n) ≡ []
unfolding trim_end
trim_end-slashes zero = refl
trim_end-slashes (suc n) = ground (arith, trim_end-slashes n)

trim_end-hostless : (n : ℕ) → trim_end is_slash (codes "https://" ++ slashes n) ≡ codes "https:"
unfolding trim_end
trim_end-hostless n = ground (arith, trim_end-slashes n)

-- The URL `https://`, followed by any number of slashes and no host, passes the check of every
-- clean prefix, and the route's backend is then `https:`.
validate_route-hostless :
    (prefix : Text) (n : ℕ)
    → IsCleanPrefix prefix
    → validate_route prefix (codes "https://" ++ slashes n)
      ≡ ok (record { prefix = prefix; backend = codes "https:" })
validate_route-hostless prefix n clean =
    validate_route_complete prefix (codes "https://" ++ slashes n)
      (clean, (inr (slashes n, refl), unfold utf8_len in omega arith))
    ∙ ap (λ b. ok (record { prefix = prefix; backend = b })) (trim_end-hostless n)
