-- ===== src/Auth/Bearer.antt =====
-- What `bearer_token` extracts.
use ratewall.Prelude.{
  ◌≡◌, ◌≢◌, ◌↔◌, refl, false, some, [], ◌∷◌, ◌++◌, arith, All, inl, inr, Option-cases,
}
use ratewall.Prelude.Text.{Text, codes, strip_prefix, trim, trim_end, any_char, is_whitespace}
use ratewall.Prelude.Text.Split.{strip_prefix-append, strip_prefix_sound}
use ratewall.Auth.{bearer_token}

-- No character of the text is white space.
abbrev pub IsSolid : Text → Type 0
IsSolid = All (λ c. is_whitespace c ≡ false)

any_char_iff : (s : Text) → (any_char is_whitespace s ≡ false) ↔ IsSolid s
unfolding any_char
any_char_iff [] = ground arith
any_char_iff (c ∷ s) = ground (arith, any_char_iff s)

trim_end_of_IsSolid : (s : Text) → IsSolid s → trim_end is_whitespace s ≡ s
unfolding trim_end
trim_end_of_IsSolid [] h = refl
trim_end_of_IsSolid (c ∷ s) h = ground (arith, trim_end_of_IsSolid s h.1)

trim_of_IsSolid : (s : Text) → IsSolid s → trim s ≡ s
unfolding trim
trim_of_IsSolid [] h = refl
trim_of_IsSolid (c ∷ s) h = ground (arith, trim_end_of_IsSolid (c ∷ s) h)

-- Whatever the header, a token that is extracted is not empty and holds no white space, and the
-- header begins with `Bearer ` followed by a text that trims to the token.
bearer_token_sound :
    (value token : Text)
    → bearer_token (some value) ≡ some token
    → (rest : Text) × (value ≡ codes "Bearer " ++ rest)
      × (trim rest ≡ token)
      × (token ≢ [])
      × IsSolid token
unfolding bearer_token
bearer_token_sound value token h = elim (Option-cases (strip_prefix (codes "Bearer ") value)) [
  | inl missing ↦ absurd (ground arith)
  | inr (rest, found) ↦
      let same : trim rest ≡ token = ground arith in
      (
        rest,
        strip_prefix_sound (codes "Bearer ") value rest found,
        same,
        ground arith,
        (any_char_iff token).0 (ground arith),
      )
]

-- `Bearer ` in front of a non-empty token without white space gives the token back.
pub bearer_token-append :
    (token : Text)
    → token ≢ []
    → IsSolid token
    → bearer_token (some (codes "Bearer " ++ token)) ≡ some token
unfolding bearer_token
bearer_token-append token ne solid = ground (
  arith,
  strip_prefix-append (codes "Bearer ") token,
  trim_of_IsSolid token solid,
  any_char_iff token,
)
