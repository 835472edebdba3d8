-- ===== src/Router/Labels.antt =====
-- The label that a rejected request is counted under, against the prefix that it would be routed
-- by.
use ratewall.Prelude.{◌≡◌, ap, refl, [], ◌∷◌, ◌++◌, arith}
use ratewall.Prelude.Text.{Text, trim_start}
use ratewall.Prelude.Text.Split.{split_once-append, split_once_of_Lacks, trim_start_of_head}
use ratewall.Config.Routes.{IsCleanPrefix, Lacks-slash}
use ratewall.Router.{is_slash, split_path, limited_prefix}
use ratewall.Router.Paths.{not_slash, split_path-clean}

-- For a clean prefix the two parses agree on a path with a second slash. On the bare path of a
-- prefix, which is routed to that prefix, a rejection is counted under the empty label.
pub limited_prefix-clean :
    (prefix rest : Text)
    → IsCleanPrefix prefix
    → (limited_prefix (b'/' ∷ (prefix ++ b'/' ∷ rest)) ≡ prefix)
      × (limited_prefix (b'/' ∷ prefix) ≡ [])
      × ((split_path (b'/' ∷ prefix)).0 ≡ prefix)
unfolding limited_prefix trim_start
limited_prefix-clean [] rest (ne, clean) = absurd (ne refl)
limited_prefix-clean (c ∷ prefix) rest (ne, clean) =
    let lacks = Lacks-slash (c ∷ prefix) clean in
    let kept = not_slash c clean.0 in
    (
      ground (
        arith,
        trim_start_of_head is_slash c (prefix ++ b'/' ∷ rest) kept,
        split_once-append b'/' (c ∷ prefix) rest lacks,
      ),
      ground (
        arith,
        trim_start_of_head is_slash c prefix kept,
        split_once_of_Lacks b'/' (c ∷ prefix) lacks,
      ),
      ap (λ parts. parts.0) (split_path-clean (c ∷ prefix) rest (ne, clean)).1,
    )
