-- ===== src/Prelude/Text/Split.antt =====
-- Laws of the splits, the trims and the prefix tests.
use Prim.Native.Nat.{ℕ}
use mathlib.Core.Path.{◌≡◌, refl}
use mathlib.Core.Logic.{◌≢◌, inl, inr}
use mathlib.Core.Bool.{Bool, true, false, not, ◌&&◌}
use mathlib.Core.Option.{none, some}
use mathlib.Core.List.{List, [], ◌∷◌, ◌++◌}
use native.Mathlib.Omega.{arith}
use package.ratewall.Prelude.Tests.{◌==◌, Bool-cases, Option-cases}
use package.ratewall.Prelude.Lists.{All, all, is_empty}
use package.ratewall.Prelude.Text.{
  Text, text_eq, text_eq_iff, strip_prefix, trim_start, trim_end, split_once, split,
}

pub text_eq_refl : (s : Text) → text_eq s s ≡ true
text_eq_refl s = (text_eq_iff s s).1 refl

abbrev pub Lacks : ℕ → Text → Type 0
Lacks d = All (λ c. c ≢ d)

pub Lacks-literal : (d : ℕ) (s : Text) → all (λ c. not (c == d)) s ≡ true → Lacks d s
Lacks-literal d [] h = tt
Lacks-literal d (c ∷ s) h = (ground arith, Lacks-literal d s (ground arith))

pub split_once-append : (d : ℕ) (p r : Text) → Lacks d p → split_once d (p ++ d ∷ r) ≡ some (p, r)
unfolding split_once
split_once-append d [] r h = ground arith
split_once-append d (c ∷ p) r h = ground (arith, split_once-append d p r h.1)

pub split_once_of_Lacks : (d : ℕ) (s : Text) → Lacks d s → split_once d s ≡ none
unfolding split_once
split_once_of_Lacks d [] h = refl
split_once_of_Lacks d (c ∷ s) h = ground (arith, split_once_of_Lacks d s h.1)

-- What a successful `split_once` says of its input.
pub split_once_sound :
    (d : ℕ) (s p r : Text) → split_once d s ≡ some (p, r) → (s ≡ p ++ d ∷ r) × Lacks d p
unfolding split_once
split_once_sound d [] p r h = cc
split_once_sound d (c ∷ s) [] r h = ground (arith, Option-cases (split_once d s))
split_once_sound d (c ∷ s) (b ∷ p) r h = ground (arith, split_once_sound d s p r)

split-ne-nil : (d : ℕ) (s : Text) → split d s ≢ []
unfolding split
split-ne-nil d [] = cc
split-ne-nil d (c ∷ s) = ground arith

pub split_of_Lacks : (d : ℕ) (s : Text) → Lacks d s → split d s ≡ s ∷ []
unfolding split
split_of_Lacks d [] h = refl
split_of_Lacks d (c ∷ s) h = ground (arith, split_of_Lacks d s h.1)

pub split-append : (d : ℕ) (p r : Text) → Lacks d p → split d (p ++ d ∷ r) ≡ p ∷ split d r
unfolding split
split-append d [] r h = ground arith
split-append d (c ∷ p) r h = ground (arith, split-append d p r h.1)

pub strip_prefix-append : (p s : Text) → strip_prefix p (p ++ s) ≡ some s
unfolding strip_prefix
strip_prefix-append [] s = refl
strip_prefix-append (c ∷ p) s = ground (arith, strip_prefix-append p s)

pub strip_prefix_sound : (p s t : Text) → strip_prefix p s ≡ some t → s ≡ p ++ t
unfolding strip_prefix
strip_prefix_sound [] s t h = ground arith
strip_prefix_sound (c ∷ p) [] t h = cc
strip_prefix_sound (c ∷ p) (b ∷ s) t h = ground (arith, strip_prefix_sound p s t)

trim_start_head :
    (p : ℕ → Bool) (s : Text) (c : ℕ) (r : Text) → trim_start p s ≡ c ∷ r → p c ≡ false
unfolding trim_start
trim_start_head p [] c r h = cc
trim_start_head p (b ∷ s) c r h = ground (arith, trim_start_head p s c r)

pub trim_start_of_head :
    (p : ℕ → Bool) (c : ℕ) (s : Text) → p c ≡ false → trim_start p (c ∷ s) ≡ c ∷ s
unfolding trim_start
trim_start_of_head p c s h = ground arith

-- `trim_end` cuts off a tail of trimmed characters, and what stays does not end in one.
trim_end_sound :
    (p : ℕ → Bool) (s : Text)
    → (tail : Text) × (s ≡ trim_end p s ++ tail) × All (λ c. p c ≡ true) tail
unfolding trim_end
trim_end_sound p [] = ([], refl, tt)
trim_end_sound p (c ∷ s) =
    let (tail, e, h) = trim_end_sound p s in
    elim (Bool-cases (p c && is_empty (trim_end p s))) [
      | inl cut ↦ (c ∷ tail, ground arith, ground arith)
      | inr kept ↦ (tail, ground arith, h)
    ]

pub trim_end_last : (p : ℕ → Bool) (s r : Text) (c : ℕ) → trim_end p s ≡ r ++ c ∷ [] → p c ≡ false
unfolding trim_end
trim_end_last p [] [] c h = cc
trim_end_last p [] (b ∷ r) c h = cc
trim_end_last p (a ∷ s) [] c h = ground arith
trim_end_last p (a ∷ s) (b ∷ r) c h = ground (arith, trim_end_last p s r c)

-- What a part of a `split` says of the input.
pub split_one_sound : (d : ℕ) (s p : Text) → split d s ≡ p ∷ [] → (s ≡ p) × Lacks d p
unfolding split
split_one_sound d [] [] h = (refl, tt)
split_one_sound d [] (b ∷ p) h = absurd (ground arith)
split_one_sound d (c ∷ s) [] h = absurd (ground (arith, split-ne-nil d s))
split_one_sound d (c ∷ s) (b ∷ p) h = ground (arith, split-ne-nil d s, split_one_sound d s p)

pub split_more_sound :
    (d : ℕ) (s p q : Text) (rest : List Text)
    → split d s ≡ p ∷ q ∷ rest
    → (r : Text) × (s ≡ p ++ d ∷ r) × Lacks d p × (split d r ≡ q ∷ rest)
unfolding split
split_more_sound d [] p q rest h = cc
split_more_sound d (c ∷ s) [] q rest h =
    (s, ground (arith, split-ne-nil d s), tt, ground (arith, split-ne-nil d s))
split_more_sound d (c ∷ s) (b ∷ p) q rest h =
    let later : (split d s ≡ p ∷ q ∷ rest) × (c ≡ b) × (c ≢ d) = ground (arith, split-ne-nil d s) in
    let (r, e, lacks, more) = split_more_sound d s p q rest later.0 in
    (r, ground arith, ground arith, more)
