-- ===== src/Metrics/Render/Scrape.antt =====
-- A scraper reads the rendered text back: line by line, each sample into its label and its value.
use ratewall.Prelude.{
  ℕ, ◌≡◌, refl, ap, ◌∙◌, sym, Option, none, some, List, [], ◌∷◌, ◌++◌, map, All, all, not, ◌==◌,
  Bool,
}
use mathlib.Core.List.{append_assoc}
use ratewall.Prelude.Text.{Text, codes, strip_prefix, split_once, split}
use ratewall.Prelude.Text.Split.{Lacks, split-append}
use ratewall.Prelude.Decimal.{value_from}
use ratewall.Metrics.Render.{lines}

-- `name{prefix="…"} value`
abbrev pub opening : Text → Text
opening name = name ++ codes "{prefix=\""

abbrev pub with_value : Text → Option Text → Option (Text × ℕ)
with_value label none = none
with_value label (some value) = some (label, value_from 0 value)

abbrev pub after_label : Option (Text × Text) → Option (Text × ℕ)
after_label none = none
after_label (some (label, tail)) = with_value label (strip_prefix (codes "} ") tail)

abbrev pub after_name : Option Text → Option (Text × ℕ)
after_name none = none
after_name (some rest) = after_label (split_once b'"' rest)

abbrev pub read_line : Text → Text → Option (Text × ℕ)
read_line name line = after_name (strip_prefix (opening name) line)

abbrev pub add_sample : Option (Text × ℕ) → List (Text × ℕ) → List (Text × ℕ)
add_sample none rest = rest
add_sample (some s) rest = s ∷ rest

abbrev pub read_lines : Text → List Text → List (Text × ℕ)
read_lines name [] = []
read_lines name (line ∷ rest) = add_sample (read_line name line) (read_lines name rest)

-- The samples of a family in a rendered text.
abbrev pub samples : Text → Text → List (Text × ℕ)
samples name text = read_lines name (split b'\n' text)

abbrev pub flat_map {ℓ} : {A : Type ℓ} → (A → List (Text × ℕ)) → List A → List (Text × ℕ)
flat_map g [] = []
flat_map g (l ∷ labels) = g l ++ flat_map g labels

-- Whatever text follows, the scraper reads these samples before it.
abbrev pub Reads : Text → Text → List (Text × ℕ) → Type 0
Reads name text found = (r : Text) → samples name (text ++ r) ≡ found ++ samples name r

module _ (name : Text) where
  pub Reads-append :
      (a b : Text) (found more : List (Text × ℕ))
      → Reads name a found
      → Reads name b more
      → Reads name (a ++ b) (found ++ more)
  Reads-append a b found more h k r =
      ap (samples name) (append_assoc a b r)
      ∙ h (b ++ r)
      ∙ ap (λ rest. found ++ rest) (k r)
      ∙ sym (append_assoc found more (samples name r))

  pub Reads-line :
      (line : Text) (read : Option (Text × ℕ))
      → Lacks b'\n' line
      → read_line name line ≡ read
      → Reads name (line ++ codes "\n") (add_sample read [])
  Reads-line line read h e r =
      ap (samples name) (append_assoc line (codes "\n") r)
      ∙ ap (read_lines name) (split-append b'\n' line r h)
      ∙ one e
    where
      one :
          {o : Option (Text × ℕ)}
          → o ≡ read
          → add_sample o (samples name r) ≡ add_sample read [] ++ samples name r
      one {o = none} k = rw (sym k) refl
      one {o = some _} k = rw (sym k) refl

  -- One text per label, each with its own samples, or all of them with none.
  pub Reads-lines :
      {A : Type 0} (Good : A → Type 0) (f : A → Text) (g : A → List (Text × ℕ)) (labels : List A)
      → ((label : A) → Good label → Reads name (f label) (g label))
      → All Good labels
      → Reads name (lines (map f labels)) (flat_map g labels)
  Reads-lines Good f g [] h good = λ r. refl
  Reads-lines Good f g (l ∷ labels) h good =
      Reads-append (f l) (lines (map f labels)) (g l) (flat_map g labels) (h l good.0)
        (Reads-lines Good f g labels h good.1)

pub flat_map-none : {A : Type 0} → (labels : List A) → flat_map (λ _. []) labels ≡ []
flat_map-none [] = refl
flat_map-none (l ∷ labels) = flat_map-none labels

pub Reads-silent :
    (name : Text) {A : Type 0} (Good : A → Type 0) (f : A → Text) (labels : List A)
    → ((label : A) → Good label → Reads name (f label) [])
    → All Good labels
    → Reads name (lines (map f labels)) []
Reads-silent name Good f labels h good r =
    Reads-lines name Good f (λ _. []) labels h good r
    ∙ ap (λ found. found ++ samples name r) (flat_map-none labels)

abbrev pub is_flat : Text → Bool
is_flat = all (λ c. not (c == b'\n'))
