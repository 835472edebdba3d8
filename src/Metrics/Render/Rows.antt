-- ===== src/Metrics/Render/Rows.antt =====
-- One row of the rendered text under the scraper: a sample of its family, or of another one.
use ratewall.Prelude.{
  All-append, ℕ, ◌≡◌, ◌≢◌, refl, ap, ◌∙◌, sym, none, some, List, [], ◌∷◌, ◌++◌, not, ◌==◌, Bool,
  true, false, ◌&&◌, ◌||◌, arith,
}
use mathlib.Core.List.{append_assoc}
use ratewall.Prelude.Text.{Text, codes, strip_prefix}
use ratewall.Prelude.Text.Split.{Lacks, split-append, split_once-append, strip_prefix-append}
use ratewall.Prelude.Decimal.{to_decimal, value_from-to_decimal, to_decimal-Lacks}
use ratewall.Metrics.Render.{quoted, sample}
use ratewall.Metrics.Render.Scrape.{
  opening, is_flat, after_name, read_line, add_sample, read_lines, samples, Reads, Reads-line,
}
use ratewall.Prelude.Text.Split.{Lacks-literal}

abbrev pub differs : Text → Text → Bool
differs (a ∷ s) (b ∷ t) = not (a == b) || differs s t
differs _ _ = false

differs_lem : (p s rest : Text) → differs p s ≡ true → strip_prefix p (s ++ rest) ≡ none
unfolding strip_prefix
differs_lem [] s rest h = cc
differs_lem (a ∷ p) [] rest h = cc
differs_lem (a ∷ p) (b ∷ s) rest h = ground (arith, differs_lem p s rest)

-- No line with this start is a sample of the family.
abbrev pub is_other : Text → Text → Bool
is_other name start = is_flat start && differs (opening name) start

abbrev pub IsOther : Text → Text → Type 0
IsOther name start = is_other name start ≡ true

pub &&-true : (a b : Bool) → a && b ≡ true → (a ≡ true) × (b ≡ true)
&&-true a b h = (ground arith, ground arith)

-- The text has the end of one line, and then the rest.
abbrev pub IsRow : Text → Text → Type 0
IsRow text rest = (line : Text) × Lacks b'\n' line × (text ≡ line ++ b'\n' ∷ rest)

pub IsRow-append : (a text rest : Text) → Lacks b'\n' a → IsRow text rest → IsRow (a ++ text) rest
IsRow-append a text rest flat (line, h, e) = (
  a ++ line,
  All-append (λ c. c ≢ b'\n') a line flat h,
  ap (λ t. a ++ t) e ∙ sym (append_assoc a line (b'\n' ∷ rest)),
)

pub IsRow-end : (rest : Text) → IsRow (codes "\n" ++ rest) rest
IsRow-end rest = ([], tt, refl)

-- A label that needs no escapes.
abbrev pub IsPlain : Text → Type 0
IsPlain label = Lacks b'"' label × Lacks b'\n' label

flat_quoted : (label : Text) → Lacks b'\n' label → Lacks b'\n' (quoted label)
flat_quoted label h =
    All-append (λ c. c ≢ b'\n') (codes "{prefix=\"") (label ++ codes "\"} ")
      (Lacks-literal b'\n' (codes "{prefix=\"") refl)
      (All-append (λ c. c ≢ b'\n') label (codes "\"} ") h (Lacks-literal b'\n' (codes "\"} ") refl))

module _ (name : Text) where
  -- A row or a comment of another family, and what the scraper reads after it.
  pub Reads-other :
      (start text rest : Text) (found : List (Text × ℕ))
      → IsOther name start
      → IsRow text rest
      → Reads name rest found
      → Reads name (start ++ text) found
  Reads-other start text rest found foreign (line, h, e) k r =
      let (flat, other) = &&-true (is_flat start) (differs (opening name) start) foreign in
      ap (λ t. samples name ((start ++ t) ++ r)) e
      ∙ ap (λ t. samples name (t ++ r)) (sym (append_assoc start line (b'\n' ∷ rest)))
      ∙ ap (samples name) (append_assoc (start ++ line) (b'\n' ∷ rest) r)
      ∙ ap (read_lines name) (
          split-append b'\n' (start ++ line) (rest ++ r)
            (All-append (λ c. c ≢ b'\n') start line (Lacks-literal b'\n' start flat) h))
      ∙ ap (λ o. add_sample (after_name o) (samples name (rest ++ r)))
          (differs_lem (opening name) start line other)
      ∙ k r

  read_own :
      (label : Text) (value : ℕ)
      → IsPlain label
      → read_line name (name ++ (quoted label ++ to_decimal value)) ≡ some (label, value)
  read_own label value plain =
      let rest = label ++ b'"' ∷ (codes "} " ++ to_decimal value) in
      let tail : quoted label ++ to_decimal value ≡ codes "{prefix=\"" ++ rest =
        ap (λ t. codes "{prefix=\"" ++ t) (append_assoc label (codes "\"} ") (to_decimal value)) in
      let stripped : strip_prefix (opening name) (name ++ (quoted label ++ to_decimal value))
          ≡ some rest =
        ap (λ t. strip_prefix (opening name) (name ++ t)) tail
        ∙ ap (strip_prefix (opening name)) (sym (append_assoc name (codes "{prefix=\"") rest))
        ∙ strip_prefix-append (opening name) rest in
      rw
        (
          stripped,
          split_once-append b'"' label (codes "} " ++ to_decimal value) plain.0,
          strip_prefix-append (codes "} ") (to_decimal value),
          value_from-to_decimal value,
        )
        refl

  -- A row of the family.
  pub Reads-sample :
      (label : Text) (value : ℕ)
      → Lacks b'\n' name
      → IsPlain label
      → Reads name (sample name label (to_decimal value)) ((label, value) ∷ [])
  Reads-sample label value flat plain r =
      let number = to_decimal value in
      ap (λ t. samples name (t ++ r))
        (ap (λ t. name ++ t) (sym (append_assoc (quoted label) number (codes "\n")))
          ∙ sym (append_assoc name (quoted label ++ number) (codes "\n")))
      ∙ Reads-line name (name ++ (quoted label ++ number)) (some (label, value))
          (All-append (λ c. c ≢ b'\n') name (quoted label ++ number) flat
            (All-append (λ c. c ≢ b'\n') (quoted label) number (flat_quoted label plain.1)
              (to_decimal-Lacks b'\n' value (ground arith))))
          (read_own label value plain) r
