-- ===== src/Ratelimit/Keys.antt =====
-- The keys of the counters: `limit_key` and the window key of core/src/ratelimit.rs.
use ratewall.Prelude.{ℕ, ◌≡◌, refl, Option, none, some, [], ◌∷◌, ◌++◌, arith}
use ratewall.Prelude.Text.{Text, codes}
use ratewall.Prelude.Text.Split.{Lacks}
use ratewall.Prelude.Decimal.{to_decimal, to_decimal_injective, to_decimal-Lacks}
use ratewall.Ratelimit.{window_key, limit_key}

append_cancel : (p s t : Text) → p ++ s ≡ p ++ t → s ≡ t
append_cancel [] s t e = e
append_cancel (c ∷ p) s t e = append_cancel p s t (ground arith)

not-Lacks : (d : ℕ) (b t : Text) → ¬ Lacks d (b ++ d ∷ t)
not-Lacks d [] t h = h.0 refl
not-Lacks d (c ∷ b) t h = not-Lacks d b t h.1

-- A text is cut in one way only at its last separator.
last_split :
    (d : ℕ) (a b s t : Text) → Lacks d s → Lacks d t → a ++ d ∷ s ≡ b ++ d ∷ t → (a ≡ b) × (s ≡ t)
last_split d [] [] s t h k e = (refl, ground arith)
last_split d [] (c ∷ b) s t h k e =
    let e' : s ≡ b ++ d ∷ t = ground arith in absurd (not-Lacks d b t (rw e' at h))
last_split d (c ∷ a) [] s t h k e =
    let e' : a ++ d ∷ s ≡ t = ground arith in absurd (not-Lacks d a s (rw (← e') at k))
last_split d (c ∷ a) (c' ∷ b) s t h k e =
    let (same, rest) = last_split d a b s t h k (ground arith) in (ground arith, rest)

-- Under one key prefix, two window keys are the same text only if they are for the same key and
-- the same window, whatever characters the keys hold.
pub window_key_injective :
    (key_prefix key key' : Text) (window window' : ℕ)
    → window_key key_prefix key window ≡ window_key key_prefix key' window'
    → (key ≡ key') × (window ≡ window')
unfolding window_key
window_key_injective key_prefix key key' window window' e =
    let e' = append_cancel (codes "rl") _ _ e in
    let e'' = append_cancel key_prefix _ _ e' in
    let e''' = append_cancel (codes ":") _ _ e'' in
    let (same, digits) =
      last_split b':' key key' (to_decimal window) (to_decimal window')
        (to_decimal-Lacks b':' window (λ h. omega arith))
        (to_decimal-Lacks b':' window' (λ h. omega arith)) e''' in
    (same, to_decimal_injective window window' digits)

-- Two requests get the same limiter key only if both have the same verified subject, or both have
-- none and the same address.
limit_key_injective :
    (subject subject' : Option Text) (ip ip' : Text)
    → limit_key subject ip ≡ limit_key subject' ip'
    → (subject ≡ subject') × (subject ≡ none → ip ≡ ip')
unfolding limit_key
limit_key_injective none none ip ip' e = (refl, λ _. ground arith)
limit_key_injective none (some s) ip ip' e = absurd (ground arith)
limit_key_injective (some s) none ip ip' e = absurd (ground arith)
limit_key_injective (some s) (some s') ip ip' e = (ground arith, λ h. cc)
