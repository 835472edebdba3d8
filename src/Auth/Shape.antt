-- ===== src/Auth/Shape.antt =====
-- The three segments of a token: what `segments` accepts.
use ratewall.Prelude.{◌≡◌, ◌≢◌, ap, ◌∙◌, [], ◌∷◌, ◌++◌, arith, ok}
use ratewall.Prelude.Text.{Text, split}
use ratewall.Prelude.Text.Split.{
  Lacks, split-append, split_of_Lacks, split_one_sound, split_more_sound,
}
use ratewall.Auth.{Segments, segments}

-- A text without a dot, and not empty.
abbrev pub IsSegment : Text → Type 0
IsSegment s = (s ≢ []) × Lacks b'.' s

-- Three segments, joined by dots.
pub record AreSegments (token : Text) (parts : Segments) : Type 0 where
  pub joined : token ≡ parts.header ++ b'.' ∷ (parts.claims ++ b'.' ∷ parts.signature)
  pub header : IsSegment parts.header
  pub claims : IsSegment parts.claims
  pub signature : IsSegment parts.signature

pub segments_shape :
    (token : Text) (parts : Segments)
    → segments token ≡ ok parts
    → (split b'.' token ≡ parts.header ∷ parts.claims ∷ parts.signature ∷ [])
      × (parts.header ≢ [])
      × (parts.claims ≢ [])
      × (parts.signature ≢ [])
unfolding segments
segments_shape token parts h = ground arith

pub segments_sound :
    (token : Text) (parts : Segments) → segments token ≡ ok parts → AreSegments token parts
segments_sound token parts h =
    let (shape, hn, cn, sn) = segments_shape token parts h in
    let (r, e, hl, more) = split_more_sound b'.' token _ _ _ shape in
    let (r', e', cl, last) = split_more_sound b'.' r _ _ _ more in
    let (e'', sl) = split_one_sound b'.' r' _ last in
    record {
      joined = e ∙ ap (λ x. parts.header ++ b'.' ∷ x) (e' ∙ ap (λ x. parts.claims ++ b'.' ∷ x) e'');
      header = (hn, hl);
      claims = (cn, cl);
      signature = (sn, sl);
    }

pub segments_complete :
    (token : Text) (parts : Segments) → AreSegments token parts → segments token ≡ ok parts
unfolding segments
segments_complete token parts a = rw shape (ground (arith, a.header.0, a.claims.0, a.signature.0))
  where
    shape : split b'.' token ≡ parts.header ∷ parts.claims ∷ parts.signature ∷ []
    shape = rw a.joined (
        rw (split-append b'.' parts.header _ a.header.1) (
          rw (split-append b'.' parts.claims _ a.claims.1)
            (rw (split_of_Lacks b'.' parts.signature a.signature.1))))
