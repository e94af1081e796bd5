-- ===== src/Discovery/Mdns/Lossy.antt =====
-- `String::from_utf8_lossy`: what is no text becomes U+FFFD, one for each sequence that breaks off.
use padwire.Prelude.{
  ℕ, ◌≡◌, refl, ap, ◌∙◌, true, ◌&&◌, Option, none, some, List, [], ◌∷◌, ◌++◌, append_assoc, leb,
  if◌then◌else◌, arith, inl, inr, Bool-cases, Option-cases,
}
use padwire.Usbip.Wire.Text.{Ranges, after_first, utf8_from, is_utf8, IsText}

abbrev replacement : List ℕ
replacement = 0xef ∷ 0xbf ∷ 0xbd ∷ []

-- A byte at which a character may start; `rest` goes on, from what the character still needs and
-- what there is of it.
abbrev started : Option Ranges → ℕ → (Ranges → List ℕ → List ℕ) → List ℕ
started none b rest = replacement ++ rest [] []
started (some []) b rest = b ∷ rest [] []
started (some (r ∷ rs)) b rest = rest (r ∷ rs) (b ∷ [])

unfoldable pub lossy_from : Ranges → List ℕ → List ℕ → List ℕ
unfolding after_first
lossy_from [] held [] = []
lossy_from (r ∷ rs) held [] = replacement
lossy_from [] held (b ∷ bs) = started (after_first b) b (λ rs h. lossy_from rs h bs)
lossy_from ((lo, hi) ∷ []) held (b ∷ bs) =
    let done = held ++ b ∷ lossy_from [] [] bs in
    let broken = replacement ++ started (after_first b) b (λ rs h. lossy_from rs h bs) in
    if leb lo b && leb b hi then done else broken
lossy_from ((lo, hi) ∷ r ∷ rs) held (b ∷ bs) =
    let more = lossy_from (r ∷ rs) (held ++ b ∷ []) bs in
    let broken = replacement ++ started (after_first b) b (λ rs h. lossy_from rs h bs) in
    if leb lo b && leb b hi then more else broken

unfoldable pub from_utf8_lossy : List ℕ → List ℕ
unfolding lossy_from
from_utf8_lossy bs = lossy_from [] [] bs

-- What comes of text: the character under way, if there is one, and the rest.
abbrev kept : Ranges → List ℕ → List ℕ → List ℕ
kept [] held bs = bs
kept (r ∷ rs) held bs = held ++ bs

lossy_from_text :
    (rs : Ranges) (held bs : List ℕ)
    → utf8_from rs bs ≡ true
    → lossy_from rs held bs ≡ kept rs held bs
unfolding utf8_from lossy_from
lossy_from_text [] held [] h = refl
lossy_from_text (r ∷ rs) held [] h = cc
lossy_from_text [] held (b ∷ bs) h = elim (Option-cases (after_first b)) [
  | inl e ↦ cc (rw (e, utf8_from) at h)
  | inr ([], e) ↦ rw e (ap (λ x. b ∷ x) (lossy_from_text [] [] bs (rw (e, utf8_from) at h)))
  | inr (r ∷ rs, e) ↦ rw e (lossy_from_text (r ∷ rs) (b ∷ []) bs (rw (e, utf8_from) at h))
]
lossy_from_text ((lo, hi) ∷ []) held (b ∷ bs) h = elim (Bool-cases (leb lo b && leb b hi)) [
  | inl e ↦ rw e (ap (λ x. held ++ b ∷ x) (lossy_from_text [] [] bs (ground (arith, e, h))))
  | inr e ↦ absurd (ground (arith, e, h))
]
lossy_from_text ((lo, hi) ∷ r ∷ rs) held (b ∷ bs) h = elim (Bool-cases (leb lo b && leb b hi)) [
  | inl e ↦ rw e (
      lossy_from_text (r ∷ rs) (held ++ b ∷ []) bs (ground (arith, e, h))
      ∙ append_assoc held (b ∷ []) bs)
  | inr e ↦ absurd (ground (arith, e, h))
]

-- Text stays as it is.
pub from_utf8_lossy_text : (bs : List ℕ) → IsText bs → from_utf8_lossy bs ≡ bs
unfolding from_utf8_lossy is_utf8
from_utf8_lossy_text bs h = lossy_from_text [] [] bs h
