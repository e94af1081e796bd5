-- ===== src/Server/Chord/Text/RoundTrip.antt =====
-- chord.rs: a chord is read back from its display.
use Prim.Native.Nat.{bit_and, bit_or}
use padwire.Prelude.{
  ℕ, zero, suc, ◌+◌, ◌^◌, ◌≤◌, ◌<◌, ◌≡◌, refl, ap, sym, ◌∙◌, Bool, true, false, ◌&&◌, not, List, [],
  ◌∷◌, ◌++◌, map, All, ◌==◌, if◌then◌else◌, Result, ok, err, arith, ◌⊎◌, inl, inr, Bool-cases,
  every, every-at,
}
use padwire.Prelude.Bits.{low, low-bound, low_all, bit_or-above, bit-cases}
use padwire.Prelude.Text.{
  is_nil, trim, lower, split, join, pieces, split-join, strip_prefix, from_str_radix, trim_start,
  trim_end, is_whitespace, decimal, digits_within, to_digit16,
}
use padwire.Server.Chord.Text.{
  ChordError, parse_token, parse_each, from_str, part, parts, describe, name_of, bit_of, bit_number,
  numbered, named,
}

-- Without separators.
abbrev plain : List ℕ → Bool
plain [] = true
plain (c ∷ cs) = not (c == 43) && not (c == 44) && plain cs

abbrev lands : ℕ → Result ChordError ℕ → Bool
lands mask (ok m) = m == mask
lands mask (err e) = false

abbrev good : ℕ → Bool
good bit =
    not (is_nil (trim (part bit)))
    && lands (2 ^ bit) (parse_token (lower (trim (part bit))))
    && plain (part bit)

-- Each of the 64 bits is read back from what it is displayed as.
all_good : every 64 good ≡ true
unfolding trim trim_start trim_end is_whitespace part name_of parse_token bit_number bit_of named
    numbered strip_prefix from_str_radix digits_within to_digit16 decimal
all_good = refl

part-good : (bit : ℕ) → bit < 64 → good bit ≡ true
part-good bit h = every-at 64 good bit all_good h

landed : (mask : ℕ) (r : Result ChordError ℕ) → lands mask r ≡ true → r ≡ ok mask
landed mask (ok m) h = let e : m ≡ mask = ground (arith, h) in ap ok e
landed mask (err e) h = absurd (ground (arith, h))

parse_each-part :
    (bit : ℕ) (rest : List (List ℕ)) (mask : ℕ) (any : Bool)
    → bit < 64
    → parse_each (part bit ∷ rest) mask any ≡ parse_each rest (bit_or mask (2 ^ bit)) true
unfolding parse_each
parse_each-part bit rest mask any h =
    let g = part-good bit h in
    let full : is_nil (trim (part bit)) ≡ false = ground (arith, g) in
    let reads = landed (2 ^ bit) (parse_token (lower (trim (part bit)))) (ground (arith, g)) in
    rw full (rw reads refl)

later : (m k : ℕ) → low m (k + 1) ≡ low m (suc k)
later m k = let e : k + 1 ≡ suc k = omega arith in ap (low m) e

-- A token has been read, or one is to come.
parse_each-parts :
    (n k j m : ℕ) (any : Bool)
    → k + n ≡ j
    → j ≤ 64
    → (any ≡ true) ⊎ (low m k < low m j)
    → parse_each (parts n k m) (low m k) any ≡ ok (record { mask = low m j })
unfolding parts parse_each
parse_each-parts zero k j m any e few (inl on) =
    let same : k ≡ j = omega arith in rw on (ap (λ i. ok (record { mask = low m i })) same)
parse_each-parts zero k j m any e few (inr more) =
    let same : k ≡ j = omega arith in absurd (omega (arith, more, ap (low m) same))
parse_each-parts (suc n) k j m any e few h = elim (bit-cases m k) [
  | inl (off, same) ↦
      let clear : (bit_and m (2 ^ k) == 0) ≡ true = ground (arith, off) in
      let next : low m (k + 1) ≡ low m k = later m k ∙ same in
      rw clear (
        ap (λ x. parse_each (parts n (k + 1) m) x any) (sym next)
        ∙ parse_each-parts n (k + 1) j m any (omega (arith, e)) few (grind (arith, h, next)))
  | inr (on, more) ↦
      let above = bit_or-above k (low m k) (low-bound m k) in
      let set : (bit_and m (2 ^ k) == 0) ≡ false = ground (arith, on, low-bound m k) in
      let next : bit_or (low m k) (2 ^ k) ≡ low m (k + 1) = above ∙ sym more ∙ sym (later m k) in
      rw set (
        parse_each-part k (parts n (k + 1) m) (low m k) any (omega (arith, e, few))
        ∙ ap (λ x. parse_each (parts n (k + 1) m) x true) next
        ∙ parse_each-parts n (k + 1) j m true (omega (arith, e)) few (inl refl))
]

abbrev AllPlain : List (List ℕ) → Type 0
AllPlain ss = All (λ s. plain s ≡ true) ss

parts-plain : (n k m : ℕ) → k + n ≤ 64 → AllPlain (parts n k m)
unfolding parts
parts-plain zero k m h = tt
parts-plain (suc n) k m h =
    let rest = parts-plain n (k + 1) m (omega (arith, h)) in
    elim (Bool-cases (bit_and m (2 ^ k) == 0)) [
      | inl off ↦ rw off rest
      | inr on ↦ rw on (ground (arith, part-good k (omega (arith, h))), rest)
    ]

abbrev unified : List ℕ → List ℕ
unified s = map (λ c. if c == 44 then 43 else c) s

unified-append : (s t : List ℕ) → plain s ≡ true → unified (s ++ t) ≡ s ++ unified t
unified-append [] t v = refl
unified-append (c ∷ s) t v =
    let no_comma : (c == 44) ≡ false = ground (arith, v) in
    rw no_comma (ap (λ x. c ∷ x) (unified-append s t (ground (arith, v))))

unified_whole : (s : List ℕ) → plain s ≡ true → unified s ≡ s
unified_whole [] v = refl
unified_whole (c ∷ s) v =
    let no_comma : (c == 44) ≡ false = ground (arith, v) in
    rw no_comma (ap (λ x. c ∷ x) (unified_whole s (ground (arith, v))))

unified-join : (ss : List (List ℕ)) → AllPlain ss → unified (join 43 ss) ≡ join 43 ss
unfolding join
unified-join [] v = refl
unified-join (s ∷ []) v = unified_whole s v.0
unified-join (s ∷ t ∷ ss) v =
    unified-append s (43 ∷ join 43 (t ∷ ss)) v.0 ∙ ap (λ x. s ++ 43 ∷ x) (unified-join (t ∷ ss) v.1)

no_plus : (s : List ℕ) → plain s ≡ true → All (λ c. (c == 43) ≡ false) s
no_plus [] v = tt
no_plus (c ∷ s) v = (ground (arith, v), no_plus s (ground (arith, v)))

no_plus_each : (ss : List (List ℕ)) → AllPlain ss → All (All (λ c. (c == 43) ≡ false)) ss
no_plus_each [] v = tt
no_plus_each (s ∷ ss) v = (no_plus s v.0, no_plus_each ss v.1)

from_str-join : (ss : List (List ℕ)) → AllPlain ss → from_str (join 43 ss) ≡ parse_each ss 0 false
unfolding from_str
from_str-join [] v = unfold join split pieces parse_each trim trim_start trim_end in refl
from_str-join (s ∷ ss) v =
    ap (λ x. parse_each (split 43 x) 0 false) (unified-join (s ∷ ss) v)
    ∙ ap (λ x. parse_each x 0 false) (split-join 43 s ss (no_plus s v.0) (no_plus_each ss v.1))

-- Every chord of at least one button is read back from its display, whichever of its 64 buttons have
-- names.
pub from_str-describe :
    (mask : ℕ) → 0 < mask → mask < 2 ^ 64 → from_str (describe mask) ≡ ok (record { mask = mask })
unfolding describe
from_str-describe mask some_button fits =
    let used : (mask == 0) ≡ false = ground (arith, some_button) in
    let all = low_all mask 64 fits in
    rw used (
      from_str-join (parts 64 0 mask) (parts-plain 64 0 mask (omega arith))
      ∙ parse_each-parts 64 0 64 mask false refl (omega arith)
          (inr (omega (arith, all, some_button)))
      ∙ ap (λ m. ok (record { mask = m })) all)
