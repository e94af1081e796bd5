-- ===== src/Backend/Filter/RoundTrip.antt =====
-- filter.rs: a filter is read back from what it displays, and a blank text allows nothing.
use padwire.Prelude.{
  ℕ, ◌+◌, ◌*◌, ◌/◌, ◌%◌, ◌<◌, ◌≡◌, refl, ap, ◌∙◌, true, false, ◌||◌, Option, none, some, List, [],
  ◌∷◌, ◌++◌, map, All, ltb, ◌==◌, ok, arith, inl, inr, Bool-cases,
}
use padwire.Prelude.Text.{
  trim, trim_start, trim_end, trim_plain, split_once, split, pieces, join, split-join, is_nil,
  is_whitespace, from_str_radix16, accumulate, digit, hex4, IsPlain, digit-IsPlain,
  to_digit16-digit,
}
use padwire.Backend.Filter.{
  Pattern, DeviceFilter, display_part, display_pattern, is_star, trimmed_part, parse_part,
  both_parts, trimmed_pattern, pattern_from_str, collect, from_str, display, matches,
}

-- A part that fits in 16 bits.
abbrev pub IsU16 : Option ℕ → Type 0
IsU16 none = Unit {0}
IsU16 (some v) = v < 0x10000

abbrev pub IsPattern : Pattern → Type 0
IsPattern p = IsU16 p.vendor × IsU16 p.product

accumulate-digit :
    (n d : ℕ) (cs : List ℕ)
    → d < 16
    → n * 16 + d < 0x10000
    → accumulate n (digit d ∷ cs) ≡ accumulate (n * 16 + d) cs
unfolding accumulate
accumulate-digit n d cs h small =
    let fits : ltb 0xffff (n * 16 + d) ≡ false = ground (arith, small) in
    rw (to_digit16-digit d h, accumulate) (rw fits refl)

not_plus : (d : ℕ) → d < 16 → (digit d == 43) ≡ false
not_plus d h = elim (Bool-cases (ltb d 10)) [
  | inl e ↦ rw e (ground (arith, e))
  | inr e ↦ rw e (ground (arith, e))
]

from_str_radix16-hex4 : (v : ℕ) → v < 0x10000 → from_str_radix16 (hex4 v) ≡ some v
unfolding from_str_radix16 hex4 accumulate
from_str_radix16-hex4 v h =
    let a = v / 4096 % 16 in
    let b = v / 256 % 16 in
    let c = v / 16 % 16 in
    let d = v % 16 in
    let none_before : 0 * 16 + a ≡ a = omega arith in
    let whole : ((a * 16 + b) * 16 + c) * 16 + d ≡ v = omega arith in
    rw (not_plus a (omega arith)) (
      accumulate-digit 0 a (digit b ∷ digit c ∷ digit d ∷ []) (omega arith) (omega arith)
      ∙ ap (λ n. accumulate n (digit b ∷ digit c ∷ digit d ∷ [])) none_before
      ∙ accumulate-digit a b (digit c ∷ digit d ∷ []) (omega arith) (omega arith)
      ∙ accumulate-digit (a * 16 + b) c (digit d ∷ []) (omega arith) (omega arith)
      ∙ accumulate-digit ((a * 16 + b) * 16 + c) d [] (omega arith) (omega arith)
      ∙ ap some whole)

-- The characters of a part that is displayed: they stay when trimmed, and separate nothing.
abbrev IsInert : ℕ → Type 0
IsInert c = (is_whitespace c ≡ false) × ((c == 44) ≡ false) × ((c == 58) ≡ false)

display_part-IsInert : (o : Option ℕ) → All IsInert (display_part o)
unfolding display_part hex4 is_whitespace
display_part-IsInert none = ((refl, refl, refl), tt)
display_part-IsInert (some v) =
    let at : (d : ℕ) → d < 16 → IsInert (digit d) = digit-IsPlain in
    (
      at (v / 4096 % 16) (omega arith),
      (
        at (v / 256 % 16) (omega arith),
        (at (v / 16 % 16) (omega arith), (at (v % 16) (omega arith), tt)),
      ),
    )

plain : (s : List ℕ) → All IsInert s → All IsPlain s
plain [] v = tt
plain (c ∷ cs) v = ((v.0.0, v.0.1), plain cs v.1)

IsPlain-append : (s t : List ℕ) → All IsPlain s → All IsPlain t → All IsPlain (s ++ t)
IsPlain-append [] t v w = w
IsPlain-append (c ∷ s) t v w = (v.0, IsPlain-append s t v.1 w)

display_pattern-IsPlain : (p : Pattern) → All IsPlain (display_pattern p)
unfolding display_pattern is_whitespace
display_pattern-IsPlain p =
    IsPlain-append (display_part p.vendor) (58 ∷ display_part p.product)
      (plain (display_part p.vendor) (display_part-IsInert p.vendor))
      ((refl, refl), plain (display_part p.product) (display_part-IsInert p.product))

split_once-append : (s t : List ℕ) → All IsInert s → split_once 58 (s ++ 58 ∷ t) ≡ some (s, t)
unfolding split_once
split_once-append [] t v = refl
split_once-append (c ∷ s) t v = rw (v.0.2) (rw (split_once-append s t v.1) refl)

no_wildcard : (v : ℕ) → (is_star (hex4 v) || is_nil (hex4 v)) ≡ false
unfolding hex4
no_wildcard v = ground arith

trimmed_part-display_part :
    (o : Option ℕ) (whole : List ℕ) → IsU16 o → trimmed_part (display_part o) whole ≡ ok o
unfolding trimmed_part display_part
trimmed_part-display_part none whole h = refl
trimmed_part-display_part (some v) whole h =
    rw (no_wildcard v) (rw (from_str_radix16-hex4 v h) refl)

parse_part-display_part :
    (o : Option ℕ) (whole : List ℕ) → IsU16 o → parse_part (display_part o) whole ≡ ok o
unfolding parse_part
parse_part-display_part o whole h =
    ap (λ s. trimmed_part s whole)
      (trim_plain (display_part o) (plain (display_part o) (display_part-IsInert o)))
    ∙ trimmed_part-display_part o whole h

parts :
    (p : Pattern) (s : List ℕ)
    → IsPattern p
    → both_parts (parse_part (display_part p.vendor) s) (parse_part (display_part p.product) s)
      ≡ ok p
unfolding both_parts
parts p s h =
    rw (parse_part-display_part p.vendor s h.0) (rw (parse_part-display_part p.product s h.1) refl)

halves :
    (p : Pattern)
    → split_once 58 (display_pattern p) ≡ some (display_part p.vendor, display_part p.product)
unfolding display_pattern
halves p =
    split_once-append (display_part p.vendor) (display_part p.product)
      (display_part-IsInert p.vendor)

at_colon : (p : Pattern) → IsPattern p → trimmed_pattern (display_pattern p) ≡ ok p
unfolding trimmed_pattern
at_colon p h =
    let whole = display_pattern p in
    let cut : split_once 58 whole ≡ some (display_part p.vendor, display_part p.product) =
      halves p in
    rw (cut, trimmed_pattern) (parts p whole h)

pattern_from_str-display : (p : Pattern) → IsPattern p → pattern_from_str (display_pattern p) ≡ ok p
unfolding pattern_from_str trimmed_pattern
pattern_from_str-display p h =
    ap trimmed_pattern (trim_plain (display_pattern p) (display_pattern-IsPlain p)) ∙ at_colon p h

not_blank_part : (o : Option ℕ) (s : List ℕ) → is_nil (display_part o ++ s) ≡ false
unfolding display_part hex4
not_blank_part none s = refl
not_blank_part (some v) s = refl

not_blank : (p : Pattern) → is_nil (display_pattern p) ≡ false
unfolding display_pattern
not_blank p = not_blank_part p.vendor (58 ∷ display_part p.product)

no_comma : (s : List ℕ) → All IsPlain s → All (λ c. (c == 44) ≡ false) s
no_comma [] v = tt
no_comma (c ∷ s) v = (v.0.1, no_comma s v.1)

displays-no_comma :
    (ps : List Pattern) → All (All (λ c. (c == 44) ≡ false)) (map display_pattern ps)
displays-no_comma [] = tt
displays-no_comma (p ∷ ps) =
    (no_comma (display_pattern p) (display_pattern-IsPlain p), displays-no_comma ps)

displays-split :
    (p : Pattern) (ps : List Pattern)
    → split 44 (join 44 (map display_pattern (p ∷ ps))) ≡ map display_pattern (p ∷ ps)
displays-split p ps =
    split-join 44 (display_pattern p) (map display_pattern ps)
      (no_comma (display_pattern p) (display_pattern-IsPlain p)) (displays-no_comma ps)

collect-display : (ps : List Pattern) → All IsPattern ps → collect (map display_pattern ps) ≡ ok ps
unfolding collect
collect-display [] v = refl
collect-display (p ∷ ps) v =
    rw (trim_plain (display_pattern p) (display_pattern-IsPlain p))
      (rw (not_blank p) (rw (pattern_from_str-display p v.0) (rw (collect-display ps v.1) refl)))

wrapped :
    (s : List ℕ) (ps : List Pattern)
    → collect (split 44 s) ≡ ok ps
    → from_str s ≡ ok (record { patterns = ps })
unfolding from_str
wrapped s ps h = rw (h, from_str) refl

reread :
    (p : Pattern) (ps : List Pattern)
    → All IsPattern (p ∷ ps)
    → from_str (join 44 (map display_pattern (p ∷ ps))) ≡ ok (record { patterns = p ∷ ps })
reread p ps w =
    wrapped (join 44 (map display_pattern (p ∷ ps))) (p ∷ ps)
      (ap collect (displays-split p ps) ∙ collect-display (p ∷ ps) w)

abbrev IsBlank : List ℕ → Type 0
IsBlank s = All (λ c. is_whitespace c ≡ true) s

IsBlank-pieces :
    (s : List ℕ)
    → All (λ c. (is_whitespace c || c == 44) ≡ true) s
    → IsBlank (pieces 44 s).0 × All IsBlank (pieces 44 s).1
unfolding pieces
IsBlank-pieces [] v = (tt, tt)
IsBlank-pieces (c ∷ s) v =
    let rest = IsBlank-pieces s v.1 in
    elim (Bool-cases (c == 44)) [
      | inl e ↦ rw e (tt, (rest.0, rest.1))
      | inr e ↦ rw e ((ground (arith, e, v.0), rest.0), rest.1)
    ]

trim_blank : (s : List ℕ) → IsBlank s → trim_start s ≡ []
unfolding trim_start
trim_blank [] v = refl
trim_blank (c ∷ s) v = rw (v.0) (trim_blank s v.1)

collect_blank : (ss : List (List ℕ)) → All IsBlank ss → collect ss ≡ ok []
unfolding collect trim trim_end
collect_blank [] v = refl
collect_blank (s ∷ ss) v = rw (trim_blank s v.0) (collect_blank ss v.1)

from_str-join :
    (ps : List Pattern)
    → All IsPattern ps
    → from_str (join 44 (map display_pattern ps)) ≡ ok (record { patterns = ps })
unfolding join from_str collect split pieces trim trim_start trim_end
from_str-join [] w = refl
from_str-join (p ∷ ps) w = reread p ps w

-- A filter of patterns of 16 bits, of any number, is read back from the text that it displays.
pub from_str-display : (f : DeviceFilter) → All IsPattern f.patterns → from_str (display f) ≡ ok f
unfolding display
from_str-display f v = from_str-join f.patterns v

-- A text of white space and commas only is read as the filter that matches no device.
pub from_str_blank :
    (s : List ℕ) (vid pid : ℕ)
    → All (λ c. (is_whitespace c || c == 44) ≡ true) s
    → (f : DeviceFilter) × (from_str s ≡ ok f) × (matches f vid pid ≡ false)
unfolding matches split
from_str_blank s vid pid v =
    let p = IsBlank-pieces s v in
    (
      record { patterns = [] },
      wrapped s [] (collect_blank ((pieces 44 s).0 ∷ (pieces 44 s).1) p),
      refl,
    )
