-- ===== src/Prelude/Text.antt =====
-- What the program uses of the standard library's strings, as lists of bytes or characters.
use padwire.Prelude.{
  ℕ, ◌+◌, ◌-◌, ◌*◌, ◌/◌, ◌%◌, ◌<◌, ◌≡◌, refl, ap, ◌∙◌, Bool, true, false, ◌&&◌, ◌||◌, Option, none,
  some, List, [], ◌∷◌, ◌++◌, All, ltb, leb, ◌==◌, if◌then◌else◌, arith, inl, inr, Bool-cases,
}

abbrev pub is_nil {ℓ} : {A : Type ℓ} → List A → Bool
is_nil [] = true
is_nil (a ∷ xs) = false

abbrev between : ℕ → ℕ → ℕ → Bool
between lo hi c = leb lo c && leb c hi

-- Unicode's White_Space.
unfoldable pub is_whitespace : ℕ → Bool
is_whitespace c =
    between 0x9 0xd c
    || c == 0x20
    || c == 0x85
    || c == 0xa0
    || c == 0x1680
    || between 0x2000 0x200a c
    || between 0x2028 0x2029 c
    || c == 0x202f
    || c == 0x205f
    || c == 0x3000

unfoldable pub trim_start : List ℕ → List ℕ
trim_start [] = []
trim_start (c ∷ cs) = let rest = trim_start cs in if is_whitespace c then rest else c ∷ cs

unfoldable pub trim_end : List ℕ → List ℕ
trim_end [] = []
trim_end (c ∷ cs) =
    let rest = trim_end cs in if is_whitespace c && is_nil rest then [] else c ∷ rest

unfoldable pub trim : List ℕ → List ℕ
unfolding trim_start trim_end
trim s = trim_end (trim_start s)

-- At the first separator.
unfoldable pub split_once : ℕ → List ℕ → Option (List ℕ × List ℕ)
split_once sep [] = none
split_once sep (c ∷ cs) =
    let rest = split_once sep cs in
    if c == sep then some ([], cs) else elim rest [ none ↦ none | some (a, b) ↦ some (c ∷ a, b) ]

-- The first piece, and those behind it.
unfoldable pub pieces : ℕ → List ℕ → List ℕ × List (List ℕ)
pieces sep [] = ([], [])
pieces sep (c ∷ cs) =
    let (first, rest) = pieces sep cs in if c == sep then ([], first ∷ rest) else (c ∷ first, rest)

unfoldable pub split : ℕ → List ℕ → List (List ℕ)
unfolding pieces
split sep s = let (first, rest) = pieces sep s in first ∷ rest

unfoldable pub to_digit16 : ℕ → Option ℕ
to_digit16 c =
    if between 48 57 c
    then some (c - 48)
    else if between 97 102 c
    then some (c - 87)
    else if between 65 70 c
    then some (c - 55)
    else none

-- The value so far, and the digits left; a value over 16 bits is an error.
unfoldable pub accumulate : ℕ → List ℕ → Option ℕ
unfolding to_digit16
accumulate n [] = some n
accumulate n (c ∷ cs) = elim (to_digit16 c) [
  | none ↦ none
  | some d ↦ let rest = accumulate (n * 16 + d) cs in if ltb 0xffff (n * 16 + d) then none else rest
]

-- `u16::from_str_radix(…, 16)`: a plus sign may stand before the digits.
unfoldable pub from_str_radix16 : List ℕ → Option ℕ
unfolding accumulate
from_str_radix16 [] = none
from_str_radix16 (c ∷ []) = accumulate 0 (c ∷ [])
from_str_radix16 (c ∷ d ∷ cs) = if c == 43 then accumulate 0 (d ∷ cs) else accumulate 0 (c ∷ d ∷ cs)

abbrev pub digit : ℕ → ℕ
digit d = if ltb d 10 then d + 48 else d + 87

-- `{:04x}` of a number of 16 bits.
unfoldable pub hex4 : ℕ → List ℕ
hex4 v = digit (v / 4096 % 16) ∷ digit (v / 256 % 16) ∷ digit (v / 16 % 16) ∷ digit (v % 16) ∷ []

-- Characters that `trim` leaves and that separate nothing.
abbrev pub IsPlain : ℕ → Type 0
IsPlain c = (is_whitespace c ≡ false) × ((c == 44) ≡ false)

pub digit-IsPlain :
    (d : ℕ)
    → d < 16
    → (is_whitespace (digit d) ≡ false) × ((digit d == 44) ≡ false) × ((digit d == 58) ≡ false)
unfolding is_whitespace
digit-IsPlain d h = elim (Bool-cases (ltb d 10)) [
  | inl e ↦ rw e (ground (arith, e), ground (arith, e), ground (arith, e))
  | inr e ↦ rw e (ground (arith, e), ground (arith, e), ground (arith, e))
]

pub to_digit16-digit : (d : ℕ) → d < 16 → to_digit16 (digit d) ≡ some d
unfolding to_digit16
to_digit16-digit d h = elim (Bool-cases (ltb d 10)) [
  | inl e ↦ rw e (ground (arith, e))
  | inr e ↦ rw e (ground (arith, e))
]

trim_start_plain : (s : List ℕ) → All IsPlain s → trim_start s ≡ s
unfolding trim_start
trim_start_plain [] v = refl
trim_start_plain (c ∷ cs) v = rw (v.0.0) refl

trim_end_plain : (s : List ℕ) → All IsPlain s → trim_end s ≡ s
unfolding trim_end
trim_end_plain [] v = refl
trim_end_plain (c ∷ cs) v = rw (v.0.0) (ap (λ x. c ∷ x) (trim_end_plain cs v.1))

pub trim_plain : (s : List ℕ) → All IsPlain s → trim s ≡ s
unfolding trim
trim_plain s v = ap trim_end (trim_start_plain s v) ∙ trim_end_plain s v

-- `join`, with a separator of one character.
unfoldable pub join : ℕ → List (List ℕ) → List ℕ
join sep [] = []
join sep (s ∷ []) = s
join sep (s ∷ t ∷ ss) = s ++ sep ∷ join sep (t ∷ ss)

pub pieces-append :
    (sep : ℕ) (s t : List ℕ)
    → All (λ c. (c == sep) ≡ false) s
    → pieces sep (s ++ sep ∷ t) ≡ (s, (pieces sep t).0 ∷ (pieces sep t).1)
unfolding pieces
pieces-append sep [] t v = ground arith
pieces-append sep (c ∷ s) t v = rw (v.0) (rw (pieces-append sep s t v.1) refl)

pub pieces_whole : (sep : ℕ) (s : List ℕ) → All (λ c. (c == sep) ≡ false) s → pieces sep s ≡ (s, [])
unfolding pieces
pieces_whole sep [] v = refl
pieces_whole sep (c ∷ s) v = rw (v.0) (rw (pieces_whole sep s v.1) refl)

-- The pieces that were joined come back, if none holds the separator and there is one at least.
pub split-join :
    (sep : ℕ) (s : List ℕ) (ss : List (List ℕ))
    → All (λ c. (c == sep) ≡ false) s
    → All (All (λ c. (c == sep) ≡ false)) ss
    → split sep (join sep (s ∷ ss)) ≡ s ∷ ss
unfolding split join
split-join sep s [] v vs = rw (pieces_whole sep s v) refl
split-join sep s (t ∷ ss) v vs =
    rw (pieces-append sep s (join sep (t ∷ ss)) v) (ap (λ r. s ∷ r) (split-join sep t ss vs.0 vs.1))

abbrev pub is_same : List ℕ → List ℕ → Bool
is_same [] [] = true
is_same [] (b ∷ bs) = false
is_same (a ∷ xs) [] = false
is_same (a ∷ xs) (b ∷ bs) = a == b && is_same xs bs

pub is_same_refl : (a : List ℕ) → is_same a a ≡ true
is_same_refl [] = refl
is_same_refl (a ∷ xs) = ground (arith, is_same_refl xs)

pub is_same-eq : (a b : List ℕ) → is_same a b ≡ true → a ≡ b
is_same-eq [] [] h = refl
is_same-eq [] (b ∷ bs) h = cc
is_same-eq (a ∷ xs) [] h = cc
is_same-eq (a ∷ xs) (b ∷ bs) h =
    let e : a ≡ b = ground arith in let es : xs ≡ bs = is_same-eq xs bs (ground arith) in cc

-- `to_ascii_lowercase` and `eq_ignore_ascii_case`.
abbrev pub lower : List ℕ → List ℕ
lower [] = []
lower (c ∷ cs) = (if between 65 90 c then c + 32 else c) ∷ lower cs

abbrev pub same_ignoring_case : List ℕ → List ℕ → Bool
same_ignoring_case a b = is_same (lower a) (lower b)

-- The value so far, and the digits left, of a radix up to 16; a value over the limit is an error.
unfoldable pub digits_within : ℕ → ℕ → ℕ → List ℕ → Option ℕ
unfolding to_digit16
digits_within radix limit n [] = some n
digits_within radix limit n (c ∷ cs) = elim (to_digit16 c) [
  | none ↦ none
  | some d ↦
      let rest = digits_within radix limit (n * radix + d) cs in
      if leb radix d || ltb limit (n * radix + d) then none else rest
]

-- `from_str_radix` of an unsigned type with that limit, and `parse` for the radix 10.
unfoldable pub from_str_radix : ℕ → ℕ → List ℕ → Option ℕ
unfolding digits_within
from_str_radix radix limit [] = none
from_str_radix radix limit (c ∷ []) = digits_within radix limit 0 (c ∷ [])
from_str_radix radix limit (c ∷ d ∷ cs) =
    if c == 43
    then digits_within radix limit 0 (d ∷ cs)
    else digits_within radix limit 0 (c ∷ d ∷ cs)

-- The text behind a prefix, if it is there.
unfoldable pub strip_prefix : List ℕ → List ℕ → Option (List ℕ)
strip_prefix [] s = some s
strip_prefix (p ∷ ps) [] = none
strip_prefix (p ∷ ps) (c ∷ cs) = let rest = strip_prefix ps cs in if c == p then rest else none

-- `{}` of a `u8`.
unfoldable pub decimal : ℕ → List ℕ
decimal n =
    if ltb n 10
    then (n + 48) ∷ []
    else if ltb n 100
    then (n / 10 + 48) ∷ (n % 10 + 48) ∷ []
    else (n / 100 + 48) ∷ (n / 10 % 10 + 48) ∷ (n % 10 + 48) ∷ []
