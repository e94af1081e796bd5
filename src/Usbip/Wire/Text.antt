-- ===== src/Usbip/Wire/Text.antt =====
-- A Rust `String` is its list of bytes, and `core::str::from_utf8` says which lists are text.
use padwire.Prelude.{
  ℕ, zero, suc, ◌<◌, ◌≡◌, refl, Bool, true, false, ◌&&◌, Option, none, some, List, [], ◌∷◌, ◌++◌,
  arith, leb, ltb, ◌==◌, if◌then◌else◌, All, replicate,
}

-- The ranges that the bytes after a first byte of a character must lie in; `none` for a byte that
-- starts no character.
abbrev pub Ranges : Type 0
Ranges = List (ℕ × ℕ)

abbrev pub tail_byte : ℕ × ℕ
tail_byte = (0x80, 0xbf)

unfoldable pub after_first : ℕ → Option Ranges
after_first b =
    if ltb b 0x80
    then some []
    else if ltb b 0xc2
    then none
    else if ltb b 0xe0
    then some (tail_byte ∷ [])
    else if b == 0xe0
    then some ((0xa0, 0xbf) ∷ tail_byte ∷ [])
    else if b == 0xed
    then some ((0x80, 0x9f) ∷ tail_byte ∷ [])
    else if ltb b 0xf0
    then some (tail_byte ∷ tail_byte ∷ [])
    else if b == 0xf0
    then some ((0x90, 0xbf) ∷ tail_byte ∷ tail_byte ∷ [])
    else if ltb b 0xf4
    then some (tail_byte ∷ tail_byte ∷ tail_byte ∷ [])
    else if b == 0xf4
    then some ((0x80, 0x8f) ∷ tail_byte ∷ tail_byte ∷ [])
    else none

-- The first argument is what the character under way still needs.
unfoldable pub utf8_from : Ranges → List ℕ → Bool
utf8_from [] [] = true
utf8_from (r ∷ rs) [] = false
utf8_from [] (b ∷ bs) = elim (after_first b) [ none ↦ false | some rs ↦ utf8_from rs bs ]
utf8_from ((lo, hi) ∷ rs) (b ∷ bs) = leb lo b && leb b hi && utf8_from rs bs

unfoldable pub is_utf8 : List ℕ → Bool
unfolding utf8_from after_first
is_utf8 bs = utf8_from [] bs

abbrev pub IsText : List ℕ → Type 0
IsText bs = is_utf8 bs ≡ true

-- `b.iter().position(|&c| c == 0).unwrap_or(b.len())`, and the slice up to there.
unfoldable pub until_nul : List ℕ → List ℕ
until_nul [] = []
until_nul (b ∷ bs) = if b == 0 then [] else b ∷ until_nul bs

abbrev pub HasNoNul : List ℕ → Type 0
HasNoNul = All (λ b. 0 < b)

pub until_nul-append_zeros : (bs : List ℕ) (k : ℕ) → until_nul (bs ++ replicate k 0) ≡ until_nul bs
unfolding until_nul
until_nul-append_zeros [] zero = refl
until_nul-append_zeros [] (suc k) = refl
until_nul-append_zeros (b ∷ bs) k = ground (arith, until_nul-append_zeros bs k)

pub until_nul_self : (bs : List ℕ) → HasNoNul bs → until_nul bs ≡ bs
unfolding until_nul
until_nul_self [] h = refl
until_nul_self (b ∷ bs) h = ground (arith, until_nul_self bs h.1)

-- Seven-bit bytes are text.
pub IsText-ascii : (bs : List ℕ) → All (λ b. b < 128) bs → IsText bs
unfolding is_utf8
IsText-ascii [] h = refl
IsText-ascii (b ∷ bs) h = ground (arith, IsText-ascii bs h.1)
