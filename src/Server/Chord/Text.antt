-- ===== src/Server/Chord/Text.antt =====
-- chord.rs: chords as text. A string is the list of its characters.
pub mod RoundTrip
use Prim.Native.Nat.{bit_and, bit_or}
use padwire.Prelude.{
  ℕ, zero, suc, ◌+◌, ◌^◌, Bool, true, false, ◌&&◌, ◌||◌, not, Option, none, some, List, [], ◌∷◌,
  map, leb, ltb, ◌==◌, if◌then◌else◌, Result, ok, err,
}
use padwire.Prelude.Text.{
  is_nil, is_same, trim, lower, split, join, from_str_radix, strip_prefix, decimal,
}
use padwire.Server.Chord.{Chord}

abbrev pub Table : Type 0
Table = List (List ℕ × ℕ)

-- The names of the buttons with their bits.
abbrev pub buttons_table : Table
buttons_table =
    (114 ∷ 50 ∷ [], 0)
    ∷ (108 ∷ 50 ∷ [], 1)
    ∷ (114 ∷ 49 ∷ [], 2)
    ∷ (108 ∷ 49 ∷ [], 3)
    ∷ (121 ∷ [], 4)
    ∷ (98 ∷ [], 5)
    ∷ (120 ∷ [], 6)
    ∷ (97 ∷ [], 7)
    ∷ (117 ∷ 112 ∷ [], 8)
    ∷ (114 ∷ 105 ∷ 103 ∷ 104 ∷ 116 ∷ [], 9)
    ∷ (108 ∷ 101 ∷ 102 ∷ 116 ∷ [], 10)
    ∷ (100 ∷ 111 ∷ 119 ∷ 110 ∷ [], 11)
    ∷ (118 ∷ 105 ∷ 101 ∷ 119 ∷ [], 12)
    ∷ (115 ∷ 116 ∷ 101 ∷ 97 ∷ 109 ∷ [], 13)
    ∷ (109 ∷ 101 ∷ 110 ∷ 117 ∷ [], 14)
    ∷ (108 ∷ 53 ∷ [], 15)
    ∷ (114 ∷ 53 ∷ [], 16)
    ∷ (108 ∷ 112 ∷ 97 ∷ 100 ∷ [], 17)
    ∷ (114 ∷ 112 ∷ 97 ∷ 100 ∷ [], 18)
    ∷ (108 ∷ 112 ∷ 97 ∷ 100 ∷ 116 ∷ 111 ∷ 117 ∷ 99 ∷ 104 ∷ [], 19)
    ∷ (114 ∷ 112 ∷ 97 ∷ 100 ∷ 116 ∷ 111 ∷ 117 ∷ 99 ∷ 104 ∷ [], 20)
    ∷ (108 ∷ 51 ∷ [], 22)
    ∷ (114 ∷ 51 ∷ [], 26)
    ∷ (108 ∷ 52 ∷ [], 41)
    ∷ (114 ∷ 52 ∷ [], 42)
    ∷ (113 ∷ 97 ∷ 109 ∷ [], 50)
    ∷ []

pub data ChordError : Type 0 where
  no_button : ChordError
  not_hex not_bit not_known : List ℕ → ChordError
  outside : ℕ → ChordError

unfoldable pub bit_of : List ℕ → Table → Option ℕ
bit_of tok [] = none
bit_of tok ((name, bit) ∷ rows) =
    let rest = bit_of tok rows in if is_same name tok then some bit else rest

abbrev pub all_digits : List ℕ → Bool
all_digits [] = true
all_digits (c ∷ cs) = leb 48 c && leb c 57 && all_digits cs

-- `bit41` or `b41`.
unfoldable pub bit_number : List ℕ → Option (List ℕ)
bit_number tok = elim (strip_prefix (98 ∷ 105 ∷ 116 ∷ []) tok) [
  | some n ↦ some n
  | none ↦ strip_prefix (98 ∷ []) tok
]

unfoldable pub numbered : List ℕ → List ℕ → Result ChordError ℕ
numbered tok n = elim (from_str_radix 10 0xffffffff n) [
  | none ↦ err (not_bit tok)
  | some bit ↦ if ltb 63 bit then err (outside bit) else ok (2 ^ bit)
]

unfoldable pub named : List ℕ → Result ChordError ℕ
unfolding bit_of
named tok = elim (bit_of tok buttons_table) [ none ↦ err (not_known tok) | some bit ↦ ok (2 ^ bit) ]

unfoldable pub parse_token : List ℕ → Result ChordError ℕ
unfolding bit_number numbered named
parse_token tok = elim (strip_prefix (48 ∷ 120 ∷ []) tok) [
  | some hex ↦ elim (from_str_radix 16 0xffffffffffffffff hex) [
    | none ↦ err (not_hex tok)
    | some mask ↦ ok mask
  ]
  | none ↦ elim (bit_number tok) [
    | none ↦ named tok
    | some n ↦ if all_digits n && not (is_nil n) then numbered tok n else named tok
  ]
]

-- The tokens left; a piece that is empty between the separators counts for nothing.
unfoldable pub parse_each : List (List ℕ) → ℕ → Bool → Result ChordError Chord
unfolding parse_token
parse_each [] mask any = if any then ok (record { mask = mask }) else err no_button
parse_each (piece ∷ pieces) mask any =
    let skipped = parse_each pieces mask any in
    if is_nil (trim piece) then skipped else elim (parse_token (lower (trim piece))) [
      | err e ↦ err e
      | ok bits ↦ parse_each pieces (bit_or mask bits) true
    ]

-- A comma separates as a plus sign does.
unfoldable pub from_str : List ℕ → Result ChordError Chord
unfolding parse_each
from_str s = parse_each (split 43 (map (λ c. if c == 44 then 43 else c) s)) 0 false

unfoldable pub name_of : ℕ → Table → Option (List ℕ)
name_of bit [] = none
name_of bit ((name, b) ∷ rows) = let rest = name_of bit rows in if b == bit then some name else rest

unfoldable pub part : ℕ → List ℕ
unfolding name_of
part bit = elim (name_of bit buttons_table) [ some name ↦ name | none ↦ 98 ∷ decimal bit ]

-- The bits from one on, as many as are counted.
unfoldable pub parts : ℕ → ℕ → ℕ → List (List ℕ)
unfolding part
parts zero bit mask = []
parts (suc n) bit mask =
    let rest = parts n (bit + 1) mask in
    if bit_and mask (2 ^ bit) == 0 then rest else part bit ∷ rest

unfoldable pub describe : ℕ → List ℕ
unfolding parts
describe mask = if mask == 0 then 110 ∷ 111 ∷ 110 ∷ 101 ∷ [] else join 43 (parts 64 0 mask)
