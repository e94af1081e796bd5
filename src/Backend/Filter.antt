-- ===== src/Backend/Filter.antt =====
-- crates/usb-backend/src/filter.rs: the allow-list of devices. A string is the list of its
-- characters.
pub mod RoundTrip
use padwire.Prelude.{
  ℕ, ◌+◌, ◌-◌, ◌*◌, ◌/◌, ◌%◌, Bool, true, false, ◌&&◌, ◌||◌, not, Option, none, some, List, [], ◌∷◌,
  ◌++◌, map, ltb, leb, ◌==◌, if◌then◌else◌, Result, ok, err,
}
use padwire.Prelude.Text.{trim, split_once, split, is_nil, from_str_radix16, hex4, join}

pub record Pattern : Type 0 where
  pub vendor : Option ℕ
  pub product : Option ℕ

abbrev map_or : Option ℕ → ℕ → Bool
map_or none n = true
map_or (some v) n = v == n

unfoldable pub pattern_matches : Pattern → ℕ → ℕ → Bool
pattern_matches p vid pid = map_or p.vendor vid && map_or p.product pid

unfoldable pub display_part : Option ℕ → List ℕ
display_part none = 42 ∷ []
display_part (some v) = hex4 v

unfoldable pub display_pattern : Pattern → List ℕ
unfolding display_part
display_pattern p = display_part p.vendor ++ 58 ∷ display_part p.product

-- What an error's message quotes.
pub data FilterError : Type 0 where
  not_a_pattern : List ℕ → FilterError
  not_hex : List ℕ → List ℕ → FilterError

abbrev pub is_star : List ℕ → Bool
is_star [] = false
is_star (c ∷ cs) = c == 42 && is_nil cs

-- A part that is trimmed already.
unfoldable pub trimmed_part : List ℕ → List ℕ → Result FilterError (Option ℕ)
trimmed_part part whole =
    if is_star part || is_nil part
    then ok none
    else elim (from_str_radix16 part) [ none ↦ err (not_hex part whole) | some n ↦ ok (some n) ]

unfoldable pub parse_part : List ℕ → List ℕ → Result FilterError (Option ℕ)
unfolding trimmed_part
parse_part part whole = trimmed_part (trim part) whole

unfoldable pub both_parts :
    Result FilterError (Option ℕ) → Result FilterError (Option ℕ) → Result FilterError Pattern
both_parts (err e) p = err e
both_parts (ok v) (err e) = err e
both_parts (ok v) (ok p) = ok (record { vendor = v; product = p })

unfoldable pub trimmed_pattern : List ℕ → Result FilterError Pattern
unfolding parse_part both_parts
trimmed_pattern s = elim (split_once 58 s) [
  | none ↦ err (not_a_pattern s)
  | some (v, p) ↦ both_parts (parse_part v s) (parse_part p s)
]

unfoldable pub pattern_from_str : List ℕ → Result FilterError Pattern
unfolding trimmed_pattern
pattern_from_str s = trimmed_pattern (trim s)

abbrev pub valve_vid : ℕ
valve_vid = 0x28de

pub record DeviceFilter : Type 0 where
  pub patterns : List Pattern

abbrev pub default_filter : DeviceFilter
default_filter = record { patterns = record { vendor = some valve_vid; product = none } ∷ [] }

unfoldable pub any_matches : List Pattern → ℕ → ℕ → Bool
unfolding pattern_matches
any_matches [] vid pid = false
any_matches (p ∷ ps) vid pid = pattern_matches p vid pid || any_matches ps vid pid

unfoldable pub matches : DeviceFilter → ℕ → ℕ → Bool
unfolding any_matches
matches f vid pid = any_matches f.patterns vid pid

abbrev pushed :
    Result FilterError Pattern
    → Result FilterError (List Pattern)
    → Result FilterError (List Pattern)
pushed (err e) rest = err e
pushed (ok p) (err e) = err e
pushed (ok p) (ok ps) = ok (p ∷ ps)

-- `map(str::trim).filter(…).map(Pattern::from_str).collect()`.
unfoldable pub collect : List (List ℕ) → Result FilterError (List Pattern)
collect [] = ok []
collect (s ∷ ss) =
    let rest = collect ss in
    if is_nil (trim s) then rest else pushed (pattern_from_str (trim s)) rest

unfoldable pub from_str : List ℕ → Result FilterError DeviceFilter
unfolding collect
from_str s = elim (collect (split 44 s)) [ err e ↦ err e | ok ps ↦ ok (record { patterns = ps }) ]

unfoldable pub display : DeviceFilter → List ℕ
unfolding join display_pattern
display f = join 44 (map display_pattern f.patterns)
