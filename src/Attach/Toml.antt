-- ===== src/Attach/Toml.antt =====
-- crates/usbfwd-attach/src/toml.rs: the slice of TOML that the configuration uses. A string is the
-- list of its characters.
pub mod Quotes
pub mod Values
pub mod Assignments
pub mod Nesting
pub mod Fuel
pub mod Lines
use padwire.Prelude.{
  ℕ, zero, suc, ◌+◌, ◌-◌, ◌^◌, Bool, true, false, ◌&&◌, ◌||◌, not, Option, none, some, List, [],
  ◌∷◌, ◌++◌, length, take, drop, ltb, ◌==◌, if◌then◌else◌, Result, ok, err,
}
use padwire.Prelude.Int.{ℤ, pos, negsuc}
use padwire.Prelude.Text.{
  is_nil, is_same, trim, trim_start, split, split_once, strip_prefix, digits_within,
}

pub data Value : Type 0 where
  str : List ℕ → Value
  int : ℤ → Value
  bool : Bool → Value
  array : List (List ℕ) → Value

pub record Entry : Type 0 where
  pub key : List ℕ
  pub value : Value
  pub line : ℕ

pub record Table : Type 0 where
  pub name : List ℕ
  pub line : ℕ
  pub entries : List Entry

unfoldable pub find : List ℕ → List Entry → Option Entry
find key [] = none
find key (e ∷ entries) = let rest = find key entries in if is_same e.key key then some e else rest

unfoldable pub get : Table → List ℕ → Option Value
unfolding find
get t key = elim (find key t.entries) [ none ↦ none | some e ↦ some e.value ]

unfoldable pub line_of : Table → List ℕ → ℕ
unfolding find
line_of t key = elim (find key t.entries) [ none ↦ t.line | some e ↦ e.line ]

abbrev pub is_one_of : List ℕ → List (List ℕ) → Bool
is_one_of key [] = false
is_one_of key (k ∷ known) = is_same k key || is_one_of key known

unfoldable pub unknown_of : List (List ℕ) → List Entry → List (List ℕ × ℕ)
unknown_of known [] = []
unknown_of known (e ∷ entries) =
    let rest = unknown_of known entries in
    if not (is_one_of e.key known) then (e.key, e.line) ∷ rest else rest

unfoldable pub unknown_keys : Table → List (List ℕ) → List (List ℕ × ℕ)
unfolding unknown_of
unknown_keys t known = unknown_of known t.entries

-- `no_fuel` is the model's own.
pub data Message : Type 0 where
  unterminated_tables unterminated_table empty_key unterminated_array missing_value : Message
  unterminated_string ends_in_backslash no_fuel : Message
  appears_twice no_key_value set_twice not_a_value : List ℕ → Message
  not_a_string : Value → Message
  unsupported_escape : ℕ → Message

pub record Error : Type 0 where
  pub line : ℕ
  pub message : Message

abbrev pub fail : {A : Type 0} → ℕ → Message → Result Error A
fail line message = err (record { line = line; message = message })

-- Where a scan stands with respect to quotes.
pub record Quoting : Type 0 where
  pub in_str : Bool
  pub quote : ℕ
  pub escape : Bool

abbrev pub outside : Quoting
outside = record { in_str = false; quote = 34; escape = false }

unfoldable pub advance : Quoting → ℕ → Quoting
advance q c =
    if q.in_str
    then if q.escape
      then record q { escape = false }
      else if c == 92 && q.quote == 34
      then record q { escape = true }
      else if c == q.quote
      then record q { in_str = false }
      else q
    else if c == 34 || c == 39
    then record q { in_str = true; quote = c }
    else q

-- The depth is kept as the numbers of brackets opened and closed.
unfoldable pub balanced_from : Quoting → ℕ → ℕ → List ℕ → Bool
unfolding advance
balanced_from q opened closed [] = opened == closed && not q.in_str
balanced_from q opened closed (c ∷ cs) =
    if not q.in_str && c == 91
    then balanced_from (advance q c) (opened + 1) closed cs
    else if not q.in_str && c == 93
    then balanced_from (advance q c) opened (closed + 1) cs
    else balanced_from (advance q c) opened closed cs

unfoldable pub brackets_balanced : List ℕ → Bool
unfolding balanced_from
brackets_balanced s = balanced_from outside 0 0 s

unfoldable pub strip_from : Quoting → List ℕ → List ℕ
unfolding advance
strip_from q [] = []
strip_from q (c ∷ cs) =
    let rest = strip_from (advance q c) cs in if not q.in_str && c == 35 then [] else c ∷ rest

unfoldable pub strip_comment : List ℕ → List ℕ
unfolding strip_from
strip_comment line = strip_from outside line

-- The part that has begun, and what is left.
unfoldable pub split_from : Quoting → List ℕ → List ℕ × List (List ℕ)
unfolding advance
split_from q [] = ([], [])
split_from q (c ∷ cs) =
    let (first, rest) = split_from (advance q c) cs in
    if not q.in_str && c == 44 then ([], first ∷ rest) else (c ∷ first, rest)

unfoldable pub split_array : List ℕ → List (List ℕ)
unfolding split_from
split_array inner = let (first, rest) = split_from outside inner in first ∷ rest

unfoldable pub unescaped : ℕ → Option ℕ
unescaped c =
    if c == 110
    then some 10
    else if c == 116
    then some 9
    else if c == 114
    then some 13
    else if c == 34 || c == 92
    then some c
    else none

unfoldable pub with_char : ℕ → Result Message (List ℕ) → Result Message (List ℕ)
with_char c (ok s) = ok (c ∷ s)
with_char c (err e) = err e

-- The body of a string between double quotes.
unfoldable pub unescape : List ℕ → Result Message (List ℕ)
unfolding unescaped with_char
unescape [] = ok []
unescape (c ∷ []) = if c == 92 then err ends_in_backslash else ok (c ∷ [])
unescape (c ∷ d ∷ cs) =
    let plain = with_char c (unescape (d ∷ cs)) in
    let rest = unescape cs in
    if c == 92
    then elim (unescaped d) [ none ↦ err (unsupported_escape d) | some e ↦ with_char e rest ]
    else plain

unfoldable pub parse_string : List ℕ → Result Message (List ℕ)
unfolding unescape
parse_string [] = err unterminated_string
parse_string (quote ∷ rest) =
    let body = take (length rest - 1) rest in
    if is_nil rest || not (is_same (drop (length rest - 1) rest) (quote ∷ []))
    then err unterminated_string
    else if quote == 39
    then ok body
    else unescape body

unfoldable pub strip_suffix : List ℕ → List ℕ → Option (List ℕ)
strip_suffix suffix s =
    let n = length s - length suffix in
    if ltb (length s) (length suffix) || not (is_same (drop n s) suffix)
    then none
    else some (take n s)

abbrev negated : ℕ → ℤ
negated zero = pos 0
negated (suc n) = negsuc n

unfoldable pub i64_digits : Bool → List ℕ → Option ℤ
unfolding digits_within
i64_digits negative [] = none
i64_digits false s = elim (digits_within 10 (2 ^ 63 - 1) 0 s) [
  | none ↦ none
  | some n ↦ some (pos n)
]
i64_digits true s = elim (digits_within 10 (2 ^ 63) 0 s) [ none ↦ none | some n ↦ some (negated n) ]

-- `parse::<i64>()`
unfoldable pub parse_i64 : List ℕ → Option ℤ
unfolding i64_digits
parse_i64 [] = none
parse_i64 (c ∷ cs) =
    if c == 45
    then i64_digits true cs
    else if c == 43
    then i64_digits false cs
    else i64_digits false (c ∷ cs)

abbrev pub starts_with : ℕ → List ℕ → Bool
starts_with c [] = false
starts_with c (d ∷ s) = d == c

abbrev pub with_string : Value → Result Message (List (List ℕ)) → Result Message (List (List ℕ))
with_string (str s) (ok ss) = ok (s ∷ ss)
with_string (str s) (err e) = err e
with_string v ss = err (not_a_string v)

abbrev pub prepended :
    Result Message Value → Result Message (List (List ℕ)) → Result Message (List (List ℕ))
prepended (err e) ss = err e
prepended (ok v) ss = with_string v ss

-- The parts of an array, by the parser of a value; a part that is blank counts for nothing.
unfoldable pub strings_of :
    (List ℕ → Result Message Value) → List (List ℕ) → Result Message (List (List ℕ))
strings_of parse [] = ok []
strings_of parse (p ∷ parts) =
    let rest = strings_of parse parts in
    if is_nil (trim p) then rest else prepended (parse (trim p)) rest

unfoldable pub parse_scalar : List ℕ → Result Message Value
unfolding parse_string parse_i64
parse_scalar text =
    if starts_with 34 text || starts_with 39 text
    then elim (parse_string text) [ err e ↦ err e | ok s ↦ ok (str s) ]
    else elim (parse_i64 text) [ none ↦ err (not_a_value text) | some n ↦ ok (int n) ]

-- `true` and `false`
abbrev pub true_text : List ℕ
true_text = 116 ∷ 114 ∷ 117 ∷ 101 ∷ []

abbrev pub false_text : List ℕ
false_text = 102 ∷ 97 ∷ 108 ∷ 115 ∷ 101 ∷ []

abbrev pub array_of : Result Message (List (List ℕ)) → Result Message Value
array_of (err e) = err e
array_of (ok ss) = ok (array ss)

-- What stands between the brackets, by the parser of a value.
unfoldable pub bracketed : (List ℕ → Result Message Value) → Option (List ℕ) → Result Message Value
unfolding strings_of split_array
bracketed parse none = err unterminated_array
bracketed parse (some inner) = array_of (strings_of parse (split_array inner))

-- The fuel bounds how deep arrays stand in one another.
unfoldable pub parse_from : ℕ → List ℕ → Result Message Value
unfolding parse_scalar bracketed
parse_from zero text = err no_fuel
parse_from (suc fuel) text =
    if is_same text true_text
    then ok (bool true)
    else if is_same text false_text
    then ok (bool false)
    else if is_nil text
    then err missing_value
    else if starts_with 91 text
    then bracketed (parse_from fuel) (strip_suffix (93 ∷ []) (drop 1 text))
    else parse_scalar text

unfoldable pub parse_value : List ℕ → Result Message Value
unfolding parse_from
parse_value text = parse_from (suc (length text)) text
