-- ===== src/Attach/Toml/Nesting.antt =====
-- toml.rs: parsing a value ends, however deep arrays stand in one another.
use padwire.Prelude.{
  ℕ, zero, suc, ◌-◌, ◌≤◌, ◌<◌, ◌≡◌, refl, ap, ◌&&◌, ◌||◌, not, Option, none, some, List, [], ◌∷◌,
  All, length, length-take, take, drop, ltb, ◌==◌, Result, ok, err, arith, inl, inr, Bool-cases,
  Option-cases, Result-cases,
}
use padwire.Prelude.Text.{is_nil, is_same, trim, trim_start, trim_end, is_whitespace}
use padwire.Attach.Toml.{
  Value, Message, no_fuel, Quoting, outside, advance, split_from, split_array, strip_suffix,
  strings_of, prepended, array_of, bracketed, with_char, unescaped, unescape, parse_string,
  parse_i64, true_text, false_text, starts_with, parse_scalar, parse_from, parse_value,
}

length-trim_start : (s : List ℕ) → length (trim_start s) ≤ length s
unfolding trim_start
length-trim_start [] = omega arith
length-trim_start (c ∷ cs) = elim (Bool-cases (is_whitespace c)) [
  | inl e ↦ rw e (omega (arith, length-trim_start cs))
  | inr e ↦ rw e (omega arith)
]

length-trim_end : (s : List ℕ) → length (trim_end s) ≤ length s
unfolding trim_end
length-trim_end [] = omega arith
length-trim_end (c ∷ cs) = elim (Bool-cases (is_whitespace c && is_nil (trim_end cs))) [
  | inl e ↦ rw e (omega arith)
  | inr e ↦ rw e (omega (arith, length-trim_end cs))
]

length-trim : (s : List ℕ) → length (trim s) ≤ length s
unfolding trim
length-trim s = omega (arith, length-trim_start s, length-trim_end (trim_start s))

split_from-short :
    (n : ℕ) (q : Quoting) (cs : List ℕ)
    → length cs ≤ n
    → (length (split_from q cs).0 ≤ length cs) × All (λ p. length p ≤ n) (split_from q cs).1
unfolding split_from
split_from-short n q [] h = (omega arith, tt)
split_from-short n q (c ∷ cs) h =
    let (first, rest) = split_from-short n (advance q c) cs (omega (arith, h)) in
    elim (Bool-cases (not q.in_str && c == 44)) [
      | inl e ↦ rw e (omega arith, (omega (arith, first, h), rest))
      | inr e ↦ rw e (omega (arith, first), rest)
    ]

split_array-short : (inner : List ℕ) → All (λ p. length p ≤ length inner) (split_array inner)
unfolding split_array
split_array-short inner = split_from-short (length inner) outside inner (omega arith)

strip_suffix-short :
    (c : ℕ) (s inner : List ℕ) → strip_suffix (c ∷ []) s ≡ some inner → length inner ≤ length s
unfolding strip_suffix
strip_suffix-short c s inner e =
    elim (Bool-cases (ltb (length s) 1 || not (is_same (drop (length s - 1) s) (c ∷ [])))) [
      | inl no_suffix ↦ cc (rw no_suffix at e)
      | inr fits ↦
          let same : take (length s - 1) s ≡ inner = cc (rw fits at e) in
          omega (arith, ap length same, length-take (length s - 1) s)
    ]

-- An error of the code.
abbrev pub IsReal : Message → Type 0
IsReal no_fuel = ⊥
IsReal m = Unit {0}

abbrev pub Ends : {A : Type 0} → Result Message A → Type 0
Ends (ok a) = Unit {0}
Ends (err e) = IsReal e

with_char-Ends : (c : ℕ) (s : Result Message (List ℕ)) → Ends s → Ends (with_char c s)
unfolding with_char
with_char-Ends c (ok s) h = tt
with_char-Ends c (err e) h = h

unescape-Ends : (s : List ℕ) → Ends (unescape s)
unfolding unescape
unescape-Ends [] = tt
unescape-Ends (c ∷ []) = elim (Bool-cases (c == 92)) [ inl e ↦ rw e tt | inr e ↦ rw e tt ]
unescape-Ends (c ∷ d ∷ cs) =
    let plain = with_char-Ends c (unescape (d ∷ cs)) (unescape-Ends (d ∷ cs)) in
    let rest = unescape-Ends cs in
    elim (Bool-cases (c == 92)) [
      | inr e ↦ rw e plain
      | inl e ↦ rw e (elim (Option-cases (unescaped d)) [
        | inl e' ↦ rw e' tt
        | inr (x, e') ↦ rw e' (with_char-Ends x (unescape cs) rest)
      ])
    ]

parse_string-Ends : (s : List ℕ) → Ends (parse_string s)
unfolding parse_string
parse_string-Ends [] = tt
parse_string-Ends (quote ∷ rest) =
    elim (Bool-cases (is_nil rest || not (is_same (drop (length rest - 1) rest) (quote ∷ [])))) [
      | inl e ↦ rw e tt
      | inr e ↦ rw e (elim (Bool-cases (quote == 39)) [
        | inl e' ↦ rw e' tt
        | inr e' ↦ rw e' (unescape-Ends (take (length rest - 1) rest))
      ])
    ]

parse_scalar-Ends : (s : List ℕ) → Ends (parse_scalar s)
unfolding parse_scalar
parse_scalar-Ends s =
    let text = parse_string-Ends s in
    elim (Bool-cases (starts_with 34 s || starts_with 39 s)) [
      | inl e ↦ rw e (elim (Result-cases (parse_string s)) [
        | inl (t, e') ↦ rw e' tt
        | inr (m, e') ↦ rw e' (rw e' at text)
      ])
      | inr e ↦
          rw e (elim (Option-cases (parse_i64 s)) [ inl e' ↦ rw e' tt | inr (n, e') ↦ rw e' tt ])
    ]

prepended-Ends :
    (v : Result Message Value) (ss : Result Message (List (List ℕ)))
    → Ends v
    → Ends ss
    → Ends (prepended v ss)
prepended-Ends (err e) ss h h' = h
prepended-Ends (ok (Value.str s)) (ok ss) h h' = tt
prepended-Ends (ok (Value.str s)) (err e) h h' = h'
prepended-Ends (ok (Value.int n)) ss h h' = tt
prepended-Ends (ok (Value.bool b)) ss h h' = tt
prepended-Ends (ok (Value.array a)) ss h h' = tt

-- A parser that ends on short texts ends on the parts of an array.
strings_of-Ends :
    (f : List ℕ → Result Message Value) (n : ℕ)
    → ((p : List ℕ) → length p ≤ n → Ends (f p))
    → (parts : List (List ℕ)) → All (λ p. length p ≤ n) parts
    → Ends (strings_of f parts)
unfolding strings_of
strings_of-Ends f n h [] v = tt
strings_of-Ends f n h (p ∷ parts) v =
    let rest = strings_of-Ends f n h parts v.1 in
    let first = h (trim p) (omega (arith, v.0, length-trim p)) in
    elim (Bool-cases (is_nil (trim p))) [
      | inl e ↦ rw e rest
      | inr e ↦ rw e (prepended-Ends (f (trim p)) (strings_of f parts) first rest)
    ]

array_of-Ends : (ss : Result Message (List (List ℕ))) → Ends ss → Ends (array_of ss)
array_of-Ends (ok ss) h = tt
array_of-Ends (err e) h = h

bracketed-Ends :
    (f : List ℕ → Result Message Value) (n : ℕ) (o : Option (List ℕ))
    → ((p : List ℕ) → length p ≤ n → Ends (f p))
    → ((inner : List ℕ) → o ≡ some inner → length inner ≤ n)
    → Ends (bracketed f o)
unfolding bracketed
bracketed-Ends f n none h short = tt
bracketed-Ends f n (some inner) h short = array_of-Ends (strings_of f (split_array inner)) (
    strings_of-Ends f (length inner) (λ p e. h p (omega (arith, e, short inner refl)))
      (split_array inner) (split_array-short inner))

parse_from-Ends : (fuel : ℕ) (text : List ℕ) → length text < fuel → Ends (parse_from fuel text)
unfolding parse_from
parse_from-Ends zero text h = absurd (omega (arith, h))
parse_from-Ends (suc fuel) [] h = tt
parse_from-Ends (suc fuel) (c ∷ text) h =
    let whole = c ∷ text in
    let inner = strip_suffix (93 ∷ []) text in
    let array =
      bracketed-Ends (parse_from fuel) (length text) inner
        (λ p short. parse_from-Ends fuel p (omega (arith, short, h)))
        (strip_suffix-short 93 text) in
    elim (Bool-cases (is_same whole true_text)) [
      | inl e ↦ rw e tt
      | inr e ↦ rw e (elim (Bool-cases (is_same whole false_text)) [
        | inl e' ↦ rw e' tt
        | inr e' ↦ rw e' (elim (Bool-cases (c == 91)) [
          | inl b ↦ rw b array
          | inr b ↦ rw b (parse_scalar-Ends whole)
        ])
      ])
    ]

pub parse_value-Ends : (text : List ℕ) → Ends (parse_value text)
unfolding parse_value
parse_value-Ends text = parse_from-Ends (suc (length text)) text (omega arith)
