-- ===== src/Attach/Toml/Values.antt =====
-- toml.rs: strings and arrays of strings are read back from their text.
use padwire.Prelude.{
  ℕ, suc, ◌-◌, ◌≡◌, refl, ap, ◌∙◌, false, some, List, [], ◌∷◌, ◌++◌, map, append-nil, length,
  length-append, drop-append, take-append, ltb, ok, arith, inl, inr, Bool-cases,
}
use padwire.Prelude.Text.{is_nil, is_same_refl, trim, trim_start, trim_end, is_whitespace}
use padwire.Attach.Toml.{
  str, array, outside, advance, split_from, split_array, parse_string, strip_suffix, strings_of,
  array_of, bracketed, parse_scalar, parse_from, parse_value, with_string,
}
use padwire.Attach.Toml.Quotes.{escape, quoted, unescape-escape, split_from-quoted}

pub is_nil-end : (s : List ℕ) (c : ℕ) → is_nil (s ++ c ∷ []) ≡ false
is_nil-end [] c = refl
is_nil-end (x ∷ s) c = refl

-- Trimming stops at a character that is not white space.
pub trim_end-end :
    (s : List ℕ) (c : ℕ) → is_whitespace c ≡ false → trim_end (s ++ c ∷ []) ≡ s ++ c ∷ []
unfolding trim_end
trim_end-end [] c h = rw h refl
trim_end-end (x ∷ s) c h =
    let e = trim_end-end s c h in
    rw e (
      rw (is_nil-end s c)
        (elim (Bool-cases (is_whitespace x)) [ inl w ↦ rw w refl | inr w ↦ rw w refl ]))

pub last-strip : (s : List ℕ) (c : ℕ) → strip_suffix (c ∷ []) (s ++ c ∷ []) ≡ some s
unfolding strip_suffix
last-strip s c =
    let n = length-append s (c ∷ []) in
    let size : length s ≡ length (s ++ c ∷ []) - 1 = omega (arith, n) in
    let enough : ltb (length (s ++ c ∷ [])) 1 ≡ false = ground (arith, n) in
    rw enough (
      rw (drop-append s (c ∷ []) (length (s ++ c ∷ []) - 1) size) (
        rw (is_same_refl (c ∷ []))
          (ap some (take-append s (c ∷ []) (length (s ++ c ∷ []) - 1) size))))

parse_string-quoted : (s : List ℕ) → parse_string (quoted s) ≡ ok s
unfolding parse_string quoted
parse_string-quoted s =
    let body = escape s in
    let n = length-append body (34 ∷ []) in
    let size : length body ≡ length (body ++ 34 ∷ []) - 1 = omega (arith, n) in
    rw (is_nil-end body 34) (
      rw (drop-append body (34 ∷ []) (length (body ++ 34 ∷ []) - 1) size)
        (rw (take-append body (34 ∷ []) (length (body ++ 34 ∷ []) - 1) size) (unescape-escape s)))

pub trim-quoted : (s : List ℕ) → trim (quoted s) ≡ quoted s
unfolding trim trim_start is_whitespace quoted
trim-quoted s = trim_end-end (34 ∷ escape s) 34 refl

trim-space_quoted : (s : List ℕ) → trim (32 ∷ quoted s) ≡ quoted s
unfolding trim trim_start is_whitespace quoted
trim-space_quoted s = trim_end-end (34 ∷ escape s) 34 refl

parse_from-quoted : (fuel : ℕ) (s : List ℕ) → parse_from (suc fuel) (quoted s) ≡ ok (str s)
unfolding parse_from parse_scalar quoted
parse_from-quoted fuel s = rw (parse_string-quoted s) refl

abbrev pub tail_body : List (List ℕ) → List ℕ
tail_body [] = []
tail_body (s ∷ ss) = 44 ∷ 32 ∷ (quoted s ++ tail_body ss)

unfoldable pub array_body : List (List ℕ) → List ℕ
array_body [] = []
array_body (s ∷ ss) = quoted s ++ tail_body ss

-- `["a", "b"]`
unfoldable pub array_text : List (List ℕ) → List ℕ
array_text ss = 91 ∷ (array_body ss ++ 93 ∷ [])

split_from-tail_body :
    (ss : List (List ℕ)) → split_from outside (tail_body ss) ≡ ([], map (λ s. 32 ∷ quoted s) ss)
unfolding split_from advance
split_from-tail_body [] = refl
split_from-tail_body (s ∷ ss) =
    let rest = split_from-tail_body ss in
    let first : split_from outside (quoted s ++ tail_body ss)
        ≡ (quoted s, map (λ t. 32 ∷ quoted t) ss) =
      split_from-quoted s (tail_body ss)
      ∙ ap (λ (x : List ℕ × List (List ℕ)). (quoted s ++ x.0, x.1)) rest
      ∙ ap (λ x. (x, map (λ t. 32 ∷ quoted t) ss)) (append-nil (quoted s)) in
    ap (λ (x : List ℕ × List (List ℕ)). ([], (32 ∷ x.0) ∷ x.1)) first

split_array-array_body :
    (s : List ℕ) (ss : List (List ℕ))
    → split_array (array_body (s ∷ ss)) ≡ quoted s ∷ map (λ t. 32 ∷ quoted t) ss
unfolding split_array array_body
split_array-array_body s ss =
    ap (λ (x : List ℕ × List (List ℕ)). x.0 ∷ x.1)
      (split_from-quoted s (tail_body ss)
        ∙ ap (λ (x : List ℕ × List (List ℕ)). (quoted s ++ x.0, x.1)) (split_from-tail_body ss)
        ∙ ap (λ x. (x, map (λ t. 32 ∷ quoted t) ss)) (append-nil (quoted s)))

strings_of-tail :
    (fuel : ℕ) (ss : List (List ℕ))
    → strings_of (parse_from (suc fuel)) (map (λ t. 32 ∷ quoted t) ss) ≡ ok ss
unfolding strings_of
strings_of-tail fuel [] = refl
strings_of-tail fuel (s ∷ ss) =
    let rest = strings_of-tail fuel ss in
    let full : is_nil (quoted s) ≡ false = unfold quoted in refl in
    rw (trim-space_quoted s)
      (rw full (rw (parse_from-quoted fuel s) (ap (with_string (str s)) rest)))

strings_of-array_body :
    (fuel : ℕ) (ss : List (List ℕ))
    → strings_of (parse_from (suc fuel)) (split_array (array_body ss)) ≡ ok ss
strings_of-array_body fuel [] =
    unfold array_body split_array split_from strings_of trim trim_start trim_end in refl
strings_of-array_body fuel (s ∷ ss) =
    ap (strings_of (parse_from (suc fuel))) (split_array-array_body s ss)
    ∙ (unfold strings_of in
        rw (trim-quoted s) (
          rw (full s)
            (rw (parse_from-quoted fuel s) (ap (with_string (str s)) (strings_of-tail fuel ss)))))
  where
    full : (s : List ℕ) → is_nil (quoted s) ≡ false
    full s = unfold quoted in refl

parse_from-array_text :
    (fuel : ℕ) (ss : List (List ℕ)) → parse_from (suc (suc fuel)) (array_text ss) ≡ ok (array ss)
unfolding parse_from array_text bracketed
parse_from-array_text fuel ss =
    rw (last-strip (array_body ss) 93) (ap array_of (strings_of-array_body fuel ss))

-- Any string is read back from its text between double quotes, and any list of strings from the text
-- of an array.
pub parse_value-text :
    ((s : List ℕ) → parse_value (quoted s) ≡ ok (str s))
    × ((ss : List (List ℕ)) → parse_value (array_text ss) ≡ ok (array ss))
unfolding parse_value array_text
parse_value-text = (
  λ s. parse_from-quoted (length (quoted s)) s,
  λ ss.
      let n = length-append (array_body ss) (93 ∷ []) in
      let size : length (array_body ss ++ 93 ∷ []) ≡ suc (length (array_body ss)) =
        omega (arith, n) in
      ap (λ k. parse_from (suc (suc k)) (array_text ss)) size
      ∙ parse_from-array_text (suc (length (array_body ss))) ss,
)
