-- ===== src/Attach/Toml/Quotes.antt =====
-- toml.rs: what the scans make of a quoted string.
use padwire.Prelude.{
  ℕ, ◌≡◌, refl, ap, sym, ◌∙◌, true, false, ◌||◌, some, List, [], ◌∷◌, ◌++◌, append_assoc, ◌==◌,
  if◌then◌else◌, ok, arith, ◌⊎◌, inl, inr, Bool-cases,
}
use padwire.Attach.Toml.{
  Quoting, outside, advance, balanced_from, strip_from, split_from, unescaped, with_char, unescape,
}

-- A character between double quotes.
abbrev escaped : ℕ → List ℕ
escaped c =
    if c == 10
    then 92 ∷ 110 ∷ []
    else if c == 9
    then 92 ∷ 116 ∷ []
    else if c == 13
    then 92 ∷ 114 ∷ []
    else if c == 34 || c == 92
    then 92 ∷ c ∷ []
    else c ∷ []

unfoldable pub escape : List ℕ → List ℕ
escape [] = []
escape (c ∷ cs) = escaped c ++ escape cs

unfoldable pub quoted : List ℕ → List ℕ
unfolding escape
quoted s = 34 ∷ (escape s ++ 34 ∷ [])

escaped-cases :
    (c : ℕ)
    → ((e : ℕ) × (escaped c ≡ 92 ∷ e ∷ []) × (unescaped e ≡ some c))
      ⊎ ((escaped c ≡ c ∷ []) × ((c == 92) ≡ false) × ((c == 34) ≡ false))
unfolding unescaped
escaped-cases c = elim (Bool-cases (c == 10)) [
  | inl e ↦ let e' : 10 ≡ c = ground (arith, e) in rw e (inl (110, refl, ap some e'))
  | inr a ↦ elim (Bool-cases (c == 9)) [
    | inl e ↦ let e' : 9 ≡ c = ground (arith, e) in rw a (rw e (inl (116, refl, ap some e')))
    | inr b ↦ elim (Bool-cases (c == 13)) [
      | inl e ↦
          let e' : 13 ≡ c = ground (arith, e) in rw a (rw b (rw e (inl (114, refl, ap some e'))))
      | inr d ↦ elim (Bool-cases (c == 34 || c == 92)) [
        | inl e ↦ rw a (rw b (rw d (rw e (inl (c, refl, ground (arith, e))))))
        | inr e ↦ rw a (rw b (rw d (rw e (inr (refl, ground (arith, e), ground (arith, e))))))
      ]
    ]
  ]
]

unescape-plain :
    (c : ℕ) (rest : List ℕ) → (c == 92) ≡ false → unescape (c ∷ rest) ≡ with_char c (unescape rest)
unfolding unescape
unescape-plain c [] h = rw h (unfold with_char in refl)
unescape-plain c (d ∷ rest) h = rw h refl

pub unescape-escape : (s : List ℕ) → unescape (escape s) ≡ ok s
unfolding escape unescape with_char
unescape-escape [] = refl
unescape-escape (c ∷ cs) =
    let rest = unescape-escape cs in
    elim (escaped-cases c) [
      | inl (e, text, back) ↦
          ap (λ x. unescape (x ++ escape cs)) text ∙ rw back (ap (with_char c) rest)
      | inr (text, plain, h) ↦
          ap (λ x. unescape (x ++ escape cs)) text
          ∙ unescape-plain c (escape cs) plain
          ∙ ap (with_char c) rest
    ]

abbrev inside : Quoting
inside = record { in_str = true; quote = 34; escape = false }

strip_from-escape :
    (s rest : List ℕ) → strip_from inside (escape s ++ rest) ≡ escape s ++ strip_from inside rest
unfolding escape strip_from advance
strip_from-escape [] rest = refl
strip_from-escape (c ∷ cs) rest = elim (escaped-cases c) [
  | inl (e, text, back) ↦ rw text (ap (λ x. 92 ∷ e ∷ x) (strip_from-escape cs rest))
  | inr (text, plain, h) ↦ rw text (rw plain (rw h (ap (λ x. c ∷ x) (strip_from-escape cs rest))))
]

pub strip_from-quoted :
    (s rest : List ℕ) → strip_from outside (quoted s ++ rest) ≡ quoted s ++ strip_from outside rest
unfolding quoted
strip_from-quoted s rest =
    unfold strip_from advance in
    ap (λ x. 34 ∷ strip_from inside x) (append_assoc (escape s) (34 ∷ []) rest)
    ∙ ap (λ x. 34 ∷ x) (strip_from-escape s (34 ∷ rest))
    ∙ ap (λ x. 34 ∷ x) (sym (append_assoc (escape s) (34 ∷ []) (strip_from outside rest)))

balanced_from-escape :
    (o c' : ℕ) (s rest : List ℕ)
    → balanced_from inside o c' (escape s ++ rest) ≡ balanced_from inside o c' rest
unfolding escape balanced_from advance
balanced_from-escape o c' [] rest = refl
balanced_from-escape o c' (c ∷ cs) rest = elim (escaped-cases c) [
  | inl (e, text, back) ↦ rw text (balanced_from-escape o c' cs rest)
  | inr (text, plain, h) ↦ rw text (rw plain (rw h (balanced_from-escape o c' cs rest)))
]

pub balanced_from-quoted :
    (o c' : ℕ) (s rest : List ℕ)
    → balanced_from outside o c' (quoted s ++ rest) ≡ balanced_from outside o c' rest
unfolding quoted
balanced_from-quoted o c' s rest =
    unfold balanced_from advance in
    ap (λ x. balanced_from inside o c' x) (append_assoc (escape s) (34 ∷ []) rest)
    ∙ balanced_from-escape o c' s (34 ∷ rest)

split_from-escape :
    (s rest : List ℕ)
    → split_from inside (escape s ++ rest)
      ≡ (escape s ++ (split_from inside rest).0, (split_from inside rest).1)
unfolding escape split_from advance
split_from-escape [] rest = refl
split_from-escape (c ∷ cs) rest = elim (escaped-cases c) [
  | inl (e, text, back) ↦
      rw text (ap (λ (x : List ℕ × List (List ℕ)). (92 ∷ e ∷ x.0, x.1)) (split_from-escape cs rest))
  | inr (text, plain, h) ↦ rw text (
      rw plain
        (rw h (ap (λ (x : List ℕ × List (List ℕ)). (c ∷ x.0, x.1)) (split_from-escape cs rest))))
]

pub split_from-quoted :
    (s rest : List ℕ)
    → split_from outside (quoted s ++ rest)
      ≡ (quoted s ++ (split_from outside rest).0, (split_from outside rest).1)
unfolding quoted
split_from-quoted s rest =
    unfold split_from advance in
    ap (λ x. (34 ∷ (split_from inside x).0, (split_from inside x).1))
      (append_assoc (escape s) (34 ∷ []) rest)
    ∙ ap (λ (x : List ℕ × List (List ℕ)). (34 ∷ x.0, x.1)) (split_from-escape s (34 ∷ rest))
    ∙ ap (λ x. (34 ∷ x, (split_from outside rest).1))
        (sym (append_assoc (escape s) (34 ∷ []) (split_from outside rest).0))
