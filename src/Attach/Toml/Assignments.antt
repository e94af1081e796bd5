-- ===== src/Attach/Toml/Assignments.antt =====
-- toml.rs, `parse`: a line that sets a key.
use padwire.Prelude.{
  ℕ, suc, ◌+◌, ◌≡◌, refl, ap, sym, ◌∙◌, true, false, ◌&&◌, not, some, List, [], ◌∷◌, ◌++◌,
  append_assoc, All, ◌==◌, if◌then◌else◌, Result, ok, err, arith,
}
use padwire.Prelude.Text.{
  is_nil, trim, trim_start, trim_end, is_whitespace, split_once, strip_prefix, IsPlain,
}
use padwire.Attach.Toml.{
  Value, str, array, Entry, Error, outside, advance, balanced_from, brackets_balanced, strip_from,
  strip_comment, starts_with, parse_value,
}
use padwire.Attach.Toml.Quotes.{quoted, strip_from-quoted, balanced_from-quoted, escape}
use padwire.Attach.Toml.Values.{trim_end-end, tail_body, array_body, array_text, parse_value-text}
use padwire.Attach.Toml.Lines.{
  Doc, valued, stored, assigned, one_bracket, two_brackets, keyed, assignment, statement, is_set,
  parse_lines,
}

-- A character of a bare key.
abbrev pub IsKeyChar : ℕ → Type 0
IsKeyChar c =
    IsPlain c
    × ((c == 34) ≡ false)
    × ((c == 39) ≡ false)
    × ((c == 35) ≡ false)
    × ((c == 61) ≡ false)
    × ((c == 91) ≡ false)

-- What a file may give a key: a string or an array of strings.
pub data Given : Type 0 where
  text : List ℕ → Given
  texts : List (List ℕ) → Given

unfoldable pub text_of : Given → List ℕ
text_of (text s) = quoted s
text_of (texts ss) = array_text ss

abbrev pub value_of : Given → Value
value_of (text s) = str s
value_of (texts ss) = array ss

-- `key = value # comment`
abbrev pub line_text : List ℕ → Given → List ℕ → List ℕ
line_text key v comment = key ++ 32 ∷ 61 ∷ 32 ∷ (text_of v ++ 32 ∷ 35 ∷ comment)

strip_from-tail_body :
    (ss : List (List ℕ)) (rest : List ℕ)
    → strip_from outside (tail_body ss ++ rest) ≡ tail_body ss ++ strip_from outside rest
unfolding strip_from advance
strip_from-tail_body [] rest = refl
strip_from-tail_body (s ∷ ss) rest =
    ap (λ x. 44 ∷ 32 ∷ x)
      (ap (strip_from outside) (append_assoc (quoted s) (tail_body ss) rest)
        ∙ strip_from-quoted s (tail_body ss ++ rest)
        ∙ ap (λ x. quoted s ++ x) (strip_from-tail_body ss rest)
        ∙ sym (append_assoc (quoted s) (tail_body ss) (strip_from outside rest)))

strip_from-array_body :
    (ss : List (List ℕ)) (rest : List ℕ)
    → strip_from outside (array_body ss ++ rest) ≡ array_body ss ++ strip_from outside rest
unfolding array_body
strip_from-array_body [] rest = refl
strip_from-array_body (s ∷ ss) rest =
    ap (strip_from outside) (append_assoc (quoted s) (tail_body ss) rest)
    ∙ strip_from-quoted s (tail_body ss ++ rest)
    ∙ ap (λ x. quoted s ++ x) (strip_from-tail_body ss rest)
    ∙ sym (append_assoc (quoted s) (tail_body ss) (strip_from outside rest))

-- A value ends the text that is kept before a comment.
strip_from-text_of :
    (v : Given) (comment : List ℕ)
    → strip_from outside (text_of v ++ 32 ∷ 35 ∷ comment) ≡ text_of v ++ 32 ∷ []
unfolding text_of array_text strip_from advance
strip_from-text_of (text s) comment = strip_from-quoted s (32 ∷ 35 ∷ comment)
strip_from-text_of (texts ss) comment =
    ap (λ x. 91 ∷ x)
      (ap (strip_from outside) (append_assoc (array_body ss) (93 ∷ []) (32 ∷ 35 ∷ comment))
        ∙ strip_from-array_body ss (93 ∷ 32 ∷ 35 ∷ comment)
        ∙ sym (append_assoc (array_body ss) (93 ∷ []) (32 ∷ [])))

strip_from-key :
    (key rest : List ℕ)
    → All IsKeyChar key
    → strip_from outside (key ++ rest) ≡ key ++ strip_from outside rest
unfolding strip_from advance
strip_from-key [] rest v = refl
strip_from-key (c ∷ key) rest v =
    rw (v.0.3) (rw (v.0.1) (rw (v.0.2) (ap (λ x. c ∷ x) (strip_from-key key rest v.1))))

strip_comment-line_text :
    (key : List ℕ) (v : Given) (comment : List ℕ)
    → All IsKeyChar key
    → strip_comment (line_text key v comment) ≡ key ++ 32 ∷ 61 ∷ 32 ∷ (text_of v ++ 32 ∷ [])
unfolding strip_comment
strip_comment-line_text key v comment h =
    strip_from-key key _ h
    ∙ unfold strip_from advance in ap (λ x. key ++ 32 ∷ 61 ∷ 32 ∷ x) (strip_from-text_of v comment)

trim_end-space : (s : List ℕ) → trim_end (s ++ 32 ∷ []) ≡ trim_end s
unfolding trim_end is_whitespace
trim_end-space [] = refl
trim_end-space (c ∷ s) = rw (trim_end-space s) refl

-- A value's text ends in a quote or a bracket.
text_of-end :
    (v : Given) → (s : List ℕ) × (c : ℕ) × (text_of v ≡ s ++ c ∷ []) × (is_whitespace c ≡ false)
unfolding text_of quoted array_text is_whitespace
text_of-end (text s) = (34 ∷ escape s, 34, refl, refl)
text_of-end (texts ss) = (91 ∷ array_body ss, 93, refl, refl)

trim_end-text_of : (front : List ℕ) (v : Given) → trim_end (front ++ text_of v) ≡ front ++ text_of v
trim_end-text_of front v =
    let (s, c, e, h) = text_of-end v in
    let whole : front ++ text_of v ≡ (front ++ s) ++ c ∷ [] =
      ap (λ x. front ++ x) e ∙ sym (append_assoc front s (c ∷ [])) in
    ap trim_end whole ∙ trim_end-end (front ++ s) c h ∙ sym whole

trim-line :
    (c : ℕ) (key : List ℕ) (v : Given)
    → IsKeyChar c
    → trim ((c ∷ key) ++ 32 ∷ 61 ∷ 32 ∷ (text_of v ++ 32 ∷ []))
      ≡ (c ∷ key) ++ 32 ∷ 61 ∷ 32 ∷ text_of v
unfolding trim trim_start
trim-line c key v h =
    let front = (c ∷ key) ++ 32 ∷ 61 ∷ 32 ∷ [] in
    let whole : (x : List ℕ) → (c ∷ key) ++ 32 ∷ 61 ∷ 32 ∷ x ≡ front ++ x =
      λ x. sym (append_assoc (c ∷ key) (32 ∷ 61 ∷ 32 ∷ []) x) in
    rw (h.0.0) (
      ap trim_end (whole (text_of v ++ 32 ∷ []) ∙ sym (append_assoc front (text_of v) (32 ∷ [])))
      ∙ trim_end-space (front ++ text_of v)
      ∙ trim_end-text_of front v
      ∙ sym (whole (text_of v)))

split_once-key :
    (key rest : List ℕ)
    → All IsKeyChar key
    → split_once 61 (key ++ 32 ∷ 61 ∷ rest) ≡ some (key ++ 32 ∷ [], rest)
unfolding split_once
split_once-key [] rest v = refl
split_once-key (c ∷ key) rest v = rw (v.0.4) (rw (split_once-key key rest v.1) refl)

trim_end-key : (key : List ℕ) → All IsKeyChar key → trim_end key ≡ key
unfolding trim_end
trim_end-key [] v = refl
trim_end-key (c ∷ key) v = rw (v.0.0.0) (ap (λ x. c ∷ x) (trim_end-key key v.1))

trim-key : (key : List ℕ) → All IsKeyChar key → trim (key ++ 32 ∷ []) ≡ key
trim-key [] v = unfold trim trim_start trim_end is_whitespace in refl
trim-key (c ∷ key) v =
    unfold trim trim_start in rw (v.0.0.0) (trim_end-space (c ∷ key) ∙ trim_end-key (c ∷ key) v)

balanced_from-tail_body :
    (ss : List (List ℕ)) (rest : List ℕ)
    → balanced_from outside 1 0 (tail_body ss ++ rest) ≡ balanced_from outside 1 0 rest
unfolding balanced_from advance
balanced_from-tail_body [] rest = refl
balanced_from-tail_body (s ∷ ss) rest =
    ap (balanced_from outside 1 0) (append_assoc (quoted s) (tail_body ss) rest)
    ∙ balanced_from-quoted 1 0 s (tail_body ss ++ rest)
    ∙ balanced_from-tail_body ss rest

brackets_balanced-array_text : (ss : List (List ℕ)) → brackets_balanced (32 ∷ array_text ss) ≡ true
unfolding brackets_balanced array_text balanced_from advance array_body
brackets_balanced-array_text [] = refl
brackets_balanced-array_text (s ∷ ss) =
    ap (balanced_from outside 1 0) (append_assoc (quoted s) (tail_body ss) (93 ∷ []))
    ∙ balanced_from-quoted 1 0 s (tail_body ss ++ 93 ∷ [])
    ∙ balanced_from-tail_body ss (93 ∷ [])

-- No further line is taken for such a value.
whole_line :
    (v : Given)
    → (starts_with 91 (trim_start (32 ∷ text_of v)) && not (brackets_balanced (32 ∷ text_of v)))
      ≡ false
unfolding text_of trim_start is_whitespace
whole_line (text s) = unfold quoted in refl
whole_line (texts ss) = ground (arith, brackets_balanced-array_text ss)

parse_value-text_of : (v : Given) → parse_value (trim (32 ∷ text_of v)) ≡ ok (value_of v)
parse_value-text_of v = ap parse_value (trimmed v) ∙ read v
  where
    trimmed : (v : Given) → trim (32 ∷ text_of v) ≡ text_of v
    trimmed (text s) =
        unfold text_of quoted trim trim_start is_whitespace in trim_end-text_of [] (text s)
    trimmed (texts ss) =
        unfold text_of array_text trim trim_start is_whitespace in trim_end-text_of [] (texts ss)

    read : (v : Given) → parse_value (text_of v) ≡ ok (value_of v)
    read (text s) = unfold text_of in parse_value-text.0 s
    read (texts ss) = unfold text_of in parse_value-text.1 ss

abbrev pub with_entry : List ℕ → Value → ℕ → Doc → Doc
with_entry key v line d =
    let entry : Entry = record { key = key; value = v; line = line } in
    record d { current = record d.current { entries = d.current.entries ++ entry ∷ [] } }

keyed-text_of :
    (c : ℕ) (key : List ℕ) (v : Given) (ls : List (List ℕ)) (line : ℕ) (d : Doc)
    → is_set (c ∷ key) d.current.entries ≡ false
    → keyed (c ∷ key) (32 ∷ text_of v) ls line d
      ≡ ok (with_entry (c ∷ key) (value_of v) line d, ls, 0)
unfolding keyed valued stored
keyed-text_of c key v ls line d fresh =
    rw fresh (rw (whole_line v) (ap (stored (c ∷ key) ls 0 line d) (parse_value-text_of v)))

statement-line :
    (c : ℕ) (key : List ℕ) (v : Given) (ls : List (List ℕ)) (line : ℕ) (d : Doc)
    → All IsKeyChar (c ∷ key)
    → is_set (c ∷ key) d.current.entries ≡ false
    → statement ((c ∷ key) ++ 32 ∷ 61 ∷ 32 ∷ text_of v) ls line d
      ≡ ok (with_entry (c ∷ key) (value_of v) line d, ls, 0)
unfolding statement strip_prefix assignment assigned two_brackets one_bracket
statement-line c key v ls line d h fresh =
    let no_header : (c == 91) ≡ false = h.0.5 in
    let cut = split_once-key (c ∷ key) (32 ∷ text_of v) h in
    rw no_header (
      rw no_header (
        ap (assigned ((c ∷ key) ++ 32 ∷ 61 ∷ 32 ∷ text_of v) ls line d) cut
        ∙ (ap (λ k. keyed k (32 ∷ text_of v) ls line d) (trim-key (c ∷ key) h)
            ∙ keyed-text_of c key v ls line d fresh)))

-- A line that sets a fresh bare key to a string or an array of strings, whatever characters these have,
-- with a comment behind it, adds exactly that entry to the current table, and the parser goes on with
-- the next line.
pub parse_lines-line :
    (fuel : ℕ) (c : ℕ) (key : List ℕ) (v : Given) (comment : List ℕ) (ls : List (List ℕ)) (i : ℕ)
    (d : Doc)
    → All IsKeyChar (c ∷ key)
    → is_set (c ∷ key) d.current.entries ≡ false
    → parse_lines (suc fuel) (line_text (c ∷ key) v comment ∷ ls) i d
      ≡ parse_lines fuel ls (i + 1) (with_entry (c ∷ key) (value_of v) (i + 1) d)
unfolding parse_lines
parse_lines-line fuel c key v comment ls i d h fresh =
    let read : trim (strip_comment (line_text (c ∷ key) v comment))
        ≡ (c ∷ key) ++ 32 ∷ 61 ∷ 32 ∷ text_of v =
      ap trim (strip_comment-line_text (c ∷ key) v comment h) ∙ trim-line c key v h.0 in
    let round : List ℕ → Result Error Doc = λ text.
      if is_nil text then parse_lines fuel ls (i + 1) d else elim (statement text ls (i + 1) d) [
        | err e ↦ err e
        | ok (d', rest, taken) ↦ parse_lines fuel rest (i + 1 + taken) d'
      ] in
    let next : i + 1 + 0 ≡ i + 1 = omega arith in
    ap round read
    ∙ rw (statement-line c key v ls (i + 1) d h fresh)
        (ap (λ k. parse_lines fuel ls k (with_entry (c ∷ key) (value_of v) (i + 1) d)) next)
