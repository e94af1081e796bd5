-- ===== src/Attach/Toml/Fuel.antt =====
-- toml.rs: parsing ends, and where an error is said to be.
use padwire.Prelude.{
  ℕ, zero, suc, ◌+◌, ◌≤◌, ◌<◌, ◌≡◌, refl, ◌&&◌, not, Option, none, some, List, [], ◌∷◌, ◌++◌,
  length, Result, ok, err, arith, inl, inr, Bool-cases, Option-cases, Result-cases,
}
use padwire.Prelude.Text.{is_nil, trim, trim_start, strip_prefix, split_once}
use padwire.Attach.Toml.{
  Value, Message, Error, strip_suffix, starts_with, parse_value, strip_comment, brackets_balanced,
}
use padwire.Attach.Toml.Lines.{
  Doc, Taken, lines, root, parse, gathered, stored, valued, keyed, is_set, assigned, assignment,
  tables_header, table_header, one_bracket, two_brackets, statement, parse_lines, is_named,
}
use padwire.Attach.Toml.Nesting.{IsReal, Ends, parse_value-Ends}

-- An outcome of the lines: an error is the code's own, and stands at one of the first `n` lines.
abbrev pub Returns : {A : Type 0} → ℕ → Result Error A → Type 0
Returns n (ok a) = Unit {0}
Returns n (err e) = IsReal e.message × (0 < e.line) × (e.line ≤ n)

-- A statement at a line leaves its lines, those taken apart, or says that the line is wrong.
abbrev Leaves : ℕ → ℕ → Result Error Taken → Type 0
Leaves line n (err e) = IsReal e.message × (e.line ≡ line)
Leaves line n (ok r) = length r.1 + r.2 ≤ n

gathered-short :
    (owned : List ℕ) (ls : List (List ℕ))
    → length (gathered owned ls).1 + (gathered owned ls).2 ≤ length ls
unfolding gathered
gathered-short owned [] = omega arith
gathered-short owned (l ∷ ls) = elim (Bool-cases (brackets_balanced owned)) [
  | inl e ↦ rw e (omega arith)
  | inr e ↦ rw e (omega (arith, gathered-short (owned ++ 32 ∷ strip_comment l) ls))
]

stored-Leaves :
    (n : ℕ) (key : List ℕ) (ls : List (List ℕ)) (taken line : ℕ) (d : Doc)
    (r : Result Message Value)
    → Ends r
    → length ls + taken ≤ n
    → Leaves line n (stored key ls taken line d r)
unfolding stored
stored-Leaves n key ls taken line d (err e) real h = (real, refl)
stored-Leaves n key ls taken line d (ok v) real h = h

keyed-Leaves :
    (key text : List ℕ) (ls : List (List ℕ)) (line : ℕ) (d : Doc)
    → Leaves line (length ls) (keyed key text ls line d)
unfolding keyed valued
keyed-Leaves key text ls line d =
    let (owned, rest, taken) = gathered text ls in
    elim (Bool-cases (is_nil key)) [
      | inl e ↦ rw e (tt, refl)
      | inr e ↦ rw e (elim (Bool-cases (is_set key d.current.entries)) [
        | inl e' ↦ rw e' (tt, refl)
        | inr e' ↦
            rw e'
              (elim (Bool-cases
                (starts_with 91 (trim_start text) && not (brackets_balanced text))) [
                  | inr whole ↦ rw whole (
                      stored-Leaves (length ls) key ls 0 line d (parse_value (trim text))
                        (parse_value-Ends (trim text)) (omega arith))
                  | inl long ↦ rw long (elim (Bool-cases (not (brackets_balanced owned))) [
                    | inl open_end ↦ rw open_end (tt, refl)
                    | inr closed ↦ rw closed (
                        stored-Leaves (length ls) key rest taken line d (parse_value (trim owned))
                          (parse_value-Ends (trim owned)) (gathered-short text ls))
                  ])
                ])
      ])
    ]

assigned-Leaves :
    (text : List ℕ) (ls : List (List ℕ)) (line : ℕ) (d : Doc) (o : Option (List ℕ × List ℕ))
    → Leaves line (length ls) (assigned text ls line d o)
unfolding assigned
assigned-Leaves text ls line d none = (tt, refl)
assigned-Leaves text ls line d (some (key, value)) = keyed-Leaves (trim key) value ls line d

table_header-Leaves :
    (rest : List ℕ) (ls : List (List ℕ)) (line : ℕ) (d : Doc)
    → Leaves line (length ls) (table_header rest ls line d)
unfolding table_header
table_header-Leaves rest ls line d = elim (Option-cases (strip_suffix (93 ∷ []) rest)) [
  | inl e ↦ rw (e, table_header) (tt, refl)
  | inr (name, e) ↦
      rw (e, table_header)
        (elim (Bool-cases (is_named (trim name) (d.tables ++ d.current ∷ []))) [
          | inl twice ↦ rw twice (tt, refl)
          | inr fresh ↦ rw fresh (omega arith)
        ])
]

tables_header-Leaves :
    (rest : List ℕ) (ls : List (List ℕ)) (line : ℕ) (d : Doc)
    → Leaves line (length ls) (tables_header rest ls line d)
unfolding tables_header
tables_header-Leaves rest ls line d = elim (Option-cases (strip_suffix (93 ∷ 93 ∷ []) rest)) [
  | inl e ↦ rw (e, tables_header) (tt, refl)
  | inr (name, e) ↦ rw (e, tables_header) (omega arith)
]

statement-Leaves :
    (text : List ℕ) (ls : List (List ℕ)) (line : ℕ) (d : Doc)
    → Leaves line (length ls) (statement text ls line d)
unfolding statement
statement-Leaves text ls line d = by_two (strip_prefix (91 ∷ 91 ∷ []) text)
  where
    by_one : (o : Option (List ℕ)) → Leaves line (length ls) (one_bracket text ls line d o)
    by_one (some rest) = unfold one_bracket in table_header-Leaves rest ls line d
    by_one none =
        unfold one_bracket assignment in assigned-Leaves text ls line d (split_once 61 text)

    by_two : (o : Option (List ℕ)) → Leaves line (length ls) (two_brackets text ls line d o)
    by_two (some rest) = unfold two_brackets in tables_header-Leaves rest ls line d
    by_two none = unfold two_brackets in by_one (strip_prefix (91 ∷ []) text)

parse_lines-Returns :
    (fuel n : ℕ) (ls : List (List ℕ)) (i : ℕ) (d : Doc)
    → length ls < fuel
    → i + length ls ≤ n
    → Returns n (parse_lines fuel ls i d)
unfolding parse_lines
parse_lines-Returns zero n ls i d h on = absurd (omega (arith, h))
parse_lines-Returns (suc fuel) n [] i d h on = tt
parse_lines-Returns (suc fuel) n (raw ∷ ls) i d h on =
    let text = trim (strip_comment raw) in
    let blank = parse_lines-Returns fuel n ls (i + 1) d (omega (arith, h)) (omega (arith, on)) in
    let left = statement-Leaves text ls (i + 1) d in
    elim (Bool-cases (is_nil text)) [
      | inl e ↦ rw e blank
      | inr e ↦ rw e (elim (Result-cases (statement text ls (i + 1) d)) [
        | inr (x, r) ↦
            let (real, at_line) : IsReal x.message × (x.line ≡ i + 1) = rw r at left in
            rw r (real, omega (arith, at_line), omega (arith, at_line, on))
        | inl (next, r) ↦
            let short : length next.1 + next.2 ≤ length ls = rw r at left in
            rw r (
              parse_lines-Returns fuel n next.1 (i + 1 + next.2) next.0 (omega (arith, short, h))
                (omega (arith, short, on)))
      ])
    ]

-- Parsing any text ends, with tables or with one of the code's own errors, never because the rounds
-- or the nesting that it is given run out; and an error names a line that the text has.
pub parse-Returns : (input : List ℕ) → Returns (length (lines input)) (parse input)
unfolding parse
parse-Returns input =
    let ls = lines input in
    let d : Doc = record { tables = []; current = root } in
    let done =
      parse_lines-Returns (suc (length ls)) (length ls) ls 0 d (omega arith) (omega arith) in
    elim (Result-cases (parse_lines (suc (length ls)) ls 0 d)) [
      | inl (d', e) ↦ rw (e, parse, Returns) tt
      | inr (x, e) ↦ rw (e, parse, Returns) (rw e at done)
    ]
