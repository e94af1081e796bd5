-- ===== src/Attach/Toml/Lines.antt =====
-- toml.rs, `parse`: the lines of a file, and the tables that they make.
use padwire.Prelude.{
  ℕ, zero, suc, ◌+◌, Bool, true, false, ◌&&◌, ◌||◌, not, Option, none, some, List, [], ◌∷◌, ◌++◌,
  length, if◌then◌else◌, Result, ok, err,
}
use padwire.Prelude.Text.{is_nil, is_same, trim, trim_start, split, split_once, strip_prefix}
use padwire.Attach.Toml.{
  Value, Entry, Table, Message, Error, fail, unterminated_tables, unterminated_table, empty_key,
  unterminated_array, no_fuel, appears_twice, no_key_value, set_twice, find, brackets_balanced,
  strip_comment, strip_suffix, starts_with, parse_value,
}

-- A line ends in a line feed, with or without a carriage return before it.
unfoldable pub without_return : List ℕ → List ℕ
unfolding strip_suffix
without_return s = elim (strip_suffix (13 ∷ []) s) [ some s' ↦ s' | none ↦ s ]

unfoldable pub ended : List (List ℕ) → List (List ℕ)
unfolding without_return
ended [] = []
ended (last ∷ []) = if is_nil last then [] else last ∷ []
ended (s ∷ t ∷ ss) = without_return s ∷ ended (t ∷ ss)

unfoldable pub lines : List ℕ → List (List ℕ)
unfolding ended
lines input = ended (split 10 input)

pub record Doc : Type 0 where
  pub tables : List Table
  pub current : Table

abbrev pub root : Table
root = record { name = []; line = 0; entries = [] }

unfoldable pub start_table : List ℕ → ℕ → Doc → Doc
start_table name line d = record {
  tables = d.tables ++ d.current ∷ [];
  current = record { name = name; line = line; entries = [] };
}

abbrev pub is_named : List ℕ → List Table → Bool
is_named name [] = false
is_named name (t ∷ ts) = is_same t.name name || is_named name ts

-- The document, the lines left and how many were taken beyond the first.
abbrev pub Taken : Type 0
Taken = Doc × List (List ℕ) × ℕ

-- The text of an array that runs over lines.
unfoldable pub gathered : List ℕ → List (List ℕ) → List ℕ × List (List ℕ) × ℕ
gathered owned [] = (owned, [], 0)
gathered owned (l ∷ ls) =
    let (whole, rest, n) = gathered (owned ++ 32 ∷ strip_comment l) ls in
    if brackets_balanced owned then (owned, l ∷ ls, 0) else (whole, rest, n + 1)

unfoldable pub stored :
    List ℕ → List (List ℕ) → ℕ → ℕ → Doc → Result Message Value → Result Error Taken
stored key ls taken line d (err e) = fail line e
stored key ls taken line d (ok v) =
    let entry : Entry = record { key = key; value = v; line = line } in
    ok (
      record d { current = record d.current { entries = d.current.entries ++ entry ∷ [] } },
      ls,
      taken,
    )

unfoldable pub valued : List ℕ → List ℕ → List (List ℕ) → ℕ → ℕ → Doc → Result Error Taken
unfolding stored
valued key text ls taken line d = stored key ls taken line d (parse_value (trim text))

unfoldable pub is_set : List ℕ → List Entry → Bool
unfolding find
is_set key entries = elim (find key entries) [ none ↦ false | some e ↦ true ]

unfoldable pub keyed : List ℕ → List ℕ → List (List ℕ) → ℕ → Doc → Result Error Taken
unfolding valued gathered is_set
keyed key text ls line d =
    let (owned, rest, taken) = gathered text ls in
    if is_nil key
    then fail line empty_key
    else if is_set key d.current.entries
    then fail line (set_twice key)
    else if starts_with 91 (trim_start text) && not (brackets_balanced text)
    then if not (brackets_balanced owned)
      then fail line unterminated_array
      else valued key owned rest taken line d
    else valued key text ls 0 line d

unfoldable pub assigned :
    List ℕ → List (List ℕ) → ℕ → Doc → Option (List ℕ × List ℕ) → Result Error Taken
unfolding keyed
assigned text ls line d none = fail line (no_key_value text)
assigned text ls line d (some (key, value)) = keyed (trim key) value ls line d

unfoldable pub assignment : List ℕ → List (List ℕ) → ℕ → Doc → Result Error Taken
unfolding assigned
assignment text ls line d = assigned text ls line d (split_once 61 text)

unfoldable pub tables_header : List ℕ → List (List ℕ) → ℕ → Doc → Result Error Taken
unfolding start_table
tables_header rest ls line d = elim (strip_suffix (93 ∷ 93 ∷ []) rest) [
  | none ↦ fail line unterminated_tables
  | some name ↦ ok (start_table (trim name) line d, ls, 0)
]

unfoldable pub table_header : List ℕ → List (List ℕ) → ℕ → Doc → Result Error Taken
unfolding start_table
table_header rest ls line d = elim (strip_suffix (93 ∷ []) rest) [
  | none ↦ fail line unterminated_table
  | some name ↦
      if is_named (trim name) (d.tables ++ d.current ∷ [])
      then fail line (appears_twice (trim name))
      else ok (start_table (trim name) line d, ls, 0)
]

unfoldable pub one_bracket : List ℕ → List (List ℕ) → ℕ → Doc → Option (List ℕ) → Result Error Taken
unfolding table_header assignment
one_bracket text ls line d (some rest) = table_header rest ls line d
one_bracket text ls line d none = assignment text ls line d

unfoldable pub two_brackets :
    List ℕ → List (List ℕ) → ℕ → Doc → Option (List ℕ) → Result Error Taken
unfolding tables_header one_bracket
two_brackets text ls line d (some rest) = tables_header rest ls line d
two_brackets text ls line d none = one_bracket text ls line d (strip_prefix (91 ∷ []) text)

-- A line that is not blank.
unfoldable pub statement : List ℕ → List (List ℕ) → ℕ → Doc → Result Error Taken
unfolding two_brackets
statement text ls line d = two_brackets text ls line d (strip_prefix (91 ∷ 91 ∷ []) text)

-- The lines left, after `i` of them.
unfoldable pub parse_lines : ℕ → List (List ℕ) → ℕ → Doc → Result Error Doc
unfolding statement strip_comment
parse_lines zero ls i d = fail i no_fuel
parse_lines (suc fuel) [] i d = ok d
parse_lines (suc fuel) (raw ∷ ls) i d =
    let text = trim (strip_comment raw) in
    let blank = parse_lines fuel ls (i + 1) d in
    if is_nil text then blank else elim (statement text ls (i + 1) d) [
      | err e ↦ err e
      | ok (d', rest, taken) ↦ parse_lines fuel rest (i + 1 + taken) d'
    ]

unfoldable pub kept : List Table → List Table
kept [] = []
kept (t ∷ ts) =
    let rest = kept ts in if not (is_nil t.name) || not (is_nil t.entries) then t ∷ rest else rest

unfoldable pub parse : List ℕ → Result Error (List Table)
unfolding parse_lines lines kept
parse input =
    let ls = lines input in
    elim (parse_lines (suc (length ls)) ls 0 (record { tables = []; current = root })) [
      | err e ↦ err e
      | ok d ↦ ok (kept (d.tables ++ d.current ∷ []))
    ]
