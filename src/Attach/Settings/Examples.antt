-- ===== src/Attach/Settings/Examples.antt =====
-- config.rs: a file with one server.
use padwire.Prelude.{ℕ, ◌≡◌, refl, true, List, [], ◌∷◌, ok}
use padwire.Prelude.Text.{
  trim, trim_start, trim_end, is_whitespace, split, pieces, split_once, strip_prefix,
}
use padwire.Backend.Filter.{default_filter}
use padwire.Attach.Toml.{
  get, find, line_of, unknown_keys, unknown_of, advance, balanced_from, brackets_balanced,
  strip_from, strip_comment, strip_suffix, parse_string, unescape, with_char, parse_scalar,
  parse_from, parse_value,
}
use padwire.Attach.Toml.Lines
use padwire.Attach.Toml.Lines.{
  lines, ended, without_return, gathered, stored, valued, is_set, keyed, assigned, assignment,
  start_table, tables_header, one_bracket, two_brackets, statement, parse_lines, kept,
}
use padwire.Attach.Settings.{
  Settings, default_settings, reject_unknown, string, integer, boolean, port_from, devices_from,
  with_host, server_from, with_table, with_tables, is_server, names_distinct, finished, parse,
}
use padwire.Attach.Settings.Bounds.{IsSettings, parse-IsSettings}

-- `[[server]]` and `host = "h"`
abbrev file : List ℕ
file =
    91 ∷ 91 ∷ 115 ∷ 101 ∷ 114 ∷ 118 ∷ 101 ∷ 114 ∷ 93 ∷ 93 ∷ 10 ∷ 104 ∷ 111 ∷ 115 ∷ 116 ∷ 32 ∷ 61
    ∷ 32 ∷ 34 ∷ 104 ∷ 34 ∷ []

abbrev settings : Settings
settings = record default_settings {
  servers =
      record {
        name = 104 ∷ [];
        host = 104 ∷ [];
        port = 3240;
        devices = default_filter;
        auto_attach = true;
      }
      ∷ [];
}

file-settings : parse file ≡ ok settings
unfolding trim trim_start trim_end is_whitespace split pieces split_once strip_prefix get find
    line_of unknown_keys unknown_of advance balanced_from brackets_balanced strip_from strip_comment
    strip_suffix parse_string unescape with_char parse_scalar parse_from parse_value Lines.parse
    lines ended without_return gathered stored valued is_set keyed assigned assignment start_table
    tables_header one_bracket two_brackets statement parse_lines kept reject_unknown string integer
    boolean port_from devices_from with_host server_from with_table with_tables is_server
    names_distinct finished parse
file-settings = refl

parse-IsSettings_example : IsSettings settings
parse-IsSettings_example = parse-IsSettings file settings file-settings
