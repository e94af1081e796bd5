-- ===== src/Backend/Examples.antt =====
-- The theorems of the backend on concrete descriptors, texts and URBs.
use padwire.Prelude.{ℕ, ◌≡◌, refl, true, ◌||◌, none, some, List, [], ◌∷◌, All, ◌==◌, ok, err, arith}
use padwire.Backend.Descriptors.{AltSetting, EndpointDescriptor, panic, parse, parse_config}
use padwire.Backend.Descriptors.Safety.{Ends, parse-Ends, parse_short_config}
use padwire.Backend.Descriptors.Walk.{Setting, config_bytes, parse_config-config_bytes}
use padwire.Backend.Filter.{DeviceFilter, from_str, display}
use padwire.Prelude.Text.{is_whitespace}
use padwire.Backend.Filter.RoundTrip.{from_str-display}

-- A device descriptor, and the header of a configuration that says how long it is.
abbrev blob_of : ℕ → List ℕ
blob_of total =
    18 ∷ 1 ∷ 0 ∷ 2 ∷ 0 ∷ 0 ∷ 0 ∷ 64 ∷ 0xde ∷ 0x28 ∷ 4 ∷ 0x13 ∷ 0 ∷ 1 ∷ 0 ∷ 0 ∷ 0 ∷ 1 ∷ 9 ∷ 2 ∷ total
    ∷ 0 ∷ 0 ∷ 1 ∷ 0 ∷ 0x80 ∷ 50 ∷ []

parse-Ends_example : Ends (blob_of 5) (parse (blob_of 5))
parse-Ends_example = parse-Ends (blob_of 5)

parse_short_config_example : parse (blob_of 5) ≡ err panic
parse_short_config_example =
    parse_short_config (blob_of 5) (omega arith) (omega arith) refl (omega arith) (omega arith) refl
      (omega arith)

abbrev input_endpoint : EndpointDescriptor
input_endpoint = record { address = 0x81; attributes = 3; max_packet_size = 64; interval = 4 }

abbrev hid : ℕ → ℕ → AltSetting
hid n alternate = record {
  interface_number = n;
  alternate_setting = alternate;
  class = 3;
  sub_class = 0;
  protocol = 0;
  endpoints = input_endpoint ∷ [];
}

-- A HID descriptor stands between an interface and its endpoint.
abbrev settings : List Setting
settings =
    record { alt = hid 0 0; text = 0; between = (0x21, 1 ∷ 2 ∷ []) ∷ [] }
    ∷ record { alt = hid 1 0; text = 0; between = [] }
    ∷ []

parse_config-config_bytes_example :
    parse_config (config_bytes 1 2 (0, 0, 0, 0x80, 50) settings)
    ≡ ok (record {
      configuration_value = 1;
      num_interfaces = 2;
      alt_settings = hid 0 0 ∷ hid 1 0 ∷ [];
    })
parse_config-config_bytes_example =
    parse_config-config_bytes 1 2 (0, 0, 0, 0x80, 50) settings (ground arith)

abbrev allowed : DeviceFilter
allowed = record {
  patterns =
      record { vendor = some 0x28de; product = some 0x1304 }
      ∷ record { vendor = none; product = none }
      ∷ [];
}

from_str-display_example : from_str (display allowed) ≡ ok allowed
from_str-display_example = from_str-display allowed (ground arith)

-- `" , "`
abbrev blank : List ℕ
blank = 32 ∷ 44 ∷ 32 ∷ []

blank-IsBlank : All (λ c. (is_whitespace c || c == 44) ≡ true) blank
unfolding is_whitespace
blank-IsBlank = (refl, (refl, (refl, tt)))
