-- ===== src/Usbip/Wire/Error.antt =====
-- crates/usbip-proto/src/lib.rs: the sizes of the wire format and the errors of its parsers.
use padwire.Prelude.{ℕ, String}
use padwire.Prelude.Int.{ℤ}

abbrev pub usbip_version : ℕ
usbip_version = 0x0111

abbrev pub size_op_header : ℕ
size_op_header = 8

abbrev pub size_usb_device : ℕ
size_usb_device = 312

abbrev pub size_usb_interface : ℕ
size_usb_interface = 4

abbrev pub size_cmd_header : ℕ
size_cmd_header = 48

abbrev pub size_iso_desc : ℕ
size_iso_desc = 16

abbrev pub busid_len : ℕ
busid_len = 32

abbrev pub path_len : ℕ
path_len = 256

pub data ProtoError : Type 0 where
  truncated : (need given : ℕ) → ProtoError
  bad_version : ℕ → ProtoError
  bad_command : ℕ → ProtoError
  too_large : (field : String) (value limit : ℤ) → ProtoError
  utf8 : ProtoError
