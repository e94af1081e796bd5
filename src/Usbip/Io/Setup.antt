-- ===== src/Usbip/Io/Setup.antt =====
-- crates/usbip-proto/src/io.rs: the requests and replies that set a connection up.
pub mod Requests
use padwire.Prelude.{
  ℕ, zero, suc, ◌-◌, ◌*◌, ◌≡◌, Bool, true, false, Option, none, some, List, [], ◌∷◌, ◌++◌, get_or,
  ltb, ◌==◌, if◌then◌else◌, Result, ok, err,
}
use padwire.Prelude.Int.{pos}
use padwire.Usbip.Wire.Error.{
  ProtoError, too_large, size_op_header, size_usb_device, size_usb_interface, busid_len,
}
use padwire.Usbip.Wire.Words.{u32_from_be_bytes}
use padwire.Usbip.Wire.Reader
use padwire.Usbip.Device
use padwire.Usbip.Device.{UsbDevice}
use padwire.Usbip.Op
use padwire.Usbip.Op.{
  OpHeader, op_req_devlist, op_req_import, op_rep_devlist, op_rep_import, st_ok, run,
}
use padwire.Usbip.Io.Stream.{
  Io, ErrorKind, of_kind, proto, ◌>>=◌, ◌>>◌, pure, fail, lift, read_exact,
}

pub data OpRequest : Type 0 where
  dev_list : OpRequest
  import : (busid : List ℕ) → OpRequest

unfoldable pub read_op_header : Io OpHeader
read_op_header = do buf ← read_exact size_op_header; lift (Op.from_bytes buf)

unfoldable pub read_busid : Io OpRequest
read_busid = do
  buf ← read_exact busid_len
  busid ← lift (run (Reader.text_field busid_len) buf)
  pure (import busid)

unfoldable pub read_op_request : Io (Option OpRequest)
read_op_request = do
  h ← read_op_header
  lift (Op.check_version h)
  if h.code == op_req_devlist
      then pure (some dev_list)
      else if h.code == op_req_import
      then (do r ← read_busid; pure (some r))
      else pure none

abbrev pub max_devlist : ℕ
max_devlist = 1024

unfoldable pub expect_reply : OpHeader → ℕ → Io (Unit {0})
expect_reply h code = do
  lift (Op.check_version h)
  if h.code == code
      then (if h.status == st_ok then pure tt else fail (of_kind ErrorKind.other_kind))
      else fail (of_kind ErrorKind.invalid_data)

-- One record: the fixed part, whose last byte says how many interfaces follow.
unfoldable pub read_device : Io UsbDevice
read_device = do
  buf ← read_exact size_usb_device
  more ← read_exact (get_or buf (size_usb_device - 1) 0 * size_usb_interface)
  lift (run (Device.decode true) (buf ++ more))

-- The rounds left, and what has been pushed.
unfoldable pub read_devices : ℕ → List UsbDevice → Io (List UsbDevice)
read_devices zero out = pure out
read_devices (suc n) out = do d ← read_device; read_devices n (out ++ d ∷ [])

unfoldable pub read_devlist_reply : Io (List UsbDevice)
read_devlist_reply = do
  h ← read_op_header
  expect_reply h op_rep_devlist
  count ← read_exact 4
  let n = u32_from_be_bytes count
  if ltb max_devlist n
      then fail (proto (too_large "devlist count" (pos n) (pos max_devlist)))
      else read_devices n []

unfoldable pub read_import_reply : Io UsbDevice
read_import_reply = do
  h ← read_op_header
  expect_reply h op_rep_import
  buf ← read_exact size_usb_device
  lift (run (Device.decode false) buf)
