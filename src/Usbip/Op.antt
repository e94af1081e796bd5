-- ===== src/Usbip/Op.antt =====
-- crates/usbip-proto/src/op.rs: the requests and replies that set a connection up.
pub mod RoundTrip
use padwire.Prelude.{
  ℕ, zero, suc, ◌%◌, ◌^◌, ◌≡◌, Bool, true, false, Option, none, some, List, [], ◌∷◌, ◌++◌, length,
  ◌==◌, ltb, if◌then◌else◌, Result, ok, err,
}
use padwire.Prelude.Int.{pos}
use padwire.Usbip.Wire.Error.{ProtoError, bad_version, too_large, usbip_version, busid_len}
use padwire.Usbip.Wire.Reader
use padwire.Usbip.Wire.Reader.{Reader, Parse, ◌>>=◌, pure, fail}
use padwire.Usbip.Wire.Writer
use padwire.Usbip.Wire.Writer.{Put, ◌>>◌}
use padwire.Usbip.Device
use padwire.Usbip.Device.{UsbDevice}

abbrev pub op_req_devlist : ℕ
op_req_devlist = 0x8005

abbrev pub op_rep_devlist : ℕ
op_rep_devlist = 0x0005

abbrev pub op_req_import : ℕ
op_req_import = 0x8003

abbrev pub op_rep_import : ℕ
op_rep_import = 0x0003

abbrev pub st_ok : ℕ
st_ok = 0x00

abbrev pub st_na : ℕ
st_na = 0x01

pub record OpHeader : Type 0 where
  pub version : ℕ
  pub code : ℕ
  pub status : ℕ

abbrev pub new : ℕ → ℕ → OpHeader
new code status = record { version = usbip_version; code = code; status = status }

unfoldable pub encode : OpHeader → Put
encode h = do Writer.u16 h.version; Writer.u16 h.code; Writer.u32 h.status

unfoldable pub to_bytes : OpHeader → List ℕ
to_bytes h = Writer.into_vec (encode h)

unfoldable pub decode : Parse OpHeader
decode = do
  version ← Reader.u16
  code ← Reader.u16
  status ← Reader.u32
  pure (record { version = version; code = code; status = status })

-- A parser on a whole buffer; what the cursor is afterwards is dropped.
unfoldable pub run : {A : Type 0} → Parse A → List ℕ → Result ProtoError A
unfolding Reader.new
run g b = elim (g (Reader.new b)) [ ok (a, r) ↦ ok a | err e ↦ err e ]

unfoldable pub from_bytes : List ℕ → Result ProtoError OpHeader
from_bytes b = run decode b

unfoldable pub check_version : OpHeader → Result ProtoError (Unit {0})
check_version h = if h.version == usbip_version then ok tt else err (bad_version h.version)

unfoldable pub encode_import_request : List ℕ → List ℕ
encode_import_request busid =
    Writer.into_vec (do encode (new op_req_import 0); Writer.text_field busid busid_len)

unfoldable pub decode_import_request_body : List ℕ → Result ProtoError (List ℕ)
decode_import_request_body b = run (Reader.text_field busid_len) b

unfoldable pub encode_import_reply : Option UsbDevice → List ℕ
encode_import_reply none = Writer.into_vec (encode (new op_rep_import st_na))
encode_import_reply (some d) =
    Writer.into_vec (do encode (new op_rep_import st_ok); Device.encode d false)

unfoldable pub decode_import_reply_body : List ℕ → Result ProtoError UsbDevice
decode_import_reply_body b = run (Device.decode false) b

unfoldable pub encode_devlist_request : List ℕ
encode_devlist_request = to_bytes (new op_req_devlist 0)

unfoldable pub put_devices : List UsbDevice → Put
put_devices [] = Writer.done
put_devices (d ∷ devs) = do Device.encode d true; put_devices devs

-- `devs.len() as u32`
unfoldable pub encode_devlist_reply : List UsbDevice → List ℕ
encode_devlist_reply devs =
    Writer.into_vec
      (do encode (new op_rep_devlist st_ok); Writer.u32 (length devs % 2 ^ 32); put_devices devs)

-- The rounds left, and what has been pushed.
unfoldable pub get_devices : ℕ → List UsbDevice → Parse (List UsbDevice)
get_devices zero out = pure out
get_devices (suc n) out = do d ← Device.decode true; get_devices n (out ++ d ∷ [])

unfoldable pub get_devlist : Parse (List UsbDevice)
get_devlist = do
  n ← Reader.u32
  if ltb 1024 n then fail (too_large "devlist count" (pos n) (pos 1024)) else get_devices n []

unfoldable pub decode_devlist_reply_body : List ℕ → Result ProtoError (List UsbDevice)
decode_devlist_reply_body b = run get_devlist b
