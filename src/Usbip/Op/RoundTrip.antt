-- ===== src/Usbip/Op/RoundTrip.antt =====
-- The codec of op.rs: requests and replies come back as they were meant.
use padwire.Prelude.{
  ℕ, ◌+◌, ◌%◌, ◌^◌, ◌≤◌, ◌<◌, ◌≡◌, refl, sym, true, false, none, some, List, [], ◌∷◌, ◌++◌,
  append-nil, append_assoc, length, length-append, ltb, drop, drop-append, All, map, ok, arith,
}
use padwire.Usbip.Wire.Error.{busid_len, size_op_header}
use padwire.Usbip.Wire.Text.{IsText, HasNoNul}
use padwire.Usbip.Wire.Words.{IsU16, IsU32}
use padwire.Usbip.Wire.Reader.{Parse}
use padwire.Usbip.Wire.Writer
use padwire.Usbip.Wire.Writer.{Put, ◌>>◌}
use padwire.Usbip.Wire.Carry.{
  Carries, Carries-eq, Carries-bind, Carries-pure, Carries-done, length-into_vec, parse-into_vec,
  into_vec-then,
}
use padwire.Usbip.Wire.Fields.{Carries-u16, Carries-u32}
use padwire.Usbip.Device.{UsbDevice, IsDevice, encoded_len}
use padwire.Usbip.Device.RoundTrip.{device-Carries, text-Carries, as_sent}
use padwire.Usbip.Op.{
  OpHeader, encode, decode, run, from_bytes, encode_import_request, decode_import_request_body,
  encode_import_reply, decode_import_reply_body, put_devices, encode_devlist_reply, get_devices,
  get_devlist, decode_devlist_reply_body, new, op_req_import, op_rep_import, op_rep_devlist, st_ok,
  st_na,
}

pub record IsOpHeader (h : OpHeader) : Type 0 where
  pub version : IsU16 h.version
  pub code : IsU16 h.code
  pub status : IsU32 h.status

pub op_header-Carries : (h : OpHeader) → IsOpHeader h → Carries 8 (encode h) decode h
unfolding encode decode
op_header-Carries h v =
    Carries-bind _ _ _ _ (Carries-u16 _ v.version)
      (Carries-bind _ _ _ _ (Carries-u16 _ v.code) (Carries-pure _ _ _ (Carries-u32 _ v.status)))

-- The lengths of the records of a device list, one behind the other.
pub devices_len : List UsbDevice → ℕ
devices_len [] = 0
devices_len (d ∷ devs) = encoded_len d true + devices_len devs

abbrev pub all_sent : List UsbDevice → List UsbDevice
all_sent = map (λ d. as_sent d true)

devices-Carries :
    (devs out : List UsbDevice)
    → All IsDevice devs
    → Carries
        (devices_len devs)
        (put_devices devs)
        (get_devices (length devs) out)
        (out ++ all_sent devs)
unfolding put_devices get_devices devices_len
devices-Carries [] out h = Carries-eq (Carries-done out) refl (sym (append-nil out))
devices-Carries (d ∷ devs) out h =
    let rest = devices-Carries devs (out ++ as_sent d true ∷ []) h.1 in
    Carries-eq (Carries-bind _ _ _ _ (device-Carries d true h.0) rest) refl
      (append_assoc out (as_sent d true ∷ []) (all_sent devs))

pub devlist-Carries :
    (devs : List UsbDevice)
    → All IsDevice devs
    → length devs ≤ 1024
    → Carries
        (4 + devices_len devs)
        (Writer.u32 (length devs % 2 ^ 32) >> put_devices devs)
        get_devlist
        (all_sent devs)
unfolding get_devlist
devlist-Carries devs h bound =
    let fits : length devs % 2 ^ 32 ≡ length devs = omega arith in
    let count = Carries-eq (Carries-u32 (length devs % 2 ^ 32) (omega arith)) refl fits in
    let small : ltb 1024 (length devs) ≡ false = ground arith in
    Carries-bind _ _ _ _ count (rw small (devices-Carries devs [] h))

-- A buffer that begins with what was written.
pub run-into_vec :
    {A : Type 0} {n : ℕ} {p : Put} {g : Parse A} {a : A} (rest : List ℕ)
    → Carries n p g a
    → run g (Writer.into_vec p ++ rest) ≡ ok a
unfolding run
run-into_vec rest c = rw (parse-into_vec c rest, run) refl

-- A message is a header of eight bytes and a body, each of which comes back.
message :
    {A : Type 0} {n : ℕ} {q : Put} {g : Parse A} {a : A} (h : OpHeader)
    → IsOpHeader h
    → Carries n q g a
    → (length (Writer.into_vec (encode h >> q)) ≡ size_op_header + n)
      × (from_bytes (Writer.into_vec (encode h >> q)) ≡ ok h)
      × (run g (drop size_op_header (Writer.into_vec (encode h >> q))) ≡ ok a)
unfolding from_bytes
message {q = q} {g = g} h v c =
    let head = op_header-Carries h v in
    let parts = into_vec-then (encode h) c in
    let body = drop-append _ (Writer.into_vec q) 8 (length-into_vec head) in
    rw (parts, body)
      (
        omega (
          arith,
          length-append (Writer.into_vec (encode h)) (Writer.into_vec q),
          length-into_vec head,
          length-into_vec c,
        ),
        run-into_vec _ head,
        rw (append-nil _) at (run-into_vec [] c),
      )

pub new-IsOpHeader : (code status : ℕ) → IsU16 code → IsU32 status → IsOpHeader (new code status)
new-IsOpHeader code status c s = record { version = omega arith; code = c; status = s }

-- An import request for a bus id that is text without NUL and shorter than its field of 32 bytes
-- has 40 bytes; its header and its bus id come back.
pub import_request_comes_back :
    (busid : List ℕ)
    → IsText busid × HasNoNul busid × (length busid < busid_len)
    → (length (encode_import_request busid) ≡ 40)
      × (from_bytes (encode_import_request busid) ≡ ok (new op_req_import 0))
      × (decode_import_request_body (drop size_op_header (encode_import_request busid)) ≡ ok busid)
unfolding encode_import_request decode_import_request_body
import_request_comes_back busid h =
    message _ (new-IsOpHeader _ _ (omega arith) (omega arith)) (text-Carries busid 32 h)

-- An import reply with a device whose fields fit is a header with status 0 and the device without
-- its interfaces, 320 bytes in all; a reply without one is only a header, with status 1.
pub import_reply_comes_back :
    (d : UsbDevice)
    → IsDevice d
    → (length (encode_import_reply (some d)) ≡ 320)
      × (from_bytes (encode_import_reply (some d)) ≡ ok (new op_rep_import st_ok))
      × (decode_import_reply_body (drop size_op_header (encode_import_reply (some d)))
          ≡ ok (record d { interfaces = [] }))
      × (length (encode_import_reply none) ≡ 8)
      × (from_bytes (encode_import_reply none) ≡ ok (new op_rep_import st_na))
unfolding encode_import_reply decode_import_reply_body from_bytes as_sent encoded_len
import_reply_comes_back d h =
    let accepted = new-IsOpHeader op_rep_import st_ok (omega arith) (omega arith) in
    let refused =
      op_header-Carries _ (new-IsOpHeader op_rep_import st_na (omega arith) (omega arith)) in
    let (size, head, body) = message _ accepted (device-Carries d false h) in
    (
      omega (arith, size),
      head,
      body,
      length-into_vec refused,
      rw (append-nil _) at (run-into_vec [] refused),
    )

-- The reply to a device list request with at most 1024 devices whose numbers fit their fields and
-- whose texts are UTF-8, without NUL and shorter than their fields, has the header and the count, 12
-- bytes, then the records; and what is read back of it are the devices as they are sent, the interfaces
-- of each cut or padded to the number that it announces.
pub devlist_reply_comes_back :
    (devs : List UsbDevice)
    → All IsDevice devs
    → length devs ≤ 1024
    → (length (encode_devlist_reply devs) ≡ 12 + devices_len devs)
      × (from_bytes (encode_devlist_reply devs) ≡ ok (new op_rep_devlist st_ok))
      × (decode_devlist_reply_body (drop size_op_header (encode_devlist_reply devs))
          ≡ ok (all_sent devs))
unfolding encode_devlist_reply decode_devlist_reply_body
devlist_reply_comes_back devs h bound =
    let header = new-IsOpHeader op_rep_devlist st_ok (omega arith) (omega arith) in
    let parts = message _ header (devlist-Carries devs h bound) in
    (omega (arith, parts.0), parts.1, parts.2)
