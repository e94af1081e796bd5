-- ===== src/Usbip/Io/Setup/Requests.antt =====
-- `read_op_request` on the requests of a client, and on anything else.
use padwire.Prelude.{
  ℕ, ◌<◌, ◌≡◌, ◌≢◌, refl, ap, ◌∙◌, none, some, List, [], ◌++◌, append_assoc, length, ok, err, arith,
  ◌==◌, if◌then◌else◌, append-nil,
}
use padwire.Usbip.Wire.Error.{usbip_version, bad_version, busid_len}
use padwire.Usbip.Wire.Text.{IsText, HasNoNul}
use padwire.Usbip.Wire.Writer
use padwire.Usbip.Wire.Carry.{length-into_vec, into_vec-then}
use padwire.Usbip.Wire.Writer.{Put}
use padwire.Usbip.Device.RoundTrip.{text-Carries}
use padwire.Usbip.Op.{
  OpHeader, op_req_devlist, op_req_import, new, encode, check_version, from_bytes,
  encode_devlist_request, encode_import_request, to_bytes,
}
use padwire.Usbip.Op.RoundTrip.{IsOpHeader, op_header-Carries, new-IsOpHeader, run-into_vec}
use padwire.Usbip.Io.Stream.{
  Stream, ErrorKind, proto, ◌>>=◌, ◌>>◌, pure, lift, lift-ok, >>=-ok, read_exact_front,
}
use padwire.Usbip.Io.Setup.{dev_list, import, read_busid, read_op_header, read_op_request}

-- Some bytes, and the rest of the stream behind them.
abbrev pub before : List ℕ → List ℕ → ErrorKind → Stream
before front rest ending = record { incoming = front ++ rest; ending = ending }

read_op_header_front :
    (h : OpHeader) (rest : List ℕ) (ending : ErrorKind)
    → IsOpHeader h
    → read_op_header (before (to_bytes h) rest ending)
      ≡ ok (h, record { incoming = rest; ending = ending })
unfolding read_op_header to_bytes from_bytes
read_op_header_front h rest ending v =
    let c = op_header-Carries h v in
    >>=-ok _ _ _ (read_exact_front (Writer.into_vec (encode h)) rest 8 ending (length-into_vec c))
    ∙ lift-ok _ _ (rw (append-nil _) at (run-into_vec [] c))

-- A request whose version is another one is refused with it; one of the version spoken here whose
-- code is neither of the two gets no answer from this layer, and only its header is taken.
pub read_op_request_other :
    (h : OpHeader) (rest : List ℕ) (ending : ErrorKind)
    → IsOpHeader h
    → h.code ≢ op_req_devlist
    → h.code ≢ op_req_import
    → read_op_request (before (to_bytes h) rest ending) ≡ (
        if h.version == usbip_version
        then ok (none, record { incoming = rest; ending = ending })
        else err (proto (bad_version h.version)))
unfolding read_op_request
read_op_request_other h rest ending v not_list not_import =
    >>=-ok _ _ _ (read_op_header_front h rest ending v)
    ∙ (unfold check_version lift ◌>>◌ ◌>>=◌ pure in ground arith)

import_request_split :
    (busid rest : List ℕ)
    → IsText busid × HasNoNul busid × (length busid < busid_len)
    → encode_import_request busid ++ rest
      ≡ to_bytes (new op_req_import 0)
        ++ (Writer.into_vec (Writer.text_field busid busid_len) ++ rest)
unfolding encode_import_request to_bytes
import_request_split busid rest h =
    ap (λ bs. bs ++ rest) (into_vec-then (encode (new op_req_import 0)) (text-Carries busid 32 h))
    ∙ append_assoc (Writer.into_vec (encode (new op_req_import 0))) _ rest

read_busid_front :
    (busid rest : List ℕ) (ending : ErrorKind)
    → IsText busid × HasNoNul busid × (length busid < busid_len)
    → read_busid (before (Writer.into_vec (Writer.text_field busid busid_len)) rest ending)
      ≡ ok (import busid, record { incoming = rest; ending = ending })
unfolding read_busid
read_busid_front busid rest ending h =
    let c = text-Carries busid 32 h in
    >>=-ok _ _ _ (read_exact_front _ rest 32 ending (length-into_vec c))
    ∙ >>=-ok _ _ _ (lift-ok _ _ (rw (append-nil _) at (run-into_vec [] c)))
    ∙ (unfold pure in refl)

-- What a client sends is read back as it was meant, and what follows stays on the stream: the
-- request for the device list, and an import request for a bus id that is text without NUL and
-- shorter than its field.
pub read_op_request_lem :
    (busid rest : List ℕ) (ending : ErrorKind)
    → IsText busid × HasNoNul busid × (length busid < busid_len)
    → (read_op_request (before encode_devlist_request rest ending)
        ≡ ok (some dev_list, record { incoming = rest; ending = ending }))
      × (read_op_request (before (encode_import_request busid) rest ending)
          ≡ ok (some (import busid), record { incoming = rest; ending = ending }))
unfolding read_op_request encode_devlist_request
read_op_request_lem busid rest ending h =
    let list_header = new-IsOpHeader op_req_devlist 0 (omega arith) (omega arith) in
    let import_header = new-IsOpHeader op_req_import 0 (omega arith) (omega arith) in
    (
      >>=-ok _ _ _ (read_op_header_front _ rest ending list_header)
          ∙ (unfold check_version lift ◌>>◌ ◌>>=◌ pure in refl),
      rw (import_request_split busid rest h) (
          >>=-ok _ _ _ (read_op_header_front _ _ ending import_header)
          ∙ (unfold check_version lift ◌>>◌ ◌>>=◌ pure in
              rw (read_busid_front busid rest ending h, ◌>>◌, ◌>>=◌) refl)),
    )
