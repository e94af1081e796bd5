-- ===== src/Usbip/Io/Transfer.antt =====
-- crates/usbip-proto/src/io.rs: the messages that carry transfers.
pub mod Frames
pub mod Replies
pub mod Safety
use padwire.Prelude.{
  ℕ, zero, suc, ◌*◌, ◌≡◌, arith, Bool, true, false, ◌||◌, Option, none, some, List, [], ◌∷◌, ◌++◌,
  ltb, if◌then◌else◌, Result, ok, err, length,
}
use padwire.Prelude.Int.{ℤ, pos, is_negative, max_zero}
use padwire.Usbip.Wire.Error.{ProtoError, too_large, size_cmd_header, size_iso_desc}
use padwire.Usbip.Wire.Reader
use padwire.Usbip.Wire.Reader.{Parse}
use padwire.Usbip.Pdu.{
  Direction, Body, Header, CmdSubmit, RetSubmit, IsoPacketDescriptor, cmd_submit, ret_submit,
  cmd_unlink, ret_unlink, dir, iso_count, submit_payload_len, ret_payload_len, new_ret_submit,
  new_ret_unlink,
}
use padwire.Usbip.Pdu.Encode.{to_bytes}
use padwire.Usbip.Pdu.Decode.{decode, get_iso}
use padwire.Usbip.Io.Stream.{
  Io, Stream, IoError, proto, of_kind, invalid_data, ◌>>=◌, ◌>>◌, pure, fail, lift, read_exact,
}

pub record Pdu : Type 0 where
  pub header : Header
  pub data_bytes : List ℕ
  pub iso : List IsoPacketDescriptor

abbrev pub max_iso_packets : ℕ
max_iso_packets = 1024

-- How many bytes of data and how many packet descriptors follow a header.
unfoldable pub sizes : Header → ℕ → Result IoError (ℕ × ℕ)
unfolding iso_count submit_payload_len dir
sizes h max_transfer = elim h.body [
  | cmd_submit c ↦
      if is_negative c.transfer_buffer_length
        || ltb max_transfer (max_zero c.transfer_buffer_length)
      then err
          (proto (too_large "transfer_buffer_length" c.transfer_buffer_length (pos max_transfer)))
      else if ltb max_iso_packets (iso_count c)
      then err (proto (too_large "number_of_packets" c.number_of_packets (pos max_iso_packets)))
      else ok (submit_payload_len c (dir h.base), iso_count c)
  | cmd_unlink u ↦ ok (0, 0)
  | _ ↦ err (of_kind invalid_data)
]

-- The rounds left, and what has been pushed.
unfoldable pub get_isos : ℕ → List IsoPacketDescriptor → Parse (List IsoPacketDescriptor)
get_isos zero iso = Reader.pure iso
get_isos (suc n) iso = Reader.◌>>=◌ get_iso (λ d. get_isos n (iso ++ d ∷ []))

abbrev result_of : {A S E : Type 0} → Result E (A × S) → Result E A
result_of (ok (a, s)) = ok a
result_of (err e) = err e

unfoldable pub read_iso : ℕ → Io (List IsoPacketDescriptor)
read_iso n =
    if ltb 0 n
    then (do
      ibuf ← read_exact (n * size_iso_desc)
      lift (result_of (get_isos n [] (Reader.new ibuf))))
    else pure []

-- `?` on an error that is one of `io` already.
unfoldable pub lift_io : {A : Type 0} → Result IoError A → Io A
lift_io (ok a) s = ok (a, s)
lift_io (err e) s = err e

pub lift_io-ok :
    {A : Type 0} (r : Result IoError A) (s : Stream) {a : A} → r ≡ ok a → lift_io r s ≡ ok (a, s)
unfolding lift_io
lift_io-ok r s h = rw h

pub lift_io-eq-ok :
    {A : Type 0} (r : Result IoError A) (s : Stream) {a : A} {s' : Stream}
    → lift_io r s ≡ ok (a, s')
    → (r ≡ ok a) × (s' ≡ s)
unfolding lift_io
lift_io-eq-ok (ok a) s h = ground arith
lift_io-eq-ok (err e) s h = cc

unfoldable pub read_pdu : ℕ → Io Pdu
read_pdu max_transfer = do
  hbuf ← read_exact size_cmd_header
  header ← lift (decode hbuf)
  (data_len, iso_n) ← lift_io (sizes header max_transfer)
  data_bytes ← read_exact data_len
  iso ← read_iso iso_n
  pure (record { header = header; data_bytes = data_bytes; iso = iso })

-- The bytes that `write_header`, `write_ret_submit` and `write_ret_unlink` hand to one `write_all`.
unfoldable pub write_header : Header → List ℕ
write_header h = to_bytes h

unfoldable pub write_ret_submit : ℕ → RetSubmit → List ℕ → List ℕ
write_ret_submit seqnum ret data_bytes = to_bytes (new_ret_submit seqnum ret) ++ data_bytes

unfoldable pub write_ret_unlink : ℕ → ℤ → List ℕ
write_ret_unlink seqnum status = write_header (new_ret_unlink seqnum status)

pub or_invalid : {A : Type 0} → Option A → Io A
or_invalid (some a) = pure a
or_invalid none = fail (of_kind invalid_data)

pub ret_of : Body → Io RetSubmit
ret_of (ret_submit r) = pure r
ret_of _ = fail (of_kind invalid_data)

unfoldable pub read_ret_submit : (ℕ → Option Direction) → ℕ → Io (Header × List ℕ)
unfolding or_invalid ret_of
read_ret_submit dir_for max_transfer = do
  hbuf ← read_exact size_cmd_header
  header ← lift (decode hbuf)
  ret ← ret_of header.body
  d ← or_invalid (dir_for header.base.seqnum)
  if ltb max_transfer (ret_payload_len ret d)
      then fail (proto (too_large "actual_length" (pos (ret_payload_len ret d)) (pos max_transfer)))
      else (do data_bytes ← read_exact (ret_payload_len ret d); pure (header, data_bytes))
