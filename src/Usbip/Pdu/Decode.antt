-- ===== src/Usbip/Pdu/Decode.antt =====
-- crates/usbip-proto/src/pdu.rs: what is read.
use padwire.Prelude.{ℕ, List, ◌==◌, if◌then◌else◌, Result, ok, err}
use padwire.Usbip.Wire.Error.{ProtoError, bad_command}
use padwire.Usbip.Wire.Reader.{Reader, Parse, ◌>>=◌, pure, fail, new, u32, i32, array, skip}
use padwire.Usbip.Pdu.{
  BasicHeader, Body, Header, IsoPacketDescriptor, cmd_submit, ret_submit, cmd_unlink, ret_unlink,
  usbip_cmd_submit, usbip_ret_submit, usbip_cmd_unlink, usbip_ret_unlink,
}

unfoldable pub get_base : Parse BasicHeader
get_base = do
  command ← u32
  seqnum ← u32
  devid ← u32
  direction ← u32
  ep ← u32
  pure
      (record { command = command; seqnum = seqnum; devid = devid; direction = direction; ep = ep })

get_cmd_submit : Parse Body
get_cmd_submit = do
  transfer_flags ← u32
  transfer_buffer_length ← i32
  start_frame ← i32
  number_of_packets ← i32
  interval ← i32
  setup ← array 8
  pure (
      cmd_submit (record {
        transfer_flags = transfer_flags;
        transfer_buffer_length = transfer_buffer_length;
        start_frame = start_frame;
        number_of_packets = number_of_packets;
        interval = interval;
        setup = setup;
      }))

get_ret_submit : Parse Body
get_ret_submit = do
  status ← i32
  actual_length ← i32
  start_frame ← i32
  number_of_packets ← i32
  error_count ← i32
  padding ← skip 8
  pure (
      ret_submit (record {
        status = status;
        actual_length = actual_length;
        start_frame = start_frame;
        number_of_packets = number_of_packets;
        error_count = error_count;
      }))

get_cmd_unlink : Parse Body
get_cmd_unlink = do
  unlink_seqnum ← u32
  padding ← skip 24
  pure (cmd_unlink (record { unlink_seqnum = unlink_seqnum }))

get_ret_unlink : Parse Body
get_ret_unlink = do status ← i32; padding ← skip 24; pure (ret_unlink (record { status = status }))

unfoldable pub get_body : ℕ → Parse Body
unfolding get_cmd_submit get_ret_submit get_cmd_unlink get_ret_unlink
get_body command =
    if command == usbip_cmd_submit
    then get_cmd_submit
    else if command == usbip_ret_submit
    then get_ret_submit
    else if command == usbip_cmd_unlink
    then get_cmd_unlink
    else if command == usbip_ret_unlink
    then get_ret_unlink
    else fail (bad_command command)

unfoldable pub get_header : Parse Header
unfolding ◌>>=◌ pure
get_header = do
  base ← get_base
  body ← get_body base.command
  pure (record { base = base; body = body })

abbrev result_of : {A : Type 0} → Result ProtoError (A × Reader) → Result ProtoError A
result_of (ok (a, r)) = ok a
result_of (err e) = err e

unfoldable pub decode : List ℕ → Result ProtoError Header
unfolding new
decode buf = result_of (get_header (new buf))

unfoldable pub get_iso : Parse IsoPacketDescriptor
unfolding ◌>>=◌ pure u32
get_iso = do
  offset ← u32
  length ← u32
  actual_length ← u32
  status ← u32
  pure (record { offset = offset; length = length; actual_length = actual_length; status = status })
