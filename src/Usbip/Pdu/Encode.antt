-- ===== src/Usbip/Pdu/Encode.antt =====
-- crates/usbip-proto/src/pdu.rs: what is written.
use padwire.Prelude.{ℕ, List}
use padwire.Usbip.Wire.Writer.{Put, ◌>>◌, u32, i32, u64, bytes, zeros, into_vec}
use padwire.Usbip.Pdu.{
  BasicHeader, Body, Header, IsoPacketDescriptor, cmd_submit, ret_submit, cmd_unlink, ret_unlink,
}

unfoldable pub put_base : BasicHeader → Put
put_base b = do u32 b.command; u32 b.seqnum; u32 b.devid; u32 b.direction; u32 b.ep

unfoldable pub put_body : Body → Put
put_body (cmd_submit c) = do
  u32 c.transfer_flags
  i32 c.transfer_buffer_length
  i32 c.start_frame
  i32 c.number_of_packets
  i32 c.interval
  bytes c.setup
put_body (ret_submit r) = do
  i32 r.status
  i32 r.actual_length
  i32 r.start_frame
  i32 r.number_of_packets
  i32 r.error_count
  u64 0
put_body (cmd_unlink u) = do u32 u.unlink_seqnum; zeros 24
put_body (ret_unlink u) = do i32 u.status; zeros 24

unfoldable pub encode : Header → Put
unfolding put_base put_body ◌>>◌ u32 i32 u64 bytes zeros
encode h = do put_base h.base; put_body h.body

unfoldable pub to_bytes : Header → List ℕ
unfolding encode into_vec
to_bytes h = into_vec (encode h)

unfoldable pub put_iso : IsoPacketDescriptor → Put
unfolding ◌>>◌ u32
put_iso d = do u32 d.offset; u32 d.length; u32 d.actual_length; u32 d.status
