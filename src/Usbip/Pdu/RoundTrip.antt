-- ===== src/Usbip/Pdu/RoundTrip.antt =====
-- The codec of pdu.rs: what `encode` writes, `decode` reads.
use padwire.Prelude.{ℕ, ◌≡◌, sym, subst, List, ◌++◌, length, ok}
use padwire.Usbip.Wire.Error.{size_cmd_header}
use padwire.Usbip.Wire.Carry.{Carries, Carries-bind, Carries-pure, length-into_vec, parse-into_vec}
use padwire.Usbip.Wire.Fields.{
  Carries-u32, Carries-i32, Carries-array, Carries-zeros, Carries-u64_padding,
}
use padwire.Usbip.Pdu.{
  BasicHeader, Body, Header, IsoPacketDescriptor, CmdSubmit, RetSubmit, usbip_cmd_submit,
  usbip_ret_submit, IsSubmit, IsRet, IsBase, IsBody, IsHeader, IsIso, command_of, cmd_submit,
  ret_submit, cmd_unlink, ret_unlink,
}
use padwire.Usbip.Pdu.Encode.{put_base, put_body, encode, to_bytes, put_iso}
use padwire.Usbip.Pdu.Decode.{get_base, get_body, get_header, decode, get_iso}

base-Carries : (b : BasicHeader) → IsBase b → Carries 20 (put_base b) get_base b
unfolding put_base get_base
base-Carries b h = Carries-bind _ _ _ _ (Carries-u32 _ h.command) (
    Carries-bind _ _ _ _ (Carries-u32 _ h.seqnum) (
      Carries-bind _ _ _ _ (Carries-u32 _ h.devid) (
        Carries-bind _ _ _ _ (Carries-u32 _ h.direction)
          (Carries-pure _ _ _ (Carries-u32 _ h.ep)))))

pub iso-Carries : (d : IsoPacketDescriptor) → IsIso d → Carries 16 (put_iso d) get_iso d
unfolding put_iso get_iso
iso-Carries d h = Carries-bind _ _ _ _ (Carries-u32 _ h.offset) (
    Carries-bind _ _ _ _ (Carries-u32 _ h.length) (
      Carries-bind _ _ _ _ (Carries-u32 _ h.actual_length)
        (Carries-pure _ _ _ (Carries-u32 _ h.status))))

cmd_submit-Carries :
    (c : CmdSubmit)
    → IsSubmit c
    → Carries 28 (put_body (cmd_submit c)) (get_body usbip_cmd_submit) (cmd_submit c)
unfolding put_body get_body
cmd_submit-Carries c h = Carries-bind _ _ _ _ (Carries-u32 _ h.transfer_flags) (
    Carries-bind _ _ _ _ (Carries-i32 _ h.transfer_buffer_length) (
      Carries-bind _ _ _ _ (Carries-i32 _ h.start_frame) (
        Carries-bind _ _ _ _ (Carries-i32 _ h.number_of_packets) (
          Carries-bind _ _ _ _ (Carries-i32 _ h.interval)
            (Carries-pure _ _ _ (Carries-array c.setup 8 h.setup))))))

ret_submit-Carries :
    (r : RetSubmit)
    → IsRet r
    → Carries 28 (put_body (ret_submit r)) (get_body usbip_ret_submit) (ret_submit r)
unfolding put_body get_body
ret_submit-Carries r h = Carries-bind _ _ _ _ (Carries-i32 _ h.status) (
    Carries-bind _ _ _ _ (Carries-i32 _ h.actual_length) (
      Carries-bind _ _ _ _ (Carries-i32 _ h.start_frame) (
        Carries-bind _ _ _ _ (Carries-i32 _ h.number_of_packets) (
          Carries-bind _ _ _ _ (Carries-i32 _ h.error_count)
            (Carries-pure _ _ _ (Carries-u64_padding 0))))))

body-Carries : (b : Body) → IsBody b → Carries 28 (put_body b) (get_body (command_of b)) b
body-Carries (cmd_submit c) h = cmd_submit-Carries c h
body-Carries (ret_submit r) h = ret_submit-Carries r h
body-Carries (cmd_unlink u) h =
    unfold put_body get_body in
    Carries-bind _ _ _ _ (Carries-u32 _ h) (Carries-pure _ _ _ (Carries-zeros 24))
body-Carries (ret_unlink u) h =
    unfold put_body get_body in
    Carries-bind _ _ _ _ (Carries-i32 _ h) (Carries-pure _ _ _ (Carries-zeros 24))

-- A message header takes 48 bytes.
pub header-Carries : (h : Header) → IsHeader h → Carries size_cmd_header (encode h) get_header h
unfolding encode get_header
header-Carries h v = Carries-bind _ _ _ _ (base-Carries h.base v.base) (
    Carries-pure _ _ _ (
      subst (λ k. Carries 28 (put_body h.body) (get_body k) h.body) (sym v.command)
        (body-Carries h.body v.body)))

-- A header whose fields fit their types and whose command is that of its body is written as 48
-- bytes, and `decode` of these, with anything behind them, gives the header again.
pub decode-to_bytes :
    (h : Header) (rest : List ℕ)
    → IsHeader h
    → (length (to_bytes h) ≡ size_cmd_header) × (decode (to_bytes h ++ rest) ≡ ok h)
unfolding decode to_bytes
decode-to_bytes h rest v =
    (length-into_vec (header-Carries h v), rw (parse-into_vec (header-Carries h v) rest))
