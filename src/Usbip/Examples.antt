-- ===== src/Usbip/Examples.antt =====
-- The theorems of the protocol on concrete messages.
use padwire.Prelude.{
  ℕ, ◌+◌, ◌≡◌, refl, Option, false, List, [], ◌∷◌, ◌++◌, length, drop, some, ok, err, arith,
  replicate, ◌<◌, ◌⊎◌,
}
use padwire.Prelude.Int.{pos}
use padwire.Usbip.Wire.Error.{utf8, size_op_header, size_cmd_header, busid_len, bad_command}
use padwire.Usbip.Wire.Reader
use padwire.Usbip.Wire.Reader.{Reader}
use padwire.Usbip.Wire.Writer
use padwire.Usbip.Wire.Carry.{unread}
use padwire.Usbip.Wire.Fields.{text_field_broken, field_text}
use padwire.Usbip.Wire.Text.{is_utf8, until_nul, IsText, HasNoNul}
use padwire.Usbip.Pdu.{
  BasicHeader, Header, CmdSubmit, RetSubmit, IsHeader, cmd_submit, cmd_unlink, IsoPacketDescriptor,
}
use padwire.Usbip.Pdu.Encode.{to_bytes}
use padwire.Usbip.Pdu.Decode.{decode}
use padwire.Usbip.Pdu.RoundTrip.{decode-to_bytes}
use padwire.Usbip.Pdu.Total.{decode_total, IsCommand}
use padwire.Usbip.Device.{UsbDevice, IsDevice}
use padwire.Usbip.Op.{
  OpHeader, new, st_ok, from_bytes, op_rep_devlist, encode_devlist_reply, decode_devlist_reply_body,
}
use padwire.Usbip.Op.RoundTrip.{IsOpHeader, devlist_reply_comes_back, devices_len, all_sent}
use padwire.Usbip.Io.Stream.{Stream, unexpected_eof, proto}
use padwire.Usbip.Io.Transfer
use padwire.Usbip.Pdu.{Direction, into, ret_payload_len, is_in, new_ret_submit}
use padwire.Usbip.Io.Transfer.Replies.{read_ret_submit-write_ret_submit}
use padwire.Usbip.Io.Transfer.{read_ret_submit, write_ret_submit, Pdu, read_pdu, sizes}
use padwire.Usbip.Io.Transfer.Frames.{read_pdu-message_bytes, message_bytes, IsFrame}
use padwire.Usbip.Io.Transfer.Safety.{read_pdu_accepts, Accepted}

-- An isochronous OUT transfer of two bytes with one packet.
abbrev submit_out : Header
submit_out = record {
  base = record { command = 1; seqnum = 7; devid = 65538; direction = 0; ep = 1 };
  body = cmd_submit (record {
    transfer_flags = 0;
    transfer_buffer_length = pos 2;
    start_frame = pos 0;
    number_of_packets = pos 1;
    interval = pos 1;
    setup = replicate 8 0;
  });
}

abbrev frame : Pdu
frame = record {
  header = submit_out;
  data_bytes = 0xaa ∷ 0xbb ∷ [];
  iso = record { offset = 0; length = 2; actual_length = 0; status = 0 } ∷ [];
}

submit_out-IsHeader : IsHeader submit_out
submit_out-IsHeader = ground arith

frame-IsFrame : IsFrame 65536 frame
unfolding sizes
frame-IsFrame = record { header = submit_out-IsHeader; iso = ground arith; sizes = refl }

decode-to_bytes_example :
    (length (to_bytes submit_out) ≡ size_cmd_header)
    × (decode (to_bytes submit_out ++ 1 ∷ []) ≡ ok submit_out)
decode-to_bytes_example = decode-to_bytes submit_out (1 ∷ []) submit_out-IsHeader

read_pdu-message_bytes_example :
    read_pdu 65536 (record { incoming = message_bytes frame ++ 9 ∷ []; ending = unexpected_eof })
    ≡ ok (frame, record { incoming = 9 ∷ []; ending = unexpected_eof })
read_pdu-message_bytes_example =
    read_pdu-message_bytes frame 65536 (9 ∷ []) unexpected_eof frame-IsFrame

-- A header that announces an unlink of URB 5, and a byte behind it.
abbrev unlink_bytes : List ℕ
unlink_bytes =
    0
    ∷ 0
    ∷ 0
    ∷ 2
    ∷ 0
    ∷ 0
    ∷ 0
    ∷ 9
    ∷ 0
    ∷ 1
    ∷ 0
    ∷ 2
    ∷ 0
    ∷ 0
    ∷ 0
    ∷ 0
    ∷ 0
    ∷ 0
    ∷ 0
    ∷ 0
    ∷ 0
    ∷ 0
    ∷ 0
    ∷ 5
    ∷ replicate 24 0

decode_total_example :
    ((h : Header) × (decode unlink_bytes ≡ ok h) × IsHeader h)
    ⊎ ((c : ℕ) × (decode unlink_bytes ≡ err (bad_command c)) × (¬ (IsCommand c)))
decode_total_example = decode_total unlink_bytes (ground arith) refl

abbrev unlink_stream : Stream
unlink_stream = record { incoming = unlink_bytes ++ 1 ∷ []; ending = unexpected_eof }

abbrev unlink_pdu : Pdu
unlink_pdu = record {
  header = record {
    base = record { command = 2; seqnum = 9; devid = 65538; direction = 0; ep = 0 };
    body = cmd_unlink (record { unlink_seqnum = 5 });
  };
  data_bytes = [];
  iso = [];
}

abbrev unlink_rest : Stream
unlink_rest = record { incoming = 1 ∷ []; ending = unexpected_eof }

unlink_read : read_pdu 65536 unlink_stream ≡ ok (unlink_pdu, unlink_rest)
unfolding read_pdu padwire.Usbip.Io.Stream.◌>>=◌ padwire.Usbip.Io.Stream.read_exact
    padwire.Usbip.Io.Stream.lift decode padwire.Usbip.Pdu.Decode.get_header
    padwire.Usbip.Pdu.Decode.get_base Reader.u32 padwire.Usbip.Pdu.Decode.get_body Reader.skip
    Transfer.lift_io sizes Transfer.read_iso padwire.Usbip.Io.Stream.pure
unlink_read = refl

read_pdu_accepts_example : Accepted 65536 unlink_stream unlink_pdu unlink_rest
read_pdu_accepts_example =
    read_pdu_accepts 65536 unlink_stream unlink_pdu unlink_rest (ground arith) unlink_read

-- The bus id 1-2.
abbrev busid : List ℕ
busid = 0x31 ∷ 0x2d ∷ 0x32 ∷ []

busid_fits : IsText busid × HasNoNul busid × (length busid < busid_len)
unfolding is_utf8
busid_fits = (refl, ground arith, ground arith)

abbrev pad : UsbDevice
pad = record {
  path = 0x2f ∷ 0x78 ∷ [];
  busid = busid;
  busnum = 1;
  devnum = 2;
  speed = 3;
  id_vendor = 0x28de;
  id_product = 0x1205;
  bcd_device = 0x0300;
  b_device_class = 0;
  b_device_sub_class = 0;
  b_device_protocol = 0;
  b_configuration_value = 1;
  b_num_configurations = 1;
  b_num_interfaces = 1;
  interfaces = record { class = 3; subclass = 0; protocol = 0 } ∷ [];
}

pad-IsDevice : IsDevice pad
unfolding is_utf8
pad-IsDevice = ground arith

abbrev pads : List UsbDevice
pads = pad ∷ pad ∷ []

devlist_reply_comes_back_example :
    (length (encode_devlist_reply pads) ≡ 12 + devices_len pads)
    × (from_bytes (encode_devlist_reply pads) ≡ ok (new op_rep_devlist st_ok))
    × (decode_devlist_reply_body (drop size_op_header (encode_devlist_reply pads))
        ≡ ok (all_sent pads))
devlist_reply_comes_back_example =
    devlist_reply_comes_back pads (pad-IsDevice, (pad-IsDevice, tt)) (ground arith)

-- A request of another version with an unknown code.
abbrev old_header : OpHeader
old_header = record { version = 0x0106; code = 0x8009; status = 0 }

old_header-IsOpHeader : IsOpHeader old_header
old_header-IsOpHeader = ground arith

-- A two-byte character at the end of a field of three bytes.
abbrev cut_text : List ℕ
cut_text = 0x61 ∷ 0xc3 ∷ 0xa9 ∷ []

abbrev cut_reader : Reader
cut_reader = Reader.new (0x61 ∷ 0xc3 ∷ 0 ∷ [])

cut_broken : is_utf8 (field_text cut_text 3) ≡ false
unfolding is_utf8 field_text until_nul
cut_broken = refl

cut_given : unread cut_reader ≡ Writer.into_vec (Writer.text_field cut_text 3) ++ []
unfolding Writer.into_vec Reader.new Writer.text_field
cut_given = refl

text_field_broken_example : Reader.text_field 3 cut_reader ≡ err utf8
text_field_broken_example = text_field_broken cut_text 3 cut_reader [] cut_broken cut_given

-- The reply to URB 7, with two bytes, and a byte of what follows.
abbrev two_bytes : RetSubmit
two_bytes = record {
  status = pos 0;
  actual_length = pos 2;
  start_frame = pos 0;
  number_of_packets = pos 0;
  error_count = pos 0;
}

abbrev was_in : ℕ → Option Direction
was_in n = some into

two_bytes_sized : ret_payload_len two_bytes into ≡ length {A = ℕ} (1 ∷ 2 ∷ [])
unfolding ret_payload_len
two_bytes_sized = refl

read_ret_submit-write_ret_submit_example :
    read_ret_submit was_in 1024 (record {
      incoming = write_ret_submit 7 two_bytes (1 ∷ 2 ∷ []) ++ 9 ∷ [];
      ending = unexpected_eof;
    })
    ≡ ok (
      (new_ret_submit 7 two_bytes, 1 ∷ 2 ∷ []),
      record { incoming = 9 ∷ []; ending = unexpected_eof },
    )
read_ret_submit-write_ret_submit_example =
    read_ret_submit-write_ret_submit 7 two_bytes (1 ∷ 2 ∷ []) (9 ∷ []) unexpected_eof was_in into
      1024 (omega arith) (ground arith) refl two_bytes_sized (omega arith)
