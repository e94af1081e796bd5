-- ===== src/Usbip/Pdu.antt =====
-- crates/usbip-proto/src/pdu.rs: the messages that carry transfers. The codec is in the children.
pub mod Encode
pub mod Decode
pub mod RoundTrip
pub mod Total
use padwire.Prelude.{ℕ, ◌*◌, ◌≡◌, Bool, true, false, List, [], ◌∷◌, length, ◌==◌, if◌then◌else◌}
use padwire.Prelude.Int.{ℤ, pos, negsuc, IsI32, max_zero}
use padwire.Usbip.Wire.Error.{size_iso_desc}
use padwire.Usbip.Wire.Words.{IsU32}

abbrev pub usbip_cmd_submit : ℕ
usbip_cmd_submit = 0x0001

abbrev pub usbip_cmd_unlink : ℕ
usbip_cmd_unlink = 0x0002

abbrev pub usbip_ret_submit : ℕ
usbip_ret_submit = 0x0003

abbrev pub usbip_ret_unlink : ℕ
usbip_ret_unlink = 0x0004

pub data Direction : Type 0 where
  out into : Direction

abbrev pub dir_out : ℕ
dir_out = 0

abbrev pub dir_in : ℕ
dir_in = 1

unfoldable pub from_raw : ℕ → Direction
from_raw v = if v == dir_in then into else out

unfoldable pub as_raw : Direction → ℕ
as_raw out = dir_out
as_raw into = dir_in

unfoldable pub is_in : Direction → Bool
is_in out = false
is_in into = true

pub record BasicHeader : Type 0 where
  pub command : ℕ
  pub seqnum : ℕ
  pub devid : ℕ
  pub direction : ℕ
  pub ep : ℕ

unfoldable pub dir : BasicHeader → Direction
unfolding from_raw
dir b = from_raw b.direction

pub record CmdSubmit : Type 0 where
  pub transfer_flags : ℕ
  pub transfer_buffer_length : ℤ
  pub start_frame : ℤ
  pub number_of_packets : ℤ
  pub interval : ℤ
  pub setup : List ℕ

-- `number_of_packets > 0`
abbrev is_positive : ℤ → Bool
is_positive (pos n) = if n == 0 then false else true
is_positive (negsuc n) = false

unfoldable pub is_iso : CmdSubmit → Bool
is_iso c = is_positive c.number_of_packets

unfoldable pub iso_count : CmdSubmit → ℕ
unfolding is_iso
iso_count c = if is_iso c then max_zero c.number_of_packets else 0

unfoldable pub submit_payload_len : CmdSubmit → Direction → ℕ
unfolding is_in
submit_payload_len c d = if is_in d then 0 else max_zero c.transfer_buffer_length

pub record RetSubmit : Type 0 where
  pub status : ℤ
  pub actual_length : ℤ
  pub start_frame : ℤ
  pub number_of_packets : ℤ
  pub error_count : ℤ

unfoldable pub ret_payload_len : RetSubmit → Direction → ℕ
unfolding is_in
ret_payload_len r d = if is_in d then max_zero r.actual_length else 0

pub record CmdUnlink : Type 0 where
  pub unlink_seqnum : ℕ

pub record RetUnlink : Type 0 where
  pub status : ℤ

pub data Body : Type 0 where
  cmd_submit : CmdSubmit → Body
  ret_submit : RetSubmit → Body
  cmd_unlink : CmdUnlink → Body
  ret_unlink : RetUnlink → Body

pub record Header : Type 0 where
  pub base : BasicHeader
  pub body : Body

unfoldable pub new_cmd_submit : BasicHeader → CmdSubmit → Header
new_cmd_submit base c = record {
  base = record base { command = usbip_cmd_submit };
  body = cmd_submit c;
}

-- The kernel's stub zeroes the routing fields of every reply, and so do these.
abbrev reply_base : ℕ → ℕ → BasicHeader
reply_base command seqnum = record {
  command = command;
  seqnum = seqnum;
  devid = 0;
  direction = 0;
  ep = 0;
}

unfoldable pub new_ret_submit : ℕ → RetSubmit → Header
new_ret_submit seqnum r = record { base = reply_base usbip_ret_submit seqnum; body = ret_submit r }

unfoldable pub new_ret_unlink : ℕ → ℤ → Header
new_ret_unlink seqnum status = record {
  base = reply_base usbip_ret_unlink seqnum;
  body = ret_unlink (record { status = status });
}

unfoldable pub iso_bytes : Header → ℕ
unfolding iso_count
iso_bytes h = elim h.body [
  | cmd_submit c ↦ iso_count c * size_iso_desc
  | ret_submit r ↦ max_zero r.number_of_packets * size_iso_desc
  | _ ↦ 0
]

pub record IsoPacketDescriptor : Type 0 where
  pub offset : ℕ
  pub length : ℕ
  pub actual_length : ℕ
  pub status : ℕ

-- What Rust's types say of the fields.
pub record IsBase (b : BasicHeader) : Type 0 where
  pub command : IsU32 b.command
  pub seqnum : IsU32 b.seqnum
  pub devid : IsU32 b.devid
  pub direction : IsU32 b.direction
  pub ep : IsU32 b.ep

pub record IsSubmit (c : CmdSubmit) : Type 0 where
  pub transfer_flags : IsU32 c.transfer_flags
  pub transfer_buffer_length : IsI32 c.transfer_buffer_length
  pub start_frame : IsI32 c.start_frame
  pub number_of_packets : IsI32 c.number_of_packets
  pub interval : IsI32 c.interval
  pub setup : length c.setup ≡ 8

pub record IsRet (r : RetSubmit) : Type 0 where
  pub status : IsI32 r.status
  pub actual_length : IsI32 r.actual_length
  pub start_frame : IsI32 r.start_frame
  pub number_of_packets : IsI32 r.number_of_packets
  pub error_count : IsI32 r.error_count

abbrev pub IsBody : Body → Type 0
IsBody (cmd_submit c) = IsSubmit c
IsBody (ret_submit r) = IsRet r
IsBody (cmd_unlink u) = IsU32 u.unlink_seqnum
IsBody (ret_unlink u) = IsI32 u.status

-- The command that announces a body on the wire.
abbrev pub command_of : Body → ℕ
command_of (cmd_submit c) = usbip_cmd_submit
command_of (ret_submit r) = usbip_ret_submit
command_of (cmd_unlink u) = usbip_cmd_unlink
command_of (ret_unlink u) = usbip_ret_unlink

pub record IsHeader (h : Header) : Type 0 where
  pub base : IsBase h.base
  pub body : IsBody h.body
  pub command : h.base.command ≡ command_of h.body

pub record IsIso (d : IsoPacketDescriptor) : Type 0 where
  pub offset : IsU32 d.offset
  pub length : IsU32 d.length
  pub actual_length : IsU32 d.actual_length
  pub status : IsU32 d.status
