-- ===== src/Backend/Usbfs/Requests.antt =====
-- usbfs.rs: how a request is classified before it goes to the kernel.
use Prim.Native.Nat.{bit_and, bit_or}
use padwire.Prelude.{
  ℕ, ◌+◌, Bool, true, false, ◌&&◌, not, Option, none, some, List, [], ◌∷◌, get_or, ◌==◌,
  if◌then◌else◌, Result, ok, err,
}
use padwire.Prelude.Int.{ℤ, negsuc}
use padwire.Usbip.Pdu.{Direction, is_in}
use padwire.Backend.{UrbRequest, SubmitError, urb}
use padwire.Backend.Descriptors.{
  AltSetting, EndpointDescriptor, TransferType, control, isochronous, bulk, interrupt,
  transfer_type, le16,
}

abbrev pub type_iso : ℕ
type_iso = 0

abbrev pub type_interrupt : ℕ
type_interrupt = 1

abbrev pub type_control : ℕ
type_control = 2

abbrev pub type_bulk : ℕ
type_bulk = 3

-- -EOPNOTSUPP, -EPIPE, -EINVAL and -EBUSY.
abbrev pub not_supported : ℤ
not_supported = negsuc 94

abbrev pub broken_pipe : ℤ
broken_pipe = negsuc 31

abbrev pub invalid : ℤ
invalid = negsuc 21

abbrev pub busy : ℤ
busy = negsuc 15

-- From an endpoint's address to its type of URB: the last entry for an address counts.
abbrev pub EpTypes : Type 0
EpTypes = List (ℕ × ℕ)

unfoldable pub type_of : TransferType → ℕ
type_of control = type_control
type_of isochronous = type_iso
type_of bulk = type_bulk
type_of interrupt = type_interrupt

unfoldable pub endpoint_types : List EndpointDescriptor → EpTypes → EpTypes
unfolding type_of
endpoint_types [] types = types
endpoint_types (ep ∷ eps) types =
    endpoint_types eps ((ep.address, type_of (transfer_type ep)) ∷ types)

unfoldable pub alt_types : List AltSetting → EpTypes → EpTypes
unfolding endpoint_types
alt_types [] types = types
alt_types (a ∷ alts) types = alt_types alts (endpoint_types a.endpoints types)

unfoldable pub ep_types : List AltSetting → EpTypes
unfolding alt_types
ep_types alts = alt_types alts ((0x80, type_control) ∷ (0x00, type_control) ∷ [])

unfoldable pub get : ℕ → EpTypes → Option ℕ
get address [] = none
get address ((a, t) ∷ types) = if a == address then some t else get address types

unfoldable pub known_type : ℕ → Option ℕ → Result SubmitError (ℕ × ℕ)
known_type address none = err (urb broken_pipe)
known_type address (some t) = if t == type_iso then err (urb not_supported) else ok (address, t)

unfoldable pub urb_type_for : EpTypes → ℕ → Direction → Result SubmitError (ℕ × ℕ)
unfolding known_type
urb_type_for types ep dir =
    let address = if is_in dir then bit_or ep 0x80 else bit_and ep 0x7f in
    if ep == 0 then ok (address, type_control) else known_type address (get address types)

abbrev bit_set : ℕ → ℕ → Bool
bit_set flags mask = not (bit_and flags mask == 0)

abbrev flag : Bool → ℕ → ℕ
flag true bit = bit
flag false bit = 0

-- The three bits are distinct, so their sum is their union.
unfoldable pub usbfs_flags : ℕ → UrbRequest → ℕ → ℕ
usbfs_flags caps req urb_type =
    flag (is_in req.dir && bit_set req.transfer_flags 0x01) 0x01
    + flag
        (not (is_in req.dir)
          && urb_type == type_bulk
          && bit_set req.transfer_flags 0x40
          && bit_set caps 0x01)
        0x40
    + flag (bit_set req.transfer_flags 0x80) 0x80

pub data Special : Type 0 where
  set_address : ℕ → Special
  set_configuration : ℕ → Special
  set_interface : ℕ → ℕ → Special
  clear_halt : ℕ → Special

unfoldable pub classify : List ℕ → Option Special
classify setup =
    let typ = get_or setup 0 0 in
    let request = get_or setup 1 0 in
    if not (bit_and typ 0x80 == 0)
    then none
    else if typ == 0x00 && request == 0x05
    then some (set_address (le16 setup 2))
    else if typ == 0x00 && request == 0x09
    then some (set_configuration (le16 setup 2))
    else if typ == 0x01 && request == 0x0b
    then some (set_interface (le16 setup 4) (le16 setup 2))
    else if typ == 0x02 && request == 0x01 && le16 setup 2 == 0x0000
    then some (clear_halt (le16 setup 4))
    else none
