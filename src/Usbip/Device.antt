-- ===== src/Usbip/Device.antt =====
-- crates/usbip-proto/src/device.rs: the device record of a device list and of an import.
pub mod RoundTrip
use Prim.Native.Nat.{bit_and, bit_or}
use padwire.Prelude.{
  ℕ, zero, suc, ◌+◌, ◌*◌, ◌%◌, ◌^◌, ◌<◌, ◌≡◌, Bool, true, false, List, [], ◌∷◌, ◌++◌, length,
  get_or, ◌==◌, if◌then◌else◌,
}
use padwire.Usbip.Wire.Error.{size_usb_device, size_usb_interface, path_len, busid_len}
use padwire.Usbip.Wire.Words.{IsByte, IsU16, IsU32}
use padwire.Usbip.Wire.Text.{IsText, HasNoNul}
use padwire.Usbip.Wire.Reader
use padwire.Usbip.Wire.Reader.{Parse, ◌>>=◌, pure}
use padwire.Usbip.Wire.Writer
use padwire.Usbip.Wire.Writer.{Put, ◌>>◌}

-- The constructors have the kernel's numbers 0 to 6, in this order.
pub data Speed : Type 0 where
  unknown low full high wireless super super_plus : Speed

unfoldable pub from_raw : ℕ → Speed
from_raw v =
    if v == 1
    then low
    else if v == 2
    then full
    else if v == 3
    then high
    else if v == 4
    then wireless
    else if v == 5
    then super
    else if v == 6
    then super_plus
    else unknown

pub record UsbInterface : Type 0 where
  pub class : ℕ
  pub subclass : ℕ
  pub protocol : ℕ

abbrev pub default_interface : UsbInterface
default_interface = record { class = 0; subclass = 0; protocol = 0 }

pub record UsbDevice : Type 0 where
  pub path : List ℕ
  pub busid : List ℕ
  pub busnum : ℕ
  pub devnum : ℕ
  pub speed : ℕ
  pub id_vendor : ℕ
  pub id_product : ℕ
  pub bcd_device : ℕ
  pub b_device_class : ℕ
  pub b_device_sub_class : ℕ
  pub b_device_protocol : ℕ
  pub b_configuration_value : ℕ
  pub b_num_configurations : ℕ
  pub b_num_interfaces : ℕ
  pub interfaces : List UsbInterface

-- `<<` on a `u32` drops what passes the top.
unfoldable pub devid : UsbDevice → ℕ
devid d = bit_or (d.busnum * 2 ^ 16 % 2 ^ 32) (bit_and d.devnum 0xffff)

unfoldable pub put_interface : UsbInterface → Put
put_interface i = do Writer.u8 i.class; Writer.u8 i.subclass; Writer.u8 i.protocol; Writer.u8 0

-- The rounds left, and the index of this one.
unfoldable pub put_interfaces : ℕ → ℕ → List UsbInterface → Put
put_interfaces zero i interfaces = Writer.done
put_interfaces (suc n) i interfaces = do
  put_interface (get_or interfaces i default_interface)
  put_interfaces n (i + 1) interfaces

unfoldable pub encode : UsbDevice → Bool → Put
encode d with_interfaces = do
  Writer.text_field d.path path_len
  Writer.text_field d.busid busid_len
  Writer.u32 d.busnum
  Writer.u32 d.devnum
  Writer.u32 d.speed
  Writer.u16 d.id_vendor
  Writer.u16 d.id_product
  Writer.u16 d.bcd_device
  Writer.u8 d.b_device_class
  Writer.u8 d.b_device_sub_class
  Writer.u8 d.b_device_protocol
  Writer.u8 d.b_configuration_value
  Writer.u8 d.b_num_configurations
  Writer.u8 d.b_num_interfaces
  if with_interfaces then put_interfaces d.b_num_interfaces 0 d.interfaces else Writer.done

unfoldable pub get_interface : Parse UsbInterface
get_interface = do
  class ← Reader.u8
  subclass ← Reader.u8
  protocol ← Reader.u8
  padding ← Reader.skip 1
  pure (record { class = class; subclass = subclass; protocol = protocol })

-- The rounds left, and what has been pushed.
unfoldable pub get_interfaces : ℕ → List UsbInterface → Parse (List UsbInterface)
get_interfaces zero interfaces = pure interfaces
get_interfaces (suc n) interfaces = do
  intf ← get_interface
  get_interfaces n (interfaces ++ intf ∷ [])

unfoldable pub decode : Bool → Parse UsbDevice
decode with_interfaces = do
  path ← Reader.text_field path_len
  busid ← Reader.text_field busid_len
  busnum ← Reader.u32
  devnum ← Reader.u32
  speed ← Reader.u32
  id_vendor ← Reader.u16
  id_product ← Reader.u16
  bcd_device ← Reader.u16
  b_device_class ← Reader.u8
  b_device_sub_class ← Reader.u8
  b_device_protocol ← Reader.u8
  b_configuration_value ← Reader.u8
  b_num_configurations ← Reader.u8
  b_num_interfaces ← Reader.u8
  interfaces ← if with_interfaces then get_interfaces b_num_interfaces [] else pure []
  pure (record {
    path = path;
    busid = busid;
    busnum = busnum;
    devnum = devnum;
    speed = speed;
    id_vendor = id_vendor;
    id_product = id_product;
    bcd_device = bcd_device;
    b_device_class = b_device_class;
    b_device_sub_class = b_device_sub_class;
    b_device_protocol = b_device_protocol;
    b_configuration_value = b_configuration_value;
    b_num_configurations = b_num_configurations;
    b_num_interfaces = b_num_interfaces;
    interfaces = interfaces;
  })

unfoldable pub encoded_len : UsbDevice → Bool → ℕ
encoded_len d with_interfaces =
    size_usb_device + (if with_interfaces then d.b_num_interfaces * size_usb_interface else 0)

-- The fields fit their types, and both texts fit their fields with the terminator.
pub record IsDevice (d : UsbDevice) : Type 0 where
  pub path : IsText d.path × HasNoNul d.path × (length d.path < path_len)
  pub busid : IsText d.busid × HasNoNul d.busid × (length d.busid < busid_len)
  pub busnum : IsU32 d.busnum
  pub devnum : IsU32 d.devnum
  pub speed : IsU32 d.speed
  pub id_vendor : IsU16 d.id_vendor
  pub id_product : IsU16 d.id_product
  pub bcd_device : IsU16 d.bcd_device
  pub b_num_interfaces : IsByte d.b_num_interfaces
