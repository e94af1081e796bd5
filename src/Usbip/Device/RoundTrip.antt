-- ===== src/Usbip/Device/RoundTrip.antt =====
-- The codec of device.rs: what `encode` writes, `decode` reads.
use padwire.Prelude.{
  ℕ, zero, suc, ◌+◌, ◌*◌, ◌<◌, ◌≡◌, refl, sym, ap, ◌∙◌, Bool, true, false, List, [], ◌∷◌, ◌++◌,
  append-nil, append_assoc, drop-nil, length, get_or, drop, ok, arith, if◌then◌else◌,
}
use padwire.Usbip.Wire.Error.{size_usb_interface}
use padwire.Usbip.Wire.Text.{IsText, HasNoNul}
use padwire.Usbip.Wire.Reader
use padwire.Usbip.Wire.Reader.{pure}
use padwire.Usbip.Wire.Writer
use padwire.Usbip.Wire.Carry.{
  Carries, Carries-eq, Carries-bind, Carries-pure, Carries-done, length-into_vec, parse-into_vec,
  advance,
}
use padwire.Usbip.Wire.Fields.{
  Carries-u8, Carries-u16, Carries-u32, Carries-u8_padding, Carries-text_field, field_text_whole,
}
use padwire.Usbip.Device.{
  UsbInterface, UsbDevice, default_interface, put_interface, put_interfaces, encode, get_interface,
  get_interfaces, decode, encoded_len, IsDevice,
}

-- `n` interfaces: those of the list, and blank ones where it is short.
pub padded : ℕ → List UsbInterface → List UsbInterface
padded zero interfaces = []
padded (suc n) [] = default_interface ∷ padded n []
padded (suc n) (i ∷ interfaces) = i ∷ padded n interfaces

padded_all : (interfaces : List UsbInterface) → padded (length interfaces) interfaces ≡ interfaces
unfolding padded
padded_all [] = refl
padded_all (i ∷ interfaces) = ap (◌∷◌ i) (padded_all interfaces)

padded_step :
    (n i : ℕ) (interfaces : List UsbInterface)
    → padded (suc n) (drop i interfaces)
      ≡ get_or interfaces i default_interface ∷ padded n (drop (i + 1) interfaces)
unfolding padded
padded_step n zero [] = refl
padded_step n (suc i) [] = ap (λ v. default_interface ∷ padded n v) (sym (drop-nil (suc i + 1)))
padded_step n zero (x ∷ interfaces) = refl
padded_step n (suc i) (x ∷ interfaces) =
    let e : suc (i + 1) ≡ suc i + 1 = omega arith in
    padded_step n i interfaces
    ∙ ap (λ k. get_or interfaces i default_interface ∷ padded n (drop k (x ∷ interfaces))) e

interface-Carries : (i : UsbInterface) → Carries 4 (put_interface i) get_interface i
unfolding put_interface get_interface
interface-Carries i = Carries-bind _ _ _ _ (Carries-u8 i.class) (
    Carries-bind _ _ _ _ (Carries-u8 i.subclass)
      (Carries-bind _ _ _ _ (Carries-u8 i.protocol) (Carries-pure _ _ _ (Carries-u8_padding 0))))

interfaces-Carries :
    (n i : ℕ) (interfaces out : List UsbInterface)
    → Carries
        (n * 4)
        (put_interfaces n i interfaces)
        (get_interfaces n out)
        (out ++ padded n (drop i interfaces))
unfolding put_interfaces get_interfaces
interfaces-Carries zero i interfaces out =
    Carries-eq (Carries-done out) (omega arith) (unfold padded in sym (append-nil out))
interfaces-Carries (suc n) i interfaces out =
    let intf = get_or interfaces i default_interface in
    let rest = interfaces-Carries n (i + 1) interfaces (out ++ intf ∷ []) in
    Carries-eq (Carries-bind _ _ _ _ (interface-Carries intf) rest) (omega arith)
      (append_assoc out (intf ∷ []) _ ∙ ap (◌++◌ out) (sym (padded_step n i interfaces)))

-- The record as the peer sees it: an import carries no interfaces, a list as many as it announces.
unfoldable pub as_sent : UsbDevice → Bool → UsbDevice
as_sent d with_interfaces = record d {
  interfaces = if with_interfaces then padded d.b_num_interfaces d.interfaces else [];
}

tail-Carries :
    (d : UsbDevice) (with_interfaces : Bool)
    → Carries
        (if with_interfaces then d.b_num_interfaces * size_usb_interface else 0)
        (if with_interfaces then put_interfaces d.b_num_interfaces 0 d.interfaces else Writer.done)
        (if with_interfaces then get_interfaces d.b_num_interfaces [] else pure [])
        (if with_interfaces then padded d.b_num_interfaces d.interfaces else [])
tail-Carries d true = interfaces-Carries d.b_num_interfaces 0 d.interfaces []
tail-Carries d false = Carries-done []

pub text-Carries :
    (s : List ℕ) (n : ℕ)
    → IsText s × HasNoNul s × (length s < n)
    → Carries n (Writer.text_field s n) (Reader.text_field n) s
text-Carries s n (text, no_nul, fits) =
    let whole = field_text_whole s n no_nul fits in
    Carries-eq (Carries-text_field s n (rw whole text)) refl whole

pub device-Carries :
    (d : UsbDevice) (with_interfaces : Bool)
    → IsDevice d
    → Carries
        (encoded_len d with_interfaces)
        (encode d with_interfaces)
        (decode with_interfaces)
        (as_sent d with_interfaces)
unfolding encode decode encoded_len as_sent
device-Carries d w h =
    Carries-eq
      (Carries-bind _ _ _ _ (text-Carries d.path 256 h.path) (
        Carries-bind _ _ _ _ (text-Carries d.busid 32 h.busid) (
          Carries-bind _ _ _ _ (Carries-u32 _ h.busnum) (
            Carries-bind _ _ _ _ (Carries-u32 _ h.devnum) (
              Carries-bind _ _ _ _ (Carries-u32 _ h.speed) (
                Carries-bind _ _ _ _ (Carries-u16 _ h.id_vendor) (
                  Carries-bind _ _ _ _ (Carries-u16 _ h.id_product) (
                    Carries-bind _ _ _ _ (Carries-u16 _ h.bcd_device) (
                      Carries-bind _ _ _ _ (Carries-u8 d.b_device_class) (
                        Carries-bind _ _ _ _ (Carries-u8 d.b_device_sub_class) (
                          Carries-bind _ _ _ _ (Carries-u8 d.b_device_protocol) (
                            Carries-bind _ _ _ _ (Carries-u8 d.b_configuration_value) (
                              Carries-bind _ _ _ _ (Carries-u8 d.b_num_configurations) (
                                Carries-bind _ _ _ _ (Carries-u8 d.b_num_interfaces)
                                  (Carries-pure _ _ _ (tail-Carries d w))))))))))))))))
      (omega arith) refl

-- A list that is as long as the device announces goes over unchanged.
pub as_sent_whole : (d : UsbDevice) → length d.interfaces ≡ d.b_num_interfaces → as_sent d true ≡ d
unfolding as_sent
as_sent_whole d h =
    ap (λ v. record d { interfaces = v })
      (ap (λ n. padded n d.interfaces) (sym h) ∙ padded_all d.interfaces)

-- The record of a device whose fields fit takes exactly `encoded_len` bytes, and `decode` of these
-- gives the device back: without interfaces in an import, and in a device list with as many as it
-- announces, blank ones where its list is short.
pub decode-encode :
    (d : UsbDevice) (with_interfaces : Bool)
    → IsDevice d
    → (length (Writer.into_vec (encode d with_interfaces)) ≡ encoded_len d with_interfaces)
      × (decode with_interfaces (Reader.new (Writer.into_vec (encode d with_interfaces) ++ []))
          ≡ ok (
            as_sent d with_interfaces,
            advance
                (Reader.new (Writer.into_vec (encode d with_interfaces) ++ []))
                (encoded_len d with_interfaces),
          ))
decode-encode d w h =
    (length-into_vec (device-Carries d w h), parse-into_vec (device-Carries d w h) [])
