-- ===== src/Backend/Descriptors.antt =====
-- crates/usb-backend/src/descriptors.rs: the descriptors of a device, as it sends them.
pub mod Walk
pub mod Items
pub mod Index
pub mod Safety
pub mod Interfaces
use Prim.Native.Nat.{bit_and}
use padwire.Prelude.{
  ℕ, zero, suc, ◌+◌, ◌*◌, ◌%◌, Bool, true, false, ◌&&◌, ◌||◌, not, Option, none, some, List, [],
  ◌∷◌, ◌++◌, length, take, drop, get_or, map, max, leb, ltb, ◌==◌, if◌then◌else◌, Result, ok, err,
}

abbrev pub dt_device : ℕ
dt_device = 0x01

abbrev pub dt_config : ℕ
dt_config = 0x02

abbrev pub dt_interface : ℕ
dt_interface = 0x04

abbrev pub dt_endpoint : ℕ
dt_endpoint = 0x05

abbrev pub device_desc_len : ℕ
device_desc_len = 18

pub data TransferType : Type 0 where
  control isochronous bulk interrupt : TransferType

unfoldable pub from_attributes : ℕ → TransferType
from_attributes attrs =
    if bit_and attrs 0x03 == 0
    then control
    else if bit_and attrs 0x03 == 1
    then isochronous
    else if bit_and attrs 0x03 == 2
    then bulk
    else interrupt

pub record DeviceDescriptor : Type 0 where
  pub bcd_usb : ℕ
  pub b_device_class : ℕ
  pub b_device_sub_class : ℕ
  pub b_device_protocol : ℕ
  pub b_max_packet_size0 : ℕ
  pub id_vendor : ℕ
  pub id_product : ℕ
  pub bcd_device : ℕ
  pub b_num_configurations : ℕ

pub record EndpointDescriptor : Type 0 where
  pub address : ℕ
  pub attributes : ℕ
  pub max_packet_size : ℕ
  pub interval : ℕ

unfoldable pub transfer_type : EndpointDescriptor → TransferType
unfolding from_attributes
transfer_type ep = from_attributes ep.attributes

unfoldable pub number : EndpointDescriptor → ℕ
number ep = bit_and ep.address 0x0f

unfoldable pub is_in : EndpointDescriptor → Bool
is_in ep = not (bit_and ep.address 0x80 == 0)

pub record AltSetting : Type 0 where
  pub interface_number : ℕ
  pub alternate_setting : ℕ
  pub class : ℕ
  pub sub_class : ℕ
  pub protocol : ℕ
  pub endpoints : List EndpointDescriptor

pub record ConfigDescriptor : Type 0 where
  pub configuration_value : ℕ
  pub num_interfaces : ℕ
  pub alt_settings : List AltSetting

pub record Descriptors : Type 0 where
  pub device : DeviceDescriptor
  pub configs : List ConfigDescriptor

-- `bad(…)` is `invalid_data`. An index past the end of a slice panics. `no_fuel` is the model's own:
-- a loop that has not ended when its rounds are used up.
pub data Fault : Type 0 where
  invalid_data panic no_fuel : Fault

abbrev pub Parsed : Type 0 → Type 0
Parsed = Result Fault

infixl 5 ◌>>=◌
unfoldable pub ◌>>=◌ : {A B : Type 0} → Parsed A → (A → Parsed B) → Parsed B
◌>>=◌ (ok a) f = f a
◌>>=◌ (err e) f = err e

unfoldable pub index : List ℕ → ℕ → Parsed ℕ
index b i = if ltb i (length b) then ok (get_or b i 0) else err panic

-- A number of two bytes, the low one first.
abbrev pub le16 : List ℕ → ℕ → ℕ
le16 b off = get_or b off 0 + get_or b (off + 1) 0 * 256

unfoldable pub u16le : List ℕ → ℕ → Parsed ℕ
u16le b off = index b off >>= λ lo. index b (off + 1) >>= λ hi. ok (lo + hi * 256)

unfoldable pub push_endpoint : List AltSetting → EndpointDescriptor → Option (List AltSetting)
push_endpoint [] ep = none
push_endpoint (a ∷ []) ep = some (record a { endpoints = a.endpoints ++ ep ∷ [] } ∷ [])
push_endpoint (a ∷ b ∷ alts) ep = elim (push_endpoint (b ∷ alts) ep) [
  | none ↦ none
  | some alts' ↦ some (a ∷ alts')
]

unfoldable pub alt_setting : List ℕ → Parsed AltSetting
alt_setting rest = index rest 2 >>= λ interface_number. index rest 3 >>= λ alternate_setting.
    index rest 5 >>= λ class. index rest 6 >>= λ sub_class. index rest 7 >>= λ protocol.
    ok (record {
      interface_number = interface_number;
      alternate_setting = alternate_setting;
      class = class;
      sub_class = sub_class;
      protocol = protocol;
      endpoints = [];
    })

unfoldable pub endpoint : List ℕ → Parsed EndpointDescriptor
endpoint rest = index rest 2 >>= λ address. index rest 3 >>= λ attributes.
    u16le rest 4 >>= λ max_packet_size. index rest 6 >>= λ interval. ok (record {
      address = address;
      attributes = attributes;
      max_packet_size = max_packet_size;
      interval = interval;
    })

pub or_bad : {A : Type 0} → Option A → Parsed A
or_bad (some a) = ok a
or_bad none = err invalid_data

-- One descriptor, by its length and its kind: what it adds to the settings.
unfoldable pub visit : ℕ → ℕ → List AltSetting → List ℕ → Parsed (List AltSetting)
unfolding or_bad
visit len dtype alts rest =
    if dtype == dt_interface && leb 9 len
    then alt_setting rest >>= (λ a. ok (alts ++ a ∷ []))
    else if dtype == dt_endpoint && leb 7 len
    then endpoint rest >>= (λ ep. or_bad (push_endpoint alts ep))
    else ok alts

-- The loop's cursor is the bytes from it on.
unfoldable pub walk : ℕ → List AltSetting → List ℕ → Parsed (List AltSetting)
walk zero alts rest = err no_fuel
walk (suc fuel) alts rest =
    if ltb (length rest) 2
    then ok alts
    else index rest 0 >>= λ len. index rest 1 >>= λ dtype.
        if ltb len 2 || ltb (length rest) len
        then ok alts
        else visit len dtype alts rest >>= λ alts'. walk fuel alts' (drop len rest)

unfoldable pub parse_config : List ℕ → Parsed ConfigDescriptor
parse_config buf = index buf 4 >>= λ num_interfaces. index buf 5 >>= λ configuration_value.
    index buf 0 >>= λ pos. walk (suc (length buf)) [] (drop pos buf) >>= λ alts. ok (record {
      configuration_value = configuration_value;
      num_interfaces = num_interfaces;
      alt_settings = alts;
    })

-- One descriptor at the top level: a configuration takes as many bytes as it says.
unfoldable pub scan : ℕ → List ConfigDescriptor → List ℕ → Parsed (List ConfigDescriptor)
scan zero configs rest = err no_fuel
scan (suc fuel) configs rest =
    if ltb (length rest) 2
    then ok configs
    else index rest 0 >>= λ len. index rest 1 >>= λ dtype.
        let skipped = scan fuel configs (drop len rest) in
        let found = u16le rest 2 >>= λ total. parse_config (take total rest) >>= λ c.
        elim (ltb total len) [
          | true ↦ ok (configs ++ c ∷ [])
          | false ↦ scan fuel (configs ++ c ∷ []) (drop total rest)
        ] in
        if ltb len 2 || ltb (length rest) len
        then ok configs
        else if not (dtype == dt_config)
        then skipped
        else if ltb len 9
        then err invalid_data
        else found

unfoldable pub device_descriptor : List ℕ → Parsed DeviceDescriptor
device_descriptor blob = u16le blob 2 >>= λ bcd_usb. index blob 4 >>= λ b_device_class.
    index blob 5 >>= λ b_device_sub_class. index blob 6 >>= λ b_device_protocol.
    index blob 7 >>= λ b_max_packet_size0. u16le blob 8 >>= λ id_vendor.
    u16le blob 10 >>= λ id_product. u16le blob 12 >>= λ bcd_device.
    index blob 17 >>= λ b_num_configurations. ok (record {
      bcd_usb = bcd_usb;
      b_device_class = b_device_class;
      b_device_sub_class = b_device_sub_class;
      b_device_protocol = b_device_protocol;
      b_max_packet_size0 = b_max_packet_size0;
      id_vendor = id_vendor;
      id_product = id_product;
      bcd_device = bcd_device;
      b_num_configurations = b_num_configurations;
    })

unfoldable pub parse : List ℕ → Parsed Descriptors
parse blob =
    if ltb (length blob) device_desc_len
    then err invalid_data
    else index blob 1 >>= λ dtype.
        if not (dtype == dt_device)
        then err invalid_data
        else device_descriptor blob >>= λ device. index blob 0 >>= λ first.
            scan (suc (length blob)) [] (drop (max first device_desc_len) blob) >>= λ configs.
            ok (record { device = device; configs = configs })

-- Distinct numbers in ascending order: what `sort_unstable` and `dedup` make of a list.
unfoldable pub sorted_insert : ℕ → List ℕ → List ℕ
sorted_insert n [] = n ∷ []
sorted_insert n (m ∷ ms) = if leb n m then n ∷ m ∷ ms else m ∷ sorted_insert n ms

unfoldable pub sort_unstable : List ℕ → List ℕ
sort_unstable [] = []
sort_unstable (n ∷ ns) = sorted_insert n (sort_unstable ns)

unfoldable pub dedup : List ℕ → List ℕ
dedup [] = []
dedup (n ∷ []) = n ∷ []
dedup (n ∷ m ∷ ms) = let rest = dedup (m ∷ ms) in if n == m then rest else n ∷ rest

unfoldable pub interface_numbers : ConfigDescriptor → List ℕ
interface_numbers c = dedup (sort_unstable (map (λ a. a.interface_number) c.alt_settings))

unfoldable pub find : (AltSetting → Bool) → List AltSetting → Option AltSetting
find p [] = none
find p (a ∷ alts) = if p a then some a else find p alts

abbrev pub or_else {ℓ} : {A : Type ℓ} → Option A → Option A → Option A
or_else (some a) o = some a
or_else none o = o

unfoldable pub primary : List AltSetting → ℕ → Option AltSetting
primary alts n =
    or_else (find (λ a. a.interface_number == n && a.alternate_setting == 0) alts)
      (find (λ a. a.interface_number == n) alts)

unfoldable pub primaries : List AltSetting → List ℕ → List AltSetting
primaries alts [] = []
primaries alts (n ∷ ns) = elim (primary alts n) [
  | none ↦ primaries alts ns
  | some a ↦ a ∷ primaries alts ns
]

unfoldable pub primary_alt_settings : ConfigDescriptor → List AltSetting
unfolding interface_numbers
primary_alt_settings c = primaries c.alt_settings (interface_numbers c)

unfoldable pub find_config : ℕ → List ConfigDescriptor → Option ConfigDescriptor
find_config value [] = none
find_config value (c ∷ configs) =
    if c.configuration_value == value then some c else find_config value configs

unfoldable pub config : Descriptors → ℕ → Option ConfigDescriptor
unfolding find_config
config d value = find_config value d.configs
