-- ===== src/Backend/Descriptors/Index.antt =====
-- descriptors.rs: where every index lies inside the bytes, what the parser reads.
use padwire.Prelude.{
  ℕ, suc, ◌+◌, ◌≤◌, ◌<◌, ◌≡◌, refl, ◌∙◌, true, false, ◌&&◌, ◌||◌, not, List, [], ◌∷◌, ◌++◌, length,
  take, drop, get_or, max, leb, ltb, ◌==◌, if◌then◌else◌, ok, err, arith, Bool-cases, inl, inr,
}
use padwire.Backend.Descriptors.{
  Parsed, invalid_data, panic, ◌>>=◌, index, le16, u16le, AltSetting, EndpointDescriptor,
  DeviceDescriptor, ConfigDescriptor, Descriptors, alt_setting, endpoint, device_descriptor, visit,
  walk, parse_config, scan, parse, or_bad, push_endpoint, dt_config, dt_device, dt_interface,
  dt_endpoint, device_desc_len,
}

pub index-ok : (b : List ℕ) (i : ℕ) → i < length b → index b i ≡ ok (get_or b i 0)
unfolding index
index-ok b i h = ground arith

pub index-panic : (b : List ℕ) (i : ℕ) → length b ≤ i → index b i ≡ err panic
unfolding index
index-panic b i h = ground arith

pub read_then :
    {B : Type 0} (b : List ℕ) (i : ℕ) (f : ℕ → Parsed B)
    → i < length b
    → (index b i >>= f) ≡ f (get_or b i 0)
unfolding ◌>>=◌
read_then b i f h = rw (index-ok b i h, ◌>>=◌) refl

pub u16le-ok : (b : List ℕ) (off : ℕ) → off + 1 < length b → u16le b off ≡ ok (le16 b off)
unfolding u16le
u16le-ok b off h = read_then b off _ (omega arith) ∙ read_then b (off + 1) _ h

pub u16_then :
    {B : Type 0} (b : List ℕ) (off : ℕ) (f : ℕ → Parsed B)
    → off + 1 < length b
    → (u16le b off >>= f) ≡ f (le16 b off)
unfolding ◌>>=◌
u16_then b off f h = rw (u16le-ok b off h, ◌>>=◌) refl

-- What the code reads of an interface, of an endpoint and of the device.
abbrev pub alt_setting_in : List ℕ → AltSetting
alt_setting_in rest = record {
  interface_number = get_or rest 2 0;
  alternate_setting = get_or rest 3 0;
  class = get_or rest 5 0;
  sub_class = get_or rest 6 0;
  protocol = get_or rest 7 0;
  endpoints = [];
}

abbrev pub endpoint_in : List ℕ → EndpointDescriptor
endpoint_in rest = record {
  address = get_or rest 2 0;
  attributes = get_or rest 3 0;
  max_packet_size = le16 rest 4;
  interval = get_or rest 6 0;
}

abbrev pub device_in : List ℕ → DeviceDescriptor
device_in blob = record {
  bcd_usb = le16 blob 2;
  b_device_class = get_or blob 4 0;
  b_device_sub_class = get_or blob 5 0;
  b_device_protocol = get_or blob 6 0;
  b_max_packet_size0 = get_or blob 7 0;
  id_vendor = le16 blob 8;
  id_product = le16 blob 10;
  bcd_device = le16 blob 12;
  b_num_configurations = get_or blob 17 0;
}

pub alt_setting-ok : (rest : List ℕ) → 8 ≤ length rest → alt_setting rest ≡ ok (alt_setting_in rest)
unfolding alt_setting
alt_setting-ok rest h =
    read_then rest 2 _ (omega arith)
    ∙ read_then rest 3 _ (omega arith)
    ∙ read_then rest 5 _ (omega arith)
    ∙ read_then rest 6 _ (omega arith)
    ∙ read_then rest 7 _ (omega arith)

pub endpoint-ok : (rest : List ℕ) → 7 ≤ length rest → endpoint rest ≡ ok (endpoint_in rest)
unfolding endpoint
endpoint-ok rest h =
    read_then rest 2 _ (omega arith)
    ∙ read_then rest 3 _ (omega arith)
    ∙ u16_then rest 4 _ (omega arith)
    ∙ read_then rest 6 _ (omega arith)

pub device_descriptor-ok :
    (blob : List ℕ) → 18 ≤ length blob → device_descriptor blob ≡ ok (device_in blob)
unfolding device_descriptor
device_descriptor-ok blob h =
    u16_then blob 2 _ (omega arith)
    ∙ read_then blob 4 _ (omega arith)
    ∙ read_then blob 5 _ (omega arith)
    ∙ read_then blob 6 _ (omega arith)
    ∙ read_then blob 7 _ (omega arith)
    ∙ u16_then blob 8 _ (omega arith)
    ∙ u16_then blob 10 _ (omega arith)
    ∙ u16_then blob 12 _ (omega arith)
    ∙ read_then blob 17 _ (omega arith)

-- One descriptor of which all bytes are there.
pub visit_whole :
    (len dtype : ℕ) (alts : List AltSetting) (rest : List ℕ)
    → len ≤ length rest
    → visit len dtype alts rest ≡ (
        if dtype == dt_interface && leb 9 len
        then ok (alts ++ alt_setting_in rest ∷ [])
        else if dtype == dt_endpoint && leb 7 len
        then or_bad (push_endpoint alts (endpoint_in rest))
        else ok alts)
unfolding visit ◌>>=◌
visit_whole len dtype alts rest h = elim (Bool-cases (dtype == dt_interface && leb 9 len)) [
  | inl e ↦ rw e (rw (alt_setting-ok rest (ground (arith, e, h)), ◌>>=◌) refl)
  | inr e ↦ rw e (elim (Bool-cases (dtype == dt_endpoint && leb 7 len)) [
    | inl e' ↦ rw e' (rw (endpoint-ok rest (ground (arith, e', h)), ◌>>=◌) refl)
    | inr e' ↦ rw e' refl
  ])
]

-- One round of each loop.
pub walk_round :
    (fuel : ℕ) (alts : List AltSetting) (rest : List ℕ)
    → walk (suc fuel) alts rest ≡ (
        if ltb (length rest) 2 || ltb (get_or rest 0 0) 2 || ltb (length rest) (get_or rest 0 0)
        then ok alts
        else visit (get_or rest 0 0) (get_or rest 1 0) alts rest >>= λ alts'.
            walk fuel alts' (drop (get_or rest 0 0) rest))
unfolding walk
walk_round fuel alts rest = elim (Bool-cases (ltb (length rest) 2)) [
  | inl e ↦ rw e refl
  | inr e ↦ rw e (read_then rest 0 _ (ground (arith, e)) ∙ read_then rest 1 _ (ground (arith, e)))
]

pub scan_round :
    (fuel : ℕ) (configs : List ConfigDescriptor) (rest : List ℕ)
    → scan (suc fuel) configs rest ≡ (
        if ltb (length rest) 2 || ltb (get_or rest 0 0) 2 || ltb (length rest) (get_or rest 0 0)
        then ok configs
        else if not (get_or rest 1 0 == dt_config)
        then scan fuel configs (drop (get_or rest 0 0) rest)
        else if ltb (get_or rest 0 0) 9
        then err invalid_data
        else u16le rest 2 >>= λ total. parse_config (take total rest) >>= λ c.
            elim (ltb total (get_or rest 0 0)) [
              | true ↦ ok (configs ++ c ∷ [])
              | false ↦ scan fuel (configs ++ c ∷ []) (drop total rest)
            ])
unfolding scan
scan_round fuel configs rest = elim (Bool-cases (ltb (length rest) 2)) [
  | inl e ↦ rw e refl
  | inr e ↦ rw e (read_then rest 0 _ (ground (arith, e)) ∙ read_then rest 1 _ (ground (arith, e)))
]

abbrev pub described : DeviceDescriptor → List ConfigDescriptor → Parsed Descriptors
described device configs = ok (record { device = device; configs = configs })

abbrev pub scan_behind : List ℕ → ℕ → Parsed (List ConfigDescriptor)
scan_behind blob first = scan (suc (length blob)) [] (drop (max first device_desc_len) blob)

device_then :
    {B : Type 0} (blob : List ℕ) (f : DeviceDescriptor → Parsed B)
    → 18 ≤ length blob
    → (device_descriptor blob >>= f) ≡ f (device_in blob)
unfolding ◌>>=◌
device_then blob f h = rw (device_descriptor-ok blob h, ◌>>=◌) refl

pub parse_start :
    (blob : List ℕ)
    → parse blob ≡ (
        if ltb (length blob) device_desc_len || not (get_or blob 1 0 == dt_device)
        then err invalid_data
        else scan_behind blob (get_or blob 0 0) >>= described (device_in blob))
unfolding parse
parse_start blob = elim (Bool-cases (ltb (length blob) device_desc_len)) [
  | inl e ↦ rw e refl
  | inr e ↦
      let size : 18 ≤ length blob = ground (arith, e) in
      rw e (
        read_then blob 1 _ (omega (arith, size))
        ∙ elim (Bool-cases (get_or blob 1 0 == dt_device)) [
          | inr other ↦ rw other refl
          | inl device ↦
              rw device (device_then blob _ size ∙ read_then blob 0 _ (omega (arith, size)))
        ])
]
