-- ===== src/Backend/Summary.antt =====
-- crates/usb-backend/src/lib.rs: what a client needs to see of a device.
use padwire.Prelude.{ℕ, ◌%◌, ◌^◌, List, map, length}
use padwire.Usbip.Device.{Speed, unknown, low, full, high, wireless, super, super_plus, UsbDevice}
use padwire.Backend.Descriptors.{ConfigDescriptor, DeviceDescriptor, primary_alt_settings}

pub record InterfaceSummary : Type 0 where
  pub number : ℕ
  pub class : ℕ
  pub sub_class : ℕ
  pub protocol : ℕ

unfoldable pub list_from : ConfigDescriptor → List InterfaceSummary
list_from c =
    map
      (λ a. record {
        number = a.interface_number;
        class = a.class;
        sub_class = a.sub_class;
        protocol = a.protocol;
      })
      (primary_alt_settings c)

pub record DeviceSummary : Type 0 where
  pub busnum : ℕ
  pub devnum : ℕ
  pub busid : List ℕ
  pub sys_path : List ℕ
  pub node_path : List ℕ
  pub speed : Speed
  pub device : DeviceDescriptor
  pub config_value : ℕ
  pub interfaces : List InterfaceSummary

abbrev pub vid_pid : DeviceSummary → ℕ × ℕ
vid_pid s = (s.device.id_vendor, s.device.id_product)

-- `speed as u32`
abbrev pub number_of : Speed → ℕ
number_of unknown = 0
number_of low = 1
number_of full = 2
number_of high = 3
number_of wireless = 4
number_of super = 5
number_of super_plus = 6

unfoldable pub to_usbip : DeviceSummary → UsbDevice
to_usbip s = record {
  path = s.sys_path;
  busid = s.busid;
  busnum = s.busnum;
  devnum = s.devnum;
  speed = number_of s.speed;
  id_vendor = s.device.id_vendor;
  id_product = s.device.id_product;
  bcd_device = s.device.bcd_device;
  b_device_class = s.device.b_device_class;
  b_device_sub_class = s.device.b_device_sub_class;
  b_device_protocol = s.device.b_device_protocol;
  b_configuration_value = s.config_value;
  b_num_configurations = s.device.b_num_configurations;
  b_num_interfaces = length s.interfaces % 2 ^ 8;
  interfaces =
      map (λ i. record { class = i.class; subclass = i.sub_class; protocol = i.protocol })
        s.interfaces;
}
