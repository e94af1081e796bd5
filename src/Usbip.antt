-- ===== src/Usbip.antt =====
-- crates/usbip-proto: the USB/IP 1.1.1 wire format.
pub mod Wire
pub mod Pdu
pub mod Device
pub mod Op
pub mod Io
pub mod Examples
