-- ===== src/Discovery.antt =====
-- crates/usbfwd-common: how the two sides find each other.
pub mod Mdns
pub mod Examples
