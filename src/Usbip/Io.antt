-- ===== src/Usbip/Io.antt =====
-- crates/usbip-proto/src/io.rs: whole messages off a byte stream. The readers are in the children.
pub mod Stream
pub mod Setup
pub mod Transfer
