-- ===== src/Usbip/Wire.antt =====
-- crates/usbip-proto/src/lib.rs and wire.rs: errors and sizes, the text encoding, the cursor that
-- reads and the buffer that is written.
pub mod Error
pub mod Text
pub mod Words
pub mod Reader
pub mod Writer
pub mod Carry
pub mod Fields
pub mod Takes
