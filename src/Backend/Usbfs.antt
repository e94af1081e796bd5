-- ===== src/Backend/Usbfs.antt =====
-- crates/usb-backend/src/usbfs.rs: a device that the kernel's usbfs gives to the program.
pub mod Requests
pub mod Device
pub mod Interface
pub mod Table
pub mod Bounds
pub mod Cancel
pub mod Accepts
pub mod Examples
pub mod Claims
