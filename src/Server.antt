-- ===== src/Server.antt =====
-- crates/usbfwd-server: the exporter.
pub mod Chord
pub mod Examples
pub mod Names
pub mod Prefetch
pub mod Registry
pub mod Session
pub mod Toggle
pub mod Import
pub mod Accept
