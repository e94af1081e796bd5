-- ===== src/Lib.antt =====
-- padwire exports USB controllers over USB/IP. This library models its protocol crate
-- (crates/usbip-proto), of the backend crate (crates/usb-backend) the device interface, the
-- descriptor parser, the allow-list and the usbfs device, of the exporter (crates/usbfwd-server) the
-- session pump, the import of a device, the account of the accept loop, the prefetcher, the leases,
-- the chord detector and the toggle, of the attaching side (crates/usbfwd-attach) the daemon and the
-- parser of its configuration, and of crates/usbfwd-common the discovery by mDNS.
--
-- Prelude holds shared names, tests and list lemmas, Prelude.Text the strings of the standard library
-- and Prelude.Bits single bits. Usbip.Wire is wire.rs, with the reader and the writer as state passing
-- over lists of bytes; Usbip.Op, Usbip.Device and Usbip.Pdu are op.rs, device.rs and pdu.rs; Usbip.Io
-- is io.rs over a stream of bytes that are still to come. Backend is the device as a record of calls
-- over a state of its own, Backend.Summary the summary of a device, Backend.Descriptors is
-- descriptors.rs, Backend.Filter is filter.rs and Backend.Usbfs is usbfs.rs over a kernel that is a
-- parameter. Server.Session is session.rs, whose reader and reaper take their steps in any order;
-- Server.Import and Server.Accept are lib.rs. Server.Prefetch is prefetch.rs, each method one step
-- under the mutex; Server.Registry is registry.rs, Server.Chord is chord.rs and Server.Toggle is
-- toggle.rs, its watcher over taps that are a parameter, with the sets of names in Server.Names.
-- Attach is the daemon of main.rs with the ports of vhci.rs, over a kernel, a network and a clock that
-- are a parameter; Attach.Toml is toml.rs and Attach.Settings config.rs. Discovery.Mdns is mdns.rs.
--
-- Numbers are natural numbers with the wrap-around of the code written out. Most loops are structural.
-- Those over descriptors have one round more than there are bytes, and each round takes a byte at
-- least. Reading an mDNS name has seventeen passes over the message, since it makes at most sixteen
-- jumps. The configuration parser has a round for each line and one more, and its values nest no
-- deeper than their text is long; it is proved not to need more. A deadline is a number of rounds. A
-- panic of the descriptor parser is a value, and a session thread may end in a panic. Not modelled:
-- sockets, threads, system calls, opening and enumerating devices, options and files, and the Android
-- application.
pub mod Prelude
pub mod Usbip
pub mod Attach
pub mod Backend
pub mod Discovery
pub mod Server
