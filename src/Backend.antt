-- ===== src/Backend.antt =====
-- crates/usb-backend/src/lib.rs: the interface between the server and a device.
pub mod Descriptors
pub mod Usbfs
pub mod Examples
pub mod Filter
pub mod Summary
use padwire.Prelude.{ℕ, Bool, Option, List, Result}
use padwire.Prelude.Int.{ℤ}
use padwire.Usbip.Pdu.{Direction}
use padwire.Usbip.Io.Stream.{IoError}

pub record UrbRequest : Type 0 where
  pub seqnum : ℕ
  pub ep : ℕ
  pub dir : Direction
  pub transfer_flags : ℕ
  pub setup : List ℕ
  pub buffer_length : ℕ
  pub data_bytes : List ℕ

pub record UrbCompletion : Type 0 where
  pub seqnum : ℕ
  pub status : ℤ
  pub actual_length : ℕ
  pub data_bytes : List ℕ
  pub unlinked : Bool

pub data SubmitError : Type 0 where
  urb : ℤ → SubmitError
  handled : ℤ → SubmitError
  fatal : IoError → SubmitError

-- The calls of the trait that the server's sessions make. A device has a state `D` of its own, and
-- may answer each call as it likes.
pub record UsbBackend (D : Type 0) : Type 0 where
  pub submit : UrbRequest → D → Result SubmitError (Unit {0}) × D
  pub unlink : ℕ → D → Result IoError Bool × D
  pub reap : D → Result IoError (Option UrbCompletion) × D
  pub interrupt_in_endpoints : List (ℕ × ℕ)
