-- ===== src/Server/Import.antt =====
-- crates/usbfwd-server/src/lib.rs: one connection, from its first request to its end. The socket's
-- options and the log are left out; a session is a parameter here, and the module Session models
-- it.
pub mod Leases
pub mod Refusals
pub mod Hands
pub mod Examples
use padwire.Prelude.{
  ℕ, Bool, true, false, Option, none, some, List, [], ◌∷◌, ◌++◌, map, if◌then◌else◌, Result, ok,
  err,
}
use padwire.Usbip.Op.{encode_import_reply, encode_devlist_reply}
use padwire.Usbip.Io.Stream.{IoError, Stream}
use padwire.Usbip.Io.Setup.{OpRequest, dev_list, import, read_op_request}
use padwire.Backend.Summary.{DeviceSummary, to_usbip}
use padwire.Server.Names.{Name, is_same}
use padwire.Server.Registry.{Registry, Lease, acquire, drop}
use padwire.Server.Toggle.{DeviceSource}
use padwire.Server.Toggle.Offer.{is_listed}

-- An opened device over the state `D`. `close` is what becomes of it when the last reference to it
-- is dropped, `kept` whether another reference outlives the connection, and `serve` a whole session.
pub record Opened (D : Type 0) : Type 0 where
  pub summary : DeviceSummary
  pub kept : Bool
  pub claim_all : D → Result IoError (Unit {0}) × D
  pub release_all : D → D
  pub close : D → D
  pub serve : D → Result IoError (Unit {0}) × D

-- The connection drops its reference.
unfoldable pub dropped : {D : Type 0} → Opened D → D → D
dropped dev d = if dev.kept then d else dev.close d

-- `SingleDevice`, which keeps its device. `not_found` is the error `NotFound`.
unfoldable pub single_device : {D : Type 0} → IoError → Opened D → DeviceSource (Opened D) IoError
single_device not_found dev = record {
  list = ok (dev.summary ∷ []);
  open_device = λ busid.
      if is_same busid dev.summary.busid then ok (record dev { kept = true }) else err not_found;
}

-- What a connection shares with the others, and what it has sent.
pub record World (D : Type 0) : Type 0 where
  pub registry : Registry
  pub dev : D
  pub written : List ℕ

module _ {D : Type 0} (source : DeviceSource (Opened D) IoError)
    (send : List ℕ → Option IoError) where
  unfoldable pub write_all : List ℕ → World D → Result IoError (Unit {0}) × World D
  write_all b w = elim (send b) [
    | none ↦ (ok tt, record w { written = w.written ++ b })
    | some e ↦ (err e, w)
  ]

  unfoldable pub refuse : World D → Result IoError (Unit {0}) × World D
  unfolding write_all
  refuse w = write_all (encode_import_reply none) w

  -- The reply is sent, the session runs and the interfaces go back; the reference to the device is
  -- dropped at the end, also if the reply could not be sent.
  unfoldable pub export : Opened D → World D → Result IoError (Unit {0}) × World D
  unfolding write_all dropped
  export dev w =
      let (sent, w') = write_all (encode_import_reply (some (to_usbip dev.summary))) w in
      elim sent [
        | err e ↦ (err e, record w' { dev = dropped dev w'.dev })
        | ok u ↦
            let (result, d) = dev.serve w'.dev in
            (result, record w' { dev = dropped dev (dev.release_all d) })
      ]

  unfoldable pub claim : Opened D → World D → Result IoError (Unit {0}) × World D
  unfolding export refuse dropped
  claim dev w =
      let (claimed, d) = dev.claim_all w.dev in
      elim claimed [
        | err e ↦
            let (result, w') = refuse (record w { dev = d }) in
            (result, record w' { dev = dropped dev w'.dev })
        | ok u ↦ export dev (record w { dev = d })
      ]

  unfoldable pub open_leased : Name → World D → Result IoError (Unit {0}) × World D
  unfolding claim
  open_leased busid w = elim (source.open_device busid) [ err e ↦ refuse w | ok dev ↦ claim dev w ]

  -- The lease is dropped on every way out.
  unfoldable pub leased : Name → Option Lease → World D → Result IoError (Unit {0}) × World D
  unfolding open_leased
  leased busid none w = refuse w
  leased busid (some lease) w =
      let (result, w') = open_leased busid w in
      (result, record w' { registry = drop lease w'.registry })

  unfoldable pub import_listed : Name → World D → Result IoError (Unit {0}) × World D
  unfolding leased
  import_listed busid w =
      let (lease, registry) = acquire w.registry busid in
      leased busid lease (record w { registry = registry })

  unfoldable pub import_device : Name → World D → Result IoError (Unit {0}) × World D
  unfolding import_listed
  import_device busid w = elim source.list [
    | err e ↦ (err e, w)
    | ok ds ↦ if is_listed busid ds then import_listed busid w else refuse w
  ]

  unfoldable pub device_list : World D → Result IoError (Unit {0}) × World D
  unfolding write_all
  device_list w = elim source.list [
    | err e ↦ (err e, w)
    | ok ds ↦ write_all (encode_devlist_reply (map to_usbip ds)) w
  ]

  unfoldable pub answer : Option OpRequest → World D → Result IoError (Unit {0}) × World D
  unfolding device_list import_device
  answer none w = (ok tt, w)
  answer (some dev_list) w = device_list w
  answer (some (import busid)) w = import_device busid w

  unfoldable pub handle : Stream → World D → Result IoError (Unit {0}) × World D
  unfolding answer
  handle s w = elim (read_op_request s) [ err e ↦ (err e, w) | ok (request, s') ↦ answer request w ]
