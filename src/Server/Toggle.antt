-- ===== src/Server/Toggle.antt =====
-- crates/usbfwd-server/src/toggle.rs: the devices that are withheld from importers, and the source
-- of devices that hides them.
pub mod Offer
pub mod Watch
pub mod Examples
use padwire.Prelude.{
  ℕ, Bool, true, false, not, Option, none, some, List, [], ◌∷◌, Result, ok, err, if◌then◌else◌,
}
use padwire.Backend.Summary.{DeviceSummary}
use padwire.Server.Names
use padwire.Server.Names.{Name, contains, insert, remove}
use padwire.Server.Chord.{Chord, Detector, feed, new as new_detector}

pub record Toggle : Type 0 where
  pub suspended : List Name

abbrev pub new : Toggle
new = record { suspended = [] }

unfoldable pub is_suspended : Toggle → Name → Bool
is_suspended toggle busid = contains busid toggle.suspended

unfoldable pub suspend : Toggle → Name → Bool × Toggle
suspend toggle busid =
    let (fresh, names) = insert busid toggle.suspended in (fresh, record { suspended = names })

unfoldable pub resume : Toggle → Name → Bool × Toggle
resume toggle busid =
    let (was, names) = remove busid toggle.suspended in (was, record { suspended = names })

unfoldable pub resume_all : Toggle → List Name × Toggle
resume_all toggle = (toggle.suspended, record { suspended = [] })

-- An opened device is a `V`, and an error an `E`.
pub record DeviceSource (V E : Type 0) : Type 0 where
  pub list : Result E (List DeviceSummary)
  pub open_device : Name → Result E V

unfoldable pub offered : Toggle → List DeviceSummary → List DeviceSummary
unfolding is_suspended
offered toggle [] = []
offered toggle (d ∷ ds) =
    if not (is_suspended toggle d.busid) then d ∷ offered toggle ds else offered toggle ds

-- `denied` is the error `PermissionDenied`.
unfoldable pub gated : {V E : Type 0} → E → DeviceSource V E → Toggle → DeviceSource V E
unfolding offered is_suspended
gated denied inner toggle = record {
  list = elim inner.list [ err e ↦ err e | ok ds ↦ ok (offered toggle ds) ];
  open_device = λ busid. if is_suspended toggle busid then err denied else inner.open_device busid;
}

-- One pass over the reports of a tap, all read at one time.
unfoldable pub any_fired : Detector → List (List ℕ) → ℕ → Bool × Detector
any_fired det [] now = (false, det)
any_fired det (report ∷ reports) now =
    let (v, det') = feed det report now in
    let rest = any_fired det' reports now in if v.fired then (true, det') else rest
