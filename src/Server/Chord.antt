-- ===== src/Server/Chord.antt =====
-- crates/usbfwd-server/src/chord.rs: a button chord in the reports of a controller, and the hold
-- that makes it fire. An `Instant` is its distance from a fixed one, a `Duration` a number.
pub mod Presses
pub mod Text
pub mod Holds
use Prim.Native.Nat.{bit_and}
use padwire.Prelude.{
  ℕ, zero, suc, ◌+◌, ◌-◌, ◌*◌, ◌^◌, Bool, true, false, ◌||◌, not, Option, none, some, List, [], ◌∷◌,
  length, take, drop, get_or, ◌==◌, leb, ltb, if◌then◌else◌,
}

abbrev pub deck_state : ℕ
deck_state = 0x09

abbrev pub buttons_at : ℕ
buttons_at = 8

abbrev pub min_report : ℕ
min_report = buttons_at + 8

unfoldable pub u64_from_le_bytes : List ℕ → ℕ
u64_from_le_bytes b =
    get_or b 0 0
    + get_or b 1 0 * 2 ^ 8
    + get_or b 2 0 * 2 ^ 16
    + get_or b 3 0 * 2 ^ 24
    + get_or b 4 0 * 2 ^ 32
    + get_or b 5 0 * 2 ^ 40
    + get_or b 6 0 * 2 ^ 48
    + get_or b 7 0 * 2 ^ 56

-- An index is read only where the report is long enough for it.
unfoldable pub buttons : List ℕ → Option ℕ
buttons report =
    if ltb (length report) min_report
      || not (get_or report 0 0 == 0x01)
      || not (get_or report 1 0 == 0x00)
    then none
    else if not (get_or report 2 0 == deck_state)
    then none
    else if ltb (get_or report 3 0) (min_report - 4)
    then none
    else some (u64_from_le_bytes (take 8 (drop buttons_at report)))

pub record Chord : Type 0 where
  pub mask : ℕ

unfoldable pub held_in : Chord → ℕ → Bool
held_in chord buttons = bit_and buttons chord.mask == chord.mask

pub record Verdict : Type 0 where
  pub swallow : Bool
  pub fired : Bool

abbrev pub default : Verdict
default = record { swallow = false; fired = false }

pub record Detector : Type 0 where
  pub chord : Chord
  pub hold : ℕ
  pub since : Option ℕ
  pub armed : Bool

unfoldable pub new : Chord → ℕ → Detector
new chord hold = record { chord = chord; hold = hold; since = none; armed = false }

abbrev pub get_or_insert : Option ℕ → ℕ → ℕ
get_or_insert none now = now
get_or_insert (some started) now = started

-- A report in which the chord is up.
unfoldable pub released : Detector → Verdict × Detector
released det = (default, record det { since = none; armed = true })

-- A report in which it is down.
unfoldable pub held : Detector → ℕ → Verdict × Detector
held det now =
    let started = get_or_insert det.since now in
    let det' = record det { since = some started } in
    if not det.armed || ltb (now - started) det.hold
    then (record { swallow = true; fired = false }, det')
    else (record { swallow = true; fired = true }, record det' { armed = false })

unfoldable pub fed : Detector → Option ℕ → ℕ → Verdict × Detector
fed det none now = (default, det)
fed det (some b) now = if not (held_in det.chord b) then released det else held det now

-- `duration_since` is 0 where `now` is the earlier one, as `-` is.
unfoldable pub feed : Detector → List ℕ → ℕ → Verdict × Detector
unfolding fed
feed det report now = fed det (buttons report) now
