-- ===== src/Attach.antt =====
-- crates/usbfwd-attach/src/main.rs and vhci.rs: the daemon that keeps devices attached. A string is
-- the list of its bytes, and a time a number of milliseconds. The log is left out.
pub mod Adopts
pub mod Backoffs
pub mod Tries
pub mod Ticks
pub mod Toml
pub mod Settings
pub mod Examples
use padwire.Prelude.{
  ℕ, zero, suc, ◌+◌, ◌*◌, Bool, true, false, ◌&&◌, ◌||◌, not, Option, none, some, List, [], ◌∷◌,
  ◌++◌, map, min, ltb, ◌==◌, if◌then◌else◌, Result, ok, err,
}
use padwire.Prelude.Text.{is_nil, is_same, same_ignoring_case}
use padwire.Usbip.Device.{UsbDevice}
use padwire.Usbip.Io.Stream.{IoError}
use padwire.Backend.Filter.{DeviceFilter, matches, default_filter}
use padwire.Backend.Descriptors.Interfaces.{has}

abbrev pub vdev_st_null : ℕ
vdev_st_null = 4

abbrev pub vdev_st_error : ℕ
vdev_st_error = 7

-- Of a port the daemon needs its number and its status.
pub record Port : Type 0 where
  pub port : ℕ
  pub status : ℕ

unfoldable pub occupied : Port → Bool
occupied p = not (p.status == vdev_st_null)

unfoldable pub failed : Port → Bool
failed p = p.status == vdev_st_error

pub record Record : Type 0 where
  pub port : ℕ
  pub host : List ℕ
  pub busid : List ℕ

pub record Server : Type 0 where
  pub name : List ℕ
  pub host : List ℕ
  pub port : ℕ
  pub devices : DeviceFilter
  pub auto_attach : Bool

pub record Config : Type 0 where
  pub servers : List Server
  pub stop_after_first : Bool
  pub retry_min : ℕ
  pub retry_max : ℕ
  pub mdns : Bool

-- What the mDNS browser found: the instance's name, its endpoint and its port.
pub record Discovered : Type 0 where
  pub instance_name : List ℕ
  pub endpoint : List ℕ
  pub port : ℕ

-- The kernel, the `usbip` program, the network and the clock, over their state `K`.
pub record System (K : Type 0) : Type 0 where
  pub ports : K → Result IoError (List Port)
  pub records : K → List Record
  pub browse : K → Result IoError (List Discovered) × K
  pub devlist : List ℕ → ℕ → K → Result IoError (List UsbDevice) × K
  pub attach : List ℕ → ℕ → List ℕ → K → Result IoError (Unit {0}) × K
  pub detach : ℕ → K → K
  pub now : K → ℕ × K
  pub sleep : K → K

pub record Tracked : Type 0 where
  pub server : List ℕ
  pub host : List ℕ
  pub busid : List ℕ
  pub port : ℕ

pub record Backoff : Type 0 where
  pub next_try : ℕ
  pub delay : ℕ
  pub reported : Bool

abbrev pub Backoffs : Type 0
Backoffs = List (List ℕ × Backoff)

pub record Daemon (K : Type 0) : Type 0 where
  pub attached : List Tracked
  pub backoff : Backoffs
  pub system : K

unfoldable pub occupied_of : List Port → List ℕ
unfolding occupied
occupied_of [] = []
occupied_of (p ∷ ps) = let rest = occupied_of ps in if occupied p then p.port ∷ rest else rest

unfoldable pub newly_used : List ℕ → List ℕ → Option ℕ
newly_used before [] = none
newly_used before (p ∷ after) =
    let rest = newly_used before after in if has p before then rest else some p

unfoldable pub find_port : ℕ → List Port → Option Port
find_port n [] = none
find_port n (p ∷ ps) = if p.port == n then some p else find_port n ps

unfoldable pub lookup : List ℕ → Backoffs → Option Backoff
lookup name [] = none
lookup name ((n, b) ∷ bs) = if is_same n name then some b else lookup name bs

unfoldable pub removed : List ℕ → Backoffs → Backoffs
removed name [] = []
removed name ((n, b) ∷ bs) =
    let rest = removed name bs in if is_same n name then rest else (n, b) ∷ rest

abbrev pub or_first : Option Backoff → ℕ → ℕ → Backoff
or_first (some b) now delay = b
or_first none now delay = record { next_try = now; delay = delay; reported = false }

-- A failure at a time: the next try comes after the delay, and the delay doubles up to the ceiling.
-- A time is any number here, where `Instant + Duration` panics past the last one that it has; the
-- module Backoffs says when that is not passed.
unfoldable pub backed_off : Config → ℕ → Backoff → Backoff
backed_off cfg now b = record {
  next_try = now + b.delay;
  delay = min (b.delay * 2) cfg.retry_max;
  reported = true;
}

unfoldable pub record_failure_at : Config → List ℕ → ℕ → Backoffs → Backoffs
unfolding backed_off
record_failure_at cfg name now bs =
    (name, backed_off cfg now (or_first (lookup name bs) now cfg.retry_min)) ∷ removed name bs

-- What `prune` does with an attachment, by its port as it is now.
pub data Fate : Type 0 where
  kept dropped broken : Fate

unfoldable pub fate_of : Option Port → Fate
unfolding occupied failed
fate_of none = dropped
fate_of (some p) = if failed p then broken else if occupied p then kept else dropped

-- The attachments that stay, and the ports to detach.
unfoldable pub pruned : List Port → List Tracked → List Tracked × List ℕ
unfolding fate_of
pruned ports [] = ([], [])
pruned ports (t ∷ ts) =
    let (stay, detached) = pruned ports ts in
    elim (fate_of (find_port t.port ports)) [
      | kept ↦ (t ∷ stay, detached)
      | dropped ↦ (stay, detached)
      | broken ↦ (stay, t.port ∷ detached)
    ]

unfoldable pub is_tracked : List ℕ → List ℕ → List Tracked → Bool
is_tracked server busid [] = false
is_tracked server busid (t ∷ ts) =
    is_same t.server server && is_same t.busid busid || is_tracked server busid ts

-- The first device that the server's filter admits and that is not attached from it.
unfoldable pub candidate : Server → List Tracked → List UsbDevice → Option UsbDevice
unfolding is_tracked
candidate server attached [] = none
candidate server attached (d ∷ ds) =
    let rest = candidate server attached ds in
    if matches server.devices d.id_vendor d.id_product
      && not (is_tracked server.name d.busid attached)
    then some d
    else rest

unfoldable pub has_host : List ℕ → List Server → Bool
has_host host [] = false
has_host host (s ∷ ss) = same_ignoring_case s.host host || has_host host ss

-- `mdns:` and the instance's name.
abbrev pub discovered_server : Discovered → Server
discovered_server d = record {
  name = 109 ∷ 100 ∷ 110 ∷ 115 ∷ 58 ∷ d.instance_name;
  host = d.endpoint;
  port = d.port;
  devices = default_filter;
  auto_attach = true;
}

unfoldable pub with_discovered : List Discovered → List Server → List Server
unfolding has_host
with_discovered [] v = v
with_discovered (d ∷ ds) v =
    with_discovered ds (if has_host d.endpoint v then v else v ++ discovered_server d ∷ [])

module _ {K : Type 0} (sys : System K) (cfg : Config) where
  unfoldable pub occupied_ports : K → List ℕ
  occupied_ports k = elim (sys.ports k) [ ok ps ↦ occupied_of ps | err e ↦ [] ]

  unfoldable pub record_failure : Server → Daemon K → Daemon K
  record_failure server d =
      let (now, k) = sys.now d.system in
      record d { backoff = record_failure_at cfg server.name now d.backoff; system = k }

  unfoldable pub clear_failure : Server → Daemon K → Daemon K
  clear_failure server d = record d { backoff = removed server.name d.backoff }

  unfoldable pub detach_each : List ℕ → K → K
  detach_each [] k = k
  detach_each (p ∷ ps) k = detach_each ps (sys.detach p k)

  unfoldable pub prune : Daemon K → Daemon K
  unfolding detach_each
  prune d = elim (sys.ports d.system) [
    | err e ↦ d
    | ok ports ↦
        let (stay, detached) = pruned ports d.attached in
        record d { attached = stay; system = detach_each detached d.system }
  ]

  -- The rounds that the deadline leaves.
  unfoldable pub settle : ℕ → List ℕ → K → Option ℕ × K
  unfolding occupied_ports
  settle zero before k = (none, k)
  settle (suc n) before k =
      let again = settle n before (sys.sleep k) in
      elim (newly_used before (occupied_ports k)) [ some p ↦ (some p, k) | none ↦ again ]

  unfoldable pub settled : Server → UsbDevice → Option ℕ × K → Daemon K → Bool × Daemon K
  settled server dev (none, k) d = (false, record d { system = k })
  settled server dev (some p, k) d = (
    true,
    record d {
      attached =
          d.attached
          ++ record { server = server.name; host = server.host; busid = dev.busid; port = p } ∷ [];
      system = k;
    },
  )

  unfoldable pub attach : ℕ → Server → UsbDevice → Daemon K → Bool × Daemon K
  unfolding settled record_failure
  attach rounds server dev d =
      let before = occupied_ports d.system in
      let (answer, k) = sys.attach server.host server.port dev.busid d.system in
      elim answer [
        | err e ↦ (false, record_failure server (record d { system = k }))
        | ok u ↦ settled server dev (settle rounds before k) d
      ]

  unfoldable pub attach_one : ℕ → Server → Option UsbDevice → Daemon K → Bool × Daemon K
  unfolding attach
  attach_one rounds server none d = (false, d)
  attach_one rounds server (some dev) d = attach rounds server dev d

  unfoldable pub listed : ℕ → Server → Result IoError (List UsbDevice) → Daemon K → Bool × Daemon K
  unfolding attach_one record_failure clear_failure
  listed rounds server (err e) d = (false, record_failure server d)
  listed rounds server (ok devices) d =
      attach_one rounds server (candidate server d.attached devices) (clear_failure server d)

  -- The clock is read only for a server that has failed before.
  unfoldable pub connect : ℕ → Server → Daemon K → Bool × Daemon K
  unfolding listed
  connect rounds server d =
      let (answer, k) = sys.devlist server.host server.port d.system in
      listed rounds server answer (record d { system = k })

  unfoldable pub try_server : ℕ → Server → Daemon K → Bool × Daemon K
  unfolding connect
  try_server rounds server d = elim (lookup server.name d.backoff) [
    | none ↦ connect rounds server d
    | some b ↦
        let (now, k) = sys.now d.system in
        if ltb now b.next_try
        then (false, record d { system = k })
        else connect rounds server (record d { system = k })
  ]

  unfoldable pub satisfied : Daemon K → Bool
  satisfied d = cfg.stop_after_first && not (is_nil d.attached)

  unfoldable pub try_each : ℕ → List Server → Daemon K → Daemon K
  unfolding try_server
  try_each rounds [] d = d
  try_each rounds (s ∷ ss) d =
      let (attached, d') = try_server rounds s d in
      let skipped = try_each rounds ss d in
      let next = try_each rounds ss d' in
      if not s.auto_attach then skipped else if attached && cfg.stop_after_first then d' else next

  unfoldable pub endpoints : K → List Server × K
  endpoints k =
      let (found, k') = sys.browse k in
      if cfg.mdns
      then (elim found [ ok ds ↦ with_discovered ds cfg.servers | err e ↦ cfg.servers ], k')
      else (cfg.servers, k)

  unfoldable pub tick : ℕ → Daemon K → Daemon K
  unfolding prune satisfied try_each endpoints
  tick rounds d =
      let d' = prune d in
      let (servers, k) = endpoints d'.system in
      if satisfied d' then d' else try_each rounds servers (record d' { system = k })
