-- ===== src/Server/Prefetch.antt =====
-- crates/usbfwd-server/src/prefetch.rs: an interrupt IN URB is kept queued on the device, and its
-- reports answer the client's submits. The mutex makes each method one step.
-- A `HashMap` is the list of its entries in the order of iteration, which may be any.
pub mod Endpoints
pub mod Invariant
pub mod Answers
pub mod Buffer
pub mod Calls
pub mod Keys
pub mod Shutdown
pub mod Kept
use Endpoints.{Endpoint, EndpointMap, Waiter, lookup, put, insert}
use Prim.Native.Nat.{bit_and}
use padwire.Prelude.{
  ℕ, zero, suc, ◌+◌, ◌-◌, ◌%◌, ◌^◌, ◌≡◌, max, Bool, true, false, ◌||◌, Option, none, some, List, [],
  ◌∷◌, ◌++◌, length, drop, take as truncate, map, ◌==◌, leb, if◌then◌else◌, Result, ok, err,
  replicate,
}
use padwire.Prelude.Int.{ℤ, pos, negsuc}
use padwire.Usbip.Pdu.{into}
use padwire.Backend.{UsbBackend, UrbRequest, SubmitError, urb, handled, fatal}

abbrev pub internal_base : ℕ
internal_base = 0x8000_0000

abbrev pub depth : ℕ
depth = 4

abbrev pub max_consecutive_errors : ℕ
max_consecutive_errors = 8

pub data Take : Type 0 where
  ready : List ℕ → Take
  waiting : Take
  pass_through : Take

pub record Inner : Type 0 where
  pub eps : EndpointMap
  pub next_seqnum : ℕ

-- `none` where prefetching is off.
abbrev pub Prefetch : Type 0
Prefetch = Option Inner

abbrev pub is_some {ℓ} : {A : Type ℓ} → Option A → Bool
is_some none = false
is_some (some a) = true

abbrev pub is_zero : ℤ → Bool
is_zero (pos n) = n == 0
is_zero (negsuc n) = false

unfoldable pub new_endpoint : ℕ → ℕ → Endpoint
new_endpoint address max_packet = record {
  number = bit_and address 0x0f;
  max_packet = max_packet;
  in_flight = none;
  captured = [];
  waiting = none;
  errors = 0;
  disabled = false;
}

-- A later pair for an address takes the place of an earlier one.
unfoldable pub collect : List (ℕ × ℕ) → EndpointMap → EndpointMap
collect [] eps = eps
collect ((address, max_packet) ∷ pairs) eps =
    collect pairs (insert address (new_endpoint address max_packet) eps)

unfoldable pub enabled : EndpointMap → Prefetch
enabled [] = none
enabled (e ∷ eps) = some (record { eps = e ∷ eps; next_seqnum = internal_base })

unfoldable pub owns : ℕ → Bool
owns seqnum = leb internal_base seqnum

abbrev pub request : ℕ → Endpoint → UrbRequest
request seqnum ep = record {
  seqnum = seqnum;
  ep = ep.number;
  dir = into;
  transfer_flags = 0;
  setup = replicate 8 0;
  buffer_length = ep.max_packet;
  data_bytes = [];
}

-- One more failure in a row, which may be the last.
unfoldable pub refused : Endpoint → Endpoint
refused ep = record ep {
  errors = ep.errors + 1;
  disabled = leb max_consecutive_errors (ep.errors + 1) || ep.disabled;
}

-- What `arm_one` makes of the device's answer.
unfoldable pub submitted : ℕ → Inner → Endpoint → Result SubmitError (Unit {0}) → Inner
unfolding refused
submitted address inner ep (ok done) = record inner {
  eps = put address (record ep { in_flight = some inner.next_seqnum }) inner.eps;
  next_seqnum = max ((inner.next_seqnum + 1) % 2 ^ 32) internal_base;
}
submitted address inner ep (err (urb status)) = record inner {
  eps = put address (refused ep) inner.eps;
}
submitted address inner ep (err (handled status)) = inner
submitted address inner ep (err (fatal e)) = record inner {
  eps = put address (record ep { disabled = true }) inner.eps;
}

-- What an endpoint gives a client's submit.
unfoldable pub take_captured : Endpoint → ℕ → ℕ → Take × Endpoint
take_captured ep seqnum max_len = elim ep.captured [
  | [] ↦ (waiting, record ep { waiting = some (record { seqnum = seqnum; max_len = max_len }) })
  | report ∷ rest ↦ (ready (truncate max_len report), record ep { captured = rest })
]

-- The reply that is owed to a client: its seqnum, a status and data.
abbrev pub Reply : Type 0
Reply = ℕ × ℤ × List ℕ

-- A failed transfer, once the endpoint has nothing in flight: `clear` if it was the last one.
unfoldable pub failed : Endpoint → ℤ → Option Reply × Endpoint
failed ep status =
    let ep' = record ep { errors = ep.errors + 1; waiting = none } in
    (
      elim ep.waiting [ none ↦ none | some w ↦ some (w.seqnum, status, []) ],
      if leb max_consecutive_errors (ep.errors + 1)
          then record ep' { disabled = true; captured = [] }
          else ep',
    )

-- A report goes to the buffer, whose oldest one is dropped if it is full.
unfoldable pub buffered : List (List ℕ) → List ℕ → List (List ℕ)
buffered captured report =
    (if length captured == depth then drop 1 captured else captured) ++ report ∷ []

unfoldable pub reported : Endpoint → List ℕ → Option Reply × Endpoint
reported ep report =
    let ep' = record ep { errors = 0 } in
    elim ep.waiting [
      | some w ↦ (some (w.seqnum, pos 0, truncate w.max_len report), record ep' { waiting = none })
      | none ↦ (none, record ep' { captured = buffered ep.captured report })
    ]

unfoldable pub completed : Endpoint → ℤ → List ℕ → Option Reply × Endpoint
unfolding failed reported
completed ep status report =
    let ep' = record ep { in_flight = none } in
    if is_zero status then reported ep' report else failed ep' status

abbrev pub is_seqnum : Option ℕ → ℕ → Bool
is_seqnum none seqnum = false
is_seqnum (some s) seqnum = s == seqnum

unfoldable pub find_in_flight : ℕ → EndpointMap → Option ℕ
find_in_flight seqnum [] = none
find_in_flight seqnum ((address, ep) ∷ eps) =
    if is_seqnum ep.in_flight seqnum then some address else find_in_flight seqnum eps

abbrev pub is_waiter : Option Waiter → ℕ → Bool
is_waiter none seqnum = false
is_waiter (some w) seqnum = w.seqnum == seqnum

unfoldable pub unlink_waiter : ℕ → EndpointMap → Bool × EndpointMap
unlink_waiter seqnum [] = (false, [])
unlink_waiter seqnum ((address, ep) ∷ eps) =
    let (found, eps') = unlink_waiter seqnum eps in
    if is_waiter ep.waiting seqnum
    then (true, (address, record ep { waiting = none }) ∷ eps)
    else (found, (address, ep) ∷ eps')

unfoldable pub unlink : Prefetch → ℕ → Bool × Prefetch
unfolding unlink_waiter
unlink none seqnum = (false, none)
unlink (some inner) seqnum =
    let (found, eps) = unlink_waiter seqnum inner.eps in (found, some (record inner { eps = eps }))

module _ {D : Type 0} (dev : UsbBackend D) where
  unfoldable pub new : Bool → Prefetch
  unfolding collect new_endpoint enabled
  new on = if on then enabled (collect dev.interrupt_in_endpoints []) else none

  unfoldable pub arm_one : ℕ → Inner → D → Inner × D
  arm_one address inner d = elim (lookup address inner.eps) [
    | none ↦ (inner, d)
    | some ep ↦
        if ep.disabled || is_some ep.in_flight
        then (inner, d)
        else (let (answer, d') = dev.submit (request inner.next_seqnum ep) d in
            (submitted address inner ep answer, d'))
  ]

  unfoldable pub arm_all : List ℕ → Inner → D → Inner × D
  arm_all [] inner d = (inner, d)
  arm_all (address ∷ addrs) inner d =
      let (inner', d') = arm_one address inner d in arm_all addrs inner' d'

  unfoldable pub arm : Prefetch → D → Prefetch × D
  arm none d = (none, d)
  arm (some inner) d =
      let (inner', d') = arm_all (map (λ e. e.0) inner.eps) inner d in (some inner', d')

  -- The endpoint's new state, and then the re-arming.
  unfoldable pub rearm : ℕ → Endpoint → Inner → D → Prefetch × D
  rearm address ep inner d =
      let (inner', d') = arm_one address (record inner { eps = put address ep inner.eps }) d in
      (some inner', d')

  unfoldable pub take : Prefetch → ℕ → ℕ → ℕ → D → Take × Prefetch × D
  take none address seqnum max_len d = (pass_through, none, d)
  take (some inner) address seqnum max_len d = elim (lookup address inner.eps) [
    | none ↦ (pass_through, some inner, d)
    | some ep ↦
        if ep.disabled
        then (pass_through, some inner, d)
        else (let (answer, ep') = take_captured ep seqnum max_len in
            let (p, d') = rearm address ep' inner d in (answer, p, d'))
  ]

  unfoldable pub deliver_to : ℕ → Inner → ℤ → List ℕ → D → Option Reply × Prefetch × D
  deliver_to address inner status report d = elim (lookup address inner.eps) [
    | none ↦ (none, some inner, d)
    | some ep ↦
        let (reply, ep') = completed ep status report in
        let (p, d') = rearm address ep' inner d in (reply, p, d')
  ]

  unfoldable pub deliver : Prefetch → ℕ → ℤ → List ℕ → D → Option Reply × Prefetch × D
  deliver none seqnum status report d = (none, none, d)
  deliver (some inner) seqnum status report d = elim (find_in_flight seqnum inner.eps) [
    | none ↦ (none, some inner, d)
    | some address ↦ deliver_to address inner status report d
  ]

  abbrev pub unlink_flight : Option ℕ → D → D
  unlink_flight none d = d
  unlink_flight (some s) d = (dev.unlink s d).1

  unfoldable pub shutdown_all : EndpointMap → D → EndpointMap × D
  shutdown_all [] d = ([], d)
  shutdown_all ((address, ep) ∷ eps) d =
      let d' = unlink_flight ep.in_flight d in
      let (eps', d'') = shutdown_all eps d' in
      (
        (address, record ep { disabled = true; waiting = none; captured = []; in_flight = none })
            ∷ eps',
        d'',
      )

  unfoldable pub shutdown : Prefetch → D → Prefetch × D
  unfolding shutdown_all
  shutdown none d = (none, d)
  shutdown (some inner) d =
      let (eps, d') = shutdown_all inner.eps d in (some (record inner { eps = eps }), d')
