-- ===== src/Server/Examples.antt =====
-- The theorems of the exporter on concrete devices, reports and sessions.
use padwire.Prelude.{
  ℕ, suc, ◌≡◌, refl, true, false, none, some, List, [], ◌∷◌, All, ok, err, arith, replicate,
}
use padwire.Prelude.Int.{pos, negsuc}
use padwire.Backend.{UsbBackend, urb}
use padwire.Server.Chord.{
  Chord, Detector, new as new_detector, feed, buttons, held_in, u64_from_le_bytes,
}
use padwire.Server.Chord.Presses.{Timed, feed_all, firings, releases, is_release}
use padwire.Server.Chord.Holds.{is_held, IsEarly, feed-fires}
use padwire.Server.Names.{Name, is_same, contains}
use padwire.Server.Registry.{new as new_registry, acquire}
use padwire.Server.Registry.Exclusive.{World, Reach, start, granted, IsExact, Reach-IsExact}
use padwire.Server.Toggle.{Toggle, is_suspended}
use padwire.Server.Prefetch.Endpoints.{Endpoint, lookup}
use padwire.Server.Prefetch
use padwire.Server.Prefetch.{Prefetch, Inner, new, find_in_flight, request, waiting, depth}
use padwire.Server.Prefetch.Answers.{waiting_at, in_flight_at, answer, deliver-answer, take-refused}
use padwire.Server.Prefetch.Calls.{Call, arm, take, deliver, unlink, shutdown, calls, calls-Inv}
use padwire.Server.Prefetch.Invariant.{Inv}
use padwire.Server.Prefetch.Shutdown.{calls-shutdown}

-- A device whose state counts the calls, and which takes every URB.
abbrev willing : UsbBackend ℕ
willing = record {
  submit = λ r d. (ok tt, suc d);
  unlink = λ s d. (ok true, suc d);
  reap = λ d. (ok none, suc d);
  interrupt_in_endpoints = (0x81, 64) ∷ (0x82, 8) ∷ [];
}

-- One that refuses them all with `EPIPE`.
abbrev unwilling : UsbBackend ℕ
unwilling = record willing { submit = λ r d. (err (urb (negsuc 31)), suc d) }

abbrev session : List Call
session = arm ∷ take 0x81 1 8 ∷ deliver 0x8000_0000 (pos 0) (1 ∷ 2 ∷ []) ∷ unlink 3 ∷ shutdown ∷ []

calls-Inv_example : Inv (calls willing session (new willing true, 0)).0
calls-Inv_example = calls-Inv willing true session 0

abbrev armed_endpoint : Endpoint
armed_endpoint = record {
  number = 1;
  max_packet = 64;
  in_flight = some 0x8000_0000;
  captured = [];
  waiting = some (record { seqnum = 5; max_len = 2 });
  errors = 0;
  disabled = false;
}

abbrev armed_inner : Inner
armed_inner = record { eps = (0x81, armed_endpoint) ∷ []; next_seqnum = 0x8000_0001 }

armed_found : find_in_flight 0x8000_0000 armed_inner.eps ≡ some 0x81
unfolding find_in_flight
armed_found = refl

deliver-answer_example :
    ((padwire.Server.Prefetch.deliver willing
        (some armed_inner)
        0x8000_0000
        (pos 0)
        (1 ∷ 2 ∷ 3 ∷ [])
        0).0
      ≡ answer (pos 0) (1 ∷ 2 ∷ 3 ∷ []) (waiting_at 0x81 (some armed_inner)))
    × (waiting_at 0x81
          (padwire.Server.Prefetch.deliver willing
            (some armed_inner)
            0x8000_0000
            (pos 0)
            (1 ∷ 2 ∷ 3 ∷ [])
            0).1
        ≡ none)
deliver-answer_example =
    deliver-answer willing armed_inner 0x8000_0000 (pos 0) (1 ∷ 2 ∷ 3 ∷ []) 0 armed_found

calls-shutdown_example :
    calls willing session (padwire.Server.Prefetch.shutdown willing (some armed_inner) 0)
    ≡ padwire.Server.Prefetch.shutdown willing (some armed_inner) 0
calls-shutdown_example = calls-shutdown willing session (some armed_inner) 0

abbrev idle_inner : Inner
idle_inner = record {
  eps = (0x81, record armed_endpoint { in_flight = none; waiting = none }) ∷ [];
  next_seqnum = 0x8000_0000;
}

idle_found :
    lookup 0x81 idle_inner.eps ≡ some (record armed_endpoint { in_flight = none; waiting = none })
unfolding lookup
idle_found = refl

take-refused_example :
    ((padwire.Server.Prefetch.take unwilling (some idle_inner) 0x81 6 8 0).0 ≡ waiting)
    × (waiting_at 0x81 (padwire.Server.Prefetch.take unwilling (some idle_inner) 0x81 6 8 0).1
        ≡ some (record { seqnum = 6; max_len = 8 }))
    × (in_flight_at 0x81 (padwire.Server.Prefetch.take unwilling (some idle_inner) 0x81 6 8 0).1
        ≡ none)
take-refused_example = take-refused unwilling idle_inner 0x81 6 8 0 idle_found refl refl refl refl

-- L4 and R4, as bits 41 and 42.
abbrev grips : Chord
grips = record { mask = 0x600_0000_0000 }

abbrev report : List ℕ → List ℕ
report field = 1 ∷ 0 ∷ 9 ∷ 60 ∷ 7 ∷ 0 ∷ 0 ∷ 0 ∷ field

abbrev up : List ℕ
up = report (replicate 8 0)

abbrev down : List ℕ
down = report (0 ∷ 0 ∷ 0 ∷ 0 ∷ 0 ∷ 6 ∷ 0 ∷ 0 ∷ [])

abbrev presses : Timed
presses = (down, 0) ∷ (up, 1) ∷ (down, 2) ∷ (down, 900) ∷ (down, 2000) ∷ (up, 2001) ∷ []

-- A press that starts before the release is seen fires once, and not again while it lasts.
presses_fire_once :
    (firings (feed_all (new_detector grips 800) presses).0 ≡ 1) × (releases grips presses ≡ 2)
unfolding firings feed_all feed new_detector buttons held_in u64_from_le_bytes releases is_release
    padwire.Server.Chord.held padwire.Server.Chord.released
presses_fire_once = (refl, refl)

up_released : is_release grips up ≡ true
unfolding is_release buttons held_in u64_from_le_bytes
up_released = refl

down_held : is_held grips down ≡ true
unfolding is_held buttons held_in u64_from_le_bytes
down_held = refl

down-IsEarly : All (IsEarly grips 800 2) ((down, 500) ∷ [])
unfolding is_release buttons held_in u64_from_le_bytes
down-IsEarly = ((refl, ground arith), tt)

feed-fires_example :
    (firings (feed_all (new_detector grips 800) ((up, 1) ∷ (down, 2) ∷ (down, 500) ∷ [])).0 ≡ 0)
    × ((feed
          (feed_all (new_detector grips 800) ((up, 1) ∷ (down, 2) ∷ (down, 500) ∷ [])).1
          down
          802).0.fired
        ≡ true)
feed-fires_example =
    feed-fires grips 800 1 2 802 up down down ((down, 500) ∷ []) up_released down_held down_held
      down-IsEarly (ground arith) (ground arith)

-- The bus ids 1-2 and 1-3.
abbrev one_two : Name
one_two = 0x31 ∷ 0x2d ∷ 0x32 ∷ []

abbrev one_three : Name
one_three = 0x31 ∷ 0x2d ∷ 0x33 ∷ []

-- A session holds 1-2.
abbrev leased : World
leased = record {
  registry = (acquire new_registry one_two).1;
  leases = record { busid = one_two } ∷ [];
}

leased_reached : Reach leased
unfolding acquire padwire.Server.Names.insert contains
leased_reached = granted one_two start refl

Reach-IsExact_example : IsExact leased
Reach-IsExact_example = Reach-IsExact leased_reached

abbrev held_back : Toggle
held_back = record { suspended = one_two ∷ [] }

not_held_back : is_suspended held_back one_three ≡ false
unfolding is_suspended contains
not_held_back = refl
