-- ===== src/Server/Session/Examples.antt =====
-- The theorems of the session on concrete messages and completions.
use padwire.Prelude.{
  ℕ, ◌+◌, ◌≤◌, ◌≡◌, refl, ap, true, false, none, some, List, [], ◌∷◌, ◌++◌, replicate, ◌==◌, ok,
  arith,
}
use padwire.Prelude.Int.{pos}
use padwire.Usbip.Pdu.{cmd_submit}
use padwire.Usbip.Io.Transfer.{Pdu}
use padwire.Backend.{UrbCompletion}
use padwire.Backend.Usbfs.Device.{PendingUrb}
use padwire.Backend.Usbfs.Interface.{usbfs_backend}
use padwire.Backend.Usbfs.Examples.{in_order, gamepad, idle}
use padwire.Server.Chord.{Chord, buttons, held_in, u64_from_le_bytes}
use padwire.Server.Chord.Holds.{is_held}
use padwire.Server.Session.Accounts.{one}
use padwire.Server.Session.Once.{answers}
use padwire.Server.Session.OverUsbfs.{
  HandsBackOnce, usbfs_backend-CompletesOnce, answers-le-submits-usbfs,
}
use padwire.Server.Session.Runs.{
  Event, message, completion, winding_down, submits, run, begin, answers-le-submits,
}

-- How many URBs of a seqnum the kernel has.
abbrev held : List PendingUrb → ℕ → ℕ
held [] s = 0
held (p ∷ k) s = one (p.seqnum == s) + held k s

held-append :
    (p : PendingUrb) (k : List PendingUrb) (s : ℕ)
    → held (k ++ p ∷ []) s ≡ held k s + one (p.seqnum == s)
held-append p [] s = omega arith
held-append p (q ∷ k) s = omega (arith, held-append p k s)

hands_back :
    (k : List PendingUrb) (s : ℕ) (p : PendingUrb)
    → (in_order.reap_urb k).0 ≡ ok (some p)
    → held (in_order.reap_urb k).1 s + one (p.seqnum == s) ≤ held k s
hands_back [] s p h = cc (h)
hands_back (q ∷ k) s p h =
    let same : q ≡ p = cc (h) in
    let e : one (q.seqnum == s) ≡ one (p.seqnum == s) =
      ap (λ (x : PendingUrb). one (x.seqnum == s)) same in
    omega (arith, e)

waits : (k : List PendingUrb) (s : ℕ) → held (in_order.reap_urb k).1 s ≤ held k s
waits [] s = omega arith
waits (q ∷ k) s = omega arith

in_order-HandsBackOnce : HandsBackOnce in_order held
in_order-HandsBackOnce = record {
  accepts = λ p k s. omega (arith, held-append p k s);
  refuses = λ p k s e h. cc (h);
  discards = λ n k s. omega arith;
  hands_back = hands_back;
  waits = waits;
  changes = λ x k s. omega arith;
}

-- The client polls endpoint 1 under a seqnum.
abbrev poll_of : ℕ → Pdu
poll_of n = record {
  header = record {
    base = record { command = 1; seqnum = n; devid = 65538; direction = 1; ep = 1 };
    body = cmd_submit (record {
      transfer_flags = 0;
      transfer_buffer_length = pos 4;
      start_frame = pos 0;
      number_of_packets = pos 0;
      interval = pos 1;
      setup = replicate 8 0;
    });
  };
  data_bytes = [];
  iso = [];
}

abbrev events : List Event
events =
    message true (poll_of 5)
    ∷ completion true 0
    ∷ completion true 1
    ∷ message true (poll_of 5)
    ∷ winding_down
    ∷ []

answers-le-submits_example :
    answers 5
      (run
        (usbfs_backend in_order gamepad)
        events
        (begin (usbfs_backend in_order gamepad) true none idle)).session.posted
    ≤ submits 5 events
answers-le-submits_example =
    answers-le-submits (usbfs_backend in_order gamepad) (λ s n. held s.kernel n)
      (usbfs_backend-CompletesOnce in_order gamepad held in_order-HandsBackOnce) 5 events true none
      idle (omega arith) refl

answers-le-submits-usbfs_example :
    answers 5
      (run
        (usbfs_backend in_order gamepad)
        events
        (begin (usbfs_backend in_order gamepad) false none idle)).session.posted
    ≤ submits 5 events
answers-le-submits-usbfs_example =
    answers-le-submits-usbfs in_order gamepad held in_order-HandsBackOnce 5 events false none idle
      (omega arith) refl

-- L4 and R4, and a report of the Deck in which both are down.
abbrev grips : Chord
grips = record { mask = 0x600_0000_0000 }

abbrev down : UrbCompletion
down = record {
  seqnum = 5;
  status = pos 0;
  actual_length = 16;
  data_bytes = 1 ∷ 0 ∷ 9 ∷ 60 ∷ 7 ∷ 0 ∷ 0 ∷ 0 ∷ 0 ∷ 0 ∷ 0 ∷ 0 ∷ 0 ∷ 6 ∷ 0 ∷ 0 ∷ [];
  unlinked = false;
}

down_held : is_held grips down.data_bytes ≡ true
unfolding is_held buttons held_in u64_from_le_bytes
down_held = refl
