-- ===== src/Backend/Usbfs/Examples.antt =====
-- The theorems of the usbfs device over a small kernel.
use padwire.Prelude.{
  ℕ, ◌+◌, ◌≤◌, ◌≡◌, refl, true, false, ◌||◌, Option, some, List, [], ◌∷◌, ◌++◌, length, replicate,
  ◌==◌, if◌then◌else◌, Result, ok, err, arith, Bool-cases, inl, inr,
}
use padwire.Prelude.Int.{pos}
use padwire.Usbip.Pdu.{into, is_in}
use padwire.Backend.{UrbRequest}
use padwire.Backend.Descriptors.{
  AltSetting, ConfigDescriptor, EndpointDescriptor, primary_alt_settings, config,
}
use padwire.Backend.Descriptors.Interfaces.{has}
use padwire.Backend.Usbfs.Requests.{type_interrupt, type_control, get, urb_type_for}
use padwire.Backend.Usbfs.Device.{
  Kernel, State, Fixed, PendingUrb, eagain, urb_of, reply_len, completion_of, contains_key,
  payload_len, submit, unlink,
}
use padwire.Backend.Usbfs.Interface.{
  AreDistinct, has_address, interrupt_in_endpoints, polls, interrupt_in_endpoints-polls,
}
use padwire.Backend.Usbfs.Table
use padwire.Backend.Usbfs.Table.{submits, unlinks, reaps, calls, calls-AreDistinct, unlink-reap}
use padwire.Backend.Usbfs.Bounds.{Fills, completion_of-IsBounded}
use padwire.Backend.Usbfs.Accepts.{IsAccepted, submit-ok}
use padwire.Backend.Usbfs.Cancel.{AllUnlinked, cancel_pending, cancel_pending-AllUnlinked}
use padwire.Backend.Usbfs.Claims.{Interfaces, Claims, claim_one, claim_each, release_all}
use padwire.Backend.Usbfs.Claims.Owned.{Owns, release_all-owned}

abbrev pub popped : List PendingUrb → Result ℕ (Option PendingUrb) × List PendingUrb
popped [] = (err eagain, [])
popped (p ∷ k) = (ok (some p), k)

-- A kernel that completes the URBs in their order.
abbrev pub in_order : Kernel (List PendingUrb)
in_order = record {
  submit_urb = λ p k. (ok tt, k ++ p ∷ []);
  discard_urb = λ n k. (true, k);
  reap_urb = popped;
  change = λ x k. (ok tt, k);
}

abbrev pub input_endpoint : EndpointDescriptor
input_endpoint = record { address = 0x81; attributes = 3; max_packet_size = 64; interval = 4 }

abbrev pub input_setting : AltSetting
input_setting = record {
  interface_number = 0;
  alternate_setting = 0;
  class = 3;
  sub_class = 0;
  protocol = 0;
  endpoints = input_endpoint ∷ [];
}

abbrev pub config_one : ConfigDescriptor
config_one = record {
  configuration_value = 1;
  num_interfaces = 1;
  alt_settings = input_setting ∷ [];
}

abbrev pub gamepad : Fixed
gamepad = record {
  types = (0x81, type_interrupt) ∷ (0x80, type_control) ∷ (0x00, type_control) ∷ [];
  caps = 0;
  max_transfer = 1024;
  descriptors = record {
    device = record {
      bcd_usb = 0x200;
      b_device_class = 0;
      b_device_sub_class = 0;
      b_device_protocol = 0;
      b_max_packet_size0 = 64;
      id_vendor = 0x28de;
      id_product = 0x1304;
      bcd_device = 0x100;
      b_num_configurations = 1;
    };
    configs = config_one ∷ [];
  };
  config_value = 1;
}

abbrev poll : UrbRequest
poll = record {
  seqnum = 5;
  ep = 1;
  dir = into;
  transfer_flags = 0;
  setup = replicate 8 0;
  buffer_length = 4;
  data_bytes = [];
}

abbrev pub idle : State (List PendingUrb)
idle = record { pending = []; kernel = [] }

accepted : (submit in_order gamepad poll idle).0 ≡ ok tt
unfolding submit urb_type_for get is_in payload_len contains_key
accepted = refl

submit-ok_example :
    (address : ℕ) × (t : ℕ) × (urb_type_for gamepad.types poll.ep poll.dir ≡ ok (address, t))
    × IsAccepted in_order gamepad poll address t idle (submit in_order gamepad poll idle).1
submit-ok_example = submit-ok in_order gamepad poll idle accepted

calls-AreDistinct_example :
    Table.AreDistinct
      (calls in_order gamepad
        (submits poll ∷ submits poll ∷ unlinks 5 ∷ reaps ∷ submits poll ∷ [])
        idle).pending
calls-AreDistinct_example =
    calls-AreDistinct in_order gamepad
      (submits poll ∷ submits poll ∷ unlinks 5 ∷ reaps ∷ submits poll ∷ []) idle tt

abbrev sent_urb : PendingUrb
sent_urb = record {
  typ = type_interrupt;
  endpoint = 0x81;
  flags = 0;
  buffer_length = 4;
  status = pos 0;
  actual_length = pos 0;
  buffer = replicate 4 0;
  seqnum = 5;
  dir = into;
  data_offset = 0;
  max_reply = 4;
}

abbrev waiting : State (List PendingUrb)
waiting = record { pending = (5, false) ∷ []; kernel = sent_urb ∷ [] }

waiting-has : contains_key 5 waiting.pending ≡ true
unfolding contains_key
waiting-has = refl

waiting-distinct : Table.AreDistinct waiting.pending
unfolding contains_key
waiting-distinct = (refl, tt)

comes_back : (in_order.reap_urb (unlink in_order gamepad 5 waiting).1.kernel).0 ≡ ok (some sent_urb)
unfolding unlink contains_key
comes_back = refl

-- The same URB with three bytes written.
abbrev filled : PendingUrb
filled = record sent_urb { buffer = 7 ∷ 8 ∷ 9 ∷ 0 ∷ []; actual_length = pos 3 }

fills : Fills (urb_of gamepad poll 0x81 type_interrupt) filled
unfolding urb_of is_in
fills = record {
  same_seqnum = refl;
  same_dir = refl;
  same_offset = refl;
  same_reply = refl;
  same_size = refl;
}

incoming : is_in filled.dir ≡ true
unfolding is_in
incoming = refl

completion_of-IsBounded_example :
    (filled.data_offset + reply_len filled ≤ length filled.buffer)
    × (length (completion_of filled false).data_bytes ≤ poll.buffer_length)
    × ((completion_of filled false).actual_length ≡ length (completion_of filled false).data_bytes)
completion_of-IsBounded_example =
    completion_of-IsBounded gamepad poll 0x81 type_interrupt filled false refl incoming fills

config_found : config gamepad.descriptors 1 ≡ some config_one
unfolding config
config_found = refl

interrupt_in_endpoints-polls_example :
    AreDistinct (interrupt_in_endpoints gamepad)
    × (has_address 0x81 (interrupt_in_endpoints gamepad)
        ≡ polls 0x81 (primary_alt_settings config_one))
interrupt_in_endpoints-polls_example =
    interrupt_in_endpoints-polls gamepad config_one 0x81 config_found

-- A kernel whose state is the list of the interfaces that the program owns; those from 8 on are not
-- to be had.
abbrev pub without : ℕ → List ℕ → List ℕ
without n [] = []
without n (m ∷ ms) = if m == n then without n ms else m ∷ without n ms

abbrev pub granted : ℕ → List ℕ → Result ℕ (Unit {0}) × List ℕ
granted n k = if has n (8 ∷ 9 ∷ []) then (err 16, k) else (ok tt, n ∷ k)

abbrev pub owner : Interfaces (List ℕ)
owner = record {
  disconnect_claim = granted;
  disconnect = λ n k. (ok tt, k);
  claim_interface = granted;
  release_interface = without;
  connect = λ n k. (err 11, k);
}

has-without : (n m : ℕ) (k : List ℕ) → has m (without n k) ≡ (if n == m then false else has m k)
has-without n m [] = ground arith
has-without n m (j ∷ k) = ground (arith, has-without n m k)

granted-ok :
    (n m : ℕ) (k : List ℕ) → (granted n k).0 ≡ ok tt → has m (granted n k).1 ≡ (has m k || n == m)
granted-ok n m k h = elim (Bool-cases (has n (8 ∷ 9 ∷ []))) [
  | inl busy ↦ cc (rw busy at h)
  | inr free ↦ rw free (ground arith)
]

granted-err : (n m e : ℕ) (k : List ℕ) → (granted n k).0 ≡ err e → has m (granted n k).1 ≡ has m k
granted-err n m e k h = elim (Bool-cases (has n (8 ∷ 9 ∷ []))) [
  | inl busy ↦ rw busy refl
  | inr free ↦ cc (rw free at h)
]

pub owner-Owns : Owns owner (λ k m. has m k)
owner-Owns = record {
  claims = granted-ok;
  claims_not = granted-err;
  takes = granted-ok;
  takes_not = granted-err;
  disconnects = λ n m k. refl;
  releases = has-without;
  connects = λ n m k. refl;
}

abbrev holding : Claims (List ℕ)
holding = record { claimed = 2 ∷ []; kernel = 2 ∷ [] }

claimed_three : (claim_each owner (0 ∷ 1 ∷ 2 ∷ []) holding).0 ≡ ok tt
unfolding claim_each claim_one
claimed_three = refl

release_all-owned_example :
    (has 2 (release_all owner holding).kernel ≡ false) × ((release_all owner holding).claimed ≡ [])
release_all-owned_example =
    release_all-owned owner (λ k m. has m k) owner-Owns holding 2 (λ m. refl)

-- Two URBs on their way, and a deadline that leaves one round.
cancel_pending-AllUnlinked_example :
    AllUnlinked
      (cancel_pending in_order gamepad 1
        (λ k. k)
        (record idle { pending = (5, false) ∷ (6, false) ∷ [] })).pending
cancel_pending-AllUnlinked_example =
    cancel_pending-AllUnlinked in_order gamepad 1 (λ k. k)
      (record idle { pending = (5, false) ∷ (6, false) ∷ [] })
      (unfold contains_key in (refl, (refl, tt)))
