-- ===== src/Backend/Usbfs/Device.antt =====
-- usbfs.rs: URBs on their way to the kernel and back. The kernel is a parameter: it keeps the
-- allocation of each URB that it accepts, and hands the same one back, filled in. The lock makes
-- each method one step.
use padwire.Prelude.{
  ℕ, ◌+◌, ◌-◌, Bool, true, false, ◌||◌, Option, none, some, List, [], ◌∷◌, ◌++◌, length, take, drop,
  replicate, max, min, ◌==◌, ltb, if◌then◌else◌, Result, ok, err,
}
use padwire.Prelude.Int.{ℤ, pos, negsuc, max_zero}
use padwire.Usbip.Pdu.{Direction, is_in}
use padwire.Usbip.Io.Stream.{IoError, of_kind, other_kind, permission_denied, connection_reset}
use padwire.Backend.{UrbRequest, UrbCompletion, SubmitError, urb, handled, fatal}
use padwire.Backend.Descriptors.{Descriptors, le16}
use padwire.Backend.Usbfs.Requests.{
  EpTypes, urb_type_for, usbfs_flags, Special, set_address, classify, type_control, invalid, busy,
}

abbrev pub setup_len : ℕ
setup_len = 8

-- The allocation of one URB, with the fields of the kernel's struct that the program reads or
-- writes.
pub record PendingUrb : Type 0 where
  pub typ : ℕ
  pub endpoint : ℕ
  pub flags : ℕ
  pub buffer_length : ℕ
  pub status : ℤ
  pub actual_length : ℤ
  pub buffer : List ℕ
  pub seqnum : ℕ
  pub dir : Direction
  pub data_offset : ℕ
  pub max_reply : ℕ

-- The system calls, over the kernel's state `K`. An error is an `errno`.
pub record Kernel (K : Type 0) : Type 0 where
  pub submit_urb : PendingUrb → K → Result ℕ (Unit {0}) × K
  pub discard_urb : ℕ → K → Bool × K
  pub reap_urb : K → Result ℕ (Option PendingUrb) × K
  pub change : Special → K → Result ℕ (Unit {0}) × K

-- The entry of an accepted URB: its seqnum, and whether it has been unlinked.
abbrev pub Entries : Type 0
Entries = List (ℕ × Bool)

pub record State (K : Type 0) : Type 0 where
  pub pending : Entries
  pub kernel : K

-- What does not change while the device is open.
pub record Fixed : Type 0 where
  pub types : EpTypes
  pub caps : ℕ
  pub max_transfer : ℕ
  pub descriptors : Descriptors
  pub config_value : ℕ

abbrev pub eagain : ℕ
eagain = 11

abbrev pub is_gone : ℕ → Bool
is_gone e = e == 19 || e == 108

-- The kind of an `errno`, of those that the program tells apart.
unfoldable pub os_error : ℕ → IoError
os_error e =
    if e == 1 || e == 13
    then of_kind permission_denied
    else if e == 104
    then of_kind connection_reset
    else of_kind other_kind

unfoldable pub contains_key : ℕ → Entries → Bool
contains_key s [] = false
contains_key s ((n, u) ∷ entries) = n == s || contains_key s entries

unfoldable pub set_unlinked : ℕ → Entries → Entries
set_unlinked s [] = []
set_unlinked s ((n, u) ∷ entries) =
    if n == s then (n, true) ∷ entries else (n, u) ∷ set_unlinked s entries

-- `remove(…).map(…).unwrap_or(false)`, and what is left.
unfoldable pub remove : ℕ → Entries → Bool × Entries
remove s [] = (false, [])
remove s ((n, u) ∷ entries) =
    let (found, rest) = remove s entries in if n == s then (u, entries) else (found, (n, u) ∷ rest)

-- What `tweak_special_request` makes of a system call.
unfoldable pub tweaked : Result ℕ (Unit {0}) → SubmitError
tweaked (ok u) = handled (pos 0)
tweaked (err e) = if is_gone e then fatal (os_error e) else handled (pos 0)

-- `Urb(-errno)`; an `errno` is positive.
unfoldable pub refused : ℕ → SubmitError
refused e = if is_gone e then fatal (os_error e) else urb (negsuc (e - 1))

abbrev pub is_control : ℕ → Bool
is_control t = t == type_control

unfoldable pub payload_len : UrbRequest → ℕ → ℕ
payload_len req t =
    if is_control t then max req.buffer_length (le16 req.setup 6) else req.buffer_length

abbrev pub offset_of : ℕ → ℕ
offset_of t = if is_control t then setup_len else 0

-- The bytes behind `urb.buffer`: the setup packet of a control transfer, and the data that goes
-- out, in zeros.
unfoldable pub buffer_of : UrbRequest → ℕ → List ℕ
unfolding payload_len
buffer_of req t =
    let total = offset_of t + payload_len req t in
    let head = if is_control t then req.setup else [] in
    let sent = if is_in req.dir then [] else take (payload_len req t) req.data_bytes in
    head ++ (sent ++ replicate (max total 1 - (length head + length sent)) 0)

unfoldable pub urb_of : Fixed → UrbRequest → ℕ → ℕ → PendingUrb
unfolding buffer_of
urb_of fixed req address t = record {
  typ = t;
  endpoint = address;
  flags = usbfs_flags fixed.caps req t;
  buffer_length = offset_of t + payload_len req t;
  status = pos 0;
  actual_length = pos 0;
  buffer = buffer_of req t;
  seqnum = req.seqnum;
  dir = req.dir;
  data_offset = offset_of t;
  max_reply = req.buffer_length;
}

-- How many bytes are taken from the buffer of an IN transfer, behind its offset.
abbrev pub reply_len : PendingUrb → ℕ
reply_len p = min (min (max_zero p.actual_length) p.max_reply) (length p.buffer - p.data_offset)

-- What a completed URB brings back.
unfoldable pub reply_data : PendingUrb → List ℕ
reply_data p = if is_in p.dir then take (reply_len p) (drop p.data_offset p.buffer) else []

unfoldable pub completion_of : PendingUrb → Bool → UrbCompletion
unfolding reply_data
completion_of p unlinked = record {
  seqnum = p.seqnum;
  status = p.status;
  actual_length = if is_in p.dir then length (reply_data p) else max_zero p.actual_length;
  data_bytes = reply_data p;
  unlinked = unlinked;
}

module _ {K : Type 0} (sys : Kernel K) (fixed : Fixed) where
  -- The system call, and the table if the kernel has accepted the URB.
  unfoldable pub hand_over : PendingUrb → State K → Result SubmitError (Unit {0}) × State K
  hand_over p s =
      let (answer, k) = sys.submit_urb p s.kernel in
      elim answer [
        | ok u ↦ (ok tt, record { pending = (p.seqnum, false) ∷ s.pending; kernel = k })
        | err e ↦ (err (refused e), record s { kernel = k })
      ]

  unfoldable pub submit_plain :
      UrbRequest → ℕ → ℕ → State K → Result SubmitError (Unit {0}) × State K
  unfolding hand_over
  submit_plain req address t s =
      if ltb fixed.max_transfer (payload_len req t)
      then (err (urb invalid), s)
      else if contains_key req.seqnum s.pending
      then (err (urb busy), s)
      else hand_over (urb_of fixed req address t) s

  -- SET_ADDRESS is answered without a system call.
  unfoldable pub tweak : Special → State K → Result SubmitError (Unit {0}) × State K
  unfolding tweaked
  tweak (set_address a) s = (err (handled (pos 0)), s)
  tweak special s =
      let (answer, k) = sys.change special s.kernel in
      (err (tweaked answer), record s { kernel = k })

  unfoldable pub submit_typed :
      UrbRequest → ℕ → ℕ → State K → Result SubmitError (Unit {0}) × State K
  unfolding submit_plain tweak
  submit_typed req address t s =
      if is_control t
      then elim (classify req.setup) [
        | none ↦ submit_plain req address t s
        | some special ↦ tweak special s
      ]
      else submit_plain req address t s

  unfoldable pub submit : UrbRequest → State K → Result SubmitError (Unit {0}) × State K
  unfolding submit_typed
  submit req s = elim (urb_type_for fixed.types req.ep req.dir) [
    | err e ↦ (err e, s)
    | ok (address, t) ↦ submit_typed req address t s
  ]

  unfoldable pub unlink : ℕ → State K → Result IoError Bool × State K
  unlink seqnum s =
      let (caught, k) = sys.discard_urb seqnum s.kernel in
      if contains_key seqnum s.pending
      then (ok caught, record { pending = set_unlinked seqnum s.pending; kernel = k })
      else (ok false, s)

  unfoldable pub reap : State K → Result IoError (Option UrbCompletion) × State K
  unfolding completion_of
  reap s =
      let (answer, k) = sys.reap_urb s.kernel in
      elim answer [
        | err e ↦ (if e == eagain then ok none else err (os_error e), record s { kernel = k })
        | ok none ↦ (ok none, record s { kernel = k })
        | ok (some p) ↦
            let (unlinked, left) = remove p.seqnum s.pending in
            (ok (some (completion_of p unlinked)), record { pending = left; kernel = k })
      ]
