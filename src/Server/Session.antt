-- ===== src/Server/Session.antt =====
-- crates/usbfwd-server/src/session.rs: the pump between a client and its device. The reader and the
-- reaper are the steps below, in any order; the mutex of the prefetcher makes its calls steps too.
pub mod Reader
pub mod Reaper
pub mod Accounts
pub mod Once
pub mod Drain
pub mod Keeps
pub mod Runs
pub mod Screens
pub mod OverUsbfs
pub mod Examples
use padwire.Prelude.{
  ℕ, zero, suc, ◌+◌, ◌%◌, ◌^◌, Bool, true, false, ◌||◌, not, Option, none, some, List, [], ◌∷◌,
  ◌++◌, length, ltb, if◌then◌else◌,
}
use padwire.Prelude.Int.{ℤ, pos, negsuc, as_i32}
use padwire.Usbip.Pdu.{RetSubmit}
use padwire.Usbip.Io.Transfer.{write_ret_submit, write_ret_unlink}
use padwire.Usbip.Io.Stream.{IoError}
use padwire.Server.Prefetch.{Prefetch}

abbrev pub outbox_depth : ℕ
outbox_depth = 512

pub record Stats : Type 0 where
  pub submitted : ℕ
  pub completed : ℕ
  pub unlinked : ℕ
  pub rejected : ℕ

-- `fetch_add(1)` on an `AtomicU64`.
abbrev pub fetch_add : ℕ → ℕ
fetch_add n = (n + 1) % 2 ^ 64

-- A reply on its way to the writer, kept as what it encodes.
pub data Answer : Type 0 where
  to_submit : ℕ → RetSubmit → List ℕ → Answer
  to_unlink : ℕ → ℤ → Answer

unfoldable pub bytes_of : Answer → List ℕ
bytes_of (to_submit seqnum ret report) = write_ret_submit seqnum ret report
bytes_of (to_unlink seqnum status) = write_ret_unlink seqnum status

abbrev pub default_ret : RetSubmit
default_ret = record {
  status = pos 0;
  actual_length = pos 0;
  start_frame = pos 0;
  number_of_packets = pos 0;
  error_count = pos 0;
}

unfoldable pub encode_error : ℕ → ℤ → Answer
encode_error seqnum status = to_submit seqnum (record default_ret { status = status }) []

-- `data.len() as i32`
abbrev pub len_i32 : List ℕ → ℤ
len_i32 report = as_i32 (length report % 2 ^ 32)

-- What one `try_send` finds: room, a full queue with the stop flag as it is then, or no writer.
pub data Attempt : Type 0 where
  sent : Attempt
  full : Bool → Attempt
  disconnected : Attempt

-- The channel with its capacity, and whether the writer still holds its end.
pub record Outbox : Type 0 where
  pub queued : List Answer
  pub open_end : Bool

unfoldable pub try_send : Outbox → Bool → Answer → Attempt × Outbox
try_send box stop a =
    if not box.open_end
    then (disconnected, box)
    else if ltb (length box.queued) outbox_depth
    then (sent, record box { queued = box.queued ++ a ∷ [] })
    else (full stop, box)

-- The attempts of `post`, one after each sleep; `none` while it still waits.
unfoldable pub post : List Attempt → Option Bool
post [] = none
post (sent ∷ rest) = some true
post (full true ∷ rest) = some false
post (full false ∷ rest) = post rest
post (disconnected ∷ rest) = some false

-- How a loop goes on: another round, the end of the session, an error of it, or a panic.
pub data Next : Type 0 where
  again : Next
  done : Next
  failed : IoError → Next
  panicked : Next

-- The state that the threads share, with the device's own state `D` and the replies that were
-- handed to the writer, oldest first.
pub record Session (D : Type 0) : Type 0 where
  pub prefetch : Prefetch
  pub dev : D
  pub stats : Stats
  pub posted : List Answer
  pub stop : Bool

module _ {D : Type 0} where
  abbrev pub count_submitted : Session D → Session D
  count_submitted s = record s {
    stats = record s.stats { submitted = fetch_add s.stats.submitted };
  }

  abbrev pub count_completed : Session D → Session D
  count_completed s = record s {
    stats = record s.stats { completed = fetch_add s.stats.completed };
  }

  abbrev pub count_unlinked : Session D → Session D
  count_unlinked s = record s { stats = record s.stats { unlinked = fetch_add s.stats.unlinked } }

  abbrev pub count_rejected : Session D → Session D
  count_rejected s = record s { stats = record s.stats { rejected = fetch_add s.stats.rejected } }

  -- A reply of the reader; `accepted` is what `post` returns.
  unfoldable pub reply : Bool → Answer → Session D → Next × Session D
  reply true a s = (again, record s { posted = s.posted ++ a ∷ [] })
  reply false a s = (done, s)
