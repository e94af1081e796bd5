-- ===== src/Server/Session/Reaper.antt =====
-- session.rs, `reaper_loop`: what the session does with each completion of the device.
use padwire.Prelude.{
  ℕ, ◌%◌, ◌^◌, Bool, true, false, ◌||◌, not, Option, none, some, List, [], ◌∷◌, ◌++◌, Result, ok,
  err, if◌then◌else◌,
}
use padwire.Prelude.Int.{as_i32}
use padwire.Usbip.Io.Stream.{IoError}
use padwire.Backend.{UsbBackend, UrbCompletion}
use padwire.Server.Names.{Name}
use padwire.Server.Chord.{Detector, feed}
use padwire.Server.Toggle
use padwire.Server.Toggle.{Toggle}
use padwire.Server.Prefetch
use padwire.Server.Prefetch.{Reply, owns, is_zero}
use padwire.Server.Session.{Session, Answer, to_submit, default_ret, len_i32, count_completed}

abbrev pub is_empty : List ℕ → Bool
is_empty [] = true
is_empty (b ∷ bs) = false

-- A completion as it goes on, with whether the chord has fired, and the detector.
unfoldable pub screen : Option Detector → UrbCompletion → ℕ → Bool × Option Detector × UrbCompletion
screen none c now = (false, none, c)
screen (some det) c now =
    let (v, det') = feed det c.data_bytes now in
    if not (is_zero c.status) || is_empty c.data_bytes then (false, some det, c) else (
      v.fired,
      some det',
      if v.swallow then record c { data_bytes = []; actual_length = 0 } else c,
    )

-- Whether the loop over the completions goes on.
pub data After : Type 0 where
  more : After
  ended : After

-- A state of the reaper's loop.
pub record Reaping (D : Type 0) : Type 0 where
  pub session : Session D
  pub detector : Option Detector
  pub chord_fired : Bool

module _ {D : Type 0} where
  -- A reply of the reaper; `accepted` is what `post` returns.
  unfoldable pub fill : Bool → Answer → Session D → After × Session D
  fill true a s = (more, record s { posted = s.posted ++ a ∷ [] })
  fill false a s = (ended, record s { stop = true })

  unfoldable pub delivered : Bool → Option Reply → Session D → After × Session D
  unfolding fill
  delivered accepted none s = (more, s)
  delivered accepted (some (seqnum, status, report)) s =
      fill accepted
        (to_submit seqnum (record default_ret { status = status; actual_length = len_i32 report })
          report)
        (count_completed s)

  unfoldable pub answered : Bool → UrbCompletion → Session D → After × Session D
  unfolding fill
  answered accepted c s =
      fill accepted
        (to_submit c.seqnum
          (record default_ret {
            status = c.status;
            actual_length = as_i32 (c.actual_length % 2 ^ 32);
          })
          c.data_bytes)
        (count_completed s)

module _ {D : Type 0} (dev : UsbBackend D) where
  -- A completion that is not an unlinked one, as `screen` leaves it.
  unfoldable pub pass_on : Bool → UrbCompletion → Session D → After × Session D
  unfolding delivered answered
  pass_on accepted c s =
      let (owed, p, d) = Prefetch.deliver dev s.prefetch c.seqnum c.status c.data_bytes s.dev in
      if owns c.seqnum
      then delivered accepted owed (record s { prefetch = p; dev = d })
      else answered accepted c s

  unfoldable pub reaped : Bool → ℕ → UrbCompletion → Reaping D → After × Reaping D
  unfolding pass_on screen
  reaped accepted now c r =
      let (fired, det, c') = screen r.detector c now in
      let (after, s) = pass_on accepted c' r.session in
      if c.unlinked
      then (more, r)
      else (after, record { session = s; detector = det; chord_fired = r.chord_fired || fired })

  -- What `reap` gave.
  unfoldable pub on_reap :
      Bool → ℕ → Result IoError (Option UrbCompletion) → Reaping D → After × Reaping D
  unfolding reaped
  on_reap accepted now (ok (some c)) r = reaped accepted now c r
  on_reap accepted now (ok none) r = (ended, r)
  on_reap accepted now (err e) r = (ended, record r { session = record r.session { stop = true } })

  unfoldable pub reap_one : Bool → ℕ → Reaping D → After × Reaping D
  unfolding on_reap
  reap_one accepted now r =
      let (answer, d) = dev.reap r.session.dev in
      on_reap accepted now answer (record r { session = record r.session { dev = d } })

  -- The rounds of the loop, each with what `post` would return and the time; `more` where they are
  -- used up.
  unfoldable pub reap_loop : List (Bool × ℕ) → Reaping D → After × Reaping D
  unfolding reap_one
  reap_loop [] r = (more, r)
  reap_loop ((accepted, now) ∷ rounds) r =
      let (after, r') = reap_one accepted now r in
      elim after [ more ↦ reap_loop rounds r' | ended ↦ (ended, r') ]

pub record Wake : Type 0 where
  pub ready : Bool
  pub gone : Bool

-- What follows the loop, for a session with a hotkey: whether the thread goes on, and the toggle.
unfoldable pub after_drain : Bool → Wake → Name → Toggle → Bool × Toggle
after_drain fired wake busid toggle =
    if fired then (false, (Toggle.suspend toggle busid).1) else (not wake.gone, toggle)
