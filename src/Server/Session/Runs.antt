-- ===== src/Server/Session/Runs.antt =====
-- session.rs: whole runs of a session, with the reader and the reaper in any order.
use padwire.Prelude.{
  ℕ, ◌+◌, ◌≤◌, ◌<◌, ◌≡◌, refl, Bool, true, false, Option, List, [], ◌∷◌, ◌==◌, arith,
}
use padwire.Usbip.Pdu.{Body, cmd_submit, cmd_unlink, ret_submit, ret_unlink}
use padwire.Usbip.Io.Transfer.{Pdu}
use padwire.Backend.{UsbBackend}
use padwire.Server.Chord.{Detector}
use padwire.Server.Prefetch
use padwire.Server.Prefetch.Endpoints.{EndpointMap, insert}
use padwire.Server.Prefetch.{
  new_endpoint, collect, enabled, Prefetch, Take, ready, waiting, pass_through, Reply,
  internal_base, owns,
}
use padwire.Server.Prefetch.Calls.{IsWell, shutdown-IsWell, arm-IsWell, new-IsWell}
use padwire.Server.Session.{Session}
use padwire.Server.Session.Reader.{on_pdu}
use padwire.Server.Session.Reaper.{Reaping, reap_one}
use padwire.Server.Session.Accounts.{
  one, waiters, CompletesOnce, waiting_count, shutdown-due, arm-due,
}
use padwire.Server.Session.Drain.{reap_one-total}
use padwire.Server.Session.Keeps.{on_submit-IsWell, on_unlink-IsWell, on_reap-IsWell}
use padwire.Server.Session.Once.{answers, total, on_submit-total, on_unlink-total}

-- A step of a session: a message that the reader handles, a completion that the reaper fetches,
-- with what `post` returns and the time, or the shutdown of the prefetcher.
pub data Event : Type 0 where
  message : Bool → Pdu → Event
  completion : Bool → ℕ → Event
  winding_down : Event

abbrev submits_one : ℕ → ℕ → Body → ℕ
submits_one s seqnum (cmd_submit c) = one (seqnum == s)
submits_one s seqnum _ = 0

-- How many submits of a run have a seqnum.
unfoldable pub submits : ℕ → List Event → ℕ
submits s [] = 0
submits s (message accepted p ∷ events) =
    submits_one s p.header.base.seqnum p.header.body + submits s events
submits s (e ∷ events) = submits s events

module _ {D : Type 0} (dev : UsbBackend D) where
  unfoldable pub step : Event → Reaping D → Reaping D
  step (message accepted p) r = record r { session = (on_pdu dev accepted p r.session).1 }
  step (completion accepted now) r = (reap_one dev accepted now r).1
  step winding_down r =
      let (p, d) = Prefetch.shutdown dev r.session.prefetch r.session.dev in
      record r { session = record r.session { prefetch = p; dev = d } }

  -- Steps that a thread which has ended would not make are not left out: what holds of every run
  -- holds of those of the session.
  unfoldable pub run : List Event → Reaping D → Reaping D
  run [] r = r
  run (e ∷ events) r = run events (step e r)

  -- A session at its start, its prefetcher armed.
  unfoldable pub begin : Bool → Option Detector → D → Reaping D
  begin prefetching det d =
      let (p, d') = Prefetch.arm dev (Prefetch.new dev prefetching) d in
      record {
        session = record {
          prefetch = p;
          dev = d';
          stats = record { submitted = 0; completed = 0; unlinked = 0; rejected = 0 };
          posted = [];
          stop = false;
        };
        detector = det;
        chord_fired = false;
      }

  body-IsWell :
      (accepted : Bool) (p : Pdu) (b : Body) (S : Session D)
      → p.header.body ≡ b
      → IsWell S.prefetch
      → IsWell (on_pdu dev accepted p S).1.prefetch
  unfolding on_pdu
  body-IsWell accepted p (cmd_submit c) S e w =
      rw (e, on_pdu) (on_submit-IsWell dev accepted p c S w)
  body-IsWell accepted p (cmd_unlink u) S e w =
      rw (e, on_pdu) (on_unlink-IsWell dev accepted p.header.base.seqnum u S w)
  body-IsWell accepted p (ret_submit r) S e w = rw (e, on_pdu) w
  body-IsWell accepted p (ret_unlink r) S e w = rw (e, on_pdu) w

  step-IsWell :
      (e : Event) (r : Reaping D) → IsWell r.session.prefetch → IsWell (step e r).session.prefetch
  unfolding step reap_one
  step-IsWell (message accepted p) r w = body-IsWell accepted p p.header.body r.session refl w
  step-IsWell (completion accepted now) r w =
      let (answer, d) = dev.reap r.session.dev in
      on_reap-IsWell dev accepted now answer (record r { session = record r.session { dev = d } }) w
  step-IsWell winding_down r w = shutdown-IsWell dev r.session.prefetch r.session.dev w

waiters-insert :
    (s k n m : ℕ) (eps : EndpointMap) → waiters s (insert k (new_endpoint n m) eps) ≤ waiters s eps
unfolding waiters insert new_endpoint
waiters-insert s k n m [] = omega arith
waiters-insert s k n m ((j, ep) ∷ eps) = ground (arith, waiters-insert s k n m eps)

waiters-collect :
    (s : ℕ) (pairs : List (ℕ × ℕ)) (eps : EndpointMap)
    → waiters s (collect pairs eps) ≤ waiters s eps
unfolding collect
waiters-collect s [] eps = omega arith
waiters-collect s ((address, max_packet) ∷ pairs) eps =
    let eps' = insert address (new_endpoint address max_packet) eps in
    omega (arith, waiters-collect s pairs eps', waiters-insert s address address max_packet eps)

waiters-enabled : (s : ℕ) (eps : EndpointMap) → waiting_count s (enabled eps) ≤ waiters s eps
unfolding enabled
waiters-enabled s [] = omega arith
waiters-enabled s (e ∷ eps) = omega arith

new-waiting_count :
    {D : Type 0} (dev : UsbBackend D) (on : Bool) (s : ℕ)
    → waiting_count s (Prefetch.new dev on) ≤ 0
unfolding Prefetch.new waiters
new-waiting_count dev false s = omega arith
new-waiting_count dev true s = omega (
  arith,
  waiters-enabled s (collect dev.interrupt_in_endpoints []),
  waiters-collect s dev.interrupt_in_endpoints [],
)

module _ {D : Type 0} (dev : UsbBackend D) (pending : D → ℕ → ℕ)
    (v : CompletesOnce dev pending) where
  body-total :
      (s : ℕ) (accepted : Bool) (p : Pdu) (b : Body) (S : Session D)
      → p.header.body ≡ b
      → s < internal_base
      → IsWell S.prefetch
      → total dev pending v s (on_pdu dev accepted p S).1
        ≤ total dev pending v s S + submits_one s p.header.base.seqnum b
  unfolding on_pdu
  body-total s accepted p (cmd_submit c) S e low w =
      rw (e, on_pdu) (on_submit-total dev pending v s accepted p c S low w)
  body-total s accepted p (cmd_unlink u) S e low w =
      rw (e, on_pdu)
        (omega (arith, on_unlink-total dev pending v s accepted p.header.base.seqnum u S))
  body-total s accepted p (ret_submit r) S e low w = rw (e, on_pdu) (omega arith)
  body-total s accepted p (ret_unlink r) S e low w = rw (e, on_pdu) (omega arith)

  step-total :
      (s : ℕ) (e : Event) (events : List Event) (r : Reaping D)
      → s < internal_base
      → IsWell r.session.prefetch
      → total dev pending v s (step dev e r).session + submits s events
        ≤ total dev pending v s r.session + submits s (e ∷ events)
  unfolding step submits
  step-total s (message accepted p) events r low w =
      omega (arith, body-total s accepted p p.header.body r.session refl low w)
  step-total s (completion accepted now) events r low w =
      omega (arith, reap_one-total dev pending v s accepted now r low w)
  step-total s winding_down events r low w =
      omega (arith, shutdown-due dev pending v s r.session.prefetch r.session.dev)

  run-total :
      (s : ℕ) (events : List Event) (r : Reaping D)
      → s < internal_base
      → IsWell r.session.prefetch
      → total dev pending v s (run dev events r).session
        ≤ total dev pending v s r.session + submits s events
  unfolding run
  run-total s [] r low w = omega arith
  run-total s (e ∷ events) r low w = omega (
    arith,
    run-total s events (step dev e r) low (step-IsWell dev e r w),
    step-total s e events r low w,
  )

  -- Over any run, a seqnum of the client below the internal range is answered at most as often as
  -- it was submitted, with and without prefetching: of a device that completes each URB at most
  -- once, and has none of that seqnum to complete at the start.
  pub answers-le-submits :
      (s : ℕ) (events : List Event) (prefetching : Bool) (det : Option Detector) (d : D)
      → s < internal_base
      → pending d s ≡ 0
      → answers s (run dev events (begin dev prefetching det d)).session.posted ≤ submits s events
  unfolding begin answers
  answers-le-submits s events prefetching det d low none_left =
      let w = new-IsWell dev prefetching in
      omega (
        arith,
        run-total s events (begin dev prefetching det d) low
            (arm-IsWell dev (Prefetch.new dev prefetching) d w),
        arm-due dev pending v s (Prefetch.new dev prefetching) d low w.0,
        new-waiting_count dev prefetching s,
      )
