-- ===== src/Server/Prefetch/Calls.antt =====
-- prefetch.rs: the calls that a session makes of it, in any order and with any device.
use padwire.Prelude.{ℕ, ◌≡◌, refl, ◌∙◌, sym, subst, Bool, List, [], ◌∷◌}
use padwire.Prelude.Int.{ℤ}
use padwire.Backend.{UsbBackend}
use padwire.Server.Prefetch
use padwire.Server.Prefetch.{Prefetch, new}
use padwire.Server.Prefetch.Keys.{
  addresses, Distinct, addresses-new, addresses-arm, addresses-take, addresses-deliver,
  addresses-unlink, addresses-shutdown,
}
use padwire.Server.Prefetch.Invariant.{Inv, arm-Inv, take-Inv}
use padwire.Server.Prefetch.Kept.{new-Inv, deliver-Inv, unlink-Inv, shutdown-Inv}

pub data Call : Type 0 where
  arm : Call
  take : ℕ → ℕ → ℕ → Call
  deliver : ℕ → ℤ → List ℕ → Call
  unlink : ℕ → Call
  shutdown : Call

-- What a prefetcher always is.
abbrev pub IsWell : Prefetch → Type 0
IsWell p = Inv p × Distinct (addresses p)

module _ {D : Type 0} (dev : UsbBackend D) where
  unfoldable pub call : Call → Prefetch × D → Prefetch × D
  call arm (p, d) = padwire.Server.Prefetch.arm dev p d
  call (take address seqnum max_len) (p, d) =
      let (answer, p', d') = padwire.Server.Prefetch.take dev p address seqnum max_len d in (p', d')
  call (deliver seqnum status report) (p, d) =
      let (reply, p', d') = padwire.Server.Prefetch.deliver dev p seqnum status report d in (p', d')
  call (unlink seqnum) (p, d) = ((padwire.Server.Prefetch.unlink p seqnum).1, d)
  call shutdown (p, d) = padwire.Server.Prefetch.shutdown dev p d

  unfoldable pub calls : List Call → Prefetch × D → Prefetch × D
  calls [] s = s
  calls (c ∷ cs) s = calls cs (call c s)

  call-Inv : (c : Call) (p : Prefetch) (d : D) → IsWell p → Inv (call c (p, d)).0
  unfolding call
  call-Inv arm p d (v, u) = arm-Inv dev p d v
  call-Inv (take address seqnum max_len) p d (v, u) = take-Inv dev p address seqnum max_len d v
  call-Inv (deliver seqnum status report) p d (v, u) = deliver-Inv dev p seqnum status report d v u
  call-Inv (unlink seqnum) p d (v, u) = unlink-Inv p seqnum v
  call-Inv shutdown p d (v, u) = shutdown-Inv dev p d v

  addresses-call : (c : Call) (p : Prefetch) (d : D) → addresses (call c (p, d)).0 ≡ addresses p
  unfolding call
  addresses-call arm p d = addresses-arm dev p d
  addresses-call (take address seqnum max_len) p d = addresses-take dev p address seqnum max_len d
  addresses-call (deliver seqnum status report) p d = addresses-deliver dev p seqnum status report d
  addresses-call (unlink seqnum) p d = addresses-unlink p seqnum
  addresses-call shutdown p d = addresses-shutdown dev p d

  calls-IsWell : (cs : List Call) (p : Prefetch) (d : D) → IsWell p → IsWell (calls cs (p, d)).0
  unfolding calls
  calls-IsWell [] p d w = w
  calls-IsWell (c ∷ cs) p d w =
      let (p', d') = call c (p, d) in
      calls-IsWell cs p' d' (call-Inv c p d w, subst Distinct (sym (addresses-call c p d)) w.1)

  -- Whatever calls are made and however the device answers them, every endpoint stays sound: its
  -- URB has an internal seqnum, at most four reports are buffered, nobody waits while there is a
  -- report, a disabled endpoint has nothing in flight, and eight failures in a row disable it.
  pub calls-Inv : (on : Bool) (cs : List Call) (d : D) → Inv (calls cs (new dev on, d)).0
  calls-Inv on cs d = (calls-IsWell cs (new dev on) d (new-Inv dev on, addresses-new dev on)).0

  -- Over any calls the endpoints of a prefetcher are those that it found when it was made.
  pub addresses-calls :
      (cs : List Call) (p : Prefetch) (d : D) → addresses (calls cs (p, d)).0 ≡ addresses p
  unfolding calls
  addresses-calls [] p d = refl
  addresses-calls (c ∷ cs) p d =
      let (p', d') = call c (p, d) in addresses-calls cs p' d' ∙ addresses-call c p d

  pub take-IsWell :
      (p : Prefetch) (k seqnum max_len : ℕ) (d : D)
      → IsWell p
      → IsWell (padwire.Server.Prefetch.take dev p k seqnum max_len d).1
  take-IsWell p k seqnum max_len d (v, u) = (
    take-Inv dev p k seqnum max_len d v,
    subst Distinct (sym (addresses-take dev p k seqnum max_len d)) u,
  )

  pub deliver-IsWell :
      (p : Prefetch) (seqnum : ℕ) (status : ℤ) (report : List ℕ) (d : D)
      → IsWell p
      → IsWell (padwire.Server.Prefetch.deliver dev p seqnum status report d).1
  deliver-IsWell p seqnum status report d (v, u) = (
    deliver-Inv dev p seqnum status report d v u,
    subst Distinct (sym (addresses-deliver dev p seqnum status report d)) u,
  )

  pub shutdown-IsWell :
      (p : Prefetch) (d : D) → IsWell p → IsWell (padwire.Server.Prefetch.shutdown dev p d).0
  shutdown-IsWell p d (v, u) =
      (shutdown-Inv dev p d v, subst Distinct (sym (addresses-shutdown dev p d)) u)

  pub arm-IsWell :
      (p : Prefetch) (d : D) → IsWell p → IsWell (padwire.Server.Prefetch.arm dev p d).0
  arm-IsWell p d (v, u) = (arm-Inv dev p d v, subst Distinct (sym (addresses-arm dev p d)) u)

  pub new-IsWell : (on : Bool) → IsWell (new dev on)
  new-IsWell on = (new-Inv dev on, addresses-new dev on)

pub unlink-IsWell :
    (p : Prefetch) (seqnum : ℕ) → IsWell p → IsWell (padwire.Server.Prefetch.unlink p seqnum).1
unlink-IsWell p seqnum (v, u) =
    (unlink-Inv p seqnum v, subst Distinct (sym (addresses-unlink p seqnum)) u)
