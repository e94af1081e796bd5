-- ===== src/Server/Prefetch/Shutdown.antt =====
-- prefetch.rs, `shutdown`: the end of a session's prefetching.
use padwire.Prelude.{
  ℕ, ◌≡◌, refl, true, false, none, some, List, [], ◌∷◌, arith, inl, inr, Option-cases, map,
}
use padwire.Backend.{UsbBackend}
use padwire.Server.Prefetch
use padwire.Server.Prefetch.Endpoints.{Endpoint, EndpointMap, lookup, Every, Every-lookup}
use padwire.Server.Prefetch.{
  Prefetch, Inner, arm_one, arm_all, find_in_flight, unlink_waiter, shutdown_all, unlink_flight,
  is_some,
}
use padwire.Server.Prefetch.Calls.{Call, arm, take, deliver, unlink, shutdown, call, calls}

-- Of an endpoint that is out of use: whatever asks for it goes to the device itself.
pub record IsOff (ep : Endpoint) : Type 0 where
  pub disabled : ep.disabled ≡ true
  pub waiting : ep.waiting ≡ none
  pub captured : ep.captured ≡ []
  pub in_flight : ep.in_flight ≡ none

abbrev pub IsQuiet : Prefetch → Type 0
IsQuiet none = Unit {0}
IsQuiet (some inner) = Every IsOff inner.eps

IsOff-same :
    (ep : Endpoint)
    → IsOff ep
    → record ep { disabled = true; waiting = none; captured = []; in_flight = none } ≡ ep
IsOff-same ep h = ground arith

find_in_flight-off :
    (seqnum : ℕ) (eps : EndpointMap) → Every IsOff eps → find_in_flight seqnum eps ≡ none
unfolding find_in_flight
find_in_flight-off seqnum [] h = refl
find_in_flight-off seqnum ((address, ep) ∷ eps) h =
    rw h.0.in_flight (find_in_flight-off seqnum eps h.1)

unlink_waiter-off :
    (seqnum : ℕ) (eps : EndpointMap) → Every IsOff eps → unlink_waiter seqnum eps ≡ (false, eps)
unfolding unlink_waiter
unlink_waiter-off seqnum [] h = refl
unlink_waiter-off seqnum ((address, ep) ∷ eps) h = ground (arith, unlink_waiter-off seqnum eps h.1)

module _ {D : Type 0} (dev : UsbBackend D) where
  shutdown_all-IsOff : (eps : EndpointMap) (d : D) → Every IsOff (shutdown_all dev eps d).0
  unfolding shutdown_all
  shutdown_all-IsOff [] d = tt
  shutdown_all-IsOff ((address, ep) ∷ eps) d = (ground arith, shutdown_all-IsOff eps _)

  pub shutdown-IsQuiet :
      (p : Prefetch) (d : D) → IsQuiet (padwire.Server.Prefetch.shutdown dev p d).0
  unfolding padwire.Server.Prefetch.shutdown
  shutdown-IsQuiet none d = tt
  shutdown-IsQuiet (some inner) d = shutdown_all-IsOff inner.eps d

  shutdown_all-off :
      (eps : EndpointMap) (d : D) → Every IsOff eps → shutdown_all dev eps d ≡ (eps, d)
  unfolding shutdown_all
  shutdown_all-off [] d h = refl
  shutdown_all-off ((address, ep) ∷ eps) d h =
      let rest : shutdown_all dev eps (unlink_flight dev ep.in_flight d) ≡ (eps, d) =
        simp h.0.in_flight (shutdown_all-off eps d h.1) in
      cc (rest, IsOff-same ep h.0)

  arm_one-off :
      (address : ℕ) (inner : Inner) (d : D)
      → Every IsOff inner.eps
      → arm_one dev address inner d ≡ (inner, d)
  unfolding arm_one
  arm_one-off address inner d h = elim (Option-cases (lookup address inner.eps)) [
    | inl e ↦ rw (e, arm_one) refl
    | inr (ep, e) ↦ rw (e, arm_one) (simp (Every-lookup IsOff address inner.eps h e).disabled refl)
  ]

  arm_all-off :
      (addrs : List ℕ) (inner : Inner) (d : D)
      → Every IsOff inner.eps
      → arm_all dev addrs inner d ≡ (inner, d)
  unfolding arm_all
  arm_all-off [] inner d h = refl
  arm_all-off (address ∷ addrs) inner d h =
      rw (arm_one-off address inner d h) (arm_all-off addrs inner d h)

  call-off : (c : Call) (p : Prefetch) (d : D) → IsQuiet p → call dev c (p, d) ≡ (p, d)
  unfolding call padwire.Server.Prefetch.arm padwire.Server.Prefetch.take
      padwire.Server.Prefetch.deliver padwire.Server.Prefetch.unlink
      padwire.Server.Prefetch.shutdown
  call-off arm none d q = refl
  call-off arm (some inner) d q = rw (arm_all-off (map (λ e. e.0) inner.eps) inner d q) refl
  call-off (take address seqnum max_len) none d q = refl
  call-off (take address seqnum max_len) (some inner) d q =
      elim (Option-cases (lookup address inner.eps)) [
        | inl e ↦ rw (e, padwire.Server.Prefetch.take) refl
        | inr (ep, e) ↦
            rw (e, padwire.Server.Prefetch.take)
              (simp (Every-lookup IsOff address inner.eps q e).disabled refl)
      ]
  call-off (deliver seqnum status report) none d q = refl
  call-off (deliver seqnum status report) (some inner) d q =
      rw (find_in_flight-off seqnum inner.eps q, padwire.Server.Prefetch.deliver) refl
  call-off (unlink seqnum) none d q = refl
  call-off (unlink seqnum) (some inner) d q = rw (unlink_waiter-off seqnum inner.eps q) refl
  call-off shutdown none d q = refl
  call-off shutdown (some inner) d q = rw (shutdown_all-off inner.eps d q) refl

  calls-off : (cs : List Call) (p : Prefetch) (d : D) → IsQuiet p → calls dev cs (p, d) ≡ (p, d)
  unfolding calls
  calls-off [] p d q = refl
  calls-off (c ∷ cs) p d q = rw (call-off c p d q) (calls-off cs p d q)

  -- Once a session has shut its prefetcher down, no calls change it or reach the device.
  pub calls-shutdown :
      (cs : List Call) (p : Prefetch) (d : D)
      → calls dev cs (padwire.Server.Prefetch.shutdown dev p d)
        ≡ padwire.Server.Prefetch.shutdown dev p d
  calls-shutdown cs p d = calls-off cs _ _ (shutdown-IsQuiet p d)

  -- Of a map's URBs: they are unlinked on the device one after another.
  unfoldable pub unlink_flights : EndpointMap → D → D
  unlink_flights [] d = d
  unlink_flights ((address, ep) ∷ eps) d = unlink_flights eps (unlink_flight dev ep.in_flight d)

  pub shutdown_all-unlinks :
      (eps : EndpointMap) (d : D) → (shutdown_all dev eps d).1 ≡ unlink_flights eps d
  unfolding shutdown_all unlink_flights
  shutdown_all-unlinks [] d = refl
  shutdown_all-unlinks ((address, ep) ∷ eps) d = shutdown_all-unlinks eps _
