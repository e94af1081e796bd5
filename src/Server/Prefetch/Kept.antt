-- ===== src/Server/Prefetch/Kept.antt =====
-- prefetch.rs: the invariant of every endpoint over any sequence of calls.
use padwire.Prelude.{
  ℕ, ◌≡◌, refl, ap, sym, ◌∙◌, Bool, true, false, Option, none, some, List, [], ◌∷◌, arith, inl, inr,
  Bool-cases, Option-cases, ◌==◌,
}
use padwire.Prelude.Int.{ℤ}
use padwire.Backend.{UsbBackend}
use padwire.Server.Prefetch.Endpoints.{
  Endpoint, EndpointMap, lookup, Every, Every-lookup, Every-insert,
}
use padwire.Server.Prefetch.{
  Prefetch, Inner, new_endpoint, collect, enabled, find_in_flight, unlink_waiter, unlink, new,
  deliver_to, deliver, shutdown_all, shutdown, is_seqnum, is_waiter,
}
use padwire.Server.Prefetch.Keys.{keys, addresses, has_key, Distinct}
use padwire.Server.Prefetch.Invariant.{IsSound, IsReady, Inv, completed-IsSound, rearm-Inv}

has_key-lookup : (k : ℕ) (eps : EndpointMap) → has_key k (keys eps) ≡ false → lookup k eps ≡ none
unfolding lookup
has_key-lookup k [] h = refl
has_key-lookup k ((j, ep) ∷ eps) h = ground (arith, has_key-lookup k eps)

find_in_flight-key :
    (seqnum : ℕ) (eps : EndpointMap) {address : ℕ}
    → find_in_flight seqnum eps ≡ some address
    → has_key address (keys eps) ≡ true
unfolding find_in_flight
find_in_flight-key seqnum [] e = cc
find_in_flight-key seqnum ((j, ep) ∷ eps) {address} e =
    elim (Bool-cases (is_seqnum ep.in_flight seqnum)) [
      | inl hit ↦ ground (arith, rw hit at e)
      | inr miss ↦ ground (arith, find_in_flight-key seqnum eps (rw miss at e))
    ]

is_seqnum-some : (o : Option ℕ) (s : ℕ) → is_seqnum o s ≡ true → o ≡ some s
is_seqnum-some none s h = cc
is_seqnum-some (some t) s h = let same : t ≡ s = ground arith in ap some same

-- The endpoint that `get_mut` gives is the one that `find` met, since no address comes twice.
pub lookup-find_in_flight :
    (seqnum : ℕ) (eps : EndpointMap) {address : ℕ} {ep : Endpoint}
    → Distinct (keys eps)
    → find_in_flight seqnum eps ≡ some address
    → lookup address eps ≡ some ep
    → ep.in_flight ≡ some seqnum
unfolding find_in_flight lookup
lookup-find_in_flight seqnum [] u e h = cc
lookup-find_in_flight seqnum ((j, ep') ∷ eps) {address} {ep} u e h =
    elim (Bool-cases (is_seqnum ep'.in_flight seqnum)) [
      | inl hit ↦
          let same : j ≡ address = cc (rw hit at e) in
          let here : (j == address) ≡ true = ground arith in
          let found : ep' ≡ ep = cc (rw here at h) in
          ap (λ x. x.in_flight) (sym found) ∙ is_seqnum-some ep'.in_flight seqnum hit
      | inr miss ↦
          let e' : find_in_flight seqnum eps ≡ some address = rw miss at e in
          let k : has_key address (keys eps) ≡ true = find_in_flight-key seqnum eps e' in
          elim (Bool-cases (j == address)) [
            | inl same ↦ let same' : j ≡ address = ground arith in cc (u.0, k, same')
            | inr other ↦ lookup-find_in_flight seqnum eps u.1 e' (rw other at h)
          ]
    ]

in_flight-on :
    (ep : Endpoint) (seqnum : ℕ) → IsSound ep → ep.in_flight ≡ some seqnum → ep.disabled ≡ false
in_flight-on ep seqnum v e = elim (Bool-cases ep.disabled) [
  | inl off ↦ cc (v.idle off)
  | inr on ↦ on
]

unlink_waiter-Every :
    (seqnum : ℕ) (eps : EndpointMap)
    → Every IsSound eps
    → Every IsSound (unlink_waiter seqnum eps).1
unfolding unlink_waiter
unlink_waiter-Every seqnum [] h = tt
unlink_waiter-Every seqnum ((address, ep) ∷ eps) h =
    elim (Bool-cases (is_waiter ep.waiting seqnum)) [
      | inl hit ↦ rw hit (ground arith)
      | inr miss ↦ rw miss (h.0, unlink_waiter-Every seqnum eps h.1)
    ]

pub unlink-Inv : (p : Prefetch) (seqnum : ℕ) → Inv p → Inv (unlink p seqnum).1
unfolding unlink
unlink-Inv none seqnum v = tt
unlink-Inv (some inner) seqnum v = (unlink_waiter-Every seqnum inner.eps v.0, v.1)

collect-Every :
    (pairs : List (ℕ × ℕ)) (eps : EndpointMap)
    → Every IsSound eps
    → Every IsSound (collect pairs eps)
unfolding collect new_endpoint
collect-Every [] eps h = h
collect-Every ((address, max_packet) ∷ pairs) eps h =
    collect-Every pairs _ (Every-insert IsSound address _ eps (ground arith) h)

enabled-Inv : (eps : EndpointMap) → Every IsSound eps → Inv (enabled eps)
unfolding enabled
enabled-Inv [] h = tt
enabled-Inv (e ∷ eps) h = (h, (omega arith, omega arith))

module _ {D : Type 0} (dev : UsbBackend D) where
  pub new-Inv : (on : Bool) → Inv (new dev on)
  unfolding new
  new-Inv true = enabled-Inv _ (collect-Every dev.interrupt_in_endpoints [] tt)
  new-Inv false = tt

  shutdown_all-Every :
      (eps : EndpointMap) (d : D) → Every IsSound eps → Every IsSound (shutdown_all dev eps d).0
  unfolding shutdown_all
  shutdown_all-Every [] d h = tt
  shutdown_all-Every ((address, ep) ∷ eps) d h = (ground arith, shutdown_all-Every eps _ h.1)

  pub shutdown-Inv : (p : Prefetch) (d : D) → Inv p → Inv (shutdown dev p d).0
  unfolding shutdown
  shutdown-Inv none d v = tt
  shutdown-Inv (some inner) d v = (shutdown_all-Every inner.eps d v.0, v.1)

  deliver_to-Inv :
      (address : ℕ) (inner : Inner) (status : ℤ) (report : List ℕ) (d : D)
      → IsReady inner
      → ((ep : Endpoint) → lookup address inner.eps ≡ some ep → ep.disabled ≡ false)
      → Inv (deliver_to dev address inner status report d).1
  unfolding deliver_to
  deliver_to-Inv address inner status report d v on =
      elim (Option-cases (lookup address inner.eps)) [
        | inl e ↦ rw (e, deliver_to) v
        | inr (ep, e) ↦
            rw (e, deliver_to)
              (rearm-Inv dev address _ inner d
                (completed-IsSound ep status report (Every-lookup IsSound address inner.eps v.0 e)
                  (on ep e))
                v)
      ]

  pub deliver-Inv :
      (p : Prefetch) (seqnum : ℕ) (status : ℤ) (report : List ℕ) (d : D)
      → Inv p
      → Distinct (addresses p)
      → Inv (deliver dev p seqnum status report d).1
  unfolding deliver
  deliver-Inv none seqnum status report d v u = tt
  deliver-Inv (some inner) seqnum status report d v u =
      elim (Option-cases (find_in_flight seqnum inner.eps)) [
        | inl e ↦ rw (e, deliver) v
        | inr (address, e) ↦
            rw (e, deliver)
              (deliver_to-Inv address inner status report d v λ ep h.
                in_flight-on ep seqnum (Every-lookup IsSound address inner.eps v.0 h)
                  (lookup-find_in_flight seqnum inner.eps u e h))
      ]
