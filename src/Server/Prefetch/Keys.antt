-- ===== src/Server/Prefetch/Keys.antt =====
-- prefetch.rs: the addresses in the map. They are found once, and no call adds or drops one.
use padwire.Prelude.{
  ℕ, ◌≡◌, refl, ap, ◌∙◌, Bool, true, false, none, some, List, [], ◌∷◌, arith, inl, inr, Bool-cases,
  Option-cases, ◌||◌, map, ◌==◌, Result, ok, err,
}
use padwire.Prelude.Int.{ℤ}
use padwire.Backend.{UsbBackend, SubmitError, urb, handled, fatal}
use padwire.Server.Prefetch.Endpoints.{Endpoint, EndpointMap, lookup, put, insert}
use padwire.Server.Prefetch.{
  Prefetch, Inner, collect, enabled, submitted, find_in_flight, unlink_waiter, unlink, new, arm_one,
  arm_all, arm, rearm, take, deliver_to, deliver, shutdown_all, shutdown, is_waiter,
}
use padwire.Server.Prefetch.Invariant.{arm_one_cases}

abbrev pub keys : EndpointMap → List ℕ
keys = map (λ e. e.0)

abbrev pub addresses : Prefetch → List ℕ
addresses none = []
addresses (some inner) = keys inner.eps

-- No entry of a map repeats an address.
abbrev pub has_key : ℕ → List ℕ → Bool
has_key k [] = false
has_key k (j ∷ js) = j == k || has_key k js

abbrev pub Distinct : List ℕ → Type 0
Distinct [] = Unit {0}
Distinct (k ∷ ks) = (has_key k ks ≡ false) × Distinct ks

pub keys-put : (k : ℕ) (v : Endpoint) (eps : EndpointMap) → keys (put k v eps) ≡ keys eps
unfolding put
keys-put k v [] = refl
keys-put k v ((j, ep) ∷ eps) = ground (arith, keys-put k v eps)

keys-submitted :
    (address : ℕ) (inner : Inner) (ep : Endpoint) (answer : Result SubmitError (Unit {0}))
    → keys (submitted address inner ep answer).eps ≡ keys inner.eps
unfolding submitted
keys-submitted address inner ep (ok done) = keys-put address _ inner.eps
keys-submitted address inner ep (err (urb status)) = keys-put address _ inner.eps
keys-submitted address inner ep (err (handled status)) = refl
keys-submitted address inner ep (err (fatal e)) = keys-put address _ inner.eps

has_key-insert :
    (i k : ℕ) (v : Endpoint) (eps : EndpointMap)
    → has_key i (keys (insert k v eps)) ≡ (k == i || has_key i (keys eps))
unfolding insert
has_key-insert i k v [] = refl
has_key-insert i k v ((j, ep) ∷ eps) = ground (arith, has_key-insert i k v eps)

Distinct-insert :
    (k : ℕ) (v : Endpoint) (eps : EndpointMap)
    → Distinct (keys eps)
    → Distinct (keys (insert k v eps))
unfolding insert
Distinct-insert k v [] h = (refl, tt)
Distinct-insert k v ((j, ep) ∷ eps) h = elim (Bool-cases (j == k)) [
  | inl hit ↦ rw hit h
  | inr miss ↦ rw miss (ground (arith, has_key-insert j k v eps), Distinct-insert k v eps h.1)
]

Distinct-collect :
    (pairs : List (ℕ × ℕ)) (eps : EndpointMap)
    → Distinct (keys eps)
    → Distinct (keys (collect pairs eps))
unfolding collect
Distinct-collect [] eps h = h
Distinct-collect ((address, max_packet) ∷ pairs) eps h =
    Distinct-collect pairs _ (Distinct-insert address _ eps h)

Distinct-enabled : (eps : EndpointMap) → Distinct (keys eps) → Distinct (addresses (enabled eps))
unfolding enabled
Distinct-enabled [] h = tt
Distinct-enabled (e ∷ eps) h = h

keys-unlink_waiter : (seqnum : ℕ) (eps : EndpointMap) → keys (unlink_waiter seqnum eps).1 ≡ keys eps
unfolding unlink_waiter
keys-unlink_waiter seqnum [] = refl
keys-unlink_waiter seqnum ((address, ep) ∷ eps) = elim (Bool-cases (is_waiter ep.waiting seqnum)) [
  | inl hit ↦ rw hit refl
  | inr miss ↦ rw miss (ap (λ ks. address ∷ ks) (keys-unlink_waiter seqnum eps))
]

pub addresses-unlink : (p : Prefetch) (seqnum : ℕ) → addresses (unlink p seqnum).1 ≡ addresses p
unfolding unlink
addresses-unlink none seqnum = refl
addresses-unlink (some inner) seqnum = keys-unlink_waiter seqnum inner.eps

module _ {D : Type 0} (dev : UsbBackend D) where
  pub addresses-new : (on : Bool) → Distinct (addresses (new dev on))
  unfolding new
  addresses-new true = Distinct-enabled _ (Distinct-collect dev.interrupt_in_endpoints [] tt)
  addresses-new false = tt

  keys-arm_one :
      (address : ℕ) (inner : Inner) (d : D)
      → keys (arm_one dev address inner d).0.eps ≡ keys inner.eps
  keys-arm_one address inner d =
      arm_one_cases dev (λ r. keys r.0.eps ≡ keys inner.eps) address inner d refl
        λ ep e on idle. keys-submitted address inner ep _

  keys-arm_all :
      (addrs : List ℕ) (inner : Inner) (d : D)
      → keys (arm_all dev addrs inner d).0.eps ≡ keys inner.eps
  unfolding arm_all
  keys-arm_all [] inner d = refl
  keys-arm_all (address ∷ addrs) inner d =
      let (inner', d') = arm_one dev address inner d in
      keys-arm_all addrs inner' d' ∙ keys-arm_one address inner d

  pub addresses-arm : (p : Prefetch) (d : D) → addresses (arm dev p d).0 ≡ addresses p
  unfolding arm
  addresses-arm none d = refl
  addresses-arm (some inner) d = keys-arm_all (map (λ e. e.0) inner.eps) inner d

  addresses-rearm :
      (address : ℕ) (ep : Endpoint) (inner : Inner) (d : D)
      → addresses (rearm dev address ep inner d).0 ≡ keys inner.eps
  unfolding rearm
  addresses-rearm address ep inner d = keys-arm_one address _ d ∙ keys-put address ep inner.eps

  pub addresses-take :
      (p : Prefetch) (address seqnum max_len : ℕ) (d : D)
      → addresses (take dev p address seqnum max_len d).1 ≡ addresses p
  unfolding take
  addresses-take none address seqnum max_len d = refl
  addresses-take (some inner) address seqnum max_len d =
      elim (Option-cases (lookup address inner.eps)) [
        | inl e ↦ rw (e, take) refl
        | inr (ep, e) ↦ elim (Bool-cases ep.disabled) [
          | inl off ↦ rw (e, take) (rw off refl)
          | inr on ↦ rw (e, take) (simp on (addresses-rearm address _ inner d))
        ]
      ]

  addresses-deliver_to :
      (address : ℕ) (inner : Inner) (status : ℤ) (report : List ℕ) (d : D)
      → addresses (deliver_to dev address inner status report d).1 ≡ keys inner.eps
  unfolding deliver_to
  addresses-deliver_to address inner status report d =
      elim (Option-cases (lookup address inner.eps)) [
        | inl e ↦ rw (e, deliver_to) refl
        | inr (ep, e) ↦ rw (e, deliver_to) (addresses-rearm address _ inner d)
      ]

  pub addresses-deliver :
      (p : Prefetch) (seqnum : ℕ) (status : ℤ) (report : List ℕ) (d : D)
      → addresses (deliver dev p seqnum status report d).1 ≡ addresses p
  unfolding deliver
  addresses-deliver none seqnum status report d = refl
  addresses-deliver (some inner) seqnum status report d =
      elim (Option-cases (find_in_flight seqnum inner.eps)) [
        | inl e ↦ rw (e, deliver) refl
        | inr (address, e) ↦ rw (e, deliver) (addresses-deliver_to address inner status report d)
      ]

  keys-shutdown_all : (eps : EndpointMap) (d : D) → keys (shutdown_all dev eps d).0 ≡ keys eps
  unfolding shutdown_all
  keys-shutdown_all [] d = refl
  keys-shutdown_all ((address, ep) ∷ eps) d = ap (λ ks. address ∷ ks) (keys-shutdown_all eps _)

  pub addresses-shutdown : (p : Prefetch) (d : D) → addresses (shutdown dev p d).0 ≡ addresses p
  unfolding shutdown
  addresses-shutdown none d = refl
  addresses-shutdown (some inner) d = keys-shutdown_all inner.eps d
