-- ===== src/Server/Prefetch/Invariant.antt =====
-- What holds of every endpoint whatever calls were made, and however the device answered them.
use padwire.Prelude.{
  ℕ, ◌^◌, ◌≤◌, ◌<◌, ◌≡◌, true, false, Option, none, some, List, [], ◌∷◌, length, drop, length-drop,
  length-append, arith, Result, ok, err, inl, inr, Bool-cases, Option-cases, ◌||◌, map,
}
use padwire.Prelude.Int.{ℤ}
use padwire.Backend.{UsbBackend, SubmitError, urb, handled, fatal}
use padwire.Server.Prefetch.Endpoints.{Endpoint, Waiter, lookup, Every, Every-lookup, Every-put}
use padwire.Server.Prefetch.{
  Prefetch, Inner, internal_base, depth, max_consecutive_errors, submitted, take_captured, failed,
  buffered, reported, completed, arm_one, arm_all, arm, rearm, take, is_some, request,
}

abbrev pub IsInternal : ℕ → Type 0
IsInternal s = (internal_base ≤ s) × (s < 2 ^ 32)

abbrev pub Owned : Option ℕ → Type 0
Owned none = Unit {0}
Owned (some s) = IsInternal s

abbrev pub Exclusive : Option Waiter → List (List ℕ) → Type 0
Exclusive none captured = Unit {0}
Exclusive (some w) captured = captured ≡ []

pub record IsSound (ep : Endpoint) : Type 0 where
  pub owned : Owned ep.in_flight
  pub bounded : length ep.captured ≤ depth
  pub exclusive : Exclusive ep.waiting ep.captured
  pub idle : ep.disabled ≡ true → ep.in_flight ≡ none
  pub errors : ep.errors ≤ max_consecutive_errors
  pub trusted : ep.disabled ≡ false → ep.errors < max_consecutive_errors

-- Of an endpoint that is just now without a URB in flight.
pub record IsIdle (ep : Endpoint) : Type 0 where
  pub sound : IsSound ep
  pub in_flight : ep.in_flight ≡ none

take_captured-IsSound :
    (ep : Endpoint) (seqnum max_len : ℕ) → IsSound ep → IsSound (take_captured ep seqnum max_len).1
unfolding take_captured
take_captured-IsSound ep seqnum max_len v = ground arith

pub buffered-bounded :
    (captured : List (List ℕ)) (report : List ℕ)
    → length captured ≤ depth
    → length (buffered captured report) ≤ depth
unfolding buffered
buffered-bounded captured report h = ground (
  arith,
  length-drop 1 captured,
  length-append captured (report ∷ []),
  length-append (drop 1 captured) (report ∷ []),
)

pub completed-IsSound :
    (ep : Endpoint) (status : ℤ) (report : List ℕ)
    → IsSound ep
    → ep.disabled ≡ false
    → IsSound (completed ep status report).1
unfolding completed failed reported
completed-IsSound ep status report v on =
    ground (arith, buffered-bounded ep.captured report v.bounded)

submitted-IsSound :
    (address : ℕ) (inner : Inner) (ep : Endpoint) (answer : Result SubmitError (Unit {0}))
    → IsSound ep
    → ep.disabled ≡ false
    → ep.in_flight ≡ none
    → IsInternal inner.next_seqnum
    → Every IsSound inner.eps
    → Every IsSound (submitted address inner ep answer).eps
      × IsInternal (submitted address inner ep answer).next_seqnum
unfolding submitted
submitted-IsSound address inner ep (ok done) v on idle n h =
    (Every-put IsSound address _ inner.eps (ground arith) h, (omega arith, omega arith))
submitted-IsSound address inner ep (err (urb status)) v on idle n h =
    (Every-put IsSound address _ inner.eps (ground arith) h, n)
submitted-IsSound address inner ep (err (handled status)) v on idle n h = (h, n)
submitted-IsSound address inner ep (err (fatal e)) v on idle n h =
    (Every-put IsSound address _ inner.eps (ground arith) h, n)

-- The state of the prefetcher: each endpoint is sound, and so is the next seqnum.
abbrev pub IsReady : Inner → Type 0
IsReady inner = Every IsSound inner.eps × IsInternal inner.next_seqnum

abbrev pub Inv : Prefetch → Type 0
Inv none = Unit {0}
Inv (some inner) = IsReady inner

module _ {D : Type 0} (dev : UsbBackend D) where
  -- `arm_one` does nothing, or makes of the device's answer what `submitted` makes of it.
  pub arm_one_cases :
      (P : Inner × D → Type 0) (address : ℕ) (inner : Inner) (d : D)
      → P (inner, d)
      → ((ep : Endpoint)
          → lookup address inner.eps ≡ some ep
          → ep.disabled ≡ false
          → ep.in_flight ≡ none
          → P (
            submitted address inner ep (dev.submit (request inner.next_seqnum ep) d).0,
            (dev.submit (request inner.next_seqnum ep) d).1,
          ))
      → P (arm_one dev address inner d)
  unfolding arm_one
  arm_one_cases P address inner d same step = elim (Option-cases (lookup address inner.eps)) [
    | inl e ↦ rw (e, arm_one) same
    | inr (ep, e) ↦ elim (Bool-cases (ep.disabled || is_some ep.in_flight)) [
      | inl busy ↦ rw (e, arm_one) (rw busy same)
      | inr free ↦ rw (e, arm_one) (rw free (step ep e (ground arith) (ground arith)))
    ]
  ]

  pub arm_one-IsReady :
      (address : ℕ) (inner : Inner) (d : D)
      → IsReady inner
      → IsReady (arm_one dev address inner d).0
  arm_one-IsReady address inner d v =
      arm_one_cases (λ r. IsReady r.0) address inner d v
        λ ep e on idle.
          submitted-IsSound address inner ep _ (Every-lookup IsSound address inner.eps v.0 e) on
            idle v.1 v.0

  pub rearm-Inv :
      (address : ℕ) (ep : Endpoint) (inner : Inner) (d : D)
      → IsSound ep
      → IsReady inner
      → Inv (rearm dev address ep inner d).0
  unfolding rearm
  rearm-Inv address ep inner d e v =
      arm_one-IsReady address _ d (Every-put IsSound address ep inner.eps e v.0, v.1)

  arm_all-IsReady :
      (addrs : List ℕ) (inner : Inner) (d : D)
      → IsReady inner
      → IsReady (arm_all dev addrs inner d).0
  unfolding arm_all
  arm_all-IsReady [] inner d v = v
  arm_all-IsReady (address ∷ addrs) inner d v =
      let (inner', d') = arm_one dev address inner d in
      arm_all-IsReady addrs inner' d' (arm_one-IsReady address inner d v)

  pub arm-Inv : (p : Prefetch) (d : D) → Inv p → Inv (arm dev p d).0
  unfolding arm
  arm-Inv none d v = tt
  arm-Inv (some inner) d v = arm_all-IsReady (map (λ e. e.0) inner.eps) inner d v

  pub take-Inv :
      (p : Prefetch) (address seqnum max_len : ℕ) (d : D)
      → Inv p
      → Inv (take dev p address seqnum max_len d).1
  unfolding take
  take-Inv none address seqnum max_len d v = tt
  take-Inv (some inner) address seqnum max_len d v =
      elim (Option-cases (lookup address inner.eps)) [
        | inl e ↦ rw (e, take) v
        | inr (ep, e) ↦ elim (Bool-cases ep.disabled) [
          | inl off ↦ rw (e, take) (rw off v)
          | inr on ↦
              rw (e, take)
                (simp on (
                  rearm-Inv address _ inner d
                    (take_captured-IsSound ep seqnum max_len
                      (Every-lookup IsSound address inner.eps v.0 e))
                    v))
        ]
      ]
