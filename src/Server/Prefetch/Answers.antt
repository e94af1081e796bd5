-- ===== src/Server/Prefetch/Answers.antt =====
-- prefetch.rs: who gets which report, and the client that gets none.
use padwire.Prelude.{
  ℕ, ◌≡◌, refl, sym, ap, ◌∙◌, true, false, Option, none, some, List, [], take as truncate, arith,
  inl, inr, Bool-cases, Option-cases, if◌then◌else◌, ◌||◌, ◌==◌, Result, ok, err,
}
use padwire.Prelude.Int.{ℤ, pos, negsuc}
use padwire.Backend.{UsbBackend, SubmitError, urb, handled, fatal}
use padwire.Server.Prefetch.Endpoints.{Endpoint, EndpointMap, Waiter, lookup, put, lookup-put}
use padwire.Server.Prefetch.{
  Prefetch, Inner, waiting, Reply, take_captured, completed, failed, reported, submitted, refused,
  request, find_in_flight, arm_one, rearm, take, deliver_to, deliver, is_zero, is_some,
}
use padwire.Server.Prefetch.Invariant.{arm_one_cases}

abbrev waiting_in : Option Endpoint → Option Waiter
waiting_in none = none
waiting_in (some ep) = ep.waiting

-- Who waits at an address.
abbrev pub waiting_at : ℕ → Prefetch → Option Waiter
waiting_at address none = none
waiting_at address (some inner) = waiting_in (lookup address inner.eps)

abbrev in_flight_in : Option Endpoint → Option ℕ
in_flight_in none = none
in_flight_in (some ep) = ep.in_flight

abbrev pub in_flight_at : ℕ → Prefetch → Option ℕ
in_flight_at address none = none
in_flight_at address (some inner) = in_flight_in (lookup address inner.eps)

-- What a client that waits is owed when the transfer ends.
abbrev pub answer : ℤ → List ℕ → Option Waiter → Option Reply
answer status report none = none
answer status report (some w) =
    some (w.seqnum, status, if is_zero status then truncate w.max_len report else [])

is_zero-pos : (status : ℤ) → is_zero status ≡ true → status ≡ pos 0
is_zero-pos (pos n) h = let e : n ≡ 0 = ground arith in ap pos e
is_zero-pos (negsuc n) h = cc

reported-answer :
    (ep : Endpoint) (report : List ℕ) → (reported ep report).0 ≡ answer (pos 0) report ep.waiting
unfolding reported
reported-answer ep report = ground arith

failed-answer :
    (ep : Endpoint) (status : ℤ) (report : List ℕ)
    → is_zero status ≡ false
    → (failed ep status).0 ≡ answer status report ep.waiting
unfolding failed
failed-answer ep status report h = ground (arith, h)

completed-answer :
    (ep : Endpoint) (status : ℤ) (report : List ℕ)
    → (completed ep status report).0 ≡ answer status report ep.waiting
unfolding completed
completed-answer ep status report = elim (Bool-cases (is_zero status)) [
  | inl none_failed ↦
      rw (is_zero-pos status none_failed) (reported-answer (record ep { in_flight = none }) report)
  | inr failure ↦
      rw (failure, completed) (failed-answer (record ep { in_flight = none }) status report failure)
]

completed-waiting :
    (ep : Endpoint) (status : ℤ) (report : List ℕ) → (completed ep status report).1.waiting ≡ none
unfolding completed failed reported
completed-waiting ep status report = ground arith

take_captured-empty :
    (ep : Endpoint) (seqnum max_len : ℕ)
    → ep.captured ≡ []
    → take_captured ep seqnum max_len
      ≡ (waiting, record ep { waiting = some (record { seqnum = seqnum; max_len = max_len }) })
unfolding take_captured
take_captured-empty ep seqnum max_len h =
    let w = some (record { seqnum = seqnum; max_len = max_len }) in
    ap (λ c. take_captured (record ep { captured = c }) seqnum max_len) h
    ∙ ap (λ c. (waiting, record ep { captured = c; waiting = w })) (sym h)

lookup-put_same :
    (k : ℕ) (v : Endpoint) (eps : EndpointMap) {ep : Endpoint}
    → lookup k eps ≡ some ep
    → lookup k (put k v eps) ≡ some v
lookup-put_same k v eps h =
    let same : (k == k) ≡ true = ground arith in rw same at (lookup-put k k v eps h)

put-waiting :
    (k address : ℕ) (v ep : Endpoint) (eps : EndpointMap)
    → lookup address eps ≡ some ep
    → v.waiting ≡ ep.waiting
    → waiting_in (lookup k (put address v eps)) ≡ waiting_in (lookup k eps)
put-waiting k address v ep eps h e = elim (Bool-cases (address == k)) [
  | inl same ↦
      let k≡ : address ≡ k = ground arith in
      let h' : lookup k eps ≡ some ep = rw k≡ at h in
      ap waiting_in (rw same at (lookup-put address k v eps h)) ∙ e ∙ sym (ap waiting_in h')
  | inr other ↦ ap waiting_in (rw other at (lookup-put address k v eps h))
]

submitted-waiting :
    (k address : ℕ) (inner : Inner) (ep : Endpoint) (result : Result SubmitError (Unit {0}))
    → lookup address inner.eps ≡ some ep
    → waiting_in (lookup k (submitted address inner ep result).eps)
      ≡ waiting_in (lookup k inner.eps)
unfolding submitted refused
submitted-waiting k address inner ep (ok done) h = put-waiting k address _ ep inner.eps h refl
submitted-waiting k address inner ep (err (urb status)) h =
    put-waiting k address _ ep inner.eps h refl
submitted-waiting k address inner ep (err (handled status)) h = refl
submitted-waiting k address inner ep (err (fatal e)) h = put-waiting k address _ ep inner.eps h refl

module _ {D : Type 0} (dev : UsbBackend D) where
  arm_one-waiting :
      (k address : ℕ) (inner : Inner) (d : D)
      → waiting_in (lookup k (arm_one dev address inner d).0.eps) ≡ waiting_in (lookup k inner.eps)
  arm_one-waiting k address inner d =
      arm_one_cases dev (λ r. waiting_in (lookup k r.0.eps) ≡ waiting_in (lookup k inner.eps))
        address inner d refl λ ep e on idle. submitted-waiting k address inner ep _ e

  rearm-waiting :
      (k address : ℕ) (ep : Endpoint) (inner : Inner) (d : D)
      → waiting_at k (rearm dev address ep inner d).0
        ≡ waiting_in (lookup k (put address ep inner.eps))
  unfolding rearm
  rearm-waiting k address ep inner d = arm_one-waiting k address _ d

  deliver_to-answer :
      (address : ℕ) (inner : Inner) (status : ℤ) (report : List ℕ) (d : D)
      → ((deliver_to dev address inner status report d).0
          ≡ answer status report (waiting_at address (some inner)))
        × (waiting_at address (deliver_to dev address inner status report d).1 ≡ none)
  unfolding deliver_to
  deliver_to-answer address inner status report d = elim (Option-cases (lookup address inner.eps)) [
    | inl e ↦ rw (e, deliver_to) (refl, ap waiting_in e)
    | inr (ep, e) ↦
        rw (e, deliver_to)
          (
            completed-answer ep status report,
            rearm-waiting address address _ inner d
                ∙ ap waiting_in (lookup-put_same address _ inner.eps e)
                ∙ completed-waiting ep status report,
          )
  ]

  -- When a URB of an endpoint completes, exactly the client that waits there is answered: with the
  -- status, and with the report cut to what it asked for, or with no data after a failure. Nobody
  -- waits at the endpoint then.
  pub deliver-answer :
      (inner : Inner) (seqnum : ℕ) (status : ℤ) (report : List ℕ) (d : D) {address : ℕ}
      → find_in_flight seqnum inner.eps ≡ some address
      → ((deliver dev (some inner) seqnum status report d).0
          ≡ answer status report (waiting_at address (some inner)))
        × (waiting_at address (deliver dev (some inner) seqnum status report d).1 ≡ none)
  unfolding deliver
  deliver-answer inner seqnum status report d {address} e =
      rw (e, deliver) (deliver_to-answer address inner status report d)

  arm_one-refused :
      (address : ℕ) (inner : Inner) (d : D) {ep : Endpoint} {status : ℤ}
      → lookup address inner.eps ≡ some ep
      → ep.disabled ≡ false
      → ep.in_flight ≡ none
      → (dev.submit (request inner.next_seqnum ep) d).0 ≡ err (urb status)
      → lookup address (arm_one dev address inner d).0.eps ≡ some (refused ep)
  unfolding arm_one submitted
  arm_one-refused address inner d {ep} {status} e on idle refusal =
      let free : (ep.disabled || is_some ep.in_flight) ≡ false = ground arith in
      rw (e, arm_one) (rw free (rw refusal (lookup-put_same address (refused ep) inner.eps e)))

  in_flight-rearm :
      (address : ℕ) (v : Endpoint) (inner : Inner) (d : D) {ep : Endpoint} {status : ℤ}
      → lookup address inner.eps ≡ some ep
      → v.disabled ≡ false
      → v.in_flight ≡ none
      → (dev.submit (request inner.next_seqnum v) d).0 ≡ err (urb status)
      → in_flight_at address (rearm dev address v inner d).0 ≡ none
  unfolding rearm refused
  in_flight-rearm address v inner d e on idle refusal =
      ap in_flight_in (
        arm_one-refused address (record inner { eps = put address v inner.eps }) d
          (lookup-put_same address v inner.eps e) on idle refusal)
      ∙ idle

  -- A client is told to wait at an endpoint that has nothing in flight when its submit is answered:
  -- if the device refuses the re-arming of an endpoint in use, the client waits and no transfer is
  -- there to answer it.
  pub take-refused :
      (inner : Inner) (address seqnum max_len : ℕ) (d : D) {ep : Endpoint} {status : ℤ}
      → lookup address inner.eps ≡ some ep
      → ep.disabled ≡ false
      → ep.in_flight ≡ none
      → ep.captured ≡ []
      → (dev.submit (request inner.next_seqnum ep) d).0 ≡ err (urb status)
      → ((take dev (some inner) address seqnum max_len d).0 ≡ waiting)
        × (waiting_at address (take dev (some inner) address seqnum max_len d).1
            ≡ some (record { seqnum = seqnum; max_len = max_len }))
        × (in_flight_at address (take dev (some inner) address seqnum max_len d).1 ≡ none)
  unfolding take
  take-refused inner address seqnum max_len d {ep} {status} e on idle empty refusal =
      rw (e, take)
        (simp on (
          rw (take_captured-empty ep seqnum max_len empty) (
            refl,
            rearm-waiting address address _ inner d
                ∙ ap waiting_in (lookup-put_same address _ inner.eps e),
            in_flight-rearm address _ inner d e on idle refusal,
          )))
