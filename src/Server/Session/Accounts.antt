-- ===== src/Server/Session/Accounts.antt =====
-- session.rs and prefetch.rs: how many answers are still to come for a seqnum of the client.
use padwire.Prelude.{
  ℕ, ◌+◌, ◌≤◌, ◌<◌, ◌≡◌, refl, ap, Bool, true, false, Option, none, some, List, [], ◌∷◌, ◌==◌,
  Result, ok, err, arith, inl, inr, Bool-cases, Option-cases, map,
}
use padwire.Prelude.Int.{ℤ}
use padwire.Backend.{UsbBackend, UrbRequest, UrbCompletion, SubmitError, urb, handled, fatal}
use padwire.Server.Prefetch.Endpoints.{Endpoint, EndpointMap, lookup, put}
use padwire.Server.Prefetch.{
  Prefetch, Inner, Take, waiting, Reply, internal_base, request, refused, submitted, take_captured,
  failed, reported, completed, find_in_flight, is_waiter, unlink_waiter, unlink, arm_one, arm_all,
  arm, rearm, take, deliver_to, deliver, shutdown_all, shutdown, unlink_flight,
}
use padwire.Server.Prefetch.Invariant.{IsReady, Inv, arm_one_cases, arm_one-IsReady}

abbrev pub one : Bool → ℕ
one false = 0
one true = 1

-- How many endpoints have a client waiting with a seqnum.
unfoldable pub waiters : ℕ → EndpointMap → ℕ
waiters s [] = 0
waiters s ((k, ep) ∷ eps) = one (is_waiter ep.waiting s) + waiters s eps

abbrev pub waiting_count : ℕ → Prefetch → ℕ
waiting_count s none = 0
waiting_count s (some inner) = waiters s inner.eps

waiters-put :
    (s k : ℕ) (v ep : Endpoint) (eps : EndpointMap)
    → lookup k eps ≡ some ep
    → waiters s (put k v eps) + one (is_waiter ep.waiting s)
      ≡ waiters s eps + one (is_waiter v.waiting s)
unfolding waiters put lookup
waiters-put s k v ep [] h = cc
waiters-put s k v ep ((j, w) ∷ eps) h = elim (Bool-cases (j == k)) [
  | inl hit ↦
      let same : w ≡ ep = cc (rw hit at h) in
      let e : one (is_waiter w.waiting s) ≡ one (is_waiter ep.waiting s) =
        ap (λ (x : Endpoint). one (is_waiter x.waiting s)) same in
      rw hit (omega (arith, e))
  | inr miss ↦ rw miss (omega (arith, waiters-put s k v ep eps (rw miss at h)))
]

waiters-put_same :
    (s k : ℕ) (v ep : Endpoint) (eps : EndpointMap)
    → lookup k eps ≡ some ep
    → v.waiting ≡ ep.waiting
    → waiters s (put k v eps) ≡ waiters s eps
waiters-put_same s k v ep eps h e =
    let e' : one (is_waiter v.waiting s) ≡ one (is_waiter ep.waiting s) =
      ap (λ w. one (is_waiter w s)) e in
    omega (arith, waiters-put s k v ep eps h, e')

waiters-submitted :
    (s k : ℕ) (inner : Inner) (ep : Endpoint) (answer : Result SubmitError (Unit {0}))
    → lookup k inner.eps ≡ some ep
    → waiters s (submitted k inner ep answer).eps ≡ waiters s inner.eps
unfolding submitted refused
waiters-submitted s k inner ep (ok u) h = waiters-put_same s k _ ep inner.eps h refl
waiters-submitted s k inner ep (err (urb status)) h = waiters-put_same s k _ ep inner.eps h refl
waiters-submitted s k inner ep (err (handled status)) h = refl
waiters-submitted s k inner ep (err (fatal e)) h = waiters-put_same s k _ ep inner.eps h refl

-- What is owed by a reply that the prefetcher hands out.
abbrev pub owed : ℕ → Option Reply → ℕ
owed s none = 0
owed s (some (seqnum, status, report)) = one (seqnum == s)

completed-owed :
    (s : ℕ) (ep : Endpoint) (status : ℤ) (report : List ℕ)
    → owed s (completed ep status report).0
        + one (is_waiter (completed ep status report).1.waiting s)
      ≡ one (is_waiter ep.waiting s)
unfolding completed failed reported
completed-owed s ep status report = ground arith

abbrev pub registered : ℕ → ℕ → Take → ℕ
registered s seqnum waiting = one (seqnum == s)
registered s seqnum _ = 0

take_captured-registered :
    (s : ℕ) (ep : Endpoint) (seqnum max_len : ℕ)
    → one (is_waiter (take_captured ep seqnum max_len).1.waiting s)
      ≤ one (is_waiter ep.waiting s) + registered s seqnum (take_captured ep seqnum max_len).0
unfolding take_captured
take_captured-registered s ep seqnum max_len = ground arith

unlink_waiter-waiters :
    (s seqnum : ℕ) (eps : EndpointMap) → waiters s (unlink_waiter seqnum eps).1 ≤ waiters s eps
unfolding waiters unlink_waiter
unlink_waiter-waiters s seqnum [] = omega arith
unlink_waiter-waiters s seqnum ((k, ep) ∷ eps) = elim (Bool-cases (is_waiter ep.waiting seqnum)) [
  | inl hit ↦ rw hit (omega arith)
  | inr miss ↦ rw miss (omega (arith, unlink_waiter-waiters s seqnum eps))
]

pub unlink-waiting_count :
    (s seqnum : ℕ) (p : Prefetch) → waiting_count s (unlink p seqnum).1 ≤ waiting_count s p
unfolding unlink
unlink-waiting_count s seqnum none = omega arith
unlink-waiting_count s seqnum (some inner) = unlink_waiter-waiters s seqnum inner.eps

-- A device that completes a URB at most once: `pending` counts, for each seqnum, the completions
-- that may still come.
pub record CompletesOnce {D : Type 0} (dev : UsbBackend D) (pending : D → ℕ → ℕ) : Type 0 where
  pub accepts :
      (r : UrbRequest) (d : D) (s : ℕ)
      → pending (dev.submit r d).1 s ≤ pending d s + one (r.seqnum == s)
  pub refuses :
      (r : UrbRequest) (d : D) (s : ℕ) (e : SubmitError)
      → (dev.submit r d).0 ≡ err e
      → pending (dev.submit r d).1 s ≤ pending d s
  pub unlinks : (n : ℕ) (d : D) (s : ℕ) → pending (dev.unlink n d).1 s ≤ pending d s
  pub reaps :
      (d : D) (s : ℕ) (c : UrbCompletion)
      → (dev.reap d).0 ≡ ok (some c)
      → pending (dev.reap d).1 s + one (c.seqnum == s) ≤ pending d s
  pub waits : (d : D) (s : ℕ) → pending (dev.reap d).1 s ≤ pending d s

module _ {D : Type 0} (dev : UsbBackend D) (pending : D → ℕ → ℕ)
    (v : CompletesOnce dev pending) where
  -- What may still answer a seqnum: a client that waits, or a completion.
  abbrev pub due : ℕ → Prefetch → D → ℕ
  due s p d = waiting_count s p + pending d s

  arm_one-due :
      (s k : ℕ) (inner : Inner) (d : D)
      → s < internal_base
      → internal_base ≤ inner.next_seqnum
      → due s (some (arm_one dev k inner d).0) (arm_one dev k inner d).1 ≤ due s (some inner) d
  arm_one-due s k inner d low high =
      arm_one_cases dev (λ r. due s (some r.0) r.1 ≤ due s (some inner) d) k inner d (omega arith)
        λ ep e on idle.
          let more = v.accepts (request inner.next_seqnum ep) d s in
          let not_internal : one (inner.next_seqnum == s) ≡ 0 = ground arith in
          omega (
            arith,
            waiters-submitted s k inner ep (dev.submit (request inner.next_seqnum ep) d).0 e,
          )

  rearm-due :
      (s k : ℕ) (w ep : Endpoint) (inner : Inner) (d : D)
      → s < internal_base
      → internal_base ≤ inner.next_seqnum
      → lookup k inner.eps ≡ some ep
      → due s (rearm dev k w inner d).0 (rearm dev k w inner d).1 + one (is_waiter ep.waiting s)
        ≤ due s (some inner) d + one (is_waiter w.waiting s)
  unfolding rearm
  rearm-due s k w ep inner d low high h = omega (
    arith,
    arm_one-due s k (record inner { eps = put k w inner.eps }) d low high,
    waiters-put s k w ep inner.eps h,
  )

  pub take-due :
      (s : ℕ) (p : Prefetch) (k seqnum max_len : ℕ) (d : D)
      → s < internal_base
      → Inv p
      → due s (take dev p k seqnum max_len d).1 (take dev p k seqnum max_len d).2
        ≤ due s p d + registered s seqnum (take dev p k seqnum max_len d).0
  unfolding take
  take-due s none k seqnum max_len d low h = omega arith
  take-due s (some inner) k seqnum max_len d low h = elim (Option-cases (lookup k inner.eps)) [
    | inl e ↦ rw (e, take) (omega arith)
    | inr (ep, e) ↦ elim (Bool-cases ep.disabled) [
      | inl off ↦ rw (e, take) (rw off (omega arith))
      | inr on ↦
          rw (e, take)
            (simp on (
              omega (
                arith,
                rearm-due s k (take_captured ep seqnum max_len).1 ep inner d low h.1.0 e,
                take_captured-registered s ep seqnum max_len,
              )))
    ]
  ]

  deliver_to-due :
      (s k : ℕ) (inner : Inner) (status : ℤ) (report : List ℕ) (d : D)
      → s < internal_base
      → internal_base ≤ inner.next_seqnum
      → due s (deliver_to dev k inner status report d).1 (deliver_to dev k inner status report d).2
          + owed s (deliver_to dev k inner status report d).0
        ≤ due s (some inner) d
  unfolding deliver_to
  deliver_to-due s k inner status report d low high = elim (Option-cases (lookup k inner.eps)) [
    | inl e ↦ rw (e, deliver_to) (omega arith)
    | inr (ep, e) ↦
        rw (e, deliver_to)
          (omega (
            arith,
            rearm-due s k (completed ep status report).1 ep inner d low high e,
            completed-owed s ep status report,
          ))
  ]

  pub deliver-due :
      (s : ℕ) (p : Prefetch) (seqnum : ℕ) (status : ℤ) (report : List ℕ) (d : D)
      → s < internal_base
      → Inv p
      → due s (deliver dev p seqnum status report d).1 (deliver dev p seqnum status report d).2
          + owed s (deliver dev p seqnum status report d).0
        ≤ due s p d
  unfolding deliver
  deliver-due s none seqnum status report d low h = omega arith
  deliver-due s (some inner) seqnum status report d low h =
      elim (Option-cases (find_in_flight seqnum inner.eps)) [
        | inl e ↦ rw (e, deliver) (omega arith)
        | inr (k, e) ↦ rw (e, deliver) (deliver_to-due s k inner status report d low h.1.0)
      ]

  unlink_flight-pending :
      (s : ℕ) (o : Option ℕ) (d : D) → pending (unlink_flight dev o d) s ≤ pending d s
  unlink_flight-pending s none d = omega arith
  unlink_flight-pending s (some n) d = v.unlinks n d s

  shutdown_all-due :
      (s : ℕ) (eps : EndpointMap) (d : D)
      → waiters s (shutdown_all dev eps d).0 + pending (shutdown_all dev eps d).1 s
        ≤ waiters s eps + pending d s
  unfolding shutdown_all waiters
  shutdown_all-due s [] d = omega arith
  shutdown_all-due s ((k, ep) ∷ eps) d = omega (
    arith,
    shutdown_all-due s eps (unlink_flight dev ep.in_flight d),
    unlink_flight-pending s ep.in_flight d,
  )

  pub shutdown-due :
      (s : ℕ) (p : Prefetch) (d : D) → due s (shutdown dev p d).0 (shutdown dev p d).1 ≤ due s p d
  unfolding shutdown
  shutdown-due s none d = omega arith
  shutdown-due s (some inner) d = shutdown_all-due s inner.eps d

  arm_all-due :
      (s : ℕ) (addrs : List ℕ) (inner : Inner) (d : D)
      → s < internal_base
      → IsReady inner
      → due s (some (arm_all dev addrs inner d).0) (arm_all dev addrs inner d).1
        ≤ due s (some inner) d
  unfolding arm_all
  arm_all-due s [] inner d low h = omega arith
  arm_all-due s (k ∷ addrs) inner d low h =
      let (inner', d') = arm_one dev k inner d in
      omega (
        arith,
        arm_all-due s addrs inner' d' low (arm_one-IsReady dev k inner d h),
        arm_one-due s k inner d low h.1.0,
      )

  pub arm-due :
      (s : ℕ) (p : Prefetch) (d : D)
      → s < internal_base
      → Inv p
      → due s (arm dev p d).0 (arm dev p d).1 ≤ due s p d
  unfolding arm
  arm-due s none d low h = omega arith
  arm-due s (some inner) d low h = arm_all-due s (map (λ e. e.0) inner.eps) inner d low h
