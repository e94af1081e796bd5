-- ===== src/Attach/Backoffs.antt =====
-- main.rs: how long the daemon waits for a server that does not answer.
use padwire.Prelude.{
  ℕ, zero, suc, ◌+◌, ◌*◌, ◌≤◌, ◌≡◌, refl, ap, true, false, none, some, List, [], ◌∷◌, All, length,
  min, max, arith,
}
use padwire.Prelude.Text.{is_same_refl}
use padwire.Attach.{Config, Backoff, Backoffs, lookup, backed_off, record_failure_at}

-- Failures of one server at some times.
unfoldable pub failures : Config → List ℕ → List ℕ → Backoffs → Backoffs
failures cfg name [] bs = bs
failures cfg name (t ∷ times) bs = failures cfg name times (record_failure_at cfg name t bs)

abbrev pub doubled : ℕ → ℕ → ℕ
doubled zero n = n
doubled (suc k) n = doubled k (n * 2)

lookup-record_failure_at :
    (cfg : Config) (name : List ℕ) (t : ℕ) (b : Backoff) (bs : Backoffs)
    → lookup name bs ≡ some b
    → lookup name (record_failure_at cfg name t bs) ≡ some (backed_off cfg t b)
unfolding record_failure_at lookup
lookup-record_failure_at cfg name t b bs e = rw (is_same_refl name) (rw e refl)

-- The last of some times, of which `t` is the first.
abbrev pub last_of : ℕ → List ℕ → ℕ
last_of t [] = t
last_of t (u ∷ times) = last_of u times

-- The wait after a failure that so many in a row came before.
abbrev pub wait_after : Config → ℕ → ℕ
wait_after cfg zero = cfg.retry_min
wait_after cfg (suc k) = min (doubled (suc k) cfg.retry_min) cfg.retry_max

further :
    (cfg : Config) (name : List ℕ) (t : ℕ) (times : List ℕ) (b : Backoff) (bs : Backoffs) (n : ℕ)
    → lookup name bs ≡ some b
    → b.delay ≡ min n cfg.retry_max
    → (b' : Backoff) × (lookup name (failures cfg name (t ∷ times) bs) ≡ some b')
      × (b'.next_try ≡ last_of t times + min (doubled (length times) n) cfg.retry_max)
      × (b'.delay ≡ min (doubled (suc (length times)) n) cfg.retry_max)
      × (b'.reported ≡ true)
unfolding failures backed_off
further cfg name t [] b bs n e d = (
  backed_off cfg t b,
  lookup-record_failure_at cfg name t b bs e,
  ap (λ x. t + x) d,
  omega (arith, d),
  refl,
)
further cfg name t (u ∷ times) b bs n e d =
    further cfg name u times (backed_off cfg t b) (record_failure_at cfg name t bs) (n * 2)
      (lookup-record_failure_at cfg name t b bs e) (omega (arith, d))

waits :
    (cfg : Config) (name : List ℕ) (t : ℕ) (times : List ℕ) (bs : Backoffs)
    → lookup name bs ≡ none
    → (b : Backoff) × (lookup name (failures cfg name (t ∷ times) bs) ≡ some b)
      × (b.next_try ≡ last_of t times + wait_after cfg (length times))
      × (b.delay ≡ wait_after cfg (suc (length times)))
      × (b.reported ≡ true)
unfolding failures record_failure_at lookup backed_off
waits cfg name t [] bs fresh =
    let first : Backoff = record { next_try = t; delay = cfg.retry_min; reported = false } in
    (backed_off cfg t first, rw (is_same_refl name) (rw fresh refl), refl, refl, refl)
waits cfg name t (u ∷ times) bs fresh =
    further cfg name u times
      (backed_off cfg t (record { next_try = t; delay = cfg.retry_min; reported = false }))
      (record_failure_at cfg name t bs) (cfg.retry_min * 2) (rw (is_same_refl name) (rw fresh refl))
      refl

wait_after-le : (cfg : Config) (k : ℕ) → wait_after cfg k ≤ max cfg.retry_min cfg.retry_max
wait_after-le cfg zero = omega arith
wait_after-le cfg (suc k) = omega arith

-- A time that leaves room for the longer of the two delays, so that `Instant + Duration` does not
-- overflow if the last time is `latest`.
abbrev pub HasRoom : Config → ℕ → ℕ → Type 0
HasRoom cfg latest t = t + max cfg.retry_min cfg.retry_max ≤ latest

last_of-HasRoom :
    (cfg : Config) (latest t : ℕ) (times : List ℕ)
    → All (HasRoom cfg latest) (t ∷ times)
    → HasRoom cfg latest (last_of t times)
last_of-HasRoom cfg latest t [] h = h.0
last_of-HasRoom cfg latest t (u ∷ times) h = last_of-HasRoom cfg latest u times h.1

-- After failures in a row of a server that had none, at times that leave room for the longer of the
-- two delays, the next try is due when the shortest delay has passed since the first of them, and
-- since a later one when the shortest delay, doubled for each failure before it, or the longest delay
-- if that is less, has passed. It is not due after the latest time. The delay that is stored for the
-- failure after it is doubled once more, up to the longest, and the failure has been reported.
pub failures-delay :
    (cfg : Config) (latest : ℕ) (name : List ℕ) (t : ℕ) (times : List ℕ) (bs : Backoffs)
    → lookup name bs ≡ none
    → All (HasRoom cfg latest) (t ∷ times)
    → (b : Backoff) × (lookup name (failures cfg name (t ∷ times) bs) ≡ some b)
      × (b.next_try ≡ last_of t times + wait_after cfg (length times))
      × (b.next_try ≤ latest)
      × (b.delay ≡ wait_after cfg (suc (length times)))
      × (b.reported ≡ true)
failures-delay cfg latest name t times bs fresh room =
    let (b, at, next, delay, reported) = waits cfg name t times bs fresh in
    let last = last_of-HasRoom cfg latest t times room in
    let soon : b.next_try ≤ latest = omega (arith, next, last, wait_after-le cfg (length times)) in
    (b, at, next, soon, delay, reported)
