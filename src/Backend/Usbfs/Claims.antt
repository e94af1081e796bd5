-- ===== src/Backend/Usbfs/Claims.antt =====
-- usbfs.rs: the interfaces that the program claims from the kernel, and hands back.
pub mod Owned
use padwire.Prelude.{
  ℕ, zero, suc, ◌+◌, ◌≡◌, Bool, true, false, ◌||◌, List, [], ◌∷◌, ◌++◌, ◌==◌, if◌then◌else◌, Result,
  ok, err,
}
use padwire.Backend.Descriptors.Interfaces.{has}

-- The system calls on one interface, over the kernel's state. An error is an `errno`; what
-- `connect` returns is the kernel's count of drivers bound.
pub record Interfaces (K : Type 0) : Type 0 where
  pub disconnect_claim : ℕ → K → Result ℕ (Unit {0}) × K
  pub disconnect : ℕ → K → Result ℕ (Unit {0}) × K
  pub claim_interface : ℕ → K → Result ℕ (Unit {0}) × K
  pub release_interface : ℕ → K → K
  pub connect : ℕ → K → Result ℕ ℕ × K

pub record Claims (K : Type 0) : Type 0 where
  pub claimed : List ℕ
  pub kernel : K

abbrev enotty : ℕ
enotty = 25

abbrev einval : ℕ
einval = 22

abbrev enodata : ℕ
enodata = 61

abbrev ebusy : ℕ
ebusy = 16

abbrev eagain : ℕ
eagain = 11

abbrev pub reconnect_attempts : ℕ
reconnect_attempts = 4

module _ {K : Type 0} (sys : Interfaces K) where
  -- The two calls of a kernel that has not got the one: an interface that no driver has is claimed
  -- all the same.
  unfoldable pub claim_in_two : ℕ → K → Result ℕ (Unit {0}) × K
  claim_in_two n k =
      let (answer, k') = sys.disconnect n k in
      elim answer [
        | ok u ↦ sys.claim_interface n k'
        | err e ↦ if e == enodata then sys.claim_interface n k' else (err e, k')
      ]

  unfoldable pub claim_one : ℕ → K → Result ℕ (Unit {0}) × K
  unfolding claim_in_two
  claim_one n k =
      let (answer, k') = sys.disconnect_claim n k in
      elim answer [
        | ok u ↦ (ok u, k')
        | err e ↦ if e == enotty || e == einval then claim_in_two n k' else (err e, k')
      ]

  -- What is claimed before an error stays claimed.
  unfoldable pub claim_each : List ℕ → Claims K → Result ℕ (Unit {0}) × Claims K
  claim_each [] s = (ok tt, s)
  claim_each (n ∷ ns) s =
      let (answer, k) = claim_one n s.kernel in
      let next = claim_each ns (record { claimed = s.claimed ++ n ∷ []; kernel = k }) in
      let skipped = claim_each ns s in
      if has n s.claimed
      then skipped
      else elim answer [ err e ↦ (err e, record s { kernel = k }) | ok u ↦ next ]

  unfoldable pub release_each : List ℕ → K → K
  release_each [] k = k
  release_each (n ∷ ns) k = release_each ns (sys.release_interface n k)

  -- `last` is the error of the attempt before.
  unfoldable pub attempt : ℕ → ℕ → ℕ → K → Result ℕ ℕ × K
  attempt zero last n k = (err last, k)
  attempt (suc left) last n k =
      let (answer, k') = sys.connect n k in
      elim answer [
        | ok rc ↦ (ok rc, k')
        | err e ↦ let again = attempt left e n k' in if e == ebusy then (ok 0, k') else again
      ]

  unfoldable pub reconnect_one : ℕ → K → Result ℕ ℕ × K
  unfolding attempt
  reconnect_one n k = attempt reconnect_attempts eagain n k

  unfoldable pub reconnect_each : List ℕ → K → K
  unfolding reconnect_one
  reconnect_each [] k = k
  reconnect_each (n ∷ ns) k = reconnect_each ns (reconnect_one n k).1

  unfoldable pub release_claimed : List ℕ → K → K
  unfolding release_each reconnect_each
  release_claimed [] k = k
  release_claimed (n ∷ ns) k = reconnect_each (n ∷ ns) (release_each (n ∷ ns) k)

  unfoldable pub release_all : Claims K → Claims K
  unfolding release_claimed
  release_all s = record { claimed = []; kernel = release_claimed s.claimed s.kernel }
