-- ===== src/Backend/Usbfs/Claims/Owned.antt =====
-- usbfs.rs: which interfaces the program owns.
use padwire.Prelude.{
  ℕ, zero, suc, ◌≡◌, refl, ap, sym, ◌∙◌, Bool, true, false, ◌||◌, List, [], ◌∷◌, ◌++◌, ◌==◌,
  if◌then◌else◌, Result, ok, err, arith, inl, inr, Bool-cases, or_assoc, Result-cases,
}
use padwire.Backend.Descriptors.Interfaces.{has}
use padwire.Backend.Usbfs.Claims.{
  Interfaces, Claims, claim_in_two, claim_one, claim_each, release_each, attempt, reconnect_one,
  reconnect_each, release_claimed, release_all,
}

-- What the kernel says of the owner of an interface: a claim that succeeds gives it to the program,
-- one that fails changes nothing, a release takes it away, and drivers that are bound or taken off
-- do not change what the program owns.
pub record Owns {K : Type 0} (sys : Interfaces K) (owned : K → ℕ → Bool) : Type 0 where
  pub claims :
      (n m : ℕ) (k : K)
      → (sys.claim_interface n k).0 ≡ ok tt
      → owned (sys.claim_interface n k).1 m ≡ (owned k m || n == m)
  pub claims_not :
      (n m e : ℕ) (k : K)
      → (sys.claim_interface n k).0 ≡ err e
      → owned (sys.claim_interface n k).1 m ≡ owned k m
  pub takes :
      (n m : ℕ) (k : K)
      → (sys.disconnect_claim n k).0 ≡ ok tt
      → owned (sys.disconnect_claim n k).1 m ≡ (owned k m || n == m)
  pub takes_not :
      (n m e : ℕ) (k : K)
      → (sys.disconnect_claim n k).0 ≡ err e
      → owned (sys.disconnect_claim n k).1 m ≡ owned k m
  pub disconnects : (n m : ℕ) (k : K) → owned (sys.disconnect n k).1 m ≡ owned k m
  pub releases :
      (n m : ℕ) (k : K)
      → owned (sys.release_interface n k) m ≡ (if n == m then false else owned k m)
  pub connects : (n m : ℕ) (k : K) → owned (sys.connect n k).1 m ≡ owned k m

known :
    (n m : ℕ) (ns : List ℕ) (b : Bool)
    → has n ns ≡ true
    → (has m ns || b) ≡ (has m ns || (n == m || b))
known n m [] b h = cc
known n m (k ∷ ns) b h = ground (arith, known n m ns b)

module _ {K : Type 0} (sys : Interfaces K) (owned : K → ℕ → Bool) (v : Owns sys owned) where
  -- After a claim of an interface, by its result.
  abbrev Claimed : ℕ → K → Result ℕ (Unit {0}) × K → Type 0
  Claimed n k (ok u, k') = (m : ℕ) → owned k' m ≡ (owned k m || n == m)
  Claimed n k (err e, k') = (m : ℕ) → owned k' m ≡ owned k m

  claim_interface-Claimed :
      (n : ℕ) (k : K) (r : Result ℕ (Unit {0}))
      → (sys.claim_interface n k).0 ≡ r
      → Claimed n k (r, (sys.claim_interface n k).1)
  claim_interface-Claimed n k (ok u) e = λ m. v.claims n m k e
  claim_interface-Claimed n k (err c) e = λ m. v.claims_not n m c k e

  after :
      (n : ℕ) (k k' : K) (r : Result ℕ (Unit {0}) × K)
      → ((m : ℕ) → owned k' m ≡ owned k m)
      → Claimed n k' r
      → Claimed n k r
  after n k k' (ok u, j) same c = λ m. c m ∙ ap (λ b. b || n == m) (same m)
  after n k k' (err e, j) same c = λ m. c m ∙ same m

  claims-Claimed :
      (n : ℕ) (k k' : K)
      → ((m : ℕ) → owned k' m ≡ owned k m)
      → Claimed n k (sys.claim_interface n k')
  claims-Claimed n k k' same =
      after n k k' (sys.claim_interface n k') same
        (claim_interface-Claimed n k' (sys.claim_interface n k').0 refl)

  claim_in_two-Claimed :
      (n : ℕ) (k k' : K) → ((m : ℕ) → owned k' m ≡ owned k m) → Claimed n k (claim_in_two sys n k')
  unfolding claim_in_two
  claim_in_two-Claimed n k k' same =
      let still : (m : ℕ) → owned (sys.disconnect n k').1 m ≡ owned k m =
        λ m. v.disconnects n m k' ∙ same m in
      elim (Result-cases (sys.disconnect n k').0) [
        | inl (u, h) ↦ rw (h, claim_in_two) (claims-Claimed n k (sys.disconnect n k').1 still)
        | inr (e, h) ↦ elim (Bool-cases (e == 61)) [
          | inl none_bound ↦
              rw (h, claim_in_two)
                (rw none_bound (claims-Claimed n k (sys.disconnect n k').1 still))
          | inr bad ↦ rw (h, claim_in_two) (rw bad still)
        ]
      ]

  claim_one-Claimed : (n : ℕ) (k : K) → Claimed n k (claim_one sys n k)
  unfolding claim_one
  claim_one-Claimed n k = elim (Result-cases (sys.disconnect_claim n k).0) [
    | inl (u, h) ↦ rw (h, claim_one) (λ m. v.takes n m k h)
    | inr (e, h) ↦
        let same : (m : ℕ) → owned (sys.disconnect_claim n k).1 m ≡ owned k m =
          λ m. v.takes_not n m e k h in
        elim (Bool-cases (e == 25 || e == 22)) [
          | inl old ↦
              rw (h, claim_one)
                (rw old (claim_in_two-Claimed n k (sys.disconnect_claim n k).1 same))
          | inr bad ↦ rw (h, claim_one) (rw bad same)
        ]
  ]

  -- The list of the program is what it owns.
  abbrev pub IsTracked : Claims K → Type 0
  IsTracked s = (m : ℕ) → owned s.kernel m ≡ has m s.claimed

  has-append : (m n : ℕ) (ns : List ℕ) → has m (ns ++ n ∷ []) ≡ (has m ns || n == m)
  has-append m n [] = ground arith
  has-append m n (k ∷ ns) = ground (arith, has-append m n ns)

  one_step :
      (n : ℕ) (s : Claims K) (r : Result ℕ (Unit {0}) × K)
      → IsTracked s
      → r.0 ≡ ok tt
      → Claimed n s.kernel r
      → IsTracked (record { claimed = s.claimed ++ n ∷ []; kernel = r.1 })
  one_step n s (ok u, k) t e c =
      λ m. c m ∙ ap (λ b. b || n == m) (t m) ∙ sym (has-append m n s.claimed)
  one_step n s (err x, k) t e c = cc (e)

  failed_step :
      (n x : ℕ) (s : Claims K) (r : Result ℕ (Unit {0}) × K)
      → IsTracked s
      → r.0 ≡ err x
      → Claimed n s.kernel r
      → IsTracked (record s { kernel = r.1 })
  failed_step n x s (ok u, k) t e c = cc (e)
  failed_step n x s (err y, k) t e c = λ m. c m ∙ t m

  -- Claiming keeps the list true to what the kernel says that the program owns, whether it ends well
  -- or at an interface that cannot be had.
  pub claim_each-IsTracked :
      (ns : List ℕ) (s : Claims K) → IsTracked s → IsTracked (claim_each sys ns s).1
  unfolding claim_each
  claim_each-IsTracked [] s t = t
  claim_each-IsTracked (n ∷ ns) s t = elim (Bool-cases (has n s.claimed)) [
    | inl old ↦ rw old (claim_each-IsTracked ns s t)
    | inr fresh ↦ rw fresh (elim (Result-cases (claim_one sys n s.kernel).0) [
      | inl (u, h) ↦
          rw (h, claim_each)
            (claim_each-IsTracked ns
              (record { claimed = s.claimed ++ n ∷ []; kernel = (claim_one sys n s.kernel).1 })
              (one_step n s (claim_one sys n s.kernel) t h (claim_one-Claimed n s.kernel)))
      | inr (e, h) ↦
          rw (h, claim_each)
            (failed_step n e s (claim_one sys n s.kernel) t h (claim_one-Claimed n s.kernel))
    ])
  ]

  claim_each-claimed :
      (ns : List ℕ) (s : Claims K) (m : ℕ)
      → (claim_each sys ns s).0 ≡ ok tt
      → has m (claim_each sys ns s).1.claimed ≡ (has m s.claimed || has m ns)
  unfolding claim_each
  claim_each-claimed [] s m h = ground arith
  claim_each-claimed (n ∷ ns) s m h = elim (Bool-cases (has n s.claimed)) [
    | inl old ↦
        rw old (claim_each-claimed ns s m (rw old at h) ∙ known n m s.claimed (has m ns) old)
    | inr fresh ↦ rw fresh (elim (Result-cases (claim_one sys n s.kernel).0) [
      | inl (u, e) ↦
          let s' : Claims K = record {
            claimed = s.claimed ++ n ∷ [];
            kernel = (claim_one sys n s.kernel).1;
          } in
          rw (e, claim_each)
            (claim_each-claimed ns s' m (rw (e, claim_each) at (rw fresh at h))
              ∙ ap (λ b. b || has m ns) (has-append m n s.claimed)
              ∙ or_assoc (has m s.claimed) (n == m) (has m ns))
      | inr (x, e) ↦ cc (rw (e, claim_each) at (rw fresh at h))
    ])
  ]

  -- When claiming ends well, the program owns what it owned and every interface that it was to claim,
  -- and no other.
  pub claim_each-owned :
      (ns : List ℕ) (s : Claims K) (m : ℕ)
      → IsTracked s
      → (claim_each sys ns s).0 ≡ ok tt
      → owned (claim_each sys ns s).1.kernel m ≡ (has m s.claimed || has m ns)
  claim_each-owned ns s m t h = claim_each-IsTracked ns s t m ∙ claim_each-claimed ns s m h

  attempt-owned : (left last n m : ℕ) (k : K) → owned (attempt sys left last n k).1 m ≡ owned k m
  unfolding attempt
  attempt-owned zero last n m k = refl
  attempt-owned (suc left) last n m k = elim (Result-cases (sys.connect n k).0) [
    | inl (rc, h) ↦ rw (h, attempt) (v.connects n m k)
    | inr (e, h) ↦ elim (Bool-cases (e == 16)) [
      | inl taken ↦ rw (h, attempt) (rw taken (v.connects n m k))
      | inr bad ↦
          rw (h, attempt) (rw bad (attempt-owned left e n m (sys.connect n k).1 ∙ v.connects n m k))
    ]
  ]

  reconnect_each-owned :
      (ns : List ℕ) (m : ℕ) (k : K) → owned (reconnect_each sys ns k) m ≡ owned k m
  unfolding reconnect_each reconnect_one
  reconnect_each-owned [] m k = refl
  reconnect_each-owned (n ∷ ns) m k =
      reconnect_each-owned ns m (reconnect_one sys n k).1 ∙ attempt-owned 4 11 n m k

  release_each-owned :
      (ns : List ℕ) (m : ℕ) (k : K)
      → owned (release_each sys ns k) m ≡ (if has m ns then false else owned k m)
  unfolding release_each
  release_each-owned [] m k = refl
  release_each-owned (n ∷ ns) m k =
      release_each-owned ns m (sys.release_interface n k)
      ∙ ap (λ b. if has m ns then false else b) (v.releases n m k)
      ∙ ground arith

  gone :
      (m : ℕ) (s : Claims K)
      → IsTracked s
      → (if has m s.claimed then false else owned s.kernel m) ≡ false
  gone m s t = elim (Bool-cases (has m s.claimed)) [ inl e ↦ rw e refl | inr e ↦ rw e (t m ∙ e) ]

  release_claimed-owned :
      (ns : List ℕ) (m : ℕ) (k : K)
      → owned (release_claimed sys ns k) m ≡ (if has m ns then false else owned k m)
  unfolding release_claimed
  release_claimed-owned [] m k = refl
  release_claimed-owned (n ∷ ns) m k =
      reconnect_each-owned (n ∷ ns) m (release_each sys (n ∷ ns) k)
      ∙ release_each-owned (n ∷ ns) m k

  -- After `release_all` the program owns no interface, and its list is empty, however the attempts to
  -- bind the drivers again end.
  pub release_all-owned :
      (s : Claims K) (m : ℕ)
      → IsTracked s
      → (owned (release_all sys s).kernel m ≡ false) × ((release_all sys s).claimed ≡ [])
  unfolding release_all
  release_all-owned s m t = (release_claimed-owned s.claimed m s.kernel ∙ gone m s t, refl)
