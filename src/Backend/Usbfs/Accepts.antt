-- ===== src/Backend/Usbfs/Accepts.antt =====
-- usbfs.rs: what `submit` accepts.
use padwire.Prelude.{
  ℕ, ◌≤◌, ◌≡◌, refl, false, ◌∷◌, ltb, ◌==◌, ok, arith, inl, inr, Bool-cases, Option-cases,
  Result-cases,
}
use padwire.Backend.{UrbRequest}
use padwire.Backend.Usbfs.Requests.{
  urb_type_for, classify, Special, set_address, set_configuration, set_interface, clear_halt,
  type_control,
}
use padwire.Backend.Usbfs.Device.{
  Kernel, State, Fixed, PendingUrb, urb_of, contains_key, payload_len, hand_over, submit_plain,
  tweak, submit_typed, submit,
}

module _ {K : Type 0} (sys : Kernel K) (fixed : Fixed) where
  -- What is so of a request that is accepted as a URB of a type.
  abbrev pub IsAccepted : UrbRequest → ℕ → ℕ → State K → State K → Type 0
  IsAccepted req address t s s' =
      (payload_len req t ≤ fixed.max_transfer)
      × (contains_key req.seqnum s.pending ≡ false)
      × ((sys.submit_urb (urb_of fixed req address t) s.kernel).0 ≡ ok tt)
      × (s'.pending ≡ (req.seqnum, false) ∷ s.pending)
      × (s'.kernel ≡ (sys.submit_urb (urb_of fixed req address t) s.kernel).1)

  hand_over-ok :
      (p : PendingUrb) (s : State K)
      → (hand_over sys fixed p s).0 ≡ ok tt
      → ((sys.submit_urb p s.kernel).0 ≡ ok tt)
        × ((hand_over sys fixed p s).1.pending ≡ (p.seqnum, false) ∷ s.pending)
        × ((hand_over sys fixed p s).1.kernel ≡ (sys.submit_urb p s.kernel).1)
  unfolding hand_over
  hand_over-ok p s h = elim (Result-cases (sys.submit_urb p s.kernel).0) [
    | inl (u, e) ↦ rw (e, hand_over) (refl, refl, refl)
    | inr (n, e) ↦ cc (rw (e, hand_over) at h)
  ]

  submit_plain-ok :
      (req : UrbRequest) (address t : ℕ) (s : State K)
      → (submit_plain sys fixed req address t s).0 ≡ ok tt
      → IsAccepted req address t s (submit_plain sys fixed req address t s).1
  unfolding submit_plain urb_of
  submit_plain-ok req address t s h =
      elim (Bool-cases (ltb fixed.max_transfer (payload_len req t))) [
        | inl large ↦ cc (rw large at h)
        | inr fits ↦ elim (Bool-cases (contains_key req.seqnum s.pending)) [
          | inl live ↦ cc (rw live at (rw fits at h))
          | inr fresh ↦
              let done = hand_over-ok (urb_of fixed req address t) s (rw fresh at (rw fits at h)) in
              rw fits (rw fresh (ground (arith, fits), refl, done.0, done.1, done.2))
        ]
      ]

  tweak_err : (x : Special) (s : State K) → (tweak sys fixed x s).0 ≡ ok tt → ⊥
  unfolding tweak
  tweak_err (set_address a) s h = cc
  tweak_err (set_configuration n) s h = cc
  tweak_err (set_interface n m) s h = cc
  tweak_err (clear_halt n) s h = cc

  submit_typed-ok :
      (req : UrbRequest) (address t : ℕ) (s : State K)
      → (submit_typed sys fixed req address t s).0 ≡ ok tt
      → IsAccepted req address t s (submit_typed sys fixed req address t s).1
  unfolding submit_typed
  submit_typed-ok req address t s h = elim (Bool-cases (t == type_control)) [
    | inr e ↦ rw e (submit_plain-ok req address t s (rw e at h))
    | inl e ↦ elim (Option-cases (classify req.setup)) [
      | inl plain ↦ rw e (rw plain (submit_plain-ok req address t s (rw plain at (rw e at h))))
      | inr (x, special) ↦ elim (tweak_err x s (rw special at (rw e at h))) [ ]
    ]
  ]

  -- A request that `submit` accepts has gone to the kernel as the URB of its endpoint's type, is no
  -- larger than the largest transfer, has a seqnum that was not on its way, and stands in the table
  -- as not unlinked.
  pub submit-ok :
      (req : UrbRequest) (s : State K)
      → (submit sys fixed req s).0 ≡ ok tt
      → (address : ℕ) × (t : ℕ) × (urb_type_for fixed.types req.ep req.dir ≡ ok (address, t))
        × IsAccepted req address t s (submit sys fixed req s).1
  unfolding submit
  submit-ok req s h = elim (Result-cases (urb_type_for fixed.types req.ep req.dir)) [
    | inl ((address, t), e) ↦
        (address, t, e, rw (e, submit) (submit_typed-ok req address t s (rw (e, submit) at h)))
    | inr (x, e) ↦ cc (rw (e, submit) at h)
  ]
