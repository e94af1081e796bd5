-- ===== src/Backend/Usbfs/Table.antt =====
-- usbfs.rs: the table of the URBs on their way.
use padwire.Prelude.{
  ℕ, ◌≡◌, refl, ap, sym, subst, ◌∙◌, true, false, some, List, [], ◌∷◌, ltb, ◌==◌, ok, arith, inl,
  inr, Bool-cases, Option-cases, Result-cases,
}
use padwire.Backend.{UrbRequest}
use padwire.Backend.Usbfs.Requests.{
  urb_type_for, classify, Special, set_address, set_configuration, set_interface, clear_halt,
}
use padwire.Backend.Usbfs.Device.{
  Kernel, State, Fixed, Entries, PendingUrb, urb_of, contains_key, set_unlinked, remove,
  payload_len, completion_of, hand_over, submit_plain, tweak, submit_typed, submit, unlink, reap,
}

-- No seqnum stands twice in the table.
abbrev pub AreDistinct : Entries → Type 0
AreDistinct [] = Unit {0}
AreDistinct ((s, u) ∷ entries) = (contains_key s entries ≡ false) × AreDistinct entries

contains_key-set_unlinked :
    (k s : ℕ) (entries : Entries) → contains_key k (set_unlinked s entries) ≡ contains_key k entries
unfolding contains_key set_unlinked
contains_key-set_unlinked k s [] = refl
contains_key-set_unlinked k s ((n, u) ∷ entries) =
    ground (arith, contains_key-set_unlinked k s entries)

set_unlinked-AreDistinct :
    (s : ℕ) (entries : Entries) → AreDistinct entries → AreDistinct (set_unlinked s entries)
unfolding set_unlinked
set_unlinked-AreDistinct s [] v = tt
set_unlinked-AreDistinct s ((n, u) ∷ entries) v = elim (Bool-cases (n == s)) [
  | inl e ↦ rw e v
  | inr e ↦
      rw e (contains_key-set_unlinked n s entries ∙ v.0, set_unlinked-AreDistinct s entries v.1)
]

contains_key-remove :
    (k s : ℕ) (entries : Entries)
    → contains_key k entries ≡ false
    → contains_key k (remove s entries).1 ≡ false
unfolding contains_key remove
contains_key-remove k s [] h = refl
contains_key-remove k s ((n, u) ∷ entries) h = ground (arith, h, contains_key-remove k s entries)

remove-AreDistinct :
    (s : ℕ) (entries : Entries) → AreDistinct entries → AreDistinct (remove s entries).1
unfolding remove
remove-AreDistinct s [] v = tt
remove-AreDistinct s ((n, u) ∷ entries) v = elim (Bool-cases (n == s)) [
  | inl e ↦ rw e v.1
  | inr e ↦ rw e (contains_key-remove n s entries v.0, remove-AreDistinct s entries v.1)
]

remove-set_unlinked :
    (s : ℕ) (entries : Entries)
    → contains_key s entries ≡ true
    → (remove s (set_unlinked s entries)).0 ≡ true
unfolding contains_key remove set_unlinked
remove-set_unlinked s [] h = cc
remove-set_unlinked s ((n, u) ∷ entries) h = ground (arith, h, remove-set_unlinked s entries)

remove_gone :
    (s : ℕ) (entries : Entries) → AreDistinct entries → contains_key s (remove s entries).1 ≡ false
unfolding remove contains_key
remove_gone s [] v = refl
remove_gone s ((n, u) ∷ entries) v = elim (Bool-cases (n == s)) [
  | inl e ↦ rw e (ap (λ k. contains_key k entries) (ground (arith, e)) ∙ v.0)
  | inr e ↦ rw e (ground (arith, e, remove_gone s entries v.1))
]

module _ {K : Type 0} (sys : Kernel K) (fixed : Fixed) where
  hand_over-AreDistinct :
      (p : PendingUrb) (s : State K)
      → contains_key p.seqnum s.pending ≡ false
      → AreDistinct s.pending
      → AreDistinct (hand_over sys fixed p s).1.pending
  unfolding hand_over
  hand_over-AreDistinct p s fresh v = elim (Result-cases (sys.submit_urb p s.kernel).0) [
    | inl (u, e) ↦ rw (e, hand_over) (fresh, v)
    | inr (n, e) ↦ rw (e, hand_over) v
  ]

  submit_plain-AreDistinct :
      (req : UrbRequest) (address t : ℕ) (s : State K)
      → AreDistinct s.pending
      → AreDistinct (submit_plain sys fixed req address t s).1.pending
  unfolding submit_plain urb_of
  submit_plain-AreDistinct req address t s v =
      elim (Bool-cases (ltb fixed.max_transfer (payload_len req t))) [
        | inl large ↦ rw large v
        | inr fits ↦ rw fits (elim (Bool-cases (contains_key req.seqnum s.pending)) [
          | inl live ↦ rw live v
          | inr fresh ↦ rw fresh (hand_over-AreDistinct (urb_of fixed req address t) s fresh v)
        ])
      ]

  tweak-pending : (x : Special) (s : State K) → (tweak sys fixed x s).1.pending ≡ s.pending
  unfolding tweak
  tweak-pending (set_address a) s = refl
  tweak-pending (set_configuration n) s = refl
  tweak-pending (set_interface n m) s = refl
  tweak-pending (clear_halt n) s = refl

  submit_typed-AreDistinct :
      (req : UrbRequest) (address t : ℕ) (s : State K)
      → AreDistinct s.pending
      → AreDistinct (submit_typed sys fixed req address t s).1.pending
  unfolding submit_typed
  submit_typed-AreDistinct req address t s v = elim (Bool-cases (t == 2)) [
    | inr e ↦ rw e (submit_plain-AreDistinct req address t s v)
    | inl e ↦ rw e (elim (Option-cases (classify req.setup)) [
      | inl plain ↦ rw plain (submit_plain-AreDistinct req address t s v)
      | inr (x, special) ↦ rw special (subst AreDistinct (sym (tweak-pending x s)) v)
    ])
  ]

  submit-AreDistinct :
      (req : UrbRequest) (s : State K)
      → AreDistinct s.pending
      → AreDistinct (submit sys fixed req s).1.pending
  unfolding submit
  submit-AreDistinct req s v = elim (Result-cases (urb_type_for fixed.types req.ep req.dir)) [
    | inl ((address, t), e) ↦ rw (e, submit) (submit_typed-AreDistinct req address t s v)
    | inr (x, e) ↦ rw (e, submit) v
  ]

  pub unlink-AreDistinct :
      (n : ℕ) (s : State K) → AreDistinct s.pending → AreDistinct (unlink sys fixed n s).1.pending
  unfolding unlink
  unlink-AreDistinct n s v = elim (Bool-cases (contains_key n s.pending)) [
    | inl live ↦ rw live (set_unlinked-AreDistinct n s.pending v)
    | inr gone ↦ rw gone v
  ]

  reap-AreDistinct :
      (s : State K) → AreDistinct s.pending → AreDistinct (reap sys fixed s).1.pending
  unfolding reap
  reap-AreDistinct s v = elim (Result-cases (sys.reap_urb s.kernel).0) [
    | inr (e, h) ↦ rw (h, reap) v
    | inl (o, h) ↦ elim (Option-cases o) [
      | inl e ↦ rw (h ∙ ap ok e, reap) v
      | inr (p, e) ↦ rw (h ∙ ap ok e, reap) (remove-AreDistinct p.seqnum s.pending v)
    ]
  ]

-- A call of the device, in the order in which the lock lets them through.
pub data Call : Type 0 where
  submits : UrbRequest → Call
  unlinks : ℕ → Call
  reaps : Call

module _ {K : Type 0} (sys : Kernel K) (fixed : Fixed) where
  unfoldable pub call : Call → State K → State K
  call (submits req) s = (submit sys fixed req s).1
  call (unlinks n) s = (unlink sys fixed n s).1
  call reaps s = (reap sys fixed s).1

  unfoldable pub calls : List Call → State K → State K
  unfolding call
  calls [] s = s
  calls (c ∷ cs) s = calls cs (call c s)

  call-AreDistinct :
      (c : Call) (s : State K) → AreDistinct s.pending → AreDistinct (call c s).pending
  unfolding call
  call-AreDistinct (submits req) s v = submit-AreDistinct sys fixed req s v
  call-AreDistinct (unlinks n) s v = unlink-AreDistinct sys fixed n s v
  call-AreDistinct reaps s v = reap-AreDistinct sys fixed s v

  -- Whatever the kernel does, a table that starts without a seqnum that stands twice has none
  -- after any calls of the device, so that a completion finds the one entry that is its own.
  pub calls-AreDistinct :
      (cs : List Call) (s : State K) → AreDistinct s.pending → AreDistinct (calls cs s).pending
  unfolding calls
  calls-AreDistinct [] s v = v
  calls-AreDistinct (c ∷ cs) s v = calls-AreDistinct cs (call c s) (call-AreDistinct c s v)

  reap_found :
      (s : State K) (p : PendingUrb)
      → (sys.reap_urb s.kernel).0 ≡ ok (some p)
      → ((reap sys fixed s).0 ≡ ok (some (completion_of p (remove p.seqnum s.pending).0)))
        × ((reap sys fixed s).1.pending ≡ (remove p.seqnum s.pending).1)
  unfolding reap
  reap_found s p h = rw (h, reap) (refl, refl)

  unlink-pending :
      (n : ℕ) (s : State K)
      → contains_key n s.pending ≡ true
      → (unlink sys fixed n s).1.pending ≡ set_unlinked n s.pending
  unfolding unlink
  unlink-pending n s live = rw live refl

  -- A URB that is unlinked while it is on its way comes back marked as unlinked, and leaves the
  -- table, whether or not the kernel could stop it.
  pub unlink-reap :
      (n : ℕ) (s : State K) (p : PendingUrb)
      → AreDistinct s.pending
      → contains_key n s.pending ≡ true
      → (sys.reap_urb (unlink sys fixed n s).1.kernel).0 ≡ ok (some p)
      → p.seqnum ≡ n
      → ((reap sys fixed (unlink sys fixed n s).1).0 ≡ ok (some (completion_of p true)))
        × (contains_key n (reap sys fixed (unlink sys fixed n s).1).1.pending ≡ false)
  unlink-reap n s p v live back same =
      let found = reap_found (unlink sys fixed n s).1 p back in
      let at = unlink-pending n s live in
      (
        found.0
            ∙ ap (λ k. ok (some (completion_of p (remove k (unlink sys fixed n s).1.pending).0)))
                same
            ∙ ap (λ t. ok (some (completion_of p (remove n t).0))) at
            ∙ ap (λ b. ok (some (completion_of p b))) (remove-set_unlinked n s.pending live),
        ap (contains_key n) (
              found.1
              ∙ ap (λ k. (remove k (unlink sys fixed n s).1.pending).1) same
              ∙ ap (λ t. (remove n t).1) at)
            ∙ remove_gone n (set_unlinked n s.pending) (set_unlinked-AreDistinct n s.pending v),
      )
