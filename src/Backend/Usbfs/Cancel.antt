-- ===== src/Backend/Usbfs/Cancel.antt =====
-- usbfs.rs: what `cancel_pending` does to the table. Its deadline is a number of rounds, and to wait
-- for the kernel a function of its state.
use padwire.Prelude.{
  ℕ, zero, suc, ◌≡◌, refl, ap, sym, subst, ◌∙◌, true, false, none, some, List, [], ◌∷◌, All, ◌==◌,
  if◌then◌else◌, ok, err, arith, ◌⊎◌, inl, inr, Bool-cases, Option-cases, Result-cases,
}
use padwire.Prelude.Text.{is_nil}
use padwire.Backend.Descriptors.Interfaces.{has}
use padwire.Backend.Usbfs.Device.{
  Kernel, State, Fixed, Entries, contains_key, set_unlinked, remove, unlink, reap,
}
use padwire.Backend.Usbfs.Table.{AreDistinct, unlink-AreDistinct}

unfoldable pub keys : Entries → List ℕ
keys [] = []
keys ((n, u) ∷ entries) = n ∷ keys entries

module _ {K : Type 0} (sys : Kernel K) (fixed : Fixed) where
  unfoldable pub unlink_each : List ℕ → State K → State K
  unlink_each [] s = s
  unlink_each (n ∷ ns) s = unlink_each ns (unlink sys fixed n s).1

  -- The rounds that the deadline leaves.
  unfoldable pub drain : ℕ → (K → K) → State K → State K
  drain zero wait s = s
  drain (suc n) wait s =
      let (answer, s') = reap sys fixed s in
      let again = drain n wait s' in
      let waited = drain n wait (record s' { kernel = wait s'.kernel }) in
      if is_nil s.pending
      then s
      else elim answer [ err e ↦ s' | ok o ↦ elim o [ none ↦ waited | some c ↦ again ] ]

  unfoldable pub cancel_pending : ℕ → (K → K) → State K → State K
  unfolding keys unlink_each drain
  cancel_pending rounds wait s =
      let s' = drain rounds wait (unlink_each (keys s.pending) s) in
      if is_nil s.pending then s else s'

-- Marked as unlinked, or still to be.
abbrev Marks : List ℕ → Entries → Type 0
Marks ns [] = Unit {0}
Marks ns ((n, u) ∷ entries) = ((u ≡ true) ⊎ (has n ns ≡ true)) × Marks ns entries

Marks-without :
    (n : ℕ) (ns : List ℕ) (entries : Entries)
    → contains_key n entries ≡ false
    → Marks (n ∷ ns) entries
    → Marks ns entries
unfolding contains_key
Marks-without n ns [] h v = tt
Marks-without n ns ((k, u) ∷ entries) h (inl on, rest) =
    (inl on, Marks-without n ns entries (ground (arith, h)) rest)
Marks-without n ns ((k, u) ∷ entries) h (inr there, rest) =
    (inr (ground (arith, h, there)), Marks-without n ns entries (ground (arith, h)) rest)

Marks-set_unlinked :
    (n : ℕ) (ns : List ℕ) (entries : Entries)
    → AreDistinct entries
    → Marks (n ∷ ns) entries
    → Marks ns (set_unlinked n entries)
unfolding set_unlinked
Marks-set_unlinked n ns [] d v = tt
Marks-set_unlinked n ns ((k, u) ∷ entries) d v = elim (Bool-cases (k == n)) [
  | inl same ↦
      let e : k ≡ n = ground (arith, same) in
      rw same
        (inl refl, Marks-without n ns entries (ap (λ x. contains_key x entries) (sym e) ∙ d.0) v.1)
  | inr other ↦ rw other (later v.0 other, Marks-set_unlinked n ns entries d.1 v.1)
]
  where
    later : (u ≡ true) ⊎ (has k (n ∷ ns) ≡ true) → (k == n) ≡ false → (u ≡ true) ⊎ (has k ns ≡ true)
    later (inl on) e = inl on
    later (inr there) e = inr (ground (arith, there, e))

Marks-keys :
    (entries : Entries) (ns : List ℕ)
    → ((n : ℕ) → has n (keys entries) ≡ true → has n ns ≡ true)
    → Marks ns entries
unfolding keys
Marks-keys [] ns h = tt
Marks-keys ((n, u) ∷ entries) ns h =
    (inr (h n (ground arith)), Marks-keys entries ns λ k e. h k (ground (arith, e)))

Marks-remove :
    (n : ℕ) (ns : List ℕ) (entries : Entries) → Marks ns entries → Marks ns (remove n entries).1
unfolding remove
Marks-remove n ns [] v = tt
Marks-remove n ns ((k, u) ∷ entries) v = elim (Bool-cases (k == n)) [
  | inl e ↦ rw e v.1
  | inr e ↦ rw e (v.0, Marks-remove n ns entries v.1)
]

-- Every URB that is still on its way has been unlinked.
abbrev pub AllUnlinked : Entries → Type 0
AllUnlinked entries = All (λ e. e.1 ≡ true) entries

AllUnlinked-Marks : (entries : Entries) → Marks [] entries → AllUnlinked entries
AllUnlinked-Marks [] v = tt
AllUnlinked-Marks ((n, u) ∷ entries) (inl on, rest) = (on, AllUnlinked-Marks entries rest)
AllUnlinked-Marks ((n, u) ∷ entries) (inr there, rest) = absurd (ground (arith, there))

module _ {K : Type 0} (sys : Kernel K) (fixed : Fixed) where
  unlinked-pending :
      (n : ℕ) (s : State K)
      → contains_key n s.pending ≡ true
      → (unlink sys fixed n s).1.pending ≡ set_unlinked n s.pending
  unfolding unlink
  unlinked-pending n s live = rw live refl

  missed :
      (n : ℕ) (s : State K)
      → contains_key n s.pending ≡ false
      → (unlink sys fixed n s).1.pending ≡ s.pending
  unfolding unlink
  missed n s gone = rw gone refl

  unlink-Marks :
      (n : ℕ) (ns : List ℕ) (s : State K)
      → AreDistinct s.pending
      → Marks (n ∷ ns) s.pending
      → Marks ns (unlink sys fixed n s).1.pending
  unlink-Marks n ns s d v = elim (Bool-cases (contains_key n s.pending)) [
    | inr gone ↦ subst (Marks ns) (sym (missed n s gone)) (Marks-without n ns s.pending gone v)
    | inl live ↦
        subst (Marks ns) (sym (unlinked-pending n s live)) (Marks-set_unlinked n ns s.pending d v)
  ]

  unlink_each-Marks :
      (ns : List ℕ) (s : State K)
      → AreDistinct s.pending
      → Marks ns s.pending
      → Marks [] (unlink_each sys fixed ns s).pending
  unfolding unlink_each
  unlink_each-Marks [] s d v = v
  unlink_each-Marks (n ∷ ns) s d v =
      unlink_each-Marks ns (unlink sys fixed n s).1 (unlink-AreDistinct sys fixed n s d)
        (unlink-Marks n ns s d v)

  reap-Marks : (s : State K) → Marks [] s.pending → Marks [] (reap sys fixed s).1.pending
  unfolding reap
  reap-Marks s v = elim (Result-cases (sys.reap_urb s.kernel).0) [
    | inr (e, h) ↦ rw (h, reap) v
    | inl (o, h) ↦ elim (Option-cases o) [
      | inl e ↦ rw (h ∙ ap ok e, reap) v
      | inr (p, e) ↦ rw (h ∙ ap ok e, reap) (Marks-remove p.seqnum [] s.pending v)
    ]
  ]

  drain-Marks :
      (rounds : ℕ) (wait : K → K) (s : State K)
      → Marks [] s.pending
      → Marks [] (drain sys fixed rounds wait s).pending
  unfolding drain
  drain-Marks zero wait s v = v
  drain-Marks (suc n) wait s v =
      let s' = (reap sys fixed s).1 in
      let v' = reap-Marks s v in
      elim (Bool-cases (is_nil s.pending)) [
        | inl e ↦ rw e v
        | inr e ↦ rw e (elim (Result-cases (reap sys fixed s).0) [
          | inr (x, h) ↦ rw h v'
          | inl (o, h) ↦ elim (Option-cases o) [
            | inl e' ↦
                rw (h ∙ ap ok e') (drain-Marks n wait (record s' { kernel = wait s'.kernel }) v')
            | inr (c, e') ↦ rw (h ∙ ap ok e') (drain-Marks n wait s' v')
          ]
        ])
      ]

  -- After `cancel_pending`, whatever the kernel hands back and however soon the deadline comes, each
  -- URB that is still in the table is marked as unlinked, if no seqnum stood twice in it.
  pub cancel_pending-AllUnlinked :
      (rounds : ℕ) (wait : K → K) (s : State K)
      → AreDistinct s.pending
      → AllUnlinked (cancel_pending sys fixed rounds wait s).pending
  unfolding cancel_pending
  cancel_pending-AllUnlinked rounds wait s d = elim (Bool-cases (is_nil s.pending)) [
    | inl e ↦ rw e (nothing s.pending e)
    | inr e ↦ rw e (
        AllUnlinked-Marks _ (
          drain-Marks rounds wait _ (
            unlink_each-Marks (keys s.pending) s d
              (Marks-keys s.pending (keys s.pending) λ n h. h))))
  ]
    where
      nothing : (entries : Entries) → is_nil entries ≡ true → AllUnlinked entries
      nothing [] e = tt
      nothing (x ∷ entries) e = absurd (ground (arith, e))
