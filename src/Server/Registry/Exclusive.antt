-- ===== src/Server/Registry/Exclusive.antt =====
-- registry.rs: who holds leases, whatever the sessions do.
use padwire.Prelude.{
  ℕ, suc, ◌-◌, ◌<◌, ◌≡◌, refl, ap, sym, ◌∙◌, Bool, true, false, ◌&&◌, ◌||◌, not, Option, none, some,
  List, [], ◌∷◌, if◌then◌else◌, arith, inl, inr, Bool-cases,
}
use padwire.Server.Names.{Name, is_same, is_same-eq, contains, contains-filtered, insert, remove}
use padwire.Server.Registry.{Registry, Lease, new, acquire, drop}

-- The registry and the leases that sessions hold.
pub record World : Type 0 where
  pub registry : Registry
  pub leases : List Lease

unfoldable pub returned : Lease → List Lease → List Lease
returned lease [] = []
returned lease (l ∷ ls) = if is_same l.busid lease.busid then ls else l ∷ returned lease ls

unfoldable pub count : Name → List Lease → ℕ
count busid [] = 0
count busid (l ∷ ls) = if is_same l.busid busid then suc (count busid ls) else count busid ls

-- A session asks for a device, or a session that holds a lease ends.
pub data Reach : World → Type 0 where
  start : Reach (record { registry = new; leases = [] })
  granted :
      {w : World} {lease : Lease} (busid : Name)
      → Reach w
      → (acquire w.registry busid).0 ≡ some lease
      → Reach (record { registry = (acquire w.registry busid).1; leases = lease ∷ w.leases })
  refused :
      {w : World} (busid : Name)
      → Reach w
      → (acquire w.registry busid).0 ≡ none
      → Reach (record { registry = (acquire w.registry busid).1; leases = w.leases })
  dropped :
      {w : World} (lease : Lease)
      → Reach w
      → 0 < count lease.busid w.leases
      → Reach (record { registry = drop lease w.registry; leases = returned lease w.leases })

abbrev one : Bool → ℕ
one false = 0
one true = 1

-- A device is marked just when one lease of it is held, and no device has two.
abbrev pub IsExact : World → Type 0
IsExact w = (busid : Name) → count busid w.leases ≡ one (contains busid w.registry.busy)

abbrev name_of : Option Lease → Name
name_of none = []
name_of (some l) = l.busid

counted :
    (s : Bool) (n : ℕ) (c : Bool)
    → n ≡ one c
    → (s ≡ true → c ≡ false)
    → (if s then suc n else n) ≡ one (s || c)
counted true n c h absent = ap suc (h ∙ ap one (absent refl))
counted false n c h absent = h

one-minus : (c s : Bool) → one c - one s ≡ one (not s && c)
one-minus true true = refl
one-minus true false = refl
one-minus false true = refl
one-minus false false = refl

step_back : (s : Bool) (n : ℕ) → n ≡ (if s then suc n else n) - one s
step_back true n = omega arith
step_back false n = omega arith

granted-IsExact :
    (r : Registry) (ls : List Lease) (busid : Name) {lease : Lease}
    → IsExact (record { registry = r; leases = ls })
    → (acquire r busid).0 ≡ some lease
    → IsExact (record { registry = (acquire r busid).1; leases = lease ∷ ls })
unfolding acquire insert count contains
granted-IsExact r ls busid {lease} h e b = elim (Bool-cases (contains busid r.busy)) [
  | inl there ↦ cc (rw (there, insert) at e)
  | inr absent ↦
      let e' : some (record { busid = busid }) ≡ some lease = rw (absent, insert) at e in
      let named : busid ≡ lease.busid = ap name_of e' in
      let same : is_same lease.busid b ≡ is_same busid b = ap (λ x. is_same x b) (sym named) in
      rw (absent, insert)
        (rw same (
          counted (is_same busid b) (count b ls) (contains b r.busy) (h b)
            λ s. ap (λ x. contains x r.busy) (sym (is_same-eq busid b s)) ∙ absent))
]

refused-IsExact :
    (r : Registry) (ls : List Lease) (busid : Name)
    → IsExact (record { registry = r; leases = ls })
    → (acquire r busid).0 ≡ none
    → IsExact (record { registry = (acquire r busid).1; leases = ls })
unfolding acquire insert
refused-IsExact r ls busid h e b = elim (Bool-cases (contains busid r.busy)) [
  | inl there ↦ rw (there, insert) (h b)
  | inr absent ↦ cc (rw (absent, insert) at e)
]

count-returned :
    (b : Name) (lease : Lease) (ls : List Lease)
    → 0 < count lease.busid ls
    → count b (returned lease ls) ≡ count b ls - one (is_same lease.busid b)
unfolding count returned
count-returned b lease [] h = ground arith
count-returned b lease (l ∷ ls) h = elim (Bool-cases (is_same l.busid lease.busid)) [
  | inl same ↦
      let e : is_same l.busid b ≡ is_same lease.busid b =
        ap (λ x. is_same x b) (is_same-eq l.busid lease.busid same) in
      rw same (rw e (step_back (is_same lease.busid b) (count b ls)))
  | inr other ↦
      let rest = count-returned b lease ls (rw other at h) in
      elim (Bool-cases (is_same lease.busid b)) [
        | inl this ↦
            let e : is_same l.busid b ≡ false =
              ap (λ x. is_same l.busid x) (sym (is_same-eq lease.busid b this)) ∙ other in
            rw other (rw e rest)
        | inr not_this ↦
            let e : count b (returned lease ls) ≡ count b ls =
              rest ∙ ap (λ s. count b ls - one s) not_this ∙ omega arith in
            rw other (ground (arith, e, not_this))
      ]
]

dropped-IsExact :
    (r : Registry) (ls : List Lease) (lease : Lease)
    → IsExact (record { registry = r; leases = ls })
    → 0 < count lease.busid ls
    → IsExact (record { registry = drop lease r; leases = returned lease ls })
unfolding drop remove
dropped-IsExact r ls lease h held b =
    count-returned b lease ls held
    ∙ ap (λ n. n - one (is_same lease.busid b)) (h b)
    ∙ one-minus (contains b r.busy) (is_same lease.busid b)
    ∙ sym (ap one (contains-filtered b lease.busid r.busy))

-- However the sessions come and go, a device is marked as busy just when exactly one lease of it is
-- held, and no device has two leases.
pub Reach-IsExact : {w : World} → Reach w → IsExact w
unfolding contains count
Reach-IsExact start b = refl
Reach-IsExact (granted {w = w} busid r e) b =
    granted-IsExact w.registry w.leases busid (Reach-IsExact r) e b
Reach-IsExact (refused {w = w} busid r e) b =
    refused-IsExact w.registry w.leases busid (Reach-IsExact r) e b
Reach-IsExact (dropped {w = w} lease r h) b =
    dropped-IsExact w.registry w.leases lease (Reach-IsExact r) h b
