-- ===== src/Backend/Descriptors/Interfaces.antt =====
-- descriptors.rs: the interfaces of a configuration.
use padwire.Prelude.{
  ℕ, ◌≤◌, ◌<◌, ◌≡◌, refl, ap, sym, ◌∙◌, Bool, true, false, ◌&&◌, ◌||◌, some, List, [], ◌∷◌, map,
  leb, ◌==◌, arith, Bool-cases, Option-cases, inl, inr,
}
use padwire.Backend.Descriptors.{
  AltSetting, ConfigDescriptor, sorted_insert, sort_unstable, dedup, interface_numbers, find,
  primary, primaries, primary_alt_settings, or_else,
}

-- Whether a number is in a list.
abbrev pub has : ℕ → List ℕ → Bool
has n [] = false
has n (m ∷ ms) = m == n || has n ms

-- Every element is greater than the one before it, and the first than a bound.
abbrev pub Above : ℕ → List ℕ → Type 0
Above b [] = Unit {0}
Above b (n ∷ ns) = (b < n) × Above n ns

abbrev pub IsAscending : List ℕ → Type 0
IsAscending [] = Unit {0}
IsAscending (n ∷ ns) = Above n ns

abbrev From : ℕ → List ℕ → Type 0
From b [] = Unit {0}
From b (n ∷ ns) = (b ≤ n) × From n ns

abbrev IsSorted : List ℕ → Type 0
IsSorted [] = Unit {0}
IsSorted (n ∷ ns) = From n ns

sorted_insert-From : (b n : ℕ) (ms : List ℕ) → b ≤ n → From b ms → From b (sorted_insert n ms)
unfolding sorted_insert
sorted_insert-From b n [] h v = ground arith
sorted_insert-From b n (m ∷ ms) h v = elim (Bool-cases (leb n m)) [
  | inl e ↦ rw e (h, (ground arith, v.1))
  | inr e ↦ rw e (v.0, sorted_insert-From m n ms (ground arith) v.1)
]

sorted_insert-IsSorted : (n : ℕ) (ms : List ℕ) → IsSorted ms → IsSorted (sorted_insert n ms)
unfolding sorted_insert
sorted_insert-IsSorted n [] v = tt
sorted_insert-IsSorted n (m ∷ ms) v = elim (Bool-cases (leb n m)) [
  | inl e ↦ rw e (ground arith, v)
  | inr e ↦ rw e (sorted_insert-From m n ms (ground arith) v)
]

sort_unstable-IsSorted : (ns : List ℕ) → IsSorted (sort_unstable ns)
unfolding sort_unstable
sort_unstable-IsSorted [] = tt
sort_unstable-IsSorted (n ∷ ns) =
    sorted_insert-IsSorted n (sort_unstable ns) (sort_unstable-IsSorted ns)

has-sorted_insert : (k n : ℕ) (ms : List ℕ) → has k (sorted_insert n ms) ≡ (n == k || has k ms)
unfolding sorted_insert
has-sorted_insert k n [] = refl
has-sorted_insert k n (m ∷ ms) = ground (arith, has-sorted_insert k n ms)

has-sort_unstable : (k : ℕ) (ns : List ℕ) → has k (sort_unstable ns) ≡ has k ns
unfolding sort_unstable
has-sort_unstable k [] = refl
has-sort_unstable k (n ∷ ns) =
    has-sorted_insert k n (sort_unstable ns) ∙ ap (λ b. n == k || b) (has-sort_unstable k ns)

has-dedup : (k : ℕ) (ns : List ℕ) → has k (dedup ns) ≡ has k ns
unfolding dedup
has-dedup k [] = refl
has-dedup k (n ∷ []) = refl
has-dedup k (n ∷ m ∷ ns) = ground (arith, has-dedup k (m ∷ ns))

dedup-Above : (b n : ℕ) (ns : List ℕ) → b < n → From n ns → Above b (dedup (n ∷ ns))
unfolding dedup
dedup-Above b n [] h v = ground arith
dedup-Above b n (m ∷ ns) h v = elim (Bool-cases (n == m)) [
  | inl e ↦ rw e (dedup-Above b m ns (ground arith) v.1)
  | inr e ↦ rw e (h, dedup-Above n m ns (ground arith) v.1)
]

dedup-IsAscending : (ns : List ℕ) → IsSorted ns → IsAscending (dedup ns)
unfolding dedup
dedup-IsAscending [] v = tt
dedup-IsAscending (n ∷ []) v = tt
dedup-IsAscending (n ∷ m ∷ ns) v = elim (Bool-cases (n == m)) [
  | inl e ↦ rw e (dedup-IsAscending (m ∷ ns) v.1)
  | inr e ↦ rw e (dedup-Above n m ns (ground arith) v.1)
]

-- Whether one of the settings is of an interface.
abbrev pub has_interface : ℕ → List AltSetting → Bool
has_interface n alts = has n (map (λ a. a.interface_number) alts)

-- The numbers of the interfaces ascend, none comes twice, and they are those of the settings.
pub interface_numbers-IsAscending :
    (c : ConfigDescriptor) (n : ℕ)
    → IsAscending (interface_numbers c)
      × (has n (interface_numbers c) ≡ has_interface n c.alt_settings)
unfolding interface_numbers
interface_numbers-IsAscending c n =
    let numbers = map (λ a. a.interface_number) c.alt_settings in
    (
      dedup-IsAscending (sort_unstable numbers) (sort_unstable-IsSorted numbers),
      has-dedup n (sort_unstable numbers) ∙ has-sort_unstable n numbers,
    )

find-interface :
    (n : ℕ) (p : AltSetting → Bool) (alts : List AltSetting) {a : AltSetting}
    → ((b : AltSetting) → p b ≡ true → b.interface_number ≡ n)
    → find p alts ≡ some a
    → a.interface_number ≡ n
unfolding find
find-interface n p [] h e = cc
find-interface n p (b ∷ alts) {a} h e = elim (Bool-cases (p b)) [
  | inl hit ↦
      let same : b ≡ a = cc (rw hit at e) in ap (λ x. x.interface_number) (sym same) ∙ h b hit
  | inr miss ↦ find-interface n p alts h (rw miss at e)
]

find-found :
    (n : ℕ) (alts : List AltSetting)
    → has_interface n alts ≡ true
    → (a : AltSetting) × (find (λ b. b.interface_number == n) alts ≡ some a)
unfolding find
find-found n [] h = cc
find-found n (b ∷ alts) h = elim (Bool-cases (b.interface_number == n)) [
  | inl hit ↦ (b, rw hit refl)
  | inr miss ↦ let (a, e) = find-found n alts (rw miss at h) in (a, rw miss e)
]

primary-interface :
    (alts : List AltSetting) (n : ℕ)
    → has_interface n alts ≡ true
    → (a : AltSetting) × (primary alts n ≡ some a) × (a.interface_number ≡ n)
unfolding primary
primary-interface alts n h =
    let p = λ (a : AltSetting). a.interface_number == n && a.alternate_setting == 0 in
    let (a, e) = find-found n alts h in
    elim (Option-cases (find p alts)) [
      | inr (b, e') ↦ (b, rw (e', or_else) refl, find-interface n p alts (λ x hx. ground arith) e')
      | inl e' ↦ (
        a,
        rw (e', or_else) e,
        find-interface n (λ x. x.interface_number == n) alts (λ x hx. ground arith) e,
      )
    ]

AllHave : List ℕ → List AltSetting → Type 0
AllHave [] alts = Unit {0}
AllHave (n ∷ ns) alts = (has_interface n alts ≡ true) × AllHave ns alts

primaries-numbers :
    (alts : List AltSetting) (ns : List ℕ)
    → AllHave ns alts
    → map (λ a. a.interface_number) (primaries alts ns) ≡ ns
unfolding primaries AllHave
primaries-numbers alts [] h = refl
primaries-numbers alts (n ∷ ns) h =
    let (a, e, same) = primary-interface alts n h.0 in
    rw (e, primaries) (λ i. same i ∷ primaries-numbers alts ns h.1 i)

AllHave-within :
    (alts : List AltSetting) (ns : List ℕ)
    → ((n : ℕ) → has n ns ≡ true → has_interface n alts ≡ true)
    → AllHave ns alts
unfolding AllHave
AllHave-within alts [] h = tt
AllHave-within alts (n ∷ ns) h =
    (h n (ground arith), AllHave-within alts ns λ k e. h k (ground arith))

-- What the device list advertises is one setting of each interface, in the order of their numbers.
pub primary_alt_settings-numbers :
    (c : ConfigDescriptor)
    → map (λ a. a.interface_number) (primary_alt_settings c) ≡ interface_numbers c
unfolding primary_alt_settings
primary_alt_settings-numbers c = primaries-numbers c.alt_settings (interface_numbers c) (
    AllHave-within c.alt_settings (interface_numbers c)
      λ n e. sym (interface_numbers-IsAscending c n).1 ∙ e)
