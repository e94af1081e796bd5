-- ===== src/Server/Names.antt =====
-- The sets of bus ids that registry.rs and toggle.rs keep: a `HashSet<String>`.
use padwire.Prelude.{
  ℕ, ◌≡◌, refl, ap, sym, ◌∙◌, Bool, true, false, ◌&&◌, ◌||◌, not, List, [], ◌∷◌, if◌then◌else◌,
  arith, inl, inr, Bool-cases,
}
pub use padwire.Prelude.Text.{is_same, is_same_refl, is_same-eq}

-- A name is the list of its bytes.
abbrev pub Name : Type 0
Name = List ℕ

unfoldable pub contains : Name → List Name → Bool
contains a [] = false
contains a (b ∷ bs) = is_same b a || contains a bs

-- With whether the name was not there before.
unfoldable pub insert : Name → List Name → Bool × List Name
insert a names = if contains a names then (false, names) else (true, a ∷ names)

unfoldable pub filtered : Name → List Name → List Name
filtered a [] = []
filtered a (b ∷ bs) = if is_same b a then filtered a bs else b ∷ filtered a bs

-- With whether the name was there.
unfoldable pub remove : Name → List Name → Bool × List Name
remove a names = (contains a names, filtered a names)

pub contains-insert :
    (a b : Name) (names : List Name)
    → contains a (insert b names).1 ≡ (is_same b a || contains a names)
unfolding contains insert
contains-insert a b names = elim (Bool-cases (contains b names)) [
  | inl there ↦
      rw (there, insert)
        (elim (Bool-cases (is_same b a)) [
          | inl same ↦
              let same_name : b ≡ a = is_same-eq b a same in rw same (rw same_name at there)
          | inr other ↦ rw other refl
        ])
  | inr absent ↦ rw (absent, insert) refl
]

absorbed : (y z : Bool) → (not y && z) ≡ (not y && (y || z))
absorbed false z = refl
absorbed true z = refl

not_or : (x y z : Bool) → (y ≡ true → x ≡ false) → (x || not y && z) ≡ (not y && (x || z))
not_or x false z h = refl
not_or false true z h = refl
not_or true true z h = cc (h refl)

pub contains-filtered :
    (a b : Name) (names : List Name)
    → contains a (filtered b names) ≡ (not (is_same b a) && contains a names)
unfolding contains filtered
contains-filtered a b [] = ground arith
contains-filtered a b (c ∷ names) = elim (Bool-cases (is_same c b)) [
  | inl same ↦
      let e : is_same c a ≡ is_same b a = ap (λ x. is_same x a) (is_same-eq c b same) in
      rw same (contains-filtered a b names ∙ (rw e (absorbed (is_same b a) (contains a names))))
  | inr other ↦ rw other (
      ap (λ x. is_same c a || x) (contains-filtered a b names)
      ∙ not_or (is_same c a) (is_same b a) (contains a names)
          λ same. ap (λ x. is_same c x) (sym (is_same-eq b a same)) ∙ other)
]
