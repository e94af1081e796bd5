-- ===== src/Prelude/Bits.antt =====
-- Single bits of a number, by `bit_and` and `bit_or` with a power of two.
use Prim.Native.Nat.{bit_and, bit_or, digits, bitwise, bit_and-bitwise, bit_or-bitwise, max}
use padwire.Prelude.{
  ℕ, zero, suc, ◌+◌, ◌*◌, ◌/◌, ◌%◌, ◌^◌, ◌≤◌, ◌<◌, ◌≡◌, refl, ap, sym, ◌∙◌, ◌⊎◌, inl, inr, min,
  arith,
}

-- Any operation on binary digits: `ends` says what is left once the first number has run out.
module _ (ends : ℕ → ℕ) (pair : ℕ → ℕ → ℕ) where
  run_out : (rounds y : ℕ) → digits ends pair rounds 0 y ≡ ends y
  run_out zero y = refl
  run_out (suc rounds) y = refl

  -- More rounds than the first number has digits change nothing.
  spare_rounds :
      (rounds more x y : ℕ)
      → x ≤ rounds
      → x ≤ more
      → digits ends pair rounds x y ≡ digits ends pair more x y
  spare_rounds rounds more zero y few few' = run_out rounds y ∙ sym (run_out more y)
  spare_rounds zero more (suc x) y few few' = absurd (omega (arith, few))
  spare_rounds (suc rounds) zero (suc x) y few few' = absurd (omega (arith, few'))
  spare_rounds (suc rounds) (suc more) (suc x) y few few' =
      let next : suc x / 2 ≤ x = omega arith in
      ap (λ r. r * 2 + pair (suc x % 2) (y % 2))
        (spare_rounds rounds more (suc x / 2) (y / 2) (omega (arith, few, next))
          (omega (arith, few', next)))

  lowest_digit :
      (x y : ℕ)
      → ends y ≡ ends (y / 2) * 2 + pair 0 (y % 2)
      → bitwise ends pair x y ≡ bitwise ends pair (x / 2) (y / 2) * 2 + pair (x % 2) (y % 2)
  lowest_digit zero y even = even
  lowest_digit (suc x) y even =
      ap (λ r. r * 2 + pair (suc x % 2) (y % 2))
        (spare_rounds x (suc x / 2) (suc x / 2) (y / 2) (omega arith) (omega arith))

lowest_of_and : (x y : ℕ) → bit_and x y ≡ bit_and (x / 2) (y / 2) * 2 + min (x % 2) (y % 2)
lowest_of_and x y =
    bit_and-bitwise x y
    ∙ lowest_digit (λ _. 0) min x y (omega arith)
    ∙ ap (λ r. r * 2 + min (x % 2) (y % 2)) (sym (bit_and-bitwise (x / 2) (y / 2)))

lowest_of_or : (x y : ℕ) → bit_or x y ≡ bit_or (x / 2) (y / 2) * 2 + max (x % 2) (y % 2)
lowest_of_or x y =
    bit_or-bitwise x y
    ∙ lowest_digit (λ r. r) max x y (omega arith)
    ∙ ap (λ r. r * 2 + max (x % 2) (y % 2)) (sym (bit_or-bitwise (x / 2) (y / 2)))

nothing_in_common : (rounds x : ℕ) → digits (λ _. 0) min rounds x 0 ≡ 0
nothing_in_common zero x = refl
nothing_in_common (suc rounds) zero = refl
nothing_in_common (suc rounds) (suc x) = omega (arith, nothing_in_common rounds (suc x / 2))

bit_and-one : (m : ℕ) → bit_and m 1 ≡ m % 2
bit_and-one m =
    omega (arith, lowest_of_and m 1, bit_and-bitwise (m / 2) 0, nothing_in_common (m / 2) (m / 2))

bit_and-double : (a p : ℕ) → bit_and a (2 * p) ≡ bit_and (a / 2) p * 2
bit_and-double a p =
    let half : 2 * p / 2 ≡ p = omega arith in
    omega (arith, lowest_of_and a (2 * p), ap (bit_and (a / 2)) half)

bit_or-double : (a p : ℕ) → bit_or a (2 * p) ≡ bit_or (a / 2) p * 2 + a % 2
bit_or-double a p =
    let half : 2 * p / 2 ≡ p = omega arith in
    omega (arith, lowest_of_or a (2 * p), ap (bit_or (a / 2)) half)

pub power_suc : (k : ℕ) → 2 ^ suc k ≡ 2 * 2 ^ k
power_suc k = omega arith

-- Setting a bit above all others adds its value.
pub bit_or-above : (k a : ℕ) → a < 2 ^ k → bit_or a (2 ^ k) ≡ a + 2 ^ k
bit_or-above zero a h = let e : a ≡ 0 = omega arith in ap (λ x. bit_or x 1) e ∙ omega (arith, e)
bit_or-above (suc k) a h =
    ap (bit_or a) (power_suc k)
    ∙ omega (
      arith,
      bit_or-double a (2 ^ k),
      bit_or-above k (a / 2) (omega (arith, h, power_suc k)),
      power_suc k,
    )

-- The lowest bits.
abbrev pub low : ℕ → ℕ → ℕ
low m zero = 0
low m (suc k) = low (m / 2) k * 2 + m % 2

pub low-bound : (m k : ℕ) → low m k < 2 ^ k
low-bound m zero = omega arith
low-bound m (suc k) = omega (arith, low-bound (m / 2) k, power_suc k)

pub low_all : (m k : ℕ) → m < 2 ^ k → low m k ≡ m
low_all m zero h = omega (arith, h)
low_all m (suc k) h = omega (arith, low_all (m / 2) k (omega (arith, h, power_suc k)))

-- A bit is clear, or it is set and counts.
pub bit-cases :
    (m k : ℕ)
    → ((bit_and m (2 ^ k) ≡ 0) × (low m (suc k) ≡ low m k))
      ⊎ ((bit_and m (2 ^ k) ≡ 2 ^ k) × (low m (suc k) ≡ low m k + 2 ^ k))
bit-cases m zero = grind (arith, bit_and-one m)
bit-cases m (suc k) =
    let e = ap (bit_and m) (power_suc k) ∙ bit_and-double m (2 ^ k) in
    elim (bit-cases (m / 2) k) [
      | inl (off, same) ↦ inl (omega (arith, e, off), omega (arith, same))
      | inr (on, more) ↦ inr (omega (arith, e, on, power_suc k), omega (arith, more, power_suc k))
    ]
