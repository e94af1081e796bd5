-- ===== src/Usbip/Wire/Words.antt =====
-- Rust's `to_be_bytes` and `from_be_bytes` at the widths that wire.rs uses.
use padwire.Prelude.{ℕ, ◌+◌, ◌*◌, ◌/◌, ◌%◌, ◌^◌, ◌<◌, ◌≡◌, List, [], ◌∷◌, get_or, arith}

abbrev pub IsByte : ℕ → Type 0
IsByte b = b < 256

abbrev pub IsU16 : ℕ → Type 0
IsU16 v = v < 2 ^ 16

abbrev pub IsU32 : ℕ → Type 0
IsU32 v = v < 2 ^ 32

abbrev pub IsU64 : ℕ → Type 0
IsU64 v = v < 2 ^ 64

unfoldable pub u16_to_be_bytes : ℕ → List ℕ
u16_to_be_bytes v = (v / 2 ^ 8 % 256) ∷ (v % 256) ∷ []

unfoldable pub u32_to_be_bytes : ℕ → List ℕ
u32_to_be_bytes v = (v / 2 ^ 24 % 256) ∷ (v / 2 ^ 16 % 256) ∷ (v / 2 ^ 8 % 256) ∷ (v % 256) ∷ []

unfoldable pub u64_to_be_bytes : ℕ → List ℕ
u64_to_be_bytes v =
    (v / 2 ^ 56 % 256)
    ∷ (v / 2 ^ 48 % 256)
    ∷ (v / 2 ^ 40 % 256)
    ∷ (v / 2 ^ 32 % 256)
    ∷ (v / 2 ^ 24 % 256)
    ∷ (v / 2 ^ 16 % 256)
    ∷ (v / 2 ^ 8 % 256)
    ∷ (v % 256)
    ∷ []

-- The arrays come from a slice of the same length, so no index is out of bounds.
unfoldable pub u16_from_be_bytes : List ℕ → ℕ
u16_from_be_bytes b = get_or b 0 0 * 2 ^ 8 + get_or b 1 0

unfoldable pub u32_from_be_bytes : List ℕ → ℕ
u32_from_be_bytes b =
    get_or b 0 0 * 2 ^ 24 + get_or b 1 0 * 2 ^ 16 + get_or b 2 0 * 2 ^ 8 + get_or b 3 0

unfoldable pub u64_from_be_bytes : List ℕ → ℕ
u64_from_be_bytes b =
    get_or b 0 0 * 2 ^ 56
    + get_or b 1 0 * 2 ^ 48
    + get_or b 2 0 * 2 ^ 40
    + get_or b 3 0 * 2 ^ 32
    + get_or b 4 0 * 2 ^ 24
    + get_or b 5 0 * 2 ^ 16
    + get_or b 6 0 * 2 ^ 8
    + get_or b 7 0

pub u16_bytes : (v : ℕ) → IsU16 v → u16_from_be_bytes (u16_to_be_bytes v) ≡ v
unfolding u16_from_be_bytes u16_to_be_bytes
u16_bytes v h = omega arith

pub u32_bytes : (v : ℕ) → IsU32 v → u32_from_be_bytes (u32_to_be_bytes v) ≡ v
unfolding u32_from_be_bytes u32_to_be_bytes
u32_bytes v h = omega arith

pub u64_bytes : (v : ℕ) → IsU64 v → u64_from_be_bytes (u64_to_be_bytes v) ≡ v
unfolding u64_from_be_bytes u64_to_be_bytes
u64_bytes v h = omega arith
