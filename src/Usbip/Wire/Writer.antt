-- ===== src/Usbip/Wire/Writer.antt =====
-- The `Writer` of crates/usbip-proto/src/wire.rs. A method that takes `&mut self` gives the writer
-- that it leaves behind.
use padwire.Prelude.{ℕ, ◌-◌, min, List, [], ◌∷◌, ◌++◌, length, take, replicate}
use padwire.Prelude.Int.{ℤ, i32_bits}
use padwire.Usbip.Wire.Words.{u16_to_be_bytes, u32_to_be_bytes, u64_to_be_bytes}

pub record Writer : Type 0 where
  pub buf : List ℕ

abbrev pub Put : Type 0
Put = Writer → Writer

infixl 5 ◌>>◌
unfoldable pub ◌>>◌ : Put → Put → Put
◌>>◌ p q w = q (p w)

-- No write at all, where a loop ends.
unfoldable pub done : Put
done w = w

unfoldable pub new : Writer
new = record { buf = [] }

unfoldable pub len : Writer → ℕ
len w = length w.buf

unfoldable pub extend_from_slice : List ℕ → Put
extend_from_slice v w = record w { buf = w.buf ++ v }

unfoldable pub u8 : ℕ → Put
u8 v w = record w { buf = w.buf ++ v ∷ [] }

unfoldable pub u16 : ℕ → Put
unfolding extend_from_slice
u16 v = extend_from_slice (u16_to_be_bytes v)

unfoldable pub u32 : ℕ → Put
unfolding extend_from_slice
u32 v = extend_from_slice (u32_to_be_bytes v)

unfoldable pub i32 : ℤ → Put
unfolding extend_from_slice
i32 v = extend_from_slice (u32_to_be_bytes (i32_bits v))

unfoldable pub u64 : ℕ → Put
unfolding extend_from_slice
u64 v = extend_from_slice (u64_to_be_bytes v)

unfoldable pub bytes : List ℕ → Put
unfolding extend_from_slice
bytes v = extend_from_slice v

unfoldable pub zeros : ℕ → Put
unfolding extend_from_slice
zeros n = extend_from_slice (replicate n 0)

-- `n.saturating_sub(1)` is the subtraction of ℕ; the bytes that are kept are at most n.
unfoldable pub text_field : List ℕ → ℕ → Put
unfolding extend_from_slice zeros ◌>>◌
text_field s n = do
  extend_from_slice (take (min (length s) (n - 1)) s)
  zeros (n - min (length s) (n - 1))

-- What one action writes into an empty buffer.
unfoldable pub into_vec : Put → List ℕ
unfolding new
into_vec p = (p new).buf
