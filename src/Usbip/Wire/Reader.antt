-- ===== src/Usbip/Wire/Reader.antt =====
-- The `Reader` of crates/usbip-proto/src/wire.rs. A method that takes `&mut self` is an action; what
-- an error leaves in the cursor is dropped, since every caller gives the cursor up on an error.
use padwire.Prelude.{
  ℕ, ◌+◌, ◌-◌, List, length, take, drop, get_or, ltb, if◌then◌else◌, Result, ok, err,
}
use padwire.Prelude.Int.{ℤ, as_i32}
use padwire.Usbip.Wire.Error.{ProtoError, truncated, utf8}
use padwire.Usbip.Wire.Words.{u16_from_be_bytes, u32_from_be_bytes, u64_from_be_bytes}
use padwire.Usbip.Wire.Text.{is_utf8, until_nul}

pub record Reader : Type 0 where
  pub buf : List ℕ
  pub pos : ℕ

abbrev pub Parse : Type 0 → Type 0
Parse A = Reader → Result ProtoError (A × Reader)

infixl 5 ◌>>=◌ ◌>>◌
unfoldable pub ◌>>=◌ : {A B : Type 0} → Parse A → (A → Parse B) → Parse B
◌>>=◌ m f r = elim (m r) [ ok (a, r') ↦ f a r' | err e ↦ err e ]

unfoldable pub ◌>>◌ : {A B : Type 0} → Parse A → Parse B → Parse B
unfolding ◌>>=◌
m >> k = m >>= λ _. k

unfoldable pub pure : {A : Type 0} → A → Parse A
pure a r = ok (a, r)

unfoldable pub fail : {A : Type 0} → ProtoError → Parse A
fail e r = err e

unfoldable pub new : List ℕ → Reader
new buf = record { buf = buf; pos = 0 }

unfoldable pub remaining : Reader → ℕ
remaining r = length r.buf - r.pos

unfoldable pub bytes : ℕ → Parse (List ℕ)
unfolding remaining
bytes n r =
    if ltb (remaining r) n
    then err (truncated n (remaining r))
    else ok (take n (drop r.pos r.buf), record r { pos = r.pos + n })

unfoldable pub skip : ℕ → Parse (Unit {0})
unfolding bytes ◌>>◌ pure
skip n = do bytes n; pure tt

unfoldable pub u8 : Parse ℕ
unfolding bytes ◌>>=◌ pure
u8 = do b ← bytes 1; pure (get_or b 0 0)

unfoldable pub u16 : Parse ℕ
unfolding bytes ◌>>=◌ pure u16_from_be_bytes
u16 = do b ← bytes 2; pure (u16_from_be_bytes b)

unfoldable pub u32 : Parse ℕ
unfolding bytes ◌>>=◌ pure u32_from_be_bytes
u32 = do b ← bytes 4; pure (u32_from_be_bytes b)

unfoldable pub i32 : Parse ℤ
unfolding u32 ◌>>=◌ pure
i32 = do v ← u32; pure (as_i32 v)

unfoldable pub u64 : Parse ℕ
unfolding bytes ◌>>=◌ pure u64_from_be_bytes
u64 = do b ← bytes 8; pure (u64_from_be_bytes b)

-- `[u8; N]`
unfoldable pub array : ℕ → Parse (List ℕ)
unfolding bytes
array n = bytes n

unfoldable pub text_field : ℕ → Parse (List ℕ)
unfolding bytes ◌>>=◌ pure fail until_nul is_utf8
text_field n = do b ← bytes n; if is_utf8 (until_nul b) then pure (until_nul b) else fail utf8
