-- ===== src/Usbip/Wire/Fields.antt =====
-- Each field that `Writer` writes is read back by the method of `Reader` of the same name.
use padwire.Prelude.{
  ℕ, zero, suc, ◌+◌, ◌-◌, ◌<◌, ◌≡◌, refl, ap, ◌∙◌, subst, false, List, [], ◌∷◌, ◌++◌, append_assoc,
  min, length, take, drop, replicate, length-append, length-drop, length-take, length-replicate,
  take-append, take_all, ok, err, arith,
}
use padwire.Prelude.Int.{ℤ, IsI32, i32_bits, as_i32, i32_bits-lt, as_i32-i32_bits}
use padwire.Usbip.Wire.Error.{utf8}
use padwire.Usbip.Wire.Words.{
  IsU16, IsU32, u16_bytes, u32_bytes, u16_to_be_bytes, u32_to_be_bytes, u16_from_be_bytes,
  u32_from_be_bytes, u64_to_be_bytes,
}
use padwire.Usbip.Wire.Text.{
  IsText, HasNoNul, until_nul, until_nul_self, until_nul-append_zeros, is_utf8,
}
use padwire.Usbip.Wire.Reader.{Reader, Parse, ◌>>=◌, ◌>>◌, pure, fail}
use padwire.Usbip.Wire.Reader
use padwire.Usbip.Wire.Writer.{Writer, Put}
use padwire.Usbip.Wire.Writer
use padwire.Usbip.Wire.Carry.{Carries, Carries-pure, unread, advance}

-- A slice that is at hand in full.
bytes_given :
    (r : Reader) (front rest : List ℕ) (n : ℕ)
    → unread r ≡ front ++ rest
    → length front ≡ n
    → Reader.bytes n r ≡ ok (front, advance r n)
unfolding Reader.bytes
bytes_given r front rest n e h =
    let size : length r.buf - r.pos ≡ n + length rest =
      omega (arith, length-drop r.pos r.buf, ap length e, length-append front rest, h) in
    let cut : take n (drop r.pos r.buf) ≡ front = ap (take n) e ∙ take-append front rest n h in
    ground (arith, size, cut)

pub Carries-bytes :
    (bs : List ℕ) (n : ℕ)
    → length bs ≡ n
    → Carries n (Writer.extend_from_slice bs) (Reader.bytes n) bs
unfolding Writer.extend_from_slice
Carries-bytes bs n h = record {
  image = bs;
  width = h;
  writes = λ w. refl;
  reads = λ r rest e. bytes_given r bs rest n e h;
}

pub Carries-array :
    (bs : List ℕ) (n : ℕ) → length bs ≡ n → Carries n (Writer.bytes bs) (Reader.array n) bs
unfolding Writer.bytes Reader.array
Carries-array bs n h = Carries-bytes bs n h

-- Padding of any content.
pub Carries-skip :
    (bs : List ℕ) (n : ℕ)
    → length bs ≡ n
    → Carries n (Writer.extend_from_slice bs) (Reader.skip n) tt
unfolding Reader.skip
Carries-skip bs n h = Carries-pure _ (Reader.bytes n) (λ _. tt) (Carries-bytes bs n h)

pub Carries-zeros : (n : ℕ) → Carries n (Writer.zeros n) (Reader.skip n) tt
unfolding Writer.zeros
Carries-zeros n = Carries-skip (replicate n 0) n (length-replicate n 0)

pub Carries-u8_padding : (v : ℕ) → Carries 1 (Writer.u8 v) (Reader.skip 1) tt
unfolding Writer.u8 Writer.extend_from_slice
Carries-u8_padding v = Carries-skip (v ∷ []) 1 refl

pub Carries-u64_padding : (v : ℕ) → Carries 8 (Writer.u64 v) (Reader.skip 8) tt
unfolding Writer.u64 u64_to_be_bytes
Carries-u64_padding v = Carries-skip (u64_to_be_bytes v) 8 refl

pub Carries-u8 : (v : ℕ) → Carries 1 (Writer.u8 v) Reader.u8 v
unfolding Writer.u8 Reader.u8 Writer.extend_from_slice
Carries-u8 v = Carries-pure _ (Reader.bytes 1) _ (Carries-bytes (v ∷ []) 1 refl)

pub Carries-u16 : (v : ℕ) → IsU16 v → Carries 2 (Writer.u16 v) Reader.u16 v
unfolding Writer.u16 Reader.u16 u16_to_be_bytes
Carries-u16 v h =
    let raw = Carries-bytes (u16_to_be_bytes v) 2 refl in
    subst (Carries 2 (Writer.u16 v) Reader.u16) (u16_bytes v h)
      (Carries-pure _ (Reader.bytes 2) u16_from_be_bytes raw)

-- A pattern of 32 bits, read with a conversion.
word :
    {A : Type 0} (f : ℕ → A) (v : ℕ)
    → IsU32 v
    → Carries 4 (Writer.extend_from_slice (u32_to_be_bytes v)) (do w ← Reader.u32; pure (f w)) (f v)
unfolding Reader.u32 u32_to_be_bytes
word f v h =
    let raw = Carries-bytes (u32_to_be_bytes v) 4 refl in
    let number = Carries-pure _ (Reader.bytes 4) u32_from_be_bytes raw in
    Carries-pure _ _ f (subst (Carries 4 _ Reader.u32) (u32_bytes v h) number)

pub Carries-u32 : (v : ℕ) → IsU32 v → Carries 4 (Writer.u32 v) Reader.u32 v
unfolding Writer.u32 Reader.u32 u32_to_be_bytes
Carries-u32 v h =
    let raw = Carries-bytes (u32_to_be_bytes v) 4 refl in
    subst (Carries 4 (Writer.u32 v) Reader.u32) (u32_bytes v h)
      (Carries-pure _ (Reader.bytes 4) u32_from_be_bytes raw)

pub Carries-i32 : (z : ℤ) → IsI32 z → Carries 4 (Writer.i32 z) Reader.i32 z
unfolding Writer.i32 Reader.i32
Carries-i32 z h =
    subst (Carries 4 (Writer.i32 z) Reader.i32) (as_i32-i32_bits z h)
      (word as_i32 (i32_bits z) (i32_bits-lt z h))

-- What a text field of width `n` holds of `s`: at most `n - 1` bytes, up to the first NUL.
unfoldable pub field_text : List ℕ → ℕ → List ℕ
field_text s n = until_nul (take (n - 1) s)

field_image : List ℕ → ℕ → List ℕ
field_image s n = take (min (length s) (n - 1)) s ++ replicate (n - min (length s) (n - 1)) 0

length-field_image : (s : List ℕ) (n : ℕ) → length (field_image s n) ≡ n
unfolding field_image
length-field_image s n = omega (
  arith,
  length-append (take (min (length s) (n - 1)) s) (replicate (n - min (length s) (n - 1)) 0),
  length-take (min (length s) (n - 1)) s,
  length-replicate {A = ℕ} (n - min (length s) (n - 1)) 0,
)

take_capped : (s : List ℕ) (k j : ℕ) → j ≡ min (length s) k → take j s ≡ take k s
take_capped [] zero zero h = refl
take_capped [] zero (suc j) h = refl
take_capped [] (suc k) zero h = refl
take_capped [] (suc k) (suc j) h = refl
take_capped (x ∷ xs) zero zero h = refl
take_capped (x ∷ xs) zero (suc j) h = absurd (omega arith)
take_capped (x ∷ xs) (suc k) zero h = absurd (omega arith)
take_capped (x ∷ xs) (suc k) (suc j) h = ap (◌∷◌ x) (take_capped xs k j (omega arith))

until_nul-field_image : (s : List ℕ) (n : ℕ) → until_nul (field_image s n) ≡ field_text s n
unfolding field_image field_text
until_nul-field_image s n =
    until_nul-append_zeros (take (min (length s) (n - 1)) s) (n - min (length s) (n - 1))
    ∙ ap until_nul (take_capped s (n - 1) _ refl)

field_writes :
    (s : List ℕ) (n : ℕ) (w : Writer)
    → Writer.text_field s n w ≡ record { buf = w.buf ++ field_image s n }
unfolding Writer.text_field field_image
field_writes s n w = ap (λ v. record { buf = v }) (append_assoc w.buf _ _)

-- Any text is written to the whole width, and comes back as far as it fits, if that is text.
pub Carries-text_field :
    (s : List ℕ) (n : ℕ)
    → IsText (field_text s n)
    → Carries n (Writer.text_field s n) (Reader.text_field n) (field_text s n)
unfolding Reader.text_field
Carries-text_field s n h = record {
  image = field_image s n;
  width = length-field_image s n;
  writes = field_writes s n;
  reads = λ r rest e.
      rw (bytes_given r (field_image s n) rest n e (length-field_image s n), ◌>>=◌)
        (rw (until_nul-field_image s n, h) refl);
}

-- A text that the cut or a NUL breaks inside a character is refused.
pub text_field_broken :
    (s : List ℕ) (n : ℕ) (r : Reader) (rest : List ℕ)
    → is_utf8 (field_text s n) ≡ false
    → unread r ≡ Writer.into_vec (Writer.text_field s n) ++ rest
    → Reader.text_field n r ≡ err utf8
unfolding Reader.text_field Writer.into_vec
text_field_broken s n r rest h e =
    let given : unread r ≡ field_image s n ++ rest =
      e ∙ ap (λ (w : Writer). w.buf ++ rest) (field_writes s n Writer.new) in
    rw (bytes_given r (field_image s n) rest n given (length-field_image s n), ◌>>=◌)
      (rw (until_nul-field_image s n, h) refl)

-- A text without NUL that leaves room for one comes back whole.
pub field_text_whole : (s : List ℕ) (n : ℕ) → HasNoNul s → length s < n → field_text s n ≡ s
unfolding field_text
field_text_whole s n h fits = rw (take_all (n - 1) s (omega arith)) (until_nul_self s h)
