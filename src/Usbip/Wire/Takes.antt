-- ===== src/Usbip/Wire/Takes.antt =====
-- Parsers on arbitrary bytes: with `n` bytes at hand they succeed, take exactly these, and give a
-- value with the property `P`.
use padwire.Prelude.{
  ℕ, ◌+◌, ◌≤◌, ◌<◌, ◌≡◌, ap, ◌∙◌, List, [], ◌∷◌, length, take, drop, drop-drop, length-drop,
  length-take, ok, arith, All, get_or, zero, suc, subst, ltb, Bool-cases, inl, inr, ◌^◌,
}
use native.Mathlib.Nat.{add_assoc}
use padwire.Prelude.Int.{IsI32, as_i32}
use padwire.Usbip.Wire.Words.{IsByte, IsU16, IsU32, u16_from_be_bytes, u32_from_be_bytes}
use padwire.Usbip.Wire.Reader.{Reader, Parse, ◌>>=◌, pure}
use padwire.Usbip.Wire.Reader
use padwire.Usbip.Wire.Carry.{unread, advance}

pub record Takes {A : Type 0} (n : ℕ) (g : Parse A) (P : A → Type 0) : Type 0 where
  pub at :
      (r : Reader)
      → All IsByte (unread r)
      → n ≤ length (unread r)
      → (a : A) × (g r ≡ ok (a, advance r n)) × P a

module _ {κ} (P : ℕ → Type κ) where
  pub All-drop : (n : ℕ) (xs : List ℕ) → All P xs → All P (drop n xs)
  All-drop zero xs h = h
  All-drop (suc n) [] h = h
  All-drop (suc n) (x ∷ xs) h = All-drop n xs h.1

  pub All-take : (n : ℕ) (xs : List ℕ) → All P xs → All P (take n xs)
  All-take zero xs h = tt
  All-take (suc n) [] h = h
  All-take (suc n) (x ∷ xs) h = (h.0, All-take n xs h.1)

pub Takes-bind :
    {A B : Type 0} {m n : ℕ} {P : A → Type 0} {Q : B → Type 0} (g : Parse A) (f : A → Parse B)
    → Takes m g P
    → ((a : A) → P a → Takes n (f a) Q)
    → Takes (m + n) (g >>= f) Q
unfolding ◌>>=◌
Takes-bind {m = m} {n = n} g f tg tf = record {
  at = λ r bs h.
      let (a, e, p) = tg.at r bs (omega arith) in
      let step = drop-drop r.pos m r.buf in
      let size = ap length step in
      let (b, e', q) =
        (tf a p).at (advance r m) (subst (All IsByte) step (All-drop IsByte m (unread r) bs))
          (omega (arith, size, length-drop m (unread r))) in
      (b, rw (e, ◌>>=◌) (e' ∙ ap (λ k. ok (b, record r { pos = k })) (add_assoc r.pos m n)), q);
}

pub Takes-pure :
    {A B : Type 0} {n : ℕ} {P : A → Type 0} {Q : B → Type 0} (g : Parse A) (f : A → B)
    → Takes n g P
    → ((a : A) → P a → Q (f a))
    → Takes n (g >>= λ x. pure (f x)) Q
unfolding ◌>>=◌ pure
Takes-pure g f tg q = record {
  at = λ r bs h. let (a, e, p) = tg.at r bs h in (f a, rw (e, ◌>>=◌), q a p);
}

pub Takes-done : {A : Type 0} {P : A → Type 0} (a : A) → P a → Takes 0 (pure a) P
unfolding pure
Takes-done a p = record {
  at = λ r bs h.
      let e : r.pos ≡ r.pos + 0 = omega arith in (a, ap (λ k. ok (a, record r { pos = k })) e, p);
}

pub Takes-eq :
    {A : Type 0} {m n : ℕ} {g : Parse A} {P : A → Type 0} → Takes m g P → m ≡ n → Takes n g P
Takes-eq {g = g} {P = P} t e = subst (λ k. Takes k g P) e t

pub Takes-weaken :
    {A : Type 0} {n : ℕ} {g : Parse A} {P Q : A → Type 0}
    → Takes n g P
    → ((a : A) → P a → Q a)
    → Takes n g Q
Takes-weaken t f = record { at = λ r bs h. let (a, e, p) = t.at r bs h in (a, e, f a p) }

pub Takes-bytes : (n : ℕ) → Takes n (Reader.bytes n) (λ b. (length b ≡ n) × All IsByte b)
unfolding Reader.bytes
Takes-bytes n = record {
  at = λ r bs h. (
    take n (unread r),
    ground (arith, length-drop r.pos r.buf),
    (omega (arith, length-take n (unread r)), All-take IsByte n (unread r) bs),
  );
}

pub Takes-array : (n : ℕ) → Takes n (Reader.array n) (λ b. (length b ≡ n) × All IsByte b)
unfolding Reader.array
Takes-array n = Takes-bytes n

pub Takes-skip : (n : ℕ) → Takes n (Reader.skip n) (λ _. Unit)
unfolding Reader.skip
Takes-skip n = Takes-pure _ (λ _. tt) (Takes-bytes n) (λ _ _. tt)

-- The bytes of a slice, one by one.
get_or-IsByte : (b : List ℕ) (i : ℕ) → All IsByte b → get_or b i 0 < 256
get_or-IsByte [] i h = omega arith
get_or-IsByte (x ∷ xs) zero h = h.0
get_or-IsByte (x ∷ xs) (suc i) h = get_or-IsByte xs i h.1

pub Takes-u8 : Takes 1 Reader.u8 IsByte
unfolding Reader.u8
Takes-u8 = Takes-pure _ _ (Takes-bytes 1) (λ b h. get_or-IsByte b 0 h.1)

pub Takes-u16 : Takes 2 Reader.u16 IsU16
unfolding Reader.u16 u16_from_be_bytes
Takes-u16 =
    Takes-pure _ _ (Takes-bytes 2)
      λ b h. omega (arith, get_or-IsByte b 0 h.1, get_or-IsByte b 1 h.1)

pub Takes-u32 : Takes 4 Reader.u32 IsU32
unfolding Reader.u32 u32_from_be_bytes
Takes-u32 = Takes-pure _ _ (Takes-bytes 4) λ b h. omega (
  arith,
  get_or-IsByte b 0 h.1,
  get_or-IsByte b 1 h.1,
  get_or-IsByte b 2 h.1,
  get_or-IsByte b 3 h.1,
)

as_i32-IsI32 : (v : ℕ) → IsU32 v → IsI32 (as_i32 v)
as_i32-IsI32 v h = elim (Bool-cases (ltb v (2 ^ 31))) [
  | inl e ↦ rw e (ground arith)
  | inr e ↦ rw e (ground arith)
]

pub Takes-i32 : Takes 4 Reader.i32 IsI32
unfolding Reader.i32
Takes-i32 = Takes-pure _ _ Takes-u32 as_i32-IsI32
