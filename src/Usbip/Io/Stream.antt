-- ===== src/Usbip/Io/Stream.antt =====
-- The `Read` that io.rs is generic in: the bytes that will still arrive, and how the stream ends.
-- `read_exact` gives all the bytes that it was asked for, or the error that ended the stream.
use padwire.Prelude.{
  ℕ, ◌≤◌, ◌≡◌, List, ◌++◌, length, take, drop, length-append, take-append, drop-append, ltb,
  if◌then◌else◌, Result, ok, err, arith, ◌≢◌, Result-cases, inl, inr,
}
use padwire.Usbip.Wire.Error.{ProtoError}

-- The kinds of `std::io::Error` that the program tells apart.
pub data ErrorKind : Type 0 where
  unexpected_eof connection_reset invalid_data permission_denied other_kind : ErrorKind

-- An error of the protocol, or one that carries only its kind; messages are left out.
pub data IoError : Type 0 where
  proto : ProtoError → IoError
  of_kind : ErrorKind → IoError

-- `e.kind()`
unfoldable pub kind : IoError → ErrorKind
kind (proto e) = invalid_data
kind (of_kind k) = k

pub record Stream : Type 0 where
  pub incoming : List ℕ
  pub ending : ErrorKind

abbrev pub Io : Type 0 → Type 0
Io A = Stream → Result IoError (A × Stream)

infixl 5 ◌>>=◌ ◌>>◌
unfoldable pub ◌>>=◌ : {A B : Type 0} → Io A → (A → Io B) → Io B
◌>>=◌ m f s = elim (m s) [ ok (a, s') ↦ f a s' | err e ↦ err e ]

unfoldable pub ◌>>◌ : {A B : Type 0} → Io A → Io B → Io B
m >> k = m >>= λ _. k

unfoldable pub pure : {A : Type 0} → A → Io A
pure a s = ok (a, s)

unfoldable pub fail : {A : Type 0} → IoError → Io A
fail e s = err e

-- `?` on a result of the protocol: its errors become errors of kind `InvalidData`.
unfoldable pub lift : {A : Type 0} → Result ProtoError A → Io A
lift (ok a) s = ok (a, s)
lift (err e) s = err (proto e)

unfoldable pub read_exact : ℕ → Io (List ℕ)
read_exact n s =
    if ltb (length s.incoming) n
    then err (of_kind s.ending)
    else ok (take n s.incoming, record s { incoming = drop n s.incoming })

-- A front of the wanted length is read, and the rest stays.
pub read_exact_front :
    (front rest : List ℕ) (n : ℕ) (ending : ErrorKind)
    → length front ≡ n
    → read_exact n (record { incoming = front ++ rest; ending = ending })
      ≡ ok (front, record { incoming = rest; ending = ending })
unfolding read_exact
read_exact_front front rest n ending h =
    ground (arith, length-append front rest, take-append front rest n h, drop-append front rest n h)

-- One step of a `do` block whose result is known.
pub >>=-ok :
    {A B : Type 0} (m : Io A) (f : A → Io B) (s : Stream) {a : A} {s' : Stream}
    → m s ≡ ok (a, s')
    → (m >>= f) s ≡ f a s'
unfolding ◌>>=◌
>>=-ok m f s e = rw (e, ◌>>=◌)

pub >>=-err :
    {A B : Type 0} (m : Io A) (f : A → Io B) (s : Stream) {e : IoError}
    → m s ≡ err e
    → (m >>= f) s ≡ err e
unfolding ◌>>=◌
>>=-err m f s h = rw (h, ◌>>=◌)

pub lift-ok :
    {A : Type 0} (r : Result ProtoError A) (s : Stream) {a : A} → r ≡ ok a → lift r s ≡ ok (a, s)
unfolding lift
lift-ok r s h = rw h

err-ne-ok : {E A : Type 0} {e : E} {a : A} → err e ≢ ok a
err-ne-ok h = cc

-- Inversion of a `do` block that succeeded, and of its basic steps.
pub >>=-eq-ok :
    {A B : Type 0} (m : Io A) (f : A → Io B) (s : Stream) {b : B} {s'' : Stream}
    → (m >>= f) s ≡ ok (b, s'')
    → (a : A) × (s' : Stream) × (m s ≡ ok (a, s')) × (f a s' ≡ ok (b, s''))
unfolding ◌>>=◌
>>=-eq-ok m f s h = elim (Result-cases (m s)) [
  | inl ((a, s'), e) ↦ (a, s', e, rw (e, ◌>>=◌) at h)
  | inr (x, e) ↦ absurd (err-ne-ok (rw (e, ◌>>=◌) at h))
]

pub >>=-elim :
    {A B R : Type 0} (m : Io A) (f : A → Io B) (s : Stream) {b : B} {s'' : Stream}
    → (m >>= f) s ≡ ok (b, s'')
    → ((a : A) (s' : Stream) → m s ≡ ok (a, s') → f a s' ≡ ok (b, s'') → R)
    → R
>>=-elim m f s h k = let (a, s', e, h') = >>=-eq-ok m f s h in k a s' e h'

-- What a successful read took, and what it left.
pub record Took (n : ℕ) (s : Stream) (bs : List ℕ) (s' : Stream) : Type 0 where
  pub enough : n ≤ length s.incoming
  pub taken : bs ≡ take n s.incoming
  pub left : s' ≡ record s { incoming = drop n s.incoming }

pub read_exact-eq-ok :
    (n : ℕ) (s : Stream) {bs : List ℕ} {s' : Stream} → read_exact n s ≡ ok (bs, s') → Took n s bs s'
unfolding read_exact
read_exact-eq-ok n s h = ground arith

pub lift-eq-ok :
    {A : Type 0} (r : Result ProtoError A) (s : Stream) {a : A} {s' : Stream}
    → lift r s ≡ ok (a, s')
    → (r ≡ ok a) × (s' ≡ s)
unfolding lift
lift-eq-ok (ok a) s h = ground arith
lift-eq-ok (err e) s h = cc
