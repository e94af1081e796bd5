-- ===== src/Usbip/Wire/Carry.antt =====
-- A writing action and the parser that reads back what it wrote, with the width of the field.
use padwire.Prelude.{
  ℕ, ◌+◌, ◌≡◌, refl, ap, sym, subst₂, ◌∙◌, List, [], ◌++◌, append-nil, append_assoc, length, drop,
  drop-drop, drop-append, length-append, ok, arith,
}
use native.Mathlib.Nat.{add_assoc}
use padwire.Usbip.Wire.Reader
use padwire.Usbip.Wire.Reader.{Reader, Parse, ◌>>=◌, pure}
use padwire.Usbip.Wire.Writer.{Writer, Put}
use padwire.Usbip.Wire.Writer

abbrev pub unread : Reader → List ℕ
unread r = drop r.pos r.buf

abbrev pub advance : Reader → ℕ → Reader
advance r n = record r { pos = r.pos + n }

pub record Carries {A : Type 0} (n : ℕ) (put : Put) (get : Parse A) (a : A) : Type 0 where
  pub image : List ℕ
  pub width : length image ≡ n
  pub writes : (w : Writer) → put w ≡ record { buf = w.buf ++ image }
  pub reads : (r : Reader) (rest : List ℕ) → unread r ≡ image ++ rest → get r ≡ ok (a, advance r n)

-- What is left behind a field that was read.
pub unread-advance :
    (r : Reader) (front rest : List ℕ) (n : ℕ)
    → unread r ≡ front ++ rest
    → length front ≡ n
    → unread (advance r n) ≡ rest
unread-advance r front rest n e h =
    sym (drop-drop r.pos n r.buf) ∙ ap (drop n) e ∙ drop-append front rest n h

-- One field behind another.
pub Carries-bind :
    {A B : Type 0} {m n : ℕ} {a : A} {b : B} (p q : Put) (g : Parse A) (f : A → Parse B)
    → Carries m p g a
    → Carries n q (f a) b
    → Carries (m + n) (Writer.◌>>◌ p q) (g >>= f) b
unfolding ◌>>=◌ Writer.◌>>◌
Carries-bind {m = m} {n = n} {a = a} {b = b} p q g f c d = record {
  image = c.image ++ d.image;
  width = omega (arith, length-append c.image d.image, c.width, d.width);
  writes = λ w. rw (c.writes w, d.writes) (ap (λ v. record { buf = v }) (append_assoc w.buf _ _));
  reads = λ r rest e.
      let e' = e ∙ append_assoc c.image d.image rest in
      rw (c.reads r _ e', ◌>>=◌)
        (d.reads (advance r m) rest (unread-advance r c.image _ m e' c.width)
          ∙ ap (λ k. ok (b, record r { pos = k })) (add_assoc r.pos m n));
}

-- The value that the parser builds of the last field.
pub Carries-pure :
    {A B : Type 0} {m : ℕ} {a : A} (p : Put) (g : Parse A) (f : A → B)
    → Carries m p g a
    → Carries m p (g >>= λ x. pure (f x)) (f a)
unfolding ◌>>=◌ pure
Carries-pure p g f c = record {
  image = c.image;
  width = c.width;
  writes = c.writes;
  reads = λ r rest e. rw (c.reads r rest e, ◌>>=◌) refl;
}

-- The width and the value, put another way.
pub Carries-eq :
    {A : Type 0} {m n : ℕ} {p : Put} {g : Parse A} {a b : A}
    → Carries m p g a
    → m ≡ n
    → a ≡ b
    → Carries n p g b
Carries-eq {p = p} {g = g} c e v = subst₂ (λ k x. Carries k p g x) e v c

-- Nothing is written and nothing is read.
pub Carries-done : {A : Type 0} (a : A) → Carries 0 Writer.done (pure a) a
unfolding Writer.done pure
Carries-done a = record {
  image = [];
  width = refl;
  writes = λ w. ap (λ v. record { buf = v }) (sym (append-nil w.buf));
  reads = λ r rest e.
      let e : r.pos ≡ r.pos + 0 = omega arith in ap (λ k. ok (a, record r { pos = k })) e;
}

-- What is written into an empty buffer, and read from its start.
module _ {A : Type 0} {n : ℕ} {p : Put} {g : Parse A} {a : A} (c : Carries n p g a) where
  pub into_vec-image : Writer.into_vec p ≡ c.image
  unfolding Writer.into_vec
  into_vec-image = ap (λ (w : Writer). w.buf) (c.writes Writer.new)

  pub length-into_vec : length (Writer.into_vec p) ≡ n
  length-into_vec = ap length into_vec-image ∙ c.width

  pub parse-into_vec :
      (rest : List ℕ)
      → g (Reader.new (Writer.into_vec p ++ rest))
        ≡ ok (a, advance (Reader.new (Writer.into_vec p ++ rest)) n)
  unfolding Reader.new
  parse-into_vec rest = c.reads _ rest (ap (λ v. v ++ rest) into_vec-image)

-- Two messages, one behind the other.
pub into_vec-then :
    {B : Type 0} {n : ℕ} {q : Put} {f : Parse B} {b : B} (p : Put)
    → Carries n q f b
    → Writer.into_vec (Writer.◌>>◌ p q) ≡ Writer.into_vec p ++ Writer.into_vec q
unfolding Writer.into_vec Writer.◌>>◌
into_vec-then p d =
    ap (λ (w : Writer). w.buf) (d.writes (p Writer.new))
    ∙ ap (◌++◌ (p Writer.new).buf) (sym (into_vec-image d))
