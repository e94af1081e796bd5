-- ===== src/Discovery/Mdns/Names.antt =====
-- mdns.rs: a name is read back from its encoding.
use Prim.Native.Nat.{bit_and}
use padwire.Prelude.{
  ℕ, zero, suc, ◌+◌, ◌*◌, ◌<◌, ◌≡◌, refl, ap, sym, ◌∙◌, true, false, not, Option, none, List, [],
  ◌∷◌, ◌++◌, append_assoc, All, length, take, drop, get_or, length-append, length-drop, drop-drop,
  drop-append, take-append, take_all, min, ltb, leb, ◌==◌, arith, every-at,
}
use padwire.Prelude.Text.{split, join, split-join}
use padwire.Usbip.Wire.Text.{IsText}
use padwire.Discovery.Mdns.{
  named, read_from, read_name, push_label, or_here, encode_labels, encode_name,
}
use padwire.Discovery.Mdns.Lossy.{from_utf8_lossy, from_utf8_lossy_text}

-- A label that is sent whole and comes back: text of 1 to 63 bytes without a dot.
abbrev pub IsLabel : List ℕ → Type 0
IsLabel l = (0 < length l) × (length l < 64) × IsText l × All (λ c. (c == 46) ≡ false) l

get_or-drop : (p : ℕ) (buf : List ℕ) → get_or (drop p buf) 0 0 ≡ get_or buf p 0
get_or-drop zero [] = refl
get_or-drop zero (b ∷ buf) = refl
get_or-drop (suc p) [] = refl
get_or-drop (suc p) (b ∷ buf) = get_or-drop p buf

-- What stands at a position, from what stands behind it.
pub at :
    (p x : ℕ) (buf xs : List ℕ)
    → drop p buf ≡ x ∷ xs
    → (p + length xs + 1 ≡ length buf) × (get_or buf p 0 ≡ x)
at p x buf xs e =
    let n : length (drop p buf) ≡ suc (length xs) = ap length e in
    (
      omega (arith, n, length-drop p buf),
      sym (get_or-drop p buf) ∙ ap (λ (ys : List ℕ). get_or ys 0 0) e,
    )

pub behind :
    (p n : ℕ) (buf xs ys : List ℕ) → drop p buf ≡ xs ++ ys → length xs ≡ n → drop (p + n) buf ≡ ys
behind p n buf xs ys e size = sym (drop-drop p n buf) ∙ ap (drop n) e ∙ drop-append xs ys n size

no_pointer : (n : ℕ) → n < 64 → (bit_and n 0xc0 == 0xc0) ≡ false
no_pointer n h = ground (arith, every-at 64 (λ k. not (bit_and k 0xc0 == 0xc0)) n refl h)

-- The name that a read has put together after some labels.
abbrev pub pushed : List ℕ → List (List ℕ) → List ℕ
pushed out [] = out
pushed out (l ∷ ls) = pushed (push_label out l) ls

-- The encoding of labels, each with its length before it.
unfoldable pub label_bytes : List (List ℕ) → List ℕ
label_bytes [] = 0 ∷ []
label_bytes (l ∷ ls) = length l ∷ (l ++ label_bytes ls)

encode_labels-label_bytes :
    (ls : List (List ℕ)) → All IsLabel ls → encode_labels ls ≡ label_bytes ls
unfolding encode_labels label_bytes
encode_labels-label_bytes [] v = refl
encode_labels-label_bytes ([] ∷ ls) v = absurd (omega (arith, v.0.0))
encode_labels-label_bytes ((c ∷ cs) ∷ ls) v =
    let n : min (length (c ∷ cs)) 63 ≡ length (c ∷ cs) = omega (arith, v.0.1) in
    rw n (
      ap (λ x. length (c ∷ cs) ∷ (x ++ encode_labels ls))
        (take_all (length (c ∷ cs)) (c ∷ cs) (omega arith))
      ∙ ap (λ x. length (c ∷ cs) ∷ (c ∷ cs) ++ x) (encode_labels-label_bytes ls v.1))

read_from-label_bytes :
    (fuel : ℕ) (buf : List ℕ) (p : ℕ) (resume : Option ℕ) (hops : ℕ) (out : List ℕ)
    (ls : List (List ℕ)) (rest : List ℕ)
    → All IsLabel ls
    → length ls < fuel
    → drop p buf ≡ label_bytes ls ++ rest
    → read_from fuel buf p resume hops out
      ≡ named (pushed out ls) (or_here resume (p + length (label_bytes ls)))
unfolding read_from label_bytes
read_from-label_bytes zero buf p resume hops out ls rest v few e = absurd (omega (arith, few))
read_from-label_bytes (suc fuel) buf p resume hops out [] rest v few e =
    let (size, zero_here) = at p 0 buf rest e in
    let room : not (ltb p (length buf)) ≡ false = ground (arith, size) in
    rw room (rw zero_here refl)
read_from-label_bytes (suc fuel) buf p resume hops out (l ∷ ls) rest v few e =
    let n = length l in
    let tail = l ++ (label_bytes ls ++ rest) in
    let e' : drop p buf ≡ n ∷ tail = e ∙ ap (λ x. n ∷ x) (append_assoc l (label_bytes ls) rest) in
    let (size, here) = at p n buf tail e' in
    let room : not (ltb p (length buf)) ≡ false = ground (arith, size) in
    let whole : leb (p + 1 + n) (length buf) ≡ true =
      ground (arith, size, length-append l (label_bytes ls ++ rest)) in
    let some_bytes : (n == 0) ≡ false = ground (arith, v.0.0) in
    let label : from_utf8_lossy (take n (drop (p + 1) buf)) ≡ l =
      ap (λ x. from_utf8_lossy (take n x)) (behind p 1 buf (n ∷ []) tail e' refl)
      ∙ ap from_utf8_lossy (take-append l (label_bytes ls ++ rest) n refl)
      ∙ from_utf8_lossy_text l v.0.2 in
    let next : drop (p + 1 + n) buf ≡ label_bytes ls ++ rest =
      behind (p + 1) n buf l (label_bytes ls ++ rest) (behind p 1 buf (n ∷ []) tail e' refl) refl in
    let end : p + 1 + n + length (label_bytes ls) ≡ p + suc (length (l ++ label_bytes ls)) =
      omega (arith, length-append l (label_bytes ls)) in
    rw room (
      rw here (
        rw (no_pointer n v.0.1) (
          rw some_bytes (
            rw whole (
              ap (λ x. read_from fuel buf (p + 1 + n) resume hops (push_label out x)) label
              ∙ read_from-label_bytes fuel buf (p + 1 + n) resume hops (push_label out l) ls rest
                  v.1 (omega (arith, few)) next
              ∙ ap (λ k. named (pushed (push_label out l) ls) (or_here resume k)) end)))))

pushed-join :
    (out m : List ℕ) (ls : List (List ℕ))
    → 0 < length out
    → pushed out (m ∷ ls) ≡ out ++ 46 ∷ join 46 (m ∷ ls)
unfolding join
pushed-join [] m ls h = absurd (omega (arith, h))
pushed-join (b ∷ out) m [] h = refl
pushed-join (b ∷ out) m (k ∷ ls) h =
    pushed-join (b ∷ out ++ 46 ∷ m) k ls (omega arith)
    ∙ append_assoc (b ∷ out) (46 ∷ m) (46 ∷ join 46 (k ∷ ls))

pushed-nil : (ls : List (List ℕ)) → All IsLabel ls → pushed [] ls ≡ join 46 ls
unfolding join
pushed-nil [] v = refl
pushed-nil (l ∷ []) v = refl
pushed-nil (l ∷ m ∷ ls) v = pushed-join l m ls v.0.0

no_dots : (ls : List (List ℕ)) → All IsLabel ls → All (All (λ c. (c == 46) ≡ false)) ls
no_dots [] v = tt
no_dots (l ∷ ls) v = (v.0.3, no_dots ls v.1)

pub encode_name-label_bytes :
    (ls : List (List ℕ)) → All IsLabel ls → encode_name (join 46 ls) ≡ label_bytes ls
unfolding encode_name
encode_name-label_bytes [] v = unfold encode_labels label_bytes join split in refl
encode_name-label_bytes (l ∷ ls) v =
    ap encode_labels (split-join 46 l ls v.0.3 (no_dots ls v.1))
    ∙ encode_labels-label_bytes (l ∷ ls) v

length-label_bytes : (ls : List (List ℕ)) → length ls < length (label_bytes ls)
unfolding label_bytes
length-label_bytes [] = omega arith
length-label_bytes (l ∷ ls) = omega (arith, length-label_bytes ls, length-append l (label_bytes ls))

-- A name whose labels are text of 1 to 63 bytes without dots is read back from its encoding, wherever
-- that stands in a message, and the read goes on behind it.
pub read_name-encode_name :
    (buf : List ℕ) (p : ℕ) (ls : List (List ℕ)) (rest : List ℕ)
    → All IsLabel ls
    → drop p buf ≡ encode_name (join 46 ls) ++ rest
    → read_name buf p ≡ named (join 46 ls) (p + length (encode_name (join 46 ls)))
unfolding read_name
read_name-encode_name buf p ls rest v e =
    let bytes = encode_name-label_bytes ls v in
    let e' : drop p buf ≡ label_bytes ls ++ rest = e ∙ ap (λ x. x ++ rest) bytes in
    let few : length ls < 17 * (length buf + 1) + 1 = omega (
      arith,
      length-label_bytes ls,
      ap length e',
      length-drop p buf,
      length-append (label_bytes ls) rest,
    ) in
    read_from-label_bytes (17 * (length buf + 1) + 1) buf p none 0 [] ls rest v few e'
    ∙ ap (λ x. named x (p + length (label_bytes ls))) (pushed-nil ls v)
    ∙ ap (λ x. named (join 46 ls) (p + length x)) (sym bytes)
