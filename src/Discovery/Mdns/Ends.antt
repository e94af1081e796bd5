-- ===== src/Discovery/Mdns/Ends.antt =====
-- mdns.rs, `read_name`: it ends on any bytes.
use Prim.Native.Nat.{bit_and}
use padwire.Prelude.{
  ℕ, zero, suc, ◌+◌, ◌-◌, ◌*◌, ◌≤◌, ◌<◌, ◌≡◌, refl, ◌||◌, not, Option, none, some, List, [], length,
  take, drop, get_or, ltb, leb, ◌==◌, arith, inl, inr, Bool-cases,
}
use padwire.Discovery.Mdns.{
  Read, named, unreadable, no_fuel, read_from, read_name, push_label, or_here,
}
use padwire.Discovery.Mdns.Lossy.{from_utf8_lossy}

-- A result of a read at a position in so many bytes: a name, with the position behind it, which is
-- further on and no further than the end, or nothing.
abbrev pub Reads : ℕ → ℕ → Read → Type 0
Reads p size (named name q) = (p < q) × (q ≤ size)
Reads p size unreadable = Unit {0}
Reads p size no_fuel = ⊥

-- Where the read will go on: from here, or from behind the first pointer.
abbrev IsAhead : ℕ → ℕ → ℕ → Option ℕ → Type 0
IsAhead start p size none = start ≤ p
IsAhead start p size (some r) = (start < r) × (r ≤ size)

abbrev times : ℕ → ℕ → ℕ
times zero n = 0
times (suc k) n = n + times k n

jumped-IsAhead :
    (start p size : ℕ) (resume : Option ℕ) (q : ℕ)
    → IsAhead start p size resume
    → p + 1 < size
    → IsAhead start q size (some (or_here resume (p + 2)))
jumped-IsAhead start p size none q h room = (omega (arith, h), omega (arith, room))
jumped-IsAhead start p size (some r) q h room = h

moved-IsAhead :
    (start p q size : ℕ) (resume : Option ℕ)
    → IsAhead start p size resume
    → p ≤ q
    → IsAhead start q size resume
moved-IsAhead start p q size none h on = omega (arith, h, on)
moved-IsAhead start p q size (some r) h on = h

ended-Reads :
    (start p size : ℕ) (resume : Option ℕ) (out : List ℕ)
    → IsAhead start p size resume
    → p < size
    → Reads start size (named out (or_here resume (p + 1)))
ended-Reads start p size none out h room = (omega (arith, h), omega (arith, room))
ended-Reads start p size (some r) out h room = h

-- A jump that may still be made leaves one less, and enough rounds wherever it goes.
jump_left :
    (size fuel p hops left : ℕ)
    → hops + left ≡ 16
    → size + 1 - p + times left (size + 1) < suc fuel
    → p + 1 < size
    → hops + 1 ≤ 16
    → (k : ℕ) × (hops + 1 + k ≡ 16) × ((q : ℕ) → size + 1 - q + times k (size + 1) < fuel)
jump_left size fuel p hops zero e m inside once = absurd (omega (arith, e, once))
jump_left size fuel p hops (suc k) e m inside once =
    (k, omega (arith, e), λ q. omega (arith, m, inside))

-- `left` jumps may still be made, and each of them starts at most one pass over the buffer.
read_from-Reads :
    (fuel : ℕ) (buf : List ℕ) (start p : ℕ) (resume : Option ℕ) (hops left : ℕ) (out : List ℕ)
    → length buf + 1 - p + times left (length buf + 1) < fuel
    → hops + left ≡ 16
    → IsAhead start p (length buf) resume
    → Reads start (length buf) (read_from fuel buf p resume hops out)
unfolding read_from
read_from-Reads zero buf start p resume hops left out h few ahead = elim h [ ]
read_from-Reads (suc fuel) buf start p resume hops left out h few ahead =
    let len = get_or buf p 0 in
    elim (Bool-cases (not (ltb p (length buf)))) [
      | inl out_of ↦ rw out_of tt
      | inr in_buf ↦
          let room : p < length buf = ground (arith, in_buf) in
          rw in_buf (elim (Bool-cases (bit_and len 0xc0 == 0xc0)) [
            | inl pointer ↦
                rw pointer
                  (elim (Bool-cases (not (ltb (p + 1) (length buf)) || ltb 16 (hops + 1))) [
                    | inl stop ↦ rw stop tt
                    | inr jump ↦
                        let inside : p + 1 < length buf = ground (arith, jump) in
                        let (k, few', less) =
                          jump_left (length buf) fuel p hops left few h inside
                            (ground (arith, jump)) in
                        let q = bit_and len 0x3f * 256 + get_or buf (p + 1) 0 in
                        rw jump (
                          read_from-Reads fuel buf start q (some (or_here resume (p + 2)))
                            (hops + 1) k out (less q) few'
                            (jumped-IsAhead start p (length buf) resume q ahead inside))
                  ])
            | inr plain ↦ rw plain (elim (Bool-cases (len == 0)) [
              | inl last ↦ rw last (ended-Reads start p (length buf) resume out ahead room)
              | inr label ↦ rw label (elim (Bool-cases (leb (p + 1 + len) (length buf))) [
                | inl fits ↦ rw fits (
                    read_from-Reads fuel buf start (p + 1 + len) resume hops left
                      (push_label out (from_utf8_lossy (take len (drop (p + 1) buf))))
                      (omega (arith, h, room)) few
                      (moved-IsAhead start p (p + 1 + len) (length buf) resume ahead (omega arith)))
                | inr short ↦ rw short tt
              ])
            ])
          ])
    ]

-- Reading a name ends on any bytes, whatever pointers stand in them, at a position that is further
-- on and no further than their end.
pub read_name-Reads : (buf : List ℕ) (p : ℕ) → Reads p (length buf) (read_name buf p)
unfolding read_name
read_name-Reads buf p =
    read_from-Reads (17 * (length buf + 1) + 1) buf p p none 0 16 [] (omega arith) refl
      (omega arith)
