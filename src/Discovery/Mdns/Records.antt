-- ===== src/Discovery/Mdns/Records.antt =====
-- mdns.rs: the records of a message are read back.
use padwire.Prelude.{
  ℕ, zero, suc, ◌+◌, ◌*◌, ◌/◌, ◌%◌, ◌^◌, ◌≤◌, ◌<◌, ◌≡◌, refl, ap, ◌∙◌, true, false, ◌||◌, some,
  List, [], ◌∷◌, ◌++◌, append_assoc, All, length, take, drop, get_or, length-append, length-drop,
  drop-append, take-append, take_all, min, ltb, leb, ◌==◌, arith,
}
use padwire.Prelude.Text.{join}
use padwire.Usbip.Wire.Text.{IsText}
use padwire.Usbip.Wire.Words.{u16_to_be_bytes, u32_to_be_bytes}
use padwire.Discovery.Mdns.{encode_name, record_bytes, txt_rdata, txt_entries, txt_from, parse_txt}
use padwire.Discovery.Mdns.Lossy.{from_utf8_lossy, from_utf8_lossy_text}
use padwire.Discovery.Mdns.Names.{IsLabel, at, behind, read_name-encode_name}
use padwire.Discovery.Mdns.Browse.{Heard, u16_at, note, collect_each}

pub u16_at-bytes :
    (buf : List ℕ) (q v : ℕ) (rest : List ℕ)
    → v < 65536
    → drop q buf ≡ u16_to_be_bytes v ++ rest
    → u16_at buf q ≡ some v
unfolding u16_at u16_to_be_bytes
u16_at-bytes buf q v rest small e =
    let (size, high) = at q (v / 2 ^ 8 % 256) buf ((v % 256) ∷ rest) e in
    let (size', low) =
      at (q + 1) (v % 256) buf rest
        (behind q 1 buf ((v / 2 ^ 8 % 256) ∷ []) ((v % 256) ∷ rest) e refl) in
    let inside : ltb (q + 1) (length buf) ≡ true = ground (arith, size') in
    let value : get_or buf q 0 * 256 + get_or buf (q + 1) 0 ≡ v = omega (arith, high, low, small) in
    rw inside (ap some value)

-- A record that stands at a position in a message.
abbrev pub Stands : List ℕ → ℕ → List (List ℕ) → ℕ → ℕ → ℕ → List ℕ → List ℕ → Type 0
Stands buf p ls rtype class ttl rdata rest =
    drop p buf ≡ record_bytes (join 46 ls) rtype class ttl rdata ++ rest

abbrev pub data_at : ℕ → List (List ℕ) → ℕ
data_at p ls = p + length (encode_name (join 46 ls)) + 10

-- The fields of a record, one behind the other.
fields :
    (name a b c d rdata rest : List ℕ)
    → (name ++ (a ++ (b ++ (c ++ (d ++ rdata))))) ++ rest
      ≡ name ++ (a ++ (b ++ (c ++ (d ++ (rdata ++ rest)))))
fields name a b c d rdata rest =
    append_assoc name (a ++ (b ++ (c ++ (d ++ rdata)))) rest
    ∙ ap (λ x. name ++ x)
        (append_assoc a (b ++ (c ++ (d ++ rdata))) rest
          ∙ ap (λ x. a ++ x)
              (append_assoc b (c ++ (d ++ rdata)) rest
                ∙ ap (λ x. b ++ x)
                    (append_assoc c (d ++ rdata) rest
                      ∙ ap (λ x. c ++ x) (append_assoc d rdata rest))))

record_at :
    (buf : List ℕ) (p : ℕ) (ls : List (List ℕ)) (rtype class ttl : ℕ) (rdata rest : List ℕ)
    → rtype < 65536
    → length rdata < 65536
    → Stands buf p ls rtype class ttl rdata rest
    → (u16_at buf (p + length (encode_name (join 46 ls))) ≡ some rtype)
      × (u16_at buf (p + length (encode_name (join 46 ls)) + 8) ≡ some (length rdata))
      × (drop (data_at p ls) buf ≡ rdata ++ rest)
unfolding record_bytes u16_to_be_bytes u32_to_be_bytes
record_at buf p ls rtype class ttl rdata rest t small e =
    let name = encode_name (join 46 ls) in
    let n = p + length name in
    let size : length rdata % 2 ^ 16 ≡ length rdata = omega (arith, small) in
    let whole =
      e
      ∙ fields name (u16_to_be_bytes rtype) (u16_to_be_bytes class) (u32_to_be_bytes ttl)
          (u16_to_be_bytes (length rdata % 2 ^ 16)) rdata rest in
    let after_name = behind p (length name) buf name _ whole refl in
    let eight = u16_to_be_bytes rtype ++ (u16_to_be_bytes class ++ u32_to_be_bytes ttl) in
    let sized = u16_to_be_bytes (length rdata % 2 ^ 16) in
    let at_size = behind n 8 buf eight (sized ++ (rdata ++ rest)) after_name refl in
    let at_data = behind n 10 buf (eight ++ sized) (rdata ++ rest) after_name refl in
    (
      u16_at-bytes buf n rtype _ t after_name,
      u16_at-bytes buf (n + 8) (length rdata % 2 ^ 16) (rdata ++ rest) (omega arith) at_size
          ∙ ap some size,
      at_data,
    )

-- One record is noted, and the next is read behind it.
pub collect_each-record :
    (n : ℕ) (buf : List ℕ) (p : ℕ) (ls : List (List ℕ)) (rtype class ttl : ℕ) (rdata rest : List ℕ)
    (h : Heard)
    → All IsLabel ls
    → rtype < 65536
    → length rdata < 65536
    → Stands buf p ls rtype class ttl rdata rest
    → (collect_each (suc n) buf p h
        ≡ collect_each n buf
            (data_at p ls + length rdata)
            (note buf (join 46 ls) rtype (data_at p ls) rdata h))
      × (drop (data_at p ls) buf ≡ rdata ++ rest)
      × (drop (data_at p ls + length rdata) buf ≡ rest)
unfolding collect_each record_bytes
collect_each-record n buf p ls rtype class ttl rdata rest h v t small e =
    let found = record_at buf p ls rtype class ttl rdata rest t small e in
    let name =
      read_name-encode_name buf p ls _ v (e ∙ append_assoc (encode_name (join 46 ls)) _ rest) in
    let data_here : take (length rdata) (drop (data_at p ls) buf) ≡ rdata =
      ap (take (length rdata)) found.2 ∙ take-append rdata rest (length rdata) refl in
    let room : leb (data_at p ls + length rdata) (length buf) ≡ true =
      ground (arith, ap length found.2, length-drop (data_at p ls) buf, length-append rdata rest) in
    (
      rw (name, collect_each)
          (rw (found.0, collect_each)
            (rw (found.1, collect_each)
              (rw room (
                ap
                  (λ d.
                    collect_each n buf (data_at p ls + length rdata)
                      (note buf (join 46 ls) rtype (data_at p ls) d h))
                  data_here)))),
      found.2,
      behind (data_at p ls) (length rdata) buf rdata rest found.2 refl,
    )

-- A text entry that comes back: not empty, of at most 255 bytes.
abbrev pub IsEntry : List ℕ → Type 0
IsEntry e = (0 < length e) × (length e < 256) × IsText e

txt_from-txt_entries :
    (fuel : ℕ) (es : List (List ℕ))
    → All IsEntry es
    → length (txt_entries es) ≤ fuel
    → txt_from fuel (txt_entries es) ≡ es
unfolding txt_from txt_entries
txt_from-txt_entries zero [] v few = refl
txt_from-txt_entries (suc fuel) [] v few = refl
txt_from-txt_entries zero (e ∷ es) v few = absurd (omega (arith, few))
txt_from-txt_entries (suc fuel) (e ∷ es) v few =
    let n : min (length e) 255 ≡ length e = omega (arith, v.0.1) in
    let whole = take_all (length e) e (omega arith) in
    let fits : (length e == 0 || ltb (length (e ++ txt_entries es)) (length e)) ≡ false =
      ground (arith, v.0.0, length-append e (txt_entries es)) in
    let few' : length (txt_entries es) ≤ fuel =
      omega (arith, few, length-append (take (min (length e) 255) e) (txt_entries es)) in
    rw n (
      rw whole (
        rw fits (
          ap (λ x. from_utf8_lossy x ∷ txt_from fuel (drop (length e) (e ++ txt_entries es)))
            (take-append e (txt_entries es) (length e) refl)
          ∙ ap (λ x. x ∷ txt_from fuel (drop (length e) (e ++ txt_entries es)))
              (from_utf8_lossy_text e v.0.2)
          ∙ ap (λ x. e ∷ txt_from fuel x) (drop-append e (txt_entries es) (length e) refl)
          ∙ ap (λ x. e ∷ x) (txt_from-txt_entries fuel es v.1 few'))))

-- The entries of a TXT record are read back.
pub parse_txt-txt_rdata : (es : List (List ℕ)) → All IsEntry es → parse_txt (txt_rdata es) ≡ es
unfolding parse_txt txt_rdata txt_from
parse_txt-txt_rdata [] v = refl
parse_txt-txt_rdata (e ∷ es) v =
    txt_from-txt_entries (length (txt_entries (e ∷ es))) (e ∷ es) v (omega arith)
