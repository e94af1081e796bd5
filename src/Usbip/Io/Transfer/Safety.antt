-- ===== src/Usbip/Io/Transfer/Safety.antt =====
-- What `read_pdu` accepts from a stream that may hold anything.
use padwire.Prelude.{
  ℕ, zero, suc, ◌+◌, ◌*◌, ◌≤◌, ◌≡◌, refl, sym, ap, ◌∙◌, true, List, [], ◌∷◌, ◌++◌, length,
  length-take, length-drop, All, ok, arith, ltb, drop, drop-drop, ◌⊎◌, inl, inr, subst, subst₂,
  length-append,
}
use padwire.Usbip.Wire.Error.{size_cmd_header}
use padwire.Usbip.Wire.Words.{IsByte}
use padwire.Usbip.Wire.Takes.{
  All-drop, All-take, Takes, Takes-bind, Takes-eq, Takes-done, Takes-weaken,
}
use padwire.Usbip.Wire.Reader
use padwire.Usbip.Pdu.{
  Body, Header, IsHeader, IsoPacketDescriptor, IsIso, CmdSubmit, CmdUnlink, cmd_submit, cmd_unlink,
  ret_submit, ret_unlink,
}
use padwire.Usbip.Pdu.Decode.{decode}
use padwire.Usbip.Pdu.Total.{decode_total, IsIso-Takes}
use padwire.Usbip.Io.Stream.{Stream, pure, >>=-elim, Took, read_exact-eq-ok, lift-eq-ok}
use padwire.Usbip.Io.Transfer.{
  Pdu, sizes, get_isos, read_iso, read_pdu, lift_io-eq-ok, result_of, max_iso_packets,
}

-- What `sizes` lets pass is a command, within both limits.
pub record IsWithin (max_transfer : ℕ) (h : Header) (n k : ℕ) : Type 0 where
  pub command :
      ((c : CmdSubmit) × (h.body ≡ cmd_submit c)) ⊎ ((u : CmdUnlink) × (h.body ≡ cmd_unlink u))
  pub data_len : n ≤ max_transfer
  pub iso_n : k ≤ max_iso_packets

sizes_body :
    (max_transfer : ℕ) (h : Header) (b : Body) (n k : ℕ)
    → h.body ≡ b
    → sizes (record h { body = b }) max_transfer ≡ ok (n, k)
    → IsWithin max_transfer h n k
unfolding sizes
sizes_body max_transfer h (cmd_submit c) n k e s = record {
  command = inl (c, e);
  data_len = ground arith;
  iso_n = ground arith;
}
sizes_body max_transfer h (cmd_unlink u) n k e s = record {
  command = inr (u, e);
  data_len = ground arith;
  iso_n = ground arith;
}
sizes_body max_transfer h (ret_submit u) n k e s = cc
sizes_body max_transfer h (ret_unlink u) n k e s = cc

All-append_one :
    (xs : List IsoPacketDescriptor) (x : IsoPacketDescriptor)
    → All IsIso xs
    → IsIso x
    → All IsIso (xs ++ x ∷ [])
All-append_one [] x h p = (p, tt)
All-append_one (y ∷ xs) x h p = (h.0, All-append_one xs x h.1 p)

isos-Takes :
    (n : ℕ) (out : List IsoPacketDescriptor)
    → All IsIso out
    → Takes (n * 16) (get_isos n out) (λ l. All IsIso l × (length l ≡ length out + n))
unfolding get_isos
isos-Takes zero out h = Takes-eq (Takes-done out (h, omega arith)) (omega arith)
isos-Takes (suc n) out h =
    Takes-eq
      (Takes-bind _ _ IsIso-Takes (λ d v.
        Takes-weaken (isos-Takes n (out ++ d ∷ []) (All-append_one out d h v))
          (λ l w. (w.0, omega (arith, w.1, length-append out (d ∷ []))))))
      (omega arith)

-- The descriptors that were read, and the bytes that they took.
record TookIso (n : ℕ) (s : Stream) (iso : List IsoPacketDescriptor) (s' : Stream) : Type 0 where
  fits : All IsIso iso
  count : length iso ≡ n
  enough : n * 16 ≤ length s.incoming
  left : s'.incoming ≡ drop (n * 16) s.incoming

isos_parsed :
    (n : ℕ) (buf : List ℕ) {iso : List IsoPacketDescriptor}
    → All IsByte buf
    → length buf ≡ n * 16
    → result_of (get_isos n [] (Reader.new buf)) ≡ ok iso
    → All IsIso iso × (length iso ≡ n)
unfolding Reader.new
isos_parsed n buf {iso} bs size parsed =
    let (found, e, v) = (isos-Takes n [] tt).at (Reader.new buf) bs (omega arith) in
    let same : found ≡ iso = cc (ap result_of e, parsed) in
    subst (λ l. All IsIso l × (length l ≡ n)) same (v.0, omega (arith, v.1))

read_iso_cases :
    (n : ℕ) (s : Stream) {iso : List IsoPacketDescriptor} {s' : Stream}
    → read_iso n s ≡ ok (iso, s')
    → ((n ≡ 0) × (iso ≡ []) × (s' ≡ s))
      ⊎ ((ibuf : List ℕ) × Took (n * 16) s ibuf s'
          × (result_of (get_isos n [] (Reader.new ibuf)) ≡ ok iso))
unfolding read_iso
read_iso_cases zero s h = unfold pure in inl (refl, ground arith, ground arith)
read_iso_cases (suc n) s h =
    let some_left : ltb 0 (suc n) ≡ true = ground arith in
    >>=-elim _ _ _ (rw some_left at h) λ ibuf s1 e h1.
      let (parsed, same) = lift-eq-ok _ _ h1 in
      inr (ibuf, subst (Took _ s ibuf) (sym same) (read_exact-eq-ok _ s e), parsed)

length-taken : {n : ℕ} {s : Stream} {bs : List ℕ} {s' : Stream} → Took n s bs s' → length bs ≡ n
length-taken {n = n} {s = s} t =
    omega (arith, t.enough, ap length t.taken, length-take n s.incoming)

read_iso-eq-ok :
    (n : ℕ) (s : Stream) {iso : List IsoPacketDescriptor} {s' : Stream}
    → All IsByte s.incoming
    → read_iso n s ≡ ok (iso, s')
    → TookIso n s iso s'
read_iso-eq-ok n s bs h = elim (read_iso_cases n s h) [
  | inl (none_left, empty, same) ↦ record {
    fits = rw empty tt;
    count = ground arith;
    enough = omega arith;
    left = rw (same, none_left) refl;
  }
  | inr (ibuf, t, parsed) ↦
      let bytes : All IsByte ibuf = rw t.taken (All-take IsByte (n * 16) s.incoming bs) in
      let (fits, count) = isos_parsed n ibuf bytes (length-taken t) parsed in
      record { fits = fits; count = count; enough = t.enough; left = rw t.left refl }
]

-- The steps of a call of `read_pdu` that succeeds.
record Steps (max_transfer : ℕ) (s : Stream) (p : Pdu) (s' : Stream) : Type 0 where
  hbuf : List ℕ
  behind_header : Stream
  behind_data : Stream
  lens : ℕ × ℕ
  took_header : Took size_cmd_header s hbuf behind_header
  decoded : decode hbuf ≡ ok p.header
  sized : sizes p.header max_transfer ≡ ok lens
  took_data : Took lens.0 behind_header p.data_bytes behind_data
  took_iso : read_iso lens.1 behind_data ≡ ok (p.iso, s')

read_pdu-Steps :
    (max_transfer : ℕ) (s : Stream) (p : Pdu) (s' : Stream)
    → read_pdu max_transfer s ≡ ok (p, s')
    → Steps max_transfer s p s'
unfolding read_pdu pure
read_pdu-Steps max_transfer s p s' h = >>=-elim _ _ _ h λ hbuf s1 e1 h1.
    >>=-elim _ _ _ h1 λ header s2 e2 h2. >>=-elim _ _ _ h2 λ lens s3 e3 h3.
      >>=-elim _ _ _ h3 λ data_bytes s4 e4 h4. >>=-elim _ _ _ h4 λ iso s5 e5 h5.
        let (decoded, same2) = lift-eq-ok _ _ e2 in
        let (sized, same3) = lift_io-eq-ok _ _ e3 in
        let build : Steps max_transfer s
            (record { header = header; data_bytes = data_bytes; iso = iso }) s5 =
          record {
            hbuf = hbuf;
            behind_header = s1;
            behind_data = s4;
            lens = lens;
            took_header = read_exact-eq-ok _ s e1;
            decoded = decoded;
            sized = sized;
            took_data =
                subst (λ v. Took lens.0 v data_bytes s4) (same3 ∙ same2) (read_exact-eq-ok _ s3 e4);
            took_iso = e5;
          } in
        subst₂ (λ q t. Steps max_transfer s q t) (cc h5) (cc h5) build

decoded-IsHeader :
    (buf : List ℕ) (h : Header)
    → All IsByte buf
    → length buf ≡ size_cmd_header
    → decode buf ≡ ok h
    → IsHeader h
decoded-IsHeader buf h bs size e = elim (decode_total buf bs size) [
  | inl (h', e', v) ↦ subst IsHeader (cc (e, e')) v
  | inr (c, e', _) ↦ cc (e, e')
]

-- What is left behind a read, and that it is still bytes.
incoming_left :
    {n : ℕ} {s : Stream} {bs : List ℕ} {s' : Stream}
    → Took n s bs s'
    → s'.incoming ≡ drop n s.incoming
incoming_left t = ap (λ (v : Stream). v.incoming) t.left

bytes_left :
    {n : ℕ} {s : Stream} {bs : List ℕ} {s' : Stream}
    → Took n s bs s'
    → All IsByte s.incoming
    → All IsByte s'.incoming
bytes_left {n = n} {s = s} t bs = rw (incoming_left t) (All-drop IsByte n s.incoming bs)

abbrev pub Accepted : ℕ → Stream → Pdu → Stream → Type 0
Accepted max_transfer s p s' =
    IsHeader p.header
    × IsWithin max_transfer p.header (length p.data_bytes) (length p.iso)
    × All IsIso p.iso
    × (sizes p.header max_transfer ≡ ok (length p.data_bytes, length p.iso))
    × (size_cmd_header + length p.data_bytes + length p.iso * 16 ≤ length s.incoming)
    × (s'.incoming ≡ drop (size_cmd_header + length p.data_bytes + length p.iso * 16) s.incoming)

accepted :
    {max_transfer : ℕ} {s : Stream} {p : Pdu} {s' : Stream}
    → All IsByte s.incoming
    → Steps max_transfer s p s'
    → Accepted max_transfer s p s'
accepted {max_transfer = m} {s = s} {p = p} bs v =
    let bytes = bytes_left v.took_data (bytes_left v.took_header bs) in
    let isos = read_iso-eq-ok v.lens.1 v.behind_data bytes v.took_iso in
    let data_len = length-taken v.took_data in
    let sized : sizes p.header m ≡ ok (length p.data_bytes, length p.iso) =
      v.sized ∙ (λ i. ok (sym data_len i, sym isos.count i)) in
    let at_header = incoming_left v.took_header in
    let at_data = incoming_left v.took_data in
    let total : size_cmd_header + v.lens.0 + v.lens.1 * 16
        ≡ size_cmd_header + length p.data_bytes + length p.iso * 16 =
      omega (arith, data_len, isos.count) in
    (
      decoded-IsHeader v.hbuf p.header
          (rw v.took_header.taken (All-take IsByte size_cmd_header s.incoming bs))
          (length-taken v.took_header) v.decoded,
      sizes_body m p.header p.header.body _ _ refl sized,
      isos.fits,
      sized,
      omega (
        arith,
        v.took_header.enough,
        v.took_data.enough,
        isos.enough,
        ap length at_header,
        ap length at_data,
        length-drop size_cmd_header s.incoming,
        length-drop v.lens.0 v.behind_header.incoming,
        total,
      ),
      isos.left
          ∙ ap (drop (v.lens.1 * 16)) (
              at_data
              ∙ ap (drop v.lens.0) at_header
              ∙ drop-drop size_cmd_header v.lens.0 s.incoming)
          ∙ drop-drop (size_cmd_header + v.lens.0) (v.lens.1 * 16) s.incoming
          ∙ ap (λ (k : ℕ). drop k s.incoming) total,
    )

-- On a stream of bytes that may hold anything, whatever `read_pdu` accepts is a submit or an unlink
-- whose fields fit their types, with at most `max_transfer` bytes of data and 1024 packet
-- descriptors, as many as its header says; and exactly the message is taken off the stream.
pub read_pdu_accepts :
    (max_transfer : ℕ) (s : Stream) (p : Pdu) (s' : Stream)
    → All IsByte s.incoming
    → read_pdu max_transfer s ≡ ok (p, s')
    → Accepted max_transfer s p s'
read_pdu_accepts max_transfer s p s' bs h = accepted bs (read_pdu-Steps max_transfer s p s' h)
